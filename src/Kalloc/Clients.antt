-- ===== src/Kalloc/Clients.antt =====
-- The allocator of kalloc.c over a whole sequence of requests, against a stock of pages: a stack of free
-- pages and the set of those that were handed out.
use oscraft.Common.{
  ℕ, ◌≡◌, ◌≢◌, refl, ◌∙◌, Bool, true, false, List, [], ◌∷◌, arith, ◌==◌, ==_iff, ==_ne,
  if◌then◌else◌, Bool-cases, inl, inr, has,
}
use oscraft.Monad.{Returns, Returns-bind, Returns-mono, pure, ◌>>=◌, ◌>>◌}
use oscraft.Machine.{Machine, M, in_page}
use oscraft.Kalloc.{kfree, kalloc}
use oscraft.Kalloc.FreeList.{IsPage, kalloc-nil}
use oscraft.Kalloc.Contract.{IsFree, kfree-cons, kalloc-cons}

pub data Request : Type 0 where
  allocate : Request
  release : ℕ → Request

-- The requests one after the other; the results are those of `kalloc`.
unfoldable pub perform : ℕ → List Request → M (List ℕ)
perform kernel_end [] = pure []
perform kernel_end (allocate ∷ l) = do p ← kalloc; rest ← perform kernel_end l; pure (p ∷ rest)
perform kernel_end (release p ∷ l) = do kfree kernel_end p; perform kernel_end l

pub record Stock : Type 0 where
  pub free : List ℕ
  pub held : ℕ → Bool

-- the results of the requests, and the stock after them
abbrev pub serve : List Request → (free : List ℕ) → (held : ℕ → Bool) → List ℕ × Stock
serve [] free held = ([], record { free = free; held = held })
serve (allocate ∷ l) [] held = let rest = serve l [] held in (0 ∷ rest.0, rest.1)
serve (allocate ∷ l) (p ∷ free) held =
    let rest = serve l free (λ a. if a == p then true else held a) in (p ∷ rest.0, rest.1)
serve (release p ∷ l) free held = serve l (p ∷ free) (λ a. if a == p then false else held a)

-- Each page that is released is held at that time.
abbrev pub ArePermitted : List Request → (free : List ℕ) → (held : ℕ → Bool) → Type 0
ArePermitted [] free held = Unit {0}
ArePermitted (allocate ∷ l) [] held = ArePermitted l [] held
ArePermitted (allocate ∷ l) (p ∷ free) held =
    ArePermitted l free (λ a. if a == p then true else held a)
ArePermitted (release p ∷ l) free held =
    (held p ≡ true) × ArePermitted l (p ∷ free) (λ a. if a == p then false else held a)

-- The machine's free pages are those of the stock, and a page that is held is a page and not free.
pub record Stocked (kernel_end : ℕ) (free : List ℕ) (held : ℕ → Bool) (m : Machine) : Type 0 where
  pub listed : IsFree kernel_end free m
  pub is_page : (a : ℕ) → held a ≡ true → IsPage kernel_end a
  pub apart : (a : ℕ) → held a ≡ true → has a free ≡ false

-- the page at `p` is not released by the requests
abbrev pub Keeps : ℕ → List Request → Type 0
Keeps p [] = Unit {0}
Keeps p (allocate ∷ l) = Keeps p l
Keeps p (release q ∷ l) = (p ≢ q) × Keeps p l

-- A run of the requests gives the results and the stock of `serve`, and leaves the words alone of every
-- page that is held and not released.
abbrev pub Served : ℕ → List Request → List ℕ → (ℕ → Bool) → Machine → List ℕ → Machine → Type 0
Served kernel_end l free held m r n =
    (r ≡ (serve l free held).0)
    × Stocked kernel_end (serve l free held).1.free (serve l free held).1.held n
    × ((p a : ℕ) → held p ≡ true → Keeps p l → in_page p a ≡ true → n.cell a ≡ m.cell a)

module _ (kernel_end : ℕ) where
  -- words of one page are no words of another
  other_page :
      (p q a : ℕ)
      → IsPage kernel_end p
      → IsPage kernel_end q
      → p ≢ q
      → in_page p a ≡ true
      → in_page q a ≡ false
  other_page p q a hp hq ne h = let u = hp.aligned in let v = hq.aligned in ground arith

  Stocked-hand_out :
      (p : ℕ) (free : List ℕ) (held : ℕ → Bool) (m n : Machine)
      → Stocked kernel_end (p ∷ free) held m
      → IsFree kernel_end free n
      → Stocked kernel_end free (λ a. if a == p then true else held a) n
  Stocked-hand_out p free held m n h listed = record {
    listed = listed;
    is_page = λ a i. elim (Bool-cases (a == p)) [
      | inl e ↦ rw ((==_iff a p).0 e) h.listed.1
      | inr e ↦ h.is_page a (rw e at i)
    ];
    apart = λ a i. elim (Bool-cases (a == p)) [
      | inl e ↦ rw ((==_iff a p).0 e) h.listed.2
      | inr e ↦ let old = h.apart a (rw e at i) in rw e at old
    ];
  }

  Stocked-take_back :
      (p : ℕ) (free : List ℕ) (held : ℕ → Bool) (m n : Machine)
      → Stocked kernel_end free held m
      → IsFree kernel_end (p ∷ free) n
      → Stocked kernel_end (p ∷ free) (λ a. if a == p then false else held a) n
  Stocked-take_back p free held m n h listed = record {
    listed = listed;
    is_page = λ a i. h.is_page a (ground arith);
    apart = λ a i. elim (Bool-cases (a == p)) [
      | inl e ↦ absurd (ground arith)
      | inr e ↦ let old = h.apart a (rw e at i) in rw e old
    ];
  }

  -- For an allocator whose stock of free and held pages is described by `free` and `held`, and requests
  -- that release only pages held at that time: the requests never panic, `kalloc` returns the pages that
  -- the stock hands out, 0 exactly when it is empty, no page is free and held at the end, and the words of
  -- a page that is held from the start and not released are as before.
  pub perform-serve :
      (l : List Request) (free : List ℕ) (held : ℕ → Bool) (m : Machine)
      → Stocked kernel_end free held m
      → ArePermitted l free held
      → Returns (λ r n. Served kernel_end l free held m r n) (perform kernel_end l m)
  unfolding perform
  perform-serve [] free held m h legal = (refl, h, λ p a i keeps inside. refl)
  perform-serve (allocate ∷ l) [] held m h legal = rw (kalloc-nil kernel_end m h.listed) (
      Returns-bind _ (perform kernel_end l m) _ (perform-serve l [] held m h legal)
        λ r n y. (rw y.0, y.1, y.2))
  perform-serve (allocate ∷ l) (p ∷ free) held m h legal =
      Returns-bind _ (kalloc m) _ (kalloc-cons kernel_end p free m h.listed) λ q n x.
        Returns-bind _ (perform kernel_end l n) _
          (perform-serve l free _ n (Stocked-hand_out p free held m n h x.2) legal)
          λ r n' y. (
            rw (x.0, y.0),
            y.1,
            λ s a i keeps inside.
                y.2 s a (ground arith) keeps inside
                ∙ x.3 a (
                    other_page s p a (h.is_page s i) h.listed.1
                      (λ z. absurd (let t = h.apart s i in ground arith)) inside),
          )
  perform-serve (release p ∷ l) free held m h legal =
      let page = h.is_page p legal.0 in
      Returns-bind _ (kfree kernel_end p m) _
        (kfree-cons kernel_end p free m page (h.apart p legal.0) h.listed)
        λ q n x.
          Returns-mono (perform kernel_end l n)
            (perform-serve l (p ∷ free) _ n (Stocked-take_back p free held m n h x.0) legal.1)
            λ r n' y. (
              y.0,
              y.1,
              λ s a i keeps inside.
                  y.2 s a (rw (==_ne s p keeps.0) i) keeps.1 inside
                  ∙ x.1 a (other_page s p a (h.is_page s i) page keeps.0 inside),
            )
