-- ===== src/Kalloc/FreeList.antt =====
-- The free list as the pages that it links, and what `kfree`, `kalloc` and `get_free_memory` do to it.
use oscraft.Common.{
  ℕ, zero, suc, ◌+◌, ◌*◌, ◌%◌, ◌≤◌, ◌<◌, ◌≡◌, ◌≢◌, refl, true, false, List, [], ◌∷◌, arith, ◌==◌,
  ==_iff, ==_refl, Bool-cases, if◌then◌else◌, inl, inr, length, sym, ◌∙◌, has, has_ne,
}
use oscraft.Riscv.{phystop, u64}
use oscraft.Monad.{ok}
use oscraft.Machine.{Machine, update, in_page, splat, load, store, memset_page}
use oscraft.Kalloc.{kfree, kalloc, count_free}

-- The address of a page that the allocator may own.
pub record IsPage (kernel_end pa : ℕ) : Type 0 where
  pub aligned : pa % 4096 ≡ 0
  pub above : kernel_end ≤ pa
  pub below : pa < phystop
  pub not_null : pa ≢ 0

-- From `r` the links lead through the distinct pages `pages` to the null pointer.
abbrev pub FreeList : (ℕ → ℕ) → ℕ → ℕ → List ℕ → Type 0
FreeList cell kernel_end r [] = r ≡ 0
FreeList cell kernel_end r (p ∷ pages) =
    (r ≡ p) × IsPage kernel_end p × (has p pages ≡ false) × FreeList cell kernel_end (cell p) pages

-- No link of the list lies in the page at `pa`.
abbrev pub Spares : (ℕ → ℕ) → (ℕ → ℕ) → List ℕ → Type 0
Spares f g pages = (a : ℕ) → has a pages ≡ true → g a ≡ f a

pub FreeList-frame :
    (f g : ℕ → ℕ) (kernel_end r : ℕ) (pages : List ℕ)
    → Spares f g pages
    → FreeList f kernel_end r pages
    → FreeList g kernel_end r pages
FreeList-frame f g kernel_end r [] same h = h
FreeList-frame f g kernel_end r (p ∷ pages) same h = (
  h.0,
  h.1,
  h.2,
  rw (same p (ground arith))
      (FreeList-frame f g kernel_end (f p) pages (λ a i. same a (ground arith)) h.3),
)

-- every page of the list is a page of the allocator
pub FreeList-IsPage :
    (f : ℕ → ℕ) (kernel_end r a : ℕ) (pages : List ℕ)
    → FreeList f kernel_end r pages
    → has a pages ≡ true
    → IsPage kernel_end a
FreeList-IsPage f kernel_end r a [] h i = absurd (ground arith)
FreeList-IsPage f kernel_end r a (p ∷ pages) h i = elim (Bool-cases (a == p)) [
  | inl e ↦ rw ((==_iff a p).0 e) h.1
  | inr e ↦ FreeList-IsPage f kernel_end (f p) a pages h.3 (rw e at i)
]

-- the links lead through one list of pages
pub FreeList-unique :
    (f : ℕ → ℕ) (kernel_end r : ℕ) (l pages : List ℕ)
    → FreeList f kernel_end r l
    → FreeList f kernel_end r pages
    → l ≡ pages
FreeList-unique f kernel_end r [] [] h g = refl
FreeList-unique f kernel_end r [] (p ∷ pages) h g = absurd (g.1.not_null (sym g.0 ∙ h))
FreeList-unique f kernel_end r (q ∷ l) [] h g = absurd (h.1.not_null (sym h.0 ∙ g))
FreeList-unique f kernel_end r (q ∷ l) (p ∷ pages) h g =
    let same : q ≡ p = sym h.0 ∙ g.0 in
    let rest = FreeList-unique f kernel_end (f p) l pages (rw same at h.3) g.3 in rw (same, rest)

-- two pages whose addresses differ have no word in common
pub pages_apart :
    (kernel_end p q : ℕ) → IsPage kernel_end p → IsPage kernel_end q → p ≢ q → in_page p q ≡ false
pages_apart kernel_end p q hp hq ne = ground arith

-- The machine after `kfree`.
abbrev pub freed : ℕ → Machine → Machine
freed pa m = record m {
  cell = update (λ a. if in_page pa a then splat 1 else m.cell a) pa m.freelist;
  freelist = pa;
}

-- The machine after `kalloc` took the page at `r`.
abbrev pub taken : ℕ → Machine → Machine
taken r m = record m { cell = λ a. if in_page r a then splat 5 else m.cell a; freelist = m.cell r }

module _ (kernel_end : ℕ) where
  -- `kfree` of a page of the allocator links it in front of the free list.
  pub kfree-ok :
      (pa : ℕ) (m : Machine) → IsPage kernel_end pa → kfree kernel_end pa m ≡ ok tt (freed pa m)
  unfolding kfree memset_page store
  kfree-ok pa m h = ground arith

  pub freed-FreeList :
      (pa : ℕ) (m : Machine) (pages : List ℕ)
      → IsPage kernel_end pa
      → has pa pages ≡ false
      → FreeList m.cell kernel_end m.freelist pages
      → FreeList (freed pa m).cell kernel_end pa (pa ∷ pages)
  freed-FreeList pa m pages page new h = (
    refl,
    page,
    new,
    rw (==_refl pa)
        (FreeList-frame m.cell (freed pa m).cell kernel_end m.freelist pages (λ a i. kept a i) h),
  )
    where
      kept : (a : ℕ) → has a pages ≡ true → (freed pa m).cell a ≡ m.cell a
      kept a i =
          let ne : a ≢ pa = has_ne a pa pages i new in
          let outside : in_page pa a ≡ false =
            pages_apart kernel_end pa a page
              (FreeList-IsPage m.cell kernel_end m.freelist a pages h i) (λ e. ne (sym e)) in
          ground arith

  pub kalloc-nil : (m : Machine) → m.freelist ≡ 0 → kalloc m ≡ ok 0 m
  unfolding kalloc
  kalloc-nil m h = ground arith

  pub kalloc-ok : (r : ℕ) (m : Machine) → m.freelist ≡ r → r ≢ 0 → kalloc m ≡ ok r (taken r m)
  unfolding kalloc load memset_page
  kalloc-ok r m e ne = ground arith

  pub taken-FreeList :
      (r : ℕ) (m : Machine) (pages : List ℕ)
      → FreeList m.cell kernel_end m.freelist (r ∷ pages)
      → FreeList (taken r m).cell kernel_end (taken r m).freelist pages
  taken-FreeList r m pages h =
      FreeList-frame m.cell (taken r m).cell kernel_end (m.cell r) pages kept h.3
    where
      kept : (a : ℕ) → has a pages ≡ true → (taken r m).cell a ≡ m.cell a
      kept a i =
          let ne : a ≢ r = has_ne a r pages i h.2 in
          let outside : in_page r a ≡ false =
            pages_apart kernel_end r a h.1
              (FreeList-IsPage m.cell kernel_end (m.cell r) a pages h.3 i) (λ e. ne (sym e)) in
          ground arith

  -- the count of `get_free_memory` from a link of the list on
  pub count_free_lem :
      (rounds r acc : ℕ) (m : Machine) (pages : List ℕ)
      → FreeList m.cell kernel_end r pages
      → length pages ≤ rounds
      → acc < 18446744073709551616
      → count_free rounds r acc m ≡ ok (u64 (acc + 4096 * length pages)) m
  unfolding count_free load
  count_free_lem zero r acc m [] h le small = ground arith
  count_free_lem (suc rounds) r acc m [] h le small = ground arith
  count_free_lem zero r acc m (p ∷ pages) h le small = absurd (omega arith)
  count_free_lem (suc rounds) r acc m (p ∷ pages) h le small =
      ground (arith, count_free_lem rounds (m.cell p) (u64 (acc + 4096)) m pages h.3)
