-- ===== src/PageTable/Release.antt =====
-- `uvmunmap` of Proyecto3/kernel/vm.c over a range of any number of pages.
use oscraft.Common.{
  ℕ, zero, suc, ◌+◌, ◌*◌, ◌%◌, ◌/◌, ◌≤◌, ◌<◌, ◌≡◌, ◌≢◌, refl, sym, ◌∙◌, Bool, true, false, ◌&&◌,
  not, List, ◌∷◌, arith, ltb, ◌==◌, ==_ne, if◌then◌else◌, Bool-cases, inl, inr, has,
}
use oscraft.Riscv.{is_valid, pte2pa, maxva, sv39, u64, pgsize}
use oscraft.Monad.{Returns, Returns-bind, Returns-mono, ok}
use oscraft.Machine.{Machine}
use oscraft.Machine.Cells.{load-ok}
use oscraft.PageTable.{unmap_page, unmap_from, uvmunmap}
use oscraft.PageTable.Shape.{Kind, lookup, entry_at}
use oscraft.PageTable.Write.{lookup-entry_at}
use oscraft.PageTable.Well.{IsWell}
use oscraft.PageTable.Walk.{walk-read}
use oscraft.PageTable.Map.{IsRoot, at_page}
use oscraft.PageTable.Range.{in_range}
use oscraft.PageTable.Entry.{SameUpper}
use oscraft.PageTable.Frame.{IsFreeable, lookup-page}
use oscraft.PageTable.Unmap.{PageUnmapped, unmap_page_keep, unmap_page_free}

-- The frames of the pages that are mapped among `n` pages from `a` on may be freed, and no two of them
-- are one.
pub record HasFrames (kernel_end : ℕ) (own : ℕ → Kind) (pages : List ℕ) (f : ℕ → ℕ) (root a n : ℕ)
    : Type 0 where
  pub frame :
      (i : ℕ)
      → i < n
      → is_valid (lookup f 2 root (a + i * 4096)) ≡ true
      → IsFreeable kernel_end own pages (pte2pa (lookup f 2 root (a + i * 4096)))
  pub apart :
      (i j : ℕ)
      → i < j
      → j < n
      → is_valid (lookup f 2 root (a + i * 4096)) ≡ true
      → is_valid (lookup f 2 root (a + j * 4096)) ≡ true
      → pte2pa (lookup f 2 root (a + i * 4096)) ≢ pte2pa (lookup f 2 root (a + j * 4096))

-- The free pages after the frames of `n` pages from `a` on were given back, in the order of the pages.
abbrev pub released : (ℕ → ℕ) → ℕ → ℕ → ℕ → List ℕ → List ℕ
released f root a zero pages = pages
released f root a (suc n) pages =
    released f root (a + 4096) n
      (if is_valid (lookup f 2 root a) then pte2pa (lookup f 2 root a) ∷ pages else pages)

-- From `m` to `o` the mapped pages among `n` pages from `a` on have lost their entries, and all else is
-- mapped as before.
pub record RangeUnmapped (kernel_end : ℕ) (own : ℕ → Kind) (pages' : List ℕ) (root a n : ℕ)
    (m o : Machine) : Type 0 where
  pub well : IsWell kernel_end own pages' o
  pub upper : SameUpper own m o
  pub after :
      (pt vb : ℕ)
      → IsRoot own pt
      → vb < sv39
      → lookup o.cell 2 pt vb ≡ (
          if in_range root a n pt vb && is_valid (lookup m.cell 2 pt vb)
          then 0
          else lookup m.cell 2 pt vb)

pub released_same :
    (f g : ℕ → ℕ) (root n a : ℕ) (pages : List ℕ)
    → ((i : ℕ) → i < n → lookup g 2 root (a + i * 4096) ≡ lookup f 2 root (a + i * 4096))
    → released g root a n pages ≡ released f root a n pages
released_same f g root zero a pages same = refl
released_same f g root (suc n) a pages same =
    let here : a + 0 * 4096 ≡ a = omega arith in
    let first : lookup g 2 root a ≡ lookup f 2 root a = rw here at (same 0 (omega arith)) in
    let step = λ (i : ℕ). (let e : a + suc i * 4096 ≡ a + 4096 + i * 4096 = omega arith in e) in
    rw first
      (released_same f g root n (a + 4096) _ (λ i lt. rw (step i) at (same (suc i) (omega arith))))

module _ (kernel_end : ℕ) (own : ℕ → Kind) (pages : List ℕ) (m : Machine)
    (well : IsWell kernel_end own pages m) (root va : ℕ) (hr : IsRoot own root)
    (small : va < maxva) where
  -- A page that is not mapped is left alone.
  pub unmap_page_absent :
      (do_free : Bool)
      → is_valid (lookup m.cell 2 root va) ≡ false
      → unmap_page kernel_end root va do_free m ≡ ok tt m
  unfolding unmap_page
  unmap_page_absent do_free v =
      rw (walk-read kernel_end root hr.0 va own m well.tree hr.1 small)
        (elim (Bool-cases (entry_at m.cell 2 root va == 0)) [
          | inl null ↦ rw null
          | inr there ↦
              let ne : entry_at m.cell 2 root va ≢ 0 = ground arith in
              rw (
                there,
                load-ok _ m ne,
                ← lookup-entry_at kernel_end own m.cell well.tree 2 root va ne,
                v,
              )
        ])

-- A page and the range behind it.
joined :
    (root a n pt vb old mid : ℕ)
    → a % 4096 ≡ 0
    → mid ≡ (if at_page root a pt vb && is_valid old then 0 else old)
    → (if in_range root (a + 4096) n pt vb && is_valid mid then 0 else mid)
      ≡ (if in_range root a (suc n) pt vb && is_valid old then 0 else old)
joined root a n pt vb old mid al e = elim (Bool-cases (at_page root a pt vb)) [
  | inl p ↦
      let inside : in_range root a (suc n) pt vb ≡ true = ground arith in
      let behind : in_range root (a + 4096) n pt vb ≡ false = ground arith in
      rw (inside, behind, e, p)
  | inr p ↦
      let same : in_range root (a + 4096) n pt vb ≡ in_range root a (suc n) pt vb = ground arith in
      rw (e, p, same)
]

module _ (kernel_end : ℕ) (own : ℕ → Kind) (root : ℕ) (hr : IsRoot own root) where
  -- the free pages after the page of `a` was unmapped
  abbrev first : (ℕ → ℕ) → ℕ → List ℕ → List ℕ
  first f a pages =
      if is_valid (lookup f 2 root a) then pte2pa (lookup f 2 root a) ∷ pages else pages

  -- the pages behind the first are mapped as before
  behind :
      (a i : ℕ) (pages' : List ℕ) (m o : Machine)
      → a % 4096 ≡ 0
      → a + 4096 + i * 4096 < maxva
      → PageUnmapped kernel_end own pages' root a m o
      → lookup o.cell 2 root (a + 4096 + i * 4096) ≡ lookup m.cell 2 root (a + suc i * 4096)
  behind a i pages' m o al small x =
      let e : a + suc i * 4096 ≡ a + 4096 + i * 4096 = omega arith in
      let apart : at_page root a root (a + 4096 + i * 4096) ≡ false = ground arith in
      rw (e, x.after root (a + 4096 + i * 4096) hr (omega arith), apart)

  HasFrames-behind :
      (a n : ℕ) (pages : List ℕ) (m o : Machine)
      → a % 4096 ≡ 0
      → a + suc n * 4096 ≤ maxva
      → HasFrames kernel_end own pages m.cell root a (suc n)
      → PageUnmapped kernel_end own (first m.cell a pages) root a m o
      → HasFrames kernel_end own (first m.cell a pages) o.cell root (a + 4096) n
  HasFrames-behind a n pages m o al fits h x = record {
    frame = λ i lt v.
        let e = behind a i _ m o al (omega arith) x in
        let v' : is_valid (lookup m.cell 2 root (a + suc i * 4096)) ≡ true = rw e at v in
        let old = h.frame (suc i) (omega arith) v' in
        rw e (record { page = old.page; taken = unused i lt v' old.taken; plain = old.plain });
    apart = λ i j lt lt' v w.
        let e = behind a i _ m o al (omega arith) x in
        let d = behind a j _ m o al (omega arith) x in
        rw (e, d) (h.apart (suc i) (suc j) (omega arith) (omega arith) (rw e at v) (rw d at w));
  }
    where
      unused :
          (i : ℕ)
          → i < n
          → is_valid (lookup m.cell 2 root (a + suc i * 4096)) ≡ true
          → has (pte2pa (lookup m.cell 2 root (a + suc i * 4096))) pages ≡ false
          → has (pte2pa (lookup m.cell 2 root (a + suc i * 4096))) (first m.cell a pages) ≡ false
      unused i lt v out = elim (Bool-cases (is_valid (lookup m.cell 2 root a))) [
        | inl w ↦
            let here : a + 0 * 4096 ≡ a = omega arith in
            let ne = h.apart 0 (suc i) (omega arith) (omega arith) (rw here w) v in
            rw (w, ==_ne _ _ (λ z. ne (rw here (sym z)))) out
        | inr w ↦ rw w out
      ]

  unmap_first :
      (a : ℕ) (pages : List ℕ) (m : Machine)
      → a < maxva
      → IsWell kernel_end own pages m
      → (is_valid (lookup m.cell 2 root a) ≡ true
          → IsFreeable kernel_end own pages (pte2pa (lookup m.cell 2 root a)))
      → Returns
          (λ _ o. PageUnmapped kernel_end own (first m.cell a pages) root a m o)
          (unmap_page kernel_end root a true m)
  unmap_first a pages m small well h = elim (Bool-cases (is_valid (lookup m.cell 2 root a))) [
    | inl v ↦ rw v (unmap_page_free kernel_end own pages m well root a hr small v (h v))
    | inr v ↦
        rw (unmap_page_absent kernel_end own pages m well root a hr small true v, v)
          (record {
            well = well;
            upper = λ p k e i t hi. refl;
            after = λ pt vb hp hb. rw v (ground arith);
          })
  ]

  -- one page more
  further :
      (a n : ℕ) (pages' : List ℕ) (m o r : Machine) (pages'' : List ℕ)
      → a % 4096 ≡ 0
      → PageUnmapped kernel_end own pages' root a m o
      → RangeUnmapped kernel_end own pages'' root (a + 4096) n o r
      → RangeUnmapped kernel_end own pages'' root a (suc n) m r
  further a n pages' m o r pages'' al x y = record {
    well = y.well;
    upper = λ p k e i t hi. y.upper p k e i t hi ∙ x.upper p k e i t hi;
    after = λ pt vb hp hb.
        y.after pt vb hp hb
        ∙ joined root a n pt vb (lookup m.cell 2 pt vb) (lookup o.cell 2 pt vb) al
            (x.after pt vb hp hb ∙ here pt vb);
  }
    where
      here :
          (pt vb : ℕ)
          → (if at_page root a pt vb && is_valid (lookup m.cell 2 root a)
              then 0
              else lookup m.cell 2 pt vb)
            ≡ (if at_page root a pt vb && is_valid (lookup m.cell 2 pt vb)
                then 0
                else lookup m.cell 2 pt vb)
      here pt vb = elim (Bool-cases (at_page root a pt vb)) [
        | inl p ↦
            let space : pt ≡ root = ground arith in
            let page : a / 4096 ≡ vb / 4096 = ground arith in
            let e : lookup m.cell 2 root a ≡ lookup m.cell 2 pt vb =
              rw space (lookup-page m.cell root a vb page) in
            rw (p, e)
        | inr p ↦ rw p
      ]

  unmap_from_free :
      (n a end : ℕ) (pages : List ℕ) (m : Machine)
      → IsWell kernel_end own pages m
      → a % 4096 ≡ 0
      → end ≡ a + n * 4096
      → a + n * 4096 ≤ maxva
      → HasFrames kernel_end own pages m.cell root a n
      → Returns
          (λ _ o. RangeUnmapped kernel_end own (released m.cell root a n pages) root a n m o)
          (unmap_from kernel_end n root a end true m)
  unfolding unmap_from
  unmap_from_free zero a end pages m well al e fits h =
      let stop : ltb a end ≡ false = ground arith in
      rw stop (record {
        well = well;
        upper = λ p k e i t hi. refl;
        after = λ pt vb hp hb. let out : in_range root a 0 pt vb ≡ false = ground arith in rw out;
      })
  unmap_from_free (suc n) a end pages m well al e fits h =
      let go : ltb a end ≡ true = ground arith in
      let next : u64 (a + 4096) ≡ a + 4096 = omega arith in
      let here : a + 0 * 4096 ≡ a = omega arith in
      rw (go, next)
        (Returns-bind _ (unmap_page kernel_end root a true m) _
          (unmap_first a pages m (omega arith) well
            (λ v. rw here at (h.frame 0 (omega arith) (rw here v))))
          λ _ o x.
            Returns-mono (unmap_from kernel_end n root (a + 4096) end true o)
              (unmap_from_free n (a + 4096) end (first m.cell a pages) o x.well (omega arith)
                (omega arith) (omega arith) (HasFrames-behind a n pages m o al fits h x))
              λ _ r y. further a n (first m.cell a pages) m o r _ al x (
                rw (released_same m.cell o.cell root n (a + 4096) (first m.cell a pages) (same o x))
                  at y))
    where
      same :
          (o : Machine)
          → PageUnmapped kernel_end own (first m.cell a pages) root a m o
          → (i : ℕ) → i < n
          → lookup o.cell 2 root (a + 4096 + i * 4096) ≡ lookup m.cell 2 root (a + 4096 + i * 4096)
      same o x i lt =
          let e : a + suc i * 4096 ≡ a + 4096 + i * 4096 = omega arith in
          rw e at (behind a i _ m o al (omega arith) x)

  -- Where the free list and the page tables are well formed: for `n` pages of a space from an aligned
  -- address on up to MAXVA, whose frames may be freed and are distinct, `uvmunmap` with freeing returns.
  -- The frames of those that were mapped are in front of the free pages, the last of them first; none of
  -- the `n` pages is mapped any more, and every other page of every space is mapped as before.
  pub uvmunmap_free :
      (n va : ℕ) (pages : List ℕ) (m : Machine)
      → IsWell kernel_end own pages m
      → va % 4096 ≡ 0
      → va + n * 4096 ≤ maxva
      → HasFrames kernel_end own pages m.cell root va n
      → Returns
          (λ _ o. RangeUnmapped kernel_end own (released m.cell root va n pages) root va n m o)
          (uvmunmap kernel_end root va n true m)
  unfolding uvmunmap
  uvmunmap_free n va pages m well al fits h =
      let aligned : not (va % pgsize == 0) ≡ false = ground arith in
      let end : u64 (va + u64 (n * 4096)) ≡ va + n * 4096 = omega arith in
      rw (aligned, end) (unmap_from_free n va (va + n * 4096) pages m well al refl fits h)

  unmap_from_keep :
      (n a end : ℕ) (pages : List ℕ) (m : Machine)
      → IsWell kernel_end own pages m
      → a % 4096 ≡ 0
      → end ≡ a + n * 4096
      → a + n * 4096 ≤ maxva
      → Returns
          (λ _ o. RangeUnmapped kernel_end own pages root a n m o)
          (unmap_from kernel_end n root a end false m)
  unfolding unmap_from
  unmap_from_keep zero a end pages m well al e fits =
      let stop : ltb a end ≡ false = ground arith in
      rw stop (record {
        well = well;
        upper = λ p k e i t hi. refl;
        after = λ pt vb hp hb. let out : in_range root a 0 pt vb ≡ false = ground arith in rw out;
      })
  unmap_from_keep (suc n) a end pages m well al e fits =
      let go : ltb a end ≡ true = ground arith in
      let next : u64 (a + 4096) ≡ a + 4096 = omega arith in
      rw (go, next)
        (Returns-bind _ (unmap_page kernel_end root a false m) _
          (unmap_page_keep kernel_end own pages m well root a hr (omega arith))
          λ _ o x.
            Returns-mono (unmap_from kernel_end n root (a + 4096) end false o)
              (unmap_from_keep n (a + 4096) end pages o x.well (omega arith) (omega arith)
                (omega arith))
              λ _ r y. further a n pages m o r pages al x y)

  -- Where the free list and the page tables are well formed: `uvmunmap` without freeing, for `n` pages of
  -- a space from an aligned address on up to MAXVA, returns with the free pages as they were. None of the
  -- `n` pages is mapped any more, and every other page of every space is mapped as before.
  pub uvmunmap_keep :
      (n va : ℕ) (pages : List ℕ) (m : Machine)
      → IsWell kernel_end own pages m
      → va % 4096 ≡ 0
      → va + n * 4096 ≤ maxva
      → Returns
          (λ _ o. RangeUnmapped kernel_end own pages root va n m o)
          (uvmunmap kernel_end root va n false m)
  unfolding uvmunmap
  uvmunmap_keep n va pages m well al fits =
      let aligned : not (va % pgsize == 0) ≡ false = ground arith in
      let end : u64 (va + u64 (n * 4096)) ≡ va + n * 4096 = omega arith in
      rw (aligned, end) (unmap_from_keep n va (va + n * 4096) pages m well al refl fits)
