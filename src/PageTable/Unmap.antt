-- ===== src/PageTable/Unmap.antt =====
-- Taking a page out of a page table, with or without freeing its memory.
use oscraft.Common.{
  ℕ, suc, ◌<◌, ◌≡◌, ◌≢◌, refl, sym, ◌∙◌, Bool, true, false, ◌&&◌, List, ◌∷◌, arith, ◌==◌, ==_iff,
  ==_ne, if◌then◌else◌, Bool-cases, inl, inr,
}
use oscraft.Riscv.{is_valid, pte2pa, maxva, sv39}
use oscraft.Monad.{Returns}
use oscraft.Machine.{Machine}
use oscraft.Machine.Cells.{load-ok, store-ok}
use oscraft.Kalloc.FreeList.{freed, kfree-ok}
use oscraft.PageTable.{unmap_page}
use oscraft.PageTable.Shape.{Kind, lookup, entry_at}
use oscraft.PageTable.Write.{lookup-entry_at}
use oscraft.PageTable.Well.{IsWell}
use oscraft.PageTable.Walk.{walk-read}
use oscraft.PageTable.Map.{IsRoot, at_page}
use oscraft.PageTable.Access.{lookup_none}
use oscraft.PageTable.Frame.{lookup-frame, entry_at-frame, IsFreeable, freed_tables, freed-IsWell}
use oscraft.PageTable.Entry.{write-after, write-IsWell, entry_at-ne, SameUpper, write-SameUpper}

-- What `unmap_page` does from `m` to `n`: a valid entry of the page of `va` in `root` becomes 0, and
-- all else is mapped as before; `pages'` are the free pages.
pub record PageUnmapped (kernel_end : ℕ) (own : ℕ → Kind) (pages' : List ℕ) (root va : ℕ)
    (m n : Machine) : Type 0 where
  pub well : IsWell kernel_end own pages' n
  pub upper : SameUpper own m n
  pub after :
      (pt vb : ℕ)
      → IsRoot own pt
      → vb < sv39
      → lookup n.cell 2 pt vb ≡ (
          if at_page root va pt vb && is_valid (lookup m.cell 2 root va)
          then 0
          else lookup m.cell 2 pt vb)

and_false : (b : Bool) (x y : ℕ) → (if b && false then x else y) ≡ y
and_false true x y = refl
and_false false x y = refl

and_true : (b : Bool) (x y : ℕ) → (if b then x else y) ≡ (if b && true then x else y)
and_true true x y = refl
and_true false x y = refl

module _ (kernel_end : ℕ) (own : ℕ → Kind) (pages : List ℕ) (m : Machine)
    (well : IsWell kernel_end own pages m) (root va : ℕ) (hr : IsRoot own root)
    (small : va < maxva) where
  unchanged :
      is_valid (lookup m.cell 2 root va) ≡ false → PageUnmapped kernel_end own pages root va m m
  unchanged h = record {
    well = well;
    upper = λ p k e i h hi. refl;
    after = λ pt vb hp hb. rw h (sym (and_false (at_page root va pt vb) 0 (lookup m.cell 2 pt vb)));
  }

module _ (kernel_end : ℕ) (own : ℕ → Kind) (pages : List ℕ) (m : Machine)
    (well : IsWell kernel_end own pages m) (root va : ℕ) (hr : IsRoot own root)
    (small : va < maxva) where
  -- Where the free list and the page tables are well formed: `unmap_page` without freeing, for a page
  -- of a space below MAXVA, returns with the free pages as they were. Afterwards the page is not
  -- mapped, every other page of every space is mapped as before, and all stays well formed.
  pub unmap_page_keep :
      Returns
        (λ _ n. PageUnmapped kernel_end own pages root va m n)
        (unmap_page kernel_end root va false m)
  unfolding unmap_page
  unmap_page_keep =
      rw (walk-read kernel_end root hr.0 va own m well.tree hr.1 small)
        (elim (Bool-cases (entry_at m.cell 2 root va == 0)) [
          | inl null ↦ rw null (
              unchanged kernel_end own pages m well root va hr small (
                rw (
                  lookup_none kernel_end own m.cell 2 root hr.0 va well.tree hr.1
                    ((==_iff _ _).0 null))))
          | inr there ↦
              let ne : entry_at m.cell 2 root va ≢ 0 = ground arith in
              let read = lookup-entry_at kernel_end own m.cell well.tree 2 root va ne in
              rw (there, load-ok _ m ne, ← read)
                (elim (Bool-cases (is_valid (lookup m.cell 2 root va))) [
                  | inl v ↦
                      rw (v, store-ok _ 0 m ne)
                        (record {
                          well = write-IsWell kernel_end own pages m well root va hr small 0 ne;
                          upper = write-SameUpper kernel_end own pages m well root va hr small 0 ne;
                          after = λ pt vb hp hb.
                              write-after kernel_end own pages m well root va hr small 0 ne pt vb hp
                                hb
                              ∙ rw v (and_true (at_page root va pt vb) 0 (lookup m.cell 2 pt vb));
                        })
                  | inr v ↦ rw v (unchanged kernel_end own pages m well root va hr small v)
                ])
        ])

  -- Where the free list and the page tables are well formed: for a page of a space below MAXVA that
  -- is mapped to a frame which may be freed, `unmap_page` with freeing returns. Afterwards that frame
  -- is the first free page before the others, the page is not mapped, every other page of every space
  -- is mapped as before, and all stays well formed.
  pub unmap_page_free :
      is_valid (lookup m.cell 2 root va) ≡ true
      → IsFreeable kernel_end own pages (pte2pa (lookup m.cell 2 root va))
      → Returns
          (λ _ n.
            PageUnmapped kernel_end own (pte2pa (lookup m.cell 2 root va) ∷ pages) root va m n)
          (unmap_page kernel_end root va true m)
  unfolding unmap_page
  unmap_page_free v h =
      let pa = pte2pa (lookup m.cell 2 root va) in
      let ne : entry_at m.cell 2 root va ≢ 0 =
        entry_at-ne kernel_end own pages m well root va hr small v in
      let read = lookup-entry_at kernel_end own m.cell well.tree 2 root va ne in
      let tables = freed_tables kernel_end own pages m well pa h in
      let entry =
        entry_at-frame kernel_end own m.cell (freed pa m).cell well.tree tables 2 root hr.0 va
          hr.1 in
      let well' = freed-IsWell kernel_end own pages m well pa h in
      rw
        (
          walk-read kernel_end root hr.0 va own m well.tree hr.1 small,
          ==_ne _ 0 ne,
          load-ok _ m ne,
          ← read,
          v,
          kfree-ok kernel_end pa m h.page,
          store-ok _ 0 (freed pa m) ne,
          ← entry,
        )
        (record {
          well =
              write-IsWell kernel_end own (pa ∷ pages) (freed pa m) well' root va hr small 0
                (rw entry ne);
          upper = λ p k e i h hi.
              write-SameUpper kernel_end own (pa ∷ pages) (freed pa m) well' root va hr small 0
                (rw entry ne) p k e i h hi
              ∙ tables p (suc k) e i h hi;
          after = λ pt vb hp hb.
              write-after kernel_end own (pa ∷ pages) (freed pa m) well' root va hr small 0
                (rw entry ne) pt vb hp hb
              ∙ rw
                  (
                    v,
                    lookup-frame kernel_end own m.cell (freed pa m).cell well.tree tables 2 pt hp.0
                        vb hp.1,
                  )
                  (and_true (at_page root va pt vb) 0 (lookup m.cell 2 pt vb));
        })
