-- ===== src/PageTable/Entry.antt =====
-- Writing the entry of a page of an address space: a new entry, a cleared one, or a changed flag.
use mathlib.Core.Bool.{false≢true}
use oscraft.Common.{ℕ, suc, ◌+◌, ◌*◌, ◌<◌, ◌≡◌, ◌≢◌, sym, ◌∙◌, true, List, ap, if◌then◌else◌}
use oscraft.Riscv.{px, is_valid, maxva, sv39}
use oscraft.Machine.{Machine}
use oscraft.PageTable.Shape.{Kind, table, lookup, entry_at, px-lt}
use oscraft.PageTable.Write.{entry_at-table, lookup-write, kept}
use oscraft.PageTable.Well.{IsWell}
use oscraft.PageTable.Map.{IsRoot, at_page, stored, stored-IsWell, entry_at-at_page}
use oscraft.PageTable.Access.{lookup_none}

-- The words of the tables above the lowest level are the same.
abbrev pub SameUpper : (ℕ → Kind) → Machine → Machine → Type 0
SameUpper own m n =
    (p k e i : ℕ) → own p ≡ table (suc k) e → i < 512 → n.cell (p + 8 * i) ≡ m.cell (p + 8 * i)

module _ (kernel_end : ℕ) (own : ℕ → Kind) (pages : List ℕ) (m : Machine)
    (well : IsWell kernel_end own pages m) (root va : ℕ) (hr : IsRoot own root)
    (small : va < maxva) where
  -- The address space with the new entry.
  pub write-after :
      (v : ℕ)
      → entry_at m.cell 2 root va ≢ 0
      → (pt vb : ℕ) → IsRoot own pt
      → vb < sv39
      → lookup (stored (entry_at m.cell 2 root va) v m).cell 2 pt vb
        ≡ (if at_page root va pt vb then v else lookup m.cell 2 pt vb)
  write-after v ne pt vb hp hb =
      let (q, e, low, place) =
        entry_at-table kernel_end own m.cell well.tree 2 root hr.0 va hr.1 ne in
      rw (← place) at (
        lookup-write kernel_end own m.cell well.tree q e (px 0 va) v low (px-lt 0 va) 2 pt hp.0 vb
          hp.1)
      ∙ rw (entry_at-at_page kernel_end own m.cell root va pt vb well.tree hr hp small hb ne)

  pub write-IsWell :
      (v : ℕ)
      → entry_at m.cell 2 root va ≢ 0
      → IsWell kernel_end own pages (stored (entry_at m.cell 2 root va) v m)
  write-IsWell v ne =
      let (q, e, low, place) =
        entry_at-table kernel_end own m.cell well.tree 2 root hr.0 va hr.1 ne in
      rw place (stored-IsWell kernel_end own pages m q e (px 0 va) v well low (px-lt 0 va))

  pub write-SameUpper :
      (v : ℕ)
      → entry_at m.cell 2 root va ≢ 0
      → SameUpper own m (stored (entry_at m.cell 2 root va) v m)
  write-SameUpper v ne =
      let (q, e, low, place) =
        entry_at-table kernel_end own m.cell well.tree 2 root hr.0 va hr.1 ne in
      rw place (λ p k ptr i h hi.
        kept kernel_end own m.cell well.tree q e (px 0 va) v low (px-lt 0 va) p k ptr i h hi)

  -- A page whose entry is valid has an entry.
  pub entry_at-ne : is_valid (lookup m.cell 2 root va) ≡ true → entry_at m.cell 2 root va ≢ 0
  entry_at-ne v z =
      false≢true
        (ap is_valid (sym (lookup_none kernel_end own m.cell 2 root hr.0 va well.tree hr.1 z)) ∙ v)
