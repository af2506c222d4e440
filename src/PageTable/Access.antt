-- ===== src/PageTable/Access.antt =====
-- Reading a page table, and taking a page out of it.
use oscraft.Common.{
  ap, sym, ℕ, zero, suc, Option, none, some, ◌%◌, ◌/◌, ◌+◌, ◌*◌, ◌<◌, ◌≡◌, ◌≢◌, ◌&&◌, arith, leb,
  ◌==◌, ==_iff, if◌then◌else◌, Bool-cases, inl, inr,
}
use oscraft.Riscv.{px, is_valid, is_user, pte2pa, maxva}
use oscraft.Monad.{ok}
use oscraft.Machine.{Machine}
use oscraft.Machine.Cells.{load-ok}
use oscraft.PageTable.{walkaddr, ismapped}
use oscraft.PageTable.Shape.{Kind, table, IsTree, lookup, entry_at, px-lt}
use oscraft.PageTable.Write.{lookup-entry_at}
use oscraft.PageTable.Walk.{walk-read}
use oscraft.PageTable.Map.{IsRoot}

-- The physical address that a user program reaches at `va`, if it reaches one.
abbrev pub translate : (ℕ → ℕ) → ℕ → ℕ → Option ℕ
translate f root va =
    if leb maxva va
    then none
    else if is_valid (lookup f 2 root va) && is_user (lookup f 2 root va)
    then some (pte2pa (lookup f 2 root va) + va % 4096)
    else none

-- The start of the page of an address, and 0 for none.
abbrev pub page_of : Option ℕ → ℕ
page_of none = 0
page_of (some a) = a / 4096 * 4096

page_start : (pte va : ℕ) → (pte2pa pte + va % 4096) / 4096 * 4096 ≡ pte2pa pte
page_start pte va = omega arith

module _ (kernel_end : ℕ) (own : ℕ → Kind) where
  -- `lookup` at an address of no entry is 0
  pub lookup_none :
      (f : ℕ → ℕ) (level pt ptr va : ℕ)
      → IsTree kernel_end own f
      → own pt ≡ table level ptr
      → entry_at f level pt va ≡ 0
      → lookup f level pt va ≡ 0
  unfolding lookup entry_at
  lookup_none f zero pt ptr va tree h e =
      let page = tree.is_page pt zero ptr h in absurd (page.not_null (omega arith))
  lookup_none f (suc level) pt ptr va tree h e =
      elim (Bool-cases (is_valid (f (pt + 8 * px (suc level) va)))) [
        | inl v ↦ rw v (
            lookup_none f level (pte2pa (f (pt + 8 * px (suc level) va)))
              (pt + 8 * px (suc level) va) va tree
              (tree.child pt level ptr (px (suc level) va) h (px-lt (suc level) va) v) (rw v at e))
        | inr v ↦ rw v
      ]

  -- Where the page tables are well formed, `walkaddr` returns for every virtual address of a space the
  -- start of the physical page of what a user program reaches there, without the offset in the page, and
  -- 0 where it reaches nothing. It changes nothing.
  pub walkaddr-translate :
      (m : Machine) (root va : ℕ)
      → IsTree kernel_end own m.cell
      → IsRoot own root
      → walkaddr root va m ≡ ok (page_of (translate m.cell root va)) m
  unfolding walkaddr
  walkaddr-translate m root va tree hr = elim (Bool-cases (leb maxva va)) [
    | inl high ↦ rw high
    | inr low ↦
        rw (low, walk-read kernel_end root hr.0 va own m tree hr.1 (ground arith))
          (elim (Bool-cases (entry_at m.cell 2 root va == 0)) [
            | inl null ↦
                rw (null, lookup_none m.cell 2 root hr.0 va tree hr.1 ((==_iff _ _).0 null))
            | inr there ↦
                let ne : entry_at m.cell 2 root va ≢ 0 = ground arith in
                rw
                  (there, load-ok _ m ne, ← lookup-entry_at kernel_end own m.cell tree 2 root va ne)
                  (elim (Bool-cases (is_valid (lookup m.cell 2 root va))) [
                    | inl v ↦ elim (Bool-cases (is_user (lookup m.cell 2 root va))) [
                      | inl u ↦
                          rw (v, u)
                            (ap (λ a. ok a m) (sym (page_start (lookup m.cell 2 root va) va)))
                      | inr u ↦ rw (v, u)
                    ]
                    | inr v ↦ rw v
                  ])
          ])
  ]

  -- Where the page tables are well formed: for an address below MAXVA of a space, `ismapped` returns
  -- whether the entry of its page is valid, and changes nothing.
  pub ismapped-is_valid :
      (m : Machine) (root va : ℕ)
      → IsTree kernel_end own m.cell
      → IsRoot own root
      → va < maxva
      → ismapped root va m ≡ ok (is_valid (lookup m.cell 2 root va)) m
  unfolding ismapped
  ismapped-is_valid m root va tree hr small =
      rw (walk-read kernel_end root hr.0 va own m tree hr.1 small)
        (elim (Bool-cases (entry_at m.cell 2 root va == 0)) [
          | inl null ↦ rw (null, lookup_none m.cell 2 root hr.0 va tree hr.1 ((==_iff _ _).0 null))
          | inr there ↦
              let ne : entry_at m.cell 2 root va ≢ 0 = ground arith in
              rw (there, load-ok _ m ne, ← lookup-entry_at kernel_end own m.cell tree 2 root va ne)
        ])
