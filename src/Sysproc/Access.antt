-- ===== src/Sysproc/Access.antt =====
-- The two passes of `sys_pgaccess` of Proyecto3/kernel/sysproc.c over the pages of a range.
use native.Mathlib.Nat.{two-pow-succ}
use oscraft.Common.{
  ℕ, zero, suc, ◌+◌, ◌*◌, ◌^◌, ◌≤◌, ◌<◌, ◌≡◌, ◌≢◌, refl, sym, ◌∙◌, Bool, true, false, ◌&&◌, arith,
  ltb, ◌==◌, ==_iff, if◌then◌else◌, Bool-cases, inl, inr, bit, bit-none, bit-add,
}
use oscraft.Riscv.{is_valid, is_accessed, maxva}
use oscraft.Monad.{Returns}
use oscraft.Machine.{Machine}
use oscraft.Machine.Cells.{load-ok}
use oscraft.PageTable.Shape.{Kind, IsTree, lookup, entry_at}
use oscraft.PageTable.Write.{lookup-entry_at}
use oscraft.PageTable.Walk.{walk-read}
use oscraft.PageTable.Map.{IsRoot}
use oscraft.PageTable.Access.{lookup_none}
use oscraft.Sysproc.{read_accessed}

-- whether the page of `va` is mapped and its accessed bit is set
abbrev pub was_accessed : (ℕ → ℕ) → ℕ → ℕ → Bool
was_accessed f root va = is_valid (lookup f 2 root va) && is_accessed (lookup f 2 root va)

-- The bits of the mask up to page `i` are those of the pages from `base` on.
pub record IsMask (f : ℕ → ℕ) (root base i mask : ℕ) : Type 0 where
  pub small : mask < 2 ^ i
  pub bits : (j : ℕ) → bit j mask ≡ (ltb j i && was_accessed f root (base + j * 4096))

module _ (kernel_end : ℕ) (own : ℕ → Kind) (m : Machine) (root base : ℕ)
    (tree : IsTree kernel_end own m.cell) (hr : IsRoot own root) where
  -- the mask with the bit of page `i`
  IsMask-step :
      (i mask : ℕ) (b : Bool)
      → IsMask m.cell root base i mask
      → was_accessed m.cell root (base + i * 4096) ≡ b
      → IsMask m.cell root base (i + 1) (if b then mask + 2 ^ i else mask)
  IsMask-step i mask true h e = record {
    small =
        let one : i + 1 ≡ suc i = omega arith in
        rw (one, two-pow-succ i) (let l = h.small in omega arith);
    bits = λ j. bit-add i j mask h.small ∙ set j;
  }
    where
      set :
          (j : ℕ)
          → (if i == j then true else bit j mask)
            ≡ (ltb j (i + 1) && was_accessed m.cell root (base + j * 4096))
      set j = elim (Bool-cases (i == j)) [
        | inl z ↦
            let inside : ltb j (i + 1) ≡ true = ground arith in
            rw (z, inside, ← (==_iff i j).0 z) (sym e)
        | inr z ↦ let same : ltb j (i + 1) ≡ ltb j i = ground arith in rw (z, same, h.bits j)
      ]
  IsMask-step i mask false h e = record {
    small =
        let one : i + 1 ≡ suc i = omega arith in
        rw (one, two-pow-succ i) (let l = h.small in omega arith);
    bits = λ j. h.bits j ∙ unset j;
  }
    where
      unset :
          (j : ℕ)
          → (ltb j i && was_accessed m.cell root (base + j * 4096))
            ≡ (ltb j (i + 1) && was_accessed m.cell root (base + j * 4096))
      unset j = elim (Bool-cases (i == j)) [
        | inl z ↦
            let inside : ltb j (i + 1) ≡ true = ground arith in
            let before : ltb j i ≡ false = ground arith in
            rw (inside, before, ← (==_iff i j).0 z) (sym e)
        | inr z ↦ let same : ltb j (i + 1) ≡ ltb j i = ground arith in rw same
      ]

  read_accessed_from :
      (n i mask : ℕ)
      → base + (i + n) * 4096 ≤ maxva
      → IsMask m.cell root base i mask
      → Returns
          (λ r m'. IsMask m.cell root base (i + n) r × (m' ≡ m))
          (read_accessed n i root base mask m)
  unfolding read_accessed
  read_accessed_from zero i mask fits h = let e : i + 0 ≡ i = omega arith in rw e (h, refl)
  read_accessed_from (suc n) i mask fits h =
      let va = base + i * 4096 in
      let e : i + suc n ≡ i + 1 + n = omega arith in
      let rest = λ (mask' : ℕ) (h' : IsMask m.cell root base (i + 1) mask').
        read_accessed_from n (i + 1) mask' (omega arith) h' in
      rw (e, walk-read kernel_end root hr.0 va own m tree hr.1 (omega arith))
        (elim (Bool-cases (entry_at m.cell 2 root va == 0)) [
          | inl null ↦ rw null (
              rest mask (
                IsMask-step i mask false h (
                  rw (
                    lookup_none kernel_end own m.cell 2 root hr.0 va tree hr.1
                      ((==_iff _ _).0 null)))))
          | inr there ↦
              let ne : entry_at m.cell 2 root va ≢ 0 = ground arith in
              rw (there, load-ok _ m ne, ← lookup-entry_at kernel_end own m.cell tree 2 root va ne)
                (rest (if was_accessed m.cell root va then mask + 2 ^ i else mask)
                  (IsMask-step i mask (was_accessed m.cell root va) h refl))
        ])

  -- Where the page tables are well formed: for `n` pages of a space from `base` on below MAXVA, the first
  -- pass returns a mask below 2 ^ n whose bit `j` is set exactly if `j` is below `n` and the page `j` of
  -- the range is mapped and was accessed. It changes nothing.
  pub read_accessed_lem :
      (n : ℕ)
      → base + n * 4096 ≤ maxva
      → Returns (λ r m'. IsMask m.cell root base n r × (m' ≡ m)) (read_accessed n 0 root base 0 m)
  read_accessed_lem n fits =
      let e : 0 + n ≡ n = omega arith in
      rw e at (
        read_accessed_from n 0 0 (rw e fits)
          (record { small = omega arith; bits = λ j. none_set j }))
    where
      none_set : (j : ℕ) → bit j 0 ≡ (ltb j 0 && was_accessed m.cell root (base + j * 4096))
      none_set j = let out : ltb j 0 ≡ false = ground arith in rw out (bit-none j)
