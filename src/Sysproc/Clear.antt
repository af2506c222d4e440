-- ===== src/Sysproc/Clear.antt =====
-- The second pass of `sys_pgaccess` of Proyecto3/kernel/sysproc.c: it clears the accessed bits.
use oscraft.Common.{
  ℕ, zero, suc, ◌+◌, ◌-◌, ◌*◌, ◌/◌, ◌%◌, ◌≤◌, ◌<◌, ◌≡◌, ◌∙◌, Bool, true, false, ◌&&◌, List, arith,
  leb, ltb, ◌==◌, ==_iff, if◌then◌else◌, Bool-cases, inl, inr, bit,
}
use oscraft.Riscv.{is_valid, is_accessed, maxva, sv39}
use oscraft.Monad.{Returns, Returns-mono}
use oscraft.Machine.{Machine}
use oscraft.Machine.Cells.{load-ok, store-ok}
use oscraft.PageTable.Shape.{Kind, lookup, entry_at}
use oscraft.PageTable.Write.{lookup-entry_at}
use oscraft.PageTable.Well.{IsWell}
use oscraft.PageTable.Walk.{walk-read}
use oscraft.PageTable.Map.{IsRoot, at_page, stored}
use oscraft.PageTable.Entry.{write-after, write-IsWell, entry_at-ne}
use oscraft.PageTable.Frame.{lookup-page}
use oscraft.Sysproc.{clear_accessed}
use oscraft.Sysproc.Access.{was_accessed}

-- whether `vb` of the space `pt` lies in a page from `i` to `i + n` of the range whose bit is set
abbrev pub is_marked : ℕ → ℕ → ℕ → ℕ → ℕ → ℕ → ℕ → Bool
is_marked root base mask i n pt vb =
    (pt == root)
    && (leb (base + i * 4096) vb
        && (ltb vb (base + (i + n) * 4096) && bit ((vb - base) / 4096) mask))

-- The set bits of `n` pages from `i` are those of pages that were accessed.
abbrev pub AreAccessed : (ℕ → ℕ) → ℕ → ℕ → ℕ → ℕ → ℕ → Type 0
AreAccessed f root base mask i n =
    (j : ℕ) → i ≤ j → j < i + n → bit j mask ≡ true → was_accessed f root (base + j * 4096) ≡ true

-- What the pass over `n` pages from `i` does from `m` to `m'`: the marked pages lose PTE_A, and all else
-- is mapped as before.
pub record Cleared (kernel_end : ℕ) (own : ℕ → Kind) (pages : List ℕ) (root base mask i n : ℕ)
    (m m' : Machine) : Type 0 where
  pub well : IsWell kernel_end own pages m'
  pub after :
      (pt vb : ℕ)
      → IsRoot own pt
      → vb < sv39
      → lookup m'.cell 2 pt vb ≡ (
          if is_marked root base mask i n pt vb
          then lookup m.cell 2 pt vb - 64
          else lookup m.cell 2 pt vb)

unmarked : (root base mask i pt vb : ℕ) → is_marked root base mask i 0 pt vb ≡ false
unmarked root base mask i pt vb =
    elim (Bool-cases (
      leb (base + i * 4096) vb
      && (ltb vb (base + (i + 0) * 4096) && bit ((vb - base) / 4096) mask))) [
        | inl e ↦ absurd (ground arith)
        | inr e ↦ rw e (ground arith)
      ]

-- The first page of the range has no mark, or is the page itself.
skipped :
    (root base mask i n pt vb : ℕ)
    → base % 4096 ≡ 0
    → bit i mask ≡ false
    → is_marked root base mask (i + 1) n pt vb ≡ is_marked root base mask i (suc n) pt vb
skipped root base mask i n pt vb al h = elim (Bool-cases ((vb - base) / 4096 == i)) [
  | inl e ↦ let here = (==_iff _ _).0 e in rw (here, h) (ground arith)
  | inr e ↦
      let low : leb (base + i * 4096) vb ≡ leb (base + (i + 1) * 4096) vb = ground arith in
      let high : ltb vb (base + (i + suc n) * 4096) ≡ ltb vb (base + (i + 1 + n) * 4096) =
        ground arith in
      rw (low, high)
]

taken :
    (root base mask i n pt vb x : ℕ)
    → base % 4096 ≡ 0
    → bit i mask ≡ true
    → (if is_marked root base mask (i + 1) n pt vb
        then (if at_page root (base + i * 4096) pt vb then x - 64 else x) - 64
        else (if at_page root (base + i * 4096) pt vb then x - 64 else x))
      ≡ (if is_marked root base mask i (suc n) pt vb then x - 64 else x)
taken root base mask i n pt vb x al h =
    elim (Bool-cases (leb (base + i * 4096) vb && ltb vb (base + (i + 1) * 4096))) [
      | inl e ↦
          let here : (vb - base) / 4096 ≡ i = ground arith in
          let page : (vb / 4096 == (base + i * 4096) / 4096) ≡ true = ground arith in
          let later : leb (base + (i + 1) * 4096) vb ≡ false = ground arith in
          let low : leb (base + i * 4096) vb ≡ true = ground arith in
          let high : ltb vb (base + (i + suc n) * 4096) ≡ true = ground arith in
          rw (later, low, high, page, here, h) (ground arith)
      | inr e ↦
          let page : (vb / 4096 == (base + i * 4096) / 4096) ≡ false = ground arith in
          let low : leb (base + i * 4096) vb ≡ leb (base + (i + 1) * 4096) vb = ground arith in
          let high : ltb vb (base + (i + suc n) * 4096) ≡ ltb vb (base + (i + 1 + n) * 4096) =
            ground arith in
          rw (page, low, high) (ground arith)
    ]

same_pte :
    (f : ℕ → ℕ) (root va pt vb : ℕ)
    → (if at_page root va pt vb then lookup f 2 root va - 64 else lookup f 2 pt vb)
      ≡ (if at_page root va pt vb then lookup f 2 pt vb - 64 else lookup f 2 pt vb)
same_pte f root va pt vb = elim (Bool-cases (at_page root va pt vb)) [
  | inl e ↦
      let space : pt ≡ root = ground arith in
      let page : va / 4096 ≡ vb / 4096 = ground arith in
      let entry : lookup f 2 root va ≡ lookup f 2 pt vb =
        rw space (lookup-page f root va vb page) in
      rw (e, entry)
  | inr e ↦ rw e
]

module _ (kernel_end : ℕ) (own : ℕ → Kind) (pages : List ℕ) (root base mask : ℕ)
    (hr : IsRoot own root) (al : base % 4096 ≡ 0) where
  clear_accessed_from :
      (n i : ℕ) (m : Machine)
      → IsWell kernel_end own pages m
      → base + (i + n) * 4096 ≤ maxva
      → AreAccessed m.cell root base mask i n
      → Returns
          (λ _ m'. Cleared kernel_end own pages root base mask i n m m')
          (clear_accessed n i root base mask m)
  unfolding clear_accessed
  clear_accessed_from zero i m well fits marks = record {
    well = well;
    after = λ pt vb hp hb. rw (unmarked root base mask i pt vb);
  }
  clear_accessed_from (suc n) i m well fits marks = elim (Bool-cases (bit i mask)) [
    | inl set ↦
        let va = base + i * 4096 in
        let seen = marks i (omega arith) (omega arith) set in
        let v : is_valid (lookup m.cell 2 root va) ≡ true = ground arith in
        let a : is_accessed (lookup m.cell 2 root va) ≡ true = ground arith in
        let ne = entry_at-ne kernel_end own pages m well root va hr (omega arith) v in
        let pte = lookup m.cell 2 root va - 64 in
        let m1 = stored (entry_at m.cell 2 root va) pte m in
        let after = write-after kernel_end own pages m well root va hr (omega arith) pte ne in
        rw
          (
            set,
            walk-read kernel_end root hr.0 va own m well.tree hr.1 (omega arith),
            load-ok _ m ne,
            ← lookup-entry_at kernel_end own m.cell well.tree 2 root va ne,
            a,
            store-ok _ pte m ne,
          )
          (Returns-mono (clear_accessed n (i + 1) root base mask m1)
            (clear_accessed_from n (i + 1) m1
              (write-IsWell kernel_end own pages m well root va hr (omega arith) pte ne)
              (omega arith)
              λ j lo hi b.
                let far : at_page root va root (base + j * 4096) ≡ false = ground arith in
                rw (after root (base + j * 4096) hr (omega arith), far)
                  (marks j (omega arith) (omega arith) b))
            λ _ m2 x. record {
              well = x.well;
              after = λ pt vb hp hb.
                  x.after pt vb hp hb
                  ∙ (rw (after pt vb hp hb, same_pte m.cell root va pt vb)
                      (taken root base mask i n pt vb (lookup m.cell 2 pt vb) al set));
            })
    | inr unset ↦ rw unset (
        Returns-mono (clear_accessed n (i + 1) root base mask m)
          (clear_accessed_from n (i + 1) m well (omega arith)
            (λ j lo hi. marks j (omega arith) (omega arith)))
          λ _ m2 x. record {
            well = x.well;
            after = λ pt vb hp hb.
                rw (← skipped root base mask i n pt vb al unset) (x.after pt vb hp hb);
          })
  ]

  -- Where the free list and the page tables are well formed: for `n` pages of a space from the aligned
  -- `base` on below MAXVA, and a mask whose bits below `n` are set only for pages that are mapped and were
  -- accessed, the second pass returns. The pages of the set bits have lost PTE_A, every other page of
  -- every space is mapped as before, and all stays well formed.
  pub clear_accessed_lem :
      (n : ℕ) (m : Machine)
      → IsWell kernel_end own pages m
      → base + n * 4096 ≤ maxva
      → AreAccessed m.cell root base mask 0 n
      → Returns
          (λ _ m'. Cleared kernel_end own pages root base mask 0 n m m')
          (clear_accessed n 0 root base mask m)
  clear_accessed_lem n m well fits marks = clear_accessed_from n 0 m well (omega arith) marks
