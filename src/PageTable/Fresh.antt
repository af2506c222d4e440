-- ===== src/PageTable/Fresh.antt =====
-- A free page that is taken, filled and mapped: what `mappages` of it does to the frames in use.
use mathlib.Core.Bool.{false≢true}
use oscraft.Common.{
  ℕ, ◌+◌, ◌*◌, ◌%◌, ◌/◌, ◌^◌, ◌<◌, ◌≡◌, ◌≢◌, sym, ◌∙◌, Bool, true, false, List, ◌∷◌, arith, ap,
  ==_refl, bit_or, bit_or-one, bit_or_above, has,
}
use oscraft.Riscv.{is_valid, pa2pte, pte2pa, pte_v, phystop}
use oscraft.Machine.{Machine, in_page}
use oscraft.Kalloc.FreeList.{FreeList-frame, FreeList-IsPage, IsPage, pages_apart}
use oscraft.PageTable.Shape.{Kind, other, table, lookup}
use oscraft.PageTable.Grow.{entry_outside}
use oscraft.PageTable.Well.{IsWell, OutsideTables}
use oscraft.PageTable.Map.{IsRoot, PageMapped}
use oscraft.PageTable.Frame.{lookup-frame, IsTree-frame, IsFreeable}

-- the entry of a page that is mapped to `r`
abbrev pub page_pte : (r perm : ℕ) → ℕ
page_pte r perm = bit_or (bit_or (pa2pte r) perm) pte_v

-- It is valid and leads back to the frame.
pub page_pte_lem :
    (r perm : ℕ)
    → r % 4096 ≡ 0
    → r < phystop
    → perm < 1024
    → (is_valid (page_pte r perm) ≡ true) × (pte2pa (page_pte r perm) ≡ r)
page_pte_lem r perm al small flags =
    let scaled : pa2pte r ≡ 2 ^ 10 * (r / 4096) = omega arith in
    let sum : bit_or (pa2pte r) perm ≡ 2 ^ 10 * (r / 4096) + perm =
      rw scaled (bit_or_above 10 (r / 4096) perm flags) in
    rw (sum, bit_or-one (2 ^ 10 * (r / 4096) + perm)) (ground arith, omega arith)

-- `g` is `m` with its first free page `r` taken, and other words in it.
pub record Filled (r : ℕ) (m g : Machine) : Type 0 where
  pub freelist : g.freelist ≡ m.cell r
  pub outside : (a : ℕ) → in_page r a ≡ false → g.cell a ≡ m.cell a

-- The words of a page that is no table lie outside of all tables.
pub plain-OutsideTables :
    (kernel_end : ℕ) (own : ℕ → Kind) (q a : ℕ)
    → ((p k e : ℕ) → own p ≡ table k e → IsPage kernel_end p)
    → own q ≡ other
    → q % 4096 ≡ 0
    → in_page q a ≡ true
    → OutsideTables own a
plain-OutsideTables kernel_end own q a pages plain al inside p k e t =
    let ne : q ≢ p = λ z. ground (arith, plain, t, ap own z) in
    let al' = (pages p k e t).aligned in ground arith

module _ (kernel_end : ℕ) (own : ℕ → Kind) (pages : List ℕ) (r : ℕ) (m g : Machine)
    (well : IsWell kernel_end own (r ∷ pages) m) (fill : Filled r m g) where
  pub plain : own r ≡ other
  plain = well.spare r (rw (==_refl r))

  filled_tables :
      (p k e i : ℕ) → own p ≡ table k e → i < 512 → g.cell (p + 8 * i) ≡ m.cell (p + 8 * i)
  filled_tables p k e i t hi =
      let q = well.tree.is_page p k e t in
      let apart : r ≢ p = λ z. ground (arith, plain, t, ap own z) in
      fill.outside (p + 8 * i) (entry_outside p r i q.aligned well.free.1.aligned hi apart)

  pub filled-IsWell : IsWell kernel_end own pages g
  filled-IsWell = record {
    free = rw fill.freelist (
        FreeList-frame m.cell g.cell kernel_end (m.cell r) pages
          (λ a i. fill.outside a (
            pages_apart kernel_end r a well.free.1
              (FreeList-IsPage m.cell kernel_end (m.cell r) a pages well.free.3 i)
              (λ z. apart a z i)))
          well.free.3);
    tree = IsTree-frame kernel_end own m.cell g.cell well.tree filled_tables;
    spare = λ a i. well.spare a (ground arith);
  }
    where
      apart : (a : ℕ) → r ≡ a → has a pages ≡ true → ⊥
      apart a z i = false≢true (sym well.free.2 ∙ rw z i)

  pub lookup-filled : (pt vb : ℕ) → IsRoot own pt → lookup g.cell 2 pt vb ≡ lookup m.cell 2 pt vb
  lookup-filled pt vb hp =
      lookup-frame kernel_end own m.cell g.cell well.tree filled_tables 2 pt hp.0 vb hp.1

  module _ (root va v : ℕ) (n : Machine) (done : Bool)
      (x : PageMapped kernel_end own root va v g done n) where
    pub frame-IsFreeable : IsFreeable kernel_end x.own' x.pages' r
    frame-IsFreeable =
        let kept = x.fresh r pages filled-IsWell.free well.free.2 in
        record { page = well.free.1; taken = kept.1; plain = kept.0 ∙ plain }

    -- the frame keeps what it was filled with
    pub frame_words : (a : ℕ) → in_page r a ≡ true → n.cell a ≡ g.cell a
    frame_words a i = x.rest a (
        plain-OutsideTables kernel_end x.own' r a x.well.tree.is_page frame-IsFreeable.plain
          well.free.1.aligned i)

    -- A frame that was in use is another one, stays in use, and keeps its words.
    pub other_frame :
        (q : ℕ)
        → IsFreeable kernel_end own (r ∷ pages) q
        → IsFreeable kernel_end x.own' x.pages' q
          × (r ≢ q)
          × ((a : ℕ) → in_page q a ≡ true → n.cell a ≡ m.cell a)
    other_frame q h =
        let out : has q pages ≡ false = let t = h.taken in ground arith in
        let ne : r ≢ q = let t = h.taken in λ z. ground arith in
        let kept = x.fresh q pages filled-IsWell.free out in
        let plain' : x.own' q ≡ other = kept.0 ∙ h.plain in
        let al = h.page.aligned in
        let al' = well.free.1.aligned in
        (
          record { page = h.page; taken = kept.1; plain = plain' },
          ne,
          λ a i.
              x.rest a (plain-OutsideTables kernel_end x.own' q a x.well.tree.is_page plain' al i)
              ∙ fill.outside a (ground arith),
        )
