-- ===== src/PageTable/Well.antt =====
-- A machine whose free list and page tables are well formed, and what one more table changes in it.
use oscraft.Common.{
  ℕ, suc, ◌+◌, ◌*◌, ◌%◌, ◌<◌, ◌≡◌, ◌≢◌, refl, sym, ◌∙◌, true, false, List, ◌∷◌, arith, ap, ◌==◌,
  ◌⊎◌, inl, inr, Bool-cases, ==_iff, ==_ne, ==_refl, if◌then◌else◌, has, has_ne, bit_or, bit_or-one,
}
use mathlib.Core.Bool.{false≢true}
use oscraft.Riscv.{is_valid, is_leaf, pte2pa, pa2pte, pte_v, phystop}
use oscraft.Machine.{Machine, update, in_page}
use oscraft.Kalloc.FreeList.{
  IsPage, FreeList-frame, FreeList-IsPage, FreeList-unique, taken, pages_apart,
}
use oscraft.Kalloc.Contract.{IsFree}
use oscraft.PageTable.Shape.{Kind, other, table, IsTree, lookup}
use oscraft.PageTable.Grow.{
  with_table, Linked, entry_outside, own_inside, kept, old, IsTree-link, lookup-link,
}

-- The free pages, the tables, and that no page is both.
pub record IsWell (kernel_end : ℕ) (own : ℕ → Kind) (pages : List ℕ) (m : Machine) : Type 0 where
  pub free : IsFree kernel_end pages m
  pub tree : IsTree kernel_end own m.cell
  pub spare : (a : ℕ) → has a pages ≡ true → own a ≡ other

-- No table page holds the word at `a`.
abbrev pub OutsideTables : (ℕ → Kind) → ℕ → Type 0
OutsideTables own a = (p k e : ℕ) → own p ≡ table k e → in_page p a ≡ false

-- The tables of `own'` that `own` does not have were free in `m`, and `pages'` were, too.
abbrev pub TakesFree : ℕ → (own own' : ℕ → Kind) → List ℕ → Machine → Type 0
TakesFree kernel_end own own' pages' m =
    (p : ℕ) (l : List ℕ)
    → IsFree kernel_end l m
    → has p l ≡ false
    → (own' p ≡ own p) × (has p pages' ≡ false)

abbrev pub IsTable : (ℕ → Kind) → ℕ → Type 0
IsTable own p = (k e : ℕ) × (own p ≡ table k e)

-- A page that was free in `m` is one of `pages'`, or a table of `own'`.
abbrev pub KeepsFree : ℕ → (own' : ℕ → Kind) → List ℕ → Machine → Type 0
KeepsFree kernel_end own' pages' m =
    (p : ℕ) (l : List ℕ)
    → IsFree kernel_end l m
    → has p l ≡ true
    → (has p pages' ≡ true) ⊎ IsTable own' p

-- From `m` to `n` tables may have been added out of free pages, `own'` and `pages'` being the new
-- ones; what the old tables map and the words outside of tables are the same.
pub record Extends (kernel_end : ℕ) (own own' : ℕ → Kind) (pages' : List ℕ) (m n : Machine)
    : Type 0 where
  pub well : IsWell kernel_end own' pages' n
  pub grows : (p k e : ℕ) → own p ≡ table k e → own' p ≡ table k e
  pub maps : (k p e va : ℕ) → own p ≡ table k e → lookup n.cell k p va ≡ lookup m.cell k p va
  pub keeps :
      (p k e i : ℕ)
      → own p ≡ table (suc k) e
      → i < 512
      → is_valid (m.cell (p + 8 * i)) ≡ true
      → n.cell (p + 8 * i) ≡ m.cell (p + 8 * i)
  pub rest : (a : ℕ) → OutsideTables own' a → n.cell a ≡ m.cell a
  pub fresh : TakesFree kernel_end own own' pages' m
  pub saved : KeepsFree kernel_end own' pages' m

-- A PTE made of a page's address and PTE_V is valid and leads back to the page.
pub table_entry :
    (r : ℕ)
    → r % 4096 ≡ 0
    → r < phystop
    → (is_valid (bit_or (pa2pte r) pte_v) ≡ true) × (pte2pa (bit_or (pa2pte r) pte_v) ≡ r)
table_entry r al small = rw (bit_or-one (pa2pte r)) (ground arith, omega arith)

no_permissions : (r : ℕ) → is_leaf (bit_or (pa2pte r) pte_v) ≡ false
no_permissions r = rw (bit_or-one (pa2pte r)) (ground arith)

-- The machine after `walk` linked the page `r` into the entry at `slot`.
abbrev pub linked : ℕ → ℕ → Machine → Machine
linked r slot m = record m {
  cell = update (λ a. if in_page r a then 0 else (taken r m).cell a) slot (bit_or (pa2pte r) pte_v);
  freelist = m.cell r;
}

module _ (kernel_end : ℕ) (own : ℕ → Kind) (m : Machine) (pt ptr level i r : ℕ) (pages : List ℕ)
    (well : IsWell kernel_end own (r ∷ pages) m) (here : own pt ≡ table (suc level) ptr)
    (small : i < 512) (empty : is_valid (m.cell (pt + 8 * i)) ≡ false) where
  fresh : own r ≡ other
  fresh = well.spare r (rw (==_refl r))

  page : IsPage kernel_end r
  page = well.free.1

  points : (pte2pa (bit_or (pa2pte r) pte_v) ≡ r) × (is_leaf (bit_or (pa2pte r) pte_v) ≡ false)
  points = ((table_entry r page.aligned page.below).1, no_permissions r)

  slot_outside : in_page r (pt + 8 * i) ≡ false
  slot_outside =
      entry_outside pt r i (well.tree.is_page pt (suc level) ptr here).aligned page.aligned small
        (λ x. ground (arith, fresh, here, ap own x))

  slot_ne : (a : ℕ) → in_page r a ≡ true → pt + 8 * i ≢ a
  slot_ne a h z = ground (arith, slot_outside)

  pub at_slot : (linked r (pt + 8 * i) m).cell (pt + 8 * i) ≡ bit_or (pa2pte r) pte_v
  at_slot = rw (==_refl (pt + 8 * i))

  cleared : (a : ℕ) → in_page r a ≡ true → (linked r (pt + 8 * i) m).cell a ≡ 0
  cleared a h = rw (==_ne (pt + 8 * i) a (slot_ne a h), h)

  same :
      (a : ℕ) → in_page r a ≡ false → a ≢ pt + 8 * i → (linked r (pt + 8 * i) m).cell a ≡ m.cell a
  same a h ne = rw (==_ne (pt + 8 * i) a (λ z. ne (sym z)), h)

  link : Linked m.cell (linked r (pt + 8 * i) m).cell r (pt + 8 * i) (bit_or (pa2pte r) pte_v)
  link = record { at_slot = at_slot; cleared = cleared; same = same }

  abbrev pub owner : ℕ → Kind
  owner = with_table own r level (pt + 8 * i)

  spare_ne : (a : ℕ) → has a pages ≡ true → r ≢ a
  spare_ne a h = λ z. has_ne a r pages h well.free.2 (sym z)

  spare_other : (a : ℕ) → has a pages ≡ true → own a ≡ other
  spare_other a h = well.spare a (rw (h, ==_ne a r (λ z. spare_ne a h (sym z))))

  free_outside : (a : ℕ) → has a pages ≡ true → in_page r a ≡ false
  free_outside a h =
      pages_apart kernel_end r a page
        (FreeList-IsPage m.cell kernel_end (m.cell r) a pages well.free.3 h) (spare_ne a h)

  free_kept : (a : ℕ) → has a pages ≡ true → (linked r (pt + 8 * i) m).cell a ≡ m.cell a
  free_kept a h = same a (free_outside a h) λ z.
      let q = FreeList-IsPage m.cell kernel_end (m.cell r) a pages well.free.3 h in
      let p = well.tree.is_page pt (suc level) ptr here in
      let joined : a ≡ pt = omega arith in ground (arith, spare_other a h, here, ap own joined)

  pub link-IsWell : IsWell kernel_end owner pages (linked r (pt + 8 * i) m)
  link-IsWell = record {
    free =
        FreeList-frame m.cell (linked r (pt + 8 * i) m).cell kernel_end (m.cell r) pages free_kept
          well.free.3;
    tree =
        IsTree-link kernel_end own m.cell (linked r (pt + 8 * i) m).cell level pt ptr i r
          (bit_or (pa2pte r) pte_v) well.tree here small fresh page empty link points;
    spare = λ a h. rw (==_ne r a (spare_ne a h)) (spare_other a h);
  }

  pub link-owner : owner r ≡ table level (pt + 8 * i)
  link-owner = rw (==_refl r)

  pub link-Extends : Extends kernel_end own owner pages m (linked r (pt + 8 * i) m)
  link-Extends = record {
    well = link-IsWell;
    grows =
        old kernel_end own m.cell (linked r (pt + 8 * i) m).cell level pt ptr i r
          (bit_or (pa2pte r) pte_v) well.tree here small fresh page empty link points;
    maps =
        lookup-link kernel_end own m.cell (linked r (pt + 8 * i) m).cell level pt ptr i r
          (bit_or (pa2pte r) pte_v) well.tree here small fresh page empty link points;
    keeps = λ p k e j h hj valid.
        kept kernel_end own m.cell (linked r (pt + 8 * i) m).cell level pt ptr i r
          (bit_or (pa2pte r) pte_v) well.tree here small fresh page empty link points p (suc k) e j
          h hj (valid_apart p j valid);
    rest = λ a h. same a (h r level (pt + 8 * i) (rw (==_refl r))) (slot_apart a h);
    fresh = λ p l h absent.
        let out : has p (r ∷ pages) ≡ false =
          rw (FreeList-unique m.cell kernel_end m.freelist l (r ∷ pages) h well.free) at absent in
        let apart : (r == p) ≡ false = ground arith in (rw apart, ground arith);
    saved = λ p l h inside.
        let inside' : has p (r ∷ pages) ≡ true =
          rw (FreeList-unique m.cell kernel_end m.freelist l (r ∷ pages) h well.free) at inside in
        elim (Bool-cases (p == r)) [
          | inl same ↦ inr (level, pt + 8 * i, rw ((==_iff p r).0 same, ==_refl r))
          | inr ne ↦ inl (ground arith)
        ];
  }
    where
      slot_apart : (a : ℕ) → OutsideTables owner a → a ≢ pt + 8 * i
      slot_apart a h z =
          let inside : in_page pt (pt + 8 * i) ≡ true = own_inside pt i small in
          let outside : in_page pt a ≡ false = h pt (suc level) ptr (
            old kernel_end own m.cell (linked r (pt + 8 * i) m).cell level pt ptr i r
              (bit_or (pa2pte r) pte_v) well.tree here small fresh page empty link points pt
              (suc level) ptr here) in
          false≢true (sym outside ∙ ap (in_page pt) z ∙ inside)

      valid_apart : (p j : ℕ) → is_valid (m.cell (p + 8 * j)) ≡ true → p + 8 * j ≢ pt + 8 * i
      valid_apart p j valid z =
          false≢true (sym empty ∙ ap (λ a. is_valid (m.cell a)) (sym z) ∙ valid)

module _ (kernel_end : ℕ) where
  pub Extends-refl :
      (own : ℕ → Kind) (pages : List ℕ) (m : Machine)
      → IsWell kernel_end own pages m
      → Extends kernel_end own own pages m m
  Extends-refl own pages m well = record {
    well = well;
    grows = λ p k e h. h;
    maps = λ k p e va h. refl;
    keeps = λ p k e i h hi valid. refl;
    rest = λ a h. refl;
    fresh = λ p l h absent.
        (refl, rw (FreeList-unique m.cell kernel_end m.freelist l pages h well.free) at absent);
    saved = λ p l h inside.
        inl (rw (FreeList-unique m.cell kernel_end m.freelist l pages h well.free) at inside);
  }

  pub Extends-trans :
      (own own' own'' : ℕ → Kind) (pages' pages'' : List ℕ) (m n o : Machine)
      → Extends kernel_end own own' pages' m n
      → Extends kernel_end own' own'' pages'' n o
      → Extends kernel_end own own'' pages'' m o
  Extends-trans own own' own'' pages' pages'' m n o x y = record {
    well = y.well;
    grows = λ p k e h. y.grows p k e (x.grows p k e h);
    maps = λ k p e va h. y.maps k p e va (x.grows p k e h) ∙ x.maps k p e va h;
    keeps = λ p k e i h hi valid.
        y.keeps p k e i (x.grows p (suc k) e h) hi (rw (x.keeps p k e i h hi valid) valid)
        ∙ x.keeps p k e i h hi valid;
    rest = λ a h. y.rest a h ∙ x.rest a (λ p k e t. h p k e (y.grows p k e t));
    fresh = λ p l h absent.
        let before = x.fresh p l h absent in
        let after = y.fresh p pages' x.well.free before.1 in (after.0 ∙ before.0, after.1);
    saved = λ p l h inside. elim (x.saved p l h inside) [
      | inl z ↦ y.saved p pages' x.well.free z
      | inr (k, e, t) ↦ inr (k, e, y.grows p k e t)
    ];
  }
