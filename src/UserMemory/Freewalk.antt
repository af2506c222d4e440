-- ===== src/UserMemory/Freewalk.antt =====
-- `freewalk` of Proyecto3/kernel/vm.c: one round of its loop, and the page at its end.
use mathlib.Core.Bool.{false≢true}
use oscraft.Common.{
  ℕ, suc, ◌+◌, ◌*◌, ◌≤◌, ◌<◌, ◌≡◌, ◌≢◌, ◌⊎◌, refl, sym, ◌∙◌, true, false, List, ◌∷◌, arith, ap,
  ◌==◌, ==_ne, ==_refl, if◌then◌else◌, Bool-cases, inl, inr, has,
}
use oscraft.Riscv.{is_valid, pte2pa}
use oscraft.Machine.{Machine, update, in_page}
use oscraft.Kalloc.FreeList.{IsPage, freed, freed-FreeList}
use oscraft.Kalloc.Contract.{IsFree}
use oscraft.PageTable.Shape.{Kind, other, table, IsTree}
use oscraft.PageTable.Grow.{entry_outside}
use oscraft.PageTable.Well.{IsWell, OutsideTables}

-- A table of a lower level.
abbrev pub IsBelow : (ℕ → Kind) → ℕ → ℕ → Type 0
IsBelow own k q = (j s : ℕ) × (own q ≡ table j s) × (j < k)

-- The table `p` of level `k` and all below it were given back between `m` and `o`, and its own entry
-- `e` still points to it; `pages'` are the free pages.
pub record TreeFreed (kernel_end : ℕ) (own : ℕ → Kind) (pages' : List ℕ) (m : Machine) (k p e : ℕ)
    (o : Machine) : Type 0 where
  pub own' : ℕ → Kind
  pub free : IsFree kernel_end pages' o
  pub tree : IsTree kernel_end own' (update o.cell e 0)
  pub spare : (a : ℕ) → has a pages' ≡ true → own' a ≡ other
  pub gone : own' p ≡ other
  pub others : (q : ℕ) → (own' q ≡ own q) ⊎ ((own' q ≡ other) × ((q ≡ p) ⊎ IsBelow own k q))
  pub kept : (q j s i : ℕ) → own' q ≡ table j s → i < 512 → o.cell (q + 8 * i) ≡ m.cell (q + 8 * i)
  pub rest : (a : ℕ) → OutsideTables own a → o.cell a ≡ m.cell a

-- The tables below the entries of `p` before the one at `i` were given back between `m` and `s`.
pub record EntriesFreed (kernel_end : ℕ) (own : ℕ → Kind) (pages' : List ℕ) (m : Machine)
    (k p e i : ℕ) (s : Machine) : Type 0 where
  pub own' : ℕ → Kind
  pub well : IsWell kernel_end own' pages' s
  pub here : own' p ≡ table k e
  pub others : (q : ℕ) → (own' q ≡ own q) ⊎ ((own' q ≡ other) × IsBelow own k q)
  pub kept :
      (q j t n : ℕ) → own' q ≡ table j t → q ≢ p → n < 512 → s.cell (q + 8 * n) ≡ m.cell (q + 8 * n)
  pub later : (n : ℕ) → i ≤ n → n < 512 → s.cell (p + 8 * n) ≡ m.cell (p + 8 * n)
  pub rest : (a : ℕ) → OutsideTables own a → s.cell a ≡ m.cell a

-- the tables without `p`
abbrev without : (ℕ → Kind) → ℕ → ℕ → Kind
without own p q = if p == q then other else own q

pub other_table : {k e : ℕ} → other ≢ table k e
other_table z = ground arith

pub level_same : {k j e s : ℕ} → table k e ≡ table j s → (k ≡ j) × (e ≡ s)
level_same z = ground arith

module _ (kernel_end : ℕ) (own : ℕ → Kind) (m : Machine) (k p e : ℕ) where
  pub EntriesFreed-none :
      (pages : List ℕ)
      → IsWell kernel_end own pages m
      → own p ≡ table k e
      → EntriesFreed kernel_end own pages m k p e 0 m
  EntriesFreed-none pages well h = record {
    own' = own;
    well = well;
    here = h;
    others = λ q. inl refl;
    kept = λ q j t n h' ne lt. refl;
    later = λ n le lt. refl;
    rest = λ a out. refl;
  }

  -- An entry that points to no table is passed over.
  pub EntriesFreed-absent :
      (pages : List ℕ) (i : ℕ) (s : Machine)
      → EntriesFreed kernel_end own pages m k p e i s
      → EntriesFreed kernel_end own pages m k p e (i + 1) s
  EntriesFreed-absent pages i s x = record {
    own' = x.own';
    well = x.well;
    here = x.here;
    others = x.others;
    kept = x.kept;
    later = λ n le lt. x.later n (omega arith) lt;
    rest = x.rest;
  }

  module _ (pages : List ℕ) (i : ℕ) (s : Machine)
      (x : EntriesFreed kernel_end own pages m k p e i s) where
    page : IsPage kernel_end p
    page = x.well.tree.is_page p k e x.here

    unlisted : has p pages ≡ false
    unlisted = elim (Bool-cases (has p pages)) [
      | inl h ↦ absurd (other_table (sym (x.well.spare p h) ∙ x.here))
      | inr h ↦ h
    ]

    was_table : (q j t : ℕ) → x.own' q ≡ table j t → own q ≡ table j t
    was_table q j t h = elim (x.others q) [
      | inl z ↦ sym z ∙ h
      | inr z ↦ absurd (other_table (sym z.0 ∙ h))
    ]

    cell_same :
        (q j t n : ℕ)
        → x.own' q ≡ table j t
        → q ≢ p
        → n < 512
        → (freed p s).cell (q + 8 * n) ≡ s.cell (q + 8 * n)
    cell_same q j t n h ne lt =
        let al = (x.well.tree.is_page q j t h).aligned in
        let outside = entry_outside q p n al page.aligned lt (λ z. ne (sym z)) in
        let aligned = page.aligned in rw (==_ne p (q + 8 * n) (λ z. ne (omega arith)), outside)

    still : (q j t : ℕ) → without x.own' p q ≡ table j t → (q ≢ p) × (x.own' q ≡ table j t)
    still q j t h = elim (Bool-cases (p == q)) [
      | inl z ↦ absurd (other_table (rw z at h))
      | inr z ↦ (ground arith, rw z at h)
    ]

    -- an entry of another table that does not point to `p`
    entry_same :
        (q j t n : ℕ)
        → without x.own' p q ≡ table j t
        → n < 512
        → is_valid (update (freed p s).cell e 0 (q + 8 * n)) ≡ true
        → (update (freed p s).cell e 0 (q + 8 * n) ≡ s.cell (q + 8 * n)) × (q + 8 * n ≢ e)
    entry_same q j t n h lt v = elim (Bool-cases (e == q + 8 * n)) [
      | inl z ↦ absurd (false≢true (rw z at v))
      | inr z ↦ let (ne, h') = still q j t h in (rw z (cell_same q j t n h' ne lt), ground arith)
    ]

    -- the table's own page is given back, too
    pub EntriesFreed-TreeFreed : TreeFreed kernel_end own (p ∷ pages) m k p e (freed p s)
    EntriesFreed-TreeFreed = record {
      own' = without x.own' p;
      free = freed-FreeList kernel_end p s pages page unlisted x.well.free;
      tree = record {
        is_page = λ q j t h. x.well.tree.is_page q j t (still q j t h).1;
        child = λ q j t n h lt v.
            let (same, ne) = entry_same q (suc j) t n h lt v in
            let h' = (still q (suc j) t h).1 in
            let c = x.well.tree.child q j t n h' lt (rw same at v) in
            let apart : p ≢ pte2pa (s.cell (q + 8 * n)) =
              λ z. ne (sym (level_same (sym x.here ∙ ap x.own' z ∙ c)).1) in
            rw (same, ==_ne p _ apart) c;
        inner = λ q j t n h lt v.
            let (same, ne) = entry_same q (suc j) t n h lt v in
            rw same (x.well.tree.inner q j t n (still q (suc j) t h).1 lt (rw same at v));
      };
      spare = λ a h. elim (Bool-cases (p == a)) [
        | inl z ↦ rw z
        | inr z ↦
            let apart : (a == p) ≡ false = ground arith in rw z (x.well.spare a (rw apart at h))
      ];
      gone = rw (==_refl p);
      others = λ q. elim (Bool-cases (p == q)) [
        | inl z ↦ let same : q ≡ p = ground arith in rw z (inr (refl, inl same))
        | inr z ↦ rw z (elim (x.others q) [ inl y ↦ inl y | inr y ↦ inr (y.0, inr y.1) ])
      ];
      kept = λ q j t n h lt.
          let (ne, h') = still q j t h in cell_same q j t n h' ne lt ∙ x.kept q j t n h' ne lt;
      rest = λ a out.
          let outside : in_page p a ≡ false = out p k e (was_table p k e x.here) in
          let apart : (p == a) ≡ false = ground arith in rw (apart, outside) (x.rest a out);
    }
