-- ===== src/PageTable/Create.antt =====
-- `uvmcreate` of Proyecto3/kernel/vm.c: a new address space.
use oscraft.Common.{
  ℕ, zero, suc, ◌+◌, ◌*◌, ◌<◌, ◌≡◌, ◌≢◌, refl, sym, ◌∙◌, true, false, List, [], ◌∷◌, arith, ap,
  ◌==◌, ==_iff, ==_ne, if◌then◌else◌, Bool-cases, inl, inr,
}
use mathlib.Core.Bool.{false≢true}
use oscraft.Riscv.{px, is_valid, pte2pa}
use oscraft.Monad.{Returns}
use oscraft.Machine.{Machine, in_page}
use oscraft.Machine.Cells.{memset_page-ok}
use oscraft.Kalloc.FreeList.{kalloc-nil, kalloc-ok, taken}
use oscraft.Kalloc.Contract.{IsFree}
use oscraft.PageTable.{uvmcreate}
use oscraft.PageTable.Shape.{Kind, other, table, IsTree, lookup, px-lt}
use oscraft.PageTable.Grow.{with_table, own_inside}
use oscraft.PageTable.Well.{IsWell}
use oscraft.PageTable.Map.{IsRoot}
use oscraft.PageTable.Fresh.{Filled, filled-IsWell, lookup-filled, plain}

-- The tables with a new space.
abbrev pub rooted : (ℕ → Kind) → ℕ → ℕ → Kind
rooted own root = with_table own root 2 0

-- From `m` to `o` the free page `root` has become a space in which nothing is mapped; the other spaces map
-- the same, and no word outside of the page has changed.
pub record NewSpace (kernel_end : ℕ) (own : ℕ → Kind) (pages' : List ℕ) (root : ℕ) (m o : Machine)
    : Type 0 where
  pub well : IsWell kernel_end (rooted own root) pages' o
  pub free : IsFree kernel_end (root ∷ pages') m
  pub new : own root ≡ other
  pub empty : (va : ℕ) → lookup o.cell 2 root va ≡ 0
  pub maps : (pt vb : ℕ) → IsRoot own pt → lookup o.cell 2 pt vb ≡ lookup m.cell 2 pt vb
  pub rest : (a : ℕ) → in_page root a ≡ false → o.cell a ≡ m.cell a

-- What `uvmcreate` does: it takes the first free page, or there is none.
abbrev pub Created : ℕ → (ℕ → Kind) → List ℕ → Machine → ℕ → Machine → Type 0
Created kernel_end own [] m p o = (p ≡ 0) × (o ≡ m)
Created kernel_end own (r ∷ pages) m p o = (p ≡ r) × NewSpace kernel_end own pages r m o

-- the machine after the first free page was filled with zeros
abbrev zeroed : ℕ → Machine → Machine
zeroed r m = record m {
  cell = λ a. if in_page r a then 0 else (taken r m).cell a;
  freelist = m.cell r;
}

module _ (kernel_end : ℕ) (own : ℕ → Kind) (pages : List ℕ) (r : ℕ) (m : Machine)
    (well : IsWell kernel_end own (r ∷ pages) m) where
  fill : Filled r m (zeroed r m)
  fill = record { freelist = refl; outside = λ a out. rw out }

  before : IsWell kernel_end own pages (zeroed r m)
  before = filled-IsWell kernel_end own pages r m (zeroed r m) well fill

  unused : own r ≡ other
  unused = plain kernel_end own pages r m (zeroed r m) well fill

  old_table : (p k e : ℕ) → rooted own r p ≡ table k e → p ≢ r → own p ≡ table k e
  old_table p k e h ne = rw (==_ne r p (λ z. ne (sym z))) at h

  null : (i : ℕ) → i < 512 → (zeroed r m).cell (r + 8 * i) ≡ 0
  null i hi = rw (own_inside r i hi)

  tree : IsTree kernel_end (rooted own r) (zeroed r m).cell
  tree = record {
    is_page = λ p k e h. elim (Bool-cases (p == r)) [
      | inl z ↦ rw ((==_iff p r).0 z) well.free.1
      | inr z ↦ before.tree.is_page p k e (old_table p k e h (ground arith))
    ];
    child = λ p k e i h hi v. elim (Bool-cases (p == r)) [
      | inl z ↦ absurd (invalid p i ((==_iff p r).0 z) hi v)
      | inr z ↦
          let c = before.tree.child p k e i (old_table p (suc k) e h (ground arith)) hi v in
          let apart : r ≢ pte2pa ((zeroed r m).cell (p + 8 * i)) =
            λ w. ground (arith, c, unused, ap own w) in
          rw (==_ne r _ apart) c
    ];
    inner = λ p k e i h hi v. elim (Bool-cases (p == r)) [
      | inl z ↦ absurd (invalid p i ((==_iff p r).0 z) hi v)
      | inr z ↦ before.tree.inner p k e i (old_table p (suc k) e h (ground arith)) hi v
    ];
  }
    where
      invalid : (p i : ℕ) → p ≡ r → i < 512 → is_valid ((zeroed r m).cell (p + 8 * i)) ≡ true → ⊥
      invalid p i z hi v = false≢true (rw (z, null i hi) at v)

  lookup-zeroed : (k va : ℕ) → lookup (zeroed r m).cell k r va ≡ 0
  unfolding lookup
  lookup-zeroed zero va = null (px 0 va) (px-lt 0 va)
  lookup-zeroed (suc k) va = rw (null (px (suc k) va) (px-lt (suc k) va))

  zeroed-NewSpace : NewSpace kernel_end own pages r m (zeroed r m)
  zeroed-NewSpace = record {
    well = record {
      free = before.free;
      tree = tree;
      spare = λ a h.
          let apart : r ≢ a = λ z. false≢true (sym well.free.2 ∙ rw z h) in
          rw (==_ne r a apart) (before.spare a h);
    };
    free = well.free;
    new = unused;
    empty = lookup-zeroed 2;
    maps = lookup-filled kernel_end own pages r m (zeroed r m) well fill;
    rest = fill.outside;
  }

-- `uvmcreate` on well-formed free pages and tables.
pub uvmcreate_lem :
    (kernel_end : ℕ) (own : ℕ → Kind) (pages : List ℕ) (m : Machine)
    → IsWell kernel_end own pages m
    → Returns (Created kernel_end own pages m) (uvmcreate m)
unfolding uvmcreate
uvmcreate_lem kernel_end own [] m well = rw (kalloc-nil kernel_end m well.free) (refl, refl)
uvmcreate_lem kernel_end own (r ∷ pages) m well =
    let ne = well.free.1.not_null in
    rw (kalloc-ok kernel_end r m well.free.0 ne, ==_ne r 0 ne, memset_page-ok r 0 (taken r m) ne)
      (refl, zeroed-NewSpace kernel_end own pages r m well)
