-- ===== src/PageTable/Frame.antt =====
-- What a change outside of the tables keeps, and a page that is given back to the allocator.
use oscraft.Common.{
  ℕ, zero, suc, ◌+◌, ◌*◌, ◌/◌, ◌<◌, ◌≡◌, ◌≢◌, refl, true, false, List, ◌∷◌, arith, ap, ◌==◌, ==_iff,
  ==_ne, Bool-cases, inl, inr, has,
}
use oscraft.Riscv.{px, is_valid, pte2pa}
use oscraft.Machine.{Machine}
use oscraft.Kalloc.FreeList.{IsPage, freed, freed-FreeList}
use oscraft.PageTable.Shape.{Kind, other, table, IsTree, lookup, entry_at, px-lt}
use oscraft.PageTable.Grow.{entry_outside}
use oscraft.PageTable.Well.{IsWell}

-- Two addresses of one page have one entry.
pub lookup-page :
    (f : ℕ → ℕ) (pt va vb : ℕ) → va / 4096 ≡ vb / 4096 → lookup f 2 pt va ≡ lookup f 2 pt vb
unfolding lookup
lookup-page f pt va vb e =
    let two : px 2 va ≡ px 2 vb = omega arith in
    let one : px 1 va ≡ px 1 vb = omega arith in
    let none : px 0 va ≡ px 0 vb = omega arith in rw (two, one, none)

module _ (kernel_end : ℕ) (own : ℕ → Kind) (f g : ℕ → ℕ) (tree : IsTree kernel_end own f)
    (same : (p k e i : ℕ) → own p ≡ table k e → i < 512 → g (p + 8 * i) ≡ f (p + 8 * i)) where
  -- A change that spares the tables changes nothing that they map.
  pub lookup-frame : (k p e va : ℕ) → own p ≡ table k e → lookup g k p va ≡ lookup f k p va
  unfolding lookup
  lookup-frame zero p e va h = same p zero e (px 0 va) h (px-lt 0 va)
  lookup-frame (suc k) p e va h =
      rw (same p (suc k) e (px (suc k) va) h (px-lt (suc k) va))
        (elim (Bool-cases (is_valid (f (p + 8 * px (suc k) va)))) [
          | inl v ↦ rw v (
              lookup-frame k (pte2pa (f (p + 8 * px (suc k) va))) (p + 8 * px (suc k) va) va
                (tree.child p k e (px (suc k) va) h (px-lt (suc k) va) v))
          | inr v ↦ rw v
        ])

  pub entry_at-frame : (k p e va : ℕ) → own p ≡ table k e → entry_at g k p va ≡ entry_at f k p va
  unfolding entry_at
  entry_at-frame zero p e va h = refl
  entry_at-frame (suc k) p e va h =
      rw (same p (suc k) e (px (suc k) va) h (px-lt (suc k) va))
        (elim (Bool-cases (is_valid (f (p + 8 * px (suc k) va)))) [
          | inl v ↦ rw v (
              entry_at-frame k (pte2pa (f (p + 8 * px (suc k) va))) (p + 8 * px (suc k) va) va
                (tree.child p k e (px (suc k) va) h (px-lt (suc k) va) v))
          | inr v ↦ rw v
        ])

  pub IsTree-frame : IsTree kernel_end own g
  IsTree-frame = record {
    is_page = tree.is_page;
    child = λ p k e i h hi v.
        rw (same p (suc k) e i h hi) (tree.child p k e i h hi (rw (same p (suc k) e i h hi) at v));
    inner = λ p k e i h hi v.
        rw (same p (suc k) e i h hi) (tree.inner p k e i h hi (rw (same p (suc k) e i h hi) at v));
  }

-- The page at `pa` may be freed: it is a page of the allocator that is neither free nor a table.
pub record IsFreeable (kernel_end : ℕ) (own : ℕ → Kind) (pages : List ℕ) (pa : ℕ) : Type 0 where
  pub page : IsPage kernel_end pa
  pub taken : has pa pages ≡ false
  pub plain : own pa ≡ other

module _ (kernel_end : ℕ) (own : ℕ → Kind) (pages : List ℕ) (m : Machine)
    (well : IsWell kernel_end own pages m) (pa : ℕ) (h : IsFreeable kernel_end own pages pa) where
  pub freed_tables :
      (p k e i : ℕ)
      → own p ≡ table k e
      → i < 512
      → (freed pa m).cell (p + 8 * i) ≡ m.cell (p + 8 * i)
  freed_tables p k e i t hi =
      let q = well.tree.is_page p k e t in
      let apart : pa ≢ p = λ z. ground (arith, h.plain, t, ap own z) in
      let outside = entry_outside p pa i q.aligned h.page.aligned hi apart in
      let aligned = h.page.aligned in rw (==_ne pa (p + 8 * i) (λ z. apart (omega arith)), outside)

  pub freed-IsWell : IsWell kernel_end own (pa ∷ pages) (freed pa m)
  freed-IsWell = record {
    free = freed-FreeList kernel_end pa m pages h.page h.taken well.free;
    tree = IsTree-frame kernel_end own m.cell (freed pa m).cell well.tree freed_tables;
    spare = spare;
  }
    where
      spare : (a : ℕ) → has a (pa ∷ pages) ≡ true → own a ≡ other
      spare a i = elim (Bool-cases (a == pa)) [
        | inl e ↦ rw ((==_iff a pa).0 e) h.plain
        | inr e ↦ well.spare a (rw e at i)
      ]
