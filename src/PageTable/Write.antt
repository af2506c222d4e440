-- ===== src/PageTable/Write.antt =====
-- Writing the lowest entry of an address changes what the table maps in that page only.
use oscraft.Common.{
  ℕ, zero, suc, ◌+◌, ◌*◌, ◌<◌, ◌≡◌, ◌≢◌, refl, sym, ◌∙◌, arith, ap, ◌==◌, ==_ne, if◌then◌else◌,
  Bool-cases, inl, inr,
}
use oscraft.Riscv.{px, is_valid, pte2pa}
use oscraft.Machine.{update}
use oscraft.PageTable.Shape.{Kind, table, IsTree, lookup, entry_at, px-lt}
use oscraft.PageTable.Grow.{entry_injective}

-- Two addresses use the same entries in the tables below a level.
abbrev pub SamePath : ℕ → ℕ → ℕ → Type 0
SamePath zero va vb = px 0 va ≡ px 0 vb
SamePath (suc level) va vb = (px (suc level) va ≡ px (suc level) vb) × SamePath level va vb

module _ (kernel_end : ℕ) (own : ℕ → Kind) (f : ℕ → ℕ) (tree : IsTree kernel_end own f) where
  -- The address of an entry, where there is one, lies in a table of the lowest level.
  pub entry_at-table :
      (level pt ptr va : ℕ)
      → own pt ≡ table level ptr
      → entry_at f level pt va ≢ 0
      → (q e : ℕ) × (own q ≡ table 0 e) × (entry_at f level pt va ≡ q + 8 * px 0 va)
  unfolding entry_at
  entry_at-table zero pt ptr va h ne = (pt, ptr, h, refl)
  entry_at-table (suc level) pt ptr va h ne =
      elim (Bool-cases (is_valid (f (pt + 8 * px (suc level) va)))) [
        | inl v ↦ rw v (
            entry_at-table level (pte2pa (f (pt + 8 * px (suc level) va)))
              (pt + 8 * px (suc level) va) va
              (tree.child pt level ptr (px (suc level) va) h (px-lt (suc level) va) v) (rw v at ne))
        | inr v ↦ absurd (ne (rw v))
      ]

  -- The entry that `entry_at` finds is the one that `lookup` reads.
  pub lookup-entry_at :
      (level pt va : ℕ)
      → entry_at f level pt va ≢ 0
      → lookup f level pt va ≡ f (entry_at f level pt va)
  unfolding lookup entry_at
  lookup-entry_at zero pt va ne = refl
  lookup-entry_at (suc level) pt va ne =
      elim (Bool-cases (is_valid (f (pt + 8 * px (suc level) va)))) [
        | inl v ↦
            rw v (lookup-entry_at level (pte2pa (f (pt + 8 * px (suc level) va))) va (rw v at ne))
        | inr v ↦ absurd (ne (rw v))
      ]

  -- Two tables of a level share no lowest entry, and in one table it belongs to one path.
  pub entry_at-injective :
      (level pt pt' ptr ptr' va vb : ℕ)
      → own pt ≡ table level ptr
      → own pt' ≡ table level ptr'
      → entry_at f level pt va ≢ 0
      → entry_at f level pt va ≡ entry_at f level pt' vb
      → (pt ≡ pt') × SamePath level va vb
  unfolding entry_at
  entry_at-injective zero pt pt' ptr ptr' va vb h h' ne e =
      entry_injective pt pt' (px 0 va) (px 0 vb) (tree.is_page pt zero ptr h).aligned
        (tree.is_page pt' zero ptr' h').aligned (px-lt 0 va) (px-lt 0 vb) e
  entry_at-injective (suc level) pt pt' ptr ptr' va vb h h' ne e =
      let slot = pt + 8 * px (suc level) va in
      let slot' = pt' + 8 * px (suc level) vb in
      elim (Bool-cases (is_valid (f slot))) [
        | inl v ↦ elim (Bool-cases (is_valid (f slot'))) [
          | inl v' ↦
              let child = tree.child pt level ptr (px (suc level) va) h (px-lt (suc level) va) v in
              let child' =
                tree.child pt' level ptr' (px (suc level) vb) h' (px-lt (suc level) vb) v' in
              let below =
                entry_at-injective level (pte2pa (f slot)) (pte2pa (f slot')) slot slot' va vb child
                  child' (rw v at ne) (rw (v, v') at e) in
              let slots : slot ≡ slot' = table_entry (sym child ∙ ap own below.0 ∙ child') in
              let joined =
                entry_injective pt pt' (px (suc level) va) (px (suc level) vb)
                  (tree.is_page pt (suc level) ptr h).aligned
                  (tree.is_page pt' (suc level) ptr' h').aligned (px-lt (suc level) va)
                  (px-lt (suc level) vb) slots in
              (joined.0, (joined.1, below.1))
          | inr i' ↦ absurd (ne (e ∙ rw i'))
        ]
        | inr i ↦ absurd (ne (rw i))
      ]
    where
      table_entry : {k a b : ℕ} → table k a ≡ table k b → a ≡ b
      table_entry z = ground arith

  module _ (q e j v : ℕ) (low : own q ≡ table 0 e) (small : j < 512) where
    abbrev pub written : ℕ → ℕ
    written = update f (q + 8 * j) v

    pub kept :
        (p k ptr i : ℕ) → own p ≡ table (suc k) ptr → i < 512 → written (p + 8 * i) ≡ f (p + 8 * i)
    kept p k ptr i h hi =
        let apart : q + 8 * j ≢ p + 8 * i = λ z.
          let joined =
            entry_injective q p j i (tree.is_page q zero e low).aligned
              (tree.is_page p (suc k) ptr h).aligned small hi z in
          ground (arith, h, low, ap own joined.0) in
        rw (==_ne (q + 8 * j) (p + 8 * i) apart)

    pub IsTree-write : IsTree kernel_end own written
    IsTree-write = record {
      is_page = tree.is_page;
      child = λ p k ptr i h hi valid.
          rw (kept p k ptr i h hi) (tree.child p k ptr i h hi (rw (kept p k ptr i h hi) at valid));
      inner = λ p k ptr i h hi valid.
          rw (kept p k ptr i h hi) (tree.inner p k ptr i h hi (rw (kept p k ptr i h hi) at valid));
    }

    -- The write shows at the addresses whose entry it is, and at no other.
    pub lookup-write :
        (level pt ptr vb : ℕ)
        → own pt ≡ table level ptr
        → lookup written level pt vb
          ≡ (if q + 8 * j == entry_at f level pt vb then v else lookup f level pt vb)
    unfolding lookup entry_at
    lookup-write zero pt ptr vb h = refl
    lookup-write (suc level) pt ptr vb h =
        rw (kept pt level ptr (px (suc level) vb) h (px-lt (suc level) vb))
          (elim (Bool-cases (is_valid (f (pt + 8 * px (suc level) vb)))) [
            | inl valid ↦ rw valid (
                lookup-write level (pte2pa (f (pt + 8 * px (suc level) vb)))
                  (pt + 8 * px (suc level) vb) vb
                  (tree.child pt level ptr (px (suc level) vb) h (px-lt (suc level) vb) valid))
            | inr invalid ↦
                let page = tree.is_page q zero e low in
                rw (invalid, ==_ne (q + 8 * j) 0 (λ z. page.not_null (omega arith)))
          ])

    -- It changes which entries there are in no table.
    pub entry_at-write :
        (level pt ptr vb : ℕ)
        → own pt ≡ table level ptr
        → entry_at written level pt vb ≡ entry_at f level pt vb
    unfolding entry_at
    entry_at-write zero pt ptr vb h = refl
    entry_at-write (suc level) pt ptr vb h =
        rw (kept pt level ptr (px (suc level) vb) h (px-lt (suc level) vb))
          (elim (Bool-cases (is_valid (f (pt + 8 * px (suc level) vb)))) [
            | inl valid ↦ rw valid (
                entry_at-write level (pte2pa (f (pt + 8 * px (suc level) vb)))
                  (pt + 8 * px (suc level) vb) vb
                  (tree.child pt level ptr (px (suc level) vb) h (px-lt (suc level) vb) valid))
            | inr invalid ↦ rw invalid
          ])
