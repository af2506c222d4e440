-- ===== src/PageTable/Grow.antt =====
-- Linking a fresh, zeroed table page into an invalid entry keeps the trees and what they map.
use oscraft.Common.{
  ℕ, zero, suc, ◌+◌, ◌*◌, ◌%◌, ◌<◌, ◌≡◌, ◌≢◌, true, false, arith, ap, ◌==◌, ==_iff, ==_ne, ==_refl,
  if◌then◌else◌, Bool-cases, inl, inr,
}
use oscraft.Riscv.{px, is_valid, is_leaf, pte2pa}
use oscraft.Machine.{in_page}
use oscraft.Kalloc.FreeList.{IsPage}
use oscraft.PageTable.Shape.{Kind, other, table, IsTree, lookup, px-lt}

-- `own` with the page `r` made a table
abbrev pub with_table : (ℕ → Kind) → ℕ → ℕ → ℕ → ℕ → Kind
with_table own r level entry p = if r == p then table level entry else own p

-- `g` is `f` with the page at `r` cleared and the entry at `slot` set to `v`.
pub record Linked (f g : ℕ → ℕ) (r slot v : ℕ) : Type 0 where
  pub at_slot : g slot ≡ v
  pub cleared : (a : ℕ) → in_page r a ≡ true → g a ≡ 0
  pub same : (a : ℕ) → in_page r a ≡ false → a ≢ slot → g a ≡ f a

entry_in_page :
    (p q i : ℕ) → p % 4096 ≡ 0 → q % 4096 ≡ 0 → i < 512 → in_page q (p + 8 * i) ≡ true → q ≡ p
entry_in_page p q i hp hq hi inside = ground arith

pub entry_outside :
    (p q i : ℕ) → p % 4096 ≡ 0 → q % 4096 ≡ 0 → i < 512 → q ≢ p → in_page q (p + 8 * i) ≡ false
entry_outside p q i hp hq hi ne = ground arith

pub own_inside : (p i : ℕ) → i < 512 → in_page p (p + 8 * i) ≡ true
own_inside p i h = ground arith

-- the entries of two tables are one only if the tables are one
pub entry_injective :
    (p q i j : ℕ)
    → p % 4096 ≡ 0
    → q % 4096 ≡ 0
    → i < 512
    → j < 512
    → p + 8 * i ≡ q + 8 * j
    → (p ≡ q) × (i ≡ j)
entry_injective p q i j hp hq hi hj e = omega arith

module _ (kernel_end : ℕ) (own : ℕ → Kind) (f g : ℕ → ℕ) (level pt ptr i r v : ℕ)
    (tree : IsTree kernel_end own f) (here : own pt ≡ table (suc level) ptr) (small : i < 512)
    (fresh : own r ≡ other) (page : IsPage kernel_end r) (empty : is_valid (f (pt + 8 * i)) ≡ false)
    (link : Linked f g r (pt + 8 * i) v) (points : (pte2pa v ≡ r) × (is_leaf v ≡ false)) where
  abbrev pub grown : ℕ → Kind
  grown = with_table own r level (pt + 8 * i)

  pub kept :
      (p k e j : ℕ)
      → own p ≡ table k e
      → j < 512
      → p + 8 * j ≢ pt + 8 * i
      → g (p + 8 * j) ≡ f (p + 8 * j)
  kept p k e j h small' ne =
      let q = tree.is_page p k e h in
      let apart : r ≢ p = λ x. cc in
      link.same (p + 8 * j) (entry_outside p r j q.aligned page.aligned small' apart) ne

  pub old : (p k e : ℕ) → own p ≡ table k e → grown p ≡ table k e
  old p k e h = let apart : (r == p) ≡ false = ==_ne r p (λ x. cc) in rw apart h

  pub new : grown r ≡ table level (pt + 8 * i)
  new = rw (==_refl r)

  grown-IsPage : (p k e : ℕ) → grown p ≡ table k e → IsPage kernel_end p
  grown-IsPage p k e h = elim (Bool-cases (r == p)) [
    | inl x ↦ rw (← (==_iff r p).0 x) page
    | inr x ↦ tree.is_page p k e (rw x at h)
  ]

  linked_child :
      (p k j : ℕ)
      → p + 8 * j ≡ pt + 8 * i
      → k ≡ level
      → grown (pte2pa (g (p + 8 * j))) ≡ table k (p + 8 * j)
  linked_child p k j e same_level = rw (e, link.at_slot, points.0, same_level) new

  cleared_invalid : {a : ℕ} → g a ≡ 0 → is_valid (g a) ≡ true → ⊥
  cleared_invalid z valid = ground arith

  grown_child :
      (p k e j : ℕ)
      → grown p ≡ table (suc k) e
      → j < 512
      → is_valid (g (p + 8 * j)) ≡ true
      → grown (pte2pa (g (p + 8 * j))) ≡ table k (p + 8 * j)
  grown_child p k e j h small' valid = elim (Bool-cases (r == p)) [
    | inl x ↦
        let inside : g (p + 8 * j) ≡ 0 =
          link.cleared (p + 8 * j) (rw ((==_iff r p).0 x) (own_inside p j small')) in
        absurd (cleared_invalid inside valid)
    | inr x ↦
        let h' : own p ≡ table (suc k) e = rw x at h in
        elim (Bool-cases (p + 8 * j == pt + 8 * i)) [
          | inl y ↦
              let same_entry = (==_iff (p + 8 * j) (pt + 8 * i)).0 y in
              let joined =
                entry_injective p pt j i (tree.is_page p (suc k) e h').aligned
                  (tree.is_page pt (suc level) ptr here).aligned small' small same_entry in
              linked_child p k j same_entry (ground (arith, h', here, ap own joined.0))
          | inr y ↦
              let ne : p + 8 * j ≢ pt + 8 * i = λ z. ground arith in
              let unchanged = kept p (suc k) e j h' small' ne in
              rw unchanged (
                old (pte2pa (f (p + 8 * j))) k (p + 8 * j)
                  (tree.child p k e j h' small' (rw unchanged at valid)))
        ]
  ]

  grown_inner :
      (p k e j : ℕ)
      → grown p ≡ table (suc k) e
      → j < 512
      → is_valid (g (p + 8 * j)) ≡ true
      → is_leaf (g (p + 8 * j)) ≡ false
  grown_inner p k e j h small' valid = elim (Bool-cases (r == p)) [
    | inl x ↦
        let inside : g (p + 8 * j) ≡ 0 =
          link.cleared (p + 8 * j) (rw ((==_iff r p).0 x) (own_inside p j small')) in
        absurd (cleared_invalid inside valid)
    | inr x ↦
        let h' : own p ≡ table (suc k) e = rw x at h in
        elim (Bool-cases (p + 8 * j == pt + 8 * i)) [
          | inl y ↦ rw ((==_iff (p + 8 * j) (pt + 8 * i)).0 y, link.at_slot) points.1
          | inr y ↦
              let ne : p + 8 * j ≢ pt + 8 * i = λ z. ground arith in
              let unchanged = kept p (suc k) e j h' small' ne in
              rw unchanged (tree.inner p k e j h' small' (rw unchanged at valid))
        ]
  ]

  pub IsTree-link : IsTree kernel_end grown g
  IsTree-link = record { is_page = grown-IsPage; child = grown_child; inner = grown_inner }

  fresh_lookup : (k va : ℕ) → lookup g k r va ≡ 0
  unfolding lookup
  fresh_lookup zero va = link.cleared _ (own_inside r (px 0 va) (px-lt 0 va))
  fresh_lookup (suc k) va = rw (link.cleared _ (own_inside r (px (suc k) va) (px-lt (suc k) va)))

  pub lookup-link : (k q e va : ℕ) → own q ≡ table k e → lookup g k q va ≡ lookup f k q va
  unfolding lookup
  lookup-link zero q e va h = kept q zero e (px 0 va) h (px-lt 0 va) (λ z.
      let joined =
        entry_injective q pt (px 0 va) i (tree.is_page q zero e h).aligned
          (tree.is_page pt (suc level) ptr here).aligned (px-lt 0 va) small z in
      ground (arith, h, here, ap own joined.0))
  lookup-link (suc k) q e va h = elim (Bool-cases (q + 8 * px (suc k) va == pt + 8 * i)) [
    | inl y ↦
        let same = (==_iff (q + 8 * px (suc k) va) (pt + 8 * i)).0 y in
        let invalid : is_valid (f (q + 8 * px (suc k) va)) ≡ false = rw same empty in
        rw (invalid, same, link.at_slot, points.0, fresh_lookup k va) (ground arith)
    | inr y ↦
        let unchanged = kept q (suc k) e (px (suc k) va) h (px-lt (suc k) va) (λ z. ground arith) in
        rw unchanged (elim (Bool-cases (is_valid (f (q + 8 * px (suc k) va)))) [
          | inl valid ↦ rw valid (
              lookup-link k (pte2pa (f (q + 8 * px (suc k) va))) (q + 8 * px (suc k) va) va
                (tree.child q k e (px (suc k) va) h (px-lt (suc k) va) valid))
          | inr invalid ↦ rw invalid
        ])
  ]
