-- ===== src/Examples/Space.antt =====
-- A machine with one address space and three free pages, on which the theorems on page tables are run.
use mathlib.Core.Bool.{false≢true}
use oscraft.Common.{
  ℕ, suc, ◌+◌, ◌*◌, ◌%◌, ◌≤◌, ◌<◌, ◌≡◌, refl, sym, Bool, true, false, List, [], ◌∷◌, arith, ap,
  ◌==◌, ==_iff, if◌then◌else◌, Bool-cases, inl, inr, ◌⊎◌,
}
use oscraft.Riscv.{is_valid, is_leaf, pte2pa, phystop}
use oscraft.Machine.{Machine}
use oscraft.Kalloc.FreeList.{IsPage}
use oscraft.PageTable.Shape.{Kind, other, table, IsTree}
use oscraft.PageTable.Well.{IsWell}

abbrev pub kernel_end : ℕ
kernel_end = 2147487744

-- the tables of the levels 2, 1 and 0
abbrev pub root : ℕ
root = 2147487744

abbrev pub middle : ℕ
middle = 2147491840

abbrev pub leaf : ℕ
leaf = 2147495936

-- the page that the user address 0 is mapped to, readable, writable and executable
abbrev pub mapped_page : ℕ
mapped_page = 2147500032

abbrev free_one : ℕ
free_one = 2147504128

abbrev free_two : ℕ
free_two = 2147508224

abbrev free_three : ℕ
free_three = 2147512320

abbrev pub spare_pages : List ℕ
spare_pages = free_one ∷ free_two ∷ free_three ∷ []

abbrev pub cell : ℕ → ℕ
cell a =
    if a == root
    then 536872961
    else if a == middle
    then 536873985
    else if a == leaf
    then 536875103
    else if a == free_one
    then free_two
    else if a == free_two
    then free_three
    else 0

abbrev pub machine : Machine
machine = record { cell = cell; freelist = free_one; console = [] }

abbrev pub own : ℕ → Kind
own p =
    if p == root
    then table 2 0
    else if p == middle
    then table 1 root
    else if p == leaf
    then table 0 middle
    else other

pub page : (p : ℕ) → p % 4096 ≡ 0 → kernel_end ≤ p → p < phystop → IsPage kernel_end p
page p al lo hi = record { aligned = al; above = lo; below = hi; not_null = omega arith }

abbrev level_of : Kind → ℕ
level_of other = 0
level_of (table k e) = k

abbrev is_table : Kind → Bool
is_table other = false
is_table (table k e) = true

own_cases :
    (p k e : ℕ)
    → own p ≡ table k e
    → ((p ≡ root) × (k ≡ 2)) ⊎ (((p ≡ middle) × (k ≡ 1)) ⊎ ((p ≡ leaf) × (k ≡ 0)))
own_cases p k e h = elim (Bool-cases (p == root)) [
  | inl z ↦ inl ((==_iff p root).0 z, sym (ap level_of (rw z at h)))
  | inr y ↦ elim (Bool-cases (p == middle)) [
    | inl z ↦ inr (inl ((==_iff p middle).0 z, sym (ap level_of (rw (y, z) at h))))
    | inr x ↦ elim (Bool-cases (p == leaf)) [
      | inl z ↦ inr (inr ((==_iff p leaf).0 z, sym (ap level_of (rw (y, x, z) at h))))
      | inr w ↦ absurd (false≢true (ap is_table (rw (y, x, w) at h)))
    ]
  ]
]

pub valid_cases : (a : ℕ) → is_valid (cell a) ≡ true → (a ≡ root) ⊎ ((a ≡ middle) ⊎ (a ≡ leaf))
valid_cases a h = elim (Bool-cases (a == root)) [
  | inl z ↦ inl ((==_iff a root).0 z)
  | inr y ↦ elim (Bool-cases (a == middle)) [
    | inl z ↦ inr (inl ((==_iff a middle).0 z))
    | inr x ↦ elim (Bool-cases (a == leaf)) [
      | inl z ↦ inr (inr ((==_iff a leaf).0 z))
      | inr w ↦ absurd (ground arith)
    ]
  ]
]

pub tree : IsTree kernel_end own cell
tree = record {
  is_page = λ p k e h. is_page p (own_cases p k e h);
  child = λ p k e i h lt v. below p k i lt v (own_cases p (suc k) e h) (valid_cases (p + 8 * i) v);
  inner = λ p k e i h lt v. pointer p k i (own_cases p (suc k) e h) lt (valid_cases (p + 8 * i) v);
}
  where
    is_page :
        (p : ℕ) {k : ℕ}
        → ((p ≡ root) × (k ≡ 2)) ⊎ (((p ≡ middle) × (k ≡ 1)) ⊎ ((p ≡ leaf) × (k ≡ 0)))
        → IsPage kernel_end p
    is_page p (inl h) = page p (omega (arith, h.0)) (omega (arith, h.0)) (omega (arith, h.0))
    is_page p (inr (inl h)) = page p (omega (arith, h.0)) (omega (arith, h.0)) (omega (arith, h.0))
    is_page p (inr (inr h)) = page p (omega (arith, h.0)) (omega (arith, h.0)) (omega (arith, h.0))

    pointer :
        (p k i : ℕ)
        → ((p ≡ root) × (suc k ≡ 2)) ⊎ (((p ≡ middle) × (suc k ≡ 1)) ⊎ ((p ≡ leaf) × (suc k ≡ 0)))
        → i < 512
        → (p + 8 * i ≡ root) ⊎ ((p + 8 * i ≡ middle) ⊎ (p + 8 * i ≡ leaf))
        → is_leaf (cell (p + 8 * i)) ≡ false
    pointer p k i h lt (inl z) = rw z
    pointer p k i h lt (inr (inl z)) = rw z
    pointer p k i (inl h) lt (inr (inr z)) = absurd (omega (arith, h.0))
    pointer p k i (inr (inl h)) lt (inr (inr z)) = absurd (omega (arith, h.0))
    pointer p k i (inr (inr h)) lt (inr (inr z)) = absurd (omega (arith, h.1))

    at_root : (a k : ℕ) → suc k ≡ 2 → a ≡ root → own (pte2pa (cell a)) ≡ table k a
    at_root a k ek e = let k1 : k ≡ 1 = omega (arith, ek) in rw (e, k1)

    at_middle : (a k : ℕ) → suc k ≡ 1 → a ≡ middle → own (pte2pa (cell a)) ≡ table k a
    at_middle a k ek e = let k0 : k ≡ 0 = omega (arith, ek) in rw (e, k0)

    below :
        (p k i : ℕ)
        → i < 512
        → is_valid (cell (p + 8 * i)) ≡ true
        → ((p ≡ root) × (suc k ≡ 2)) ⊎ (((p ≡ middle) × (suc k ≡ 1)) ⊎ ((p ≡ leaf) × (suc k ≡ 0)))
        → (p + 8 * i ≡ root) ⊎ ((p + 8 * i ≡ middle) ⊎ (p + 8 * i ≡ leaf))
        → own (pte2pa (cell (p + 8 * i))) ≡ table k (p + 8 * i)
    below p k i lt v (inl h) (inl z) = at_root (p + 8 * i) k h.1 z
    below p k i lt v (inl h) (inr (inl z)) = absurd (omega (arith, h.0))
    below p k i lt v (inl h) (inr (inr z)) = absurd (omega (arith, h.0))
    below p k i lt v (inr (inl h)) (inl z) = absurd (omega (arith, h.0))
    below p k i lt v (inr (inl h)) (inr (inl z)) = at_middle (p + 8 * i) k h.1 z
    below p k i lt v (inr (inl h)) (inr (inr z)) = absurd (omega (arith, h.0))
    below p k i lt v (inr (inr h)) z = absurd (omega (arith, h.1))

pub machine-IsWell : IsWell kernel_end own spare_pages machine
machine-IsWell = record {
  free = (
    refl,
    page free_one refl (omega arith) (omega arith),
    refl,
    (
      refl,
      page free_two refl (omega arith) (omega arith),
      refl,
      (refl, page free_three refl (omega arith) (omega arith), refl, refl),
    ),
  );
  tree = tree;
  spare = λ a h. elim (Bool-cases (a == free_one)) [
    | inl z ↦ rw ((==_iff _ _).0 z)
    | inr y ↦ elim (Bool-cases (a == free_two)) [
      | inl z ↦ rw ((==_iff _ _).0 z)
      | inr x ↦ let e : a ≡ free_three = ground arith in rw e
    ]
  ];
}
