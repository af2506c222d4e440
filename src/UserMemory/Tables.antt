-- ===== src/UserMemory/Tables.antt =====
-- The tables of a page-table tree that `freewalk` of Proyecto3/kernel/vm.c gives back, in its order.
use oscraft.Common.{
  ℕ, zero, suc, ◌+◌, ◌*◌, ◌<◌, ◌≤◌, ◌≡◌, refl, true, false, List, ◌∷◌, arith, if◌then◌else◌,
  Bool-cases, inl, inr, has, ap, ==_ne, ==_refl, ◌∙◌,
}
use oscraft.Riscv.{is_valid, pte2pa}
use oscraft.PageTable.Shape.{Kind, other, table, IsTree}

-- The free pages after the children behind `rounds` entries from `i` on were given back by `child`.
unfoldable pub entries_freed : (ℕ → List ℕ → List ℕ) → (ℕ → ℕ) → (rounds i p : ℕ) → List ℕ → List ℕ
entries_freed child f zero i p pages = pages
entries_freed child f (suc rounds) i p pages =
    entries_freed child f rounds (i + 1) p
      (if is_valid (f (p + 8 * i)) then child (pte2pa (f (p + 8 * i))) pages else pages)

-- The free pages after a table of a level and all below it were given back.
unfoldable pub tree_freed : (ℕ → ℕ) → (level p : ℕ) → List ℕ → List ℕ
tree_freed f zero p pages = p ∷ pages
tree_freed f (suc k) p pages = p ∷ entries_freed (tree_freed f k) f 512 0 p pages

-- The table itself is among them.
pub root_freed :
    (f : ℕ → ℕ) (level p : ℕ) (pages : List ℕ) → has p (tree_freed f level p pages) ≡ true
unfolding tree_freed
root_freed f zero p pages = rw (==_refl p)
root_freed f (suc k) p pages = rw (==_refl p)

-- Nothing is mapped by a table of a level.
abbrev pub HasNoPage : (ℕ → ℕ) → ℕ → ℕ → Type 0
HasNoPage f zero p = (i : ℕ) → i < 512 → is_valid (f (p + 8 * i)) ≡ false
HasNoPage f (suc k) p =
    (i : ℕ) → i < 512 → is_valid (f (p + 8 * i)) ≡ true → HasNoPage f k (pte2pa (f (p + 8 * i)))

module _ (kernel_end : ℕ) (own : ℕ → Kind) (f g : ℕ → ℕ) (n : ℕ) (tree : IsTree kernel_end own f)
    (same : (p k e i : ℕ)
      → own p ≡ table k e
      → k < n
      → i < 512
      → g (p + 8 * i) ≡ f (p + 8 * i)) where
  pub HasNoPage-same : (k p e : ℕ) → own p ≡ table k e → k < n → HasNoPage g k p → HasNoPage f k p
  HasNoPage-same zero p e h lt none = λ i hi. rw (same p zero e i h lt hi) at (none i hi)
  HasNoPage-same (suc k) p e h lt none = λ i hi v.
      let s = same p (suc k) e i h lt hi in
      HasNoPage-same k _ (p + 8 * i) (tree.child p k e i h hi v) (omega arith)
        (rw s at (none i hi (rw s v)))

module _ (kernel_end : ℕ) (own : ℕ → Kind) (f g : ℕ → ℕ) (n : ℕ) (tree : IsTree kernel_end own f)
    (same : (p k e i : ℕ)
      → own p ≡ table (suc k) e
      → suc k < n
      → i < 512
      → g (p + 8 * i) ≡ f (p + 8 * i)) where
  entries_freed-same :
      (child child' : ℕ → List ℕ → List ℕ) (k p e : ℕ)
      → own p ≡ table (suc k) e
      → suc k < n
      → ((i : ℕ) (l : List ℕ)
          → i < 512
          → is_valid (f (p + 8 * i)) ≡ true
          → child (pte2pa (f (p + 8 * i))) l ≡ child' (pte2pa (f (p + 8 * i))) l)
      → (rounds i : ℕ) (l : List ℕ) → rounds + i ≤ 512
      → entries_freed child g rounds i p l ≡ entries_freed child' f rounds i p l
  unfolding entries_freed
  entries_freed-same child child' k p e h lt below zero i l le = refl
  entries_freed-same child child' k p e h lt below (suc rounds) i l le =
      rw (same p k e i h lt (omega arith)) (elim (Bool-cases (is_valid (f (p + 8 * i)))) [
        | inl v ↦
            rw (v, below i l (omega arith) v)
              (entries_freed-same child child' k p e h lt below rounds (i + 1) _ (omega arith))
        | inr v ↦
            rw v (entries_freed-same child child' k p e h lt below rounds (i + 1) l (omega arith))
      ])

  -- It depends on the words of the tables above the lowest level only.
  pub tree_freed-same :
      (k p e : ℕ) (l : List ℕ) → own p ≡ table k e → k < n → tree_freed g k p l ≡ tree_freed f k p l
  unfolding tree_freed
  tree_freed-same zero p e l h lt = refl
  tree_freed-same (suc k) p e l h lt = rw (
      entries_freed-same (tree_freed g k) (tree_freed f k) k p e h lt
        (λ i l' hi v. tree_freed-same k _ (p + 8 * i) l' (tree.child p k e i h hi v) (omega arith))
        512 0 l (omega arith))

module _ (kernel_end : ℕ) (own : ℕ → Kind) (f : ℕ → ℕ) (tree : IsTree kernel_end own f) (q : ℕ)
    (plain : own q ≡ other) where
  has-entries_freed :
      (child : ℕ → List ℕ → List ℕ) (k p e : ℕ)
      → own p ≡ table (suc k) e
      → ((i : ℕ) (l : List ℕ)
          → i < 512
          → is_valid (f (p + 8 * i)) ≡ true
          → has q (child (pte2pa (f (p + 8 * i))) l) ≡ has q l)
      → (rounds i : ℕ) (l : List ℕ) → rounds + i ≤ 512
      → has q (entries_freed child f rounds i p l) ≡ has q l
  unfolding entries_freed
  has-entries_freed child k p e h below zero i l le = refl
  has-entries_freed child k p e h below (suc rounds) i l le =
      elim (Bool-cases (is_valid (f (p + 8 * i)))) [
        | inl v ↦ rw v (
            has-entries_freed child k p e h below rounds (i + 1) _ (omega arith)
            ∙ below i l (omega arith) v)
        | inr v ↦ rw v (has-entries_freed child k p e h below rounds (i + 1) l (omega arith))
      ]

  -- A page that is no table is not among those that are given back.
  pub has-tree_freed :
      (k p e : ℕ) (l : List ℕ) → own p ≡ table k e → has q (tree_freed f k p l) ≡ has q l
  unfolding tree_freed
  has-tree_freed zero p e l h = rw (==_ne q p (λ z. ground (arith, h, plain, ap own z)))
  has-tree_freed (suc k) p e l h = rw (==_ne q p (λ z. ground (arith, h, plain, ap own z))) (
      has-entries_freed (tree_freed f k) k p e h
        (λ i l' hi v. has-tree_freed k _ (p + 8 * i) l' (tree.child p k e i h hi v)) 512 0 l
        (omega arith))
