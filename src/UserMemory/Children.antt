-- ===== src/UserMemory/Children.antt =====
-- `freewalk` of Proyecto3/kernel/vm.c: the loop over the entries of a table, and the whole recursion.
use mathlib.Core.Bool.{false≢true}
use oscraft.Common.{
  ℕ, zero, suc, ◌+◌, ◌*◌, ◌<◌, ◌≡◌, ◌≢◌, ◌⊎◌, refl, sym, ◌∙◌, true, false, List, arith, ap, ==_ne,
  Bool-cases, inl, inr, has,
}
use oscraft.Riscv.{is_valid, pte2pa}
use oscraft.Monad.{Returns, Returns-bind, ok, ◌>>◌}
use oscraft.Machine.{store, M, Machine, in_page}
use oscraft.Machine.Cells.{load-ok, store-ok}
use oscraft.Kalloc.FreeList.{IsPage, FreeList-frame, FreeList-IsPage, kfree-ok}
use oscraft.PageTable.Shape.{Kind, table, IsTree}
use oscraft.PageTable.Grow.{own_inside}
use oscraft.PageTable.Well.{IsWell, OutsideTables}
use oscraft.PageTable.Map.{stored}
use oscraft.UserMemory.{free_entries, freewalk}
use oscraft.UserMemory.Tables.{
  entries_freed, tree_freed, HasNoPage, HasNoPage-same, tree_freed-same,
}
use oscraft.UserMemory.Freewalk.{
  IsBelow, TreeFreed, EntriesFreed, other_table, level_same, EntriesFreed-none, EntriesFreed-absent,
  EntriesFreed-TreeFreed,
}

module _ (kernel_end : ℕ) (own : ℕ → Kind) (m : Machine) (k p e : ℕ) (pages pages' : List ℕ) (i : ℕ)
    (s : Machine) (x : EntriesFreed kernel_end own pages m (suc k) p e i s) (small : i < 512)
    (c : ℕ) (points : x.own' c ≡ table k (p + 8 * i)) (o : Machine)
    (y : TreeFreed kernel_end x.own' pages' s k c (p + 8 * i) o) where
  IsBelow-own : (q : ℕ) → IsBelow x.own' (suc k) q → IsBelow own (suc k) q
  IsBelow-own q (j, t, h, lt) = elim (x.others q) [
    | inl z ↦ (j, t, sym z ∙ h, lt)
    | inr z ↦ absurd (other_table (sym z.0 ∙ h))
  ]

  freed-IsBelow : (q : ℕ) → (q ≡ c) ⊎ IsBelow x.own' k q → IsBelow x.own' (suc k) q
  freed-IsBelow q w = elim w [
    | inl z ↦ (k, p + 8 * i, ap x.own' z ∙ points, omega arith)
    | inr (j, t, h, lt) ↦ (j, t, h, omega (arith, lt))
  ]

  was : (q j t : ℕ) → y.own' q ≡ table j t → x.own' q ≡ table j t
  was q j t h = elim (y.others q) [ inl z ↦ sym z ∙ h | inr z ↦ absurd (other_table (sym z.0 ∙ h)) ]

  parent : y.own' p ≡ table (suc k) e
  parent = elim (y.others p) [
    | inl z ↦ z ∙ x.here
    | inr z ↦
        let (j, t, h, lt) = freed-IsBelow p z.1 in
        let same = (level_same (sym x.here ∙ h)).0 in absurd (omega (arith, same, lt))
  ]

  page : IsPage kernel_end p
  page = x.well.tree.is_page p (suc k) e x.here

  unlisted : (a : ℕ) → has a pages' ≡ true → p + 8 * i ≢ a
  unlisted a h z =
      let al = (FreeList-IsPage o.cell kernel_end o.freelist a pages' y.free h).aligned in
      let aligned = page.aligned in
      let same : a ≡ p = omega arith in other_table (sym (y.spare a h) ∙ ap y.own' same ∙ parent)

  -- the entry of a table that was given back is cleared
  pub EntriesFreed-child :
      EntriesFreed kernel_end own pages' m (suc k) p e (i + 1) (stored (p + 8 * i) 0 o)
  EntriesFreed-child = record {
    own' = y.own';
    well = record {
      free =
          FreeList-frame o.cell (stored (p + 8 * i) 0 o).cell kernel_end o.freelist pages'
            (λ a h. rw (==_ne (p + 8 * i) a (unlisted a h))) y.free;
      tree = y.tree;
      spare = y.spare;
    };
    here = parent;
    others = λ q. elim (y.others q) [
      | inl z ↦ elim (x.others q) [ inl w ↦ inl (z ∙ w) | inr w ↦ inr (z ∙ w.0, w.1) ]
      | inr z ↦ inr (z.0, IsBelow-own q (freed-IsBelow q z.1))
    ];
    kept = λ q j t n h ne lt.
        let al = (y.tree.is_page q j t h).aligned in
        let aligned = page.aligned in
        rw (==_ne (p + 8 * i) (q + 8 * n) (λ z. ne (omega arith)))
          (y.kept q j t n h lt ∙ x.kept q j t n (was q j t h) ne lt);
    later = λ n le lt.
        rw (==_ne (p + 8 * i) (p + 8 * n) (λ z. omega arith))
          (y.kept p (suc k) e n parent lt ∙ x.later n (omega arith) lt);
    rest = λ a out.
        let slot : p + 8 * i ≢ a = λ z. false≢true (
          sym (outside a out p (suc k) e x.here) ∙ ap (in_page p) (sym z) ∙ own_inside p i small) in
        rw (==_ne (p + 8 * i) a slot) (y.rest a (outside a out) ∙ x.rest a out);
  }
    where
      outside : (a : ℕ) → OutsideTables own a → OutsideTables x.own' a
      outside a out q j t h = elim (x.others q) [
        | inl z ↦ out q j t (sym z ∙ h)
        | inr z ↦ absurd (other_table (sym z.0 ∙ h))
      ]

-- What `freewalk` of a table of level `k` does wherever the tables are well formed and map nothing.
abbrev FreesTables : ℕ → ℕ → (ℕ → M (Unit {0})) → Type 0
FreesTables kernel_end k child =
    (c slot : ℕ) (own : ℕ → Kind) (pages : List ℕ) (s : Machine)
    → IsWell kernel_end own pages s
    → own c ≡ table k slot
    → HasNoPage s.cell k c
    → Returns (λ _ o. TreeFreed kernel_end own (tree_freed s.cell k c pages) s k c slot o)
        (child c s)

module _ (kernel_end : ℕ) (own : ℕ → Kind) (m : Machine) (k p e : ℕ) (child : ℕ → M (Unit {0}))
    (walk : FreesTables kernel_end k child) (tree : IsTree kernel_end own m.cell)
    (here : own p ≡ table (suc k) e) (none : HasNoPage m.cell (suc k) p) where
  cells_below :
      (pages : List ℕ) (i : ℕ) (s : Machine)
      (x : EntriesFreed kernel_end own pages m (suc k) p e i s) (q j t n : ℕ)
      → x.own' q ≡ table j t
      → j < suc k
      → n < 512
      → m.cell (q + 8 * n) ≡ s.cell (q + 8 * n)
  cells_below pages i s x q j t n h lt hn = sym (
      x.kept q j t n h
        (λ z. let same = (level_same (sym h ∙ ap x.own' z ∙ x.here)).0 in omega (arith, same, lt))
        hn)

  child_lem :
      (i : ℕ) (pages : List ℕ) (s : Machine)
      → i < 512
      → EntriesFreed kernel_end own pages m (suc k) p e i s
      → is_valid (m.cell (p + 8 * i)) ≡ true
      → Returns
          (λ _ o.
            EntriesFreed kernel_end own
              (tree_freed m.cell k (pte2pa (m.cell (p + 8 * i))) pages)
              m
              (suc k)
              p
              e
              (i + 1)
              o)
          ((child (pte2pa (m.cell (p + 8 * i))) >> store (p + 8 * i) 0) s)
  child_lem i pages s small x v =
      let above = (x.well.tree.is_page p (suc k) e x.here).not_null in
      let ne : p + 8 * i ≢ 0 = λ z. above (omega arith) in
      let same = x.later i (omega arith) small in
      let c = pte2pa (m.cell (p + 8 * i)) in
      let points : x.own' c ≡ table k (p + 8 * i) =
        rw same at (x.well.tree.child p k e i x.here small (rw same v)) in
      let cells = cells_below pages i s x in
      let empty : HasNoPage s.cell k c =
        HasNoPage-same kernel_end x.own' s.cell m.cell (suc k) x.well.tree cells k c (p + 8 * i)
          points (omega arith) (none i small v) in
      let list =
        tree_freed-same kernel_end x.own' s.cell m.cell (suc k) x.well.tree
          (λ q j t n h lt hn. cells q (suc j) t n h lt hn) k c (p + 8 * i) pages points
          (omega arith) in
      Returns-bind _ (child c s) _ (walk c (p + 8 * i) x.own' pages s x.well points empty) λ _ o y.
        rw (store-ok _ 0 o ne) (
          EntriesFreed-child kernel_end own m k p e pages _ i s x small c points o
            (rw (sym list) at y))

  free_entries_lem :
      (rounds i : ℕ) (pages : List ℕ) (s : Machine)
      → rounds + i ≡ 512
      → EntriesFreed kernel_end own pages m (suc k) p e i s
      → Returns
          (λ _ o.
            EntriesFreed kernel_end own
              (entries_freed (tree_freed m.cell k) m.cell rounds i p pages)
              m
              (suc k)
              p
              e
              512
              o)
          (free_entries child rounds i p s)
  unfolding free_entries entries_freed
  free_entries_lem zero i pages s e' x = let end : i ≡ 512 = omega arith in rw end at x
  free_entries_lem (suc rounds) i pages s e' x =
      let small : i < 512 = omega arith in
      let page = x.well.tree.is_page p (suc k) e x.here in
      let above = page.not_null in
      let ne : p + 8 * i ≢ 0 = λ z. above (omega arith) in
      let same = x.later i (omega arith) small in
      let c = pte2pa (m.cell (p + 8 * i)) in
      rw (load-ok _ s ne, same)
        (elim (Bool-cases (is_valid (m.cell (p + 8 * i)))) [
          | inr v ↦ rw v (
              free_entries_lem rounds (i + 1) pages s (omega arith)
                (EntriesFreed-absent kernel_end own m (suc k) p e pages i s x))
          | inl v ↦
              let inner = tree.inner p k e i here small v in
              rw (v, inner)
                (Returns-bind _ ((child (pte2pa (m.cell (p + 8 * i))) >> store (p + 8 * i) 0) s) _
                  (child_lem i pages s small x v)
                  λ _ o y. free_entries_lem rounds (i + 1) _ o (omega arith) y)
        ])

free_entries_nothing :
    (child : ℕ → M (Unit {0})) (p : ℕ) (m : Machine)
    → p ≢ 0
    → ((i : ℕ) → i < 512 → is_valid (m.cell (p + 8 * i)) ≡ false)
    → (rounds i : ℕ) → rounds + i ≡ 512
    → free_entries child rounds i p m ≡ ok tt m
unfolding free_entries
free_entries_nothing child p m ne none zero i e = refl
free_entries_nothing child p m ne none (suc rounds) i e =
    let there : p + 8 * i ≢ 0 = λ z. ne (omega arith) in
    rw (load-ok _ m there, none i (omega arith))
      (free_entries_nothing child p m ne none rounds (i + 1) (omega arith))

-- The recursion of `freewalk` over a tree that maps nothing.
pub freewalk_tree : (kernel_end k : ℕ) → FreesTables kernel_end k (freewalk kernel_end (suc k))
unfolding freewalk tree_freed
freewalk_tree kernel_end zero = λ c slot own pages s well h none.
    let page = well.tree.is_page c 0 slot h in
    rw
      (
        free_entries_nothing (freewalk kernel_end 0) c s page.not_null none 512 0 refl,
        kfree-ok kernel_end c s page,
      )
      (EntriesFreed-TreeFreed kernel_end own s 0 c slot pages 0 s
        (EntriesFreed-none kernel_end own s 0 c slot pages well h))
freewalk_tree kernel_end (suc k) = λ c slot own pages s well h none.
    Returns-bind _ (free_entries (freewalk kernel_end (suc k)) 512 0 c s) _
      (free_entries_lem kernel_end own s k c slot (freewalk kernel_end (suc k))
        (freewalk_tree kernel_end k) well.tree h none 512 0 pages s refl
        (EntriesFreed-none kernel_end own s (suc k) c slot pages well h))
      λ _ o x.
        let page = x.well.tree.is_page c (suc k) slot x.here in
        rw (kfree-ok kernel_end c o page)
          (EntriesFreed-TreeFreed kernel_end own s (suc k) c slot _ 512 o x)
