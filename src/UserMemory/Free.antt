-- ===== src/UserMemory/Free.antt =====
-- `freewalk` and `uvmfree` of Proyecto3/kernel/vm.c: an address space is given back.
use oscraft.Common.{
  ℕ, ◌+◌, ◌*◌, ◌/◌, ◌≤◌, ◌<◌, ◌≡◌, ◌≢◌, refl, sym, ◌∙◌, true, false, List, arith, ==_ne, ltb,
  Bool-cases, inl, inr,
}
use oscraft.Riscv.{px, is_valid, pgroundup, maxva, sv39}
use oscraft.Monad.{Returns, Returns-bind, Returns-mono}
use oscraft.Machine.{Machine, update}
use oscraft.PageTable.{uvmunmap}
use oscraft.PageTable.Shape.{Kind, other, table, IsTree, lookup}
use oscraft.PageTable.Grow.{own_inside}
use oscraft.PageTable.Well.{IsWell, OutsideTables}
use oscraft.PageTable.Map.{IsRoot}
use oscraft.PageTable.Range.{in_range}
use oscraft.PageTable.Frame.{lookup-frame, IsTree-frame}
use oscraft.PageTable.Release.{HasFrames, released, RangeUnmapped, uvmunmap_free}
use oscraft.UserMemory.{freewalk, uvmfree}
use oscraft.UserMemory.Shrink.{nothing_unmapped}
use oscraft.UserMemory.Tables.{HasNoPage, tree_freed, tree_freed-same}
use oscraft.UserMemory.Freewalk.{TreeFreed, other_table, level_same}
use oscraft.UserMemory.Children.{freewalk_tree}

-- The space of `root` is gone from `m` to `o`, and `pages'` are the free pages; every other space is one
-- still and maps the same.
pub record SpaceFreed (kernel_end : ℕ) (own : ℕ → Kind) (pages' : List ℕ) (root : ℕ) (m o : Machine)
    : Type 0 where
  pub own' : ℕ → Kind
  pub well : IsWell kernel_end own' pages' o
  pub gone : own' root ≡ other
  pub plain : (q : ℕ) → own q ≡ other → own' q ≡ other
  pub root_kept : (pt : ℕ) → IsRoot own pt → pt ≢ root → IsRoot own' pt
  pub maps :
      (pt vb : ℕ)
      → IsRoot own pt
      → pt ≢ root
      → vb < sv39
      → lookup o.cell 2 pt vb ≡ lookup m.cell 2 pt vb

-- A space in which no address is mapped has no lowest entry that is valid.
HasNoPage-lookup :
    (f : ℕ → ℕ) (root : ℕ)
    → ((va : ℕ) → va < sv39 → is_valid (lookup f 2 root va) ≡ false)
    → HasNoPage f 2 root
unfolding lookup
HasNoPage-lookup f root none = λ i hi v j hj w k hk.
    let va = i * 1073741824 + j * 2097152 + k * 4096 in
    let two : px 2 va ≡ i = omega arith in
    let one : px 1 va ≡ j = omega arith in
    let low : px 0 va ≡ k = omega arith in rw (two, one, low, v, w) at (none va (omega arith))

module _ (kernel_end : ℕ) (own : ℕ → Kind) (root e : ℕ) (here : own root ≡ table 2 e)
    (top : OutsideTables own e) where
  TreeFreed-SpaceFreed :
      (pages' : List ℕ) (m o : Machine)
      → TreeFreed kernel_end own pages' m 2 root e o
      → SpaceFreed kernel_end own pages' root m o
  TreeFreed-SpaceFreed pages' m o x = record {
    own' = x.own';
    well = record { free = x.free; tree = tree; spare = x.spare };
    gone = x.gone;
    plain = λ q h. elim (x.others q) [ inl z ↦ z ∙ h | inr z ↦ z.0 ];
    root_kept = still;
    maps = λ pt vb h ne hb. sym (
        lookup-frame kernel_end x.own' o.cell m.cell tree
          (λ p k s i t hi. sym (x.kept p k s i t hi)) 2 pt (still pt h ne).0 vb (still pt h ne).1);
  }
    where
      was : (p k s : ℕ) → x.own' p ≡ table k s → own p ≡ table k s
      was p k s t = elim (x.others p) [
        | inl z ↦ sym z ∙ t
        | inr z ↦ absurd (other_table (sym z.0 ∙ t))
      ]

      still : (pt : ℕ) → IsRoot own pt → pt ≢ root → IsRoot x.own' pt
      still pt (s, h) ne = elim (x.others pt) [
        | inl z ↦ (s, z ∙ h)
        | inr z ↦ elim z.1 [
          | inl y ↦ absurd (ne y)
          | inr (j, t, h', lt) ↦
              let same = (level_same (sym h ∙ h')).0 in absurd (omega (arith, same, lt))
        ]
      ]

      clear :
          (p k s i : ℕ)
          → x.own' p ≡ table k s
          → i < 512
          → o.cell (p + 8 * i) ≡ update o.cell e 0 (p + 8 * i)
      clear p k s i t hi =
          let inside = own_inside p i hi in
          let outside = top p k s (was p k s t) in
          let ne : e ≢ p + 8 * i = λ z. ground (arith, inside, outside) in
          rw (==_ne e (p + 8 * i) ne)

      tree : IsTree kernel_end x.own' o.cell
      tree = IsTree-frame kernel_end x.own' (update o.cell e 0) o.cell x.tree clear

  -- Where the free list and the page tables are well formed: for a space in which no address is mapped,
  -- and whose root is pointed to by no entry of a table, `freewalk` returns. All tables of the space are
  -- put in front of the free pages, each before the ones below it, and the space is gone; every other
  -- space is one still and maps the same, all stays well formed, and no word outside the tables has
  -- changed.
  pub freewalk_lem :
      (pages : List ℕ) (m : Machine)
      → IsWell kernel_end own pages m
      → ((va : ℕ) → va < sv39 → is_valid (lookup m.cell 2 root va) ≡ false)
      → Returns
          (λ _ o.
            SpaceFreed kernel_end own (tree_freed m.cell 2 root pages) root m o
            × ((a : ℕ) → OutsideTables own a → o.cell a ≡ m.cell a))
          (freewalk kernel_end 3 root m)
  freewalk_lem pages m well none =
      Returns-mono (freewalk kernel_end 3 root m)
        (freewalk_tree kernel_end 2 root e own pages m well here
          (HasNoPage-lookup m.cell root none))
        λ _ o x. (TreeFreed-SpaceFreed _ m o x, x.rest)

  -- the pages below `sz` are not mapped any more, and none is above
  nothing_left :
      (n : ℕ) (pages' : List ℕ) (m o : Machine)
      → RangeUnmapped kernel_end own pages' root 0 n m o
      → ((va : ℕ) → n * 4096 ≤ va → va < sv39 → is_valid (lookup m.cell 2 root va) ≡ false)
      → (va : ℕ) → va < sv39
      → is_valid (lookup o.cell 2 root va) ≡ false
  nothing_left n pages' m o x above va lt =
      rw (x.after root va (e, here) lt) (elim (Bool-cases (in_range root 0 n root va)) [
        | inl inside ↦ rw inside (elim (Bool-cases (is_valid (lookup m.cell 2 root va))) [
          | inl v ↦ rw v
          | inr v ↦ rw v v
        ])
        | inr out ↦ let beyond : n * 4096 ≤ va = ground arith in rw out (above va beyond lt)
      ])

  module _ (sz : ℕ) (pages : List ℕ) (m : Machine) (well : IsWell kernel_end own pages m)
      (above : (va : ℕ)
        → pgroundup sz ≤ va
        → va < sv39
        → is_valid (lookup m.cell 2 root va) ≡ false) where
    -- the free pages after the frames of the space and then its tables were given back
    abbrev emptied : List ℕ
    emptied = tree_freed m.cell 2 root (released m.cell root 0 (pgroundup sz / 4096) pages)

    then_walk :
        (n : Machine)
        → RangeUnmapped kernel_end own
            (released m.cell root 0 (pgroundup sz / 4096) pages)
            root
            0
            (pgroundup sz / 4096)
            m
            n
        → sz ≤ maxva
        → Returns (λ _ o. SpaceFreed kernel_end own emptied root m o) (freewalk kernel_end 3 root n)
    then_walk n x fits =
        let count : pgroundup sz / 4096 * 4096 ≡ pgroundup sz = omega arith in
        let same =
          tree_freed-same kernel_end own m.cell n.cell 3 well.tree
            (λ p k s i t lt hi. x.upper p k s i t hi) 2 root e
            (released m.cell root 0 (pgroundup sz / 4096) pages) here (omega arith) in
        Returns-mono (freewalk kernel_end 3 root n)
          (freewalk_lem _ n x.well (nothing_left (pgroundup sz / 4096) _ m n x (rw count above)))
          λ _ o (y, rest). record {
            own' = y.own';
            well = rw same at y.well;
            gone = y.gone;
            plain = y.plain;
            root_kept = y.root_kept;
            maps = λ pt vb h ne lt.
                let out : in_range root 0 (pgroundup sz / 4096) pt vb ≡ false = ground arith in
                y.maps pt vb h ne lt ∙ rw (x.after pt vb h lt, out);
          }

    -- Where the free list and the page tables are well formed: for a space whose root is pointed to by no
    -- entry of a table, a size of at most MAXVA with no page mapped from its end on, and frames below it
    -- that may be freed and are distinct, `uvmfree` returns. The frames of the mapped pages and then all
    -- tables of the space are put in front of the free pages, and the space is gone; every other space is
    -- one still and maps the same, and all stays well formed.
    pub uvmfree_lem :
        sz ≤ maxva
        → HasFrames kernel_end own pages m.cell root 0 (pgroundup sz / 4096)
        → Returns (λ _ o. SpaceFreed kernel_end own emptied root m o) (uvmfree kernel_end root sz m)
    unfolding uvmfree
    uvmfree_lem fits h = elim (Bool-cases (ltb 0 sz)) [
      | inl some ↦ rw some (
          Returns-bind _ (uvmunmap kernel_end root 0 (pgroundup sz / 4096) true m) _
            (uvmunmap_free kernel_end own root (e, here) (pgroundup sz / 4096) 0 pages m well refl
              (omega arith) h)
            λ _ n x. then_walk n x fits)
      | inr none ↦
          let count : pgroundup sz / 4096 ≡ 0 = ground arith in
          rw none (
            then_walk m (rw count (nothing_unmapped kernel_end own root (e, here) pages m 0 well))
              fits)
    ]
