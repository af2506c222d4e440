-- ===== src/Proc/Space.antt =====
-- `proc_freepagetable` of Proyecto3/kernel/proc.c: the space of a process is given back.
use oscraft.Common.{
  ℕ, ◌+◌, ◌*◌, ◌/◌, ◌≤◌, ◌<◌, ◌≡◌, ◌≢◌, ◌⊎◌, refl, ◌∙◌, false, ◌&&◌, List, arith, ap, leb, ltb,
  Bool-cases, inl, inr,
}
use oscraft.Riscv.{is_valid, pgroundup, maxva, sv39, trampoline, trapframe, usyscall}
use oscraft.Monad.{Returns, Returns-bind, Returns-mono}
use oscraft.Machine.{Machine}
use oscraft.PageTable.{uvmunmap}
use oscraft.PageTable.Shape.{Kind, table, lookup}
use oscraft.PageTable.Well.{IsWell, OutsideTables}
use oscraft.PageTable.Map.{IsRoot}
use oscraft.PageTable.Range.{in_range}
use oscraft.PageTable.Entry.{SameUpper}
use oscraft.PageTable.Release.{HasFrames, released, released_same, RangeUnmapped, uvmunmap_keep}
use oscraft.UserMemory.{uvmfree}
use oscraft.UserMemory.Tables.{tree_freed, tree_freed-same}
use oscraft.UserMemory.Free.{SpaceFreed, uvmfree_lem}
use oscraft.Proc.Alloc.{proc_freepagetable}
use oscraft.Kernel.{Config}

-- The space `root` of a process of `sz` bytes: no entry of a table points to its root, the frames below
-- `sz` may be freed and are distinct, and behind them at most the three pages below MAXVA are mapped.
pub record IsSpace (kernel_end : ℕ) (own : ℕ → Kind) (pages : List ℕ) (f : ℕ → ℕ) (root sz : ℕ)
    : Type 0 where
  pub entry : ℕ
  pub here : own root ≡ table 2 entry
  pub top : OutsideTables own entry
  pub fits : sz ≤ usyscall
  pub frames : HasFrames kernel_end own pages f root 0 (pgroundup sz / 4096)
  pub above :
      (va : ℕ)
      → pgroundup sz ≤ va
      → va < sv39
      → (va < usyscall) ⊎ (maxva ≤ va)
      → is_valid (lookup f 2 root va) ≡ false

-- the free pages after a space was given back: the frames, then the tables
abbrev pub space_freed : (ℕ → ℕ) → (root sz : ℕ) → List ℕ → List ℕ
space_freed f root sz pages = tree_freed f 2 root (released f root 0 (pgroundup sz / 4096) pages)

HasFrames-same :
    (kernel_end : ℕ) (own : ℕ → Kind) (pages : List ℕ) (f g : ℕ → ℕ) (root n : ℕ)
    → ((i : ℕ) → i < n → lookup g 2 root (0 + i * 4096) ≡ lookup f 2 root (0 + i * 4096))
    → HasFrames kernel_end own pages f root 0 n
    → HasFrames kernel_end own pages g root 0 n
HasFrames-same kernel_end own pages f g root n same h = record {
  frame = λ i lt v. rw (same i lt) (h.frame i lt (rw (same i lt) at v));
  apart = λ i j lt lt' v w.
      let s = same i (omega arith) in
      let t = same j lt' in rw (s, t) (h.apart i j lt lt' (rw s at v) (rw t at w));
}

-- Two machines whose tables above the lowest level are the same, and whose spaces map the same except
-- for the pages of `root` from the shared page up to MAXVA.
pub record SameBelow (own : ℕ → Kind) (root : ℕ) (m n : Machine) : Type 0 where
  pub upper : SameUpper own m n
  pub maps :
      (pt vb : ℕ)
      → IsRoot own pt
      → vb < sv39
      → (pt ≢ root) ⊎ ((vb < usyscall) ⊎ (maxva ≤ vb))
      → lookup n.cell 2 pt vb ≡ lookup m.cell 2 pt vb

module _ (kernel_end : ℕ) (own : ℕ → Kind) (pages : List ℕ) (root sz : ℕ) (m n : Machine)
    (well : IsWell kernel_end own pages m) (x : SameBelow own root m n) where
  root_same :
      (fits : sz ≤ usyscall)
      → (IsRoot own root)
      → (i : ℕ) → i < pgroundup sz / 4096
      → lookup n.cell 2 root (0 + i * 4096) ≡ lookup m.cell 2 root (0 + i * 4096)
  root_same fits hr i lt =
      let small : i * 4096 < usyscall = omega arith in
      x.maps root (0 + i * 4096) hr (omega arith) (inr (inl (omega arith)))

  pub IsSpace-same :
      (list : List ℕ)
      → IsSpace kernel_end own list m.cell root sz
      → IsSpace kernel_end own list n.cell root sz
  IsSpace-same list s = record {
    entry = s.entry;
    here = s.here;
    top = s.top;
    fits = s.fits;
    frames =
        HasFrames-same kernel_end own list m.cell n.cell root (pgroundup sz / 4096)
          (root_same s.fits (s.entry, s.here)) s.frames;
    above =
        λ va lo hi out. rw (x.maps root va (s.entry, s.here) hi (inr out)) (s.above va lo hi out);
  }

  pub space_freed-same :
      (list : List ℕ)
      → IsSpace kernel_end own list m.cell root sz
      → space_freed n.cell root sz list ≡ space_freed m.cell root sz list
  space_freed-same list s =
      let tables =
        tree_freed-same kernel_end own m.cell n.cell 3 well.tree
          (λ p k e i t lt hi. x.upper p k e i t hi) 2 root s.entry
          (released m.cell root 0 (pgroundup sz / 4096) list) s.here (omega arith) in
      let frames =
        released_same m.cell n.cell root (pgroundup sz / 4096) 0 list
          (root_same s.fits (s.entry, s.here)) in
      ap (tree_freed n.cell 2 root) frames ∙ tables

  pub SpaceFreed-same :
      (list : List ℕ) (o : Machine)
      → SpaceFreed kernel_end own list root n o
      → SpaceFreed kernel_end own list root m o
  SpaceFreed-same list o y = record {
    own' = y.own';
    well = y.well;
    gone = y.gone;
    plain = y.plain;
    root_kept = y.root_kept;
    maps = λ pt vb h ne lt. y.maps pt vb h ne lt ∙ x.maps pt vb h lt (inl ne);
  }

module _ (kernel_end : ℕ) (own : ℕ → Kind) (pages : List ℕ) (root : ℕ) (m n o r : Machine)
    (x : RangeUnmapped kernel_end own pages root trampoline 1 m n)
    (y : RangeUnmapped kernel_end own pages root trapframe 1 n o)
    (z : RangeUnmapped kernel_end own pages root usyscall 1 o r) where
  special-SameBelow : SameBelow own root m r
  special-SameBelow = record {
    upper = λ p k e i t hi. z.upper p k e i t hi ∙ y.upper p k e i t hi ∙ x.upper p k e i t hi;
    maps = λ pt vb h lt out.
        let one : in_range root trampoline 1 pt vb ≡ false = ground arith in
        let two : in_range root trapframe 1 pt vb ≡ false = ground arith in
        let three : in_range root usyscall 1 pt vb ≡ false = ground arith in
        rw (z.after pt vb h lt, three, y.after pt vb h lt, two, x.after pt vb h lt, one);
  }

  special-absent :
      (vb : ℕ)
      → IsRoot own root
      → usyscall ≤ vb
      → vb < maxva
      → is_valid (lookup r.cell 2 root vb) ≡ false
  special-absent vb h lo hi =
      let c = z.after root vb h (omega arith) in
      let b = y.after root vb h (omega arith) in
      let a = x.after root vb h (omega arith) in ground (arith, a, b, c)

module _ (c : Config) (own : ℕ → Kind) (pages : List ℕ) (root sz : ℕ) (m : Machine) where
  -- after the three pages are unmapped the rest of the space is freed
  rest_freed :
      (n : Machine)
      → IsWell c.kernel_end own pages m
      → IsWell c.kernel_end own pages n
      → SameBelow own root m n
      → ((vb : ℕ)
          → IsRoot own root
          → usyscall ≤ vb
          → vb < maxva
          → is_valid (lookup n.cell 2 root vb) ≡ false)
      → IsSpace c.kernel_end own pages m.cell root sz
      → Returns
          (λ _ o. SpaceFreed c.kernel_end own (space_freed m.cell root sz pages) root m o)
          (uvmfree c.kernel_end root sz n)
  rest_freed n well well' x gone s =
      let t = IsSpace-same c.kernel_end own pages root sz m n well x pages s in
      let list = space_freed-same c.kernel_end own pages root sz m n well x pages s in
      Returns-mono (uvmfree c.kernel_end root sz n)
        (uvmfree_lem c.kernel_end own root t.entry t.here t.top sz pages n well' above
          (omega (arith, t.fits)) t.frames)
        λ _ o y. SpaceFreed-same c.kernel_end own pages root sz m n well x _ o (rw list at y)
    where
      above : (va : ℕ) → pgroundup sz ≤ va → va < sv39 → is_valid (lookup n.cell 2 root va) ≡ false
      above va lo hi =
          let t = IsSpace-same c.kernel_end own pages root sz m n well x pages s in
          elim (Bool-cases (leb usyscall va && ltb va maxva)) [
            | inl inside ↦ gone va (t.entry, t.here) (ground arith) (ground arith)
            | inr outside ↦ elim (Bool-cases (ltb va usyscall)) [
              | inl below ↦ t.above va lo hi (inl (ground arith))
              | inr beyond ↦ t.above va lo hi (inr (ground arith))
            ]
          ]

  -- Where the free list and the page tables are well formed: for the space of a process of `sz` bytes, of
  -- at most the address of the shared page, `proc_freepagetable` returns. The frames of the mapped pages
  -- below `sz` and then all tables of the space are put in front of the free pages, but not the pages that
  -- the trampoline, the trapframe and the shared page are mapped to; the space is gone, every other space
  -- is one still and maps the same, and all stays well formed.
  pub proc_freepagetable_lem :
      IsWell c.kernel_end own pages m
      → IsSpace c.kernel_end own pages m.cell root sz
      → Returns
          (λ _ o. SpaceFreed c.kernel_end own (space_freed m.cell root sz pages) root m o)
          (proc_freepagetable c root sz m)
  unfolding proc_freepagetable
  proc_freepagetable_lem well s =
      let hr : IsRoot own root = (s.entry, s.here) in
      let unmap = uvmunmap_keep c.kernel_end own root hr 1 in
      Returns-bind _ (uvmunmap c.kernel_end root trampoline 1 false m) _
        (unmap trampoline pages m well refl (omega arith))
        λ _ n x.
          Returns-bind _ (uvmunmap c.kernel_end root trapframe 1 false n) _
            (unmap trapframe pages n x.well refl (omega arith))
            λ _ o y.
              Returns-bind _ (uvmunmap c.kernel_end root usyscall 1 false o) _
                (unmap usyscall pages o y.well refl (omega arith))
                λ _ r z.
                  rest_freed r well z.well
                    (special-SameBelow c.kernel_end own pages root m n o r x y z)
                    (special-absent c.kernel_end own pages root m n o r x y z) s
