-- ===== src/Examples/Ranges.antt =====
-- The theorems on the memory of a process at one machine, with the parent's space and an empty one.
use oscraft.Common.{
  ℕ, zero, suc, ◌+◌, ◌*◌, ◌/◌, ◌%◌, ◌≤◌, ◌<◌, ◌≡◌, ◌≢◌, refl, sym, ◌∙◌, true, false, ◌⊎◌, arith,
  ◌==◌, ==_iff, ==_ne, if◌then◌else◌, Bool-cases, inl, inr, leb,
}
use mathlib.Core.Bool.{false≢true}
use oscraft.Riscv.{pte2pa, is_valid, sv39}
use oscraft.Monad.{Returns}
use oscraft.PageTable.{uvmunmap}
use oscraft.PageTable.Shape.{Kind, other, table, IsTree, lookup}
use oscraft.PageTable.Well.{IsWell, OutsideTables}
use oscraft.PageTable.Map.{IsRoot}
use oscraft.PageTable.Frame.{IsFreeable}
use oscraft.PageTable.Release.{HasFrames, released, RangeUnmapped, uvmunmap_free}
use oscraft.UserMemory.{uvmdealloc, freewalk, uvmfree}
use oscraft.UserMemory.Shrink.{uvmdealloc_lem}
use oscraft.UserMemory.Tables.{tree_freed}
use oscraft.UserMemory.Free.{SpaceFreed, freewalk_lem, uvmfree_lem}
use oscraft.Examples.Space.{
  kernel_end, root, middle, leaf, mapped_page, spare_pages, cell, machine, own, page, tree,
  valid_cases, machine-IsWell,
}

-- the root of the second space, which is empty
abbrev second : ℕ
second = 2147516416

abbrev pub both : ℕ → Kind
both p = if p == second then table 2 0 else own p

both-own : (p : ℕ) → p ≢ second → both p ≡ own p
both-own p ne = rw (==_ne p second ne)

both-IsTree : IsTree kernel_end both cell
both-IsTree = record {
  is_page = λ p k e h. elim (Bool-cases (p == second)) [
    | inl z ↦ rw ((==_iff p second).0 z) (page second refl (omega arith) (omega arith))
    | inr z ↦ tree.is_page p k e (rw z at h)
  ];
  child = λ p k e i h lt v. elim (Bool-cases (p == second)) [
    | inl z ↦ absurd (away p i ((==_iff p second).0 z) lt (valid_cases (p + 8 * i) v))
    | inr z ↦
        let down = tree.child p k e i (rw z at h) lt v in
        both-own (pte2pa (cell (p + 8 * i))) (λ w. table_ne k (p + 8 * i) (sym (rw w at down)))
        ∙ down
  ];
  inner = λ p k e i h lt v. elim (Bool-cases (p == second)) [
    | inl z ↦ absurd (away p i ((==_iff p second).0 z) lt (valid_cases (p + 8 * i) v))
    | inr z ↦ tree.inner p k e i (rw z at h) lt v
  ];
}
  where
    table_ne : (k e : ℕ) → table k e ≡ other → ⊥
    table_ne k e h = cc

    away :
        (p i : ℕ)
        → p ≡ second
        → i < 512
        → (p + 8 * i ≡ root) ⊎ ((p + 8 * i ≡ middle) ⊎ (p + 8 * i ≡ leaf))
        → ⊥
    away p i e lt (inl h) = absurd (omega arith)
    away p i e lt (inr (inl h)) = absurd (omega arith)
    away p i e lt (inr (inr h)) = absurd (omega arith)

pub both-IsWell : IsWell kernel_end both spare_pages machine
both-IsWell = record {
  free = machine-IsWell.free;
  tree = both-IsTree;
  spare = λ a h. both-own a (λ z. false≢true (rw z at h)) ∙ machine-IsWell.spare a h;
}

-- the only page of the first space
pub first-HasFrames : HasFrames kernel_end both spare_pages cell root 0 1
unfolding lookup
first-HasFrames = record { frame = λ i lt v. only i lt; apart = λ i j lt lt'. absurd (omega arith) }
  where
    only :
        (i : ℕ)
        → i < 1
        → IsFreeable kernel_end both spare_pages (pte2pa (lookup cell 2 root (0 + i * 4096)))
    only zero lt = record {
      page = page mapped_page refl (omega arith) (omega arith);
      taken = refl;
      plain = refl;
    }
    only (suc i) lt = absurd (omega arith)

root-both : IsRoot both root
root-both = (0, refl)

uvmunmap_free_example :
    Returns
      (λ _ o. RangeUnmapped kernel_end both (released cell root 0 1 spare_pages) root 0 1 machine o)
      (uvmunmap kernel_end root 0 1 true machine)
uvmunmap_free_example =
    uvmunmap_free kernel_end both root root-both 1 0 spare_pages machine both-IsWell refl
      (omega arith) first-HasFrames

uvmdealloc_lem_example :
    Returns
      (λ r o.
        (r ≡ (if leb 4000 0 then 4000 else 0))
        × RangeUnmapped kernel_end both (released cell root 0 1 spare_pages) root 0 1 machine o)
      (uvmdealloc kernel_end root 4000 0 machine)
uvmdealloc_lem_example =
    uvmdealloc_lem kernel_end both root root-both 4000 0 spare_pages machine both-IsWell
      (omega arith) (omega arith) first-HasFrames

pub unpointed : OutsideTables both 0
unpointed p k e h = let page = both-IsTree.is_page p k e h in let above = page.above in ground arith

second_empty : (va : ℕ) → va < sv39 → is_valid (lookup cell 2 second va) ≡ false
unfolding lookup
second_empty va lt =
    let two : va / 1073741824 % 512 < 512 = omega arith in
    let null : cell (second + 8 * (va / 1073741824 % 512)) ≡ 0 = ground arith in rw null

freewalk_lem_example :
    Returns
      (λ _ o.
        SpaceFreed kernel_end both (tree_freed cell 2 second spare_pages) second machine o
        × ((a : ℕ) → OutsideTables both a → o.cell a ≡ cell a))
      (freewalk kernel_end 3 second machine)
freewalk_lem_example =
    freewalk_lem kernel_end both second 0 refl unpointed spare_pages machine both-IsWell
      second_empty

-- behind the first page of the first space nothing is mapped
pub first_above : (va : ℕ) → 4096 ≤ va → va < sv39 → is_valid (lookup cell 2 root va) ≡ false
unfolding lookup
first_above va lo hi = elim (Bool-cases (va / 1073741824 == 0)) [
  | inr far ↦ let null : cell (root + 8 * (va / 1073741824 % 512)) ≡ 0 = ground arith in rw null
  | inl near ↦ elim (Bool-cases (va / 2097152 == 0)) [
    | inr far ↦
        let two : va / 1073741824 % 512 ≡ 0 = ground arith in
        let null : cell (middle + 8 * (va / 2097152 % 512)) ≡ 0 = ground arith in rw (two, null)
    | inl close ↦
        let two : va / 1073741824 % 512 ≡ 0 = ground arith in
        let one : va / 2097152 % 512 ≡ 0 = ground arith in
        let null : cell (leaf + 8 * (va / 4096 % 512)) ≡ 0 = ground arith in rw (two, one, null)
  ]
]

uvmfree_lem_example :
    Returns
      (λ _ o.
        SpaceFreed kernel_end both
          (tree_freed cell 2 root (released cell root 0 1 spare_pages))
          root
          machine
          o)
      (uvmfree kernel_end root 4000 machine)
uvmfree_lem_example =
    uvmfree_lem kernel_end both root 0 refl unpointed 4000 spare_pages machine both-IsWell
      first_above (omega arith) first-HasFrames
