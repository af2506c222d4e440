-- ===== src/PageTable/Shape.antt =====
-- What a page table in memory looks like, and what it maps: the specification that `walk` and its
-- callers are proved against.
use oscraft.Common.{
  ℕ, zero, suc, ◌+◌, ◌*◌, ◌<◌, ◌≡◌, refl, true, false, arith, ◌==◌, if◌then◌else◌, Bool-cases, inl,
  inr,
}
use oscraft.Riscv.{px, is_valid, is_leaf, pte2pa}
use oscraft.Monad.{ok}
use oscraft.Machine.{Machine, load}
use oscraft.PageTable.{walk_from}
use oscraft.Kalloc.FreeList.{IsPage}

-- What a page is used for: a page-table page of a level, named with the address of the one entry
-- that points to it, or anything else.
pub data Kind : Type 0 where
  other : Kind
  table : (level entry : ℕ) → Kind

-- Every table page belongs to the allocator, and each valid entry above the lowest level points to a
-- table of the next level that has this entry as its own, and has no permissions. So the tables form
-- trees.
pub record IsTree (kernel_end : ℕ) (own : ℕ → Kind) (f : ℕ → ℕ) : Type 0 where
  pub is_page : (p level entry : ℕ) → own p ≡ table level entry → IsPage kernel_end p
  pub child :
      (p level entry i : ℕ)
      → own p ≡ table (suc level) entry
      → i < 512
      → is_valid (f (p + 8 * i)) ≡ true
      → own (pte2pa (f (p + 8 * i))) ≡ table level (p + 8 * i)
  pub inner :
      (p level entry i : ℕ)
      → own p ≡ table (suc level) entry
      → i < 512
      → is_valid (f (p + 8 * i)) ≡ true
      → is_leaf (f (p + 8 * i)) ≡ false

-- The PTE of `va` in the table `pt` of a level, and 0 where a table on the way is missing.
unfoldable pub lookup : (ℕ → ℕ) → ℕ → ℕ → ℕ → ℕ
lookup f zero pt va = f (pt + 8 * px 0 va)
lookup f (suc level) pt va =
    let below = lookup f level (pte2pa (f (pt + 8 * px (suc level) va))) va in
    if is_valid (f (pt + 8 * px (suc level) va)) then below else 0

-- The address of that PTE, and 0 where a table is missing.
unfoldable pub entry_at : (ℕ → ℕ) → ℕ → ℕ → ℕ → ℕ
entry_at f zero pt va = pt + 8 * px 0 va
entry_at f (suc level) pt va =
    let below = entry_at f level (pte2pa (f (pt + 8 * px (suc level) va))) va in
    if is_valid (f (pt + 8 * px (suc level) va)) then below else 0

pub px-lt : (level va : ℕ) → px level va < 512
px-lt level va = omega arith

module _ (kernel_end : ℕ) (own : ℕ → Kind) where
  -- Without `alloc` the loop of `walk` reads the entry's address and changes nothing.
  pub walk_from-read :
      (level pt ptr va : ℕ) (m : Machine)
      → IsTree kernel_end own m.cell
      → own pt ≡ table level ptr
      → walk_from level pt va false m ≡ ok (entry_at m.cell level pt va) m
  unfolding walk_from entry_at load
  walk_from-read zero pt ptr va m tree h = refl
  walk_from-read (suc level) pt ptr va m tree h =
      let page = tree.is_page pt (suc level) ptr h in
      let slot = pt + 8 * px (suc level) va in
      let there : (slot == 0) ≡ false = ground arith in
      elim (Bool-cases (is_valid (m.cell slot))) [
        | inl v ↦
            rw (there, v)
              (walk_from-read level (pte2pa (m.cell slot)) slot va m tree
                (tree.child pt level ptr (px (suc level) va) h (px-lt (suc level) va) v))
        | inr v ↦ rw (there, v)
      ]
