-- ===== src/UserMemory/Copy.antt =====
-- `uvmcopy` of Proyecto3/kernel/vm.c: the memory of a child is a copy of the parent's.
use oscraft.Common.{
  ℕ, ◌+◌, ◌-◌, ◌*◌, ◌/◌, ◌≤◌, ◌≡◌, ◌≢◌, Bool, true, false, List, ◌==◌, if◌then◌else◌,
}
use oscraft.Riscv.{is_valid, pte2pa, pte_flags, maxva}
use oscraft.Monad.{◌>>=◌, ◌>>◌}
use oscraft.Machine.{Machine, M, in_page, memmove_page}
use oscraft.Kalloc.{kalloc, kfree}
use oscraft.Kalloc.FreeList.{taken}
use oscraft.PageTable.{mappages}
use oscraft.PageTable.Shape.{Kind, lookup}
use oscraft.PageTable.Map.{IsRoot}
use oscraft.PageTable.Range.{IsUnmapped}
use oscraft.PageTable.Release.{HasFrames}
use oscraft.UserMemory.{abandon_copy}
use oscraft.UserMemory.Placed.{Placed}
use oscraft.UserMemory.Undone.{Undone}

-- The parent's page `i`: whether it is mapped, its flags, and its words.
module _ (m : Machine) (old : ℕ) where
  abbrev pub old_entry : ℕ → ℕ
  old_entry i = lookup m.cell 2 old (i * 4096)

  abbrev pub old_present : ℕ → Bool
  old_present i = is_valid (old_entry i)

  abbrev pub old_flags : ℕ → ℕ
  old_flags i = pte_flags (old_entry i)

  abbrev pub old_word : ℕ → ℕ → ℕ
  old_word i k = m.cell (pte2pa (old_entry i) + k)

-- How a copy of `limit` pages ends: the child has a copy of each page that the parent has, or memory has
-- run out.
pub data Copied (kernel_end : ℕ) (own : ℕ → Kind) (pages : List ℕ) (m : Machine) (old new limit : ℕ)
    : Bool → Machine → Type 0 where
  copied :
      {s : Machine}
      → Placed kernel_end own pages m new 0
          (old_present m old)
          (old_flags m old)
          (old_word m old)
          limit
          s
      → Copied kernel_end own pages m old new limit true s
  failed :
      {o : Machine}
      → Undone kernel_end own m new 0 limit limit o
      → Copied kernel_end own pages m old new limit false o

module _ (kernel_end : ℕ) (own : ℕ → Kind) (pages : List ℕ) (m : Machine) (old new limit sz : ℕ)
    (ho : IsRoot own old) (hn : IsRoot own new) (distinct : new ≢ old)
    (count : limit ≡ (sz + 4095) / 4096) (small : sz ≤ maxva)
    (frames : HasFrames kernel_end own pages m.cell old 0 limit)
    (empty : IsUnmapped m.cell new 0 limit) where
  abbrev Some : ℕ → Machine → Type 0
  Some n s =
      Placed kernel_end own pages m new 0 (old_present m old) (old_flags m old) (old_word m old) n s

  abbrev Ended : Bool → Machine → Type 0
  Ended = Copied kernel_end own pages m old new limit

  -- the machine with the first free page taken and made a copy of the page at `src`
  abbrev copy : (r src : ℕ) → Machine → Machine
  copy r src s = record (taken r s) {
    cell = λ a. if in_page r a then (taken r s).cell (src + (a - r)) else (taken r s).cell a;
  }

  -- the body of the loop for a page that is mapped, before the rounds `next` that follow
  abbrev round : M Bool → (n entry : ℕ) → M Bool
  round next n entry = do
    mem ← kalloc
    if mem == 0 then abandon_copy kernel_end new (n * 4096) else do
      memmove_page mem (pte2pa entry)
      mapped ← mappages new (n * 4096) 4096 mem (pte_flags entry)
      if mapped then next else do kfree kernel_end mem; abandon_copy kernel_end new (n * 4096)
