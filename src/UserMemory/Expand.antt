-- ===== src/UserMemory/Expand.antt =====
-- `uvmalloc` of Proyecto3/kernel/vm.c: a process gets more memory, or keeps what it has.
use oscraft.Common.{ℕ, ◌+◌, ◌-◌, ◌%◌, ◌/◌, ◌≤◌, ◌<◌, ◌≡◌, true, List, ◌==◌, if◌then◌else◌, bit_or}
use oscraft.Riscv.{maxva, u64}
use oscraft.Monad.{pure, ◌>>=◌, ◌>>◌}
use oscraft.Machine.{Machine, M, in_page, splat, memset_page}
use oscraft.Kalloc.{kalloc, kfree}
use oscraft.Kalloc.FreeList.{taken}
use oscraft.PageTable.{mappages}
use oscraft.PageTable.Shape.{Kind}
use oscraft.PageTable.Map.{IsRoot}
use oscraft.PageTable.Range.{IsUnmapped}
use oscraft.UserMemory.{uvmdealloc}
use oscraft.UserMemory.Placed.{Placed}
use oscraft.UserMemory.Undone.{Undone}

-- How the growth to `newsz` by `limit` pages from `base` on ends: they are placed with zeroed frames, or
-- memory has run out.
pub data Expanded (kernel_end : ℕ) (own : ℕ → Kind) (pages : List ℕ) (m : Machine)
    (root base limit newsz perm : ℕ) : ℕ → Machine → Type 0 where
  grown :
      {s : Machine}
      → Placed kernel_end own pages m root base (λ _. true) (λ _. bit_or 18 perm) (λ _ _. 0) limit s
      → Expanded kernel_end own pages m root base limit newsz perm newsz s
  undone :
      {o : Machine}
      → Undone kernel_end own m root base limit limit o
      → Expanded kernel_end own pages m root base limit newsz perm 0 o

module _ (kernel_end : ℕ) (own : ℕ → Kind) (pages : List ℕ) (m : Machine)
    (root base limit newsz perm : ℕ) (hr : IsRoot own root) (al : base % 4096 ≡ 0)
    (count : limit ≡ (newsz + 4095 - base) / 4096) (small : newsz ≤ maxva) (low : base ≤ maxva)
    (flags : bit_or 18 perm < 1024) (empty : IsUnmapped m.cell root base limit) where
  abbrev Grown : ℕ → Machine → Type 0
  Grown n s =
      Placed kernel_end own pages m root base (λ _. true) (λ _. bit_or 18 perm) (λ _ _. 0) n s

  abbrev Ended : ℕ → Machine → Type 0
  Ended = Expanded kernel_end own pages m root base limit newsz perm

  -- the machine with the first free page taken and zeroed
  abbrev zeroed : ℕ → Machine → Machine
  zeroed r s = record (taken r s) {
    cell = λ a. if in_page r a then splat 0 else (taken r s).cell a;
  }

  -- the body of the loop from `kalloc` on, before the rounds `rest` that follow
  abbrev round : (ℕ → M ℕ) → ℕ → M ℕ
  round rest a = do
    mem ← kalloc
    if mem == 0 then (do uvmdealloc kernel_end root a base; pure 0) else do
      memset_page mem 0
      mapped ← mappages root a 4096 mem (bit_or 18 perm)
      if mapped
          then rest (u64 (a + 4096))
          else do kfree kernel_end mem; uvmdealloc kernel_end root a base; pure 0
