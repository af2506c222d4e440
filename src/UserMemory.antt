-- ===== src/UserMemory.antt =====
-- Proyecto3/kernel/vm.c: the memory of a user process: growing, shrinking, copying and freeing.
pub mod Shrink
pub mod Placed
pub mod Undone
pub mod Expand
pub mod Copy
pub mod Tables
pub mod Freewalk
pub mod Children
pub mod Free
use oscraft.Common.{
  ℕ, zero, suc, ◌+◌, ◌-◌, ◌*◌, ◌/◌, Bool, true, false, ◌&&◌, not, bit_or, ltb, leb, ◌==◌,
  if◌then◌else◌,
}
use oscraft.Riscv.{
  pgsize, u64, sext32, pgroundup, is_valid, is_leaf, pte2pa, pte_flags, pte_r, pte_u,
}
use oscraft.Monad.{pure, fail, ◌>>=◌, ◌>>◌, out_of_fuel, freewalk_leaf}
use oscraft.Machine.{M, load, store, memset_page, memmove_page}
use oscraft.Kalloc.{kalloc, kfree}
use oscraft.PageTable.{walk, mappages, uvmunmap}

unfoldable pub uvmdealloc : ℕ → ℕ → ℕ → ℕ → M ℕ
uvmdealloc kernel_end pagetable oldsz newsz = if leb oldsz newsz then pure oldsz else do
  if ltb (pgroundup newsz) (pgroundup oldsz)
      then uvmunmap kernel_end pagetable (pgroundup newsz)
          (sext32 ((pgroundup oldsz - pgroundup newsz) / pgsize)) true
      else pure tt
  pure newsz

-- The loop of `uvmalloc` at the address `a`; `oldsz` is already rounded up.
unfoldable pub grow_from : ℕ → ℕ → ℕ → ℕ → ℕ → ℕ → ℕ → M ℕ
grow_from kernel_end zero pagetable a oldsz newsz xperm =
    if ltb a newsz then (λ _. out_of_fuel) else pure newsz
grow_from kernel_end (suc rounds) pagetable a oldsz newsz xperm =
    if not (ltb a newsz) then pure newsz else do
      mem ← kalloc
      if mem == 0 then (do uvmdealloc kernel_end pagetable a oldsz; pure 0) else do
        memset_page mem 0
        mapped ← mappages pagetable a pgsize mem (bit_or (bit_or pte_r pte_u) xperm)
        if mapped
            then grow_from kernel_end rounds pagetable (u64 (a + pgsize)) oldsz newsz xperm
            else do kfree kernel_end mem; uvmdealloc kernel_end pagetable a oldsz; pure 0

-- 0 when memory runs out
unfoldable pub uvmalloc : ℕ → ℕ → ℕ → ℕ → ℕ → M ℕ
uvmalloc kernel_end pagetable oldsz newsz xperm =
    if ltb newsz oldsz
    then pure oldsz
    else grow_from kernel_end (newsz / pgsize + 1) pagetable (pgroundup oldsz) (pgroundup oldsz)
        newsz xperm

-- The loop of `freewalk` over the entries from `i`, with the recursive call as an argument.
unfoldable pub free_entries : (ℕ → M (Unit {0})) → ℕ → ℕ → ℕ → M (Unit {0})
free_entries child zero i pagetable = pure tt
free_entries child (suc rounds) i pagetable = do
  pte ← load (pagetable + 8 * i)
  if is_valid pte && not (is_leaf pte)
      then (do child (pte2pa pte); store (pagetable + 8 * i) 0)
      else if is_valid pte
      then fail freewalk_leaf
      else pure tt
  free_entries child rounds (i + 1) pagetable

-- `depth` bounds the nesting of tables.
unfoldable pub freewalk : ℕ → ℕ → ℕ → M (Unit {0})
freewalk kernel_end zero pagetable = λ _. out_of_fuel
freewalk kernel_end (suc depth) pagetable = do
  free_entries (freewalk kernel_end depth) 512 0 pagetable
  kfree kernel_end pagetable

unfoldable pub uvmfree : ℕ → ℕ → ℕ → M (Unit {0})
uvmfree kernel_end pagetable sz = do
  if ltb 0 sz then uvmunmap kernel_end pagetable 0 (pgroundup sz / pgsize) true else pure tt
  freewalk kernel_end 3 pagetable

-- `goto err` of `uvmcopy`
unfoldable pub abandon_copy : ℕ → ℕ → ℕ → M Bool
abandon_copy kernel_end new i = do uvmunmap kernel_end new 0 (i / pgsize) true; pure false

-- The loop of `uvmcopy` at the address `i`.
unfoldable pub copy_pages : ℕ → ℕ → ℕ → ℕ → ℕ → ℕ → M Bool
copy_pages kernel_end zero old new i sz = if ltb i sz then (λ _. out_of_fuel) else pure true
copy_pages kernel_end (suc rounds) old new i sz =
    let next = copy_pages kernel_end rounds old new (u64 (i + pgsize)) sz in
    if not (ltb i sz) then pure true else do
      pte ← walk old i false
      if pte == 0 then next else do
        entry ← load pte
        if not (is_valid entry) then next else do
          mem ← kalloc
          if mem == 0 then abandon_copy kernel_end new i else do
            memmove_page mem (pte2pa entry)
            mapped ← mappages new i pgsize mem (pte_flags entry)
            if mapped then next else do kfree kernel_end mem; abandon_copy kernel_end new i

unfoldable pub uvmcopy : ℕ → ℕ → ℕ → ℕ → M Bool
uvmcopy kernel_end old new sz = copy_pages kernel_end (sz / pgsize + 1) old new 0 sz
