-- ===== src/PageTable.antt =====
-- Proyecto3/kernel/vm.c: the Sv39 page table. A page table is the address of a page of 512 words,
-- and a PTE pointer the address of a word; 0 is the null pointer. A C result of 0 or -1 is `true` or
-- `false`. The allocator is the one of Proyecto2/kernel/kalloc.c.
pub mod Map
pub mod Range
pub mod Single
pub mod Access
pub mod Unmap
pub mod Release
pub mod Create
pub mod Entry
pub mod Frame
pub mod Fresh
pub mod Shape
pub mod Well
pub mod Walk
pub mod Write
pub mod Grow
use oscraft.Common.{
  ℕ, zero, suc, ◌+◌, ◌-◌, ◌*◌, ◌/◌, ◌%◌, ◌^◌, Bool, true, false, ◌||◌, not, bit_or, ltb, leb, ◌==◌,
  if◌then◌else◌,
}
use oscraft.Riscv.{pgsize, u64, maxva, px, is_valid, is_user, pa2pte, pte2pa, pte_v, pte_u}
use oscraft.Monad.{
  pure, fail, ◌>>=◌, ◌>>◌, out_of_fuel, walk_address, mappages_va, mappages_size_alignment,
  mappages_size, mappages_remap, uvmunmap_va, uvmclear_va, kvmmap_failed,
}
use oscraft.Machine.{M, load, store, memset_page}
use oscraft.Kalloc.{kalloc, kfree}

-- The loop of `walk` at a level, and the entry that it ends at.
unfoldable pub walk_from : ℕ → ℕ → ℕ → Bool → M ℕ
walk_from zero pagetable va alloc = pure (pagetable + 8 * px 0 va)
walk_from (suc level) pagetable va alloc = do
  pte ← load (pagetable + 8 * px (suc level) va)
  if is_valid pte then walk_from level (pte2pa pte) va alloc else if not alloc then pure 0 else do
    page ← kalloc
    if page == 0 then pure 0 else do
      memset_page page 0
      store (pagetable + 8 * px (suc level) va) (bit_or (pa2pte page) pte_v)
      walk_from level page va alloc

unfoldable pub walk : ℕ → ℕ → Bool → M ℕ
walk pagetable va alloc = if leb maxva va then fail walk_address else walk_from 2 pagetable va alloc

unfoldable pub walkaddr : ℕ → ℕ → M ℕ
walkaddr pagetable va = if leb maxva va then pure 0 else do
  pte ← walk pagetable va false
  if pte == 0 then pure 0 else do
    entry ← load pte
    if not (is_valid entry)
        then pure 0
        else if not (is_user entry)
        then pure 0
        else do pure (pte2pa entry)

unfoldable pub ismapped : ℕ → ℕ → M Bool
ismapped pagetable va = do
  pte ← walk pagetable va false
  if pte == 0 then pure false else do entry ← load pte; pure (is_valid entry)

-- The body of the loop of `mappages`: `false` where `walk` has no memory for a table.
unfoldable pub map_page : ℕ → ℕ → ℕ → ℕ → M Bool
map_page pagetable a pa perm = do
  pte ← walk pagetable a true
  if pte == 0 then pure false else do
    entry ← load pte
    if is_valid entry
        then fail mappages_remap
        else do store pte (bit_or (bit_or (pa2pte pa) perm) pte_v); pure true

-- The loop of `mappages`, for at most `rounds` pages.
unfoldable pub map_from : ℕ → ℕ → ℕ → ℕ → ℕ → ℕ → M Bool
map_from zero pagetable a last pa perm = λ _. out_of_fuel
map_from (suc rounds) pagetable a last pa perm = do
  mapped ← map_page pagetable a pa perm
  if not mapped
      then pure false
      else if a == last
      then pure true
      else map_from rounds pagetable (u64 (a + pgsize)) last (u64 (pa + pgsize)) perm

unfoldable pub mappages : ℕ → ℕ → ℕ → ℕ → ℕ → M Bool
mappages pagetable va size pa perm =
    if not (va % pgsize == 0)
    then fail mappages_va
    else if not (size % pgsize == 0)
    then fail mappages_size_alignment
    else if size == 0
    then fail mappages_size
    else map_from (size / pgsize) pagetable va (u64 (va + size - pgsize)) pa perm

-- The body of the loop of `uvmunmap`.
unfoldable pub unmap_page : ℕ → ℕ → ℕ → Bool → M (Unit {0})
unmap_page kernel_end pagetable a do_free = do
  pte ← walk pagetable a false
  if pte == 0 then pure tt else do
    entry ← load pte
    if not (is_valid entry)
        then pure tt
        else do if do_free then kfree kernel_end (pte2pa entry) else pure tt; store pte 0

unfoldable pub unmap_from : ℕ → ℕ → ℕ → ℕ → ℕ → Bool → M (Unit {0})
unmap_from kernel_end zero pagetable a end do_free =
    if ltb a end then (λ _. out_of_fuel) else pure tt
unmap_from kernel_end (suc rounds) pagetable a end do_free =
    if ltb a end
    then (do
      unmap_page kernel_end pagetable a do_free
      unmap_from kernel_end rounds pagetable (u64 (a + pgsize)) end do_free)
    else pure tt

unfoldable pub uvmunmap : ℕ → ℕ → ℕ → ℕ → Bool → M (Unit {0})
uvmunmap kernel_end pagetable va npages do_free =
    if not (va % pgsize == 0)
    then fail uvmunmap_va
    else unmap_from kernel_end npages pagetable va (u64 (va + u64 (npages * pgsize))) do_free

-- 0 when no page is free
unfoldable pub uvmcreate : M ℕ
uvmcreate = do
  pagetable ← kalloc
  if pagetable == 0 then pure 0 else do memset_page pagetable 0; pure pagetable

unfoldable pub uvmclear : ℕ → ℕ → M (Unit {0})
uvmclear pagetable va = do
  pte ← walk pagetable va false
  if pte == 0
      then fail uvmclear_va
      else do entry ← load pte; store pte (if is_user entry then entry - pte_u else entry)

unfoldable pub kvmmap : ℕ → ℕ → ℕ → ℕ → ℕ → M (Unit {0})
kvmmap kpgtbl va pa sz perm = do
  mapped ← mappages kpgtbl va sz pa perm
  if mapped then pure tt else fail kvmmap_failed
