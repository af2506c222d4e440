-- ===== src/Kalloc.antt =====
-- Proyecto2/kernel/kalloc.c: the allocator of physical pages. `struct run` is the first word of a
-- free page, and `kmem.freelist` the machine's `freelist`. The lock of `kmem` makes each operation
-- one step, and `kernel_end` is the linker's symbol `end`.
pub mod FreeList
pub mod Contract
pub mod Boot
pub mod Clients
use oscraft.Common.{ℕ, zero, suc, ◌+◌, ◌/◌, ◌%◌, ◌||◌, not, ltb, leb, ◌==◌, if◌then◌else◌}
use oscraft.Riscv.{pgsize, pgroundup, phystop, u64}
use oscraft.Monad.{pure, fail, ◌>>=◌, ◌>>◌, kfree_address, out_of_fuel}
use oscraft.Machine.{Machine, M, load, store, memset_page}

-- `r = kmem.freelist`
unfoldable pub get_freelist : M ℕ
get_freelist m = pure m.freelist m

-- `kmem.freelist = r`
unfoldable pub set_freelist : ℕ → M (Unit {0})
set_freelist r m = pure tt (record m { freelist = r })

unfoldable pub kfree : ℕ → ℕ → M (Unit {0})
unfolding get_freelist set_freelist
kfree kernel_end pa =
    if not (pa % pgsize == 0) || (ltb pa kernel_end || leb phystop pa)
    then fail kfree_address
    else do memset_page pa 1; head ← get_freelist; store pa head; set_freelist pa

-- 0 when no page is free
unfoldable pub kalloc : M ℕ
unfolding get_freelist set_freelist
kalloc = do
  r ← get_freelist
  if r == 0 then pure 0 else do next ← load r; set_freelist next; memset_page r 5; pure r

-- the loop of `freerange` from `p`, at most `rounds` pages
unfoldable pub free_pages : ℕ → ℕ → ℕ → ℕ → M (Unit {0})
free_pages kernel_end zero p pa_end =
    if leb (p + pgsize) pa_end then (λ _. out_of_fuel) else pure tt
free_pages kernel_end (suc rounds) p pa_end =
    if leb (p + pgsize) pa_end
    then (do kfree kernel_end p; free_pages kernel_end rounds (p + pgsize) pa_end)
    else pure tt

unfoldable pub freerange : ℕ → ℕ → ℕ → M (Unit {0})
unfolding free_pages
freerange kernel_end pa_start pa_end =
    free_pages kernel_end (pa_end / pgsize) (pgroundup pa_start) pa_end

unfoldable pub kinit : ℕ → M (Unit {0})
unfolding freerange
kinit kernel_end = freerange kernel_end kernel_end phystop

-- the loop of `get_free_memory`, for a list of at most `rounds` pages
unfoldable pub count_free : ℕ → ℕ → ℕ → M ℕ
count_free zero r freemem = if r == 0 then pure freemem else (λ _. out_of_fuel)
count_free (suc rounds) r freemem =
    if r == 0
    then pure freemem
    else do next ← load r; count_free rounds next (u64 (freemem + pgsize))

unfoldable pub get_free_memory : ℕ → M ℕ
unfolding get_freelist count_free
get_free_memory rounds = do r ← get_freelist; count_free rounds r 0
