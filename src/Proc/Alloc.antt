-- ===== src/Proc/Alloc.antt =====
-- Proyecto3/kernel/proc.c: the process table, its page tables, and the allocation of a process.
use oscraft.Common.{
  ℕ, zero, suc, ◌+◌, ◌-◌, ◌%◌, Bool, true, false, not, Option, none, some, [], bit_or, ltb, ◌==◌,
  if◌then◌else◌,
}
use oscraft.Riscv.{
  pgsize, u64, sext32, trampoline, trapframe, usyscall, kstack, pte_r, pte_w, pte_x, pte_u,
}
use oscraft.Monad.{pure, fail, ok, ◌>>=◌, ◌>>◌, kalloc_failed, null_pointer}
use oscraft.Machine.{M, load, store, memset_page}
use oscraft.Kalloc.{kalloc, kfree}
use oscraft.PageTable.{uvmcreate, mappages, uvmunmap, kvmmap}
use oscraft.UserMemory.{uvmfree, uvmalloc, uvmdealloc}
use oscraft.Kernel.{
  K, Config, Proc, unused, used, runnable, is_unused, mem, get_proc, set_proc, set_initproc,
  for_procs,
}

-- The loop of `proc_mapstacks` over `n` processes from `i`.
unfoldable pub mapstacks_from : ℕ → ℕ → ℕ → M (Unit {0})
mapstacks_from zero i kpgtbl = pure tt
mapstacks_from (suc n) i kpgtbl = do
  pa ← kalloc
  if pa == 0 then fail kalloc_failed else do
    kvmmap kpgtbl (kstack i) pa pgsize (bit_or pte_r pte_w)
    mapstacks_from n (i + 1) kpgtbl

unfoldable pub proc_mapstacks : Config → ℕ → M (Unit {0})
proc_mapstacks c kpgtbl = mapstacks_from c.nproc 0 kpgtbl

unfoldable pub procinit : Config → K (Unit {0})
procinit c = for_procs c.nproc 0 λ i. set_proc i λ p. record p { state = unused; kstack = kstack i }

-- `nextpid` is an `int`, as its 32-bit pattern.
unfoldable pub allocpid : K ℕ
allocpid k = ok k.nextpid (record k { nextpid = (k.nextpid + 1) % 4294967296 })

unfoldable pub proc_pagetable : Config → Proc → M ℕ
proc_pagetable c p = do
  pagetable ← uvmcreate
  if pagetable == 0 then pure 0 else do
    text ← mappages pagetable trampoline pgsize c.trampoline_pa (bit_or pte_r pte_x)
    if not text then (do uvmfree c.kernel_end pagetable 0; pure 0) else do
      frame ← mappages pagetable trapframe pgsize p.trapframe (bit_or pte_r pte_w)
      if not frame
          then (do
            uvmunmap c.kernel_end pagetable trampoline 1 false
            uvmfree c.kernel_end pagetable 0
            pure 0)
          else do
            shared ← mappages pagetable usyscall pgsize p.usyscall (bit_or pte_r pte_u)
            if not shared
                then (do
                  uvmunmap c.kernel_end pagetable trapframe 1 false
                  uvmunmap c.kernel_end pagetable trampoline 1 false
                  uvmfree c.kernel_end pagetable 0
                  pure 0)
                else pure pagetable

unfoldable pub proc_freepagetable : Config → ℕ → ℕ → M (Unit {0})
proc_freepagetable c pagetable sz = do
  uvmunmap c.kernel_end pagetable trampoline 1 false
  uvmunmap c.kernel_end pagetable trapframe 1 false
  uvmunmap c.kernel_end pagetable usyscall 1 false
  uvmfree c.kernel_end pagetable sz

-- The last assignments of `freeproc`.
unfoldable pub cleared : Proc → Proc
cleared p = record p {
  trapframe = 0;
  usyscall = 0;
  pagetable = 0;
  sz = 0;
  pid = 0;
  name = [];
  chan = none;
  killed = false;
  xstate = 0;
  state = unused;
}

unfoldable pub freeproc : Config → ℕ → K (Unit {0})
freeproc c i = do
  p ← get_proc i
  if p.trapframe == 0 then pure tt else mem (kfree c.kernel_end p.trapframe)
  if p.usyscall == 0 then pure tt else mem (kfree c.kernel_end p.usyscall)
  if p.pagetable == 0 then pure tt else mem (proc_freepagetable c p.pagetable p.sz)
  set_proc i cleared

-- The search of `allocproc` among `n` slots from `i`.
unfoldable pub find_unused : ℕ → ℕ → (ℕ → Proc) → Option ℕ
find_unused zero i t = none
find_unused (suc n) i t =
    let rest = find_unused n (i + 1) t in if is_unused (t i).state then some i else rest

-- `*(int *)p = v` for the low half of a word
unfoldable pub store_int : ℕ → ℕ → M (Unit {0})
store_int p v = do w ← load p; store p (w - w % 4294967296 + v % 4294967296)

unfoldable pub abandon : Config → ℕ → K (Option ℕ)
abandon c i = do freeproc c i; pure none

-- `allocproc` from the label `found`
unfoldable pub found : Config → ℕ → K (Option ℕ)
found c i = do
  pid ← allocpid
  set_proc i λ p. record p { pid = pid; state = used }
  frame ← mem kalloc
  set_proc i λ p. record p { trapframe = frame }
  if frame == 0 then abandon c i else do
    shared ← mem kalloc
    set_proc i λ p. record p { usyscall = shared }
    if shared == 0 then abandon c i else do
      mem (memset_page shared 0)
      mem (store_int shared pid)
      p ← get_proc i
      pagetable ← mem (proc_pagetable c p)
      set_proc i λ p. record p { pagetable = pagetable }
      if pagetable == 0 then abandon c i else do
        set_proc i λ p. record p { context_ra = c.forkret; context_sp = p.kstack + pgsize }
        pure (some i)

unfoldable pub allocproc : Config → K (Option ℕ)
allocproc c k = elim (find_unused c.nproc 0 k.procs) [ none ↦ ok none k | some i ↦ found c i k ]

-- A null result of `allocproc` is read through by the next line.
unfoldable pub userinit : Config → K (Unit {0})
userinit c = do
  slot ← allocproc c
  set_initproc slot
  elim slot [
    | none ↦ fail null_pointer
    | some i ↦ set_proc i λ p. record p { cwd = c.root_inode; state = runnable }
  ]

-- `n` is an `int` by its 32-bit pattern. The result is `true` for 0 and `false` for -1.
unfoldable pub growproc : Config → ℕ → ℕ → K Bool
growproc c me n = do
  p ← get_proc me
  if n == 0
      then pure true
      else if ltb n 2147483648
      then (if ltb usyscall (u64 (p.sz + n)) then pure false else do
        sz ← mem (uvmalloc c.kernel_end p.pagetable p.sz (u64 (p.sz + n)) 4)
        if sz == 0 then pure false else do set_proc me λ p. record p { sz = sz }; pure true)
      else do
        sz ← mem (uvmdealloc c.kernel_end p.pagetable p.sz (u64 (p.sz + sext32 n)))
        set_proc me λ p. record p { sz = sz }
        pure true
