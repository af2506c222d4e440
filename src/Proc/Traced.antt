-- ===== src/Proc/Traced.antt =====
-- Proyecto2/kernel/proc.c where it differs from Proyecto3: a process has no shared page, and the number
-- of the call that it traces in its place.
use oscraft.Common.{
  ℕ, ◌+◌, Bool, true, false, not, Option, none, some, [], bit_or, ltb, ◌==◌, if◌then◌else◌,
}
use oscraft.Riscv.{pgsize, u64, sext32, trampoline, trapframe, pte_r, pte_w, pte_x}
use oscraft.Monad.{pure, fail, ok, ◌>>=◌, ◌>>◌, null_pointer}
use oscraft.Machine.{M}
use oscraft.Kalloc.{kalloc, kfree}
use oscraft.PageTable.{uvmcreate, mappages, uvmunmap}
use oscraft.UserMemory.{uvmfree, uvmalloc, uvmdealloc}
use oscraft.Kernel.{K, Config, Proc, used, unused, runnable, mem, get_proc, set_proc, set_initproc}
use oscraft.Proc.Alloc.{allocpid, find_unused}
use oscraft.Proc.Life.{Waited, fork_into, scan_children}

unfoldable pub pagetable_traced : Config → Proc → M ℕ
pagetable_traced c p = do
  pagetable ← uvmcreate
  if pagetable == 0 then pure 0 else do
    text ← mappages pagetable trampoline pgsize c.trampoline_pa (bit_or pte_r pte_x)
    if not text then (do uvmfree c.kernel_end pagetable 0; pure 0) else do
      frame ← mappages pagetable trapframe pgsize p.trapframe (bit_or pte_r pte_w)
      if not frame
          then (do
            uvmunmap c.kernel_end pagetable trampoline 1 false
            uvmfree c.kernel_end pagetable 0
            pure 0)
          else pure pagetable

unfoldable pub freepagetable_traced : Config → ℕ → ℕ → M (Unit {0})
freepagetable_traced c pagetable sz = do
  uvmunmap c.kernel_end pagetable trampoline 1 false
  uvmunmap c.kernel_end pagetable trapframe 1 false
  uvmfree c.kernel_end pagetable sz

-- The last assignments of `freeproc`.
unfoldable pub cleared_traced : Proc → Proc
cleared_traced p = record p {
  trapframe = 0;
  pagetable = 0;
  sz = 0;
  pid = 0;
  name = [];
  chan = none;
  killed = false;
  traced_syscall = 0;
  xstate = 0;
  state = unused;
}

unfoldable pub freeproc_traced : Config → ℕ → K (Unit {0})
freeproc_traced c i = do
  p ← get_proc i
  if p.trapframe == 0 then pure tt else mem (kfree c.kernel_end p.trapframe)
  if p.pagetable == 0 then pure tt else mem (freepagetable_traced c p.pagetable p.sz)
  set_proc i cleared_traced

unfoldable pub abandon_traced : Config → ℕ → K (Option ℕ)
abandon_traced c i = do freeproc_traced c i; pure none

-- `allocproc` from the label `found`
unfoldable pub found_traced : Config → ℕ → K (Option ℕ)
found_traced c i = do
  pid ← allocpid
  set_proc i λ p. record p { pid = pid; state = used }
  frame ← mem kalloc
  set_proc i λ p. record p { trapframe = frame }
  if frame == 0 then abandon_traced c i else do
    p ← get_proc i
    pagetable ← mem (pagetable_traced c p)
    set_proc i λ p. record p { pagetable = pagetable }
    if pagetable == 0 then abandon_traced c i else do
      set_proc i λ p. record p { context_ra = c.forkret; context_sp = p.kstack + pgsize }
      pure (some i)

unfoldable pub allocproc_traced : Config → K (Option ℕ)
allocproc_traced c k = elim (find_unused c.nproc 0 k.procs) [
  | none ↦ ok none k
  | some i ↦ found_traced c i k
]

unfoldable pub userinit_traced : Config → K (Unit {0})
userinit_traced c = do
  slot ← allocproc_traced c
  set_initproc slot
  elim slot [
    | none ↦ fail null_pointer
    | some i ↦ set_proc i λ p. record p { cwd = c.root_inode; state = runnable }
  ]

-- It may grow up to the trapframe.
unfoldable pub growproc_traced : Config → ℕ → ℕ → K Bool
growproc_traced c me n = do
  p ← get_proc me
  if n == 0
      then pure true
      else if ltb n 2147483648
      then (if ltb trapframe (u64 (p.sz + n)) then pure false else do
        sz ← mem (uvmalloc c.kernel_end p.pagetable p.sz (u64 (p.sz + n)) 4)
        if sz == 0 then pure false else do set_proc me λ p. record p { sz = sz }; pure true)
      else do
        sz ← mem (uvmdealloc c.kernel_end p.pagetable p.sz (u64 (p.sz + sext32 n)))
        set_proc me λ p. record p { sz = sz }
        pure true

unfoldable pub kfork_traced : Config → ℕ → K (Option ℕ)
kfork_traced c me = do
  slot ← allocproc_traced c
  elim slot [ none ↦ pure none | some np ↦ fork_into c (abandon_traced c) me np ]

unfoldable pub kwait_turn_traced : Config → ℕ → ℕ → K Waited
kwait_turn_traced c me addr = scan_children c (freeproc_traced c) me addr c.nproc 0 false
