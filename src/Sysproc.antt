-- ===== src/Sysproc.antt =====
-- Proyecto3/kernel/sysproc.c, and `sys_sysinfo` and `sys_trace` of Proyecto2/kernel/sysproc.c. A call
-- returns the `uint64` that goes to a0; `minus_one` is -1.
pub mod Info
pub mod Access
pub mod Clear
pub mod Traced
use oscraft.Common.{
  ℕ, zero, suc, ◌+◌, ◌-◌, ◌*◌, ◌/◌, ◌%◌, ◌^◌, Bool, true, false, ◌&&◌, ◌||◌, not, Option, none,
  some, List, [], ◌∷◌, ◌++◌, ltb, leb, ◌==◌, if◌then◌else◌, length,
}
use oscraft.Riscv.{pgsize, u64, sext32, usyscall, kernbase, phystop, is_valid, is_accessed, pte_a}
use oscraft.Monad.{pure, fail, ok, ◌>>=◌, ◌>>◌, null_pointer}
use oscraft.Machine.{M, load, store}
use oscraft.Kalloc.{get_free_memory}
use oscraft.PageTable.{walk}
use oscraft.Transfer.{copyout}
use oscraft.Print.{vmprint}
use oscraft.Kernel.{
  Kernel, K, Config, Proc, at_ticks, unknown_trace, mem, get_proc, set_proc, print,
}
use oscraft.Proc.Alloc.{growproc}
use oscraft.Proc.Sleep.{kkill, killed, sleep_prepare, get_runnable_count}
use oscraft.Proc.Life.{kfork, kexit, Waited, kwait_turn}
use oscraft.Syscall.{argint, argaddr, argstr, syscallid_by_name}

abbrev pub minus_one : ℕ
minus_one = 18446744073709551615

abbrev pub is_negative : ℕ → Bool
is_negative n = leb 2147483648 n

unfoldable pub sys_getpid : ℕ → K ℕ
sys_getpid me = do p ← get_proc me; pure p.pid

unfoldable pub sys_fork : Config → ℕ → K ℕ
sys_fork c me = do child ← kfork c me; elim child [ none ↦ pure minus_one | some pid ↦ pure pid ]

-- `kexit` does not return
unfoldable pub sys_exit : Config → ℕ → K (Unit {0})
sys_exit c me = do n ← argint me 0; kexit c me n

-- one turn of `kwait`
unfoldable pub sys_wait : Config → ℕ → K Waited
sys_wait c me = do p ← argaddr me 0; kwait_turn c me p

unfoldable pub sys_sbrk : Config → ℕ → K ℕ
sys_sbrk c me = do
  n ← argint me 0
  t ← argint me 1
  p ← get_proc me
  if (t == c.sbrk_eager) || is_negative n
      then (do grown ← growproc c me n; pure (if grown then p.sz else minus_one))
      else if ltb (u64 (p.sz + n)) p.sz
      then pure minus_one
      else if ltb usyscall (u64 (p.sz + n))
      then pure minus_one
      else do set_proc me λ q. record q { sz = u64 (q.sz + n) }; pure p.sz

-- The test and the body of the loop of `sys_pause` for a start at `ticks0` and `n` ticks: the result
-- once it ends, and `none` when it is about to sleep.
unfoldable pub pause_turn : ℕ → ℕ → ℕ → K (Option ℕ)
pause_turn me ticks0 n k =
    if not (ltb ((k.ticks + 4294967296 - ticks0) % 4294967296) n)
    then ok (some 0) k
    else (do
      dead ← killed me
      if dead then pure (some minus_one) else do sleep_prepare me (some at_ticks); pure none)
        k

unfoldable pub sys_kill : Config → ℕ → K ℕ
sys_kill c me = do pid ← argint me 0; found ← kkill c pid; pure (if found then 0 else minus_one)

unfoldable pub sys_uptime : K ℕ
sys_uptime k = ok k.ticks k

unfoldable pub sys_vmprint : ℕ → K ℕ
sys_vmprint me = do p ← get_proc me; mem (vmprint p.pagetable); pure 0

-- The first pass of `sys_pgaccess` over `n` pages from page `i`.
unfoldable pub read_accessed : ℕ → ℕ → ℕ → ℕ → ℕ → M ℕ
read_accessed zero i pagetable base mask = pure mask
read_accessed (suc n) i pagetable base mask = do
  pte ← walk pagetable (base + i * pgsize) false
  if pte == 0 then read_accessed n (i + 1) pagetable base mask else do
    entry ← load pte
    read_accessed n (i + 1) pagetable base
        (if is_valid entry && is_accessed entry then mask + 2 ^ i else mask)

-- The second pass; `sfence_vma` is left out, since memory is read without a TLB.
unfoldable pub clear_accessed : ℕ → ℕ → ℕ → ℕ → ℕ → M (Unit {0})
clear_accessed zero i pagetable base mask = pure tt
clear_accessed (suc n) i pagetable base mask = do
  if mask / 2 ^ i % 2 == 1
      then (do
        pte ← walk pagetable (base + i * pgsize) false
        entry ← load pte
        store pte (if is_accessed entry then entry - pte_a else entry))
      else pure tt
  clear_accessed n (i + 1) pagetable base mask

-- the bytes of a `uint64`, the lowest first
abbrev pub bytes_of : ℕ → ℕ → List ℕ
bytes_of zero v = []
bytes_of (suc n) v = v % 256 ∷ bytes_of n (v / 256)

-- the tests of the arguments
abbrev pub pgaccess_range : ℕ → ℕ → ℕ → Bool
pgaccess_range base npages sz =
    (base % pgsize == 0)
    && (not (is_negative npages || (ltb npages 1 || ltb 64 npages))
        && not (ltb (u64 (base + npages * pgsize)) base || ltb sz (u64 (base + npages * pgsize))))

unfoldable pub sys_pgaccess : Config → ℕ → K ℕ
sys_pgaccess c me = do
  p ← get_proc me
  base ← argaddr me 0
  npages ← argint me 1
  maskaddr ← argaddr me 2
  if not (pgaccess_range base npages p.sz) then pure minus_one else do
    mask ← mem (read_accessed npages 0 p.pagetable base 0)
    copied ← mem (copyout c.kernel_end p.pagetable p.sz maskaddr (bytes_of 8 mask))
    if not copied
        then pure minus_one
        else do mem (clear_accessed npages 0 p.pagetable base mask); pure 0

-- Proyecto2: `struct sysinfo`
pub record Sysinfo : Type 0 where
  pub freemem : ℕ
  pub n_upages : ℕ
  pub n_apages : ℕ
  pub n_runnable : ℕ

-- the fields from the counts of free bytes and of processes
unfoldable pub make_sysinfo : ℕ → ℕ → Sysinfo
make_sysinfo freemem runnable =
    let total_pages = (phystop - kernbase) / pgsize in
    let free_pages = freemem / pgsize in
    record {
      freemem = freemem;
      n_upages = if ltb free_pages total_pages then total_pages - free_pages else 0;
      n_apages = free_pages;
      n_runnable = runnable;
    }

abbrev pub sysinfo_bytes : Sysinfo → List ℕ
sysinfo_bytes s =
    bytes_of 8 s.freemem
    ++ (bytes_of 8 s.n_upages ++ (bytes_of 8 s.n_apages ++ bytes_of 8 s.n_runnable))

-- a list of more than `(phystop - kernbase) / pgsize` free pages would hold a page twice
unfoldable pub sys_sysinfo : Config → ℕ → K ℕ
sys_sysinfo c me = do
  addr ← argaddr me 0
  runnable ← get_runnable_count c
  freemem ← mem (get_free_memory 32768)
  p ← get_proc me
  copied ←
      mem
        (copyout c.kernel_end p.pagetable p.sz addr (sysinfo_bytes (make_sysinfo freemem runnable)))
  pure (if copied then 0 else minus_one)

unfoldable pub sys_trace : Config → ℕ → K ℕ
sys_trace c me = do
  name ← argstr c me 0 16
  elim name [
    | none ↦ pure minus_one
    | some text ↦ elim (syscallid_by_name text) [
      | none ↦ do print (unknown_trace text); pure minus_one
      | some id ↦ do set_proc me λ q. record q { traced_syscall = id }; pure 0
    ]
  ]
