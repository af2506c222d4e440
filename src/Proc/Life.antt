-- ===== src/Proc/Life.antt =====
-- Proyecto3/kernel/proc.c: fork, exit and wait, and the copies that go to either address space.
use oscraft.Common.{
  ℕ, zero, suc, ◌+◌, ◌/◌, ◌%◌, Bool, true, false, ◌||◌, not, Option, none, some, List, [], ◌∷◌, ltb,
  ◌==◌, if◌then◌else◌, take,
}
use oscraft.Monad.{pure, fail, ◌>>=◌, ◌>>◌, init_exiting}
use oscraft.Machine.{M, load, store, copy_to, copy_from}
use oscraft.UserMemory.{uvmcopy}
use oscraft.Transfer.{copyout, copyin}
use oscraft.Kernel.{
  K, Config, Channel, at_proc, runnable, zombie, is_zombie, same_proc, mem, get_proc, set_proc,
  get_initproc, for_procs,
}
use oscraft.Proc.Alloc.{allocproc, freeproc, abandon}
use oscraft.Proc.Sleep.{wakeup, sched, killed, sleep_prepare}

-- the channel of a `struct proc *`
abbrev pub chan_of : Option ℕ → Option Channel
chan_of none = none
chan_of (some i) = some (at_proc i)

-- `*dst = *src` for a `struct trapframe`: 36 words
unfoldable pub copy_words : ℕ → ℕ → ℕ → M (Unit {0})
copy_words zero dst src = pure tt
copy_words (suc n) dst src = do w ← load src; store dst w; copy_words n (dst + 8) (src + 8)

-- `kfork` once a slot is found, with what gives the slot up: -1 is `none`
unfoldable pub fork_into : Config → (ℕ → K (Option ℕ)) → ℕ → ℕ → K (Option ℕ)
fork_into c give_up me np = do
  p ← get_proc me
  child ← get_proc np
  copied ← mem (uvmcopy c.kernel_end p.pagetable child.pagetable p.sz)
  if not copied then give_up np else do
    set_proc np λ q. record q { sz = p.sz }
    mem (copy_words 36 child.trapframe p.trapframe)
    mem (store (child.trapframe + 112) 0)
    set_proc np λ q. record q {
      ofile = λ fd.
          if ltb fd c.nofile
          then (if p.ofile fd == 0 then q.ofile fd else c.filedup (p.ofile fd))
          else q.ofile fd;
      cwd = c.idup p.cwd;
      name = take 15 p.name;
    }
    set_proc np λ q. record q { parent = some me }
    set_proc np λ q. record q { state = runnable }
    pure (some child.pid)

unfoldable pub kfork : Config → ℕ → K (Option ℕ)
kfork c me = do
  slot ← allocproc c
  elim slot [ none ↦ pure none | some np ↦ fork_into c (abandon c) me np ]

-- The body of the loop of `reparent`.
unfoldable pub reparent_slot : Config → ℕ → ℕ → K (Unit {0})
reparent_slot c me i = do
  pp ← get_proc i
  init ← get_initproc
  if same_proc pp.parent (some me)
      then (do set_proc i λ p. record p { parent = init }; wakeup c (chan_of init))
      else pure tt

unfoldable pub reparent : Config → ℕ → K (Unit {0})
reparent c me = for_procs c.nproc 0 (reparent_slot c me)

-- `kexit` up to `sched`, from which it does not come back.
unfoldable pub kexit : Config → ℕ → ℕ → K (Unit {0})
kexit c me status = do
  init ← get_initproc
  if same_proc (some me) init then fail init_exiting else do
    set_proc me λ p. record p { ofile = λ fd. if ltb fd c.nofile then 0 else p.ofile fd; cwd = 0 }
    reparent c me
    p ← get_proc me
    wakeup c (chan_of p.parent)
    set_proc me λ p. record p { xstate = status; state = zombie }
    sched me

-- How a turn of `kwait` ends: the pid of a child, -1, or about to sleep.
pub data Waited : Type 0 where
  reaped : ℕ → Waited
  failed : Waited
  waits : Waited

-- The bytes of an `int`, the lowest first.
abbrev pub int_bytes : ℕ → List ℕ
int_bytes n = n % 256 ∷ (n / 256 % 256) ∷ (n / 65536 % 256) ∷ (n / 16777216 % 256) ∷ []

-- `kwait` at a child that has exited; `free_slot` is `freeproc`.
unfoldable pub reap : Config → (ℕ → K (Unit {0})) → ℕ → ℕ → ℕ → K Waited
reap c free_slot me addr i = do
  pp ← get_proc i
  p ← get_proc me
  copied ←
      if addr == 0
      then pure true
      else mem (copyout c.kernel_end p.pagetable p.sz addr (int_bytes pp.xstate))
  if not copied
      then pure failed
      else do set_proc i λ q. record q { parent = none }; free_slot i; pure (reaped pp.pid)

-- The scan of `kwait` over `n` slots from `i`.
unfoldable pub scan_children : Config → (ℕ → K (Unit {0})) → ℕ → ℕ → ℕ → ℕ → Bool → K Waited
scan_children c free_slot me addr zero i havekids = do
  dead ← killed me
  if not havekids || dead then pure failed else do sleep_prepare me (some (at_proc me)); pure waits
scan_children c free_slot me addr (suc n) i havekids = do
  pp ← get_proc i
  if same_proc pp.parent (some me)
      then (if is_zombie pp.state
          then reap c free_slot me addr i
          else scan_children c free_slot me addr n (i + 1) true)
      else scan_children c free_slot me addr n (i + 1) havekids

-- A turn of the outer loop of `kwait`, from taking `wait_lock` to letting go of it. After `waits`
-- the source calls `sleep` and takes another turn.
unfoldable pub kwait_turn : Config → ℕ → ℕ → K Waited
kwait_turn c me addr = scan_children c (freeproc c) me addr c.nproc 0 false

-- `src` holds the `len` bytes; a kernel address is written without a check.
unfoldable pub either_copyout : Config → ℕ → Bool → ℕ → List ℕ → K Bool
either_copyout c me user_dst dst src = do
  p ← get_proc me
  if user_dst
      then mem (copyout c.kernel_end p.pagetable p.sz dst src)
      else do mem (copy_to dst src); pure true

unfoldable pub either_copyin : Config → ℕ → Bool → ℕ → ℕ → K (Option (List ℕ))
either_copyin c me user_src src len = do
  p ← get_proc me
  if user_src
      then mem (copyin c.kernel_end p.pagetable p.sz src len)
      else do bytes ← mem (copy_from len src); pure (some bytes)
