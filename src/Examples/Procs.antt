-- ===== src/Examples/Procs.antt =====
-- The theorems on processes and calls at a table of four slots.
use oscraft.Common.{
  ℕ, ◌≤◌, ◌<◌, ◌≡◌, ◌≢◌, refl, true, false, Option, none, some, [], arith, if◌then◌else◌, ◌==◌,
  Bool-cases, inl, inr, sym,
}
use mathlib.Core.Bool.{false≢true}
use oscraft.Monad.{Returns, ok, ◌>>◌}
use oscraft.Kernel.{
  Kernel, Config, Proc, ProcState, Channel, unused, sleeping, runnable, running, at_ticks, at_proc,
  zombie, put, is_unused, is_sleeping, same_chan,
}
use oscraft.Proc.Life.{reparent, kexit}
use oscraft.Proc.Reparent.{given, reparent_lem}
use oscraft.Proc.Exit.{kexit_lem}
use oscraft.Proc.Handshake.{sleep-wakeup_before, sleep-wakeup_after}
use oscraft.Sysproc.Info.{get_runnable_count_lem}
use oscraft.Shell.Parser.{findpipe, poke}
use oscraft.Shell.Pipe.{findpipe-bar}
use oscraft.Proc.Sleep.{sleep_prepare, sleep, get_runnable_count, wakeup, kkill, kkill_unchecked}
use oscraft.Proc.Wakeup.{with_procs, wakeup_clears}
use oscraft.Proc.Kill.{Killed, IsFirst, kkill_lem, kkill_unchecked-zero}
use oscraft.Examples.Space.{kernel_end, machine}

abbrev pub config : Config
config = record {
  kernel_end = kernel_end;
  trampoline_pa = 2147483648;
  forkret = 2147483904;
  nproc = 4;
  nofile = 16;
  sbrk_eager = 1;
  filedup = λ f. f;
  idup = λ i. i;
  root_inode = 1;
}

abbrev process : ProcState → ℕ → Option Channel → Proc
process state pid chan = record {
  state = state;
  chan = chan;
  killed = false;
  xstate = 0;
  pid = pid;
  parent = none;
  kstack = 0;
  sz = 4096;
  pagetable = 0;
  trapframe = 0;
  usyscall = 0;
  traced_syscall = 0;
  context_ra = 0;
  context_sp = 0;
  ofile = λ _. 0;
  cwd = 0;
  name = [];
}

-- a running process, one that sleeps on `ticks`, and free slots
abbrev pub procs : ℕ → Proc
procs i =
    if i == 0
    then process running 1 none
    else if i == 1
    then process sleeping 2 (some at_ticks)
    else process unused 0 none

abbrev pub kernel : Kernel
kernel = record {
  mem = machine;
  procs = procs;
  nextpid = 3;
  initproc = some 0;
  cpu_proc = λ _. none;
  ticks = 7;
  messages = [];
}

wakeup_clears_example :
    Returns
      (λ _ k'.
        (j : ℕ)
        → j < 4
        → (same_chan (k'.procs j).chan (some at_ticks) ≡ false)
          × (same_chan (procs j).chan (some at_ticks) ≡ true
              → is_sleeping (k'.procs j).state ≡ false)
          × (same_chan (procs j).chan (some at_ticks) ≡ false → k'.procs j ≡ procs j))
      (wakeup config (some at_ticks) kernel)
wakeup_clears_example = wakeup_clears config at_ticks kernel

kkill_lem_example : Returns (Killed 4 0 2 kernel) (kkill config 2 kernel)
kkill_lem_example = kkill_lem config 2 kernel (λ e. absurd (omega (arith, e)))

free_slot-IsFirst : IsFirst 4 0 0 procs 2
free_slot-IsFirst = record {
  after = omega arith;
  before = omega arith;
  matches = refl;
  earlier = λ l lo hi. earlier l (omega arith);
}
  where
    earlier : (l : ℕ) → l < 2 → (procs l).pid ≢ 0
    earlier l h = ground arith

kkill_unchecked-zero_example :
    (is_unused (procs 2).state ≡ true)
    × (kkill_unchecked config 0 kernel
        ≡ ok true (with_procs kernel (put procs 2 (record (procs 2) { killed = true }))))
kkill_unchecked-zero_example =
    kkill_unchecked-zero config kernel 2 (λ j lt. named j) free_slot-IsFirst
  where
    named : (j : ℕ) → is_unused (procs j).state ≡ false → (procs j).pid ≢ 0
    named j busy = elim (Bool-cases (j == 0)) [
      | inl z ↦ rw z (λ e. absurd (omega (arith, e)))
      | inr z ↦ elim (Bool-cases (j == 1)) [
        | inl y ↦ rw (z, y) (λ e. absurd (omega (arith, e)))
        | inr y ↦ absurd (false≢true (sym (rw (z, y) at busy)))
      ]
    ]

sleep-wakeup_before_example :
    Returns
      (λ _ k'. ((k'.procs 0).state ≡ running) × ((k'.procs 0).chan ≡ none))
      ((sleep_prepare 0 (some at_ticks) >> (wakeup config (some at_ticks) >> sleep 0)) kernel)
sleep-wakeup_before_example = sleep-wakeup_before config 0 at_ticks kernel (omega arith) refl

sleep-wakeup_after_example :
    Returns
      (λ _ k'. ((k'.procs 0).state ≡ runnable) × ((k'.procs 0).chan ≡ none))
      ((sleep_prepare 0 (some at_ticks) >> (sleep 0 >> wakeup config (some at_ticks))) kernel)
sleep-wakeup_after_example = sleep-wakeup_after config 0 at_ticks kernel (omega arith) refl

get_runnable_count_lem_example : get_runnable_count config kernel ≡ ok 0 kernel
get_runnable_count_lem_example = get_runnable_count_lem config kernel

abbrev piped : ℕ → ℕ
piped a = if a == 2 then b'|' else if a == 5 then 0 else b'a'

findpipe-bar_example : findpipe 6 piped 0 ≡ some (some (poke piped 2 0, 3))
findpipe-bar_example = findpipe-bar 6 piped 0 2 (omega arith) (λ a lo hi. plain a hi) refl
  where
    plain : (a : ℕ) → a < 2 → (piped a ≢ 0) × (piped a ≢ b'|')
    plain a h = ground arith

-- `initproc` waits for its child 1, whose child is 2
abbrev family : Kernel
family = record kernel {
  procs = λ i.
      if i == 0
      then process sleeping 1 (some (at_proc 0))
      else if i == 1
      then record (process running 2 none) { parent = some 0 }
      else if i == 2
      then record (process runnable 3 none) { parent = some 1 }
      else process unused 0 none;
}

reparent_lem_example :
    Returns
      (λ _ k'.
        (k'.initproc ≡ some 0)
        × ((j : ℕ) → j < 4 → (k'.procs j).parent ≡ given (some 0) 1 (family.procs j).parent)
        × ((j : ℕ) → 4 ≤ j → (k'.procs j).parent ≡ (family.procs j).parent))
      (reparent config 1 family)
reparent_lem_example = reparent_lem config 1 family

kexit_lem_example :
    Returns
      (λ _ k'.
        ((k'.procs 1).state ≡ zombie)
        × ((k'.procs 1).xstate ≡ 7)
        × ((j : ℕ) → j < 4 → (k'.procs j).parent ≡ given (some 0) 1 (family.procs j).parent)
        × ((par j : ℕ)
            → (k'.procs 1).parent ≡ some par
            → j < 4
            → same_chan (k'.procs j).chan (some (at_proc par)) ≡ false)
        × ((par j : ℕ)
            → (k'.procs 1).parent ≡ some par
            → j < 4
            → 1 ≢ j
            → (family.procs j).state ≡ sleeping
            → same_chan (family.procs j).chan (some (at_proc par)) ≡ true
            → (k'.procs j).state ≡ runnable))
      (kexit config 1 7 family)
kexit_lem_example = kexit_lem config 1 7 family refl (omega arith)
