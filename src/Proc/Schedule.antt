-- ===== src/Proc/Schedule.antt =====
-- Proyecto3/kernel/proc.c as a whole: any sequence of scheduling events on any number of CPUs. What a
-- process does from `acquire(&p->lock)` to the `release` after the switch is one event.
pub mod Switch
pub mod Invariant
use mathlib.Core.Bool.{false≢true}
use oscraft.Common.{
  leb, ltb, ◌&&◌, ◌⊎◌, ℕ, zero, suc, ◌+◌, ◌≡◌, ◌≢◌, refl, sym, ◌∙◌, ap, Bool, true, false, not,
  Option, none, some, List, [], ◌∷◌, ◌==◌, ==_iff, ==_ne, ==_refl, if◌then◌else◌, Bool-cases, inl,
  inr, arith,
}
use oscraft.Monad.{Returns, Returns-bind, Returns-mono, ok, pure, ◌>>=◌, ◌>>◌}
use oscraft.Kernel.{
  Kernel, K, Config, Proc, ProcState, Channel, running, runnable, zombie, put, same_chan,
  is_running, is_sleeping, is_runnable, same_proc, get_proc, for_procs,
}
use oscraft.Proc.Sleep.{
  sched, yield, scheduler_enter, scheduler_leave, sleep_prepare, sleep, wakeup, wake, kkill, kill,
}
use oscraft.Proc.Life.{kexit, reparent, reparent_slot, chan_of}
use oscraft.Proc.Wakeup.{mapped, with_procs, wakeup_lem}
use oscraft.Proc.Kill.{Killed, absent, victim, kkill_lem, kkill-zero}

pub data Event : Type 0 where
  chooses : (cpu i : ℕ) → Event
  preempts blocks : ℕ → Event
  prepares : ℕ → Channel → Event
  wakes : Channel → Event
  kills : ℕ → Event
  exits : (cpu status : ℕ) → Event

-- `f` of the process that `cpu` runs
abbrev pub with_current : ℕ → (ℕ → K (Unit {0})) → K (Unit {0})
with_current cpu f k = elim (k.cpu_proc cpu) [ none ↦ ok tt k | some i ↦ f i k ]

abbrev pub when_idle : ℕ → K (Unit {0}) → K (Unit {0})
when_idle cpu f k = elim (k.cpu_proc cpu) [ none ↦ f k | some i ↦ ok tt k ]

-- `sleep` on `cpu`: without a channel the process stays on the CPU.
unfoldable pub block : (cpu i : ℕ) → Option Channel → K (Unit {0})
block cpu i none = sleep i
block cpu i (some chan) = do sleep i; scheduler_leave cpu

abbrev pub preempt : (cpu i : ℕ) → K (Unit {0})
preempt cpu i = do yield i; scheduler_leave cpu

abbrev pub exit_from : Config → (cpu status i : ℕ) → K (Unit {0})
exit_from c cpu status i k =
    if same_proc (some i) k.initproc then ok tt k else (do kexit c i status; scheduler_leave cpu) k

-- The scheduler of a CPU runs while the CPU has no process, and a process on a CPU yields, prepares to
-- sleep, sleeps or exits; an event of any other CPU does nothing. `initproc` does not exit.
unfoldable pub happen : Config → Event → K (Unit {0})
unfolding block
happen c (chooses cpu i) = when_idle cpu (do scheduler_enter cpu i; pure tt)
happen c (preempts cpu) = with_current cpu (preempt cpu)
happen c (blocks cpu) = with_current cpu λ i. do p ← get_proc i; block cpu i p.chan
happen c (prepares cpu chan) = with_current cpu λ i. sleep_prepare i (some chan)
happen c (wakes chan) = wakeup c (some chan)
happen c (kills pid) = do kkill c pid; pure tt
happen c (exits cpu status) = with_current cpu (exit_from c cpu status)

unfoldable pub run : Config → List Event → K (Unit {0})
run c [] = pure tt
run c (e ∷ l) = do happen c e; run c l

-- A CPU's process is running, no two CPUs have the same, and every running process is on a CPU.
pub record IsScheduled (k : Kernel) : Type 0 where
  pub runs : (cpu i : ℕ) → k.cpu_proc cpu ≡ some i → is_running (k.procs i).state ≡ true
  pub alone : (a b i : ℕ) → k.cpu_proc a ≡ some i → k.cpu_proc b ≡ some i → a ≡ b
  pub placed : (i : ℕ) → is_running (k.procs i).state ≡ true → (cpu : ℕ) × (k.cpu_proc cpu ≡ some i)

-- No process starts or stops running.
pub record Quiet (k k' : Kernel) : Type 0 where
  pub cpus : k'.cpu_proc ≡ k.cpu_proc
  pub init : k'.initproc ≡ k.initproc
  pub same : (j : ℕ) → is_running (k'.procs j).state ≡ is_running (k.procs j).state

-- The process `i` alone stops running.
pub record GivesUp (i : ℕ) (k k' : Kernel) : Type 0 where
  pub cpus : k'.cpu_proc ≡ k.cpu_proc
  pub stopped : is_running (k'.procs i).state ≡ false
  pub others : (j : ℕ) → i ≢ j → is_running (k'.procs j).state ≡ is_running (k.procs j).state
