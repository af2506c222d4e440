-- ===== src/Proc/Sleep.antt =====
-- Proyecto3/kernel/proc.c: giving up the CPU, sleep and wakeup, and kill.
use oscraft.Common.{ℕ, zero, suc, ◌+◌, Bool, true, false, Option, none, some, ◌==◌, if◌then◌else◌}
use oscraft.Monad.{pure, fail, ok, ◌>>=◌, ◌>>◌, sched_running, sleep_prepare_zero}
use oscraft.Kernel.{
  K, Config, Proc, Channel, process, sleeping, runnable, running, is_unused, is_sleeping,
  is_runnable, is_running, same_chan, get_proc, set_proc, for_procs, print,
}

-- `sched` hands the CPU to the scheduler; a caller's step ends here. Its tests of the lock and of the
-- interrupt flag are met by every caller of proc.c.
unfoldable pub sched : ℕ → K (Unit {0})
sched me = do p ← get_proc me; if is_running p.state then fail sched_running else pure tt

unfoldable pub yield : ℕ → K (Unit {0})
yield me = do set_proc me λ p. record p { state = runnable }; sched me

-- A turn of `scheduler`'s inner loop up to `swtch`: whether the process was chosen.
unfoldable pub scheduler_enter : ℕ → ℕ → K Bool
scheduler_enter cpu i = do
  p ← get_proc i
  if is_runnable p.state
      then (do
        set_proc i λ p. record p { state = running }
        λ k. ok true (record k { cpu_proc = λ c. if c == cpu then some i else k.cpu_proc c }))
      else pure false

-- The turn after `swtch` has come back.
unfoldable pub scheduler_leave : ℕ → K (Unit {0})
scheduler_leave cpu k = ok tt (record k { cpu_proc = λ c. if c == cpu then none else k.cpu_proc c })

unfoldable pub sleep_prepare : ℕ → Option Channel → K (Unit {0})
sleep_prepare me none = fail sleep_prepare_zero
sleep_prepare me (some chan) = set_proc me λ p. record p { chan = some chan }

-- up to `sched`; without a channel it returns at once
unfoldable pub sleep : ℕ → K (Unit {0})
sleep me = do
  p ← get_proc me
  elim p.chan [
    | none ↦ pure tt
    | some chan ↦ do set_proc me λ p. record p { state = sleeping }; sched me
  ]

-- The body of the loop of `wakeup`.
abbrev pub wake : Option Channel → Proc → Proc
wake chan p =
    if same_chan p.chan chan
    then record p { chan = none; state = if is_sleeping p.state then runnable else p.state }
    else p

unfoldable pub wakeup : Config → Option Channel → K (Unit {0})
wakeup c chan = for_procs c.nproc 0 λ i. set_proc i (wake chan)

-- What `kkill` does to its victim.
abbrev pub kill : Proc → Proc
kill p = record p { killed = true; state = if is_sleeping p.state then runnable else p.state }

-- The loop of `kkill` over `n` slots from `i`: `true` for 0 and `false` for -1.
unfoldable pub kill_from : ℕ → ℕ → ℕ → K Bool
kill_from zero i pid = pure false
kill_from (suc n) i pid = do
  p ← get_proc i
  if p.pid == pid then (do set_proc i kill; pure true) else kill_from n (i + 1) pid

unfoldable pub kkill : Config → ℕ → K Bool
kkill c pid = if pid == 0 then pure false else kill_from c.nproc 0 pid

-- Proyecto2/kernel/proc.c has no test for pid 0.
unfoldable pub kkill_unchecked : Config → ℕ → K Bool
kkill_unchecked c pid = kill_from c.nproc 0 pid

unfoldable pub setkilled : ℕ → K (Unit {0})
setkilled i = set_proc i λ p. record p { killed = true }

unfoldable pub killed : ℕ → K Bool
killed i = do p ← get_proc i; pure p.killed

unfoldable pub procdump : Config → K (Unit {0})
procdump c = for_procs c.nproc 0 λ i. do
  p ← get_proc i
  if is_unused p.state then pure tt else print (process p.pid p.state p.name)

-- Proyecto2/kernel/proc.c: the loop of `get_runnable_count`.
unfoldable pub count_runnable : ℕ → ℕ → ℕ → (ℕ → Proc) → ℕ
count_runnable zero i count t = count
count_runnable (suc n) i count t =
    count_runnable n (i + 1) (if is_runnable (t i).state then count + 1 else count) t

unfoldable pub get_runnable_count : Config → K ℕ
get_runnable_count c k = ok (count_runnable c.nproc 0 0 k.procs) k
