-- ===== src/Proc/Schedule/Invariant.antt =====
-- Every event of Proc.Schedule, and every sequence of them.
use oscraft.Common.{
  leb, ltb, ◌&&◌, ℕ, zero, suc, ◌+◌, ◌≡◌, refl, sym, ◌∙◌, Bool, false, Option, none, some, List, [],
  ◌∷◌, ◌==◌, ==_iff, ==_ne, ==_refl, if◌then◌else◌, Bool-cases, inl, inr, arith,
}
use oscraft.Monad.{Returns, Returns-bind, Returns-mono, ok, pure, ◌>>◌}
use oscraft.Kernel.{
  Kernel, K, Config, Proc, ProcState, Channel, runnable, zombie, put, same_chan, is_running,
  is_sleeping, same_proc, for_procs,
}
use oscraft.Proc.Sleep.{sched, yield, scheduler_enter, sleep_prepare, sleep, wakeup, wake, kkill}
use oscraft.Proc.Life.{kexit, reparent, reparent_slot, chan_of}
use oscraft.Proc.Wakeup.{with_procs, wakeup_lem}
use oscraft.Proc.Kill.{Killed, absent, victim, kkill_lem, kkill-zero}
use oscraft.Proc.Schedule.{
  Event, chooses, preempts, blocks, prepares, wakes, kills, exits, with_current, when_idle, block,
  preempt, exit_from, happen, run, IsScheduled, Quiet, GivesUp,
}
use oscraft.Proc.Schedule.Switch.{leave_lem, choose_lem}

Quiet-trans : (k k' k'' : Kernel) → Quiet k k' → Quiet k' k'' → Quiet k k''
Quiet-trans k k' k'' x y = record {
  cpus = y.cpus ∙ x.cpus;
  init = y.init ∙ x.init;
  same = λ j. y.same j ∙ x.same j;
}

Quiet-refl : (k : Kernel) → Quiet k k
Quiet-refl k = record { cpus = refl; init = refl; same = λ j. refl }

Quiet-IsScheduled : (k k' : Kernel) → Quiet k k' → IsScheduled k → IsScheduled k'
Quiet-IsScheduled k k' q h = record {
  runs = λ cpu i e. q.same i ∙ h.runs cpu i (rw (← q.cpus) e);
  alone = λ a b i x y. h.alone a b i (rw (← q.cpus) x) (rw (← q.cpus) y);
  placed = λ i e. let at = h.placed i (sym (q.same i) ∙ e) in (at.0, rw q.cpus at.1);
}

put_running :
    (t : ℕ → Proc) (i : ℕ) (p : Proc)
    → is_running p.state ≡ is_running (t i).state
    → (j : ℕ) → is_running (put t i p j).state ≡ is_running (t j).state
put_running t i p e j = elim (Bool-cases (i == j)) [
  | inl z ↦ rw (z, ← (==_iff i j).0 z) e
  | inr z ↦ rw z
]

rouse : (s : ProcState) → is_running (if is_sleeping s then runnable else s) ≡ is_running s
rouse ProcState.unused = refl
rouse ProcState.used = refl
rouse ProcState.sleeping = refl
rouse ProcState.runnable = refl
rouse ProcState.running = refl
rouse ProcState.zombie = refl

wake_lem : (chan : Option Channel) (p : Proc) → is_running (wake chan p).state ≡ is_running p.state
wake_lem chan p = elim (Bool-cases (same_chan p.chan chan)) [
  | inl e ↦ rw e (rouse p.state)
  | inr e ↦ rw e
]

wakeup-Quiet :
    (c : Config) (chan : Option Channel) (k : Kernel)
    → Returns (λ _ k'. Quiet k k') (wakeup c chan k)
wakeup-Quiet c chan k = rw (wakeup_lem c chan k) (record {
  cpus = refl;
  init = refl;
  same = λ j. elim (Bool-cases (leb 0 j && ltb j (0 + c.nproc))) [
    | inl e ↦ rw e (wake_lem chan (k.procs j))
    | inr e ↦ rw e
  ];
})

for_procs-Quiet :
    (n i : ℕ) (body : ℕ → K (Unit {0})) (k : Kernel)
    → ((j : ℕ) (k' : Kernel) → Returns (λ _ k''. Quiet k' k'') (body j k'))
    → Returns (λ _ k'. Quiet k k') (for_procs n i body k)
unfolding for_procs
for_procs-Quiet zero i body k h = Quiet-refl k
for_procs-Quiet (suc n) i body k h = Returns-bind _ (body i k) _ (h i k) λ _ k' q.
    Returns-mono (for_procs n (i + 1) body k') (for_procs-Quiet n (i + 1) body k' h)
      λ _ k'' r. Quiet-trans k k' k'' q r

reparent-Quiet : (c : Config) (me : ℕ) (k : Kernel) → Returns (λ _ k'. Quiet k k') (reparent c me k)
unfolding reparent reparent_slot
reparent-Quiet c me k = for_procs-Quiet c.nproc 0 (reparent_slot c me) k (λ j k'.
    elim (Bool-cases (same_proc (k'.procs j).parent (some me))) [
      | inl e ↦ rw e (
          Returns-mono (wakeup c (chan_of k'.initproc) _) (wakeup-Quiet c (chan_of k'.initproc) _)
            λ _ k'' q. record {
              cpus = q.cpus;
              init = q.init;
              same = λ l. q.same l ∙ put_running k'.procs j _ refl l;
            })
      | inr e ↦ rw e (Quiet-refl k')
    ])

put-GivesUp :
    (i : ℕ) (p : Proc) (k k' : Kernel)
    → Quiet k k'
    → is_running p.state ≡ false
    → GivesUp i k (with_procs k' (put k'.procs i p))
put-GivesUp i p k k' q e = record {
  cpus = q.cpus;
  stopped = rw (==_refl i) e;
  others = λ j ne. rw (==_ne i j ne) (q.same j);
}

-- `kexit` of a process other than `initproc` returns to the scheduler, with that process stopped.
exit_lem :
    (c : Config) (i status : ℕ) (k : Kernel)
    → same_proc (some i) k.initproc ≡ false
    → Returns (λ _ k'. GivesUp i k k') (kexit c i status k)
unfolding kexit sched
exit_lem c i status k other = rw other (
    Returns-bind _ (reparent c i _) _ (reparent-Quiet c i _) λ _ k2 q.
      Returns-bind _ (wakeup c (chan_of (k2.procs i).parent) k2) _ (wakeup-Quiet c _ k2) λ _ k3 r.
        rw (==_refl i) (
          put-GivesUp i (record (k3.procs i) { xstate = status; state = zombie }) k k3
            (record {
              cpus = r.cpus ∙ q.cpus;
              init = r.init ∙ q.init;
              same = λ j. r.same j ∙ q.same j ∙ put_running k.procs i _ refl j;
            })
            refl))

kill-Quiet : (c : Config) (pid : ℕ) (k : Kernel) → Returns (λ _ k'. Quiet k k') (kkill c pid k)
kill-Quiet c pid k = elim (Bool-cases (pid == 0)) [
  | inl e ↦ rw ((==_iff pid 0).0 e, kkill-zero c k) (Quiet-refl k)
  | inr e ↦
      Returns-mono (kkill c pid k) (kkill_lem c pid k (λ z. absurd (ground arith)))
        λ b k' x. ended b k' x
]
  where
    ended : (b : Bool) (k' : Kernel) → Killed c.nproc 0 pid k b k' → Quiet k k'
    ended b k' (absent h) = Quiet-refl k
    ended b k' (victim j h) = record {
      cpus = refl;
      init = refl;
      same = put_running k.procs j _ (rouse (k.procs j).state);
    }

-- A property that holds with no process on the CPU and after `f` of the process there.
current_lem :
    (P : Kernel → Type 0) (cpu : ℕ) (f : ℕ → K (Unit {0})) (k : Kernel)
    → P k
    → ((i : ℕ) → k.cpu_proc cpu ≡ some i → Returns (λ _ k'. P k') (f i k))
    → Returns (λ _ k'. P k') (with_current cpu f k)
current_lem P cpu f k idle busy = go (k.cpu_proc cpu) refl
  where
    go :
        (o : Option ℕ)
        → k.cpu_proc cpu ≡ o
        → Returns (λ _ k'. P k') (elim o [ none ↦ ok tt k | some i ↦ f i k ])
    go none e = idle
    go (some i) e = busy i e

idle_lem :
    (P : Kernel → Type 0) (cpu : ℕ) (f : K (Unit {0})) (k : Kernel)
    → P k
    → (k.cpu_proc cpu ≡ none → Returns (λ _ k'. P k') (f k))
    → Returns (λ _ k'. P k') (when_idle cpu f k)
idle_lem P cpu f k busy idle = go (k.cpu_proc cpu) refl
  where
    go :
        (o : Option ℕ)
        → k.cpu_proc cpu ≡ o
        → Returns (λ _ k'. P k') (elim o [ none ↦ f k | some i ↦ ok tt k ])
    go none e = idle e
    go (some i) e = busy

block_lem :
    (cpu i : ℕ) (k : Kernel) (o : Option Channel)
    → IsScheduled k
    → k.cpu_proc cpu ≡ some i
    → (k.procs i).chan ≡ o
    → Returns (λ _ k'. IsScheduled k') (block cpu i o k)
unfolding block sleep sched
block_lem cpu i k none h at e = rw e h
block_lem cpu i k (some chan) h at e =
    rw (e, ==_refl i) (leave_lem cpu i k _ h at (put-GivesUp i _ k k (Quiet-refl k) refl))

-- An event keeps the schedule.
happen-IsScheduled :
    (c : Config) (e : Event) (k : Kernel)
    → IsScheduled k
    → Returns (λ _ k'. IsScheduled k') (happen c e k)
unfolding happen yield sched sleep_prepare
happen-IsScheduled c (chooses cpu i) k h =
    idle_lem IsScheduled cpu (scheduler_enter cpu i >> pure tt) k h λ idle.
      Returns-bind (λ _ k'. IsScheduled k') (scheduler_enter cpu i k) (λ _. pure tt)
        (choose_lem cpu i k h idle) λ _ k' x. x
happen-IsScheduled c (preempts cpu) k h =
    current_lem IsScheduled cpu (preempt cpu) k h
      λ i at. rw (==_refl i) (leave_lem cpu i k _ h at (put-GivesUp i _ k k (Quiet-refl k) refl))
happen-IsScheduled c (blocks cpu) k h =
    current_lem IsScheduled cpu (λ i k'. block cpu i (k'.procs i).chan k') k h
      λ i at. block_lem cpu i k (k.procs i).chan h at refl
happen-IsScheduled c (prepares cpu chan) k h =
    current_lem IsScheduled cpu (λ i. sleep_prepare i (some chan)) k h
      λ i at.
        Quiet-IsScheduled k _
          (record { cpus = refl; init = refl; same = put_running k.procs i _ refl }) h
happen-IsScheduled c (wakes chan) k h =
    Returns-mono (wakeup c (some chan) k) (wakeup-Quiet c (some chan) k)
      λ _ k' q. Quiet-IsScheduled k k' q h
happen-IsScheduled c (kills pid) k h =
    Returns-bind _ (kkill c pid k) _ (kill-Quiet c pid k) λ _ k' q. Quiet-IsScheduled k k' q h
happen-IsScheduled c (exits cpu status) k h =
    current_lem IsScheduled cpu (exit_from c cpu status) k h λ i at.
      elim (Bool-cases (same_proc (some i) k.initproc)) [
        | inl e ↦ rw e h
        | inr e ↦ rw e (
            Returns-bind _ (kexit c i status k) _ (exit_lem c i status k e)
              λ _ k' g. leave_lem cpu i k k' h at g)
      ]

-- From a kernel in which every process on a CPU is running, no two CPUs have one process, and every
-- running process is on a CPU: any sequence of scheduling events returns without a panic, and the kernel
-- after it is such a kernel. The events are that an idle CPU's scheduler takes up a process; that the
-- process on a CPU yields, prepares to sleep, sleeps, or exits unless it is initproc; a wakeup; a kill.
pub run-IsScheduled :
    (c : Config) (l : List Event) (k : Kernel)
    → IsScheduled k
    → Returns (λ _ k'. IsScheduled k') (run c l k)
unfolding run
run-IsScheduled c [] k h = h
run-IsScheduled c (e ∷ l) k h =
    Returns-bind _ (happen c e k) _ (happen-IsScheduled c e k h) λ _ k' x. run-IsScheduled c l k' x
