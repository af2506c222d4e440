-- ===== src/Proc/Schedule/Switch.antt =====
-- How a process gets a CPU from the scheduler of Proyecto3/kernel/proc.c and gives it back.
use mathlib.Core.Bool.{false≢true}
use oscraft.Common.{
  ◌⊎◌, ℕ, ◌≡◌, ◌≢◌, refl, sym, ◌∙◌, true, false, Option, none, some, ◌==◌, ==_iff, ==_ne, ==_refl,
  if◌then◌else◌, Bool-cases, inl, inr, arith,
}
use oscraft.Monad.{Returns}
use oscraft.Kernel.{Kernel, ProcState, running, is_running, is_runnable}
use oscraft.Proc.Sleep.{scheduler_enter, scheduler_leave}
use oscraft.Proc.Schedule.{IsScheduled, GivesUp}

-- What the other CPUs run when `cpu` has no process any more.
still :
    (cpu a i : ℕ) (t u : ℕ → Option ℕ)
    → u ≡ t
    → (if a == cpu then none else u a) ≡ some i
    → (a ≢ cpu) × (t a ≡ some i)
still cpu a i t u same e = elim (Bool-cases (a == cpu)) [
  | inl z ↦ absurd (let x : none ≡ some i = rw z at e in cc)
  | inr z ↦ (λ w. absurd (ground arith), rw (← same) (rw z at e))
]

some-injective : (i j : ℕ) → some i ≡ some j → i ≡ j
some-injective i j e = cc

pub leave_lem :
    (cpu i : ℕ) (k k' : Kernel)
    → IsScheduled k
    → k.cpu_proc cpu ≡ some i
    → GivesUp i k k'
    → Returns (λ _ k''. IsScheduled k'') (scheduler_leave cpu k')
unfolding scheduler_leave
leave_lem cpu i k k' h at g = record {
  runs = λ a j e.
      let x = still cpu a j k.cpu_proc k'.cpu_proc g.cpus e in
      g.others j (λ z. x.0 (h.alone a cpu i (rw z x.1) at)) ∙ h.runs a j x.1;
  alone = λ a b j x y.
      h.alone a b j (still cpu a j k.cpu_proc k'.cpu_proc g.cpus x).1
        (still cpu b j k.cpu_proc k'.cpu_proc g.cpus y).1;
  placed = λ j e. elim (Bool-cases (i == j)) [
    | inl z ↦ absurd (false≢true (sym g.stopped ∙ rw ((==_iff i j).0 z) e))
    | inr z ↦
        let ne : i ≢ j = ground arith in
        let there = h.placed j (sym (g.others j ne) ∙ e) in
        let apart : (there.0 == cpu) ≡ false =
          ==_ne there.0 cpu (λ w. ne (some-injective i j (sym at ∙ (rw (← w) there.1)))) in
        (there.0, rw (apart, g.cpus) there.1)
  ];
}

-- What a CPU runs after `cpu` has got the process `i`.
placed_at :
    (cpu i a j : ℕ) (t : ℕ → Option ℕ)
    → (if a == cpu then some i else t a) ≡ some j
    → ((a ≡ cpu) × (i ≡ j)) ⊎ ((a ≢ cpu) × (t a ≡ some j))
placed_at cpu i a j t e = elim (Bool-cases (a == cpu)) [
  | inl z ↦ inl ((==_iff a cpu).0 z, some-injective i j (rw z at e))
  | inr z ↦ inr (λ w. absurd (ground arith), rw z at e)
]

ready : (s : ProcState) → is_runnable s ≡ true → is_running s ≡ false
ready ProcState.unused e = refl
ready ProcState.used e = refl
ready ProcState.sleeping e = refl
ready ProcState.runnable e = refl
ready ProcState.running e = absurd (false≢true e)
ready ProcState.zombie e = refl

pub choose_lem :
    (cpu i : ℕ) (k : Kernel)
    → IsScheduled k
    → k.cpu_proc cpu ≡ none
    → Returns (λ _ k'. IsScheduled k') (scheduler_enter cpu i k)
unfolding scheduler_enter
choose_lem cpu i k h idle = elim (Bool-cases (is_runnable (k.procs i).state)) [
  | inl e ↦ rw e (record {
    runs = λ a j x. runs a j (placed_at cpu i a j k.cpu_proc x);
    alone = λ a b j x y.
        alone (ready _ e) a b j (placed_at cpu i a j k.cpu_proc x)
          (placed_at cpu i b j k.cpu_proc y);
    placed = λ j x. elim (Bool-cases (i == j)) [
      | inl z ↦ (cpu, rw (==_refl cpu, (==_iff i j).0 z))
      | inr z ↦
          let there = h.placed j (rw z at x) in
          let apart : (there.0 == cpu) ≡ false =
            ==_ne there.0 cpu (λ w. idle_ne j (rw (← w) there.1)) in
          (there.0, rw apart there.1)
    ];
  })
  | inr e ↦ rw e h
]
  where
    idle_ne : (j : ℕ) → k.cpu_proc cpu ≡ some j → ⊥
    idle_ne j e = cc

    runs :
        (a j : ℕ)
        → ((a ≡ cpu) × (i ≡ j)) ⊎ ((a ≢ cpu) × (k.cpu_proc a ≡ some j))
        → is_running (if i == j then record (k.procs i) { state = running } else k.procs j).state
          ≡ true
    runs a j (inl x) = rw (← x.1, ==_refl i)
    runs a j (inr x) = elim (Bool-cases (i == j)) [ inl z ↦ rw z | inr z ↦ rw z (h.runs a j x.1) ]

    alone :
        is_running (k.procs i).state ≡ false
        → (a b j : ℕ) → ((a ≡ cpu) × (i ≡ j)) ⊎ ((a ≢ cpu) × (k.cpu_proc a ≡ some j))
        → ((b ≡ cpu) × (i ≡ j)) ⊎ ((b ≢ cpu) × (k.cpu_proc b ≡ some j))
        → a ≡ b
    alone waiting a b j (inl x) (inl y) = x.0 ∙ sym y.0
    alone waiting a b j (inl x) (inr y) =
        absurd (false≢true (sym waiting ∙ rw x.1 (h.runs b j y.1)))
    alone waiting a b j (inr x) (inl y) =
        absurd (false≢true (sym waiting ∙ rw y.1 (h.runs a j x.1)))
    alone waiting a b j (inr x) (inr y) = h.alone a b j x.1 y.1
