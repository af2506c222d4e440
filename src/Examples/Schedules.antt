-- ===== src/Examples/Schedules.antt =====
-- The theorem on sequences of scheduling events, with two CPUs in use.
use oscraft.Common.{
  ℕ, ◌≡◌, sym, ◌∙◌, true, none, some, List, [], ◌∷◌, ◌==◌, ==_iff, if◌then◌else◌, Bool-cases, inl,
  inr,
}
use mathlib.Core.Bool.{false≢true}
use oscraft.Monad.{Returns}
use oscraft.Kernel.{Kernel, at_ticks, is_running}
use oscraft.Proc.Schedule.{
  Event, chooses, preempts, blocks, prepares, wakes, kills, exits, run, IsScheduled,
}
use oscraft.Proc.Schedule.Invariant.{run-IsScheduled}
use oscraft.Examples.Procs.{config, kernel}

-- CPU 0 runs the process 0.
abbrev busy : Kernel
busy = record kernel { cpu_proc = λ cpu. if cpu == 0 then some 0 else none }

abbrev events : List Event
events =
    prepares 0 at_ticks
    ∷ blocks 0
    ∷ wakes at_ticks
    ∷ chooses 1 0
    ∷ chooses 0 1
    ∷ preempts 1
    ∷ kills 2
    ∷ exits 0 7
    ∷ []

busy-IsScheduled : IsScheduled busy
busy-IsScheduled = record {
  runs = λ cpu i e. elim (Bool-cases (cpu == 0)) [
    | inl z ↦ let first : 0 ≡ i = some_injective 0 i (rw z at e) in rw (← first)
    | inr z ↦ absurd (none_some i (rw z at e))
  ];
  alone = λ a b i x y. only a i x ∙ sym (only b i y);
  placed = λ i e. (0, zeroth i e);
}
  where
    some_injective : (i j : ℕ) → some i ≡ some j → i ≡ j
    some_injective i j e = cc

    none_some : (i : ℕ) → none ≡ some i → ⊥
    none_some i e = cc

    only : (a i : ℕ) → busy.cpu_proc a ≡ some i → a ≡ 0
    only a i e = elim (Bool-cases (a == 0)) [
      | inl z ↦ (==_iff a 0).0 z
      | inr z ↦ absurd (none_some i (rw z at e))
    ]

    zeroth : (i : ℕ) → is_running (busy.procs i).state ≡ true → some 0 ≡ some i
    zeroth i e = elim (Bool-cases (i == 0)) [
      | inl z ↦ rw ((==_iff i 0).0 z)
      | inr z ↦ absurd (
          false≢true
            (elim (Bool-cases (i == 1)) [ inl w ↦ rw (z, w) at e | inr w ↦ rw (z, w) at e ]))
    ]

run-IsScheduled_example : Returns (λ _ k. IsScheduled k) (run config events busy)
run-IsScheduled_example = run-IsScheduled config events busy busy-IsScheduled
