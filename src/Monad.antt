-- ===== src/Monad.antt =====
-- The monad of the kernel's functions: each takes the state it works on and returns a value and the
-- new state, or stops the machine.
-- The calls of `panic`, and the trap that the kernel takes on reading or writing through a null
-- pointer.
pub data Panic : Type 0 where
  kfree_address : Panic
  walk_address : Panic
  mappages_va : Panic
  mappages_size_alignment : Panic
  mappages_size : Panic
  mappages_remap : Panic
  uvmunmap_va : Panic
  uvmclear_va : Panic
  freewalk_leaf : Panic
  kvmmap_failed : Panic
  kalloc_failed : Panic
  null_pointer : Panic
  init_exiting : Panic
  sched_running : Panic
  sleep_prepare_zero : Panic
  argraw_index : Panic

-- `out_of_fuel` stands for a loop that has not ended within the rounds that it was given.
pub data Outcome (S A : Type 0) : Type 0 where
  ok : A → S → Outcome S A
  panic : Panic → Outcome S A
  out_of_fuel : Outcome S A

module _ {S A : Type 0} where
  abbrev pub pure : A → S → Outcome S A
  pure a s = ok a s

  abbrev pub fail : Panic → S → Outcome S A
  fail p s = panic p

module _ {S A B : Type 0} where
  abbrev pub and_then : Outcome S A → (A → S → Outcome S B) → Outcome S B
  and_then (ok a s) k = k a s
  and_then (panic p) k = panic p
  and_then out_of_fuel k = out_of_fuel

  infixl 5 ◌>>=◌ ◌>>◌
  abbrev pub ◌>>=◌ : (S → Outcome S A) → (A → S → Outcome S B) → S → Outcome S B
  ◌>>=◌ f k s = and_then (f s) k

  abbrev pub ◌>>◌ : (S → Outcome S A) → (S → Outcome S B) → S → Outcome S B
  ◌>>◌ f k s = and_then (f s) (λ _. k)

-- The run ends with a value and a state that satisfy `P`: it stops for no panic, and its loops end.
abbrev pub Returns : {S A : Type 0} → (A → S → Type 0) → Outcome S A → Type 0
Returns P (ok a s) = P a s
Returns P (panic p) = ⊥
Returns P out_of_fuel = ⊥

pub Returns-mono :
    {S A : Type 0} {P Q : A → S → Type 0} (r : Outcome S A)
    → Returns P r
    → ((a : A) (s : S) → P a s → Q a s)
    → Returns Q r
Returns-mono (ok a s) h weaken = weaken a s h
Returns-mono (panic p) h weaken = absurd h
Returns-mono out_of_fuel h weaken = absurd h

pub Returns-bind :
    {S A B : Type 0} {P : A → S → Type 0} (Q : B → S → Type 0) (r : Outcome S A)
    (k : A → S → Outcome S B)
    → Returns P r
    → ((a : A) (s : S) → P a s → Returns Q (k a s))
    → Returns Q (and_then r k)
Returns-bind Q (ok a s) k h next = next a s h
Returns-bind Q (panic p) k h next = absurd h
Returns-bind Q out_of_fuel k h next = absurd h

-- If the run ends with a value, that and the state satisfy `P`.
abbrev pub Ensures : {S A : Type 0} → (A → S → Type 0) → Outcome S A → Type 0
Ensures P (ok a s) = P a s
Ensures P (panic p) = Unit
Ensures P out_of_fuel = Unit

pub Ensures-bind :
    {S A B : Type 0} {P : A → S → Type 0} (Q : B → S → Type 0) (r : Outcome S A)
    (k : A → S → Outcome S B)
    → Ensures P r
    → ((a : A) (s : S) → P a s → Ensures Q (k a s))
    → Ensures Q (and_then r k)
Ensures-bind Q (ok a s) k h next = next a s h
Ensures-bind Q (panic p) k h next = tt
Ensures-bind Q out_of_fuel k h next = tt
