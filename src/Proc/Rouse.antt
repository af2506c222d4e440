-- ===== src/Proc/Rouse.antt =====
-- A process that sleeps on a channel is runnable after `wakeup` of it, whatever other channels are woken up
-- and whatever parents change in Proyecto3/kernel/proc.c before.
use oscraft.Common.{
  ℕ, zero, suc, ◌+◌, ◌≡◌, refl, true, ◌&&◌, ◌⊎◌, Option, some, leb, ltb, ◌==◌, ==_iff, Bool-cases,
  inl, inr,
}
use oscraft.Monad.{Returns, Returns-bind}
use oscraft.Kernel.{
  Kernel, Config, Proc, Channel, sleeping, runnable, same_proc, same_chan, put, for_procs,
}
use oscraft.Proc.Sleep.{wake}
use oscraft.Proc.Wakeup.{wakeup_lem, mapped}
use oscraft.Proc.Life.{reparent, reparent_slot, chan_of}

-- The process sleeps on the channel, or is runnable.
abbrev pub IsWaiting : Channel → Proc → Type 0
IsWaiting chan p =
    ((p.state ≡ sleeping) × (same_chan p.chan (some chan) ≡ true)) ⊎ (p.state ≡ runnable)

module _ (chan : Channel) where
  wake-IsWaiting :
      (other : Option Channel) (p : Proc) → IsWaiting chan p → IsWaiting chan (wake other p)
  wake-IsWaiting other p h = elim (Bool-cases (same_chan p.chan other)) [
    | inr e ↦ rw e h
    | inl e ↦ rw e (elim h [ inl (s, w) ↦ rw s (inr refl) | inr s ↦ rw s (inr refl) ])
  ]

  -- after the wakeup of the channel itself it is runnable
  pub wake_runnable : (p : Proc) → IsWaiting chan p → (wake (some chan) p).state ≡ runnable
  wake_runnable p (inl (s, w)) = rw (w, s)
  wake_runnable p (inr s) = elim (Bool-cases (same_chan p.chan (some chan))) [
    | inl e ↦ rw (e, s)
    | inr e ↦ rw e s
  ]

  mapped-IsWaiting :
      (other : Option Channel) (n : ℕ) (t : ℕ → Proc) (j : ℕ)
      → IsWaiting chan (t j)
      → IsWaiting chan (mapped (wake other) n 0 t j)
  mapped-IsWaiting other n t j h = elim (Bool-cases (leb 0 j && ltb j (0 + n))) [
    | inl e ↦ rw e (wake-IsWaiting other (t j) h)
    | inr e ↦ rw e h
  ]

  -- A change to a slot that keeps its state and channel.
  pub put-IsWaiting :
      (t : ℕ → Proc) (i : ℕ) (p : Proc) (j : ℕ)
      → p.state ≡ (t i).state
      → p.chan ≡ (t i).chan
      → IsWaiting chan (t j)
      → IsWaiting chan (put t i p j)
  put-IsWaiting t i p j s c h = elim (Bool-cases (i == j)) [
    | inl e ↦ rw (e, s, c, (==_iff i j).0 e) h
    | inr e ↦ rw e h
  ]

  reparent_slot-IsWaiting :
      (c : Config) (me i j : ℕ) (k : Kernel)
      → IsWaiting chan (k.procs j)
      → Returns (λ _ k'. IsWaiting chan (k'.procs j)) (reparent_slot c me i k)
  unfolding reparent_slot
  reparent_slot-IsWaiting c me i j k h =
      elim (Bool-cases (same_proc (k.procs i).parent (some me))) [
        | inl e ↦
            rw (e, wakeup_lem c (chan_of k.initproc))
              (mapped-IsWaiting (chan_of k.initproc) c.nproc
                (put k.procs i (record (k.procs i) { parent = k.initproc })) j
                (put-IsWaiting k.procs i (record (k.procs i) { parent = k.initproc }) j refl refl
                  h))
        | inr e ↦ rw e h
      ]

  reparent_from-IsWaiting :
      (c : Config) (me n i j : ℕ) (k : Kernel)
      → IsWaiting chan (k.procs j)
      → Returns (λ _ k'. IsWaiting chan (k'.procs j)) (for_procs n i (reparent_slot c me) k)
  unfolding for_procs
  reparent_from-IsWaiting c me zero i j k h = h
  reparent_from-IsWaiting c me (suc n) i j k h =
      Returns-bind _ (reparent_slot c me i k) _ (reparent_slot-IsWaiting c me i j k h)
        λ _ k1 g. reparent_from-IsWaiting c me n (i + 1) j k1 g

  pub reparent-IsWaiting :
      (c : Config) (me j : ℕ) (k : Kernel)
      → IsWaiting chan (k.procs j)
      → Returns (λ _ k'. IsWaiting chan (k'.procs j)) (reparent c me k)
  unfolding reparent
  reparent-IsWaiting c me j k h = reparent_from-IsWaiting c me c.nproc 0 j k h
