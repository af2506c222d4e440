-- ===== src/Proc/Reparent.antt =====
-- What `reparent` of Proyecto3/kernel/proc.c does to the tree of processes.
use oscraft.Common.{
  ℕ, zero, suc, ◌+◌, ◌≤◌, ◌<◌, ◌≡◌, refl, ◌∙◌, true, false, ◌&&◌, Option, some, arith, leb, ltb,
  ◌==◌, ==_iff, if◌then◌else◌, Bool-cases, inl, inr,
}
use oscraft.Monad.{Returns, Returns-mono, Returns-bind}
use oscraft.Kernel.{Kernel, Config, Proc, Channel, same_proc, same_chan, put, for_procs}
use oscraft.Proc.Sleep.{wake}
use oscraft.Proc.Wakeup.{wakeup_lem, mapped}
use oscraft.Proc.Life.{reparent, reparent_slot, chan_of}

-- the parent of a process after `me` has given its children to `init`
abbrev pub given : Option ℕ → ℕ → Option ℕ → Option ℕ
given init me parent = if same_proc parent (some me) then init else parent

wake_parent : (chan : Option Channel) (p : Proc) → (wake chan p).parent ≡ p.parent
wake_parent chan p = elim (Bool-cases (same_chan p.chan chan)) [ inl e ↦ rw e | inr e ↦ rw e ]

pub mapped_parent :
    (chan : Option Channel) (n : ℕ) (t : ℕ → Proc) (j : ℕ)
    → (mapped (wake chan) n 0 t j).parent ≡ (t j).parent
mapped_parent chan n t j = elim (Bool-cases (leb 0 j && ltb j (0 + n))) [
  | inl e ↦ rw e (wake_parent chan (t j))
  | inr e ↦ rw e
]

-- From `k` to `k'` the children of `me` among the `n` slots from `i` have been given away.
abbrev Given : ℕ → ℕ → ℕ → Kernel → Kernel → Type 0
Given n i me k k' =
    (k'.initproc ≡ k.initproc)
    × ((j : ℕ)
        → (k'.procs j).parent ≡ (
            if leb i j && ltb j (i + n)
            then given k.initproc me (k.procs j).parent
            else (k.procs j).parent))

one : (i j : ℕ) → (leb i j && ltb j (i + 1)) ≡ (i == j)
one i j = ground arith

reparent_slot_lem :
    (c : Config) (me i : ℕ) (k : Kernel)
    → Returns (λ _ k'. Given 1 i me k k') (reparent_slot c me i k)
unfolding reparent_slot
reparent_slot_lem c me i k = elim (Bool-cases (same_proc (k.procs i).parent (some me))) [
  | inl e ↦
      rw (e, wakeup_lem c (chan_of k.initproc))
        (
          refl,
          λ j.
              mapped_parent (chan_of k.initproc) c.nproc
                (put k.procs i (record (k.procs i) { parent = k.initproc })) j
              ∙ child e j,
        )
  | inr e ↦ rw e (refl, other e)
]
  where
    child :
        same_proc (k.procs i).parent (some me) ≡ true
        → (j : ℕ)
        → (put k.procs i (record (k.procs i) { parent = k.initproc }) j).parent ≡ (
            if leb i j && ltb j (i + 1)
            then given k.initproc me (k.procs j).parent
            else (k.procs j).parent)
    child e j = elim (Bool-cases (i == j)) [
      | inl z ↦ rw (one i j, z, ← (==_iff i j).0 z, e)
      | inr z ↦ rw (one i j, z)
    ]

    other :
        same_proc (k.procs i).parent (some me) ≡ false
        → (j : ℕ)
        → (k.procs j).parent ≡ (
            if leb i j && ltb j (i + 1)
            then given k.initproc me (k.procs j).parent
            else (k.procs j).parent)
    other e j = elim (Bool-cases (i == j)) [
      | inl z ↦ rw (one i j, z, ← (==_iff i j).0 z, e)
      | inr z ↦ rw (one i j, z)
    ]

Given-step :
    (n i me : ℕ) (k k1 k2 : Kernel)
    → Given 1 i me k k1
    → Given n (i + 1) me k1 k2
    → Given (suc n) i me k k2
Given-step n i me k k1 k2 h g = (g.0 ∙ h.0, λ j. g.1 j ∙ parent j (h.1 j))
  where
    parent :
        (j : ℕ)
        → (k1.procs j).parent ≡ (
            if leb i j && ltb j (i + 1)
            then given k.initproc me (k.procs j).parent
            else (k.procs j).parent)
        → (if leb (i + 1) j && ltb j (i + 1 + n)
            then given k1.initproc me (k1.procs j).parent
            else (k1.procs j).parent)
          ≡ (if leb i j && ltb j (i + suc n)
              then given k.initproc me (k.procs j).parent
              else (k.procs j).parent)
    parent j e = elim (Bool-cases (leb i j && ltb j (i + 1))) [
      | inl z ↦
          let inside : (leb i j && ltb j (i + suc n)) ≡ true = ground arith in
          let out : (leb (i + 1) j && ltb j (i + 1 + n)) ≡ false = ground arith in
          let first : (k1.procs j).parent ≡ given k.initproc me (k.procs j).parent = rw z at e in
          rw (inside, out) first
      | inr z ↦
          let same : (leb (i + 1) j && ltb j (i + 1 + n)) ≡ (leb i j && ltb j (i + suc n)) =
            ground arith in
          let first : (k1.procs j).parent ≡ (k.procs j).parent = rw z at e in rw (same, h.0, first)
    ]

reparent_from :
    (c : Config) (me n i : ℕ) (k : Kernel)
    → Returns (λ _ k'. Given n i me k k') (for_procs n i (reparent_slot c me) k)
unfolding for_procs
reparent_from c me zero i k =
    (refl, λ j. let out : (leb i j && ltb j (i + 0)) ≡ false = ground arith in rw out)
reparent_from c me (suc n) i k =
    Returns-bind _ (reparent_slot c me i k) _ (reparent_slot_lem c me i k) λ _ k1 h.
      Returns-mono (for_procs n (i + 1) (reparent_slot c me) k1) (reparent_from c me n (i + 1) k1)
        λ _ k2 g. Given-step n i me k k1 k2 h g

-- `reparent` returns. Afterwards `initproc` is the parent of each process of the table whose parent
-- was `me`, every other process has the parent it had, and `initproc` is the same.
pub reparent_lem :
    (c : Config) (me : ℕ) (k : Kernel)
    → Returns
        (λ _ k'.
          (k'.initproc ≡ k.initproc)
          × ((j : ℕ) → j < c.nproc → (k'.procs j).parent ≡ given k.initproc me (k.procs j).parent)
          × ((j : ℕ) → c.nproc ≤ j → (k'.procs j).parent ≡ (k.procs j).parent))
        (reparent c me k)
unfolding reparent
reparent_lem c me k =
    Returns-mono (for_procs c.nproc 0 (reparent_slot c me) k) (reparent_from c me c.nproc 0 k)
      λ _ k' h. (
        h.0,
        λ j lt.
            (h.1 j
              ∙ (let inside : (leb 0 j && ltb j (0 + c.nproc)) ≡ true = ground arith in rw inside)),
        λ j le.
            (h.1 j ∙ (let out : (leb 0 j && ltb j (0 + c.nproc)) ≡ false = ground arith in rw out)),
      )
