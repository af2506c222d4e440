-- ===== src/Proc/Exit.antt =====
-- How a process of Proyecto3/kernel/proc.c ends: `kexit` up to its last `sched`.
use oscraft.Common.{
  ℕ, ◌+◌, ◌<◌, ◌≡◌, refl, sym, ◌∙◌, true, false, ◌&&◌, some, arith, ap, leb, ltb, ◌==◌, ==_iff,
  ==_refl, ==_ne, ◌≢◌, if◌then◌else◌, Bool-cases, inl, inr,
}
use oscraft.Monad.{Outcome, ok, panic, out_of_fuel, Returns, Returns-bind}
use oscraft.Kernel.{
  Kernel, Config, Proc, Channel, at_proc, zombie, sleeping, runnable, same_proc, same_chan, put,
}
use oscraft.Proc.Sleep.{wake, sched}
use oscraft.Proc.Wakeup.{wakeup_lem, mapped}
use oscraft.Proc.Rouse.{IsWaiting, wake_runnable, put-IsWaiting, reparent-IsWaiting}
use oscraft.Proc.Life.{reparent, kexit, chan_of}
use oscraft.Proc.Reparent.{given, mapped_parent, reparent_lem}

wake_clears : (chan : Channel) (p : Proc) → same_chan (wake (some chan) p).chan (some chan) ≡ false
wake_clears chan p = elim (Bool-cases (same_chan p.chan (some chan))) [
  | inl e ↦ rw e
  | inr e ↦ rw (e, e)
]

mapped_clears :
    (chan : Channel) (n : ℕ) (t : ℕ → Proc) (j : ℕ)
    → j < n
    → same_chan (mapped (wake (some chan)) n 0 t j).chan (some chan) ≡ false
mapped_clears chan n t j lt =
    let inside : (leb 0 j && ltb j (0 + n)) ≡ true = ground arith in
    rw inside (wake_clears chan (t j))

put_same :
    {A : Type 0} (f : Proc → A) (t : ℕ → Proc) (i j : ℕ) (p : Proc)
    → f p ≡ f (t i)
    → f (put t i p j) ≡ f (t j)
put_same f t i j p e = elim (Bool-cases (i == j)) [
  | inl z ↦ rw (z, ← (==_iff i j).0 z) e
  | inr z ↦ rw z
]

-- the process table after the last assignments of `kexit` to `t`
abbrev exited : Config → ℕ → ℕ → (ℕ → Proc) → ℕ → Proc
exited c me status t =
    let u = mapped (wake (chan_of (t me).parent)) c.nproc 0 t in
    put u me (record (u me) { xstate = status; state = zombie })

exited_parent :
    (c : Config) (me status : ℕ) (t : ℕ → Proc) (j : ℕ)
    → (exited c me status t j).parent ≡ (t j).parent
exited_parent c me status t j =
    let u = mapped (wake (chan_of (t me).parent)) c.nproc 0 t in
    put_same (λ p. p.parent) u me j (record (u me) { xstate = status; state = zombie }) refl
    ∙ mapped_parent (chan_of (t me).parent) c.nproc t j

exited_chan :
    (c : Config) (me status : ℕ) (t : ℕ → Proc) (par j : ℕ)
    → (t me).parent ≡ some par
    → j < c.nproc
    → same_chan (exited c me status t j).chan (some (at_proc par)) ≡ false
exited_chan c me status t par j e lt =
    let u = mapped (wake (chan_of (t me).parent)) c.nproc 0 t in
    ap (λ x. same_chan x (some (at_proc par)))
      (put_same (λ p. p.chan) u me j (record (u me) { xstate = status; state = zombie }) refl)
    ∙ (rw e (mapped_clears (at_proc par) c.nproc t j lt))

exited_state :
    (c : Config) (me status : ℕ) (t : ℕ → Proc) (par j : ℕ)
    → (t me).parent ≡ some par
    → j < c.nproc
    → me ≢ j
    → IsWaiting (at_proc par) (t j)
    → (exited c me status t j).state ≡ runnable
exited_state c me status t par j e lt ne w =
    let inside : (leb 0 j && ltb j (0 + c.nproc)) ≡ true = ground arith in
    rw (==_ne me j ne, e, inside) (wake_runnable (at_proc par) (t j) w)

Returns-with :
    {S A : Type 0} (P : A → S → Type 0) (Q : (par j : ℕ) → S → Type 0) (W : (par j : ℕ) → Type 0)
    (r : Outcome S A)
    → Returns P r
    → ((par j : ℕ) → W par j → Returns (λ _ s. Q par j s) r)
    → Returns (λ a s. P a s × ((par j : ℕ) → W par j → Q par j s)) r
Returns-with P Q W (ok a s) h all = (h, all)
Returns-with P Q W (panic p) h all = h
Returns-with P Q W out_of_fuel h all = h

-- the slot `me` once its files are closed, and the kernel with it
abbrev gone : Config → ℕ → Kernel → Proc
gone c me k = record (k.procs me) {
  ofile = λ fd. if ltb fd c.nofile then 0 else (k.procs me).ofile fd;
  cwd = 0;
}

abbrev closed : Config → ℕ → Kernel → Kernel
closed c me k = record k { procs = put k.procs me (gone c me k) }

-- For a process that is not `initproc`, `kexit` comes to its last `sched` without a panic. The process
-- is then a zombie with its status, its children have `initproc` as their parent and every other
-- process of the table has the parent it had. If the process has a parent, each other process of the
-- table that slept on the parent's address is runnable, and no process of the table waits on it any more.
pub kexit_lem :
    (c : Config) (me status : ℕ) (k : Kernel)
    → same_proc (some me) k.initproc ≡ false
    → me < c.nproc
    → Returns
        (λ _ k'.
          ((k'.procs me).state ≡ zombie)
          × ((k'.procs me).xstate ≡ status)
          × ((j : ℕ) → j < c.nproc → (k'.procs j).parent ≡ given k.initproc me (k.procs j).parent)
          × ((par j : ℕ)
              → (k'.procs me).parent ≡ some par
              → j < c.nproc
              → same_chan (k'.procs j).chan (some (at_proc par)) ≡ false)
          × ((par j : ℕ)
              → (k'.procs me).parent ≡ some par
              → j < c.nproc
              → me ≢ j
              → (k.procs j).state ≡ sleeping
              → same_chan (k.procs j).chan (some (at_proc par)) ≡ true
              → (k'.procs j).state ≡ runnable))
        (kexit c me status k)
unfolding kexit sched
kexit_lem c me status k other lt = rw other (
    Returns-bind _ (reparent c me (closed c me k)) _
      (Returns-with _ (λ par j s. IsWaiting (at_proc par) (s.procs j))
        (λ par j. IsWaiting (at_proc par) ((closed c me k).procs j)) (reparent c me (closed c me k))
        (reparent_lem c me (closed c me k))
        (λ par j w. reparent-IsWaiting (at_proc par) c me j (closed c me k) w))
      λ _ k2 (h, still).
        rw (wakeup_lem c (chan_of (k2.procs me).parent), ==_refl me)
          (
            rw (==_refl me) refl,
            rw (==_refl me) refl,
            λ j lt.
                (exited_parent c me status k2.procs j
                  ∙ h.1 j lt
                  ∙ ap (given k.initproc me) (opened j)),
            λ par j e lt.
                (exited_chan c me status k2.procs par j
                  (sym (exited_parent c me status k2.procs me) ∙ e) lt),
            λ par j e lt ne asleep on.
                exited_state c me status k2.procs par j
                  (sym (exited_parent c me status k2.procs me) ∙ e) lt ne
                  (still par j (
                    put-IsWaiting (at_proc par) k.procs me (gone c me k) j refl refl
                      (inl (asleep, on)))),
          ))
  where
    opened :
        (j : ℕ)
        → (put k.procs me
            (record (k.procs me) {
              ofile = λ fd. if ltb fd c.nofile then 0 else (k.procs me).ofile fd;
              cwd = 0;
            })
            j).parent
          ≡ (k.procs j).parent
    opened j =
        put_same (λ p. p.parent) k.procs me j
          (record (k.procs me) {
            ofile = λ fd. if ltb fd c.nofile then 0 else (k.procs me).ofile fd;
            cwd = 0;
          })
          refl
