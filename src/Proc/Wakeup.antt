-- ===== src/Proc/Wakeup.antt =====
-- What `wakeup` and `kkill` do to the process table.
use mathlib.Core.Bool.{false≢true}
use oscraft.Common.{
  ℕ, zero, suc, ◌+◌, ◌<◌, ◌≡◌, refl, sym, ◌∙◌, true, false, ◌&&◌, Option, some, arith, ap, fun_ext,
  leb, ltb, ◌==◌, ==_iff, if◌then◌else◌, Bool-cases, inl, inr,
}
use oscraft.Monad.{ok, Returns}
use oscraft.Kernel.{
  Kernel, Config, Proc, ProcState, Channel, sleeping, runnable, same_chan, is_sleeping, put,
  set_proc, for_procs,
}
use oscraft.Proc.Sleep.{wake, wakeup}

-- `t` with `f` applied to the `n` processes from `i`
abbrev pub mapped : (Proc → Proc) → ℕ → ℕ → (ℕ → Proc) → ℕ → Proc
mapped f n i t j = if leb i j && ltb j (i + n) then f (t j) else t j

abbrev pub with_procs : Kernel → (ℕ → Proc) → Kernel
with_procs k t = record k { procs = t }

mapped_none : (f : Proc → Proc) (i : ℕ) (t : ℕ → Proc) (j : ℕ) → t j ≡ mapped f 0 i t j
mapped_none f i t j = let out : (leb i j && ltb j (i + 0)) ≡ false = ground arith in rw out

mapped_step :
    (f : Proc → Proc) (n i : ℕ) (t : ℕ → Proc) (j : ℕ)
    → mapped f n (i + 1) (put t i (f (t i))) j ≡ mapped f (suc n) i t j
mapped_step f n i t j = elim (Bool-cases (i == j)) [
  | inl e ↦
      let same = (==_iff i j).0 e in
      let out : (leb (i + 1) j && ltb j (i + 1 + n)) ≡ false = ground arith in
      let inside : (leb i j && ltb j (i + suc n)) ≡ true = ground arith in
      rw (out, inside, e) (ap (λ x. f (t x)) same)
  | inr e ↦
      let same : (leb (i + 1) j && ltb j (i + 1 + n)) ≡ (leb i j && ltb j (i + suc n)) =
        ground arith in
      rw (same, e)
]

-- A loop over the table that changes each process by itself changes them all.
for_procs-mapped :
    (n i : ℕ) (f : Proc → Proc) (k : Kernel)
    → for_procs n i (λ j. set_proc j f) k ≡ ok tt (with_procs k (mapped f n i k.procs))
unfolding for_procs
for_procs-mapped zero i f k =
    ap (λ t. ok tt (with_procs k t)) (fun_ext λ j. mapped_none f i k.procs j)
for_procs-mapped (suc n) i f k =
    for_procs-mapped n (i + 1) f (with_procs k (put k.procs i (f (k.procs i))))
    ∙ ap (λ t. ok tt (with_procs k t)) (fun_ext λ j. mapped_step f n i k.procs j)

-- `wakeup` clears the channel of every process that waits on it, makes those that are asleep
-- runnable, and leaves every other process and the rest of the kernel as they are.
pub wakeup_lem :
    (c : Config) (chan : Option Channel) (k : Kernel)
    → wakeup c chan k ≡ ok tt (with_procs k (mapped (wake chan) c.nproc 0 k.procs))
unfolding wakeup
wakeup_lem c chan k = for_procs-mapped c.nproc 0 (wake chan) k

rouse : (s : ProcState) → is_sleeping (if is_sleeping s then runnable else s) ≡ false
rouse ProcState.unused = refl
rouse ProcState.used = refl
rouse sleeping = refl
rouse runnable = refl
rouse ProcState.running = refl
rouse ProcState.zombie = refl

-- After `wakeup` of a channel that is not null no process of the table waits
-- on it any more, none of those that did is asleep, and a process that waits elsewhere is unchanged.
pub wakeup_clears :
    (c : Config) (chan : Channel) (k : Kernel)
    → Returns
        (λ _ k'.
          (j : ℕ)
          → j < c.nproc
          → (same_chan (k'.procs j).chan (some chan) ≡ false)
            × (same_chan (k.procs j).chan (some chan) ≡ true
                → is_sleeping (k'.procs j).state ≡ false)
            × (same_chan (k.procs j).chan (some chan) ≡ false → k'.procs j ≡ k.procs j))
        (wakeup c (some chan) k)
wakeup_clears c chan k = rw (wakeup_lem c (some chan) k) (λ j h.
    let inside : (leb 0 j && ltb j (0 + c.nproc)) ≡ true = ground arith in
    rw inside (woken (k.procs j)))
  where
    woken :
        (p : Proc)
        → (same_chan (wake (some chan) p).chan (some chan) ≡ false)
          × (same_chan p.chan (some chan) ≡ true → is_sleeping (wake (some chan) p).state ≡ false)
          × (same_chan p.chan (some chan) ≡ false → wake (some chan) p ≡ p)
    woken p = elim (Bool-cases (same_chan p.chan (some chan))) [
      | inl e ↦ rw e (refl, λ z. rouse p.state, λ z. absurd (false≢true (sym z)))
      | inr e ↦ rw e (e, λ z. absurd (false≢true z), λ z. refl)
    ]
