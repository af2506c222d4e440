-- ===== src/Proc/Kill.antt =====
-- What `kkill` does, and what it did before its test for pid 0.
use oscraft.Common.{
  ℕ, zero, suc, ◌+◌, ◌≤◌, ◌<◌, ◌≡◌, ◌≢◌, refl, Bool, true, false, Option, none, some, arith, ap,
  ◌==◌, ==_iff, ==_ne, ==_refl, ltb, if◌then◌else◌, ◌∙◌, Bool-cases, inl, inr,
}
use oscraft.Monad.{
  Outcome, ok, panic, out_of_fuel, pure, and_then, Returns, Returns-mono, Ensures, Ensures-bind,
}
use oscraft.Machine.{Machine, M, memset_page}
use oscraft.Kalloc.{kalloc}
use oscraft.Kernel.{
  Kernel, Config, Proc, ProcState, unused, used, sleeping, runnable, running, zombie, is_sleeping,
  is_unused, put, mem, on_memory,
}
use oscraft.Proc.Sleep.{kill_from, kkill, kkill_unchecked}
use oscraft.Proc.Alloc.{
  found, allocproc, find_unused, allocpid, abandon, freeproc, store_int, proc_pagetable,
}
use oscraft.Proc.Wakeup.{with_procs}

-- No process of the `n` from `i` has the pid.
abbrev pub NoPid : ℕ → ℕ → ℕ → (ℕ → Proc) → Type 0
NoPid n i pid t = (j : ℕ) → i ≤ j → j < i + n → (t j).pid ≢ pid

-- The slot `j` is the first of the `n` from `i` that has the pid.
pub record IsFirst (n i pid : ℕ) (t : ℕ → Proc) (j : ℕ) : Type 0 where
  pub after : i ≤ j
  pub before : j < i + n
  pub matches : (t j).pid ≡ pid
  pub earlier : (l : ℕ) → i ≤ l → l < j → (t l).pid ≢ pid

-- The process marked as killed, and runnable if it was asleep.
abbrev pub marked : Proc → Proc
marked p = record p { killed = true; state = if is_sleeping p.state then runnable else p.state }

-- How a search for the pid among `n` processes from `i` ends.
pub data Killed (n i pid : ℕ) (k : Kernel) : Bool → Kernel → Type 0 where
  absent : NoPid n i pid k.procs → Killed n i pid k false k
  victim :
      (j : ℕ)
      → IsFirst n i pid k.procs j
      → Killed n i pid k true (with_procs k (put k.procs j (marked (k.procs j))))

kill_from_lem : (n i pid : ℕ) (k : Kernel) → Returns (Killed n i pid k) (kill_from n i pid k)
unfolding kill_from
kill_from_lem zero i pid k = absent (λ j lo hi. absurd (omega arith))
kill_from_lem (suc n) i pid k = elim (Bool-cases ((k.procs i).pid == pid)) [
  | inl e ↦ rw e (
      victim i (record {
        after = omega arith;
        before = omega arith;
        matches = (==_iff _ _).0 e;
        earlier = λ l lo hi. absurd (omega arith);
      }))
  | inr e ↦
      let ne : (k.procs i).pid ≢ pid = ground arith in
      rw e (Returns-mono (kill_from n (i + 1) pid k) (kill_from_lem n (i + 1) pid k) (back ne))
]
  where
    later :
        (k.procs i).pid ≢ pid
        → (j : ℕ) → i ≤ j
        → ((i + 1 ≤ j) → (k.procs j).pid ≢ pid)
        → (k.procs j).pid ≢ pid
    later ne j lo up = elim (Bool-cases (i == j)) [
      | inl z ↦ rw (← (==_iff i j).0 z) ne
      | inr z ↦ up (ground arith)
    ]

    back :
        (k.procs i).pid ≢ pid
        → (b : Bool) (k' : Kernel) → Killed n (i + 1) pid k b k'
        → Killed (suc n) i pid k b k'
    back ne b k' (absent h) = absent (λ j lo hi. later ne j lo (λ up. h j up (omega arith)))
    back ne b k' (victim j h) = victim j (record {
      after = omega arith;
      before = omega arith;
      matches = h.matches;
      earlier = λ l lo hi. later ne l lo (λ up. h.earlier l up hi);
    })

-- For a pid other than 0, `kkill` returns -1 and changes nothing if no process of the table has the
-- pid; else it returns 0, marks the first that has it as killed, makes that one runnable if it was
-- asleep, and changes nothing else.
pub kkill_lem :
    (c : Config) (pid : ℕ) (k : Kernel) → pid ≢ 0 → Returns (Killed c.nproc 0 pid k) (kkill c pid k)
unfolding kkill
kkill_lem c pid k ne = rw (==_ne pid 0 ne) (kill_from_lem c.nproc 0 pid k)

-- `kkill` of pid 0 returns -1 and changes nothing.
pub kkill-zero : (c : Config) (k : Kernel) → kkill c 0 k ≡ ok false k
unfolding kkill
kkill-zero c k = refl

-- A step on memory leaves the process table alone.
mem_frame : {A : Type 0} (f : M A) (k : Kernel) → Ensures (λ _ k'. k'.procs ≡ k.procs) (mem f k)
mem_frame f k = framed (f k.mem)
  where
    framed :
        {A : Type 0} (r : Outcome Machine A) → Ensures (λ _ k'. k'.procs ≡ k.procs) (on_memory k r)
    framed (ok a m) = refl
    framed (panic p) = tt
    framed out_of_fuel = tt

-- If a slot was given, its `killed` flag is the one that it has in `t`.
abbrev pub KeepsKilled : (ℕ → Proc) → Option ℕ → Kernel → Type 0
KeepsKilled t none k = Unit
KeepsKilled t (some i) k = (k.procs i).killed ≡ (t i).killed

abandon_none :
    (c : Config) (i : ℕ) (t : ℕ → Proc) (k : Kernel) → Ensures (KeepsKilled t) (abandon c i k)
unfolding abandon
abandon_none c i t k = ended (freeproc c i k)
  where
    ended : (r : Outcome Kernel (Unit {0})) → Ensures (KeepsKilled t) (and_then r (λ _. pure none))
    ended (ok a k') = tt
    ended (panic p) = tt
    ended out_of_fuel = tt

put_self : (t : ℕ → Proc) (i : ℕ) (p : Proc) (b : Bool) → p.killed ≡ b → (put t i p i).killed ≡ b
put_self t i p b h = rw (==_refl i) h

through : {t u : ℕ → Proc} (i : ℕ) (b : Bool) → u ≡ t → (t i).killed ≡ b → (u i).killed ≡ b
through i b e h = rw e h

-- An allocation that succeeds leaves the `killed` flag of its slot as it was.
found-killed :
    (c : Config) (i : ℕ) (t : ℕ → Proc) (k : Kernel)
    → (k.procs i).killed ≡ (t i).killed
    → Ensures (KeepsKilled t) (found c i k)
unfolding found allocpid
found-killed c i t k h =
    let b = (t i).killed in
    Ensures-bind _ (mem kalloc _) _ (mem_frame kalloc _) λ frame k1 e1.
      let h1 = through i b e1 (put_self k.procs i _ b h) in
      elim (Bool-cases (frame == 0)) [
        | inl z ↦ rw z (abandon_none c i t _)
        | inr z ↦ rw z (
            Ensures-bind _ (mem kalloc _) _ (mem_frame kalloc _) λ shared k2 e2.
              let h2 = through i b e2 (put_self k1.procs i _ b h1) in
              elim (Bool-cases (shared == 0)) [
                | inl y ↦ rw y (abandon_none c i t _)
                | inr y ↦ rw y (
                    Ensures-bind _ (mem (memset_page shared 0) _) _
                      (mem_frame (memset_page shared 0) _)
                      λ _ k3 e3.
                        Ensures-bind _ (mem (store_int shared k.nextpid) _) _
                          (mem_frame (store_int shared k.nextpid) _)
                          λ _ k4 e4.
                            Ensures-bind _ (mem (proc_pagetable c (k4.procs i)) _) _
                              (mem_frame (proc_pagetable c (k4.procs i)) _)
                              λ table k5 e5.
                                let h5 = through i b e5 (
                                  through i b e4 (
                                    through i b e3 (
                                      put_self k2.procs i
                                        (record (k2.procs i) { usyscall = shared }) b h2))) in
                                let h6 =
                                  put_self k5.procs i (record (k5.procs i) { pagetable = table }) b
                                    h5 in
                                elim (Bool-cases (table == 0)) [
                                  | inl x ↦ rw x (abandon_none c i t _)
                                  | inr x ↦ rw x (
                                      put_self
                                        (put k5.procs i (record (k5.procs i) { pagetable = table }))
                                        i _ b h6)
                                ])
              ])
      ]

-- If `allocproc` gives a slot, the slot's `killed` flag is the one it had while it was free.
allocproc-killed : (c : Config) (k : Kernel) → Ensures (KeepsKilled k.procs) (allocproc c k)
unfolding allocproc
allocproc-killed c k = chosen (find_unused c.nproc 0 k.procs)
  where
    chosen :
        (slot : Option ℕ)
        → Ensures (KeepsKilled k.procs) (elim slot [ none ↦ ok none k | some i ↦ found c i k ])
    chosen none = tt
    chosen (some i) = found-killed c i k.procs k refl

kill_from-IsFirst :
    (n i pid : ℕ) (k : Kernel) (j : ℕ)
    → IsFirst n i pid k.procs j
    → kill_from n i pid k ≡ ok true (with_procs k (put k.procs j (marked (k.procs j))))
unfolding kill_from
kill_from-IsFirst zero i pid k j h = absurd (let lo = h.after in let hi = h.before in omega arith)
kill_from-IsFirst (suc n) i pid k j h = elim (Bool-cases ((k.procs i).pid == pid)) [
  | inl e ↦
      let same : i ≡ j = elim (Bool-cases (ltb i j)) [
        | inl z ↦ absurd (h.earlier i (omega arith) (ground arith) ((==_iff _ _).0 e))
        | inr z ↦ let lo = h.after in ground arith
      ] in
      rw e (ap (λ l. ok true (with_procs k (put k.procs l (marked (k.procs l))))) same)
  | inr e ↦
      let other : i ≢ j =
        λ z. let m = h.matches in let m' = ap (λ l. (k.procs l).pid) z in absurd (ground arith) in
      let lo = h.after in
      let hi = h.before in
      rw e (
        kill_from-IsFirst n (i + 1) pid k j (record {
          after = omega arith;
          before = omega arith;
          matches = h.matches;
          earlier = λ l lo' hi'. h.earlier l (omega arith) hi';
        }))
]

-- Where every process of the table that is not a free slot has a pid other than 0, and `i` is the first
-- slot of the table with pid 0: without the test for pid 0, a kill of pid 0 returns 0 and sets the killed
-- flag of `i`, which is a free slot and stays one, and changes nothing else.
pub kkill_unchecked-zero :
    (c : Config) (k : Kernel) (i : ℕ)
    → ((j : ℕ) → j < c.nproc → is_unused (k.procs j).state ≡ false → (k.procs j).pid ≢ 0)
    → IsFirst c.nproc 0 0 k.procs i
    → (is_unused (k.procs i).state ≡ true)
      × (kkill_unchecked c 0 k
          ≡ ok true (with_procs k (put k.procs i (record (k.procs i) { killed = true }))))
unfolding kkill_unchecked
kkill_unchecked-zero c k i named h =
    let free : is_unused (k.procs i).state ≡ true =
      elim (Bool-cases (is_unused (k.procs i).state)) [
        | inl e ↦ e
        | inr e ↦ absurd (named i (let hi = h.before in omega arith) e h.matches)
      ] in
    let same : (if is_sleeping (k.procs i).state then runnable else (k.procs i).state)
        ≡ (k.procs i).state =
      awake (k.procs i).state free in
    (
      free,
      kill_from-IsFirst c.nproc 0 0 k i h
          ∙ ap
              (λ s.
                ok true
                  (with_procs k (put k.procs i (record (k.procs i) { killed = true; state = s }))))
              same,
    )
  where
    awake : (s : ProcState) → is_unused s ≡ true → (if is_sleeping s then runnable else s) ≡ s
    awake unused e = refl
    awake used e = refl
    awake sleeping e = absurd (ground arith)
    awake runnable e = refl
    awake running e = refl
    awake zombie e = refl
