-- ===== src/Syscall/Dispatch.antt =====
-- The dispatch of a system call: `syscall` of Proyecto2/kernel/syscall.c, which reports a traced call,
-- and that of Proyecto3/kernel/syscall.c, which does not.
use oscraft.Common.{
  ℕ, ◌+◌, ◌%◌, ◌≤◌, ◌≡◌, ◌≢◌, true, false, ◌&&◌, List, ◌∷◌, arith, ltb, ◌==◌, ==_refl,
  if◌then◌else◌, Bool-cases, inl, inr,
}
use oscraft.Riscv.{u64}
use oscraft.Monad.{ok, ◌>>=◌, ◌>>◌}
use oscraft.Machine.{load, store, update}
use oscraft.Machine.Cells.{load-ok, store-ok}
use oscraft.Kernel.{Kernel, K, Message, traced, unknown_syscall, mem, get_proc, print}
use oscraft.Syscall.{syscall, report, name_of}

-- `syscalls[num]()` is the argument `handler`; the table has 24 entries from 1 on.
unfoldable pub syscall_untraced : (ℕ → K ℕ) → ℕ → K (Unit {0})
syscall_untraced handler me = do
  p ← get_proc me
  a7 ← mem (load (p.trapframe + 168))
  let num = a7 % 4294967296
  if ltb 0 num && ltb num 25
      then (do result ← handler num; mem (store (p.trapframe + 112) (u64 result)))
      else do
        print (unknown_syscall p.pid p.name num)
        mem (store (p.trapframe + 112) 18446744073709551615)

-- The kernel with `v` in the word at `p`.
abbrev pub with_word : ℕ → ℕ → Kernel → Kernel
with_word p v k = record k { mem = record k.mem { cell = update k.mem.cell p v } }

abbrev pub with_messages : List Message → Kernel → Kernel
with_messages l k = record k { messages = l }

-- What a traced call of number `num` with the result `r` prints, for the trapframe at `t`.
abbrev pub trace_report : ℕ → ℕ → ℕ → ℕ → Kernel → Message
trace_report me t num r k =
    traced (k.procs me).pid (name_of num) (r % 4294967296) (k.mem.cell (t + 96) % 4294967296)
      (k.mem.cell (t + 104) % 4294967296) (r % 4294967296) (k.mem.cell (t + 120) % 4294967296)

module _ (handler : ℕ → K ℕ) (me t num : ℕ) (k : Kernel) (at : (k.procs me).trapframe ≡ t)
    (there : t ≢ 0) (number : k.mem.cell (t + 168) % 4294967296 ≡ num) where
  report_lem :
      (r : ℕ) (k' : Kernel)
      → (k'.procs me).trapframe ≡ t
      → report me num (with_word (t + 112) (u64 r) k')
        ≡ ok tt (
            with_messages
              (trace_report me t num r k' ∷ k'.messages)
              (with_word (t + 112) (u64 r) k'))
  unfolding report
  report_lem r k' at' =
      let w = with_word (t + 112) (u64 r) k' in
      let a96 : (t + 112 == t + 96) ≡ false = ground arith in
      let a104 : (t + 112 == t + 104) ≡ false = ground arith in
      let a120 : (t + 112 == t + 120) ≡ false = ground arith in
      let cut : u64 r % 4294967296 ≡ r % 4294967296 = omega arith in
      rw (
        at',
        load-ok (t + 96) w.mem (λ z. absurd (omega arith)),
        load-ok (t + 104) w.mem (λ z. absurd (omega arith)),
        load-ok (t + 112) w.mem (λ z. absurd (omega arith)),
        load-ok (t + 120) w.mem (λ z. absurd (omega arith)),
        a96,
        a104,
        a120,
        ==_refl (t + 112),
        cut,
      )

  -- For a process whose trapframe is not null and whose a7 holds a number from 1 to 24, and a handler
  -- that returns `r` and leaves the trapframe where it is: after the handler `syscall` puts `r` into a0
  -- and does nothing else, except that for the call that the process traces it prints the pid, the
  -- name, the result and the registers. The a0 that it prints is the result.
  pub syscall-known :
      (r : ℕ) (k' : Kernel)
      → 1 ≤ num
      → num ≤ 24
      → handler num k ≡ ok r k'
      → (k'.procs me).trapframe ≡ t
      → syscall handler me k
        ≡ ok tt (
            with_messages
              (if (k'.procs me).traced_syscall == num
                then trace_report me t num r k' ∷ k'.messages
                else k'.messages)
              (with_word (t + 112) (u64 r) k'))
  unfolding syscall
  syscall-known r k' lo hi run at' =
      let known : (ltb 0 num && ltb num 25) ≡ true = ground arith in
      rw
        (
          at,
          load-ok (t + 168) k.mem (λ z. absurd (omega arith)),
          number,
          known,
          run,
          store-ok (t + 112) (u64 r) k'.mem (λ z. absurd (omega arith)),
        )
        (elim (Bool-cases ((k'.procs me).traced_syscall == num)) [
          | inl e ↦ rw e (report_lem r k' at')
          | inr e ↦ rw e
        ])

  -- For a process whose trapframe is not null and whose a7 holds a number from 1 to 24, and a handler
  -- that returns `r`: after the handler the dispatch without trace puts `r` into a0 and does nothing else.
  pub syscall_untraced-known :
      (r : ℕ) (k' : Kernel)
      → 1 ≤ num
      → num ≤ 24
      → handler num k ≡ ok r k'
      → syscall_untraced handler me k ≡ ok tt (with_word (t + 112) (u64 r) k')
  unfolding syscall_untraced
  syscall_untraced-known r k' lo hi run =
      let known : (ltb 0 num && ltb num 25) ≡ true = ground arith in
      rw (
        at,
        load-ok (t + 168) k.mem (λ z. absurd (omega arith)),
        number,
        known,
        run,
        store-ok (t + 112) (u64 r) k'.mem (λ z. absurd (omega arith)),
      )
