-- ===== src/Examples/Calls.antt =====
-- The theorems on the accessed bits, on the dispatch of a call and on a pipeline at concrete states.
use oscraft.Common.{
  ℕ, zero, suc, ◌<◌, ◌≡◌, ◌≢◌, refl, false, none, some, [], ◌∷◌, arith, ◌==◌, if◌then◌else◌,
}
use oscraft.Monad.{Returns, ok}
use oscraft.Kernel.{Kernel, Proc, running, K}
use oscraft.PageTable.Shape.{lookup}
use oscraft.Sysproc.{read_accessed, clear_accessed}
use oscraft.Sysproc.Access.{IsMask, read_accessed_lem}
use oscraft.Sysproc.Clear.{AreAccessed, Cleared, clear_accessed_lem}
use oscraft.Syscall.{syscall}
use oscraft.Syscall.Dispatch.{
  syscall_untraced, with_word, with_messages, trace_report, syscall-known, syscall_untraced-known,
}
use oscraft.Shell.Commands.{left_calls, right_calls, parent_calls}
use oscraft.Shell.Descriptors.{
  Handle, file, reading_end, writing_end, Table, assign, MakesPipe, EndsWith, pipeline_tables,
}
use oscraft.Examples.Space.{kernel_end, root, spare_pages, machine, own, machine-IsWell}

-- the only page of the space, which was accessed
read_accessed_lem_example :
    Returns
      (λ r m'. IsMask machine.cell root 0 2 r × (m' ≡ machine))
      (read_accessed 2 0 root 0 0 machine)
read_accessed_lem_example =
    read_accessed_lem kernel_end own machine root 0 machine-IsWell.tree (0, refl) 2 (omega arith)

first-AreAccessed : AreAccessed machine.cell root 0 1 0 1
unfolding lookup
first-AreAccessed zero lo hi h = refl
first-AreAccessed (suc j) lo hi h = absurd (omega arith)

clear_accessed_lem_example :
    Returns
      (λ _ m'. Cleared kernel_end own spare_pages root 0 1 0 1 machine m')
      (clear_accessed 1 0 root 0 1 machine)
clear_accessed_lem_example =
    clear_accessed_lem kernel_end own spare_pages root 0 1 (0, refl) refl 1 machine machine-IsWell
      (omega arith) first-AreAccessed

-- a process that traces getpid and asks for the call `number`
abbrev caller : Proc
caller = record {
  state = running;
  chan = none;
  killed = false;
  xstate = 0;
  pid = 3;
  parent = none;
  kstack = 0;
  sz = 4096;
  pagetable = 0;
  trapframe = 8192;
  usyscall = 0;
  traced_syscall = 11;
  context_ra = 0;
  context_sp = 0;
  ofile = λ _. 0;
  cwd = 0;
  name = [];
}

abbrev asking : ℕ → Kernel
asking number = record {
  mem = record { cell = λ a. if a == 8360 then number else 0; freelist = 0; console = [] };
  procs = λ _. caller;
  nextpid = 4;
  initproc = some 0;
  cpu_proc = λ _. none;
  ticks = 0;
  messages = [];
}

abbrev handler : ℕ → K ℕ
handler number k = ok (k.procs 0).pid k

syscall-known_example :
    syscall handler 0 (asking 11)
    ≡ ok tt (
        with_messages
          (if caller.traced_syscall == 11 then trace_report 0 8192 11 3 (asking 11) ∷ [] else [])
          (with_word 8304 3 (asking 11)))
syscall-known_example =
    syscall-known handler 0 8192 11 (asking 11) refl (λ z. absurd (omega arith)) refl 3 (asking 11)
      (omega arith) (omega arith) refl refl

syscall_untraced-known_example :
    syscall_untraced handler 0 (asking 11) ≡ ok tt (with_word 8304 3 (asking 11))
syscall_untraced-known_example =
    syscall_untraced-known handler 0 8192 11 (asking 11) refl (λ z. absurd (omega arith)) refl 3
      (asking 11) (omega arith) (omega arith) refl

-- the console on the first three descriptors
abbrev console_only : Table
console_only fd =
    if fd == 0
    then some (file 1)
    else if fd == 1
    then some (file 1)
    else if fd == 2
    then some (file 1)
    else none

some_ne : (h : Handle) → some h ≢ none
some_ne h e = cc

console_only-MakesPipe : MakesPipe console_only 7 3 4
console_only-MakesPipe = record {
  input = some_ne _;
  output = some_ne _;
  first = record { unused = refl; lower = below_three };
  second = record { unused = refl; lower = below_four };
}
  where
    below_three : (j : ℕ) → j < 3 → console_only j ≢ none
    below_three zero lt = some_ne _
    below_three (suc zero) lt = some_ne _
    below_three (suc (suc zero)) lt = some_ne _
    below_three (suc (suc (suc j))) lt = absurd (omega arith)

    below_four : (j : ℕ) → j < 4 → assign console_only 3 (some (reading_end 7)) j ≢ none
    below_four zero lt = some_ne _
    below_four (suc zero) lt = some_ne _
    below_four (suc (suc zero)) lt = some_ne _
    below_four (suc (suc (suc zero))) lt = some_ne _
    below_four (suc (suc (suc (suc j)))) lt = absurd (omega arith)

pipeline_tables_example :
    EndsWith console_only 7 3 4 console_only-MakesPipe
      (left_calls 3 4)
      (assign console_only 1 (some (writing_end 7)))
    × EndsWith console_only 7 3 4 console_only-MakesPipe
        (right_calls 3 4)
        (assign console_only 0 (some (reading_end 7)))
    × EndsWith console_only 7 3 4 console_only-MakesPipe (parent_calls 3 4) console_only
pipeline_tables_example = pipeline_tables console_only 7 3 4 console_only-MakesPipe
