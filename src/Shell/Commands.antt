-- ===== src/Shell/Commands.antt =====
-- Proyecto1/user/commands.c and sh.c: what the shell asks of the system for a command line. A program is
-- the tree of its system calls; `fork` has the calls of the child and those of the parent, and `exec` the
-- calls that follow if it fails. `fork` may fail: then there is no child, and the calls of the parent are
-- the same, since the source compares the result with 0 only. The descriptors of a pipe and the success of
-- `open` come from the system; where `pipe` fails, the two numbers are what the array held before.
use oscraft.Common.{
  ℕ, zero, suc, ◌+◌, Bool, ◌&&◌, ◌||◌, Option, none, some, List, [], ◌∷◌, ◌++◌, ◌==◌, if◌then◌else◌,
}
use oscraft.Shell.Parser.{Command, parsed, outside_argv, no_fuel, parseline, findpipe}
use oscraft.Syscall.{codes}

pub data Mode : Type 0 where
  read_only write_create : Mode

-- What the shell writes: its prompt and its banner, and the two errors.
pub data Notice : Type 0 where
  prompt banner : Notice
  cannot_open : (ℕ → ℕ) → ℕ → Notice
  exec_failed : (ℕ → ℕ) → List ℕ → Notice

-- the calls that change the descriptors of a process
pub data Call : Type 0 where
  close : ℕ → Call
  dup : ℕ → Call

pub data Program : Type 0 where
  exit : ℕ → Program
  calls : List Call → Program → Program
  open_file : (ℕ → ℕ) → ℕ → Mode → (Bool → Program) → Program
  pipe : (ℕ → ℕ → Program) → Program
  fork : Program → Program → Program
  wait : Program → Program
  exec : (ℕ → ℕ) → List ℕ → Program → Program
  write : Notice → Program → Program
  undefined : Program  -- after a write outside of an array

-- A redirection of the descriptor `fd` to the file whose name stands at `name`, if there is one.
unfoldable pub redirect : (ℕ → ℕ) → ℕ → ℕ → Mode → Program → Program
redirect f name fd mode rest =
    if name == 0
    then rest
    else calls (close fd ∷ []) (
        open_file f name mode
          (λ opened. if opened then rest else write (cannot_open f name) (exit 0)))

unfoldable pub run_command : Command → Program
run_command c = elim c.argv [
  | [] ↦ exit 0
  | word ∷ words ↦ redirect c.buf c.infile 0 read_only (
      redirect c.buf c.outfile 1 write_create
        (exec c.buf (word ∷ words) (write (exec_failed c.buf (word ∷ words)) (exit 0))))
]

-- `none` when the fuel of the parser has run out
unfoldable pub runcmd : ℕ → (ℕ → ℕ) → ℕ → Option Program
runcmd fuel f p = elim (parseline fuel f p) [
  | no_fuel ↦ none
  | outside_argv ↦ some undefined
  | parsed c ↦ some (run_command c)
]

-- the descriptors of the first child: its output goes to the pipe
unfoldable pub left_calls : ℕ → ℕ → List Call
left_calls reading writing = close 1 ∷ dup writing ∷ close reading ∷ close writing ∷ []

-- those of the second: its input comes from the pipe
unfoldable pub right_calls : ℕ → ℕ → List Call
right_calls reading writing = close 0 ∷ dup reading ∷ close reading ∷ close writing ∷ []

-- the parent keeps no end of the pipe
unfoldable pub parent_calls : ℕ → ℕ → List Call
parent_calls reading writing = close reading ∷ close writing ∷ []

abbrev pub pipeline : Program → Program → Program → Program
pipeline left right rest = pipe λ reading writing. fork (calls (left_calls reading writing) left) (
    fork (calls (right_calls reading writing) right)
      (calls (parent_calls reading writing) (wait (wait rest))))

-- `execline`, and `rest` after it returns. `fuel` covers the length of the line.
unfoldable pub execline : ℕ → (ℕ → ℕ) → ℕ → Program → Option Program
execline zero f p rest = none
execline (suc fuel) f p rest = elim (findpipe (suc fuel) f p) [
  | none ↦ none
  | some none ↦ runcmd (suc fuel) f p
  | some (some (g, right)) ↦ elim (runcmd (suc fuel) g p) [
    | none ↦ none
    | some left ↦ elim (execline fuel g right (exit 0)) [
      | none ↦ none
      | some later ↦ some (pipeline left later rest)
    ]
  ]
]

-- `strcmp(buf, text) == 0`
unfoldable pub is_text : (ℕ → ℕ) → ℕ → List ℕ → Bool
is_text f p [] = f p == 0
is_text f p (b ∷ bs) = (f p == b) && is_text f (p + 1) bs

-- the loop of `main` over the lines that `gets` reads into `buf`, which stands at 1
unfoldable pub shell_loop : ℕ → List (ℕ → ℕ) → Option Program
shell_loop fuel [] = some (write prompt (exit 0))
shell_loop fuel (f ∷ lines) =
    let next = shell_loop fuel lines in
    if f 1 == 0
    then some (write prompt (exit 0))
    else if is_text f 1 (codes "exit" ++ 10 ∷ []) || is_text f 1 (codes "exit")
    then some (write prompt (exit 0))
    else elim (execline fuel f 1 (exit 0)) [
      | none ↦ none
      | some child ↦ elim next [
        | none ↦ none
        | some later ↦ some (write prompt (fork child (wait later)))
      ]
    ]

unfoldable pub shell : ℕ → List (ℕ → ℕ) → Option Program
shell fuel lines = elim (shell_loop fuel lines) [ none ↦ none | some p ↦ some (write banner p) ]
