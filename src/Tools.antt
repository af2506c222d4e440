-- ===== src/Tools.antt =====
-- Proyecto2/user/trace.c and sysinfo.c: the system calls that the two programs make and what they print,
-- as a tree over the results of the calls. A C string is the list of its bytes.
pub mod Report
use oscraft.Common.{ℕ, Bool, Option, none, some, List, [], ◌∷◌, ◌%◌, if◌then◌else◌}
use oscraft.Sysproc.{Sysinfo}

-- The lines that the programs print, without their fixed text; the first two and `sysinfo_failed` go to
-- the standard error.
pub data Printed : Type 0 where
  trace_usage : Printed
  trace_failed : List ℕ → Printed
  tracing : List ℕ → Printed
  current_pid : ℕ → Printed
  sysinfo_failed : List ℕ → Printed
  report_title : Printed
  free_memory used_pages available_pages runnable_processes : ℕ → Printed

pub data Tool : Type 0 where
  exit : ℕ → Tool
  print : Printed → Tool → Tool
  trace : List ℕ → (Bool → Tool) → Tool
  sysinfo : (Option Sysinfo → Tool) → Tool
  getpid : (ℕ → Tool) → Tool
  kill : ℕ → Tool → Tool
  uptime : Tool → Tool

-- `main` of trace.c; `argv` holds all arguments, the program's name first
unfoldable pub trace_main : List (List ℕ) → Tool
trace_main [] = print trace_usage (exit 1)
trace_main (program ∷ []) = print trace_usage (exit 1)
trace_main (program ∷ name ∷ rest) = trace name λ done.
    if done
    then print (tracing name)
        (getpid λ shown. print (current_pid shown) (getpid λ pid. kill pid (uptime (exit 0))))
    else print (trace_failed name) (exit 1)

-- `(int)` of a `uint64`, as its 32-bit pattern
abbrev pub int_of : ℕ → ℕ
int_of n = n % 4294967296

-- `main` of sysinfo.c, for the name of the program
unfoldable pub sysinfo_main : List ℕ → Tool
sysinfo_main program = sysinfo λ result. elim result [
  | none ↦ print (sysinfo_failed program) (exit 1)
  | some info ↦ print report_title (
      print (free_memory (int_of info.freemem)) (
        print (used_pages (int_of info.n_upages)) (
          print (available_pages (int_of info.n_apages))
            (print (runnable_processes (int_of info.n_runnable)) (exit 0)))))
]
