-- ===== src/Tools/Report.antt =====
-- What sysinfo.c of Proyecto2/user prints of the numbers that the kernel has counted.
use oscraft.Common.{ℕ, ◌-◌, ◌*◌, ◌/◌, ◌≤◌, ◌<◌, ◌≡◌, Option, some, ltb, if◌then◌else◌, List, arith}
use oscraft.Sysproc.{Sysinfo, make_sysinfo}
use oscraft.Tools.{
  Tool, int_of, exit, print, sysinfo, sysinfo_main, report_title, free_memory, used_pages,
  available_pages, runnable_processes,
}

-- the program after its first call, where that is `sysinfo`, has returned
abbrev pub answered : Option Sysinfo → Tool → Tool
answered result (sysinfo next) = next result
answered result program = program

-- For at most 32768 free pages and fewer than 2 ^ 31 runnable processes, sysinfo prints the kernel's
-- numbers as they are, in spite of its casts to `int`: the free bytes, the pages in use, the free pages
-- and the runnable processes.
pub sysinfo_main-make_sysinfo :
    (program : List ℕ) (pages runnable : ℕ)
    → pages ≤ 32768
    → runnable < 2147483648
    → answered (some (make_sysinfo (4096 * pages) runnable)) (sysinfo_main program)
      ≡ print report_title (
          print (free_memory (4096 * pages)) (
            print
              (used_pages (32768 - pages))
              (print (available_pages pages) (print (runnable_processes runnable) (exit 0)))))
unfolding sysinfo_main make_sysinfo
sysinfo_main-make_sysinfo program pages runnable few small =
    let free : 4096 * pages / 4096 ≡ pages = omega arith in
    let bytes : int_of (4096 * pages) ≡ 4096 * pages = omega arith in
    let counted : int_of pages ≡ pages = omega arith in
    let processes : int_of runnable ≡ runnable = omega arith in
    let in_use : int_of (if ltb pages 32768 then 32768 - pages else 0) ≡ 32768 - pages =
      ground arith in
    rw (free, bytes, counted, processes, in_use)
