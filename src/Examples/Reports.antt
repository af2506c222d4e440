-- ===== src/Examples/Reports.antt =====
-- The theorem on the program sysinfo at one machine's numbers.
use oscraft.Common.{◌≡◌, some, [], arith}
use oscraft.Sysproc.{make_sysinfo}
use oscraft.Tools.{
  exit, print, sysinfo_main, report_title, free_memory, used_pages, available_pages,
  runnable_processes,
}
use oscraft.Tools.Report.{answered, sysinfo_main-make_sysinfo}

sysinfo_main-make_sysinfo_example :
    answered (some (make_sysinfo 12288 2)) (sysinfo_main [])
    ≡ print report_title (
        print (free_memory 12288) (
          print
            (used_pages 32765)
            (print (available_pages 3) (print (runnable_processes 2) (exit 0)))))
sysinfo_main-make_sysinfo_example = sysinfo_main-make_sysinfo [] 3 2 (omega arith) (omega arith)
