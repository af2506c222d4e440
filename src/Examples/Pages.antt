-- ===== src/Examples/Pages.antt =====
-- The theorems on page tables at concrete addresses of one machine.
use oscraft.Common.{ℕ, ◌%◌, ◌/◌, ◌≡◌, refl, true, arith}
use oscraft.Monad.{Returns, ok}
use oscraft.PageTable.{walk, walkaddr, mappages}
use oscraft.PageTable.Shape.{lookup}
use oscraft.PageTable.Walk.{Walked, walk-alloc}
use oscraft.PageTable.Map.{IsRoot}
use oscraft.PageTable.Range.{IsUnmapped, RangeMapped, mappages_lem}
use oscraft.PageTable.Access.{walkaddr-translate}
use oscraft.PageTable.Frame.{IsFreeable}
use oscraft.Transfer.{vmfault}
use oscraft.Transfer.Fault.{Faulted, vmfault_lem}
use oscraft.Examples.Space.{
  kernel_end, root, mapped_page, spare_pages, machine, own, page, machine-IsWell,
}

-- an address whose tables of the levels 1 and 0 are missing
abbrev far : ℕ
far = 1073741824

root-IsRoot : IsRoot own root
root-IsRoot = (0, refl)

walk-alloc_example : Returns (Walked kernel_end own 2 root far machine) (walk root far true machine)
walk-alloc_example =
    walk-alloc kernel_end root 0 far own spare_pages machine machine-IsWell refl (omega arith)

walkaddr-translate_example : walkaddr root 8 machine ≡ ok mapped_page machine
unfolding lookup
walkaddr-translate_example =
    walkaddr-translate kernel_end own machine root 8 machine-IsWell.tree root-IsRoot

far-IsUnmapped : IsUnmapped machine.cell root far 2
unfolding lookup
far-IsUnmapped vb lo hi = let index : vb / 1073741824 % 512 ≡ 1 = omega arith in rw index

mappages_lem_example :
    Returns
      (RangeMapped kernel_end own root far 2 mapped_page 2 machine)
      (mappages root far 8192 mapped_page 2 machine)
mappages_lem_example =
    mappages_lem kernel_end 2 own spare_pages machine root far mapped_page 2 machine-IsWell
      root-IsRoot (omega arith) (omega arith) (omega arith) (omega arith) far-IsUnmapped

mapped_page-IsFreeable : IsFreeable kernel_end own spare_pages mapped_page
mapped_page-IsFreeable = record {
  page = page mapped_page (omega arith) (omega arith) (omega arith);
  taken = refl;
  plain = refl;
}

-- a page of the process that was not used yet
vmfault_lem_example :
    Returns
      (Faulted kernel_end own root 8192 4100 machine)
      (vmfault kernel_end root 8192 4100 true machine)
vmfault_lem_example =
    vmfault_lem kernel_end own spare_pages machine root 8192 4100 true machine-IsWell root-IsRoot
      (omega arith)
