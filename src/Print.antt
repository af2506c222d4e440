-- ===== src/Print.antt =====
-- Proyecto3/kernel/vm.c: `vmprint`, which lists the valid entries of a page table.
use oscraft.Common.{ℕ, zero, suc, ◌+◌, ◌-◌, ◌*◌, ◌^◌, ◌&&◌, not, ltb, if◌then◌else◌}
use oscraft.Riscv.{u64, is_valid, is_leaf, pte2pa}
use oscraft.Monad.{pure, ◌>>=◌, ◌>>◌}
use oscraft.Machine.{M, load, printk, page_table, entry}

-- The loop of `vmprint_nivel` over the entries from `i`, with the call for a lower table as an
-- argument.
unfoldable pub print_entries : (ℕ → ℕ → M (Unit {0})) → ℕ → ℕ → ℕ → ℕ → ℕ → M (Unit {0})
print_entries lower zero i pagetable level va = pure tt
print_entries lower (suc rounds) i pagetable level va = do
  pte ← load (pagetable + 8 * i)
  let vaini = u64 (va + i * 2 ^ (12 + 9 * level))
  if not (is_valid pte) then pure tt else do
    printk (entry (3 - level) vaini pte (pte2pa pte))
    if ltb 0 level && not (is_leaf pte) then lower (pte2pa pte) vaini else pure tt
  print_entries lower rounds (i + 1) pagetable level va

unfoldable pub vmprint_nivel : ℕ → ℕ → ℕ → M (Unit {0})
vmprint_nivel zero pagetable va = print_entries (λ child vaini. pure tt) 512 0 pagetable 0 va
vmprint_nivel (suc level) pagetable va =
    print_entries (vmprint_nivel level) 512 0 pagetable (suc level) va

unfoldable pub vmprint : ℕ → M (Unit {0})
vmprint pagetable = do printk (page_table pagetable); vmprint_nivel 2 pagetable 0
