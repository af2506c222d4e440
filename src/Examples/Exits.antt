-- ===== src/Examples/Exits.antt =====
-- The theorems on the memory that a process gets and gives back, at a process with a space, a trapframe and
-- a shared page.
use oscraft.Common.{
  true, false, none, ◌⊎◌, Bool-cases, ◌==◌, inl, inr, ℕ, zero, suc, ◌+◌, ◌*◌, ◌<◌, ◌≡◌, refl, List,
  ◌∷◌, arith,
}
use oscraft.Riscv.{pte2pa}
use oscraft.Monad.{Returns}
use oscraft.PageTable.Shape.{lookup}
use oscraft.PageTable.Frame.{IsFreeable}
use oscraft.PageTable.Release.{HasFrames}
use oscraft.Kernel.{Kernel, Proc, put, is_unused}
use oscraft.Proc.Alloc.{allocproc, freeproc, proc_pagetable}
use oscraft.Proc.Pagetable.{Pagetable, proc_pagetable_lem}
use oscraft.Proc.Space.{IsSpace}
use oscraft.Proc.Found.{HasFound, allocproc_lem}
use oscraft.Proc.Free.{emptied, MemoryFreed, freeproc_lem}
use oscraft.Examples.Space.{kernel_end, root, mapped_page, spare_pages, cell, machine, page}
use oscraft.Examples.Ranges.{both, both-IsWell, unpointed, first_above}
use oscraft.Examples.Procs.{config, procs, kernel}

abbrev frame : ℕ
frame = 2147520512

abbrev shared : ℕ
shared = 2147524608

-- what is free once the trapframe and the shared page are
abbrev more_pages : List ℕ
more_pages = shared ∷ frame ∷ spare_pages

only_frame : HasFrames kernel_end both more_pages cell root 0 1
unfolding lookup
only_frame = record { frame = λ i lt v. only i lt; apart = λ i j lt lt'. absurd (omega arith) }
  where
    only :
        (i : ℕ)
        → i < 1
        → IsFreeable kernel_end both more_pages (pte2pa (lookup cell 2 root (0 + i * 4096)))
    only zero lt = record {
      page = page mapped_page refl (omega arith) (omega arith);
      taken = refl;
      plain = refl;
    }
    only (suc i) lt = absurd (omega arith)

root-IsSpace : IsSpace kernel_end both more_pages cell root 4000
root-IsSpace = record {
  entry = 0;
  here = refl;
  top = unpointed;
  fits = omega arith;
  frames = only_frame;
  above = λ va lo hi out. first_above va lo hi;
}

unused_blank :
    (j : ℕ)
    → j < 4
    → is_unused (procs j).state ≡ true
    → ((procs j).usyscall ≡ 0) × ((procs j).pagetable ≡ 0)
unused_blank j lt free = elim (Bool-cases (j == 0)) [
  | inl z ↦ rw z (refl, refl)
  | inr z ↦ elim (Bool-cases (j == 1)) [
    | inl y ↦ rw (z, y) (refl, refl)
    | inr y ↦ rw (z, y) (refl, refl)
  ]
]

allocproc_lem_example :
    Returns
      (λ r k'.
        (((j : ℕ) → j < 4 → is_unused (procs j).state ≡ false) × (r ≡ none) × (k' ≡ kernel))
        ⊎ ((i : ℕ) × (i < 4)
            × (is_unused (procs i).state ≡ true)
            × ((j : ℕ) → j < i → is_unused (procs j).state ≡ false)
            × HasFound config kernel i both r k'))
      (allocproc config kernel)
allocproc_lem_example =
    allocproc_lem config both spare_pages kernel both-IsWell (omega arith) unused_blank

-- a process with all its memory
abbrev full : Proc
full = record (procs 0) { sz = 4000; pagetable = root; trapframe = frame; usyscall = shared }

abbrev busy : Kernel
busy = record kernel { procs = put procs 2 full }

freeproc_lem_example :
    Returns
      (λ _ k'.
        (k' ≡ record busy { mem = k'.mem; procs = put busy.procs 2 (emptied full) })
        × MemoryFreed kernel_end both spare_pages full machine k'.mem)
      (freeproc config 2 busy)
freeproc_lem_example =
    freeproc_lem config both spare_pages 2 busy both-IsWell
      (λ _. record {
        page = page frame refl (omega arith) (omega arith);
        taken = refl;
        plain = refl;
      })
      (λ _. record {
        page = page shared refl (omega arith) (omega arith);
        taken = refl;
        plain = refl;
      })
      (λ _. root-IsSpace)

proc_pagetable_lem_example :
    Returns (Pagetable config both full machine) (proc_pagetable config full machine)
proc_pagetable_lem_example =
    proc_pagetable_lem config full both spare_pages machine both-IsWell (omega arith) (omega arith)
      (omega arith)
