-- ===== src/Examples/Memory.antt =====
-- The theorems on the allocator at concrete machines.
use oscraft.Common.{
  if◌then◌else◌, ◌==◌, ==_iff, Bool, List, some, ℕ, ◌≡◌, refl, true, [], ◌∷◌, arith,
}
use oscraft.Riscv.{phystop, pgroundup}
use oscraft.Monad.{Returns, ok, ◌>>◌}
use oscraft.Machine.{Machine}
use oscraft.Kalloc.{kfree, kalloc, get_free_memory, kinit}
use oscraft.Kalloc.Clients.{
  Request, allocate, release, perform, Stocked, ArePermitted, Served, perform-serve,
}
use oscraft.Kalloc.Contract.{IsFree, kalloc-kfree, get_free_memory-length}
use oscraft.Kalloc.Boot.{with_pages, page_count, kinit_lem}
use oscraft.Examples.Space.{kernel_end, mapped_page, spare_pages, machine, page, machine-IsWell}
use oscraft.Ulib.Strings.{IsString, strlen-IsString}
use oscraft.Ulib.{strlen, memmove, memset}
use oscraft.Ulib.Memmove.{memmove_lem, memset_lem}

kalloc-kfree_example :
    Returns
      (λ p n. (p ≡ mapped_page) × IsFree kernel_end spare_pages n)
      ((kfree kernel_end mapped_page >> kalloc) machine)
kalloc-kfree_example =
    kalloc-kfree kernel_end mapped_page spare_pages machine
      (page mapped_page (omega arith) (omega arith) (omega arith)) refl machine-IsWell.free

get_free_memory-length_example : get_free_memory 32768 machine ≡ ok 12288 machine
get_free_memory-length_example =
    get_free_memory-length kernel_end 32768 spare_pages machine machine-IsWell.free (omega arith)
      (omega arith)

abbrev before_boot : Machine
before_boot = record { cell = λ a. 7; freelist = 0; console = [] }

kinit_lem_example :
    Returns
      (λ _ n.
        IsFree 2147620000
          (with_pages (page_count (pgroundup 2147620000) phystop) (pgroundup 2147620000) [])
          n)
      (kinit 2147620000 before_boot)
kinit_lem_example = kinit_lem 2147620000 before_boot (omega arith) (omega arith) refl

-- The five bytes from 100 moved up by two, into a region that overlaps theirs.
memmove_lem_example : memmove 102 100 5 (λ a. a) 104 ≡ 102
memmove_lem_example = memmove_lem 102 100 5 (λ a. a) 104

memset_lem_example : memset 10 513 3 (λ a. a) 11 ≡ 1
memset_lem_example = memset_lem 3 10 513 (λ a. a) 11

-- four bytes and a NUL at 10
abbrev text : ℕ → ℕ
text a = if a == 14 then 0 else b'x'

text-IsString : IsString text 10 4
text-IsString = record { nul = refl; bytes = λ i h. ground arith }

strlen-IsString_example : strlen 5 10 text ≡ some 4
strlen-IsString_example = strlen-IsString 5 10 4 text text-IsString (omega arith)

-- two pages are handed out, the first comes back and is handed out again
abbrev requests : List Request
requests = allocate ∷ allocate ∷ release 2147504128 ∷ allocate ∷ []

abbrev held : ℕ → Bool
held a = a == mapped_page

held-page : (a : ℕ) → held a ≡ true → a ≡ mapped_page
held-page a h = (==_iff a mapped_page).0 h

machine-Stocked : Stocked kernel_end spare_pages held machine
machine-Stocked = record {
  listed = machine-IsWell.free;
  is_page =
      λ a h. let e = held-page a h in rw e (page mapped_page refl (omega arith) (omega arith));
  apart = λ a h. let e = held-page a h in rw e refl;
}

requests-ArePermitted : ArePermitted requests spare_pages held
requests-ArePermitted = (refl, tt)

perform-serve_example :
    Returns
      (λ r n. Served kernel_end requests spare_pages held machine r n)
      (perform kernel_end requests machine)
perform-serve_example =
    perform-serve kernel_end requests spare_pages held machine machine-Stocked requests-ArePermitted
