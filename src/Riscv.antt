-- ===== src/Riscv.antt =====
-- Proyecto3/kernel/riscv.h and memlayout.h: page sizes, PTE bits, the Sv39 index macros and the
-- layout of physical and virtual memory. An address or a PTE is the number that a `uint64` holds;
-- `>>`, `<<` and a mask of low bits are written as `/`, `*` and `%`.
pub mod Address
use oscraft.Common.{ℕ, ◌+◌, ◌-◌, ◌*◌, ◌/◌, ◌%◌, ◌^◌, Bool, not, ltb, ◌==◌, if◌then◌else◌}

abbrev pub pgsize : ℕ
pgsize = 4096

abbrev pub word : ℕ
word = 18446744073709551616

-- reduction of a result to 64 bits
abbrev pub u64 : ℕ → ℕ
u64 n = n % 18446744073709551616

-- an `int` result that is used as a `uint64`: cut to 32 bits, then extended by its sign
abbrev pub sext32 : ℕ → ℕ
sext32 n =
    if ltb (n % 4294967296) 2147483648
    then n % 4294967296
    else n % 4294967296 + 18446744069414584320

-- PGROUNDUP: the sum wraps as the C macro's does
abbrev pub pgroundup : ℕ → ℕ
pgroundup sz = u64 (sz + 4095) - u64 (sz + 4095) % 4096

abbrev pub pgrounddown : ℕ → ℕ
pgrounddown a = a - a % 4096

abbrev pub pte_v : ℕ
pte_v = 1

abbrev pub pte_r : ℕ
pte_r = 2

abbrev pub pte_w : ℕ
pte_w = 4

abbrev pub pte_x : ℕ
pte_x = 8

abbrev pub pte_u : ℕ
pte_u = 16

abbrev pub pte_a : ℕ
pte_a = 64

-- `(pte & PTE_V) != 0`
abbrev pub is_valid : ℕ → Bool
is_valid pte = pte % 2 == 1

-- `(pte & PTE_W) != 0`
abbrev pub is_writable : ℕ → Bool
is_writable pte = pte / 4 % 2 == 1

-- `(pte & PTE_U) != 0`
abbrev pub is_user : ℕ → Bool
is_user pte = pte / 16 % 2 == 1

-- `(pte & PTE_A) != 0`
abbrev pub is_accessed : ℕ → Bool
is_accessed pte = pte / 64 % 2 == 1

-- `(pte & (PTE_R | PTE_W | PTE_X)) != 0`: the entry maps a page and names no lower table
abbrev pub is_leaf : ℕ → Bool
is_leaf pte = not (pte / 2 % 8 == 0)

abbrev pub pa2pte : ℕ → ℕ
pa2pte pa = pa / 4096 * 1024

abbrev pub pte2pa : ℕ → ℕ
pte2pa pte = u64 (pte / 1024 * 4096)

abbrev pub pte_flags : ℕ → ℕ
pte_flags pte = pte % 1024

-- PX(level, va)
abbrev pub px : ℕ → ℕ → ℕ
px level va = va / 2 ^ (12 + 9 * level) % 512

-- the addresses that the three indices of Sv39 tell apart; MAXVA is half of it
abbrev pub sv39 : ℕ
sv39 = 549755813888

abbrev pub maxva : ℕ
maxva = 274877906944

abbrev pub kernbase : ℕ
kernbase = 2147483648

abbrev pub phystop : ℕ
phystop = 2281701376

abbrev pub trampoline : ℕ
trampoline = maxva - pgsize

abbrev pub kstack : ℕ → ℕ
kstack p = trampoline - (p + 1) * 2 * pgsize

abbrev pub trapframe : ℕ
trapframe = trampoline - pgsize

abbrev pub usyscall : ℕ
usyscall = trapframe - pgsize
