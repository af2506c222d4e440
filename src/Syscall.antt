-- ===== src/Syscall.antt =====
-- Proyecto2/kernel/syscall.c and syscall.h: the arguments of a system call, the names of the calls, and
-- the dispatch with its trace. Proyecto3/kernel/syscall.c has the same argument functions and a
-- dispatch without the trace.
pub mod Dispatch
use Prim.Native.Char.{code}
use Prim.Native.String.{String}
use oscraft.Common.{
  ℕ, zero, suc, ◌+◌, ◌-◌, ◌*◌, ◌/◌, ◌%◌, ◌^◌, Bool, true, false, ◌&&◌, ◌||◌, not, Option, none,
  some, List, [], ◌∷◌, ltb, leb, ◌==◌, if◌then◌else◌, length, get_elem?,
}
use oscraft.Riscv.{u64}
use oscraft.Monad.{pure, fail, ok, ◌>>=◌, ◌>>◌, argraw_index}
use oscraft.Machine.{load, store}
use oscraft.Transfer.{copyin, copyinstr}
use oscraft.Kernel.{
  Kernel, K, Config, Proc, Message, traced, unknown_syscall, mem, get_proc, set_proc, print,
}

-- the code points of a text in ASCII: its bytes
abbrev pub codes : String → List ℕ
codes String.[] = []
codes (String.◌∷◌ c s) = code c ∷ codes s

-- the number that eight bytes hold, the lowest first
abbrev pub of_bytes : List ℕ → ℕ
of_bytes [] = 0
of_bytes (b ∷ bs) = b + 256 * of_bytes bs

-- -1 is `none`
unfoldable pub fetchaddr : Config → ℕ → ℕ → K (Option ℕ)
fetchaddr c me addr = do
  p ← get_proc me
  if leb p.sz addr || ltb p.sz (u64 (addr + 8)) then pure none else do
    bytes ← mem (copyin c.kernel_end p.pagetable p.sz addr 8)
    elim bytes [ none ↦ pure none | some bs ↦ pure (some (of_bytes bs)) ]

-- the string, without its NUL; its length is the C result, and -1 is `none`
abbrev pub until_nul : List ℕ → List ℕ
until_nul [] = []
until_nul (b ∷ bs) = if b == 0 then [] else b ∷ until_nul bs

unfoldable pub fetchstr : Config → ℕ → ℕ → ℕ → K (Option (List ℕ))
fetchstr c me addr max = do
  p ← get_proc me
  bytes ← mem (copyinstr c.kernel_end p.pagetable p.sz addr max)
  elim bytes [ none ↦ pure none | some bs ↦ pure (some (until_nul bs)) ]

-- a0 to a5 stand at the offsets 112 to 152 of the trapframe
unfoldable pub argraw : ℕ → ℕ → K ℕ
argraw me n = do
  p ← get_proc me
  if leb n 5 then mem (load (p.trapframe + 112 + 8 * n)) else fail argraw_index

-- an `int`, as its 32-bit pattern
unfoldable pub argint : ℕ → ℕ → K ℕ
argint me n = do v ← argraw me n; pure (v % 4294967296)

unfoldable pub argaddr : ℕ → ℕ → K ℕ
argaddr me n = argraw me n

unfoldable pub argstr : Config → ℕ → ℕ → ℕ → K (Option (List ℕ))
argstr c me n max = do addr ← argaddr me n; fetchstr c me addr max

-- the table of names from number 1 on
abbrev pub syscallnames : List (List ℕ)
syscallnames =
    codes "fork"
    ∷ codes "exit"
    ∷ codes "wait"
    ∷ codes "pipe"
    ∷ codes "read"
    ∷ codes "kill"
    ∷ codes "exec"
    ∷ codes "fstat"
    ∷ codes "chdir"
    ∷ codes "dup"
    ∷ codes "getpid"
    ∷ codes "sbrk"
    ∷ codes "pause"
    ∷ codes "uptime"
    ∷ codes "open"
    ∷ codes "write"
    ∷ codes "mknod"
    ∷ codes "unlink"
    ∷ codes "link"
    ∷ codes "mkdir"
    ∷ codes "close"
    ∷ codes "sync"
    ∷ codes "sysinfo"
    ∷ codes "trace"
    ∷ []

-- `strncmp(a, b, n) == 0`
unfoldable pub same_prefix : ℕ → List ℕ → List ℕ → Bool
same_prefix zero a b = true
same_prefix (suc n) [] [] = true
same_prefix (suc n) [] (y ∷ b) = false
same_prefix (suc n) (x ∷ a) [] = false
same_prefix (suc n) (x ∷ a) (y ∷ b) = (x == y) && same_prefix n a b

-- The loop of `syscallid_by_name` from number `i`: -1 is `none`.
unfoldable pub find_name : ℕ → List (List ℕ) → List ℕ → Option ℕ
find_name i [] name = none
find_name i (entry ∷ names) name =
    let rest = find_name (i + 1) names name in if same_prefix 16 entry name then some i else rest

unfoldable pub syscallid_by_name : List ℕ → Option ℕ
syscallid_by_name name = find_name 1 syscallnames name

-- `syscallnames[num]`
abbrev pub name_of : ℕ → List ℕ
name_of num = elim (get_elem? syscallnames (num - 1)) [ none ↦ [] | some name ↦ name ]

-- The report of a traced call; `s0` and `s1` stand at the offsets 96 and 104.
unfoldable pub report : ℕ → ℕ → K (Unit {0})
report me num = do
  p ← get_proc me
  s0 ← mem (load (p.trapframe + 96))
  s1 ← mem (load (p.trapframe + 104))
  a0 ← mem (load (p.trapframe + 112))
  a1 ← mem (load (p.trapframe + 120))
  print (
      traced p.pid (name_of num) (a0 % 4294967296) (s0 % 4294967296) (s1 % 4294967296)
        (a0 % 4294967296) (a1 % 4294967296))

-- `syscalls[num]()` is the argument `handler`; the table has 24 entries from 1 on.
unfoldable pub syscall : (ℕ → K ℕ) → ℕ → K (Unit {0})
syscall handler me = do
  p ← get_proc me
  a7 ← mem (load (p.trapframe + 168))
  let num = a7 % 4294967296
  if ltb 0 num && ltb num 25
      then (do
        result ← handler num
        mem (store (p.trapframe + 112) (u64 result))
        q ← get_proc me
        if q.traced_syscall == num then report me num else pure tt)
      else do
        print (unknown_syscall p.pid p.name num)
        mem (store (p.trapframe + 112) 18446744073709551615)
