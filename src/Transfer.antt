-- ===== src/Transfer.antt =====
-- Proyecto3/kernel/vm.c: page faults on lazily allocated memory, and copies between the kernel and
-- a user address space. A kernel buffer is the list of its bytes: `copyout` takes it, `copyin` and
-- `copyinstr` return it, with `none` for -1.
pub mod Fault
use oscraft.Common.{
  ℕ, zero, suc, ◌+◌, ◌-◌, Bool, true, false, not, Option, none, some, List, [], ◌∷◌, ◌++◌, bit_or,
  min, leb, ◌==◌, if◌then◌else◌, length, take, drop,
}
use oscraft.Riscv.{pgsize, u64, maxva, pgrounddown, is_writable, pte_r, pte_w, pte_u}
use oscraft.Monad.{pure, ◌>>=◌, ◌>>◌, out_of_fuel}
use oscraft.Machine.{M, load, memset_page, copy_to, copy_from, byte_at}
use oscraft.Kalloc.{kalloc, kfree}
use oscraft.PageTable.{walk, walkaddr, ismapped, mappages}

-- 0 when the address is out of range or already mapped, or memory has run out; `read` is unused
unfoldable pub vmfault : ℕ → ℕ → ℕ → ℕ → Bool → M ℕ
vmfault kernel_end pagetable psz va read = if leb psz va then pure 0 else do
  mapped ← ismapped pagetable (pgrounddown va)
  if mapped then pure 0 else do
    mem ← kalloc
    if mem == 0 then pure 0 else do
      memset_page mem 0
      done ← mappages pagetable (pgrounddown va) pgsize mem (bit_or (bit_or pte_w pte_u) pte_r)
      if done then pure mem else do kfree kernel_end mem; pure 0

-- `walkaddr`, and a page fault where that finds nothing
unfoldable pub user_page : ℕ → ℕ → ℕ → ℕ → Bool → M ℕ
user_page kernel_end pagetable psz va0 read = do
  pa0 ← walkaddr pagetable va0
  if pa0 == 0 then vmfault kernel_end pagetable psz va0 read else pure pa0

-- how many of `len` bytes lie between `va` and the end of its page
abbrev pub chunk : ℕ → ℕ → ℕ
chunk va len = min (pgsize - (va - pgrounddown va)) len

-- The loop of `copyout`; each round copies at least one byte.
unfoldable pub copyout_loop : ℕ → ℕ → ℕ → ℕ → ℕ → List ℕ → M Bool
copyout_loop kernel_end rounds pagetable psz dstva [] = pure true
copyout_loop kernel_end zero pagetable psz dstva (b ∷ bs) = λ _. out_of_fuel
copyout_loop kernel_end (suc rounds) pagetable psz dstva (b ∷ bs) =
    let src = b ∷ bs in
    let n = chunk dstva (length src) in
    if leb maxva (pgrounddown dstva) then pure false else do
      pa0 ← user_page kernel_end pagetable psz (pgrounddown dstva) false
      if pa0 == 0 then pure false else do
        pte ← walk pagetable (pgrounddown dstva) false
        entry ← load pte
        if not (is_writable entry) then pure false else do
          copy_to (pa0 + (dstva - pgrounddown dstva)) (take n src)
          copyout_loop kernel_end rounds pagetable psz (u64 (pgrounddown dstva + pgsize))
              (drop n src)

unfoldable pub copyout : ℕ → ℕ → ℕ → ℕ → List ℕ → M Bool
copyout kernel_end pagetable psz dstva src =
    copyout_loop kernel_end (length src) pagetable psz dstva src

-- The loop of `copyin`; `dst` holds the bytes copied so far.
unfoldable pub copyin_loop : ℕ → ℕ → ℕ → ℕ → ℕ → ℕ → List ℕ → M (Option (List ℕ))
copyin_loop kernel_end zero pagetable psz srcva len dst =
    if len == 0 then pure (some dst) else (λ _. out_of_fuel)
copyin_loop kernel_end (suc rounds) pagetable psz srcva len dst =
    if len == 0 then pure (some dst) else do
      pa0 ← user_page kernel_end pagetable psz (pgrounddown srcva) true
      if pa0 == 0 then pure none else do
        bytes ← copy_from (chunk srcva len) (pa0 + (srcva - pgrounddown srcva))
        copyin_loop kernel_end rounds pagetable psz (u64 (pgrounddown srcva + pgsize))
            (len - chunk srcva len) (dst ++ bytes)

unfoldable pub copyin : ℕ → ℕ → ℕ → ℕ → ℕ → M (Option (List ℕ))
copyin kernel_end pagetable psz srcva len = copyin_loop kernel_end len pagetable psz srcva len []

-- The inner loop of `copyinstr`: up to `n` bytes from `p`, and whether a NUL ended it.
unfoldable pub scan_string : ℕ → ℕ → (ℕ → ℕ) → List ℕ → Bool × List ℕ
scan_string zero p f dst = (false, dst)
scan_string (suc n) p f dst =
    let rest = scan_string n (p + 1) f (dst ++ byte_at f p ∷ []) in
    if byte_at f p == 0 then (true, dst ++ 0 ∷ []) else rest

unfoldable pub scan_page : ℕ → ℕ → List ℕ → M (Bool × List ℕ)
scan_page n p dst m = pure (scan_string n p m.cell dst) m

unfoldable pub copyinstr_loop : ℕ → ℕ → ℕ → ℕ → ℕ → ℕ → List ℕ → M (Option (List ℕ))
copyinstr_loop kernel_end zero pagetable psz srcva max dst =
    if max == 0 then pure none else (λ _. out_of_fuel)
copyinstr_loop kernel_end (suc rounds) pagetable psz srcva max dst =
    if max == 0 then pure none else do
      pa0 ← user_page kernel_end pagetable psz (pgrounddown srcva) true
      if pa0 == 0 then pure none else do
        (got_null, dst') ← scan_page (chunk srcva max) (pa0 + (srcva - pgrounddown srcva)) dst
        if got_null
            then pure (some dst')
            else copyinstr_loop kernel_end rounds pagetable psz (u64 (pgrounddown srcva + pgsize))
                (max - chunk srcva max) dst'

unfoldable pub copyinstr : ℕ → ℕ → ℕ → ℕ → ℕ → M (Option (List ℕ))
copyinstr kernel_end pagetable psz srcva max =
    copyinstr_loop kernel_end max pagetable psz srcva max []
