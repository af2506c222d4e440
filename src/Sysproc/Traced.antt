-- ===== src/Sysproc/Traced.antt =====
-- Proyecto2/kernel/sysproc.c where its calls reach other functions than those of Proyecto3, or other
-- bounds: a process may grow up to its trapframe, and a kill has no test for pid 0.
use oscraft.Common.{ℕ, ◌+◌, ◌||◌, none, some, ltb, ◌==◌, if◌then◌else◌}
use oscraft.Riscv.{u64, trapframe}
use oscraft.Monad.{pure, ◌>>=◌, ◌>>◌}
use oscraft.Kernel.{K, Config, get_proc, set_proc}
use oscraft.Proc.Sleep.{kkill_unchecked}
use oscraft.Proc.Life.{Waited}
use oscraft.Proc.Traced.{growproc_traced, kfork_traced, kwait_turn_traced}
use oscraft.Syscall.{argint, argaddr}
use oscraft.Sysproc.{minus_one, is_negative}

unfoldable pub sys_fork_traced : Config → ℕ → K ℕ
sys_fork_traced c me = do
  child ← kfork_traced c me
  elim child [ none ↦ pure minus_one | some pid ↦ pure pid ]

unfoldable pub sys_wait_traced : Config → ℕ → K Waited
sys_wait_traced c me = do p ← argaddr me 0; kwait_turn_traced c me p

unfoldable pub sys_sbrk_traced : Config → ℕ → K ℕ
sys_sbrk_traced c me = do
  n ← argint me 0
  t ← argint me 1
  p ← get_proc me
  if (t == c.sbrk_eager) || is_negative n
      then (do grown ← growproc_traced c me n; pure (if grown then p.sz else minus_one))
      else if ltb (u64 (p.sz + n)) p.sz
      then pure minus_one
      else if ltb trapframe (u64 (p.sz + n))
      then pure minus_one
      else do set_proc me λ q. record q { sz = u64 (q.sz + n) }; pure p.sz

unfoldable pub sys_kill_traced : Config → ℕ → K ℕ
sys_kill_traced c me = do
  pid ← argint me 0
  killed ← kkill_unchecked c pid
  pure (if killed then 0 else minus_one)
