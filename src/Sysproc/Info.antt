-- ===== src/Sysproc/Info.antt =====
-- The numbers that `sys_sysinfo` of Proyecto2/kernel/sysproc.c reports.
use oscraft.Common.{
  ℕ, zero, suc, ◌+◌, ◌-◌, ◌*◌, ◌/◌, ◌≤◌, ◌≡◌, refl, arith, ap, ltb, if◌then◌else◌, Bool-cases, inl,
  inr,
}
use oscraft.Kernel.{Kernel, Config, Proc, is_runnable}
use oscraft.Monad.{ok}
use oscraft.Proc.Sleep.{count_runnable, get_runnable_count}
use oscraft.Sysproc.{make_sysinfo}

-- With `n` free pages of the 32768 that the machine has, `sysinfo` reports `n` available pages and the
-- rest as used, the free bytes, and the processes that are runnable.
pub make_sysinfo-pages :
    (n runnable : ℕ)
    → n ≤ 32768
    → ((make_sysinfo (4096 * n) runnable).n_apages ≡ n)
      × ((make_sysinfo (4096 * n) runnable).n_upages + n ≡ 32768)
      × ((make_sysinfo (4096 * n) runnable).freemem ≡ 4096 * n)
      × ((make_sysinfo (4096 * n) runnable).n_runnable ≡ runnable)
unfolding make_sysinfo
make_sysinfo-pages n runnable h = (omega arith, used, refl, refl)
  where
    used : (if ltb (4096 * n / 4096) 32768 then 32768 - 4096 * n / 4096 else 0) + n ≡ 32768
    used = let same : 4096 * n / 4096 ≡ n = omega arith in rw same (ground arith)

-- how many of the `n` processes from `i` are runnable
abbrev pub runnable_among : ℕ → ℕ → (ℕ → Proc) → ℕ
runnable_among zero i t = 0
runnable_among (suc n) i t = (if is_runnable (t i).state then 1 else 0) + runnable_among n (i + 1) t

count_runnable_lem :
    (n i count : ℕ) (t : ℕ → Proc) → count_runnable n i count t ≡ count + runnable_among n i t
unfolding count_runnable
count_runnable_lem zero i count t = omega arith
count_runnable_lem (suc n) i count t = elim (Bool-cases (is_runnable (t i).state)) [
  | inl e ↦ let back = count_runnable_lem n (i + 1) (count + 1) t in rw (e, back) (omega arith)
  | inr e ↦ let back = count_runnable_lem n (i + 1) count t in rw (e, back) (omega arith)
]

-- `get_runnable_count` returns how many processes of the table are runnable, and changes nothing.
pub get_runnable_count_lem :
    (c : Config) (k : Kernel) → get_runnable_count c k ≡ ok (runnable_among c.nproc 0 k.procs) k
unfolding get_runnable_count
get_runnable_count_lem c k =
    let back = count_runnable_lem c.nproc 0 0 k.procs in rw back (ap (λ n. ok n k) (omega arith))
