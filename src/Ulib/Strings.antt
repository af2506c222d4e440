-- ===== src/Ulib/Strings.antt =====
-- What `strlen` of Proyecto3/user/ulib.c returns.
use oscraft.Common.{ℕ, zero, suc, ◌+◌, ◌<◌, ◌≡◌, ◌≢◌, some, arith, ==_ne}
use oscraft.Ulib.{strlen, strlen_from}

-- A string of `n` bytes stands at `s`: the first NUL from there on is at `s + n`.
pub record IsString (f : ℕ → ℕ) (s n : ℕ) : Type 0 where
  pub nul : f (s + n) ≡ 0
  pub bytes : (i : ℕ) → i < n → f (s + i) ≢ 0

strlen_from-IsString :
    (fuel done s n : ℕ) (f : ℕ → ℕ)
    → IsString f s (done + n)
    → n < fuel
    → strlen_from fuel done s f ≡ some (done + n)
unfolding strlen_from
strlen_from-IsString zero done s n f h lt = absurd (omega arith)
strlen_from-IsString (suc fuel) done s zero f h lt =
    let at : done + 0 ≡ done = omega arith in
    let here : f (s + done) ≡ 0 = rw at at h.nul in rw (here, at)
strlen_from-IsString (suc fuel) done s (suc n) f h lt =
    let at : done + 1 + n ≡ done + suc n = omega arith in
    let string : IsString f s (done + 1 + n) = rw at h in
    let back = strlen_from-IsString fuel (done + 1) s n f string (omega arith) in
    rw (==_ne (f (s + done)) 0 (h.bytes done (omega arith)), back, at)

-- For a string of `n` bytes and more than `n` rounds, `strlen` ends and returns `n`.
pub strlen-IsString :
    (fuel s n : ℕ) (f : ℕ → ℕ) → IsString f s n → n < fuel → strlen fuel s f ≡ some n
unfolding strlen
strlen-IsString fuel s n f h lt =
    let at : 0 + n ≡ n = omega arith in
    let string : IsString f s (0 + n) = rw at h in
    rw (strlen_from-IsString fuel 0 s n f string lt, at)
