-- ===== src/Shell/Pipe.antt =====
-- What `findpipe` of Proyecto1/user/parser.c finds in a command line.
use oscraft.Common.{ℕ, zero, suc, ◌+◌, ◌≤◌, ◌<◌, ◌≡◌, ◌≢◌, none, some, arith, ==_ne}
use oscraft.Shell.Parser.{findpipe, poke}

-- The bytes from `p` up to `q` are neither a NUL nor a `|`.
abbrev pub IsPlain : (ℕ → ℕ) → ℕ → ℕ → Type 0
IsPlain f p q = (a : ℕ) → p ≤ a → a < q → (f a ≢ 0) × (f a ≢ b'|')

IsPlain-step : (f : ℕ → ℕ) (p n : ℕ) → IsPlain f p (p + suc n) → IsPlain f (p + 1) (p + 1 + n)
IsPlain-step f p n h a lo hi = h a (omega arith) (omega arith)

-- `findpipe` of a text whose first `|` comes before any NUL, within the fuel, writes a NUL over that
-- `|` alone and returns the address behind it.
pub findpipe-bar :
    (fuel : ℕ) (f : ℕ → ℕ) (p n : ℕ)
    → n < fuel
    → IsPlain f p (p + n)
    → f (p + n) ≡ b'|'
    → findpipe fuel f p ≡ some (some (poke f (p + n) 0, p + n + 1))
unfolding findpipe
findpipe-bar zero f p n lt h bar = absurd (omega arith)
findpipe-bar (suc fuel) f p zero lt h bar =
    let at : p + 0 ≡ p = omega arith in let here : f p ≡ b'|' = rw at at bar in rw (at, here)
findpipe-bar (suc fuel) f p (suc n) lt h bar =
    let at : p + 1 + n ≡ p + suc n = omega arith in
    let back = findpipe-bar fuel f (p + 1) n (omega arith) (IsPlain-step f p n h) (rw at bar) in
    let plain = h p (omega arith) (omega arith) in
    rw (==_ne (f p) 0 plain.0, ==_ne (f p) b'|' plain.1, back, at)

-- `findpipe` of a text without a `|` before its NUL, within the fuel, returns null.
pub findpipe-none :
    (fuel : ℕ) (f : ℕ → ℕ) (p n : ℕ)
    → n < fuel
    → IsPlain f p (p + n)
    → f (p + n) ≡ 0
    → findpipe fuel f p ≡ some none
unfolding findpipe
findpipe-none zero f p n lt h nul = absurd (omega arith)
findpipe-none (suc fuel) f p zero lt h nul =
    let at : p + 0 ≡ p = omega arith in let here : f p ≡ 0 = rw at at nul in rw here
findpipe-none (suc fuel) f p (suc n) lt h nul =
    let at : p + 1 + n ≡ p + suc n = omega arith in
    let back = findpipe-none fuel f (p + 1) n (omega arith) (IsPlain-step f p n h) (rw at nul) in
    let plain = h p (omega arith) (omega arith) in
    rw (==_ne (f p) 0 plain.0, ==_ne (f p) b'|' plain.1, back)
