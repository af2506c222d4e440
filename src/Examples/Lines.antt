-- ===== src/Examples/Lines.antt =====
-- The theorems on the shell's lines at one line.
use oscraft.Common.{
  ℕ, zero, suc, ◌≤◌, ◌<◌, ◌≡◌, ◌⊎◌, refl, true, List, [], ◌∷◌, ◌++◌, arith, length, has,
}
use oscraft.Syscall.{codes}
use oscraft.Shell.Parser.{parseline}
use oscraft.Shell.Words.{Gives, parseline_lem}

abbrev byte_of : List ℕ → ℕ → ℕ
byte_of [] a = 0
byte_of (b ∷ l) zero = b
byte_of (b ∷ l) (suc a) = byte_of l a

-- the buffer, from the address 1 on
abbrev line : ℕ → ℕ
line = byte_of (0 ∷ codes "cat <a |wc" ++ 10 ∷ [])

parseline_lem_example :
    Gives
      (λ c.
        ((a : ℕ) → (a < 1) ⊎ (12 ≤ a) → c.buf a ≡ line a)
        × ((a : ℕ) → (c.buf a ≡ line a) ⊎ (c.buf a ≡ 0))
        × (length c.argv ≤ 11)
        × (length c.argv < 32)
        × ((w : ℕ) → has w c.argv ≡ true → (1 ≤ w) × (w < 12)))
      (32 ≤ 11)
      (parseline 100 line 1)
parseline_lem_example = parseline_lem 100 11 1 line refl (omega arith)
