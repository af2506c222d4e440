-- ===== src/Shell/Children.antt =====
-- The processes that the shell of Proyecto1/user/commands.c and sh.c makes for its lines.
use oscraft.Common.{
  ℕ, zero, suc, ◌+◌, ◌-◌, ◌≤◌, ◌<◌, ◌≡◌, refl, Bool, true, false, ◌⊎◌, Option, none, some, List, [],
  ◌∷◌, arith, ◌==◌, ==_iff, ==_refl, if◌then◌else◌, Bool-cases, inl, inr,
}
use oscraft.Shell.Parser.{Parsed, parsed, outside_argv, no_fuel, Command, poke, parseline, findpipe}
use oscraft.Shell.Words.{Gives, parseline_lem}
use oscraft.Shell.Commands.{
  Mode, cannot_open, exec_failed, Program, exit, calls, open_file, pipe, fork, wait, exec,
  undefined, write, redirect, run_command, runcmd, pipeline, execline,
}

-- A process of the program has `k` children and `x` calls of `fork` have failed in it. Each `wait` has a
-- child to wait for, or stands for a `fork` that failed. When the process exits or executes another
-- program, none of the two is left, so that it has waited for all its children and exactly as often as it
-- has called `fork`. Nothing is done that C does not define.
abbrev pub Balanced : (k x : ℕ) → Program → Type 0
Balanced k x (exit status) = (k ≡ 0) × (x ≡ 0)
Balanced k x (calls l p) = Balanced k x p
Balanced k x (open_file f name mode next) = (b : Bool) → Balanced k x (next b)
Balanced k x (pipe next) = (reading writing : ℕ) → Balanced k x (next reading writing)
Balanced k x (fork child parent) =
    Balanced 0 0 child × Balanced (suc k) x parent × Balanced k (suc x) parent
Balanced zero zero (wait p) = ⊥
Balanced zero (suc x) (wait p) = Balanced zero x p
Balanced (suc k) x (wait p) = Balanced k x p
Balanced k x (exec f argv p) = (k ≡ 0) × (x ≡ 0) × Balanced k x p
Balanced k x (write n p) = Balanced k x p
Balanced k x undefined = ⊥

abbrev pub IsBalanced : Option Program → Type 0
IsBalanced none = ⊥
IsBalanced (some p) = Balanced 0 0 p

redirect_lem :
    (f : ℕ → ℕ) (name fd : ℕ) (mode : Mode) (p : Program)
    → Balanced 0 0 p
    → Balanced 0 0 (redirect f name fd mode p)
unfolding redirect
redirect_lem f name fd mode p h = elim (Bool-cases (name == 0)) [
  | inl e ↦ rw e h
  | inr e ↦ rw e (λ opened. after opened)
]
  where
    after : (b : Bool) → Balanced 0 0 (if b then p else write (cannot_open f name) (exit 0))
    after true = h
    after false = (refl, refl)

run_command_lem : (c : Command) → Balanced 0 0 (run_command c)
unfolding run_command
run_command_lem c = go c.argv
  where
    go :
        (l : List ℕ)
        → Balanced 0 0 (elim l [
          | [] ↦ exit 0
          | word ∷ words ↦ redirect c.buf c.infile 0 Mode.read_only (
              redirect c.buf c.outfile 1 Mode.write_create
                (exec c.buf (word ∷ words) (write (exec_failed c.buf (word ∷ words)) (exit 0))))
        ])
    go [] = (refl, refl)
    go (word ∷ words) =
        redirect_lem c.buf c.infile 0 _ _
          (redirect_lem c.buf c.outfile 1 _ _ (refl, refl, (refl, refl)))

runcmd_lem :
    (fuel n p : ℕ) (f : ℕ → ℕ) → f (p + n) ≡ 0 → n < fuel → n < 32 → IsBalanced (runcmd fuel f p)
unfolding runcmd
runcmd_lem fuel n p f end enough short =
    go _ (parseline fuel f p) (parseline_lem fuel n p f end enough)
  where
    go :
        (P : Command → Type 0) (o : Parsed)
        → Gives P (32 ≤ n) o
        → IsBalanced (elim o [
          | no_fuel ↦ none
          | outside_argv ↦ some undefined
          | parsed c ↦ some (run_command c)
        ])
    go P no_fuel h = absurd h
    go P outside_argv h = absurd (omega (arith, h))
    go P (parsed c) h = run_command_lem c

-- How `findpipe` of a line of `n` bytes ends: without a bar, or with one at a byte of the line.
abbrev Split : ℕ → (ℕ → ℕ) → ℕ → Option (Option ((ℕ → ℕ) × ℕ)) → Type 0
Split n f p o =
    (o ≡ some none) ⊎ ((j : ℕ) × (j < n) × (o ≡ some (some (poke f (p + j) 0, p + j + 1))))

findpipe_cases :
    (fuel n p : ℕ) (f : ℕ → ℕ) → f (p + n) ≡ 0 → n < fuel → Split n f p (findpipe fuel f p)
unfolding findpipe
findpipe_cases zero n p f end enough = absurd (omega arith)
findpipe_cases (suc fuel) n p f end enough = elim (Bool-cases (f p == 0)) [
  | inl z ↦ rw z (inl refl)
  | inr z ↦ rw z (elim (Bool-cases (f p == b'|')) [
    | inl y ↦ let here : p + 0 ≡ p = omega arith in rw y (inr (0, inside z, rw here refl))
    | inr y ↦
        let at : p + 1 + (n - 1) ≡ p + n = let lt = inside z in omega arith in
        rw y (
          later (inside z)
            (findpipe_cases fuel (n - 1) (p + 1) f (rw at end) (let lt = inside z in omega arith)))
  ])
]
  where
    inside : (f p == 0) ≡ false → 0 < n
    inside z = elim (Bool-cases (n == 0)) [
      | inl e ↦
          let none : n ≡ 0 = (==_iff n 0).0 e in
          let at : p + n ≡ p = omega arith in
          absurd (let x : f p ≡ 0 = rw at at end in ground arith)
      | inr e ↦ ground arith
    ]

    later :
        0 < n
        → Split (n - 1) f (p + 1) (findpipe fuel f (p + 1))
        → Split n f p (findpipe fuel f (p + 1))
    later some_left (inl e) = inl e
    later some_left (inr (j, lt, e)) =
        let at : p + 1 + j ≡ p + suc j = omega arith in inr (suc j, omega arith, rw at at e)

-- Both sides of a pipe.
joined :
    (o o' : Option Program) (rest : Program)
    → IsBalanced o
    → IsBalanced o'
    → Balanced 0 0 rest
    → IsBalanced (elim o [
      | none ↦ none
      | some left ↦ elim o' [ none ↦ none | some later ↦ some (pipeline left later rest) ]
    ])
joined none o' rest h h' hr = absurd h
joined (some left) none rest h h' hr = absurd h'
joined (some left) (some later) rest h h' hr = λ reading writing. (h, (h', hr, hr), (h', hr, hr))

-- For a line of `n` bytes, fewer than 32, that ends at a NUL, and fuel for more than `n` rounds: `execline`
-- comes to an end, and every process that it makes, the one that runs it included, waits for all its
-- children, and exactly as often as it calls `fork`.
pub execline-IsBalanced :
    (fuel n p : ℕ) (f : ℕ → ℕ) (rest : Program)
    → f (p + n) ≡ 0
    → n < fuel
    → n < 32
    → Balanced 0 0 rest
    → IsBalanced (execline fuel f p rest)
unfolding execline
execline-IsBalanced zero n p f rest end enough short h = absurd (omega arith)
execline-IsBalanced (suc fuel) n p f rest end enough short h =
    split (findpipe (suc fuel) f p) (findpipe_cases (suc fuel) n p f end enough)
      λ m q g end' enough' short'.
        execline-IsBalanced fuel m q g (exit 0) end' enough' short' (refl, refl)
  where
    split :
        (o : Option (Option ((ℕ → ℕ) × ℕ)))
        → Split n f p o
        → ((m q : ℕ) (g : ℕ → ℕ)
            → g (q + m) ≡ 0
            → m < fuel
            → m < 32
            → IsBalanced (execline fuel g q (exit 0)))
        → IsBalanced (elim o [
          | none ↦ none
          | some none ↦ runcmd (suc fuel) f p
          | some (some (g, right)) ↦ elim (runcmd (suc fuel) g p) [
            | none ↦ none
            | some left ↦ elim (execline fuel g right (exit 0)) [
              | none ↦ none
              | some later ↦ some (pipeline left later rest)
            ]
          ]
        ])
    split o (inl e) later = rw e (runcmd_lem (suc fuel) n p f end enough short)
    split o (inr (j, lt, e)) later =
        let g = poke f (p + j) 0 in
        let at : p + j + 1 + (n - j - 1) ≡ p + n = omega arith in
        let apart : (p + j == p + n) ≡ false = ground arith in
        rw e (
          joined (runcmd (suc fuel) g p) (execline fuel g (p + j + 1) (exit 0)) rest
            (runcmd_lem (suc fuel) j p g (rw (==_refl (p + j))) (omega arith) (omega arith))
            (later (n - j - 1) (p + j + 1) g (rw (at, apart) end) (omega arith) (omega arith)) h)

-- Each line that `gets` reads ends at a NUL within `fuel` bytes, and within 32: so it has no more words
-- than `argv` has room for.
abbrev pub AreLines : ℕ → List (ℕ → ℕ) → Type 0
AreLines fuel [] = Unit {0}
AreLines fuel (f ∷ lines) =
    ((n : ℕ) × (n < fuel) × (n < 32) × (f (1 + n) ≡ 0)) × AreLines fuel lines
