-- ===== src/Shell/Words.antt =====
-- What `parseline` of Proyecto1/user/parser.c does to a line of a given length: it comes to an end, and
-- stays within the line.
use oscraft.Common.{
  ℕ, zero, suc, ◌+◌, ◌-◌, ◌≤◌, ◌<◌, ◌≡◌, ◌≢◌, refl, ◌∙◌, true, false, ◌⊎◌, List, [], ◌∷◌, ◌++◌,
  arith, ◌==◌, ltb, Bool-cases, inl, inr, length, has, length-append,
}
use oscraft.Shell.Parser.{
  Parsed, parsed, outside_argv, no_fuel, finish, poke, skip_blanks, skip_spaces, skip_name, Command,
  parse_from, parseline,
}
use oscraft.Shell.Scan.{
  Cut, skip_spaces_lem, skip_name_lem, skip_word_lem, skip_word_first, Cut-poke, Cut-trans,
  skip_blanks_lem,
}

-- How far the parser has come from `c` to `d` on the text from `p` to `e`: it has changed no byte
-- outside, and each new word is inside and takes up at least a byte.
pub record Progress (p e : ℕ) (c d : Command) : Type 0 where
  pub outside : (a : ℕ) → (a < p) ⊎ (e ≤ a) → d.buf a ≡ c.buf a
  pub zeroed : (a : ℕ) → (d.buf a ≡ c.buf a) ⊎ (d.buf a ≡ 0)
  pub fits : length d.argv < 32
  pub count : length d.argv ≤ length c.argv + (e - p)
  pub words : (w : ℕ) → has w d.argv ≡ true → (has w c.argv ≡ true) ⊎ ((p ≤ w) × (w < e))

-- The parser gives a command that satisfies `P`, or it writes outside of `argv` and `O` holds; its fuel
-- does not run out.
abbrev pub Gives : (Command → Type 0) → Type 0 → Parsed → Type 0
Gives P O no_fuel = ⊥
Gives P O outside_argv = O
Gives P O (parsed c) = P c

Gives-mono :
    {P Q : Command → Type 0} {O U : Type 0} (o : Parsed)
    → Gives P O o
    → ((c : Command) → P c → Q c)
    → (O → U)
    → Gives Q U o
Gives-mono no_fuel h weaken over = absurd h
Gives-mono outside_argv h weaken over = over h
Gives-mono (parsed c) h weaken over = weaken c h

has-append : (w : ℕ) (l : List ℕ) (q : ℕ) → has w (l ++ q ∷ []) ≡ true → (has w l ≡ true) ⊎ (w ≡ q)
has-append w [] q h = inr (ground arith)
has-append w (x ∷ l) q h = elim (Bool-cases (w == x)) [
  | inl e ↦ inl (rw e)
  | inr e ↦ rw e (has-append w l q (rw e at h))
]

-- a step from `c` to `c1`, which starts at `p`, and one from there
advance :
    (p q e : ℕ) (c c1 d : Command)
    → p < q
    → q ≤ e
    → Cut p e c.buf c1.buf
    → length c1.argv ≤ length c.argv + 1
    → ((w : ℕ) → has w c1.argv ≡ true → (has w c.argv ≡ true) ⊎ ((p ≤ w) × (w < e)))
    → Progress q e c1 d
    → Progress p e c d
advance p q e c c1 d lt le cut argc words x = record {
  outside = all.outside;
  zeroed = all.zeroed;
  fits = x.fits;
  count = let n = x.count in omega arith;
  words = λ w h. later w (x.words w h);
}
  where
    all : Cut p e c.buf d.buf
    all =
        Cut-trans p q e c.buf c1.buf d.buf (omega arith) cut
          (record { outside = x.outside; zeroed = x.zeroed })

    later :
        (w : ℕ)
        → (has w c1.argv ≡ true) ⊎ ((q ≤ w) × (w < e))
        → (has w c.argv ≡ true) ⊎ ((p ≤ w) × (w < e))
    later w (inl h) = words w h
    later w (inr h) = inr (omega (arith, h), h.1)

-- The words of `c` and the bytes from `p` to `e` are at least as many as `argv` has room for.
abbrev TooMany : (p e : ℕ) → Command → Type 0
TooMany p e c = 32 ≤ length c.argv + (e - p)

stay :
    (p e : ℕ) (c : Command) (g : ℕ → ℕ)
    → Cut p e c.buf g
    → Gives (Progress p e c) (TooMany p e c) (finish (record c { buf = g }))
unfolding finish
stay p e c g cut = elim (Bool-cases (ltb (length c.argv) 32)) [
  | inl lt ↦ rw lt (record {
    outside = cut.outside;
    zeroed = cut.zeroed;
    fits = ground arith;
    count = omega arith;
    words = λ w h. inl h;
  })
  | inr ge ↦ rw ge (let le : 32 ≤ length c.argv = ground arith in omega (arith, le))
]

-- Behind a redirection sign at `q`: where the name of the file ends.
name_end :
    (fuel : ℕ) (g : ℕ → ℕ) (q e : ℕ)
    → g e ≡ 0
    → q < e
    → (q < skip_name fuel (poke g q 0) (skip_spaces fuel g (q + 1)))
      × (skip_name fuel (poke g q 0) (skip_spaces fuel g (q + 1)) ≤ e)
name_end fuel g q e end lt =
    let name = skip_spaces_lem fuel g (q + 1) e end (omega arith) in
    let apart : (q == e) ≡ false = ground arith in
    let r = skip_name_lem fuel (poke g q 0) (skip_spaces fuel g (q + 1)) e (rw apart end) name.1 in
    (omega (arith, name.0, r.0), r.1)

parse_from_lem :
    (fuel : ℕ) (c : Command) (p e : ℕ)
    → c.buf e ≡ 0
    → p ≤ e
    → e < p + fuel
    → Gives (Progress p e c) (TooMany p e c) (parse_from fuel c p)
unfolding parse_from
parse_from_lem zero c p e end le enough = absurd (omega arith)
parse_from_lem (suc fuel) c p e end le enough =
    let b = skip_blanks_lem fuel c.buf p e end le (omega arith) in
    let g = (skip_blanks fuel c.buf p).0 in
    let q = (skip_blanks fuel c.buf p).1 in
    let end' : g e ≡ 0 = b.cut.outside e (inr (omega arith)) ∙ end in
    let step =
      λ (c1 : Command) (r : ℕ) (lt : p < r) (in_line : r ≤ e) (cut : Cut p e c.buf c1.buf)
          (argc : length c1.argv ≤ length c.argv + 1)
          (words : (w : ℕ) → has w c1.argv ≡ true → (has w c.argv ≡ true) ⊎ ((p ≤ w) × (w < e))).
        Gives-mono {U = TooMany p e c} (parse_from fuel c1 r)
          (parse_from_lem fuel c1 r e (cut.outside e (inr (omega arith)) ∙ end) in_line
            (omega arith))
          (λ d x. advance p r e c c1 d lt in_line cut argc words x) (λ o. omega (arith, o)) in
    elim (Bool-cases (c.buf p == 0)) [
      | inl z ↦ rw z (stay p e c c.buf (record { outside = λ a h. refl; zeroed = λ a. inl refl }))
      | inr z ↦ rw z (elim (Bool-cases (g q == 0)) [
        | inl y ↦ rw y (stay p e c g b.cut)
        | inr y ↦
            let inside : q ≢ e = λ w. absurd (let x : g q ≡ 0 = rw w end' in ground arith) in
            let low = b.within.0 in
            let high : q < e = let h = b.within.1 in omega arith in
            let sign = name_end fuel g q e end' high in
            let poked =
              Cut-trans p q e c.buf g (poke g q 0) low b.cut
                (Cut-poke q q e g (omega arith) high) in
            rw y (elim (Bool-cases (g q == b'<')) [
              | inl x ↦
                  rw x (
                    step _ _ (omega (arith, low, sign.0)) sign.1 poked (omega arith) (λ w h. inl h))
              | inr x ↦ rw x (elim (Bool-cases (g q == b'>')) [
                | inl v ↦ rw v (
                    step _ _ (omega (arith, low, sign.0)) sign.1 poked (omega arith) (λ w h. inl h))
                | inr v ↦
                    let first =
                      skip_word_first fuel g q e (omega (arith, low)) end' (omega arith)
                        (let s = b.stops in ground arith) in
                    let last = (skip_word_lem fuel g q e end' (omega arith)).1 in
                    rw v (elim (Bool-cases (ltb (length c.argv) 32)) [
                      | inl room ↦ rw room (
                          step _ _ (omega (arith, low, first)) last b.cut
                            (rw (length-append c.argv (q ∷ [])) (omega arith))
                            (λ w h. new_word w q low high (has-append w c.argv q h)))
                      | inr full ↦
                          rw full (let le : 32 ≤ length c.argv = ground arith in omega (arith, le))
                    ])
              ])
            ])
      ])
    ]
  where
    new_word :
        (w q : ℕ)
        → p ≤ q
        → q < e
        → (has w c.argv ≡ true) ⊎ (w ≡ q)
        → (has w c.argv ≡ true) ⊎ ((p ≤ w) × (w < e))
    new_word w q low high (inl h) = inl h
    new_word w q low high (inr h) = inr (omega arith, omega arith)

-- For a line of `n` bytes that ends at a NUL, and fuel for more than `n` rounds: `parseline` comes to an
-- end. Either it writes to no byte outside of the line, and only zeros, there are at most `n` words and
-- fewer than MAXARGS, 32, and each starts at a byte of the line; or it writes behind the end of `argv`, and
-- the line has 32 bytes or more.
pub parseline_lem :
    (fuel n p : ℕ) (f : ℕ → ℕ)
    → f (p + n) ≡ 0
    → n < fuel
    → Gives
        (λ c.
          ((a : ℕ) → (a < p) ⊎ (p + n ≤ a) → c.buf a ≡ f a)
          × ((a : ℕ) → (c.buf a ≡ f a) ⊎ (c.buf a ≡ 0))
          × (length c.argv ≤ n)
          × (length c.argv < 32)
          × ((w : ℕ) → has w c.argv ≡ true → (p ≤ w) × (w < p + n)))
        (32 ≤ n)
        (parseline fuel f p)
unfolding parseline
parseline_lem fuel n p f end enough =
    let start : Command = record { buf = f; argv = []; infile = 0; outfile = 0 } in
    Gives-mono {U = 32 ≤ n} (parse_from fuel start p)
      (parse_from_lem fuel start p (p + n) end (omega arith) (omega arith))
      (λ c x. (
        x.outside,
        x.zeroed,
        (let k = x.count in omega arith),
        x.fits,
        λ w h. placed w (x.words w h),
      ))
      (λ o. omega (arith, o))
  where
    placed : (w : ℕ) → (false ≡ true) ⊎ ((p ≤ w) × (w < p + n)) → (p ≤ w) × (w < p + n)
    placed w (inl h) = absurd (ground arith)
    placed w (inr h) = h
