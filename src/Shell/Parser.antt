-- ===== src/Shell/Parser.antt =====
-- Proyecto1/user/parser.c: a command line is memory of bytes `f` that ends at a NUL, and a `char *`
-- the address of a byte. Each loop runs on fuel; one more than the length of the line is enough.
use oscraft.Common.{
  ℕ, zero, suc, ◌+◌, Bool, ◌&&◌, ◌||◌, not, Option, none, some, List, [], ◌∷◌, ◌++◌, ◌==◌, ltb,
  length, if◌then◌else◌,
}

abbrev pub poke : (ℕ → ℕ) → ℕ → ℕ → ℕ → ℕ
poke f p v a = if p == a then v else f a

abbrev pub is_blank : ℕ → Bool
is_blank b = (b == b' ') || (b == 10)

-- `while (*p == ' ' || *p == '\n') *p++ = 0;`
unfoldable pub skip_blanks : ℕ → (ℕ → ℕ) → ℕ → (ℕ → ℕ) × ℕ
skip_blanks zero f p = (f, p)
skip_blanks (suc fuel) f p =
    let rest = skip_blanks fuel (poke f p 0) (p + 1) in if is_blank (f p) then rest else (f, p)

-- `while (*p == ' ') p++;`
unfoldable pub skip_spaces : ℕ → (ℕ → ℕ) → ℕ → ℕ
skip_spaces zero f p = p
skip_spaces (suc fuel) f p =
    let rest = skip_spaces fuel f (p + 1) in if f p == b' ' then rest else p

-- `while (*p && *p != ' ' && *p != '\n') p++;`
unfoldable pub skip_name : ℕ → (ℕ → ℕ) → ℕ → ℕ
skip_name zero f p = p
skip_name (suc fuel) f p =
    let rest = skip_name fuel f (p + 1) in
    if not (f p == 0) && not (is_blank (f p)) then rest else p

-- the same, and the word also ends at `<` and `>`
unfoldable pub skip_word : ℕ → (ℕ → ℕ) → ℕ → ℕ
skip_word zero f p = p
skip_word (suc fuel) f p =
    let rest = skip_word fuel f (p + 1) in
    if not (f p == 0) && (not (is_blank (f p)) && (not (f p == b'<') && not (f p == b'>')))
    then rest
    else p

-- MAXARGS of parser.h, the length of the array `argv`
abbrev pub maxargs : ℕ
maxargs = 32

-- `argv` in order, its closing null left out; a null file is 0
pub record Command : Type 0 where
  pub buf : ℕ → ℕ
  pub argv : List ℕ
  pub infile : ℕ
  pub outfile : ℕ

-- How the parser ends: with a command, with a write behind the end of `argv`, after which C defines
-- nothing, or with its fuel used up.
pub data Parsed : Type 0 where
  parsed : Command → Parsed
  outside_argv : Parsed
  no_fuel : Parsed

-- `argv[argc] = 0;`
unfoldable pub finish : Command → Parsed
finish c = if ltb (length c.argv) maxargs then parsed c else outside_argv

-- The outer loop of `parseline` at `p`.
unfoldable pub parse_from : ℕ → Command → ℕ → Parsed
unfolding skip_blanks skip_spaces skip_name skip_word finish
parse_from zero c p = if c.buf p == 0 then finish c else no_fuel
parse_from (suc fuel) c p =
    let blanks = skip_blanks fuel c.buf p in
    let f = blanks.0 in
    let q = blanks.1 in
    let name = skip_spaces fuel f (q + 1) in
    let cut = poke f q 0 in
    let input = parse_from fuel (record c { buf = cut; infile = name }) (skip_name fuel cut name) in
    let output =
      parse_from fuel (record c { buf = cut; outfile = name }) (skip_name fuel cut name) in
    let word =
      parse_from fuel (record c { buf = f; argv = c.argv ++ q ∷ [] }) (skip_word fuel f q) in
    if c.buf p == 0
    then finish c
    else if f q == 0
    then finish (record c { buf = f })
    else if f q == b'<'
    then input
    else if f q == b'>'
    then output
    else if ltb (length c.argv) maxargs
    then word
    else outside_argv

-- the C result is the length of `argv`
unfoldable pub parseline : ℕ → (ℕ → ℕ) → ℕ → Parsed
unfolding parse_from
parseline fuel f p = parse_from fuel (record { buf = f; argv = []; infile = 0; outfile = 0 }) p

-- The text with the first `|` cut out, and the address behind it; `some none` is the null pointer of a
-- text without one, and `none` means that the fuel has run out.
unfoldable pub findpipe : ℕ → (ℕ → ℕ) → ℕ → Option (Option ((ℕ → ℕ) × ℕ))
findpipe zero f p = none
findpipe (suc fuel) f p =
    let rest = findpipe fuel f (p + 1) in
    if f p == 0 then some none else if f p == b'|' then some (some (poke f p 0, p + 1)) else rest
