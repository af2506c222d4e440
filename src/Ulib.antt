-- ===== src/Ulib.antt =====
-- Proyecto3/user/ulib.c: the string and memory functions of a user program, over its memory `f` of
-- bytes. A loop that ends at a NUL runs on fuel.
pub mod Memmove
pub mod Strings
use oscraft.Common.{
  ℕ, zero, suc, ◌+◌, ◌-◌, ◌*◌, ◌%◌, Bool, true, false, ◌&&◌, not, Option, none, some, List, [], ◌∷◌,
  ltb, leb, ◌==◌, if◌then◌else◌,
}

abbrev pub poke : (ℕ → ℕ) → ℕ → ℕ → ℕ → ℕ
poke f p v a = if p == a then v else f a

-- `while (n-- > 0) *dst++ = *src++;`
unfoldable pub copy_up : ℕ → ℕ → ℕ → (ℕ → ℕ) → ℕ → ℕ
copy_up zero dst src f = f
copy_up (suc n) dst src f = copy_up n (dst + 1) (src + 1) (poke f dst (f src))

-- `while (n-- > 0) *--dst = *--src;` from the ends `dst + n` and `src + n`
unfoldable pub copy_down : ℕ → ℕ → ℕ → (ℕ → ℕ) → ℕ → ℕ
copy_down zero dst src f = f
copy_down (suc n) dst src f = copy_down n dst src (poke f (dst + n) (f (src + n)))

unfoldable pub memmove : ℕ → ℕ → ℕ → (ℕ → ℕ) → ℕ → ℕ
unfolding copy_up copy_down
memmove dst src n f = if ltb dst src then copy_up n dst src f else copy_down n dst src f

unfoldable pub memcpy : ℕ → ℕ → ℕ → (ℕ → ℕ) → ℕ → ℕ
unfolding memmove
memcpy dst src n f = memmove dst src n f

-- `cdst[i] = c` for `n` bytes from `dst`
unfoldable pub memset : ℕ → ℕ → ℕ → (ℕ → ℕ) → ℕ → ℕ
memset dst c zero f = f
memset dst c (suc n) f = memset (dst + 1) c n (poke f dst (c % 256))

-- the loop of `strlen` with `n` characters passed
unfoldable pub strlen_from : ℕ → ℕ → ℕ → (ℕ → ℕ) → Option ℕ
strlen_from zero n s f = none
strlen_from (suc fuel) n s f =
    let rest = strlen_from fuel (n + 1) s f in if f (s + n) == 0 then some n else rest

unfoldable pub strlen : ℕ → ℕ → (ℕ → ℕ) → Option ℕ
unfolding strlen_from
strlen fuel s f = strlen_from fuel 0 s f

-- `while ((*s++ = *t++) != 0);`
unfoldable pub strcpy : ℕ → ℕ → ℕ → (ℕ → ℕ) → Option (ℕ → ℕ)
strcpy zero s t f = none
strcpy (suc fuel) s t f =
    let g = poke f s (f t) in
    let rest = strcpy fuel (s + 1) (t + 1) g in if f t == 0 then some g else rest

-- the two bytes whose difference `strcmp` returns
unfoldable pub strcmp : ℕ → ℕ → ℕ → (ℕ → ℕ) → Option (ℕ × ℕ)
strcmp zero p q f = none
strcmp (suc fuel) p q f =
    let rest = strcmp fuel (p + 1) (q + 1) f in
    if not (f p == 0) && (f p == f q) then rest else some (f p, f q)

-- 0 for a character that does not occur
unfoldable pub strchr : ℕ → ℕ → ℕ → (ℕ → ℕ) → Option ℕ
strchr zero s c f = none
strchr (suc fuel) s c f =
    let rest = strchr fuel (s + 1) c f in
    if f s == 0 then some 0 else if f s == c then some s else rest

-- the loop of `atoi`; the value wraps at 32 bits
unfoldable pub atoi_from : ℕ → ℕ → ℕ → (ℕ → ℕ) → Option ℕ
atoi_from zero n s f = none
atoi_from (suc fuel) n s f =
    let rest = atoi_from fuel ((n * 10 + f s - b'0') % 4294967296) (s + 1) f in
    if leb b'0' (f s) && leb (f s) b'9' then rest else some n

unfoldable pub atoi : ℕ → ℕ → (ℕ → ℕ) → Option ℕ
unfolding atoi_from
atoi fuel s f = atoi_from fuel 0 s f

-- the two bytes that differ first, and `none` for 0
unfoldable pub memcmp : ℕ → ℕ → ℕ → (ℕ → ℕ) → Option (ℕ × ℕ)
memcmp zero p q f = none
memcmp (suc n) p q f =
    let rest = memcmp n (p + 1) (q + 1) f in if f p == f q then rest else some (f p, f q)
