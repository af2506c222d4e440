-- ===== src/Ulib/Memmove.antt =====
-- What `memmove` and `memset` of Proyecto3/user/ulib.c leave in memory.
use oscraft.Common.{
  ℕ, zero, suc, ◌+◌, ◌-◌, ◌%◌, ◌≤◌, ◌<◌, ◌≡◌, ◌≢◌, refl, true, false, ◌&&◌, ltb, leb, ◌==◌, ==_iff,
  ==_ne, ==_refl, if◌then◌else◌, Bool-cases, inl, inr, arith, ap,
}
use oscraft.Ulib.{poke, copy_up, copy_down, memmove, memset}

-- `f` with the `n` bytes from `src` at `dst`, all read before any is written
abbrev pub moved : ℕ → ℕ → ℕ → (ℕ → ℕ) → ℕ → ℕ
moved dst src n f a = if leb dst a && ltb a (dst + n) then f (src + (a - dst)) else f a

poke_other : (f : ℕ → ℕ) (p v a : ℕ) → p ≢ a → poke f p v a ≡ f a
poke_other f p v a ne = rw (==_ne p a ne) refl

poke_self : (f : ℕ → ℕ) (p v : ℕ) → poke f p v p ≡ v
poke_self f p v = rw (==_refl p) refl

moved_in :
    (dst src n : ℕ) (f : ℕ → ℕ) (a : ℕ)
    → dst ≤ a
    → a < dst + n
    → moved dst src n f a ≡ f (src + (a - dst))
moved_in dst src n f a lo hi =
    let inside : (leb dst a && ltb a (dst + n)) ≡ true = ground arith in rw inside refl

moved_low : (dst src n : ℕ) (f : ℕ → ℕ) (a : ℕ) → a < dst → moved dst src n f a ≡ f a
moved_low dst src n f a lo =
    let out : (leb dst a && ltb a (dst + n)) ≡ false = ground arith in rw out refl

moved_high : (dst src n : ℕ) (f : ℕ → ℕ) (a : ℕ) → dst + n ≤ a → moved dst src n f a ≡ f a
moved_high dst src n f a lo =
    let out : (leb dst a && ltb a (dst + n)) ≡ false = ground arith in rw out refl

copy_up_lem :
    (n dst src : ℕ) (f : ℕ → ℕ) (a : ℕ) → dst ≤ src → copy_up n dst src f a ≡ moved dst src n f a
unfolding copy_up
copy_up_lem zero dst src f a h = elim (Bool-cases (ltb a dst)) [
  | inl e ↦ rw (moved_low dst src 0 f a (ground arith)) refl
  | inr e ↦ rw (moved_high dst src 0 f a (ground arith)) refl
]
copy_up_lem (suc n) dst src f a h =
    let g = poke f dst (f src) in
    let step = copy_up_lem n (dst + 1) (src + 1) g a (omega arith) in
    elim (Bool-cases (ltb a (dst + 1))) [
      | inl low ↦
          rw (step, moved_low (dst + 1) (src + 1) n g a (ground arith))
            (first g refl (ground arith))
      | inr up ↦ elim (Bool-cases (ltb a (dst + suc n))) [
        | inl inside ↦
            rw
              (
                step,
                moved_in (dst + 1) (src + 1) n g a (ground arith) (ground arith),
                moved_in dst src (suc n) f a (ground arith) (ground arith),
                poke_other f dst (f src) (src + 1 + (a - (dst + 1))) (λ z. absurd (omega arith)),
              )
              (ap f (let l : dst + 1 ≤ a = ground arith in omega arith))
        | inr out ↦
            rw
              (
                step,
                moved_high (dst + 1) (src + 1) n g a (ground arith),
                moved_high dst src (suc n) f a (ground arith),
              )
              (poke_other f dst (f src) a (ground arith))
      ]
    ]
  where
    first : (g : ℕ → ℕ) → g ≡ poke f dst (f src) → a ≤ dst → g a ≡ moved dst src (suc n) f a
    first g e low = elim (Bool-cases (dst == a)) [
      | inl z ↦
          let same = (==_iff dst a).0 z in
          rw (e, moved_in dst src (suc n) f a (omega arith) (omega arith), z) (ap f (omega arith))
      | inr z ↦ rw (e, moved_low dst src (suc n) f a (ground arith), z) refl
    ]

copy_down_lem :
    (n dst src : ℕ) (f : ℕ → ℕ) (a : ℕ) → src ≤ dst → copy_down n dst src f a ≡ moved dst src n f a
unfolding copy_down
copy_down_lem zero dst src f a h = elim (Bool-cases (ltb a dst)) [
  | inl e ↦ rw (moved_low dst src 0 f a (ground arith)) refl
  | inr e ↦ rw (moved_high dst src 0 f a (ground arith)) refl
]
copy_down_lem (suc n) dst src f a h =
    let g = poke f (dst + n) (f (src + n)) in
    let step = copy_down_lem n dst src g a h in
    elim (Bool-cases (ltb a dst)) [
      | inl low ↦
          rw
            (
              step,
              moved_low dst src n g a (ground arith),
              moved_low dst src (suc n) f a (ground arith),
            )
            (poke_other f (dst + n) (f (src + n)) a (ground arith))
      | inr up ↦ elim (Bool-cases (ltb a (dst + n))) [
        | inl inside ↦
            rw
              (
                step,
                moved_in dst src n g a (ground arith) (ground arith),
                moved_in dst src (suc n) f a (ground arith) (ground arith),
              )
              (poke_other f (dst + n) (f (src + n)) (src + (a - dst)) (ground arith))
        | inr out ↦ rw (step, moved_high dst src n g a (ground arith)) (last (ground arith))
      ]
    ]
  where
    last : dst + n ≤ a → poke f (dst + n) (f (src + n)) a ≡ moved dst src (suc n) f a
    last le = elim (Bool-cases (dst + n == a)) [
      | inl z ↦
          let same = (==_iff (dst + n) a).0 z in
          rw (moved_in dst src (suc n) f a (omega arith) (omega arith), z) (ap f (omega arith))
      | inr z ↦ rw (moved_high dst src (suc n) f a (ground arith), z) refl
    ]

-- `memmove` leaves at `dst` the `n` bytes that stood at `src`, also where the two regions overlap,
-- and changes no other byte.
pub memmove_lem : (dst src n : ℕ) (f : ℕ → ℕ) (a : ℕ) → memmove dst src n f a ≡ moved dst src n f a
unfolding memmove
memmove_lem dst src n f a = elim (Bool-cases (ltb dst src)) [
  | inl e ↦ rw e (copy_up_lem n dst src f a (ground arith))
  | inr e ↦ rw e (copy_down_lem n dst src f a (ground arith))
]

-- `memset` leaves the low byte of its argument in the `n` bytes from `dst` and changes no other.
pub memset_lem :
    (n dst c : ℕ) (f : ℕ → ℕ) (a : ℕ)
    → memset dst c n f a ≡ (if leb dst a && ltb a (dst + n) then c % 256 else f a)
unfolding memset
memset_lem zero dst c f a =
    let out : (leb dst a && ltb a (dst + 0)) ≡ false = ground arith in rw out refl
memset_lem (suc n) dst c f a =
    let step = memset_lem n (dst + 1) c (poke f dst (c % 256)) a in
    elim (Bool-cases (dst == a)) [
      | inl z ↦
          let same = (==_iff dst a).0 z in
          let out : (leb (dst + 1) a && ltb a (dst + 1 + n)) ≡ false = ground arith in
          let inside : (leb dst a && ltb a (dst + suc n)) ≡ true = ground arith in
          rw (step, out, inside, z) refl
      | inr z ↦
          let same : (leb (dst + 1) a && ltb a (dst + 1 + n)) ≡ (leb dst a && ltb a (dst + suc n)) =
            ground arith in
          rw (step, same, z) refl
    ]
