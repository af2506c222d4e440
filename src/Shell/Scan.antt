-- ===== src/Shell/Scan.antt =====
-- The loops of `parseline` of Proyecto1/user/parser.c that pass over blanks, names and words.
use oscraft.Common.{
  ℕ, zero, suc, ◌+◌, ◌≤◌, ◌<◌, ◌≡◌, ◌≢◌, refl, ◌∙◌, Bool, true, false, ◌&&◌, not, ◌⊎◌, arith, ◌==◌,
  Bool-cases, inl, inr,
}
use oscraft.Shell.Parser.{poke, is_blank, skip_blanks, skip_spaces, skip_name, skip_word}

-- an address from `p` to `e`
abbrev pub Within : (p e q : ℕ) → Type 0
Within p e q = (p ≤ q) × (q ≤ e)

pub skip_spaces_lem :
    (fuel : ℕ) (f : ℕ → ℕ) (p e : ℕ) → f e ≡ 0 → p ≤ e → Within p e (skip_spaces fuel f p)
unfolding skip_spaces
skip_spaces_lem zero f p e end le = (omega arith, le)
skip_spaces_lem (suc fuel) f p e end le = elim (Bool-cases (f p == b' ')) [
  | inl h ↦
      let inside : p ≢ e = λ z. absurd (let x : f p ≡ 0 = rw z end in ground arith) in
      let r = skip_spaces_lem fuel f (p + 1) e end (omega arith) in rw h (omega arith, omega arith)
  | inr h ↦ rw h (omega arith, le)
]

pub skip_name_lem :
    (fuel : ℕ) (f : ℕ → ℕ) (p e : ℕ) → f e ≡ 0 → p ≤ e → Within p e (skip_name fuel f p)
unfolding skip_name
skip_name_lem zero f p e end le = (omega arith, le)
skip_name_lem (suc fuel) f p e end le = elim (Bool-cases (not (f p == 0) && not (is_blank (f p)))) [
  | inl h ↦
      let inside : p ≢ e = λ z. absurd (let x : f p ≡ 0 = rw z end in ground arith) in
      let r = skip_name_lem fuel f (p + 1) e end (omega arith) in rw h (omega arith, omega arith)
  | inr h ↦ rw h (omega arith, le)
]

abbrev pub in_word : ℕ → Bool
in_word b = not (b == 0) && (not (is_blank b) && (not (b == b'<') && not (b == b'>')))

pub skip_word_lem :
    (fuel : ℕ) (f : ℕ → ℕ) (p e : ℕ) → f e ≡ 0 → p ≤ e → Within p e (skip_word fuel f p)
unfolding skip_word
skip_word_lem zero f p e end le = (omega arith, le)
skip_word_lem (suc fuel) f p e end le = elim (Bool-cases (in_word (f p))) [
  | inl h ↦
      let inside : p ≢ e = λ z. absurd (let x : f p ≡ 0 = rw z end in ground arith) in
      let r = skip_word_lem fuel f (p + 1) e end (omega arith) in rw h (omega arith, omega arith)
  | inr h ↦ rw h (omega arith, le)
]

-- a word is not empty
pub skip_word_first :
    (fuel : ℕ) (f : ℕ → ℕ) (p e : ℕ)
    → 0 < fuel
    → f e ≡ 0
    → p ≤ e
    → in_word (f p) ≡ true
    → p < skip_word fuel f p
unfolding skip_word
skip_word_first zero f p e some_fuel end le h = absurd (omega arith)
skip_word_first (suc fuel) f p e some_fuel end le h =
    let inside : p ≢ e = λ z. absurd (let x : f p ≡ 0 = rw z end in ground arith) in
    let r = skip_word_lem fuel f (p + 1) e end (omega arith) in rw h (omega arith)

-- The bytes from `p` to before `e` may have become zeros, and all others are the same.
pub record Cut (p e : ℕ) (f g : ℕ → ℕ) : Type 0 where
  pub outside : (a : ℕ) → (a < p) ⊎ (e ≤ a) → g a ≡ f a
  pub zeroed : (a : ℕ) → (g a ≡ f a) ⊎ (g a ≡ 0)

pub Cut-poke : (p q e : ℕ) (f : ℕ → ℕ) → p ≤ q → q < e → Cut p e f (poke f q 0)
Cut-poke p q e f le lt = record {
  outside = λ a h. let apart : (q == a) ≡ false = ground arith in rw apart;
  zeroed = λ a. elim (Bool-cases (q == a)) [ inl z ↦ inr (rw z) | inr z ↦ inl (rw z) ];
}

pub Cut-trans : (p q e : ℕ) (f g h : ℕ → ℕ) → p ≤ q → Cut p e f g → Cut q e g h → Cut p e f h
Cut-trans p q e f g h le x y = record {
  outside = λ a o. y.outside a (sooner a o) ∙ x.outside a o;
  zeroed = λ a. joined a (y.zeroed a) (x.zeroed a);
}
  where
    sooner : (a : ℕ) → (a < p) ⊎ (e ≤ a) → (a < q) ⊎ (e ≤ a)
    sooner a (inl o) = inl (omega arith)
    sooner a (inr o) = inr o

    joined : (a : ℕ) → (h a ≡ g a) ⊎ (h a ≡ 0) → (g a ≡ f a) ⊎ (g a ≡ 0) → (h a ≡ f a) ⊎ (h a ≡ 0)
    joined a (inl y) (inl x) = inl (y ∙ x)
    joined a (inl y) (inr x) = inr (y ∙ x)
    joined a (inr y) x = inr y

-- What `skip_blanks` returns: it stops at a byte that is no blank.
pub record Blanks (p e : ℕ) (f : ℕ → ℕ) (g : ℕ → ℕ) (q : ℕ) : Type 0 where
  pub within : Within p e q
  pub cut : Cut p e f g
  pub stops : is_blank (g q) ≡ false

pub skip_blanks_lem :
    (fuel : ℕ) (f : ℕ → ℕ) (p e : ℕ)
    → f e ≡ 0
    → p ≤ e
    → e ≤ p + fuel
    → Blanks p e f (skip_blanks fuel f p).0 (skip_blanks fuel f p).1
unfolding skip_blanks
skip_blanks_lem zero f p e end le enough = record {
  within = (omega arith, le);
  cut = record { outside = λ a h. refl; zeroed = λ a. inl refl };
  stops = let same : p ≡ e = omega arith in rw (same, end);
}
skip_blanks_lem (suc fuel) f p e end le enough = elim (Bool-cases (is_blank (f p))) [
  | inl h ↦
      let inside : p ≢ e = λ z. absurd (let x : f p ≡ 0 = rw z end in ground arith) in
      let cut = Cut-poke p p e f (omega arith) (omega arith) in
      let r =
        skip_blanks_lem fuel (poke f p 0) (p + 1) e (cut.outside e (inr (omega arith)) ∙ end)
          (omega arith) (omega arith) in
      rw h (record {
        within = (omega (arith, r.within), r.within.1);
        cut = Cut-trans p (p + 1) e f (poke f p 0) _ (omega arith) cut r.cut;
        stops = r.stops;
      })
  | inr h ↦ rw h (record {
    within = (omega arith, le);
    cut = record { outside = λ a x. refl; zeroed = λ a. inl refl };
    stops = h;
  })
]
