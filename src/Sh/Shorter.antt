-- ===== src/Sh/Shorter.antt =====
-- sh.c: a token makes the line shorter.
use cuhksz_operating_system.Prelude.{
  ℕ, ◌≤◌, ◌<◌, ◌≡◌, ◌⊎◌, inl, inr, refl, sym, ap, ◌∙◌, Bool, true, false, List, [], ◌∷◌, ◌==◌,
  length, arith, Bool-cases,
}
use cuhksz_operating_system.Sh.{
  is_space, is_symbol, skip, take_word, after_greater, token, gettoken, peek,
}

pub length-skip : (s : List ℕ) → length (skip s) ≤ length s
unfolding skip
length-skip [] = omega arith
length-skip (c ∷ s) = ground (arith, length-skip s)

length-take_word : (s : List ℕ) → length (take_word s).1 ≤ length s
unfolding take_word
length-take_word [] = omega arith
length-take_word (c ∷ s) = ground (arith, length-take_word s)

-- A line without space in front.
abbrev IsTrim : List ℕ → Type 0
IsTrim [] = Unit
IsTrim (c ∷ s) = is_space c ≡ false

skip-IsTrim : (s : List ℕ) → IsTrim (skip s)
unfolding skip
skip-IsTrim [] = tt
skip-IsTrim (c ∷ s) = elim (Bool-cases (is_space c)) [
  | inl e ↦ rw (e, skip) (skip-IsTrim s)
  | inr e ↦ rw (e, skip) e
]

length-after_greater : (s : List ℕ) → length (after_greater s).2 ≤ length s
length-after_greater [] = omega arith
length-after_greater (d ∷ s) = ground (arith, length-skip s, length-skip (d ∷ s))

-- A token takes a byte.
length-token : (c : ℕ) (s : List ℕ) → is_space c ≡ false → length (token (c ∷ s)).2 ≤ length s
unfolding token
length-token c s trim = elim (Bool-cases (c == b'>')) [
  | inl e ↦ rw (e, token) (length-after_greater s)
  | inr e ↦ elim (Bool-cases (is_symbol c)) [
    | inl e' ↦ rw (e, token) (rw e' (length-skip s))
    | inr e' ↦
        let cut : (take_word (c ∷ s)).1 ≡ (take_word s).1 =
          unfold take_word in rw (trim, e', take_word) refl in
        rw (e, token)
          (rw e'
            (omega (arith, length-skip (take_word (c ∷ s)).1, length-take_word s, ap length cut)))
  ]
]

shorter_token :
    (s : List ℕ) → IsTrim s → ((s ≡ []) × (token s ≡ (0, [], []))) ⊎ (length (token s).2 < length s)
unfolding token
shorter_token [] trim = inl (refl, refl)
shorter_token (c ∷ s) trim = inr (omega (arith, length-token c s trim))

-- Either the line is over, or `gettoken` makes it shorter.
pub shorter :
    (s : List ℕ) → ((skip s ≡ []) × (gettoken s ≡ (0, [], []))) ⊎ (length (gettoken s).2 < length s)
shorter s = elim (shorter_token (skip s) (skip-IsTrim s)) [
  | inl h ↦ inl h
  | inr h ↦ inr (omega (arith, h, length-skip s))
]

pub not_longer : (s : List ℕ) → length (gettoken s).2 ≤ length s
not_longer s = elim (shorter s) [
  | inl h ↦ omega (arith, ap (λ (r : ℕ × List ℕ × List ℕ). length r.2) h.1)
  | inr h ↦ omega (arith, h)
]

-- What `peek` sees is there.
pub peeked : (p : ℕ → Bool) (s : List ℕ) → peek p (skip s) ≡ true → length (gettoken s).2 < length s
unfolding peek
peeked p s e = elim (shorter s) [ inl h ↦ absurd (no_peek (ap (peek p) (sym h.0) ∙ e)) | inr h ↦ h ]
  where
    no_peek : false ≡ true → ⊥
    no_peek h = ground (arith, h)
