-- ===== src/Sh/Words.antt =====
-- sh.c: the tokens of what is written.
use cuhksz_operating_system.Prelude.{
  ℕ, ◌≡◌, inl, inr, refl, sym, ap, ◌∙◌, arith, true, false, ◌||◌, List, [], ◌∷◌, ◌==◌, Bool-cases,
  ==→eq, if◌then◌else◌,
}
use cuhksz_operating_system.Sh.{
  Mode, input, truncate, append, is_space, is_symbol, is_redir, is_stop, skip, take_word, token,
  gettoken, mode_of, peek,
}
use cuhksz_operating_system.Sh.Grammar.{IsPlain, IsWord, print_word, sign}

-- A byte that is no symbol is none of them.
not_symbol : (c x : ℕ) → is_symbol x ≡ true → is_symbol c ≡ false → (c == x) ≡ false
not_symbol c x yes_ no_ = elim (Bool-cases (c == x)) [
  | inr e ↦ e
  | inl e ↦ absurd (ground (arith, sym no_ ∙ ap is_symbol (==→eq c x e) ∙ yes_))
]

pub plain-is_redir : (c : ℕ) → is_symbol c ≡ false → is_redir c ≡ false
unfolding is_redir is_symbol
plain-is_redir c e = rw (not_symbol c b'<' refl e) (not_symbol c b'>' refl e)

pub plain-is_stop : (c : ℕ) → is_symbol c ≡ false → is_stop c ≡ false
unfolding is_stop is_symbol
plain-is_stop c e =
    rw (not_symbol c b'|' refl e)
      (rw (not_symbol c b')' refl e) (rw (not_symbol c b'&' refl e) (not_symbol c b';' refl e)))

pub plain-paren : (c : ℕ) → is_symbol c ≡ false → (c == b'(') ≡ false
unfolding is_symbol
plain-paren c e = not_symbol c b'(' refl e

pub plain-greater : (c : ℕ) → is_symbol c ≡ false → (c == b'>') ≡ false
unfolding is_symbol
plain-greater c e = not_symbol c b'>' refl e

space_skipped : (t : List ℕ) → skip (b' ' ∷ t) ≡ skip t
unfolding skip is_space
space_skipped t = refl

pub skip-plain : (c : ℕ) (s : List ℕ) → is_space c ≡ false → skip (c ∷ s) ≡ c ∷ s
unfolding skip
skip-plain c s e = rw e refl

take_word-plain : (w s : List ℕ) → IsPlain w → take_word (print_word w s) ≡ (w, b' ' ∷ s)
unfolding take_word is_space
take_word-plain [] s p = refl
take_word-plain (c ∷ w) s (a, b, p) =
    ap
      (λ (r : List ℕ × List ℕ).
        if is_space c || is_symbol c then ([], c ∷ print_word w s) else (c ∷ r.0, r.1))
      (take_word-plain w s p)
    ∙ rw a (rw b refl)

-- `gettoken` at a word takes the word and the space after it.
pub gettoken-word :
    (w s : List ℕ) → IsWord w → skip s ≡ s → gettoken (print_word w s) ≡ (b'a', w, s)
unfolding token
gettoken-word [] s p trim = absurd p
gettoken-word (c ∷ w) s (a, b, p) trim =
    ap token (skip-plain c (print_word w s) a)
    ∙ rw (plain-greater c b) (
        rw b (
          ap (λ (r : List ℕ × List ℕ). (b'a', r.0, skip r.1)) (take_word-plain (c ∷ w) s (a, b, p))
          ∙ ap (λ t. (b'a', c ∷ w, t)) (space_skipped s ∙ trim)))

pub skip-print_word : (w s : List ℕ) → IsWord w → skip (print_word w s) ≡ print_word w s
skip-print_word [] s p = absurd p
skip-print_word (c ∷ w) s (a, b, p) = skip-plain c (print_word w s) a

-- What does not begin with a space, a redirection or a parenthesis.
pub record IsFresh (s : List ℕ) : Type 0 where
  pub trim : skip s ≡ s
  pub no_file : peek is_redir s ≡ false
  pub no_block : peek (λ c. c == b'(') s ≡ false

pub print_word-IsFresh : (w s : List ℕ) → IsWord w → IsFresh (print_word w s)
unfolding peek
print_word-IsFresh [] s p = absurd p
print_word-IsFresh (c ∷ w) s (a, b, p) = record {
  trim = skip-plain c _ a;
  no_file = plain-is_redir c b;
  no_block = plain-paren c b;
}

pub print_word-goes_on : (w s : List ℕ) → IsWord w → peek is_stop (print_word w s) ≡ false
unfolding peek
print_word-goes_on [] s p = absurd p
print_word-goes_on (c ∷ w) s (a, b, p) = plain-is_stop c b

abbrev pub sign_token : Mode → ℕ
sign_token input = b'<'
sign_token truncate = b'>'
sign_token append = b'+'

-- The sign of a file, before its name.
pub gettoken-sign :
    (mode : Mode) (w s : List ℕ)
    → IsWord w
    → gettoken (sign mode (print_word w s)) ≡ (sign_token mode, [], print_word w s)
unfolding token skip is_space is_symbol
gettoken-sign mode [] s p = absurd p
gettoken-sign input (c ∷ w) s p = ap (λ t. (b'<', [], t)) (skip-print_word (c ∷ w) s p)
gettoken-sign truncate (c ∷ w) s p =
    rw (plain-greater c p.1) (ap (λ t. (b'>', [], t)) (skip-print_word (c ∷ w) s p))
gettoken-sign append (c ∷ w) s p = ap (λ t. (b'+', [], t)) (skip-print_word (c ∷ w) s p)

pub mode_of-sign_token : (mode : Mode) → mode_of (sign_token mode) ≡ mode
mode_of-sign_token input = refl
mode_of-sign_token truncate = refl
mode_of-sign_token append = refl

-- What may stand after a command: the end, or a symbol and more.
pub data Mark : Type 0 where
  over : Mark
  closes : List ℕ → Mark
  to_back : List ℕ → Mark
  then_next : List ℕ → Mark
  into : List ℕ → Mark

abbrev pub after : Mark → List ℕ
after over = []
after (closes s) = b')' ∷ s
after (to_back s) = b'&' ∷ s
after (then_next s) = b';' ∷ s
after (into s) = b'|' ∷ s

pub after-IsFresh : (m : Mark) → IsFresh (after m)
unfolding skip is_space peek is_redir
after-IsFresh over = record { trim = refl; no_file = refl; no_block = refl }
after-IsFresh (closes s) = record { trim = refl; no_file = refl; no_block = refl }
after-IsFresh (to_back s) = record { trim = refl; no_file = refl; no_block = refl }
after-IsFresh (then_next s) = record { trim = refl; no_file = refl; no_block = refl }
after-IsFresh (into s) = record { trim = refl; no_file = refl; no_block = refl }
