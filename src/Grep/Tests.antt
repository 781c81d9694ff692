-- ===== src/Grep/Tests.antt =====
-- Patterns on short texts, and input that `read` cuts inside a line.
use cuhksz_operating_system.Prelude.{ℕ, ◌≡◌, refl, true, false, ◌↔◌, List, [], ◌∷◌, arith}
use cuhksz_operating_system.Grep.{matchstar, matchhere, match, strchr, each_line, grep_from, grep}
use cuhksz_operating_system.Grep.Meaning.{Matches, match-Matches}
use cuhksz_operating_system.Grep.Lines.{NoZero, matching, concat, Fits, grep-eq-matching}

-- `^ab*$` on "abb" and on "abc"
abbrev pattern : List ℕ
pattern = b'^' ∷ b'a' ∷ b'b' ∷ b'*' ∷ b'$' ∷ []

found : match pattern (b'a' ∷ b'b' ∷ b'b' ∷ []) ≡ true
unfolding match matchhere matchstar
found = refl

not_found : match pattern (b'a' ∷ b'b' ∷ b'c' ∷ []) ≡ false
unfolding match matchhere matchstar
not_found = refl

-- The lines "b" and "ab", cut after the second "a"; the rest "x" has no newline.
abbrev chunks : List (List ℕ)
chunks = (b'b' ∷ 10 ∷ b'a' ∷ []) ∷ (b'b' ∷ 10 ∷ b'x' ∷ []) ∷ []

written : grep pattern chunks ≡ b'a' ∷ b'b' ∷ 10 ∷ []
unfolding grep_from each_line strchr match matchhere matchstar
written = refl

chunks-Fits : Fits pattern [] chunks
unfolding Fits each_line strchr
chunks-Fits = (omega arith, refl, (omega arith, refl, tt))

chunks-NoZero : NoZero (concat chunks)
unfolding NoZero concat
chunks-NoZero = (
  λ h. omega (arith, h),
  (
    λ h. omega (arith, h),
    (
      λ h. omega (arith, h),
      (λ h. omega (arith, h), (λ h. omega (arith, h), (λ h. omega (arith, h), tt))),
    ),
  ),
)

match-Matches_example :
    (match pattern (b'a' ∷ b'b' ∷ b'b' ∷ []) ≡ true) ↔ Matches pattern (b'a' ∷ b'b' ∷ b'b' ∷ [])
match-Matches_example = match-Matches pattern (b'a' ∷ b'b' ∷ b'b' ∷ [])

grep-eq-matching_example : grep pattern chunks ≡ matching pattern [] (concat chunks)
grep-eq-matching_example = grep-eq-matching pattern chunks chunks-NoZero chunks-Fits
