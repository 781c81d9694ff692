-- ===== src/Grep/Lines.antt =====
-- The loop of `grep` in grep.c: what it writes does not depend on how `read` cuts the input.
use cuhksz_operating_system.Prelude.{
  ℕ, zero, suc, ◌+◌, ◌<◌, ◌≡◌, ◌≢◌, inl, inr, refl, sym, ap, ◌∙◌, subst, false, none, some, List,
  [], ◌∷◌, ◌++◌, ◌==◌, leb, if◌then◌else◌, length, length-append, arith, Bool-cases, Option-cases,
  ==→eq, ==→ne, ne→==,
}
use mathlib.Core.List.{append-nil, append_assoc}
use cuhksz_operating_system.Grep.{match, strchr, each_line, room, is_empty, grep_from, grep}

-- The lines of the text that match, each with its newline; `line` is what was read of the present one.
-- What follows the last newline is not a line.
pub matching : List ℕ → List ℕ → List ℕ → List ℕ
matching pattern line [] = []
matching pattern line (c ∷ text) =
    let over = matching pattern [] text in
    let longer = matching pattern (line ++ c ∷ []) text in
    if c == 10 then (if match pattern line then line ++ 10 ∷ over else over) else longer

pub NoNewline : List ℕ → Type 0
NoNewline [] = Unit
NoNewline (c ∷ line) = (c ≢ 10) × NoNewline line

-- No byte is zero.
unfoldable pub NoZero : List ℕ → Type 0
NoZero [] = Unit
NoZero (c ∷ p) = (c ≢ 0) × NoZero p

NoZero-right : (p q : List ℕ) → NoZero (p ++ q) → NoZero q
unfolding NoZero
NoZero-right [] q h = h
NoZero-right (c ∷ p) q h = NoZero-right p q h.1

NoZero-left : (p q : List ℕ) → NoZero (p ++ q) → NoZero p
unfolding NoZero
NoZero-left [] q h = tt
NoZero-left (c ∷ p) q h = (h.0, NoZero-left p q h.1)

NoZero-append : (p q : List ℕ) → NoZero p → NoZero q → NoZero (p ++ q)
unfolding NoZero
NoZero-append [] q h k = k
NoZero-append (c ∷ p) q h k = (h.0, NoZero-append p q h.1 k)

strchr-some :
    (p line after : List ℕ)
    → NoZero p
    → strchr p ≡ some (line, after)
    → NoNewline line × (p ≡ line ++ 10 ∷ after)
unfolding strchr NoNewline NoZero
strchr-some [] line after whole e = ground (arith, e)
strchr-some (c ∷ p) line after whole e = elim (Bool-cases (c == 10)) [
  | inl h ↦
      let e₁ : [] ≡ line = ground (arith, e, h, ne→== c 0 whole.0) in
      let e₂ : p ≡ after = ground (arith, e, h, ne→== c 0 whole.0) in
      (
        subst NoNewline e₁ tt,
        ap (λ k. k ∷ p) (==→eq c 10 h) ∙ ap (λ k. 10 ∷ k) e₂ ∙ ap (λ l. l ++ 10 ∷ after) e₁,
      )
  | inr h ↦ elim (Option-cases (strchr p)) [
    | inl e' ↦ absurd (ground (arith, e, e', h, ne→== c 0 whole.0))
    | inr (r, e') ↦
        let e₁ : c ∷ r.0 ≡ line = ground (arith, e, e', h, ne→== c 0 whole.0) in
        let e₂ : r.1 ≡ after = ground (arith, e, e', h, ne→== c 0 whole.0) in
        let ih = strchr-some p r.0 r.1 whole.1 e' in
        (
          subst NoNewline e₁ (==→ne c 10 h, ih.0),
          ap (λ l. c ∷ l) ih.1 ∙ ap (λ l. c ∷ r.0 ++ 10 ∷ l) e₂ ∙ ap (λ l. l ++ 10 ∷ after) e₁,
        )
  ]
]

strchr-none : (p : List ℕ) → NoZero p → strchr p ≡ none → NoNewline p
unfolding strchr NoNewline NoZero
strchr-none [] whole e = tt
strchr-none (c ∷ p) whole e = elim (Option-cases (strchr p)) [
  | inl e' ↦ (ground (arith, e, ne→== c 0 whole.0), strchr-none p whole.1 e')
  | inr (r, e') ↦ absurd (ground (arith, e, e', ne→== c 0 whole.0))
]

matching-line :
    (pattern cur line text : List ℕ)
    → NoNewline line
    → matching pattern cur (line ++ text) ≡ matching pattern (cur ++ line) text
unfolding matching NoNewline
matching-line pattern cur [] text n = ap (λ l. matching pattern l text) (sym (append-nil cur))
matching-line pattern cur (c ∷ line) text n = rw (ne→== c 10 n.0) (
    matching-line pattern (cur ++ c ∷ []) line text n.1
    ∙ ap (λ l. matching pattern l text) (append_assoc cur (c ∷ []) line))

-- A whole line at the front of the text.
matching-one :
    (pattern line after : List ℕ)
    → NoNewline line
    → matching pattern [] (line ++ 10 ∷ after) ≡ (
        if match pattern line
        then line ++ 10 ∷ matching pattern [] after
        else matching pattern [] after)
unfolding matching
matching-one pattern line after n = matching-line pattern [] line (10 ∷ after) n ∙ ground arith

-- What `each_line` writes and leaves, before any more text.
each_line_lem :
    (fuel : ℕ) (pattern p more : List ℕ)
    → length p < fuel
    → NoZero p
    → (matching pattern [] (p ++ more)
        ≡ (each_line fuel pattern p).0
          ++ matching pattern [] ((each_line fuel pattern p).1 ++ more))
      × NoNewline (each_line fuel pattern p).1
      × NoZero (each_line fuel pattern p).1
unfolding each_line NoZero
each_line_lem zero pattern p more h whole = absurd (omega arith)
each_line_lem (suc fuel) pattern p more h z = elim (Option-cases (strchr p)) [
  | inl e ↦ rw (e, each_line) (refl, strchr-none p z e, z)
  | inr ((line, after), e) ↦
      let s = strchr-some p line after z e in
      let rest_z : NoZero after = (NoZero-right line (10 ∷ after) (subst NoZero s.1 z)).1 in
      let size : length p ≡ length line + suc (length after) =
        ap length s.1 ∙ length-append line (10 ∷ after) in
      let ih = each_line_lem fuel pattern after more (omega (arith, size)) rest_z in
      let whole : p ++ more ≡ line ++ 10 ∷ (after ++ more) =
        ap (λ l. l ++ more) s.1 ∙ append_assoc line (10 ∷ after) more in
      rw (e, each_line)
        (
          ap (matching pattern []) whole
              ∙ matching-one pattern line (after ++ more) s.0
              ∙ elim (Bool-cases (match pattern line)) [
                | inl y ↦ rw y (
                    ap (λ l. line ++ 10 ∷ l) ih.0
                    ∙ sym (append_assoc line (10 ∷ (each_line fuel pattern after).0) _))
                | inr n ↦ rw n ih.0
              ],
          ih.1,
          ih.2,
        )
]

unfoldable pub concat : List (List ℕ) → List ℕ
concat [] = []
concat (xs ∷ xss) = xs ++ concat xss

-- Each time that `read` is called there is room in the buffer, and it brings something.
unfoldable pub Fits : List ℕ → List ℕ → List (List ℕ) → Type 0
Fits pattern left [] = Unit
Fits pattern left (chunk ∷ chunks) =
    (length left < room)
    × (is_empty chunk ≡ false)
    × Fits pattern (each_line (length (left ++ chunk) + 1) pattern (left ++ chunk)).1 chunks

grep_from-eq-matching :
    (pattern left : List ℕ) (chunks : List (List ℕ))
    → NoNewline left
    → NoZero left
    → NoZero (concat chunks)
    → Fits pattern left chunks
    → grep_from pattern left chunks ≡ matching pattern [] (left ++ concat chunks)
unfolding grep_from concat Fits
grep_from-eq-matching pattern left [] n z zs f =
    sym (matching-line pattern [] left [] n ∙ at_end pattern left)
  where
    at_end : (pattern left : List ℕ) → matching pattern left [] ≡ []
    at_end pattern left = unfold matching in refl
grep_from-eq-matching pattern left (chunk ∷ chunks) n z zs f =
    let text = left ++ chunk in
    let r =
      each_line_lem (length text + 1) pattern text (concat chunks) (omega arith)
        (NoZero-append left chunk z (NoZero-left chunk (concat chunks) zs)) in
    let ih =
      grep_from-eq-matching pattern (each_line (length text + 1) pattern text).1 chunks r.1 r.2
        (NoZero-right chunk (concat chunks) zs) f.2 in
    let open_ : leb room (length left) ≡ false = ground (arith, f.0) in
    rw (open_, f.1)
      (ap (λ l. (each_line (length text + 1) pattern text).0 ++ l) ih
        ∙ sym r.0
        ∙ ap (matching pattern []) (append_assoc left chunk (concat chunks)))

-- For an input without zero bytes, however `read` cuts it, as long as there is room in the buffer each
-- time that it is called and it brings something up to the end: `grep` writes the lines of the whole input that match, in their order, each with its newline. What
-- follows the last newline is not looked at.
pub grep-eq-matching :
    (pattern : List ℕ) (chunks : List (List ℕ))
    → NoZero (concat chunks)
    → Fits pattern [] chunks
    → grep pattern chunks ≡ matching pattern [] (concat chunks)
unfolding NoNewline NoZero
grep-eq-matching pattern chunks z f = grep_from-eq-matching pattern [] chunks tt tt z f
