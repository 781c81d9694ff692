-- ===== src/Grep/Meaning.antt =====
-- What a pattern of grep.c means, apart from how it is searched, and that `match` decides it.
use cuhksz_operating_system.Prelude.{
  ℕ, ◌≡◌, ◌≢◌, ◌⊎◌, inl, inr, refl, ap, ◌∙◌, Bool, true, ◌↔◌, List, [], ◌∷◌, ◌++◌, ◌==◌, arith,
  Bool-cases, ==→eq, ==→ne, ne→==,
}
use cuhksz_operating_system.Grep.{matchstar, is_empty, matchchar, matchhere, match_from, match}

-- A text character fits a pattern character.
abbrev pub Fits : ℕ → ℕ → Type 0
Fits c t = (c ≡ b'.') ⊎ (c ≡ t)

pub AllFit : ℕ → List ℕ → Type 0
AllFit c [] = Unit
AllFit c (t ∷ ts) = Fits c t × AllFit c ts

-- The text starts with something that the pattern describes. A star binds the character before it; a
-- dollar that ends the pattern stands for the end of the text.
pub data Starts : List ℕ → List ℕ → Type 0 where
  nothing : {re text : List ℕ} → re ≡ [] → Starts re text
  end : {re text : List ℕ} → re ≡ b'$' ∷ [] → text ≡ [] → Starts re text
  star :
      {re text : List ℕ} (c : ℕ) (re' pre rest : List ℕ)
      → re ≡ c ∷ b'*' ∷ re'
      → text ≡ pre ++ rest
      → AllFit c pre
      → Starts re' rest
      → Starts re text
  last :
      {re text : List ℕ} (c t : ℕ) (rest : List ℕ)
      → re ≡ c ∷ []
      → c ≢ b'$'
      → text ≡ t ∷ rest
      → Fits c t
      → Starts re text
  char :
      {re text : List ℕ} (c d t : ℕ) (re' rest : List ℕ)
      → re ≡ c ∷ d ∷ re'
      → d ≢ b'*'
      → text ≡ t ∷ rest
      → Fits c t
      → Starts (d ∷ re') rest
      → Starts re text

-- The pattern describes some part of the text; after a caret, its start.
pub data Matches (re text : List ℕ) : Type 0 where
  anchored : (re' : List ℕ) → re ≡ b'^' ∷ re' → Starts re' text → Matches re text
  anywhere :
      (pre rest : List ℕ)
      → ((re' : List ℕ) → re ≢ b'^' ∷ re')
      → text ≡ pre ++ rest
      → Starts re rest
      → Matches re text

matchstar_sound :
    (c : ℕ) (here : List ℕ → Bool) (text : List ℕ)
    → matchstar c here text ≡ true
    → (pre : List ℕ) × (rest : List ℕ) × (text ≡ pre ++ rest) × AllFit c pre × (here rest ≡ true)
unfolding matchstar AllFit
matchstar_sound c here [] h = ([], [], refl, tt, h)
matchstar_sound c here (t ∷ text) h = elim (Bool-cases (here (t ∷ text))) [
  | inl e ↦ ([], t ∷ text, refl, tt, e)
  | inr e ↦
      let ih = matchstar_sound c here text (ground (arith, h, e)) in
      (t ∷ ih.0, ih.1, ap (λ l. t ∷ l) ih.2, (ground (arith, h, e), ih.3), ih.4)
]

matchstar_complete :
    (c : ℕ) (here : List ℕ → Bool) (pre rest : List ℕ)
    → AllFit c pre
    → here rest ≡ true
    → matchstar c here (pre ++ rest) ≡ true
unfolding matchstar AllFit
matchstar_complete c here [] [] f h = h
matchstar_complete c here [] (t ∷ rest) f h = ground (arith, h)
matchstar_complete c here (t ∷ pre) rest f h =
    ground (arith, matchstar_complete c here pre rest f.1 h, f.0)

matchchar_sound :
    (c : ℕ) (here : List ℕ → Bool) (text : List ℕ)
    → matchchar c here text ≡ true
    → (t : ℕ) × (rest : List ℕ) × (text ≡ t ∷ rest) × Fits c t × (here rest ≡ true)
matchchar_sound c here [] h = absurd (ground (arith, h))
matchchar_sound c here (t ∷ text) h = (t, text, refl, ground (arith, h), ground (arith, h))

matchchar_complete :
    (c t : ℕ) (here : List ℕ → Bool) (rest : List ℕ)
    → Fits c t
    → here rest ≡ true
    → matchchar c here (t ∷ rest) ≡ true
matchchar_complete c t here rest f h = ground (arith, f, h)

is_empty_sound : (text : List ℕ) → is_empty text ≡ true → text ≡ []
is_empty_sound [] h = refl
is_empty_sound (t ∷ text) h = ground (arith, h)

last_sound : (c : ℕ) (text : List ℕ) → matchhere (c ∷ []) text ≡ true → Starts (c ∷ []) text
unfolding matchhere
last_sound c text h = elim (Bool-cases (c == b'$')) [
  | inl e ↦ end (ap (λ k. k ∷ []) (==→eq c _ e)) (is_empty_sound text (ground (arith, h, e)))
  | inr e ↦
      let s = matchchar_sound c (λ rest. true) text (ground (arith, h, e)) in
      last c s.0 s.1 refl (==→ne c _ e) s.2 s.3
]

matchhere_sound : (re text : List ℕ) → matchhere re text ≡ true → Starts re text
unfolding matchhere
matchhere_sound [] text h = nothing refl
matchhere_sound (c ∷ []) text h = last_sound c text h
matchhere_sound (c ∷ d ∷ re) text h = elim (Bool-cases (d == b'*')) [
  | inl e ↦
      let s = matchstar_sound c (matchhere re) text (ground (arith, h, e)) in
      star c re s.0 s.1 (ap (λ k. c ∷ k ∷ re) (==→eq d _ e)) s.2 s.3 (matchhere_sound re s.1 s.4)
  | inr e ↦
      let s = matchchar_sound c (matchhere (d ∷ re)) text (ground (arith, h, e)) in
      char c d s.0 re s.1 refl (==→ne d _ e) s.2 s.3 (matchhere_sound (d ∷ re) s.1 s.4)
]

matchhere_complete : {re text : List ℕ} → Starts re text → matchhere re text ≡ true
unfolding matchhere
matchhere_complete (nothing {re} {text} e) = ap (λ r. matchhere r text) e
matchhere_complete (end {re} {text} e e') =
    ap (λ r. matchhere r text) e ∙ ap (λ t. matchhere (b'$' ∷ []) t) e'
matchhere_complete (star {re} {text} c re' pre rest e e' f s) =
    ap (λ r. matchhere r text) e
    ∙ ap (λ t. matchhere (c ∷ b'*' ∷ re') t) e'
    ∙ matchstar_complete c (matchhere re') pre rest f (matchhere_complete s)
matchhere_complete (last {re} {text} c t rest e ne e' f) =
    ap (λ r. matchhere r text) e
    ∙ ap (λ t. matchhere (c ∷ []) t) e'
    ∙ ground (arith, ne→== c _ ne, matchchar_complete c t (λ rest. true) rest f refl)
matchhere_complete (char {re} {text} c d t re' rest e ne e' f s) =
    ap (λ r. matchhere r text) e
    ∙ ap (λ t. matchhere (c ∷ d ∷ re') t) e'
    ∙ ground (
      arith,
      ne→== d _ ne,
      matchchar_complete c t (matchhere (d ∷ re')) rest f (matchhere_complete s),
    )

match_from_sound :
    (re text : List ℕ)
    → match_from re text ≡ true
    → (pre : List ℕ) × (rest : List ℕ) × (text ≡ pre ++ rest) × Starts re rest
unfolding match_from
match_from_sound re [] h = ([], [], refl, matchhere_sound re [] h)
match_from_sound re (t ∷ text) h = elim (Bool-cases (matchhere re (t ∷ text))) [
  | inl e ↦ ([], t ∷ text, refl, matchhere_sound re (t ∷ text) e)
  | inr e ↦
      let ih = match_from_sound re text (ground (arith, h, e)) in
      (t ∷ ih.0, ih.1, ap (λ l. t ∷ l) ih.2, ih.3)
]

match_from_complete : (re pre rest : List ℕ) → Starts re rest → match_from re (pre ++ rest) ≡ true
unfolding match_from
match_from_complete re [] [] s = matchhere_complete s
match_from_complete re [] (t ∷ rest) s = ground (arith, matchhere_complete s)
match_from_complete re (t ∷ pre) rest s = ground (arith, match_from_complete re pre rest s)

match_sound : (re text : List ℕ) → match re text ≡ true → Matches re text
unfolding match
match_sound [] text h = let s = match_from_sound [] text h in anywhere s.0 s.1 (λ re' e. cc) s.2 s.3
match_sound (c ∷ re) text h = elim (Bool-cases (c == b'^')) [
  | inl e ↦
      anchored re (ap (λ k. k ∷ re) (==→eq c _ e)) (matchhere_sound re text (ground (arith, h, e)))
  | inr e ↦
      let s = match_from_sound (c ∷ re) text (ground (arith, h, e)) in
      anywhere s.0 s.1 (λ re' e'. ground (arith, e', ==→ne c _ e)) s.2 s.3
]

match-unanchored :
    (re text : List ℕ) → ((re' : List ℕ) → re ≢ b'^' ∷ re') → match re text ≡ match_from re text
unfolding match
match-unanchored [] text no_caret = refl
match-unanchored (c ∷ re) text no_caret =
    rw (ne→== c _ (λ e. no_caret re (ap (λ k. k ∷ re) e))) refl

match_complete : (re text : List ℕ) → Matches re text → match re text ≡ true
unfolding match
match_complete re text (anchored re' e s) = ap (λ r. match r text) e ∙ matchhere_complete s
match_complete re text (anywhere pre rest no_caret e s) =
    match-unanchored re text no_caret ∙ ap (match_from re) e ∙ match_from_complete re pre rest s

-- `match(re, text)` returns 1 exactly when the pattern describes some part of the text, at its start
-- if the pattern begins with a caret.
pub match-Matches : (re text : List ℕ) → (match re text ≡ true) ↔ Matches re text
match-Matches re text = (match_sound re text, match_complete re text)
