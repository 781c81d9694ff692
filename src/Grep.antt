-- ===== src/Grep.antt =====
-- Assignment3/initial_code/user/grep.c: the matcher for ^ . * $, and the loop over the lines of what
-- is read. A string is the list of its bytes before the zero byte.
pub mod Meaning
pub mod Lines
mod Tests
use cuhksz_operating_system.Prelude.{
  ℕ, zero, suc, ◌+◌, Bool, true, false, ◌&&◌, ◌||◌, Option, none, some, List, [], ◌∷◌, ◌++◌, ◌==◌,
  leb, if◌then◌else◌, length,
}

-- `*text++==c || c=='.'`
abbrev pub same_char : ℕ → ℕ → Bool
same_char c t = t == c || c == b'.'

-- The loop of `matchstar`, where `here` is `matchhere(re, …)`.
unfoldable pub matchstar : ℕ → (List ℕ → Bool) → List ℕ → Bool
matchstar c here [] = here []
matchstar c here (t ∷ text) =
    let rest = matchstar c here text in
    if here (t ∷ text) then true else if same_char c t then rest else false

abbrev pub is_empty : List ℕ → Bool
is_empty [] = true
is_empty (t ∷ text) = false

-- The last test of `matchhere`, where `here` is `matchhere(re+1, …)`.
abbrev pub matchchar : ℕ → (List ℕ → Bool) → List ℕ → Bool
matchchar c here [] = false
matchchar c here (t ∷ text) = if c == b'.' || c == t then here text else false

unfoldable pub matchhere : List ℕ → List ℕ → Bool
matchhere [] text = true
matchhere (c ∷ []) text = if c == b'$' then is_empty text else matchchar c (λ rest. true) text
matchhere (c ∷ d ∷ re) text =
    let starred = matchstar c (matchhere re) text in
    let plain = matchchar c (matchhere (d ∷ re)) text in if d == b'*' then starred else plain

-- The loop of `match`.
unfoldable pub match_from : List ℕ → List ℕ → Bool
match_from re [] = matchhere re []
match_from re (t ∷ text) =
    let rest = match_from re text in if matchhere re (t ∷ text) then true else rest

unfoldable pub match : List ℕ → List ℕ → Bool
match [] text = match_from [] text
match (c ∷ re) text = if c == b'^' then matchhere re text else match_from (c ∷ re) text

-- `strchr(p, '\n')`: the line before it and what comes after it. A zero byte ends the string.
unfoldable pub strchr : List ℕ → Option (List ℕ × List ℕ)
strchr [] = none
strchr (c ∷ p) =
    let rest = strchr p in
    if c == 0
    then none
    else if c == 10
    then some ([], p)
    else elim rest [ none ↦ none | some (line, after) ↦ some (c ∷ line, after) ]

-- The inner loop of `grep`: what is written, and what is left in the buffer without a newline.
unfoldable pub each_line : ℕ → List ℕ → List ℕ → List ℕ × List ℕ
each_line zero pattern p = ([], p)
each_line (suc fuel) pattern p = elim (strchr p) [
  | none ↦ ([], p)
  | some (line, after) ↦
      let (out, left) = each_line fuel pattern after in
      (if match pattern line then line ++ 10 ∷ out else out, left)
]

-- `sizeof(buf) - 1`
abbrev pub room : ℕ
room = 1023

-- `grep(pattern, fd)`, where the list holds what the calls of `read` bring, and `left` is in `buf`.
-- A call that brings nothing ends the loop; with no room left in `buf` the call asks for nothing.
unfoldable pub grep_from : List ℕ → List ℕ → List (List ℕ) → List ℕ
grep_from pattern left [] = []
grep_from pattern left (chunk ∷ chunks) =
    let (out, left') = each_line (length (left ++ chunk) + 1) pattern (left ++ chunk) in
    let rest = grep_from pattern left' chunks in
    if leb room (length left) || is_empty chunk then [] else out ++ rest

abbrev pub grep : List ℕ → List (List ℕ) → List ℕ
grep pattern chunks = grep_from pattern [] chunks
