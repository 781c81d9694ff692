-- ===== src/Sh.antt =====
-- Assignment3/initial_code/user/sh.c: the parser of command lines. A string is the list of its bytes; the
-- place `*ps` in the line is what is left of it, so that `es` is its end, and a word is the bytes
-- between `q` and `eq`, at the end of which `nulterminate` writes a zero. `malloc` gives memory.
pub mod Shorter
pub mod Fuel
pub mod Grammar
pub mod Words
pub mod Parts
pub mod Lines
pub mod RoundTrip
mod Tests
use cuhksz_operating_system.Prelude.{
  ℕ, zero, suc, ◌+◌, Bool, true, false, not, ◌&&◌, ◌||◌, List, [], ◌∷◌, ◌++◌, leb, ◌==◌,
  if◌then◌else◌, length,
}

-- MAXARGS
abbrev pub maxargs : ℕ
maxargs = 10

-- O_RDONLY for descriptor 0; O_WRONLY, O_CREATE and O_TRUNC for 1; O_WRONLY and O_CREATE for 1
pub data Mode : Type 0 where
  input : Mode
  truncate : Mode
  append : Mode

pub data Command : Type 0 where
  execcmd : List (List ℕ) → Command
  redircmd : Command → List ℕ → Mode → Command
  pipecmd : Command → Command → Command
  listcmd : Command → Command → Command
  backcmd : Command → Command

-- What is parsed, and what is left of the line; `syntax` is a panic.
pub data Parse (A : Type 0) : Type 0 where
  parsed : A → List ℕ → Parse A
  syntax : Parse A
  out_of_fuel : Parse A

infixl 5 ◌>>=◌
abbrev pub ◌>>=◌ : {A B : Type 0} → Parse A → (A → List ℕ → Parse B) → Parse B
m >>= k = elim m [ parsed a s ↦ k a s | syntax ↦ syntax | out_of_fuel ↦ out_of_fuel ]

-- `strchr(whitespace, c)` and `strchr(symbols, c)`
unfoldable pub is_space : ℕ → Bool
is_space c = c == b' ' || c == b'\t' || c == b'\r' || c == b'\n' || c == 11

unfoldable pub is_symbol : ℕ → Bool
is_symbol c =
    c == b'<' || c == b'|' || c == b'>' || c == b'&' || c == b';' || c == b'(' || c == b')'

-- `while(s < es && strchr(whitespace, *s)) s++;`
unfoldable pub skip : List ℕ → List ℕ
skip [] = []
skip (c ∷ s) = let rest = skip s in if is_space c then rest else c ∷ s

-- The loop of `gettoken` over a word: the word, and what follows.
unfoldable pub take_word : List ℕ → List ℕ × List ℕ
take_word [] = ([], [])
take_word (c ∷ s) =
    let (w, rest) = take_word s in if is_space c || is_symbol c then ([], c ∷ s) else (c ∷ w, rest)

-- What follows a `>`.
abbrev pub after_greater : List ℕ → ℕ × List ℕ × List ℕ
after_greater [] = (b'>', [], [])
after_greater (d ∷ s) = if d == b'>' then (b'+', [], skip s) else (b'>', [], skip (d ∷ s))

-- The token at the front: its kind, its bytes if it is a word, and what follows the space after it.
unfoldable pub token : List ℕ → ℕ × List ℕ × List ℕ
token [] = (0, [], [])
token (c ∷ s) =
    if c == b'>'
    then after_greater s
    else if is_symbol c
    then (c, [], skip s)
    else (b'a', (take_word (c ∷ s)).0, skip (take_word (c ∷ s)).1)

abbrev pub gettoken : List ℕ → ℕ × List ℕ × List ℕ
gettoken s = token (skip s)

-- `peek`, for a line without space in front.
unfoldable pub peek : (ℕ → Bool) → List ℕ → Bool
peek toks [] = false
peek toks (c ∷ s) = toks c

abbrev pub mode_of : ℕ → Mode
mode_of tok = if tok == b'<' then input else if tok == b'>' then truncate else append

-- `"<>"` and `"|)&;"`
unfoldable pub is_redir : ℕ → Bool
is_redir c = c == b'<' || c == b'>'

unfoldable pub is_stop : ℕ → Bool
is_stop c = c == b'|' || c == b')' || c == b'&' || c == b';'

-- The loop of `parseredirs`: the files that it puts around the command, the innermost first.
unfoldable pub parseredirs : ℕ → List ℕ → Parse (List (List ℕ × Mode))
parseredirs zero s = out_of_fuel
parseredirs (suc fuel) s =
    let (tok, q, s₁) = gettoken s in
    let (tok', file, s₂) = gettoken s₁ in
    let more = parseredirs fuel s₂ in
    if peek is_redir (skip s)
    then (if tok' == b'a' then more >>= (λ rs t. parsed ((file, mode_of tok) ∷ rs) t) else syntax)
    else parsed [] (skip s)

-- The commands of the files around a command.
unfoldable pub redirected : List (List ℕ × Mode) → Command → Command
redirected [] cmd = cmd
redirected ((file, mode) ∷ rs) cmd = redirected rs (redircmd cmd file mode)

-- The loop of `parseexec` after `argc` words: the words and the files from here on.
unfoldable pub parseargs : ℕ → ℕ → List ℕ → Parse (List (List ℕ) × List (List ℕ × Mode))
parseargs zero argc s = out_of_fuel
parseargs (suc fuel) argc s =
    let (tok, q, s₁) = gettoken s in
    let more = λ (t : List ℕ). parseargs fuel (argc + 1) t in
    if peek is_stop (skip s)
    then parsed ([], []) (skip s)
    else if tok == 0
    then parsed ([], []) s₁
    else if not (tok == b'a') || leb maxargs (argc + 1)
    then syntax
    else parseredirs fuel s₁ >>= (λ rs t. more t >>= (λ a u. parsed (q ∷ a.0, rs ++ a.1) u))

-- `parseblock`, where `line` is `parseline`.
unfoldable pub parseblock : (List ℕ → Parse Command) → ℕ → List ℕ → Parse Command
parseblock line fuel s = line (gettoken s).2 >>= (λ cmd t.
    if peek (λ c. c == b')') (skip t)
    then parseredirs fuel (gettoken t).2 >>= (λ rs u. parsed (redirected rs cmd) u)
    else syntax)

unfoldable pub parseexec : (List ℕ → Parse Command) → ℕ → List ℕ → Parse Command
parseexec line fuel s =
    if peek (λ c. c == b'(') (skip s)
    then parseblock line fuel s
    else parseredirs fuel s
      >>= (λ rs t. parseargs fuel 0 t >>= (λ a u. parsed (redirected (rs ++ a.1) (execcmd a.0)) u))

unfoldable pub parsepipe : (List ℕ → Parse Command) → ℕ → List ℕ → Parse Command
parsepipe line zero s = out_of_fuel
parsepipe line (suc fuel) s =
    let more = λ (t : List ℕ). parsepipe line fuel (gettoken t).2 in
    parseexec line fuel s >>= (λ cmd t.
      if peek (λ c. c == b'|') (skip t)
      then more t >>= (λ right u. parsed (pipecmd cmd right) u)
      else parsed cmd (skip t))

-- `while(peek(ps, es, "&"))`
unfoldable pub parseback : ℕ → Command → List ℕ → Parse Command
parseback zero cmd s = out_of_fuel
parseback (suc fuel) cmd s =
    let more = parseback fuel (backcmd cmd) (gettoken s).2 in
    if peek (λ c. c == b'&') (skip s) then more else parsed cmd (skip s)

unfoldable pub parseline : ℕ → List ℕ → Parse Command
parseline zero s = out_of_fuel
parseline (suc fuel) s =
    let line = λ (t : List ℕ). parseline fuel t in
    parsepipe line fuel s >>= (λ cmd t. parseback fuel cmd t >>= (λ cmd' u.
      if peek (λ c. c == b';') (skip u)
      then line (gettoken u).2 >>= (λ right v. parsed (listcmd cmd' right) v)
      else parsed cmd' (skip u)))

abbrev pub all_parsed : List ℕ → Bool
all_parsed [] = true
all_parsed (c ∷ s) = false

-- `parsecmd`. A call of `parseline` is on a shorter line than the one that it is made in, and each
-- round of a loop takes a token.
unfoldable pub parsecmd : List ℕ → Parse Command
parsecmd s =
    parseline (length s + 3) s >>= (λ cmd t. if all_parsed (skip t) then parsed cmd [] else syntax)
