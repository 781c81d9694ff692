-- ===== src/Sh/Grammar.antt =====
-- The command lines of sh.c as trees, how they are written, and the commands that they stand for.
use cuhksz_operating_system.Prelude.{ℕ, zero, suc, ◌<◌, ◌≡◌, false, List, [], ◌∷◌, ◌++◌, length}
use cuhksz_operating_system.Sh.{
  maxargs, Mode, input, truncate, append, Command, execcmd, pipecmd, listcmd, backcmd, is_space,
  is_symbol, redirected,
}

pub data Level : Type 0 where
  atom : Level
  pipeline : Level
  line : Level

-- A word with the files that follow it.
pub record Arg : Type 0 where
  pub text : List ℕ
  pub files : List (List ℕ × Mode)

-- A line is a pipeline with a number of `&`, and may go on after a `;`.
pub data Tree : Level → Type 0 where
  simple : List (List ℕ × Mode) → List Arg → Tree atom
  block : Tree line → List (List ℕ × Mode) → Tree atom
  one : Tree atom → Tree pipeline
  pipe : Tree atom → Tree pipeline → Tree pipeline
  last : Tree pipeline → ℕ → Tree line
  sequence : Tree pipeline → ℕ → Tree line → Tree line

-- What is written before the text `s`: a space after each word, and no other.
abbrev pub print_word : List ℕ → List ℕ → List ℕ
print_word w s = w ++ (b' ' ∷ s)

abbrev pub sign : Mode → List ℕ → List ℕ
sign input s = b'<' ∷ s
sign truncate s = b'>' ∷ s
sign append s = b'>' ∷ b'>' ∷ s

unfoldable pub print_files : List (List ℕ × Mode) → List ℕ → List ℕ
print_files [] s = s
print_files ((file, mode) ∷ rs) s = sign mode (print_word file (print_files rs s))

unfoldable pub print_args : List Arg → List ℕ → List ℕ
print_args [] s = s
print_args (a ∷ more) s = print_word a.text (print_files a.files (print_args more s))

unfoldable pub ampersands : ℕ → List ℕ → List ℕ
ampersands zero s = s
ampersands (suc n) s = b'&' ∷ ampersands n s

unfoldable pub print : {k : Level} → Tree k → List ℕ → List ℕ
print (simple rs args) s = print_files rs (print_args args s)
print (block x rs) s = b'(' ∷ print x (b')' ∷ print_files rs s)
print (one x) s = print x s
print (pipe x y) s = print x (b'|' ∷ print y s)
print (last x n) s = print x (ampersands n s)
print (sequence x n y) s = print x (ampersands n (b';' ∷ print y s))

unfoldable pub texts : List Arg → List (List ℕ)
texts [] = []
texts (a ∷ more) = a.text ∷ texts more

unfoldable pub all_files : List Arg → List (List ℕ × Mode)
all_files [] = []
all_files (a ∷ more) = a.files ++ all_files more

unfoldable pub in_back : ℕ → Command → Command
in_back zero cmd = cmd
in_back (suc n) cmd = in_back n (backcmd cmd)

unfoldable pub meaning : {k : Level} → Tree k → Command
meaning (simple rs args) = redirected (rs ++ all_files args) (execcmd (texts args))
meaning (block x rs) = redirected rs (meaning x)
meaning (one x) = meaning x
meaning (pipe x y) = pipecmd (meaning x) (meaning y)
meaning (last x n) = in_back n (meaning x)
meaning (sequence x n y) = listcmd (in_back n (meaning x)) (meaning y)

-- Words have a byte and no space or symbol; a command has fewer than MAXARGS words.
abbrev pub IsPlain : List ℕ → Type 0
IsPlain [] = Unit
IsPlain (c ∷ w) = (is_space c ≡ false) × (is_symbol c ≡ false) × IsPlain w

abbrev pub IsWord : List ℕ → Type 0
IsWord [] = ⊥
IsWord (c ∷ w) = IsPlain (c ∷ w)

unfoldable pub AreFiles : List (List ℕ × Mode) → Type 0
AreFiles [] = Unit
AreFiles ((file, mode) ∷ rs) = IsWord file × AreFiles rs

unfoldable pub AreArgs : List Arg → Type 0
AreArgs [] = Unit
AreArgs (a ∷ more) = IsWord a.text × AreFiles a.files × AreArgs more

unfoldable pub IsTree : {k : Level} → Tree k → Type 0
IsTree (simple rs args) = AreFiles rs × AreArgs args × (length args < maxargs)
IsTree (block x rs) = IsTree x × AreFiles rs
IsTree (one x) = IsTree x
IsTree (pipe x y) = IsTree x × IsTree y
IsTree (last x n) = IsTree x
IsTree (sequence x n y) = IsTree x × IsTree y
