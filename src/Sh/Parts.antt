-- ===== src/Sh/Parts.antt =====
-- sh.c: the files and the words of a command are parsed back.
use cuhksz_operating_system.Prelude.{
  ℕ, zero, suc, ◌+◌, ◌≤◌, ◌<◌, ◌≡◌, refl, ap, ◌∙◌, arith, true, false, not, ◌||◌, List, [], ◌∷◌,
  ◌++◌, ◌==◌, leb, length, length-append, if◌then◌else◌,
}
use cuhksz_operating_system.Sh.{
  maxargs, Mode, input, truncate, append, Parse, parsed, syntax, ◌>>=◌, is_space, is_redir, is_stop,
  skip, token, gettoken, mode_of, peek, parseredirs, parseargs,
}
use cuhksz_operating_system.Sh.Grammar.{
  Arg, print_word, sign, print_files, print_args, texts, all_files, AreFiles, AreArgs,
}
use cuhksz_operating_system.Sh.Words.{
  gettoken-word, gettoken-sign, sign_token, mode_of-sign_token, IsFresh, print_word-IsFresh,
  print_word-goes_on, Mark, over, closes, to_back, then_next, into, after, after-IsFresh,
}

pub bound :
    {A B : Type 0} (m : Parse A) (f : A → List ℕ → Parse B) (a : A) (t : List ℕ)
    → m ≡ parsed a t
    → (m >>= f) ≡ f a t
bound m f a t e = ap (λ (r : Parse _). r >>= f) e

parseredirs-step :
    (n tok : ℕ) (s q s₁ file s₂ : List ℕ)
    → peek is_redir (skip s) ≡ true
    → gettoken s ≡ (tok, q, s₁)
    → gettoken s₁ ≡ (b'a', file, s₂)
    → parseredirs (suc n) s ≡ (parseredirs n s₂ >>= (λ rs t. parsed ((file, mode_of tok) ∷ rs) t))
unfolding parseredirs
parseredirs-step n tok s q s₁ file s₂ e h h' =
    rw (e, parseredirs)
      (ap (λ (r : ℕ × List ℕ × List ℕ). by_name r.0 (gettoken r.2)) h ∙ ap (by_name tok) h')
  where
    by_name : ℕ → ℕ × List ℕ × List ℕ → Parse (List (List ℕ × Mode))
    by_name k r =
        if r.0 == b'a'
        then parseredirs n r.2 >>= (λ rs t. parsed ((r.1, mode_of k) ∷ rs) t)
        else syntax

parseredirs-stop : (n : ℕ) (s : List ℕ) → IsFresh s → parseredirs (suc n) s ≡ parsed [] s
unfolding parseredirs
parseredirs-stop n s f =
    rw (ap (peek is_redir) f.trim ∙ f.no_file, parseredirs) (ap (parsed []) f.trim)

length-sign : (mode : Mode) (s : List ℕ) → length s < length (sign mode s)
length-sign input s = omega arith
length-sign truncate s = omega arith
length-sign append s = omega arith

length-print_word : (w s : List ℕ) → length s < length (print_word w s)
length-print_word w s = omega (arith, length-append w (b' ' ∷ s))

peek-sign : (mode : Mode) (s : List ℕ) → peek is_redir (skip (sign mode s)) ≡ true
unfolding peek is_redir skip is_space
peek-sign input s = refl
peek-sign truncate s = refl
peek-sign append s = refl

peek_no_sign : (mode : Mode) (s : List ℕ) → peek (λ c. c == b'(') (sign mode s) ≡ false
unfolding peek
peek_no_sign input s = refl
peek_no_sign truncate s = refl
peek_no_sign append s = refl

trim_sign : (mode : Mode) (s : List ℕ) → skip (sign mode s) ≡ sign mode s
unfolding skip is_space
trim_sign input s = refl
trim_sign truncate s = refl
trim_sign append s = refl

pub print_files-trim :
    (rs : List (List ℕ × Mode)) (s : List ℕ)
    → AreFiles rs
    → IsFresh s
    → skip (print_files rs s) ≡ print_files rs s
unfolding print_files
print_files-trim [] s p f = f.trim
print_files-trim ((file, mode) ∷ rs) s p f = trim_sign mode (print_word file (print_files rs s))

pub print_files-no_block :
    (rs : List (List ℕ × Mode)) (s : List ℕ)
    → IsFresh s
    → peek (λ c. c == b'(') (print_files rs s) ≡ false
unfolding print_files
print_files-no_block [] s f = f.no_block
print_files-no_block ((file, mode) ∷ rs) s f =
    peek_no_sign mode (print_word file (print_files rs s))

pub parseredirs-print_files :
    (n : ℕ) (rs : List (List ℕ × Mode)) (s : List ℕ)
    → AreFiles rs
    → IsFresh s
    → length (print_files rs s) < n
    → parseredirs n (print_files rs s) ≡ parsed rs s
unfolding print_files AreFiles
parseredirs-print_files zero rs s p f low = absurd (omega (arith, low))
parseredirs-print_files (suc n) [] s p f low = parseredirs-stop n s f
parseredirs-print_files (suc n) ((file, mode) ∷ rs) s (p, ps) f low =
    let rest = print_files rs s in
    let name = print_word file rest in
    let shorter : length rest < n =
      omega (arith, low, length-sign mode name, length-print_word file rest) in
    parseredirs-step n (sign_token mode) (sign mode name) [] name file rest (peek-sign mode name)
      (gettoken-sign mode file rest p) (gettoken-word file rest p (print_files-trim rs s ps f))
    ∙ bound (parseredirs n rest) _ rs s (parseredirs-print_files n rs s ps f shorter)
    ∙ ap (λ m. parsed ((file, m) ∷ rs) s) (mode_of-sign_token mode)

pub print_args-IsFresh :
    (args : List Arg) (m : Mark) → AreArgs args → IsFresh (print_args args (after m))
unfolding print_args AreArgs
print_args-IsFresh [] m p = after-IsFresh m
print_args-IsFresh (a ∷ args) m (p, fs, ps) = print_word-IsFresh a.text _ p

parseargs-step :
    (n argc : ℕ) (s q s₁ : List ℕ)
    → peek is_stop (skip s) ≡ false
    → gettoken s ≡ (b'a', q, s₁)
    → leb maxargs (argc + 1) ≡ false
    → parseargs (suc n) argc s ≡ (
        parseredirs n s₁
        >>= (λ rs t. parseargs n (argc + 1) t >>= (λ a u. parsed (q ∷ a.0, rs ++ a.1) u)))
unfolding parseargs
parseargs-step n argc s q s₁ e h few = rw (e, parseargs) (ap by_token h ∙ rw few refl)
  where
    by_token : ℕ × List ℕ × List ℕ → Parse (List (List ℕ) × List (List ℕ × Mode))
    by_token r =
        if r.0 == 0
        then parsed ([], []) r.2
        else if not (r.0 == b'a') || leb maxargs (argc + 1)
        then syntax
        else parseredirs n r.2
          >>= (λ rs t. parseargs n (argc + 1) t >>= (λ a u. parsed (r.1 ∷ a.0, rs ++ a.1) u))

parseargs-after :
    (n argc : ℕ) (m : Mark) → parseargs (suc n) argc (after m) ≡ parsed ([], []) (after m)
unfolding parseargs skip is_space peek is_stop token
parseargs-after n argc over = refl
parseargs-after n argc (closes s) = refl
parseargs-after n argc (to_back s) = refl
parseargs-after n argc (then_next s) = refl
parseargs-after n argc (into s) = refl

pub length-print_files :
    (rs : List (List ℕ × Mode)) (s : List ℕ) → length s ≤ length (print_files rs s)
unfolding print_files
length-print_files [] s = omega arith
length-print_files ((file, mode) ∷ rs) s = omega (
  arith,
  length-print_files rs s,
  length-sign mode (print_word file (print_files rs s)),
  length-print_word file (print_files rs s),
)

pub length-print_args : (args : List Arg) (s : List ℕ) → length s ≤ length (print_args args s)
unfolding print_args
length-print_args [] s = omega arith
length-print_args (a ∷ args) s = omega (
  arith,
  length-print_args args s,
  length-print_files a.files (print_args args s),
  length-print_word a.text (print_files a.files (print_args args s)),
)

pub parseargs-print_args :
    (n argc : ℕ) (args : List Arg) (m : Mark)
    → AreArgs args
    → argc + length args < maxargs
    → length (print_args args (after m)) < n
    → parseargs n argc (print_args args (after m)) ≡ parsed (texts args, all_files args) (after m)
unfolding print_args AreArgs texts all_files
parseargs-print_args zero argc args m p few low = absurd (omega (arith, low))
parseargs-print_args (suc n) argc [] m p few low = parseargs-after n argc m
parseargs-print_args (suc n) argc (a ∷ args) m (p, fs, ps) few low =
    let rest = print_args args (after m) in
    let s₁ = print_files a.files rest in
    let s = print_word a.text s₁ in
    let fresh = print_args-IsFresh args m ps in
    let trim = print_files-trim a.files rest fs fresh in
    let start =
      ap (peek is_stop) (IsFresh.trim (print_word-IsFresh a.text s₁ p))
      ∙ print_word-goes_on a.text s₁ p in
    let shorter : length s₁ < n = omega (arith, low, length-print_word a.text s₁) in
    parseargs-step n argc s a.text s₁ start (gettoken-word a.text s₁ p trim) (ground (arith, few))
    ∙ bound (parseredirs n s₁) _ a.files rest
        (parseredirs-print_files n a.files rest fs fresh shorter)
    ∙ bound (parseargs n (argc + 1) rest) _ (texts args, all_files args) (after m)
        (parseargs-print_args n (argc + 1) args m ps (omega (arith, few))
          (omega (arith, shorter, length-print_files a.files rest)))
