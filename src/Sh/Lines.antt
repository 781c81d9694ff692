-- ===== src/Sh/Lines.antt =====
-- sh.c: the parts of a line are parsed back, from what is known of their own parts.
use cuhksz_operating_system.Prelude.{
  ℕ, zero, suc, ◌≤◌, ◌<◌, ◌≡◌, refl, sym, ap, ◌∙◌, arith, false, List, ◌∷◌, ◌==◌, length,
}
use cuhksz_operating_system.Sh.{
  Command, pipecmd, backcmd, parsed, is_space, is_symbol, skip, token, peek, parseredirs, parseargs,
  parseblock, parseexec, parsepipe, parseback, parseline,
}
use cuhksz_operating_system.Sh.Grammar.{
  Level, atom, pipeline, line, Tree, simple, block, one, pipe, last, sequence, print_files,
  print_args, ampersands, print, texts, all_files, in_back, meaning, AreFiles, IsTree,
}
use cuhksz_operating_system.Sh.Words.{
  IsFresh, Mark, over, closes, to_back, then_next, into, after, after-IsFresh,
}
use cuhksz_operating_system.Sh.Parts.{
  bound, print_files-trim, print_files-no_block, parseredirs-print_files, print_args-IsFresh,
  parseargs-print_args, length-print_files, length-print_args,
}

-- The mark after a pipeline with `n` of `&`.
abbrev pub backs : ℕ → Mark → Mark
backs zero m = m
backs (suc n) m = to_back (ampersands n (after m))

pub after-backs : (n : ℕ) (m : Mark) → after (backs n m) ≡ ampersands n (after m)
unfolding ampersands
after-backs zero m = refl
after-backs (suc n) m = refl

pub length-ampersands : (n : ℕ) (s : List ℕ) → length s ≤ length (ampersands n s)
unfolding ampersands
length-ampersands zero s = omega arith
length-ampersands (suc n) s = omega (arith, length-ampersands n s)

pub length-print : {k : Level} (x : Tree k) (s : List ℕ) → length s ≤ length (print x s)
unfolding print
length-print (simple rs args) s =
    omega (arith, length-print_files rs (print_args args s), length-print_args args s)
length-print (block x rs) s =
    omega (arith, length-print x (b')' ∷ print_files rs s), length-print_files rs s)
length-print (one x) s = length-print x s
length-print (pipe x y) s = omega (arith, length-print x (b'|' ∷ print y s), length-print y s)
length-print (last x n) s = omega (arith, length-print x (ampersands n s), length-ampersands n s)
length-print (sequence x n y) s = omega (
  arith,
  length-print x (ampersands n (b';' ∷ print y s)),
  length-ampersands n (b';' ∷ print y s),
  length-print y s,
)

pub print-trim :
    {k : Level} (x : Tree k) (m : Mark) → IsTree x → skip (print x (after m)) ≡ print x (after m)
unfolding print IsTree skip is_space
print-trim (simple rs args) m (p, ps, few) =
    print_files-trim rs (print_args args (after m)) p (print_args-IsFresh args m ps)
print-trim (block x rs) m p = refl
print-trim (one x) m p = print-trim x m p
print-trim (pipe x y) m (p, q) = print-trim x (into (print y (after m))) p
print-trim (last x n) m p =
    let e = ap (print x) (after-backs n m) in ap skip (sym e) ∙ print-trim x (backs n m) p ∙ e
print-trim (sequence x n y) m (p, q) =
    let e = ap (print x) (after-backs n (then_next (print y (after m)))) in
    ap skip (sym e) ∙ print-trim x (backs n (then_next (print y (after m)))) p ∙ e

-- The marks after a command, a pipeline and a line.
abbrev pub IsNext : Level → Mark → Type 0
IsNext atom m = Unit
IsNext pipeline (into s) = ⊥
IsNext pipeline m = Unit
IsNext line over = Unit
IsNext line (closes s) = Unit
IsNext line m = ⊥

pub parseexec-simple :
    (n m : ℕ) (rs : List (List ℕ × _)) (args : List _) (mk : Mark)
    → IsTree (simple rs args)
    → length (print (simple rs args) (after mk)) < m
    → parseexec (parseline n) m (print (simple rs args) (after mk))
      ≡ parsed (meaning (simple rs args)) (after mk)
unfolding parseexec print IsTree meaning
parseexec-simple n m rs args mk (p, ps, few) low =
    let t = print_args args (after mk) in
    let fresh = print_args-IsFresh args mk ps in
    let no_block =
      ap (peek (λ c. c == b'(')) (print_files-trim rs t p fresh)
      ∙ print_files-no_block rs t fresh in
    rw no_block (
      bound (parseredirs m (print_files rs t)) _ rs t (parseredirs-print_files m rs t p fresh low)
      ∙ bound (parseargs m 0 t) _ (texts args, all_files args) (after mk)
          (parseargs-print_args m 0 args mk ps (omega (arith, few))
            (omega (arith, low, length-print_files rs t))))

pub parseexec-block :
    (n m : ℕ) (x : Tree line) (rs : List (List ℕ × _)) (mk : Mark)
    → AreFiles rs
    → skip (print x (after (closes (print_files rs (after mk)))))
      ≡ print x (after (closes (print_files rs (after mk))))
    → parseline n (print x (after (closes (print_files rs (after mk)))))
      ≡ parsed (meaning x) (after (closes (print_files rs (after mk))))
    → length (print_files rs (after mk)) < m
    → parseexec (parseline n) m (print (block x rs) (after mk))
      ≡ parsed (meaning (block x rs)) (after mk)
unfolding parseexec parseblock print meaning token skip is_space is_symbol peek
parseexec-block n m x rs mk p trim ih low =
    let f = print_files rs (after mk) in
    let inner = print x (after (closes f)) in
    bound (parseline n (skip inner)) _ (meaning x) (after (closes f)) (ap (parseline n) trim ∙ ih)
    ∙ bound (parseredirs m (skip f)) _ rs (after mk) (
        ap (parseredirs m) (print_files-trim rs (after mk) p (after-IsFresh mk))
        ∙ parseredirs-print_files m rs (after mk) p (after-IsFresh mk) low)

no_bar : (mk : Mark) → IsNext pipeline mk → peek (λ c. c == b'|') (skip (after mk)) ≡ false
unfolding peek skip is_space
no_bar over h = refl
no_bar (closes t) h = refl
no_bar (to_back t) h = refl
no_bar (then_next t) h = refl
no_bar (into t) h = absurd h

pub parsepipe-one :
    (n m : ℕ) (s : List ℕ) (cmd : Command) (mk : Mark)
    → IsNext pipeline mk
    → parseexec (parseline n) m s ≡ parsed cmd (after mk)
    → parsepipe (parseline n) (suc m) s ≡ parsed cmd (after mk)
unfolding parsepipe
parsepipe-one n m s cmd mk next e =
    bound (parseexec (parseline n) m s) _ cmd (after mk) e
    ∙ rw (no_bar mk next) (ap (parsed cmd) (IsFresh.trim (after-IsFresh mk)))

pub parsepipe-pipe :
    (n m : ℕ) (s t : List ℕ) (cmd right : Command) (mk : Mark)
    → parseexec (parseline n) m s ≡ parsed cmd (after (into t))
    → skip t ≡ t
    → parsepipe (parseline n) m t ≡ parsed right (after mk)
    → parsepipe (parseline n) (suc m) s ≡ parsed (pipecmd cmd right) (after mk)
unfolding parsepipe token skip is_space is_symbol peek
parsepipe-pipe n m s t cmd right mk e trim e' =
    bound (parseexec (parseline n) m s) _ cmd (after (into t)) e
    ∙ bound (parsepipe (parseline n) m (skip t)) _ right (after mk)
        (ap (parsepipe (parseline n) m) trim ∙ e')

no_ampersand :
    (mk : Mark)
    → peek (λ c. c == b'&') (after mk) ≡ false
    → peek (λ c. c == b'&') (skip (after mk)) ≡ false
no_ampersand mk h = ap (peek (λ c. c == b'&')) (IsFresh.trim (after-IsFresh mk)) ∙ h

pub parseback-ampersands :
    (n j : ℕ) (cmd : Command) (mk : Mark)
    → peek (λ c. c == b'&') (after mk) ≡ false
    → length (ampersands j (after mk)) < n
    → parseback n cmd (ampersands j (after mk)) ≡ parsed (in_back j cmd) (after mk)
unfolding parseback ampersands in_back token skip is_space is_symbol peek
parseback-ampersands zero j cmd mk h low = absurd (omega (arith, low))
parseback-ampersands (suc n) zero cmd mk h low =
    rw (no_ampersand mk h, parseback) (ap (parsed cmd) (IsFresh.trim (after-IsFresh mk)))
parseback-ampersands (suc n) (suc j) cmd mk h low =
    ap (parseback n (backcmd cmd)) (
      ap skip (sym (after-backs j mk))
      ∙ IsFresh.trim (after-IsFresh (backs j mk))
      ∙ after-backs j mk)
    ∙ parseback-ampersands n j (backcmd cmd) mk h (omega (arith, low))
