-- ===== src/Sh/RoundTrip.antt =====
-- sh.c: what is written is parsed back.
use cuhksz_operating_system.Prelude.{
  ℕ, zero, suc, ◌+◌, ◌<◌, ◌≡◌, refl, sym, ap, ◌∙◌, arith, false, List, [], ◌∷◌, ◌==◌, length,
}
use cuhksz_operating_system.Sh.{
  Command, Parse, parsed, is_space, is_symbol, skip, token, peek, parseexec, parsepipe, parseback,
  parseline, parsecmd,
}
use cuhksz_operating_system.Sh.Grammar.{
  Level, atom, pipeline, line, Tree, simple, block, one, pipe, last, sequence, print_files,
  ampersands, print, in_back, meaning, IsTree,
}
use cuhksz_operating_system.Sh.Words.{
  IsFresh, Mark, over, closes, to_back, then_next, into, after, after-IsFresh,
}
use cuhksz_operating_system.Sh.Parts.{bound}
use cuhksz_operating_system.Sh.Lines.{
  backs, after-backs, length-print, length-ampersands, print-trim, IsNext, parseexec-simple,
  parseexec-block, parsepipe-one, parsepipe-pipe, parseback-ampersands,
}

-- The function that parses a tree, and the fuel that it has for a line of a length.
abbrev pub parse_at : Level → ℕ → ℕ → List ℕ → Parse Command
parse_at atom n m s = parseexec (parseline n) m s
parse_at pipeline n m s = parsepipe (parseline n) m s
parse_at line n m s = parseline n s

abbrev pub Fits : Level → ℕ → ℕ → ℕ → Type 0
Fits atom n m l = (l + 1 < n) × (l < m)
Fits pipeline n m l = (l + 1 < n) × (l + 1 < m)
Fits line n m l = l + 2 < n

backs-IsNext : (j : ℕ) (mk : Mark) → IsNext pipeline mk → IsNext pipeline (backs j mk)
backs-IsNext zero mk h = h
backs-IsNext (suc j) mk h = tt

last_mark :
    (mk : Mark)
    → IsNext line mk
    → (peek (λ c. c == b'&') (after mk) ≡ false) × (peek (λ c. c == b';') (skip (after mk)) ≡ false)
unfolding peek skip is_space
last_mark over h = (refl, refl)
last_mark (closes s) h = (refl, refl)
last_mark (to_back s) h = absurd h
last_mark (then_next s) h = absurd h
last_mark (into s) h = absurd h

line-pipeline : (mk : Mark) → IsNext line mk → IsNext pipeline mk
line-pipeline over h = tt
line-pipeline (closes s) h = tt
line-pipeline (to_back s) h = tt
line-pipeline (then_next s) h = tt
line-pipeline (into s) h = h

parseline-last :
    (n j : ℕ) (x : Tree pipeline) (mk : Mark)
    → IsNext line mk
    → length (print (last x j) (after mk)) < n
    → parsepipe (parseline n) n (print x (after (backs j mk)))
      ≡ parsed (meaning x) (after (backs j mk))
    → parseline (suc n) (print (last x j) (after mk)) ≡ parsed (meaning (last x j)) (after mk)
unfolding parseline print meaning
parseline-last n j x mk next low ih =
    let e = after-backs j mk in
    bound (parsepipe (parseline n) n (print x (ampersands j (after mk)))) _ (meaning x)
      (ampersands j (after mk))
      (ap (λ t. parsepipe (parseline n) n (print x t)) (sym e) ∙ ih ∙ ap (parsed (meaning x)) e)
    ∙ bound (parseback n (meaning x) (ampersands j (after mk))) _ (in_back j (meaning x)) (after mk)
        (parseback-ampersands n j (meaning x) mk (last_mark mk next).0
          (omega (arith, low, length-print x (ampersands j (after mk)))))
    ∙ rw (last_mark mk next).1
        (ap (parsed (in_back j (meaning x))) (IsFresh.trim (after-IsFresh mk)))

parseline-sequence :
    (n j : ℕ) (x : Tree pipeline) (y : Tree line) (mk : Mark)
    → length (print (sequence x j y) (after mk)) < n
    → parsepipe (parseline n) n (print x (after (backs j (then_next (print y (after mk))))))
      ≡ parsed (meaning x) (after (backs j (then_next (print y (after mk)))))
    → skip (print y (after mk)) ≡ print y (after mk)
    → parseline n (print y (after mk)) ≡ parsed (meaning y) (after mk)
    → parseline (suc n) (print (sequence x j y) (after mk))
      ≡ parsed (meaning (sequence x j y)) (after mk)
unfolding parseline print meaning token skip is_space is_symbol peek
parseline-sequence n j x y mk low ih trim ih' =
    let t = print y (after mk) in
    let e = after-backs j (then_next t) in
    bound (parsepipe (parseline n) n (print x (ampersands j (b';' ∷ t)))) _ (meaning x)
      (ampersands j (b';' ∷ t))
      (ap (λ r. parsepipe (parseline n) n (print x r)) (sym e) ∙ ih ∙ ap (parsed (meaning x)) e)
    ∙ bound (parseback n (meaning x) (ampersands j (b';' ∷ t))) _ (in_back j (meaning x)) (b';' ∷ t)
        (parseback-ampersands n j (meaning x) (then_next t) refl
          (omega (arith, low, length-print x (ampersands j (b';' ∷ t)))))
    ∙ bound (parseline n (skip t)) _ (meaning y) (after mk) (ap (parseline n) trim ∙ ih')

parse-print :
    {k : Level} (x : Tree k) (mk : Mark) (n m : ℕ)
    → IsTree x
    → IsNext k mk
    → Fits k n m (length (print x (after mk)))
    → parse_at k n m (print x (after mk)) ≡ parsed (meaning x) (after mk)
unfolding print IsTree meaning
parse-print (simple rs args) mk n m p next (fit, fit') = parseexec-simple n m rs args mk p fit'
parse-print (block x rs) mk n m (p, ps) next (fit, fit') =
    let f = print_files rs (after mk) in
    parseexec-block n m x rs mk ps (print-trim x (closes f) p)
      (parse-print x (closes f) n m p tt (omega (arith, fit)))
      (omega (arith, fit', length-print x (b')' ∷ f)))
parse-print (one x) mk n zero p next (fit, fit') = absurd (omega (arith, fit'))
parse-print (one x) mk n (suc m) p next (fit, fit') =
    parsepipe-one n m (print x (after mk)) (meaning x) mk next
      (parse-print x mk n m p tt (omega (arith, fit), omega (arith, fit')))
parse-print (pipe x y) mk n zero p next (fit, fit') = absurd (omega (arith, fit'))
parse-print (pipe x y) mk n (suc m) (p, q) next (fit, fit') =
    let t = print y (after mk) in
    let longer = length-print x (b'|' ∷ t) in
    parsepipe-pipe n m (print x (b'|' ∷ t)) t (meaning x) (meaning y) mk
      (parse-print x (into t) n m p tt (omega (arith, fit), omega (arith, fit')))
      (print-trim y mk q)
      (parse-print y mk n m q next (omega (arith, fit, longer), omega (arith, fit', longer)))
parse-print (last x j) mk zero m p next fit = absurd (omega (arith, fit))
parse-print (last x j) mk (suc n) m p next fit =
    let same = ap (λ t. length (print x t)) (after-backs j mk) in
    parseline-last n j x mk next (omega (arith, fit)) (
      parse-print x (backs j mk) n n p (backs-IsNext j mk (line-pipeline mk next))
        (omega (arith, fit, same), omega (arith, fit, same)))
parse-print (sequence x j y) mk zero m p next fit = absurd (omega (arith, fit))
parse-print (sequence x j y) mk (suc n) m (p, q) next fit =
    let t = print y (after mk) in
    let same = ap (λ r. length (print x r)) (after-backs j (then_next t)) in
    let longer = length-print x (ampersands j (b';' ∷ t)) in
    parseline-sequence n j x y mk (omega (arith, fit))
      (parse-print x (backs j (then_next t)) n n p (backs-IsNext j (then_next t) tt)
        (omega (arith, fit, same), omega (arith, fit, same)))
      (print-trim y mk q)
      (parse-print y mk n m q next (omega (arith, fit, longer, length-ampersands j (b';' ∷ t))))

-- A line of words, files, pipes, lists, blocks and commands in the background is parsed to the command that
-- it stands for: for every tree whose words are not empty and have no space or symbol, and whose
-- commands have fewer than MAXARGS words, `parsecmd` of the line that is written for it, with a space
-- after each word, gives its meaning.
pub parsecmd-print : (x : Tree line) → IsTree x → parsecmd (print x []) ≡ parsed (meaning x) []
unfolding parsecmd skip
parsecmd-print x p =
    bound (parseline (length (print x []) + 3) (print x [])) _ (meaning x) []
      (parse-print x over (length (print x []) + 3) 0 p tt (omega arith))
    ∙ refl
