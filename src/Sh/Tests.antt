-- ===== src/Sh/Tests.antt =====
-- Command lines.
use cuhksz_operating_system.Prelude.{ℕ, ◌≡◌, ◌⊎◌, refl, arith, List, [], ◌∷◌}
use cuhksz_operating_system.Sh.Fuel.{parsecmd-ends}
use cuhksz_operating_system.Sh.Grammar.{
  Tree, line, simple, block, one, pipe, last, sequence, print, meaning, AreFiles, AreArgs, IsTree,
}
use cuhksz_operating_system.Sh.RoundTrip.{parsecmd-print}
use cuhksz_operating_system.Sh.{
  Command, execcmd, redircmd, pipecmd, listcmd, backcmd, truncate, parsed, syntax, is_space,
  is_symbol, is_redir, is_stop, skip, take_word, token, peek, parseredirs, redirected, parseargs,
  parseblock, parseexec, parsepipe, parseback, parseline, parsecmd,
}

-- "a b | (c;d)>f &"
abbrev sample : List ℕ
sample =
    b'a' ∷ b' ' ∷ b'b' ∷ b' ' ∷ b'|' ∷ b' ' ∷ b'(' ∷ b'c' ∷ b';' ∷ b'd' ∷ b')' ∷ b'>' ∷ b'f' ∷ b' '
    ∷ b'&' ∷ []

abbrev one_byte : ℕ → List ℕ
one_byte c = c ∷ []

sample_parsed :
    parsecmd sample
    ≡ parsed
        (backcmd (
          pipecmd (execcmd (one_byte b'a' ∷ one_byte b'b' ∷ [])) (
            redircmd
              (listcmd (execcmd (one_byte b'c' ∷ [])) (execcmd (one_byte b'd' ∷ [])))
              (one_byte b'f')
              truncate)))
        []
unfolding is_space is_symbol is_redir is_stop skip take_word token peek parseredirs redirected
    parseargs parseblock parseexec parsepipe parseback parseline parsecmd
sample_parsed = refl

parsecmd-ends_example :
    ((cmd : Command) × (parsecmd sample ≡ parsed cmd [])) ⊎ (parsecmd sample ≡ syntax)
parsecmd-ends_example = parsecmd-ends sample

-- "a b |(c ;d )>f &"
abbrev tree : Tree line
tree =
    last
      (pipe
        (simple [] (
          record { text = (one_byte b'a'); files = [] }
          ∷ record { text = (one_byte b'b'); files = [] }
          ∷ []))
        (one (
          block
            (sequence (one (simple [] (record { text = (one_byte b'c'); files = [] } ∷ []))) 0
              (last (one (simple [] (record { text = (one_byte b'd'); files = [] } ∷ []))) 0))
            (((one_byte b'f'), truncate) ∷ []))))
      1

tree-IsTree : IsTree tree
unfolding IsTree AreFiles AreArgs is_space is_symbol
tree-IsTree = (
  (tt, ((refl, refl, tt), tt, ((refl, refl, tt), tt, tt)), omega arith),
  (
    ((tt, ((refl, refl, tt), tt, tt), omega arith), (tt, ((refl, refl, tt), tt, tt), omega arith)),
    ((refl, refl, tt), tt),
  ),
)

parsecmd-print_example : parsecmd (print tree []) ≡ parsed (meaning tree) []
parsecmd-print_example = parsecmd-print tree tree-IsTree
