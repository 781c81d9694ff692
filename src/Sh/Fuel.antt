-- ===== src/Sh/Fuel.antt =====
-- The parser of sh.c comes to an end: the fuel of `parsecmd` is enough for every line.
use cuhksz_operating_system.Prelude.{
  ℕ, zero, suc, ◌+◌, ◌≤◌, ◌<◌, ◌≡◌, ◌⊎◌, inl, inr, refl, ap, true, not, ◌||◌, List, [], leb, ◌==◌,
  if◌then◌else◌, length, arith, Bool-cases, ==→ne,
}
use cuhksz_operating_system.Sh.{
  Command, backcmd, maxargs, Parse, parsed, syntax, out_of_fuel, ◌>>=◌, skip, gettoken, peek,
  is_redir, is_stop, parseredirs, parseargs, parseblock, parseexec, parsepipe, parseback, parseline,
  all_parsed, parsecmd,
}
use cuhksz_operating_system.Sh.Shorter.{length-skip, shorter, not_longer, peeked}

-- The result is not the end of the fuel, and what is left of the line is at most `n` bytes.
abbrev pub Ends : {A : Type 0} → ℕ → Parse A → Type 0
Ends n (parsed a t) = length t ≤ n
Ends n syntax = Unit
Ends n out_of_fuel = ⊥

Ends-bind :
    {A B : Type 0} (n k : ℕ) (m : Parse A) (f : A → List ℕ → Parse B)
    → Ends n m
    → ((a : A) (t : List ℕ) → length t ≤ n → Ends k (f a t))
    → Ends k (m >>= f)
Ends-bind n k (parsed a t) f e h = h a t e
Ends-bind n k syntax f e h = tt
Ends-bind n k out_of_fuel f e h = e

parseredirs-Ends : (n : ℕ) (s : List ℕ) → length s < n → Ends (length s) (parseredirs n s)
unfolding parseredirs
parseredirs-Ends zero s low = absurd (omega (arith, low))
parseredirs-Ends (suc n) s low =
    let s₁ = (gettoken s).2 in
    let s₂ = (gettoken s₁).2 in
    elim (Bool-cases (peek is_redir (skip s))) [
      | inr e ↦ rw (e, parseredirs) (length-skip s)
      | inl e ↦ elim (Bool-cases ((gettoken s₁).0 == b'a')) [
        | inr e' ↦ rw (e, parseredirs) (rw e' tt)
        | inl e' ↦
            let fits = peeked is_redir s e in
            let ih = parseredirs-Ends n s₂ (omega (arith, low, fits, not_longer s₁)) in
            rw (e, parseredirs)
              (rw e' (
                Ends-bind (length s₂) (length s) (parseredirs n s₂) _ ih
                  (λ rs t h. omega (arith, h, fits, not_longer s₁))))
      ]
    ]

parseargs-Ends : (n argc : ℕ) (s : List ℕ) → length s < n → Ends (length s) (parseargs n argc s)
unfolding parseargs
parseargs-Ends zero argc s low = absurd (omega (arith, low))
parseargs-Ends (suc n) argc s low = elim (Bool-cases (peek is_stop (skip s))) [
  | inl e ↦ rw (e, parseargs) (length-skip s)
  | inr e ↦ elim (Bool-cases ((gettoken s).0 == 0)) [
    | inl e' ↦ rw (e, parseargs) (rw e' (not_longer s))
    | inr e' ↦ elim (Bool-cases (not ((gettoken s).0 == b'a') || leb maxargs (argc + 1))) [
      | inl e'' ↦ rw (e, parseargs) (rw e' (rw e'' tt))
      | inr e'' ↦
          let s₁ = (gettoken s).2 in
          let less : length s₁ < length s = elim (shorter s) [
            | inl h ↦ absurd (==→ne _ _ e' (ap (λ (r : ℕ × List ℕ × List ℕ). r.0) h.1))
            | inr h ↦ h
          ] in
          rw (e, parseargs)
            (rw e' (
              rw e'' (
                Ends-bind (length s₁) (length s) (parseredirs n s₁) _
                  (parseredirs-Ends n s₁ (omega (arith, low, less)))
                  (λ rs t h.
                    Ends-bind (length t) (length s) (parseargs n (argc + 1) t) _
                      (parseargs-Ends n (argc + 1) t (omega (arith, low, less, h)))
                      (λ a u h'. omega (arith, h, h', less))))))
    ]
  ]
]

-- The line of a block or after a `;` is parsed if it is shorter than `n`.
abbrev LineEnds : ℕ → (List ℕ → Parse Command) → Type 0
LineEnds n line = (t : List ℕ) → length t < n → Ends (length t) (line t)

parseblock-Ends :
    (line : List ℕ → Parse Command) (n : ℕ) (s : List ℕ)
    → LineEnds (length s) line
    → length s < n
    → peek (λ c. c == b'(') (skip s) ≡ true
    → Ends (length s) (parseblock line n s)
unfolding parseblock
parseblock-Ends line n s ok low e =
    let s₁ = (gettoken s).2 in
    let less = peeked (λ c. c == b'(') s e in
    Ends-bind (length s₁) (length s) (line s₁) _ (ok s₁ less) (λ cmd t h.
      elim (Bool-cases (peek (λ c. c == b')') (skip t))) [
        | inr e' ↦ rw e' tt
        | inl e' ↦ rw e' (
            Ends-bind (length (gettoken t).2) (length s) (parseredirs n (gettoken t).2) _
              (parseredirs-Ends n (gettoken t).2 (omega (arith, low, less, h, not_longer t)))
              (λ rs u h'. omega (arith, less, h, h', not_longer t)))
      ])

parseexec-Ends :
    (line : List ℕ → Parse Command) (n : ℕ) (s : List ℕ)
    → LineEnds (length s) line
    → length s < n
    → Ends (length s) (parseexec line n s)
unfolding parseexec
parseexec-Ends line n s ok low = elim (Bool-cases (peek (λ c. c == b'(') (skip s))) [
  | inl e ↦ rw (e, parseexec) (parseblock-Ends line n s ok low e)
  | inr e ↦
      rw (e, parseexec)
        (Ends-bind (length s) (length s) (parseredirs n s) _ (parseredirs-Ends n s low) (λ rs t h.
          Ends-bind (length t) (length s) (parseargs n 0 t) _
            (parseargs-Ends n 0 t (omega (arith, low, h))) (λ a u h'. omega (arith, h, h'))))
]

parsepipe-Ends :
    (line : List ℕ → Parse Command) (n : ℕ) (s : List ℕ)
    → LineEnds (length s) line
    → length s + 1 < n
    → Ends (length s) (parsepipe line n s)
unfolding parsepipe
parsepipe-Ends line zero s ok low = absurd (omega (arith, low))
parsepipe-Ends line (suc n) s ok low =
    Ends-bind (length s) (length s) (parseexec line n s) _
      (parseexec-Ends line n s ok (omega (arith, low)))
      (λ cmd t h. elim (Bool-cases (peek (λ c. c == b'|') (skip t))) [
        | inr e ↦ rw e (omega (arith, h, length-skip t))
        | inl e ↦
            let t₁ = (gettoken t).2 in
            let less = peeked (λ c. c == b'|') t e in
            rw e (
              Ends-bind (length t₁) (length s) (parsepipe line n t₁) _
                (parsepipe-Ends line n t₁ (λ u h'. ok u (omega (arith, h', less, h)))
                  (omega (arith, low, less, h)))
                (λ right u h'. omega (arith, h, h', less)))
      ])

parseback-Ends :
    (n : ℕ) (cmd : Command) (s : List ℕ) → length s < n → Ends (length s) (parseback n cmd s)
unfolding parseback
parseback-Ends zero cmd s low = absurd (omega (arith, low))
parseback-Ends (suc n) cmd s low = elim (Bool-cases (peek (λ c. c == b'&') (skip s))) [
  | inr e ↦ rw (e, parseback) (length-skip s)
  | inl e ↦
      let less = peeked (λ c. c == b'&') s e in
      rw (e, parseback)
        (weaker (length (gettoken s).2) (length s) (parseback n (backcmd cmd) (gettoken s).2)
          (parseback-Ends n (backcmd cmd) (gettoken s).2 (omega (arith, low, less)))
          (omega (arith, less)))
]
  where
    weaker : (a b : ℕ) (m : Parse Command) → Ends a m → a ≤ b → Ends b m
    weaker a b (parsed c t) h le = omega (arith, h, le)
    weaker a b syntax h le = tt
    weaker a b out_of_fuel h le = h

parseline-Ends : (n : ℕ) (s : List ℕ) → length s + 2 < n → Ends (length s) (parseline n s)
unfolding parseline
parseline-Ends zero s low = absurd (omega (arith, low))
parseline-Ends (suc n) s low =
    let ok : LineEnds (length s) (parseline n) =
      λ t h. parseline-Ends n t (omega (arith, h, low)) in
    Ends-bind (length s) (length s) (parsepipe (parseline n) n s) _
      (parsepipe-Ends (parseline n) n s ok (omega (arith, low)))
      (λ cmd t h.
        Ends-bind (length t) (length s) (parseback n cmd t) _
          (parseback-Ends n cmd t (omega (arith, low, h)))
          (λ cmd' u h'. elim (Bool-cases (peek (λ c. c == b';') (skip u))) [
            | inr e ↦ rw e (omega (arith, h, h', length-skip u))
            | inl e ↦
                let u₁ = (gettoken u).2 in
                let less = peeked (λ c. c == b';') u e in
                rw e (
                  Ends-bind (length u₁) (length s) (parseline n u₁) _
                    (ok u₁ (omega (arith, h, h', less)))
                    (λ right v h''. omega (arith, h, h', h'', less)))
          ]))

-- `parsecmd` comes to an end on every line: it gives a command, and then the whole line is used, or it
-- panics.
pub parsecmd-ends :
    (s : List ℕ) → ((cmd : Command) × (parsecmd s ≡ parsed cmd [])) ⊎ (parsecmd s ≡ syntax)
unfolding parsecmd
parsecmd-ends s =
    by_result (parseline (length s + 3) s) (parseline-Ends (length s + 3) s (omega arith))
  where
    by_result :
        (m : Parse Command)
        → Ends (length s) m
        → ((cmd : Command) × ((m
                >>= (λ cmd' t. if all_parsed (skip t) then parsed cmd' [] else syntax))
              ≡ parsed cmd []))
          ⊎ ((m >>= (λ cmd' t. if all_parsed (skip t) then parsed cmd' [] else syntax)) ≡ syntax)
    by_result (parsed cmd t) h = elim (Bool-cases (all_parsed (skip t))) [
      | inl e ↦ inl (cmd, rw e refl)
      | inr e ↦ inr (rw e refl)
    ]
    by_result syntax h = inr refl
    by_result out_of_fuel h = absurd h
