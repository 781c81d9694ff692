-- ===== src/Strings/Compare.antt =====
-- `strncmp` of string.c finds the first difference of two strings.
use cuhksz_operating_system.Prelude.{
  ℕ, zero, suc, ◌+◌, ◌<◌, ◌≡◌, ◌≢◌, ◌⊎◌, inl, inr, refl, sym, ap, ◌∙◌, ◌==◌, arith, Bool-cases,
  ==→eq, ==→ne,
}
use cuhksz_operating_system.Strings.{Memory, Difference, minus, nothing, strncmp}

-- The strings are the same up to `n` bytes or to their end, or `r` compares their first difference.
pub Compares : ℕ → ℕ → ℕ → Memory → Difference → Type 0
Compares p q n m r =
    ((r ≡ nothing) × ((i : ℕ) → i < n → ((j : ℕ) → j < i → m (p + j) ≢ 0) → m (p + i) ≡ m (q + i)))
    ⊎ ((i : ℕ) × (i < n)
        × ((j : ℕ) → j < i → (m (p + j) ≢ 0) × (m (p + j) ≡ m (q + j)))
        × (m (p + i) ≢ m (q + i))
        × (r ≡ minus (m (p + i)) (m (q + i))))

shift : (m : Memory) (p i : ℕ) → m (p + suc i) ≡ m (p + 1 + i)
shift m p i = ap m (omega arith)

at_start : (m : Memory) (p : ℕ) → m (p + 0) ≡ m p
at_start m p = ap m (omega arith)

-- One equal byte that does not end the strings is passed over.
Compares-next :
    (p q n : ℕ) (m : Memory) (r : Difference)
    → m p ≢ 0
    → m p ≡ m q
    → Compares (p + 1) (q + 1) n m r
    → Compares p q (suc n) m r
unfolding Compares
Compares-next p q n m r full same (inl (e, all)) = inl (e, agree)
  where
    agree : (i : ℕ) → i < suc n → ((j : ℕ) → j < i → m (p + j) ≢ 0) → m (p + i) ≡ m (q + i)
    agree zero h before = at_start m p ∙ same ∙ sym (at_start m q)
    agree (suc i) h before =
        shift m p i
        ∙ all i (omega arith) (λ j lt e'. before (suc j) (omega arith) (shift m p j ∙ e'))
        ∙ sym (shift m q i)
Compares-next p q n m r full same (inr (i, low, before, differ, e)) = inr (
  suc i,
  omega arith,
  passed,
  λ e'. differ (sym (shift m p i) ∙ e' ∙ shift m q i),
  e
      ∙ ap (λ (x : ℕ). minus x (m (q + 1 + i))) (sym (shift m p i))
      ∙ ap (λ (y : ℕ). minus (m (p + suc i)) y) (sym (shift m q i)),
)
  where
    passed : (j : ℕ) → j < suc i → (m (p + j) ≢ 0) × (m (p + j) ≡ m (q + j))
    passed zero h = (λ e'. full (sym (at_start m p) ∙ e'), at_start m p ∙ same ∙ sym (at_start m q))
    passed (suc j) h =
        let b = before j (omega arith) in
        (λ e'. b.0 (sym (shift m p j) ∙ e'), shift m p j ∙ b.1 ∙ sym (shift m q j))

Compares-here :
    (p q n : ℕ) (m : Memory) (r : Difference)
    → m p ≢ m q
    → r ≡ minus (m p) (m q)
    → Compares p q (suc n) m r
unfolding Compares
Compares-here p q n m r differ e = inr (
  0,
  omega arith,
  λ j h. absurd (omega arith),
  λ e'. differ (sym (at_start m p) ∙ e' ∙ at_start m q),
  e
      ∙ ap (λ (x : ℕ). minus x (m q)) (sym (at_start m p))
      ∙ ap (λ (y : ℕ). minus (m (p + 0)) y) (sym (at_start m q)),
)

Compares-end :
    (p q n : ℕ) (m : Memory) (r : Difference)
    → m p ≡ 0
    → m p ≡ m q
    → r ≡ nothing
    → Compares p q (suc n) m r
unfolding Compares
Compares-end p q n m r end same e = inl (e, agree)
  where
    agree : (i : ℕ) → i < suc n → ((j : ℕ) → j < i → m (p + j) ≢ 0) → m (p + i) ≡ m (q + i)
    agree zero h before = at_start m p ∙ same ∙ sym (at_start m q)
    agree (suc i) h before = absurd (before 0 (omega arith) (at_start m p ∙ end))

-- `strncmp` returns 0 exactly when the strings agree in each of their first `n` bytes up to the first
-- zero byte; otherwise it returns the difference of the first bytes that differ, `uchar` less `uchar`.
pub strncmp-Compares : (p q n : ℕ) (m : Memory) → Compares p q n m (strncmp p q n m)
unfolding strncmp Compares
strncmp-Compares p q zero m = inl (refl, λ i h. absurd (omega arith))
strncmp-Compares p q (suc n) m = elim (Bool-cases (m p == m q)) [
  | inr differ ↦ Compares-here p q n m _ (==→ne _ _ differ) (ground (arith, differ))
  | inl same ↦ elim (Bool-cases (m p == 0)) [
    | inl end ↦
        Compares-end p q n m _ (==→eq _ _ end) (==→eq _ _ same)
          (ground (arith, end, ==→eq _ _ same))
    | inr full ↦
        rw (full, same, strncmp)
          (Compares-next p q n m _ (==→ne _ _ full) (==→eq _ _ same)
            (strncmp-Compares (p + 1) (q + 1) n m))
  ]
]
