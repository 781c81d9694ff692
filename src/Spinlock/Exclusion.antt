-- ===== src/Spinlock/Exclusion.antt =====
-- Two processors never hold the same lock of spinlock.c.
use cuhksz_operating_system.Prelude.{
  ℕ, ◌≡◌, ◌≢◌, ◌⊎◌, inl, inr, refl, sym, ap, ◌∙◌, subst, Bool, true, false, ◌||◌, Option, none,
  some, ◌==◌, arith, Bool-cases, ==→eq, ==→ne, eq→==, ne→==,
}
use cuhksz_operating_system.Spinlock.{
  Phase, running, spinning, swapped, clearing, Machine, is_owner, set_locked, set_owner, set_phase,
  take, give_back,
}

-- A processor that took the lock and has not given it back.
abbrev pub keeps : Phase → ℕ → Bool
keeps running lk = false
keeps (spinning l) lk = false
keeps (swapped l) lk = l == lk
keeps (clearing l) lk = l == lk

abbrev pub clears : Phase → ℕ → Bool
clears running lk = false
clears (spinning l) lk = false
clears (swapped l) lk = false
clears (clearing l) lk = l == lk

unfoldable pub holds : ℕ → ℕ → Machine → Bool
holds c lk m = is_owner (m.owner lk) c || keeps (m.phase c) lk

pub record IsExclusive (m : Machine) : Type 0 where
  pub locked : (c lk : ℕ) → holds c lk m ≡ true → m.locked lk ≡ true
  pub one : (c c' lk : ℕ) → holds c lk m ≡ true → holds c' lk m ≡ true → c ≡ c'
  pub cleared : (c lk : ℕ) → clears (m.phase c) lk ≡ true → m.owner lk ≡ none

-- A step after which nobody holds a lock who did not before.
fewer :
    (m m' : Machine)
    → IsExclusive m
    → ((c lk : ℕ) → holds c lk m' ≡ true → holds c lk m ≡ true)
    → ((c lk : ℕ) → holds c lk m' ≡ true → m'.locked lk ≡ true)
    → ((c lk : ℕ) → clears (m'.phase c) lk ≡ true → m'.owner lk ≡ none)
    → IsExclusive m'
fewer m m' v sub locked cleared = record {
  locked = locked;
  one = λ c c' lk h h'. v.one c c' lk (sub c lk h) (sub c' lk h');
  cleared = cleared;
}

or_cases : (a b : Bool) → (a || b) ≡ true → (a ≡ true) ⊎ (b ≡ true)
or_cases true b h = inl refl
or_cases false b h = inr h

-- A processor holds a lock by `lk->cpu`, or by where it is.
pub split :
    (c lk : ℕ) (m : Machine)
    → holds c lk m ≡ true
    → (is_owner (m.owner lk) c ≡ true) ⊎ (keeps (m.phase c) lk ≡ true)
unfolding holds
split c lk m h = or_cases (is_owner (m.owner lk) c) (keeps (m.phase c) lk) h

pub by_owner : (c lk : ℕ) (m : Machine) → is_owner (m.owner lk) c ≡ true → holds c lk m ≡ true
unfolding holds
by_owner c lk m h = rw h refl

pub by_phase : (c lk : ℕ) (m : Machine) → keeps (m.phase c) lk ≡ true → holds c lk m ≡ true
unfolding holds
by_phase c lk m h = elim (Bool-cases (is_owner (m.owner lk) c)) [
  | inl e ↦ rw e refl
  | inr e ↦ rw (e, h) refl
]

clears_keeps : (q : Phase) (lk : ℕ) → clears q lk ≡ true → keeps q lk ≡ true
clears_keeps running lk h = h
clears_keeps (spinning l) lk h = h
clears_keeps (swapped l) lk h = absurd (ground (arith, h))
clears_keeps (clearing l) lk h = h

pub false_true : {A : Type 0} → false ≡ true → A
false_true h = absurd (ground (arith, h))

pub same_or_not : (j s : ℕ) → (j ≡ s) ⊎ (j ≢ s)
same_or_not j s = elim (Bool-cases (j == s)) [
  | inl e ↦ inl (==→eq j s e)
  | inr e ↦ inr (==→ne j s e)
]

module _ (c : ℕ) (q : Phase) (m : Machine) where
  pub at_phase : (d : ℕ) → d ≡ c → (set_phase c q m).phase d ≡ q
  at_phase d e = rw (eq→== d c e) refl

  pub off_phase : (d : ℕ) → d ≢ c → (set_phase c q m).phase d ≡ m.phase d
  off_phase d e = rw (ne→== d c e) refl

  -- What holds of the phases after one changes.
  pub phase_cases :
      (test : Phase → ℕ → Bool) (d lk : ℕ)
      → test ((set_phase c q m).phase d) lk ≡ true
      → ((d ≡ c) × (test q lk ≡ true)) ⊎ ((d ≢ c) × (test (m.phase d) lk ≡ true))
  phase_cases test d lk h = elim (same_or_not d c) [
    | inl e ↦ inl (e, ap (λ x. test x lk) (sym (at_phase d e)) ∙ h)
    | inr e ↦ inr (e, ap (λ x. test x lk) (sym (off_phase d e)) ∙ h)
  ]

module _ (lk : ℕ) (o : Option ℕ) (m : Machine) where
  at_owner : (l : ℕ) → l ≡ lk → (set_owner lk o m).owner l ≡ o
  at_owner l e = rw (eq→== l lk e) refl

  off_owner : (l : ℕ) → l ≢ lk → (set_owner lk o m).owner l ≡ m.owner l
  off_owner l e = rw (ne→== l lk e) refl

module _ (lk : ℕ) (b : Bool) (m : Machine) where
  pub at_locked : (l : ℕ) → l ≡ lk → (set_locked lk b m).locked l ≡ b
  at_locked l e = rw (eq→== l lk e) refl

  pub off_locked : (l : ℕ) → l ≢ lk → (set_locked lk b m).locked l ≡ m.locked l
  off_locked l e = rw (ne→== l lk e) refl

module _ (lk c : ℕ) (m : Machine) (v : IsExclusive m) where
  pub acquire-IsExclusive : IsExclusive (set_phase c (spinning lk) m)
  acquire-IsExclusive =
      let m' = set_phase c (spinning lk) m in
      let sub : (d l : ℕ) → holds d l m' ≡ true → holds d l m ≡ true = λ d l h.
        elim (split d l m' h) [
          | inl o ↦ by_owner d l m o
          | inr k ↦ elim (phase_cases c (spinning lk) m keeps d l k) [
            | inl x ↦ false_true x.1
            | inr x ↦ by_phase d l m x.1
          ]
        ] in
      fewer m m' v sub (λ d l h. v.locked d l (sub d l h))
        (λ d l h. elim (phase_cases c (spinning lk) m clears d l h) [
          | inl x ↦ false_true x.1
          | inr x ↦ v.cleared d l x.1
        ])

  -- The processor that swapped holds the lock.
  swapped_holds : m.phase c ≡ swapped lk → holds c lk m ≡ true
  swapped_holds p = by_phase c lk m (ap (λ q. keeps q lk) p ∙ eq→== lk lk refl)

  clearing_holds : m.phase c ≡ clearing lk → holds c lk m ≡ true
  clearing_holds p = by_phase c lk m (ap (λ q. keeps q lk) p ∙ eq→== lk lk refl)

  pub take-IsExclusive : m.phase c ≡ swapped lk → IsExclusive (take lk c m)
  unfolding take
  take-IsExclusive p =
      let m₁ = set_owner lk (some c) m in
      let m' = set_phase c running m₁ in
      let sub : (d l : ℕ) → holds d l m' ≡ true → holds d l m ≡ true = λ d l h.
        elim (split d l m' h) [
          | inl o ↦ elim (same_or_not l lk) [
            | inl e ↦
                let is_c =
                  ==→eq c d (ap (λ x. is_owner x d) (sym (at_owner lk (some c) m l e)) ∙ o) in
                subst (λ k. holds d k m ≡ true) (sym e)
                  (subst (λ k. holds k lk m ≡ true) is_c (swapped_holds p))
            | inr e ↦
                by_owner d l m (ap (λ x. is_owner x d) (sym (off_owner lk (some c) m l e)) ∙ o)
          ]
          | inr k ↦ elim (phase_cases c running m₁ keeps d l k) [
            | inl x ↦ false_true x.1
            | inr x ↦ by_phase d l m x.1
          ]
        ] in
      fewer m m' v sub (λ d l h. v.locked d l (sub d l h))
        (λ d l h. elim (phase_cases c running m₁ clears d l h) [
          | inl x ↦ false_true x.1
          | inr x ↦ elim (same_or_not l lk) [
            | inl e ↦ absurd (
                x.0 (
                  v.one d c lk
                    (by_phase d lk m
                      (ap (keeps (m.phase d)) (sym e) ∙ clears_keeps (m.phase d) l x.1))
                    (swapped_holds p)))
            | inr e ↦ off_owner lk (some c) m l e ∙ v.cleared d l x.1
          ]
        ])

  pub release-IsExclusive :
      is_owner (m.owner lk) c ≡ true → IsExclusive (set_phase c (clearing lk) (set_owner lk none m))
  release-IsExclusive own =
      let m₁ = set_owner lk none m in
      let m' = set_phase c (clearing lk) m₁ in
      let sub : (d l : ℕ) → holds d l m' ≡ true → holds d l m ≡ true = λ d l h.
        elim (split d l m' h) [
          | inl o ↦ elim (same_or_not l lk) [
            | inl e ↦ false_true (ap (λ x. is_owner x d) (sym (at_owner lk none m l e)) ∙ o)
            | inr e ↦ by_owner d l m (ap (λ x. is_owner x d) (sym (off_owner lk none m l e)) ∙ o)
          ]
          | inr k ↦ elim (phase_cases c (clearing lk) m₁ keeps d l k) [
            | inl x ↦
                subst (λ k'. holds k' l m ≡ true) (sym x.0)
                  (subst (λ k'. holds c k' m ≡ true) (==→eq lk l x.1) (by_owner c lk m own))
            | inr x ↦ by_phase d l m x.1
          ]
        ] in
      fewer m m' v sub (λ d l h. v.locked d l (sub d l h))
        (λ d l h. elim (same_or_not l lk) [
          | inl e ↦ at_owner lk none m l e
          | inr e ↦ off_owner lk none m l e ∙ elim (phase_cases c (clearing lk) m₁ clears d l h) [
            | inl x ↦ absurd (e (sym (==→eq lk l x.1)))
            | inr x ↦ v.cleared d l x.1
          ]
        ])

  pub give_back-IsExclusive : m.phase c ≡ clearing lk → IsExclusive (give_back lk c m)
  unfolding give_back
  give_back-IsExclusive p =
      let m₁ = set_locked lk false m in
      let m' = set_phase c running m₁ in
      let empty : m.owner lk ≡ none = v.cleared c lk (ap (λ q. clears q lk) p ∙ eq→== lk lk refl) in
      let sub : (d l : ℕ)
          → holds d l m' ≡ true
          → (d ≢ c ⊎ is_owner (m.owner l) d ≡ true) × (holds d l m ≡ true) =
        λ d l h. elim (split d l m' h) [
          | inl o ↦ (inr o, by_owner d l m o)
          | inr k ↦ elim (phase_cases c running m₁ keeps d l k) [
            | inl x ↦ false_true x.1
            | inr x ↦ (inl x.0, by_phase d l m x.1)
          ]
        ] in
      fewer m m' v (λ d l h. (sub d l h).1)
        (λ d l h. elim (same_or_not l lk) [
          | inl e ↦
              let d_is_c =
                v.one d c lk (subst (λ k. holds d k m ≡ true) e (sub d l h).1) (clearing_holds p) in
              elim (sub d l h).0 [
                | inl ne ↦ absurd (ne d_is_c)
                | inr o ↦ false_true (ap (λ x. is_owner x d) (sym (ap m.owner e ∙ empty)) ∙ o)
              ]
          | inr e ↦ off_locked lk false m l e ∙ v.locked d l (sub d l h).1
        ])
        (λ d l h. elim (phase_cases c running m₁ clears d l h) [
          | inl x ↦ false_true x.1
          | inr x ↦ v.cleared d l x.1
        ])
