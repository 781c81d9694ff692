-- ===== src/Spinlock/Mutual.antt =====
-- Mutual exclusion in every machine that steps of `acquire` and `release` of spinlock.c lead to.
use cuhksz_operating_system.Prelude.{
  ℕ, ◌≡◌, ◌⊎◌, inl, inr, refl, sym, ap, ◌∙◌, subst, true, false, Option, none, some, arith,
  Bool-cases, ==→eq,
}
use cuhksz_operating_system.Spinlock.{
  swapped, Machine, is_owner, holding, set_locked, set_phase, start_acquire, swap, start_release,
  Reached, booted, acquires, swaps, takes, releases, gives_back,
}
use cuhksz_operating_system.Spinlock.Exclusion.{
  keeps, clears, holds, IsExclusive, split, by_owner, by_phase, same_or_not, phase_cases, at_locked,
  off_locked, acquire-IsExclusive, take-IsExclusive, release-IsExclusive, give_back-IsExclusive,
  false_true,
}

-- The swap finds the lock taken.
busy-IsExclusive : (lk : ℕ) (m : Machine) → IsExclusive m → IsExclusive (set_locked lk true m)
unfolding holds
busy-IsExclusive lk m v = record {
  locked = λ d l h. elim (same_or_not l lk) [
    | inl e ↦ at_locked lk true m l e
    | inr e ↦ off_locked lk true m l e ∙ v.locked d l h
  ];
  one = v.one;
  cleared = v.cleared;
}

-- The swap takes the lock.
won-IsExclusive :
    (lk c : ℕ) (m : Machine)
    → IsExclusive m
    → m.locked lk ≡ false
    → IsExclusive (set_locked lk true (set_phase c (swapped lk) m))
won-IsExclusive lk c m v free =
    let m₁ = set_phase c (swapped lk) m in
    let m' = set_locked lk true m₁ in
    let who : (d l : ℕ) → holds d l m' ≡ true → (holds d l m ≡ true) ⊎ ((d ≡ c) × (l ≡ lk)) =
      λ d l h. elim (split d l m' h) [
        | inl o ↦ inl (by_owner d l m o)
        | inr k ↦ elim (phase_cases c (swapped lk) m keeps d l k) [
          | inl x ↦ inr (x.0, sym (==→eq lk l x.1))
          | inr x ↦ inl (by_phase d l m x.1)
        ]
      ] in
    record {
      locked = λ d l h. elim (same_or_not l lk) [
        | inl e ↦ at_locked lk true m₁ l e
        | inr e ↦
            off_locked lk true m₁ l e
            ∙ elim (who d l h) [ inl x ↦ v.locked d l x | inr x ↦ absurd (e x.1) ]
      ];
      one = λ d d' l h h'. elim (who d l h) [
        | inl x ↦ elim (who d' l h') [
          | inl y ↦ v.one d d' l x y
          | inr y ↦ false_true (sym (ap m.locked y.1 ∙ free) ∙ v.locked d l x)
        ]
        | inr x ↦ elim (who d' l h') [
          | inl y ↦ false_true (sym (ap m.locked x.1 ∙ free) ∙ v.locked d' l y)
          | inr y ↦ x.0 ∙ sym y.0
        ]
      ];
      cleared = λ d l h. elim (phase_cases c (swapped lk) m clears d l h) [
        | inl x ↦ false_true x.1
        | inr x ↦ v.cleared d l x.1
      ];
    }

swap-IsExclusive : (lk c : ℕ) (m : Machine) → IsExclusive m → IsExclusive (swap lk c m)
unfolding swap
swap-IsExclusive lk c m v = elim (Bool-cases (m.locked lk)) [
  | inl e ↦ rw e (busy-IsExclusive lk m v)
  | inr e ↦ rw e (won-IsExclusive lk c m v e)
]

same_some : {m m' : Machine} → some m ≡ some m' → m ≡ m'
same_some {m = m} e = ap (λ (o : Option Machine). elim o [ none ↦ m | some x ↦ x ]) e

no_machine : {A : Type 0} {m : Machine} → none ≡ some m → A
no_machine h = absurd (ground (arith, h))

Reached-IsExclusive : (m : Machine) → Reached m → IsExclusive m
unfolding start_acquire start_release
Reached-IsExclusive m (booted unlocked unowned still) = record {
  locked = λ c lk h. elim (split c lk m h) [
    | inl o ↦ false_true (ap (λ x. is_owner x c) (sym (unowned lk)) ∙ o)
    | inr k ↦ false_true (ap (λ x. keeps x lk) (sym (still c)) ∙ k)
  ];
  one = λ c c' lk h h'. elim (split c lk m h) [
    | inl o ↦ false_true (ap (λ x. is_owner x c) (sym (unowned lk)) ∙ o)
    | inr k ↦ false_true (ap (λ x. keeps x lk) (sym (still c)) ∙ k)
  ];
  cleared = λ c lk h. unowned lk;
}
Reached-IsExclusive m (acquires {m = m₀} lk c r p e) =
    let v = Reached-IsExclusive m₀ r in
    elim (Bool-cases (holding lk c m₀)) [
      | inl h ↦ no_machine (sym (rw h refl) ∙ e)
      | inr h ↦ subst IsExclusive (same_some (sym (rw h refl) ∙ e)) (acquire-IsExclusive lk c m₀ v)
    ]
Reached-IsExclusive m (swaps {m = m₀} lk c r p) =
    swap-IsExclusive lk c m₀ (Reached-IsExclusive m₀ r)
Reached-IsExclusive m (takes {m = m₀} lk c r p) =
    take-IsExclusive lk c m₀ (Reached-IsExclusive m₀ r) p
Reached-IsExclusive m (releases {m = m₀} lk c r p e) =
    let v = Reached-IsExclusive m₀ r in
    elim (Bool-cases (holding lk c m₀)) [
      | inl h ↦
          subst IsExclusive (same_some (sym (rw h refl) ∙ e))
            (release-IsExclusive lk c m₀ v (ground (arith, h)))
      | inr h ↦ no_machine (sym (rw h refl) ∙ e)
    ]
Reached-IsExclusive m (gives_back {m = m₀} lk c r p) =
    give_back-IsExclusive lk c m₀ (Reached-IsExclusive m₀ r) p

-- In a machine that any interleaving of the steps of `acquire` and `release` on any processors leads to,
-- a processor holds a lock from the swap that took it up to the step that gives it back. Two
-- processors that hold the same lock are the same, and the lock is marked as locked.
pub Reached-one :
    (m : Machine) (c c' lk : ℕ)
    → Reached m
    → holds c lk m ≡ true
    → holds c' lk m ≡ true
    → (c ≡ c') × (m.locked lk ≡ true)
Reached-one m c c' lk r h h' =
    let v = Reached-IsExclusive m r in (v.one c c' lk h h', v.locked c lk h)
