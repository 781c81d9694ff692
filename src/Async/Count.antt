-- ===== src/Async/Count.antt =====
-- async.c: the number of threads that are about to look at the queue.
use cuhksz_operating_system.Prelude.{
  ℕ, zero, suc, ◌+◌, ◌≤◌, ◌<◌, true, false, ◌==◌, ◌≡◌, inl, inr, refl, ap, arith, Bool-cases, ==→eq,
  ==→ne,
}
use cuhksz_operating_system.Async.{
  Place, outside, entering, walking, linking, signalling, leaving, ready, testing, found_none,
  found_some, unlinking, waiting, woken, popped, running, crashed, set_place,
}

pub set_place_at : (c d : ℕ) (x : Place) (f : ℕ → Place) → (d == c) ≡ true → set_place c x f d ≡ x
set_place_at c d x f e = rw e refl

pub set_place_off :
    (c d : ℕ) (x : Place) (f : ℕ → Place) → (d == c) ≡ false → set_place c x f d ≡ f d
set_place_off c d x f e = rw e refl

-- A thread that is going to test the queue, or to wake one that will.
abbrev pub coming : Place → ℕ
coming outside = 0
coming (entering t) = 0
coming (walking t k) = 0
coming (linking t k) = 0
coming signalling = 1
coming leaving = 0
coming ready = 0
coming testing = 1
coming found_none = 0
coming found_some = 1
coming (unlinking t q) = 1
coming waiting = 0
coming woken = 1
coming (popped t) = 0
coming (running t) = 0
coming crashed = 0

abbrev pub on_the_way : ℕ → (ℕ → Place) → ℕ
on_the_way zero place = 0
on_the_way (suc n) place = coming (place n) + on_the_way n place

on_the_way-above :
    (n c : ℕ) (x : Place) (f : ℕ → Place) → n ≤ c → on_the_way n (set_place c x f) ≡ on_the_way n f
on_the_way-above zero c x f low = refl
on_the_way-above (suc n) c x f low = elim (Bool-cases (n == c)) [
  | inl e ↦ absurd (omega (arith, low, ==→eq n c e))
  | inr e ↦ rw e (omega (arith, on_the_way-above n c x f (omega (arith, low))))
]

-- The count after a thread has moved.
pub on_the_way-set_place :
    (n c : ℕ) (x : Place) (f : ℕ → Place)
    → c < n
    → on_the_way n (set_place c x f) + coming (f c) ≡ on_the_way n f + coming x
on_the_way-set_place zero c x f low = absurd (omega (arith, low))
on_the_way-set_place (suc n) c x f low = elim (Bool-cases (n == c)) [
  | inl e ↦
      let same : coming (f n) ≡ coming (f c) = ap (λ i. coming (f i)) (==→eq n c e) in
      let below = on_the_way-above n c x f (omega (arith, ==→eq n c e)) in
      rw e (omega (arith, same, below))
  | inr e ↦
      let ih = on_the_way-set_place n c x f (omega (arith, low, ==→ne n c e)) in
      rw e (omega (arith, ih))
]
