-- ===== src/Prelude/Int.antt =====
-- Integers over the native numbers, and `%` as C has it.
use cuhksz_operating_system.Prelude.{
  ℕ, zero, suc, ◌+◌, ◌-◌, ◌*◌, ◌%◌, ◌≤◌, ◌≡◌, refl, arith, Bool, true, false, leb, ◌==◌,
  if◌then◌else◌,
}

pub data ℤ : Type 0 where
  pos : ℕ → ℤ
  negsuc : ℕ → ℤ

le→leb : (a b : ℕ) → a ≤ b → leb a b ≡ true
le→leb a b low = ground (arith, low)

-- a - b
unfoldable pub difference : ℕ → ℕ → ℤ
difference a b = if leb b a then pos (a - b) else negsuc (b - a - 1)

pub difference-le : (a b : ℕ) → b ≤ a → difference a b ≡ pos (a - b)
unfolding difference
difference-le a b low = rw (le→leb b a low, difference) refl

abbrev pub neg : ℤ → ℤ
neg (pos zero) = pos zero
neg (pos (suc a)) = negsuc a
neg (negsuc a) = pos (suc a)

infixl 6 ◌+ℤ◌
abbrev pub ◌+ℤ◌ : ℤ → ℤ → ℤ
pos a +ℤ pos b = pos (a + b)
pos a +ℤ negsuc b = difference a (suc b)
negsuc a +ℤ pos b = difference b (suc a)
negsuc a +ℤ negsuc b = negsuc (suc (a + b))

infixl 7 ◌*ℤ◌
abbrev pub ◌*ℤ◌ : ℤ → ℤ → ℤ
pos a *ℤ pos b = pos (a * b)
pos a *ℤ negsuc b = neg (pos (a * suc b))
negsuc a *ℤ pos b = neg (pos (suc a * b))
negsuc a *ℤ negsuc b = pos (suc a * suc b)

-- `%` of C: the sign is that of the dividend.
abbrev pub remainder : ℤ → ℕ → ℤ
remainder (pos a) n = pos (a % n)
remainder (negsuc a) n = neg (pos (suc a % n))

abbrev pub at_least : ℕ → ℤ → Bool
at_least n (pos a) = leb n a
at_least n (negsuc a) = false

abbrev pub is_negative : ℤ → Bool
is_negative (pos a) = false
is_negative (negsuc a) = true

abbrev pub is_number : ℕ → ℤ → Bool
is_number n (pos a) = a == n
is_number n (negsuc a) = false
