-- ===== src/Prelude/Bits.antt =====
-- Single bits of a byte, checked over all bytes.
use Prim.Native.Nat.{ℕ, zero, suc, ◌-◌, ◌^◌, ◌<◌, bit_and, bit_or}
use mathlib.Core.Path.{◌≡◌, refl}
use mathlib.Core.Bool.{Bool, true, false, not, ◌&&◌, ◌||◌}
use native.Mathlib.Omega.{arith}
use cuhksz_operating_system.Prelude.Tests.{◌==◌, ltb}

-- The test holds of every number less than the bound.
every_less : (ℕ → Bool) → ℕ → Bool
every_less test zero = true
every_less test (suc top) = every_less test top && test top

every_less-at :
    (test : ℕ → Bool) (bound i : ℕ) → i < bound → every_less test bound ≡ true → test i ≡ true
unfolding every_less
every_less-at test zero i below every = absurd (omega arith)
every_less-at test (suc top) i below every = grind (arith, every_less-at test top i)

-- `(x & (1 << k)) != 0`
unfoldable pub has_bit : ℕ → ℕ → Bool
has_bit x k = not (bit_and x (2 ^ k) == 0)

-- `x | (1 << k)`
unfoldable pub set_bit : ℕ → ℕ → ℕ
set_bit x k = bit_or x (2 ^ k)

-- `x & ~(1 << k)`, cut to a byte
unfoldable pub clear_bit : ℕ → ℕ → ℕ
clear_bit x k = bit_and x (255 - 2 ^ k)

same : Bool → Bool → Bool
same true b = b
same false b = not b

same_sound : (a b : Bool) → same a b ≡ true → a ≡ b
unfolding same
same_sound a b h = ground arith

-- A byte, a bit to write and a bit to read.
abbrev over_bits : (ℕ → ℕ → ℕ → Bool) → Bool
over_bits p = every_less (λ x. every_less (λ k. every_less (λ j. p x k j) 8) 8) 256

over_bits-at :
    (p : ℕ → ℕ → ℕ → Bool) (x k j : ℕ)
    → over_bits p ≡ true
    → x < 256
    → k < 8
    → j < 8
    → p x k j ≡ true
over_bits-at p x k j h hx hk hj =
    let row = every_less-at (λ x. every_less (λ k. every_less (λ j. p x k j) 8) 8) 256 x hx h in
    let column = every_less-at (λ k. every_less (λ j. p x k j) 8) 8 k hk row in
    every_less-at (λ j. p x k j) 8 j hj column

set_ok : ℕ → ℕ → ℕ → Bool
set_ok x k j = ltb (set_bit x k) 256 && same (has_bit (set_bit x k) j) (k == j || has_bit x j)

set_table : over_bits set_ok ≡ true
unfolding every_less set_ok same set_bit has_bit
set_table = refl

clear_ok : ℕ → ℕ → ℕ → Bool
clear_ok x k j =
    ltb (clear_bit x k) 256 && same (has_bit (clear_bit x k) j) (not (k == j) && has_bit x j)

clear_table : over_bits clear_ok ≡ true
unfolding every_less clear_ok same clear_bit has_bit
clear_table = refl

pub set_bit_lem :
    (x k j : ℕ)
    → x < 256
    → k < 8
    → j < 8
    → (set_bit x k < 256) × (has_bit (set_bit x k) j ≡ (k == j || has_bit x j))
unfolding set_ok
set_bit_lem x k j hx hk hj =
    let h = over_bits-at set_ok x k j set_table hx hk hj in
    (ground (arith, h), same_sound _ _ (ground (arith, h)))

pub clear_bit_lem :
    (x k j : ℕ)
    → x < 256
    → k < 8
    → j < 8
    → (clear_bit x k < 256) × (has_bit (clear_bit x k) j ≡ (not (k == j) && has_bit x j))
unfolding clear_ok
clear_bit_lem x k j hx hk hj =
    let h = over_bits-at clear_ok x k j clear_table hx hk hj in
    (ground (arith, h), same_sound _ _ (ground (arith, h)))
