-- ===== src/Strings/Move.antt =====
-- `memmove` of string.c copies as if through a buffer, also where the ranges overlap.
use cuhksz_operating_system.Prelude.{
  ℕ, zero, suc, ◌+◌, ◌-◌, ◌≤◌, ◌<◌, ◌≡◌, ◌⊎◌, inl, inr, ap, ◌∙◌, ◌&&◌, ltb, leb, ◌==◌,
  if◌then◌else◌, arith, Bool-cases, ==→eq,
}
use native.Mathlib.Decide.{dec_le}
use cuhksz_operating_system.Strings.{Memory, store, move_down, move_up, memmove}

-- Every cell of the memory holds a byte.
abbrev pub IsBytes : Memory → Type 0
IsBytes m = (a : ℕ) → m a < 256

-- The memory with `n` bytes at `dst` that are those that `m` has at `src`.
abbrev pub moved : ℕ → ℕ → ℕ → Memory → Memory
moved dst src n m = λ a. if leb dst a && ltb a (dst + n) then m (src + (a - dst)) else m a

pub store-IsBytes : (p v : ℕ) (m : Memory) → IsBytes m → IsBytes (store p v m)
store-IsBytes p v m b a = ground (arith, b a)

-- Upwards, when no source byte is overwritten before it is read.
move_up_lem :
    (d s n : ℕ) (m : Memory)
    → IsBytes m
    → (d ≤ s) ⊎ (s + n ≤ d)
    → (a : ℕ) → move_up d s n m a ≡ moved d s n m a
unfolding move_up
move_up_lem d s zero m b apart a = ground arith
move_up_lem d s (suc n) m b apart a =
    let ih =
      move_up_lem (d + 1) (s + 1) n (store d (m s) m) (store-IsBytes d (m s) m b) (ground arith)
        a in
    ih ∙ elim (dec_le (d + 1) a) [
      | no low ↦ elim (Bool-cases (a == d)) [
        | inl here ↦
            let e : s + (a - d) ≡ s = omega (arith, ==→eq a d here) in
            ground (arith, here, ap m e, b s)
        | inr away ↦ ground (arith, away)
      ]
      | yes high ↦
          let e : s + 1 + (a - (d + 1)) ≡ s + (a - d) = omega arith in ground (arith, ap m e)
    ]

-- Downwards from the ends, when the destination lies above the source.
move_down_lem :
    (d s n : ℕ) (m : Memory)
    → IsBytes m
    → s ≤ d
    → (a : ℕ) → move_down (d + n) (s + n) n m a ≡ moved d s n m a
unfolding move_down
move_down_lem d s zero m b above a = ground arith
move_down_lem d s (suc n) m b above a =
    let e : d + suc n - 1 ≡ d + n = omega arith in
    let e' : s + suc n - 1 ≡ s + n = omega arith in
    let ih =
      move_down_lem d s n (store (d + n) (m (s + n)) m) (store-IsBytes (d + n) (m (s + n)) m b)
        above a in
    rw (e, e')
      (ih ∙ elim (Bool-cases (a == d + n)) [
        | inl here ↦
            let e'' : s + (a - d) ≡ s + n = omega (arith, ==→eq a (d + n) here) in
            ground (arith, here, ap m e'', b (s + n))
        | inr away ↦ ground (arith, away)
      ])

-- `memmove` puts at `dst` the bytes that stood at `src` before the call, also where the two ranges
-- overlap, and leaves all other bytes.
pub memmove-eq-moved :
    (dst src n : ℕ) (m : Memory) → IsBytes m → (a : ℕ) → memmove dst src n m a ≡ moved dst src n m a
unfolding memmove
memmove-eq-moved dst src n m b a = elim (Bool-cases (n == 0)) [
  | inl none ↦ ground (arith, none)
  | inr some ↦ elim (Bool-cases (ltb src dst && ltb dst (src + n))) [
    | inl over ↦ rw (some, over) (move_down_lem dst src n m b (ground (arith, over)) a)
    | inr clear ↦ rw (some, clear) (move_up_lem dst src n m b (ground (arith, clear)) a)
  ]
]
