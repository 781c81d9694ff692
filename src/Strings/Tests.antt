-- ===== src/Strings/Tests.antt =====
-- Overlapping copies and short buffers.
use cuhksz_operating_system.Prelude.{
  ℕ, ◌-◌, ◌<◌, ◌≡◌, ◌⊎◌, inl, refl, arith, ltb, leb, ◌&&◌, if◌then◌else◌,
}
use cuhksz_operating_system.Strings.{Memory, memmove, move_up, move_down, safestrcpy}
use cuhksz_operating_system.Strings.Move.{moved, memmove-eq-moved}
use cuhksz_operating_system.Strings.Copy.{Copied, safestrcpy-Copied}

-- The bytes 1, 2, 3, … from address 10 on, five of them.
abbrev bytes : Memory
bytes a = if leb 10 a && ltb a 15 then a - 9 else 0

bytes_low : (a : ℕ) → bytes a < 256
bytes_low a = ground arith

overlapping : memmove 12 10 4 bytes 15 ≡ 4
unfolding memmove move_up move_down
overlapping = refl

memmove-eq-moved_example : memmove 12 10 4 bytes 15 ≡ moved 12 10 4 bytes 15
memmove-eq-moved_example = memmove-eq-moved 12 10 4 bytes bytes_low 15

safestrcpy-Copied_example :
    ((3 ≡ bytes 0) × (safestrcpy 40 10 3 bytes ≡ bytes))
    ⊎ Copied 40 10 3 bytes (safestrcpy 40 10 3 bytes)
safestrcpy-Copied_example = safestrcpy-Copied 40 10 3 bytes bytes_low (inl (omega arith))
