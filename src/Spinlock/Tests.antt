-- ===== src/Spinlock/Tests.antt =====
-- A processor that takes lock 3 while another one waits.
use cuhksz_operating_system.Prelude.{ℕ, ◌≡◌, refl, true, false, none, some, arith}
use cuhksz_operating_system.Spinlock.{
  Cpu, running, spinning, Machine, set_phase, start_acquire, swap, take, Reached, booted, acquires,
  swaps, takes,
}
use cuhksz_operating_system.Spinlock.Nesting.{nothing, pair, run, Restored, run-Restored}
use cuhksz_operating_system.Spinlock.Exclusion.{holds}
use cuhksz_operating_system.Spinlock.Mutual.{Reached-one}

abbrev free : Machine
free = record { locked = λ lk. false; owner = λ lk. none; phase = λ c. running }

abbrev one_waits : Machine
one_waits = set_phase 0 (spinning 3) free

abbrev two_wait : Machine
two_wait = set_phase 1 (spinning 3) one_waits

two_wait-Reached : Reached two_wait
two_wait-Reached =
    acquires {m = one_waits} {m' = two_wait} 3 1
      (acquires {m = free} {m' = one_waits} 3 0 (booted (λ lk. refl) (λ lk. refl) (λ c. refl)) refl
        (unfold start_acquire in refl))
      refl (unfold start_acquire in refl)

-- Processor 1 swaps first.
abbrev taken : Machine
taken = take 3 1 (swap 3 0 (swap 3 1 two_wait))

taken-Reached : Reached taken
unfolding swap take
taken-Reached =
    takes {m = swap 3 0 (swap 3 1 two_wait)} 3 1
      (swaps {m = swap 3 1 two_wait} 3 0 (swaps {m = two_wait} 3 1 two_wait-Reached refl) refl) refl

own : holds 1 3 taken ≡ true
unfolding holds swap take
own = refl

Reached-one_example : (◌≡◌ {A = ℕ} 1 1) × (taken.locked 3 ≡ true)
Reached-one_example = Reached-one taken 1 1 3 taken-Reached own own

waiting : holds 0 3 taken ≡ false
unfolding holds swap take
waiting = refl

abbrev open_cpu : Cpu
open_cpu = record { intr = true; noff = 0; intena = false }

run-Restored_example :
    (c' : Cpu) × (run (pair (pair nothing nothing) nothing) open_cpu ≡ some c')
    × Restored open_cpu c'
run-Restored_example =
    run-Restored (pair (pair nothing nothing) nothing) open_cpu (λ h. absurd (omega (arith, h)))
