-- ===== src/Spinlock.antt =====
-- Assignment3/initial_code/kernel/spinlock.c: locks that any number of processors take and give back, in
-- steps, and the nesting of the parts that run without interrupts. A step changes the lock once at most:
-- the test of `holding` goes with the step after it, which in `release` clears the owner. A lock and a
-- processor are numbers.
pub mod Nesting
pub mod Exclusion
pub mod Mutual
mod Tests
use cuhksz_operating_system.Prelude.{
  ℕ, zero, suc, ◌+◌, ◌-◌, Bool, true, false, not, ◌&&◌, Option, none, some, ◌==◌, ◌≡◌,
  if◌then◌else◌,
}

-- The fields of `struct cpu` for interrupts, and the flag of the processor.
pub record Cpu : Type 0 where
  pub intr : Bool
  pub noff : ℕ
  pub intena : Bool

unfoldable pub push_off : Cpu → Cpu
push_off c = record {
  intr = false;
  noff = c.noff + 1;
  intena = if c.noff == 0 then c.intr else c.intena;
}

-- `none` is a panic.
unfoldable pub pop_off : Cpu → Option Cpu
pop_off c =
    if c.intr
    then none
    else if c.noff == 0
    then none
    else some (record c { noff = c.noff - 1; intr = c.noff - 1 == 0 && c.intena })

-- Where a processor is: between calls, in the loop of `acquire`, after the swap that took the lock, or
-- in `release` before the lock is given back.
pub data Phase : Type 0 where
  running : Phase
  spinning : ℕ → Phase
  swapped : ℕ → Phase
  clearing : ℕ → Phase

-- `lk->locked` and `lk->cpu` of the locks.
pub record Machine : Type 0 where
  pub locked : ℕ → Bool
  pub owner : ℕ → Option ℕ
  pub phase : ℕ → Phase

abbrev pub is_owner : Option ℕ → ℕ → Bool
is_owner none c = false
is_owner (some d) c = d == c

abbrev pub holding : ℕ → ℕ → Machine → Bool
holding lk c m = m.locked lk && is_owner (m.owner lk) c

abbrev pub set_locked : ℕ → Bool → Machine → Machine
set_locked lk b m = record m { locked = λ l. if l == lk then b else m.locked l }

abbrev pub set_owner : ℕ → Option ℕ → Machine → Machine
set_owner lk o m = record m { owner = λ l. if l == lk then o else m.owner l }

abbrev pub set_phase : ℕ → Phase → Machine → Machine
set_phase c p m = record m { phase = λ d. if d == c then p else m.phase d }

-- The steps of `acquire` and `release`, in their order; a failed test is a panic.
unfoldable pub start_acquire : ℕ → ℕ → Machine → Option Machine
start_acquire lk c m = if holding lk c m then none else some (set_phase c (spinning lk) m)

unfoldable pub swap : ℕ → ℕ → Machine → Machine
swap lk c m = set_locked lk true (if m.locked lk then m else set_phase c (swapped lk) m)

unfoldable pub take : ℕ → ℕ → Machine → Machine
take lk c m = set_phase c running (set_owner lk (some c) m)

unfoldable pub start_release : ℕ → ℕ → Machine → Option Machine
start_release lk c m =
    if holding lk c m then some (set_phase c (clearing lk) (set_owner lk none m)) else none

unfoldable pub give_back : ℕ → ℕ → Machine → Machine
give_back lk c m = set_phase c running (set_locked lk false m)

-- The machines that steps of the processors, in any order, lead to.
pub data Reached : Machine → Type 0 where
  booted :
      {m : Machine}
      → ((lk : ℕ) → m.locked lk ≡ false)
      → ((lk : ℕ) → m.owner lk ≡ none)
      → ((c : ℕ) → m.phase c ≡ running)
      → Reached m
  acquires :
      {m m' : Machine} (lk c : ℕ)
      → Reached m
      → m.phase c ≡ running
      → start_acquire lk c m ≡ some m'
      → Reached m'
  swaps : {m : Machine} (lk c : ℕ) → Reached m → m.phase c ≡ spinning lk → Reached (swap lk c m)
  takes : {m : Machine} (lk c : ℕ) → Reached m → m.phase c ≡ swapped lk → Reached (take lk c m)
  releases :
      {m m' : Machine} (lk c : ℕ)
      → Reached m
      → m.phase c ≡ running
      → start_release lk c m ≡ some m'
      → Reached m'
  gives_back :
      {m : Machine} (lk c : ℕ) → Reached m → m.phase c ≡ clearing lk → Reached (give_back lk c m)
