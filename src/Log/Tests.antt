-- ===== src/Log/Tests.antt =====
-- A transaction of two blocks, crashes in its commit and recovery, and steps of two calls.
use cuhksz_operating_system.Prelude.{
  ℕ, zero, suc, ◌+◌, ◌≤◌, ◌<◌, ◌≡◌, ◌≢◌, refl, ◌⊎◌, inr, false, Option, none, some, List, [], ◌∷◌,
  ◌==◌, if◌then◌else◌, length, get_or, set, arith,
}
use cuhksz_operating_system.Fs.Disk.{logsize, is_logged}
use cuhksz_operating_system.Log.{
  Image, Machine, Run, crashed, running, bwrite_of, read_blocks, write_log, write_head,
  install_trans, commit, recover_from_log, begin_op, end_op, header_write,
}
use cuhksz_operating_system.Log.Writes.{Safe, Home, Homes}
use cuhksz_operating_system.Log.Crash.{Idle}
use cuhksz_operating_system.Log.Atomic.{crashes, recovered, recovered-Idle}
use cuhksz_operating_system.Log.Reserve.{
  System, Reaches, here, more, begins, writes, idle, no_panic,
}

-- The transaction writes blocks 40 and 41.
abbrev old : Image
old b w = 0

abbrev new : Image
new b w = if b == 40 then 7 + w else if b == 41 then 9 else 0

abbrev machine : ℕ → Machine
machine k = record { cache = new; disk = old; left = k }

abbrev word_of : ℕ → ℕ → Run → Option ℕ
word_of b w (crashed d) = none
word_of b w (running m) = some (m.disk b w)

-- Two writes of log blocks and the crash: the header was not written.
before_head : word_of 40 3 (recovered 2 30 (40 ∷ 41 ∷ []) (machine 2) [] 3) ≡ some 0
unfolding commit write_log write_head install_trans recover_from_log read_blocks bwrite_of get_or
    crashes
before_head = refl

-- The header too, then a recovery that stops after one block, and another.
after_head : word_of 40 3 (recovered 2 30 (40 ∷ 41 ∷ []) (machine 3) (1 ∷ []) 3) ≡ some 10
unfolding commit write_log write_head install_trans recover_from_log read_blocks bwrite_of get_or
    crashes
after_head = refl

blocks-Homes : Homes 2 30 (40 ∷ 41 ∷ [])
unfolding Homes
blocks-Homes = (inr (omega arith), (inr (omega arith), tt))

old-Idle : Idle 2 30 old old
old-Idle = record { no_blocks = refl; homes = λ c w h. refl }

clean : (c w : ℕ) → Home 2 30 c → is_logged c (40 ∷ 41 ∷ []) ≡ false → old c w ≡ new c w
clean c w h e = ground (arith, e)

recovered-Idle_example :
    Safe
      (λ d. ⊥)
      (λ m'. Idle 2 30 old m'.disk ⊎ Idle 2 30 new m'.disk)
      (recovered 2 30 (40 ∷ 41 ∷ []) (machine 3) (1 ∷ 0 ∷ []) 3)
recovered-Idle_example =
    recovered-Idle 2 30 old new (40 ∷ 41 ∷ []) (machine 3) (1 ∷ 0 ∷ []) 3 blocks-Homes (omega arith)
      (omega arith) old-Idle (λ c w h. refl) clean

abbrev two_calls : System
two_calls = record {
  log = record { outstanding = 2; committing = false; block = 40 ∷ [] };
  budgets = 9 ∷ 10 ∷ [];
}

two_calls-Reaches : Reaches 31 idle two_calls
unfolding begin_op header_write get_or set
two_calls-Reaches =
    more (more (more here (begins refl)) (begins refl)) (writes 0 40 (omega arith) refl)

no_panic_example :
    ((i b : ℕ) → 1 ≤ get_or two_calls.budgets i 0 → header_write 31 b two_calls.log ≢ none)
    × ((i : ℕ) → i < length two_calls.budgets → end_op two_calls.log ≢ none)
    × (length two_calls.log.block ≤ logsize)
no_panic_example = no_panic 31 two_calls (omega arith) two_calls-Reaches

abbrev numbers : ℕ → List ℕ
numbers zero = []
numbers (suc n) = n ∷ numbers n

-- In a log of LOGSIZE blocks, as mkfs makes it, the thirtieth block of three calls is refused.
full_log :
    header_write 30 99 (record { outstanding = 3; committing = false; block = numbers 29 }) ≡ none
unfolding header_write
full_log = refl
