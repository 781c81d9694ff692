-- ===== src/Pipe/Tests.antt =====
-- Runs of the pipe, and each of its theorems at a concrete pipe.
use cuhksz_operating_system.Prelude.{
  ℕ, ◌+◌, ◌-◌, ◌^◌, ◌≤◌, ◌≡◌, refl, Bool, true, false, Option, none, some, List, [], ◌∷◌, ◌++◌,
  arith, length, length-replicate, replicate, get_or, set, ltb, if◌then◌else◌,
}
use cuhksz_operating_system.Pipe.{Pipe, done, pipesize, close, write_from, write, read_from, read}
use cuhksz_operating_system.Pipe.Valid.{IsValid}
use cuhksz_operating_system.Pipe.Transfer.{window, contents}
use cuhksz_operating_system.Pipe.Stream.{
  Event, writes, reads, closes, run, fresh, run_fifo, close_frees_once,
}

abbrev junk : List ℕ
junk = replicate 512 5

abbrev never : ℕ → Bool
never i = false

-- User memory holds 100, 101, ... and faults from index 6 on.
abbrev user : ℕ → Option ℕ
user i = if ltb i 6 then some (100 + i) else none

abbrev refuses_third : ℕ → ℕ → Bool
refuses_third i ch = ltb i 2

-- The counters stand just before their wrap.
abbrev near_wrap : Pipe
near_wrap = record {
  buf = junk;
  nread = 2 ^ 32 - 3;
  nwrite = 2 ^ 32 - 1;
  readopen = true;
  writeopen = true;
}

write_across_wrap :
    let (e, pi) = write never user 4 0 near_wrap in
    (e ≡ done 4) × (pi.nwrite ≡ 3) × (contents pi ≡ 5 ∷ 5 ∷ 100 ∷ 101 ∷ 102 ∷ 103 ∷ [])
unfolding write write_from window get_or set replicate
write_across_wrap = (refl, refl, refl)

-- A byte that `copyout` refuses is gone from the pipe.
read_loses_refused :
    let (e, out, pi) = read false refuses_third 9 (write never user 4 0 near_wrap).1 in
    (e ≡ done 2) × (out ≡ 5 ∷ 5 ∷ []) × (contents pi ≡ 101 ∷ 102 ∷ 103 ∷ [])
unfolding read read_from write write_from window get_or set replicate
read_loses_refused = (refl, refl, refl)

near_wrap-IsValid : IsValid near_wrap
near_wrap-IsValid = record {
  storage = length-replicate 512 5;
  nread_fits = omega arith;
  nwrite_fits = omega arith;
  bounded = omega arith;
}

abbrev script : List Event
script =
    writes never user 0 4 ∷ reads false 2 ∷ closes true ∷ reads false 1 ∷ writes never user 4 9 ∷ []

run_fifo_example :
    let t = run (fresh junk) script in
    (t.accepted ≡ t.received ++ contents t.pipe) × (length (contents t.pipe) ≤ pipesize)
run_fifo_example = run_fifo junk script (length-replicate 512 5)

close_frees_once_example :
    ((close near_wrap true).2 ≡ false) × ((close (close near_wrap true).0 false).2 ≡ true)
close_frees_once_example = close_frees_once near_wrap true refl refl
