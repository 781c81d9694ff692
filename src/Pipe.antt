-- ===== src/Pipe.antt =====
-- Assignment3/initial_code/kernel/pipe.c: a bounded byte channel between two processes.
-- A call runs under `pi->lock` until it returns or sleeps; such a stretch is one function here, and
-- a wakeup runs the same function again from the index where the call slept.
-- `copyin` and `copyout` of one byte, and `killed`, are arguments, indexed by the loop's counter.
pub mod Valid
pub mod Transfer
pub mod Drain
pub mod Stream
mod Tests
use cuhksz_operating_system.Prelude.{
  ℕ, zero, suc, ◌+◌, ◌-◌, ◌%◌, ◌^◌, Bool, true, false, not, ◌&&◌, ◌||◌, Option, none, some, List,
  [], ◌∷◌, ◌==◌, if◌then◌else◌, get_or, set, replicate,
}

abbrev pub pipesize : ℕ
pipesize = 512

-- `struct pipe` without its lock; `data` holds bytes, the counters are 32-bit and wrap.
pub record Pipe : Type 0 where
  pub buf : List ℕ
  pub nread : ℕ
  pub nwrite : ℕ
  pub readopen : Bool
  pub writeopen : Bool

-- `uint` addition
abbrev pub add_u32 : ℕ → ℕ → ℕ
add_u32 a b = (a + b) % 2 ^ 32

-- The part of `pipealloc` that sets up the fresh page; `junk` is what the page holds.
pub pipe_init : List ℕ → Pipe
pipe_init junk = record { buf = junk; nread = 0; nwrite = 0; readopen = true; writeopen = true }

-- What wakes up: the sleepers on `&pi->nread` (readers) or on `&pi->nwrite` (writers).
pub data Wakeup : Type 0 where
  readers writers : Wakeup

-- The new pipe, who is woken, and whether the page is given back by `kfree`.
pub close : Pipe → Bool → Pipe × Wakeup × Bool
close pi true = (record pi { writeopen = false }, readers, not pi.readopen)
close pi false = (record pi { readopen = false }, writers, not pi.writeopen)

-- How a stretch ends: with a count, with -1, or asleep at an index of the loop.
pub data Exit : Type 0 where
  done : ℕ → Exit
  failed : Exit
  asleep : ℕ → Exit

abbrev pub is_full : Pipe → Bool
is_full pi = pi.nwrite == add_u32 pi.nread pipesize

abbrev pub put : Pipe → ℕ → Pipe
put pi ch = record pi { buf = set pi.buf (pi.nwrite % pipesize) ch; nwrite = add_u32 pi.nwrite 1 }

module _ (killed : ℕ → Bool) (copyin : ℕ → Option ℕ) where
  -- The `while(i < n)` of `pipewrite`; the first argument is `n - i`.
  pub write_from : ℕ → ℕ → Pipe → Exit × Pipe
  write_from zero i pi = (done i, pi)
  write_from (suc left) i pi = elim (not pi.readopen || killed i) [
    | true ↦ (failed, pi)
    | false ↦ elim (is_full pi) [
      | true ↦ (asleep i, pi)
      | false ↦ elim (copyin i) [
        | none ↦ (done i, pi)
        | some ch ↦ write_from left (i + 1) (put pi ch)
      ]
    ]
  ]

  -- `pipewrite(pi, addr, n)` from index `i` on.
  pub write : ℕ → ℕ → Pipe → Exit × Pipe
  write n i pi = write_from (n - i) i pi

abbrev pub is_empty : Pipe → Bool
is_empty pi = pi.nread == pi.nwrite

abbrev pub front : Pipe → ℕ
front pi = get_or pi.buf (pi.nread % pipesize) 0

abbrev pub advance : Pipe → Pipe
advance pi = record pi { nread = add_u32 pi.nread 1 }

-- The `for` of `piperead`; the first argument is `n - i`. The list is what reached user memory.
pub read_from : (ℕ → ℕ → Bool) → ℕ → ℕ → Pipe → ℕ × List ℕ × Pipe
read_from copyout zero i pi = (i, [], pi)
read_from copyout (suc left) i pi = elim (is_empty pi) [
  | true ↦ (i, [], pi)
  | false ↦ elim (copyout i (front pi)) [
    | false ↦ (i, [], advance pi)
    | true ↦
        let (r, out, pi') = read_from copyout left (i + 1) (advance pi) in (r, front pi ∷ out, pi')
  ]
]

-- `piperead(pi, addr, n)`: asleep while the pipe is empty and a writer may come.
pub read : Bool → (ℕ → ℕ → Bool) → ℕ → Pipe → Exit × List ℕ × Pipe
read killed copyout n pi =
    if is_empty pi && pi.writeopen
    then if killed then (failed, [], pi) else (asleep 0, [], pi)
    else let (r, out, pi') = read_from copyout n 0 pi in (done r, out, pi')
