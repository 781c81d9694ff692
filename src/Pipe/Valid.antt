-- ===== src/Pipe/Valid.antt =====
-- The representation invariant of `struct pipe`: at most 512 unread bytes, across the counters' wrap.
use cuhksz_operating_system.Prelude.{
  ℕ, ◌+◌, ◌-◌, ◌%◌, ◌^◌, ◌≤◌, ◌<◌, ◌≡◌, false, arith, length, length-set, ◌==◌,
}
use cuhksz_operating_system.Pipe.{Pipe, pipesize, put, advance, is_full, is_empty}

-- The number of unread bytes, `nwrite - nread` in 32-bit arithmetic.
abbrev pub unread : Pipe → ℕ
unread pi = (pi.nwrite + 2 ^ 32 - pi.nread) % 2 ^ 32

pub record IsValid (pi : Pipe) : Type 0 where
  pub storage : length pi.buf ≡ pipesize
  pub nread_fits : pi.nread < 2 ^ 32
  pub nwrite_fits : pi.nwrite < 2 ^ 32
  pub bounded : unread pi ≤ pipesize

pub is_full_iff : (pi : Pipe) → IsValid pi → is_full pi ≡ (unread pi == pipesize)
is_full_iff pi v = ground arith

pub is_empty_iff : (pi : Pipe) → IsValid pi → is_empty pi ≡ (unread pi == 0)
is_empty_iff pi v = ground arith

pub put-IsValid : (pi : Pipe) (ch : ℕ) → IsValid pi → is_full pi ≡ false → IsValid (put pi ch)
put-IsValid pi ch v room = ground (arith, length-set pi.buf (pi.nwrite % pipesize) ch)

pub unread-put :
    (pi : Pipe) (ch : ℕ) → IsValid pi → is_full pi ≡ false → unread (put pi ch) ≡ unread pi + 1
unread-put pi ch v room = ground arith

pub advance-IsValid : (pi : Pipe) → IsValid pi → is_empty pi ≡ false → IsValid (advance pi)
advance-IsValid pi v some_left = ground arith

pub unread-advance :
    (pi : Pipe) → IsValid pi → is_empty pi ≡ false → unread (advance pi) + 1 ≡ unread pi
unread-advance pi v some_left = ground arith
