-- ===== src/Bio.antt =====
-- Assignment3/initial_code/kernel/bio.c: the cache of disk blocks. A buffer is its place in `buf[NBUF]`;
-- the linked list through `next` and `prev` is the list of these places from `head.next` on. The disk
-- is a function from devices and blocks to bytes, which `virtio_disk_rw` reads or writes at once. A
-- call is modelled up to the point where `acquiresleep` of a lock that is held makes it sleep. Counts of
-- references do not reach 2^32.
pub mod Search
pub mod Content
pub mod Recycle
pub mod Ops
pub mod Write
mod Tests
use cuhksz_operating_system.Prelude.{
  ℕ, zero, suc, ◌+◌, ◌-◌, Bool, true, false, not, ◌&&◌, Option, none, some, List, [], ◌∷◌, ◌==◌,
  if◌then◌else◌,
}

-- NBUF: MAXOPBLOCKS * 3
abbrev pub nbuf : ℕ
nbuf = 30

-- `struct buf`
pub record Buf : Type 0 where
  pub dev : ℕ
  pub blockno : ℕ
  pub refcnt : ℕ
  pub valid : Bool
  pub locked : Bool
  pub bytes : ℕ → ℕ

-- `bcache`, and the disks.
pub record Bcache : Type 0 where
  pub buf : ℕ → Buf
  pub order : List ℕ
  pub disk : ℕ → ℕ → ℕ → ℕ

abbrev pub set_buf : ℕ → Buf → Bcache → Bcache
set_buf s b c = record c { buf = λ j. if j == s then b else c.buf j }

-- The loop of `binit`: each buffer goes to the front.
unfoldable pub binit_from : ℕ → ℕ → List ℕ → List ℕ
binit_from zero b order = order
binit_from (suc left) b order = binit_from left (b + 1) (b ∷ order)

abbrev pub binit : Bcache → Bcache
binit c = record c { order = binit_from nbuf 0 [] }

-- The first loop of `bget`: a buffer that has the block, from the most recent one on.
unfoldable pub find_block : ℕ → ℕ → List ℕ → Bcache → Option ℕ
find_block dev blockno [] c = none
find_block dev blockno (b ∷ order) c =
    let rest = find_block dev blockno order c in
    if (c.buf b).dev == dev && (c.buf b).blockno == blockno then some b else rest

-- The second loop: a buffer that is not in use, from the least recent one on.
unfoldable pub find_unused : List ℕ → Bcache → Option ℕ
find_unused [] c = none
find_unused (b ∷ order) c = elim (find_unused order c) [
  | some x ↦ some x
  | none ↦ if (c.buf b).refcnt == 0 then some b else none
]

abbrev pub bpin : ℕ → Bcache → Bcache
bpin s c = set_buf s (record (c.buf s) { refcnt = (c.buf s).refcnt + 1 }) c

abbrev pub bunpin : ℕ → Bcache → Bcache
bunpin s c = set_buf s (record (c.buf s) { refcnt = (c.buf s).refcnt - 1 }) c

-- `b->refcnt++`, and the lock is held: by the caller, or by the one that it waits for
abbrev pub share : ℕ → Bcache → Bcache
share s c = set_buf s (record (c.buf s) { refcnt = (c.buf s).refcnt + 1; locked = true }) c

abbrev pub recycle : ℕ → ℕ → ℕ → Bcache → Bcache
recycle dev blockno s c =
    set_buf s
      (record (c.buf s) { dev = dev; blockno = blockno; valid = false; refcnt = 1; locked = true })
      c

-- How a call ends: with a panic, asleep on the lock of a buffer, or with a buffer.
pub data Taken : Type 0 where
  panics : Taken
  sleeps : ℕ → Bcache → Taken
  gives : ℕ → Bcache → Taken

-- `acquiresleep(&b->lock)`, where the lock is or is not held, and `c` is the cache with it held
abbrev pub acquiresleep : ℕ → Bool → Bcache → Taken
acquiresleep s held c = if held then sleeps s c else gives s c

unfoldable pub bget : ℕ → ℕ → Bcache → Taken
bget dev blockno c = elim (find_block dev blockno c.order c) [
  | some s ↦ acquiresleep s (c.buf s).locked (share s c)
  | none ↦ elim (find_unused c.order c) [
    | some s ↦ acquiresleep s (c.buf s).locked (recycle dev blockno s c)
    | none ↦ panics
  ]
]

-- `virtio_disk_rw(b, 0); b->valid = 1;`
abbrev pub load : ℕ → Bcache → Bcache
load s c =
    let b = c.buf s in set_buf s (record b { bytes = c.disk b.dev b.blockno; valid = true }) c

unfoldable pub bread : ℕ → ℕ → Bcache → Taken
bread dev blockno c = elim (bget dev blockno c) [
  | panics ↦ panics
  | sleeps s c' ↦ sleeps s c'
  | gives s c' ↦ gives s (if (c'.buf s).valid then c' else load s c')
]

-- `virtio_disk_rw(b, 1)`
abbrev pub store_block : ℕ → Bcache → Bcache
store_block s c =
    let b = c.buf s in
    record c {
      disk = λ dev blockno.
          if dev == b.dev && blockno == b.blockno then b.bytes else c.disk dev blockno;
    }

unfoldable pub bwrite : ℕ → Bcache → Option Bcache
bwrite s c = if (c.buf s).locked then some (store_block s c) else none

-- The buffer is taken out of the list.
unfoldable pub unlink : ℕ → List ℕ → List ℕ
unlink s [] = []
unlink s (b ∷ order) = let rest = unlink s order in if b == s then order else b ∷ rest

-- `b->refcnt--`, and to the front if that was the last one.
abbrev pub release : ℕ → Bcache → Bcache
release s c =
    let b = c.buf s in
    let c' = set_buf s (record b { refcnt = b.refcnt - 1; locked = false }) c in
    if b.refcnt - 1 == 0 then record c' { order = s ∷ unlink s c.order } else c'

unfoldable pub brelse : ℕ → Bcache → Option Bcache
brelse s c = if (c.buf s).locked then some (release s c) else none
