-- ===== src/Log.antt =====
-- Assignment3/initial_code/kernel/log.c: the commit of a transaction and the recovery after a crash.
-- A block is an array of words; `cache` is what `bread` shows and `disk` what the disk holds. Only
-- `bwrite` reaches the disk. A run has a number of disk writes that it can do before the machine
-- stops; then only the disk is left. Locks and the pins of the cache's buffers are not in the state.
pub mod Writes
pub mod Crash
pub mod Atomic
pub mod Reserve
mod Tests
use cuhksz_operating_system.Prelude.{
  ℕ, zero, suc, ◌+◌, ◌*◌, ◌-◌, Bool, true, false, Option, none, some, List, [], ◌∷◌, ltb, leb, ◌==◌,
  if◌then◌else◌, length, get_or,
}
use cuhksz_operating_system.Fs.Disk.{logsize, absorb}

-- Block and word to the word's value.
abbrev pub Image : Type 0
Image = ℕ → ℕ → ℕ

pub record Machine : Type 0 where
  pub cache : Image
  pub disk : Image
  pub left : ℕ

pub data Run : Type 0 where
  crashed : Image → Run
  running : Machine → Run

abbrev pub and_then : Run → (Machine → Run) → Run
and_then (crashed d) k = crashed d
and_then (running m) k = k m

-- The machine with the block of the cache on the disk.
abbrev pub written : ℕ → Machine → ℕ → Machine
written b m left = record m {
  disk = λ c w. if c == b then m.cache b w else m.disk c w;
  left = left;
}

-- A write when so many are left.
unfoldable pub bwrite_of : ℕ → ℕ → Machine → Run
bwrite_of zero b m = crashed m.disk
bwrite_of (suc k) b m = running (written b m k)

-- `bwrite(bp)` for the buffer of block `b`.
abbrev pub bwrite : ℕ → Machine → Run
bwrite b m = bwrite_of m.left b m

-- `memmove(to->data, from->data, BSIZE)`
abbrev pub copy : ℕ → ℕ → Machine → Machine
copy to from m = record m { cache = λ c w. if c == to then m.cache from w else m.cache c w }

-- A word of the header block when it holds the numbers `bs`, and `old` in its unused words.
abbrev pub head_word : List ℕ → ℕ → ℕ → ℕ
head_word bs zero old = length bs
head_word bs (suc i) old = get_or bs i old

-- `struct logheader` in the words from `n` on: `k` block numbers from word `i + 1` on.
unfoldable pub read_blocks : Image → ℕ → ℕ → ℕ → List ℕ
read_blocks d head zero i = []
read_blocks d head (suc k) i = d head (i + 1) ∷ read_blocks d head k (i + 1)

module _ (start : ℕ) where
  abbrev pub read_head : Machine → List ℕ
  read_head m = read_blocks m.cache start (m.cache start 0) 0

  -- The header block of the cache with the numbers `bs`.
  abbrev pub fill_head : List ℕ → Machine → Machine
  fill_head bs m = record m {
    cache = λ c w. if c == start then head_word bs w (m.cache start w) else m.cache c w;
  }

  -- `write_head()` when `log.lh` holds `bs`.
  unfoldable pub write_head : List ℕ → Machine → Run
  write_head bs m = bwrite start (fill_head bs m)

  -- The loop of `write_log` from `tail` on, over the numbers that are left.
  unfoldable pub write_log : ℕ → List ℕ → Machine → Run
  write_log tail [] m = running m
  write_log tail (b ∷ bs) m =
      and_then (bwrite (start + tail + 1) (copy (start + tail + 1) b m)) (write_log (tail + 1) bs)

  -- The loop of `install_trans` from `tail` on.
  unfoldable pub install_trans : ℕ → List ℕ → Machine → Run
  install_trans tail [] m = running m
  install_trans tail (b ∷ bs) m =
      and_then (bwrite b (copy b (start + tail + 1) m)) (install_trans (tail + 1) bs)

  -- `commit()` when `log.lh` holds `bs`.
  unfoldable pub commit : List ℕ → Machine → Run
  commit [] m = running m
  commit (b ∷ bs) m = and_then (write_log 0 (b ∷ bs) m) λ m.
      and_then (write_head (b ∷ bs) m) λ m. and_then (install_trans 0 (b ∷ bs) m) (write_head [])

  unfoldable pub recover_from_log : Machine → Run
  recover_from_log m = and_then (install_trans 0 (read_head m) m) (write_head [])

-- MAXOPBLOCKS
abbrev pub maxopblocks : ℕ
maxopblocks = 10

-- `struct log` as `begin_op` and `end_op` see it; `block` is `lh.block[0..lh.n)`.
pub record Log : Type 0 where
  pub outstanding : ℕ
  pub committing : Bool
  pub block : List ℕ

-- One round of the loop of `begin_op`; `none` is a sleep on `&log`.
unfoldable pub begin_op : Log → Option Log
begin_op l =
    if l.committing
    then none
    else if ltb logsize (length l.block + (l.outstanding + 1) * maxopblocks)
    then none
    else some (record l { outstanding = l.outstanding + 1 })

-- `end_op` up to the commit: the log, and whether the caller commits (else it wakes the sleepers);
-- `none` is the panic. It is called inside an operation, where `outstanding` is 1 at least; at 0 the `int`
-- of the source would go to -1, and this number stays.
unfoldable pub end_op : Log → Option (Log × Bool)
end_op l =
    if l.committing
    then none
    else if l.outstanding - 1 == 0
    then some (record l { outstanding = l.outstanding - 1; committing = true }, true)
    else some (record l { outstanding = l.outstanding - 1 }, false)

-- `end_op` after the commit, which has set `lh.n` to 0.
unfoldable pub committed : Log → Log
committed l = record l { committing = false; block = [] }

-- `log_write` on the header alone, for a log of `size` blocks; `none` is a panic.
unfoldable pub header_write : ℕ → ℕ → Log → Option Log
header_write size b l =
    if leb logsize (length l.block)
    then none
    else if leb size (length l.block + 1)
    then none
    else if l.outstanding == 0
    then none
    else some (record l { block = absorb b l.block })
