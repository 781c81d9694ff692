-- ===== src/Fs/Blocks.antt =====
-- The block layer of Assignment4/source/fs.c: `bzero`, `balloc` and `bfree` over the free bit map.
pub mod Bitmap
pub mod Alloc
use cuhksz_operating_system.Prelude.{
  ℕ, zero, suc, ◌+◌, ◌/◌, ◌%◌, Bool, true, false, not, Option, none, some, ltb, if◌then◌else◌,
}
use cuhksz_operating_system.Prelude.Bits.{has_bit, set_bit, clear_bit}
use cuhksz_operating_system.Fs.Disk.{
  Superblock, Disk, byte, Cmd, pure, ◌>>=◌, ◌>>◌, panic, store_byte, clear_block, log_write,
}

-- BPB, the bits of a bit map block.
abbrev pub bpb : ℕ
bpb = 8192

-- A block that was found is returned; else the loop goes on.
abbrev pub found_or : Option ℕ → Cmd ℕ → Cmd ℕ
found_or none rest = rest
found_or (some a) rest = pure a

module _ (sb : Superblock) where
  -- BBLOCK(b, sb)
  abbrev pub bblock : ℕ → ℕ
  bblock b = b / bpb + sb.bmapstart

  -- `bp->data[bi/8] & (1 << (bi % 8))` in bit map block `bb`.
  abbrev pub in_use : Disk → ℕ → ℕ → Bool
  in_use d bb bi = has_bit (byte d bb (bi / 8)) (bi % 8)

  unfoldable pub bzero : ℕ → Cmd (Unit {0})
  bzero bno = do clear_block bno; log_write sb bno

  -- `bp->data[bi/8] |= m; log_write(bp)`
  unfoldable pub mark : ℕ → ℕ → Cmd (Unit {0})
  mark bb bi d =
      (do store_byte bb (bi / 8) (set_bit (byte d bb (bi / 8)) (bi % 8)); log_write sb bb) d

  -- The inner loop of `balloc`; the first argument is the rounds left, `BPB - bi`.
  unfoldable pub scan : ℕ → ℕ → ℕ → Cmd (Option ℕ)
  scan zero b bi d = pure none d
  scan (suc left) b bi d = elim (ltb (b + bi) sb.size) [
    | false ↦ pure none d
    | true ↦ elim (in_use d (bblock b) bi) [
      | false ↦ (do mark (bblock b) bi; bzero (b + bi); pure (some (b + bi))) d
      | true ↦ scan left b (bi + 1) d
    ]
  ]

  -- The outer loop; its rounds are counted by the first argument.
  unfoldable pub balloc_from : ℕ → ℕ → Cmd ℕ
  balloc_from zero b d = pure 0 d
  balloc_from (suc rounds) b d = elim (ltb b sb.size) [
    | false ↦ pure 0 d
    | true ↦ (do found ← scan bpb b 0; found_or found (balloc_from rounds (b + bpb))) d
  ]

  unfoldable pub balloc : Cmd ℕ
  balloc = balloc_from (sb.size / bpb + 1) 0

  unfoldable pub bfree : ℕ → Cmd (Unit {0})
  bfree b d =
      if in_use d (bblock b) (b % bpb)
      then (do
        store_byte (bblock b) (b % bpb / 8)
            (clear_bit (byte d (bblock b) (b % bpb / 8)) (b % bpb % 8))
        log_write sb (bblock b))
          d
      else panic

  -- The bit of block `b`.
  abbrev pub allocated : Disk → ℕ → Bool
  allocated d b = in_use d (bblock b) (b % bpb)
