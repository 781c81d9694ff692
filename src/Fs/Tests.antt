-- ===== src/Fs/Tests.antt =====
-- A disk of sixteen blocks, the first six in use, and the file system's theorems on it.
use cuhksz_operating_system.Prelude.{
  ◌≤◌, ◌↔◌, ℕ, zero, suc, ◌<◌, ◌≡◌, ◌≢◌, refl, sym, ap, ◌∙◌, ◌⊎◌, inl, inr, true, [], ◌∷◌, arith,
  ◌==◌, ◌&&◌, if◌then◌else◌, get_or, set, replicate, length-replicate,
}
use cuhksz_operating_system.Prelude.Bits.{has_bit, set_bit}
use cuhksz_operating_system.Fs.Disk.{
  Superblock, Disk, Outcome, ok, panic, Returns, store_byte, clear_block, store_word, log_write,
}
use cuhksz_operating_system.Fs.Log.{Room}
use cuhksz_operating_system.Fs.Inode.{Inode}
use cuhksz_operating_system.Fs.Blocks.{bblock, bzero, mark, scan, balloc_from, balloc, bfree}
use cuhksz_operating_system.Fs.Blocks.Bitmap.{Frees, bfree-Frees}
use cuhksz_operating_system.Fs.Blocks.Alloc.{IsFormatted, Balloced, balloc-Balloced}
use cuhksz_operating_system.Fs.Bmap.{addr_at, load_addr, load_word, bmap_double, bmap}
use cuhksz_operating_system.Fs.Bmap.Tree.{Pos, direct, single, double, leaf, mid, deep, ptr, IsTree}
use cuhksz_operating_system.Fs.Bmap.Correct.{maxfile, place, BootZero, Mapped}
use cuhksz_operating_system.Fs.Bmap.Walk.{bmap-Mapped}
use cuhksz_operating_system.Fs.Itrunc.Room.{MapRoom, full_log, unlogged}
use cuhksz_operating_system.Fs.Itrunc.{itrunc}
use cuhksz_operating_system.Fs.Itrunc.Leak.{Truncated, itrunc-Truncated}
use cuhksz_operating_system.Fs.Bmap.Again.{bmap_there, bmap_out_of_range}

abbrev small : Superblock
small = record {
  size = 16;
  nblocks = 10;
  ninodes = 16;
  nlog = 30;
  logstart = 2;
  inodestart = 3;
  bmapstart = 4;
}

-- Bits 0 to 5 of the bit map are set.
abbrev image : ℕ → ℕ → ℕ
image b o = if b == 4 && o == 0 then 63 else 0

abbrev disk : Disk
disk = record { image = image; logged = []; outstanding = 1 }

abbrev empty : Inode
empty = record {
  dev = 1;
  inum = 7;
  ref = 1;
  valid = true;
  type = 2;
  major = 0;
  minor = 0;
  nlink = 1;
  size = 0;
  addrs = replicate 13 0;
}

-- The fourth address of the file is there: block 5.
abbrev one_block : Inode
one_block = record empty { addrs = 0 ∷ 0 ∷ 0 ∷ 5 ∷ replicate 9 0 }

disk-IsFormatted : IsFormatted small disk
unfolding has_bit
disk-IsFormatted = record {
  size_fits = omega arith;
  map_fits = omega arith;
  after_boot = omega arith;
  zero_reserved = refl;
  maps_reserved = λ b h. let e : bblock small b ≡ 4 = omega arith in rw e;
}

disk-BootZero : BootZero disk
disk-BootZero j h = refl

disk-Room : (k : ℕ) → k < 30 → k < 29 → Room small k disk
disk-Room k h h' = omega arith

get_or-zeros : (n i : ℕ) → get_or {A = ℕ} (replicate n 0) i 0 ≡ 0
unfolding get_or replicate
get_or-zeros zero i = refl
get_or-zeros (suc n) zero = refl
get_or-zeros (suc n) (suc i) = get_or-zeros n i

ptr-empty : (q : Pos) → ptr empty disk q ≡ 0
ptr-empty (direct i) = get_or-zeros 13 i
ptr-empty single = get_or-zeros 13 11
ptr-empty double = get_or-zeros 13 12
ptr-empty (leaf i) = rw (get_or-zeros 13 11)
ptr-empty (mid i) = rw (get_or-zeros 13 12)
ptr-empty (deep i j) = rw (get_or-zeros 13 12)

empty-IsTree : IsTree small empty disk
empty-IsTree = record {
  len = length-replicate 13 0;
  used = λ q h ne. absurd (ne (ptr-empty q));
  on_disk = λ q h. rw (ptr-empty q) (omega arith);
  off_map = λ q b h hb ne. absurd (ne (ptr-empty q));
  apart = λ q q' h h' ne. absurd (ne (ptr-empty q));
}

abbrev answer : Outcome (ℕ × Inode) → ℕ
answer (ok r d) = r.0
answer panic = 0

-- The first block past the direct and the indirect ones: blocks 6 and 7 hold addresses, 8 the data.
bmap_doubly_indirect : answer (bmap small empty 267 disk) ≡ 8
unfolding bmap bmap_double load_addr load_word balloc balloc_from scan mark bzero store_byte
    clear_block store_word log_write has_bit set_bit get_or set replicate
bmap_doubly_indirect = refl

bmap-Mapped_example :
    Returns (λ r d'. Mapped small 8 (place 267) empty disk r.0 r.1 d') (bmap small empty 267 disk)
bmap-Mapped_example =
    bmap-Mapped small empty disk 267 empty-IsTree disk-IsFormatted disk-BootZero (omega arith)
      (disk-Room 8 (omega arith) (omega arith))

bmap_out_of_range_example : (bmap small empty 65803 disk ≡ panic) ↔ (maxfile ≤ 65803)
bmap_out_of_range_example =
    bmap_out_of_range small empty disk 65803 empty-IsTree disk-IsFormatted disk-BootZero
      (disk-Room 8 (omega arith) (omega arith))

bmap_there_example : bmap small one_block 3 disk ≡ ok (5, one_block) disk
unfolding get_or
bmap_there_example = bmap_there small one_block disk 3 (omega arith) (omega arith)

balloc-Balloced_example : Returns (Balloced small disk) (balloc small disk)
balloc-Balloced_example =
    balloc-Balloced small disk disk-IsFormatted (disk-Room 2 (omega arith) (omega arith))

bfree-Frees_example : Returns (λ _ d'. Frees small 5 disk d') (bfree small 5 disk)
unfolding has_bit
bfree-Frees_example = bfree-Frees small 5 0 disk (disk-Room 1 (omega arith) (omega arith)) refl

get_or-one_block : (i : ℕ) → (addr_at one_block i ≡ 0) ⊎ (i ≡ 3)
unfolding get_or
get_or-one_block zero = inl refl
get_or-one_block (suc zero) = inl refl
get_or-one_block (suc (suc zero)) = inl refl
get_or-one_block (suc (suc (suc zero))) = inr refl
get_or-one_block (suc (suc (suc (suc i)))) = inl (get_or-zeros 9 i)

ptr-one_block : (q : Pos) → (ptr one_block disk q ≡ 0) ⊎ (q ≡ direct 3)
unfolding get_or replicate
ptr-one_block (direct i) = elim (get_or-one_block i) [ inl e ↦ inl e | inr e ↦ inr (ap direct e) ]
ptr-one_block single = inl refl
ptr-one_block double = inl refl
ptr-one_block (leaf i) = inl refl
ptr-one_block (mid i) = inl refl
ptr-one_block (deep i j) = inl refl

ptr-one_block_lem : (q : Pos) → ptr one_block disk q ≢ 0 → q ≡ direct 3
ptr-one_block_lem q ne = elim (ptr-one_block q) [ inl e ↦ absurd (ne e) | inr e ↦ e ]

one_block-IsTree : IsTree small one_block disk
unfolding get_or has_bit replicate
one_block-IsTree = record {
  len = refl;
  used = λ q h ne. rw (ptr-one_block_lem q ne);
  on_disk =
      λ q h. elim (ptr-one_block q) [ inl e ↦ rw e (omega arith) | inr e ↦ rw e (omega arith) ];
  off_map = λ q b h hb ne e.
      let e' : ptr one_block disk q ≡ 5 = rw (ptr-one_block_lem q ne) in omega arith;
  apart = λ q q' h h' ne e. ptr-one_block_lem q ne ∙ sym (ptr-one_block_lem q' (λ z. ne (e ∙ z)));
}

disk-MapRoom : MapRoom small disk
unfolding full_log unlogged
disk-MapRoom = record { in_header = omega arith; on_disk = omega arith; in_trans = omega arith }

itrunc-Truncated_example :
    Returns
      (Truncated small one_block disk one_block-IsTree disk-IsFormatted)
      (itrunc small one_block disk)
itrunc-Truncated_example =
    itrunc-Truncated small one_block disk one_block-IsTree disk-IsFormatted disk-BootZero
      disk-MapRoom (λ b h e. omega arith)
