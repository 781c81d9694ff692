-- ===== src/Fs/Blocks/Bitmap.antt =====
-- Writes to the bit map and to fresh blocks, as facts about which blocks are allocated.
use cuhksz_operating_system.Prelude.{
  ℕ, suc, ◌/◌, ◌%◌, ◌<◌, ◌≡◌, ◌≢◌, refl, true, false, not, ◌&&◌, ◌||◌, ltb, ◌==◌, if◌then◌else◌,
  arith,
}
use cuhksz_operating_system.Prelude.Bits.{set_bit, clear_bit, set_bit_lem, clear_bit_lem}
use cuhksz_operating_system.Fs.Disk.{
  Superblock, Disk, byte, bsize, panic, Returns, returns, store_byte, clear_block,
}
use cuhksz_operating_system.Fs.Disk.{absorb}
use cuhksz_operating_system.Fs.Log.{Logs, Room, log_write-ok, absorb-Logs}
use cuhksz_operating_system.Fs.Blocks.{bpb, bblock, bzero, mark, bfree, allocated}

module _ (sb : Superblock) where
  -- Block `c` becomes allocated, and nothing else changes.
  pub record Marks (c : ℕ) (d d' : Disk) : Type 0 where
    pub bits : (b : ℕ) → allocated sb d' b ≡ (c == b || allocated sb d b)
    pub elsewhere : (b o : ℕ) → b ≢ bblock sb c → byte d' b o ≡ byte d b o
    pub logs : Logs 1 d d'

  -- Block `c` becomes free, and nothing else changes.
  pub record Frees (c : ℕ) (d d' : Disk) : Type 0 where
    pub bits : (b : ℕ) → allocated sb d' b ≡ (not (c == b) && allocated sb d b)
    pub elsewhere : (b o : ℕ) → b ≢ bblock sb c → byte d' b o ≡ byte d b o
    pub logs : Logs 1 d d'
    pub header : d'.logged ≡ absorb (bblock sb c) d.logged

  -- Block `c` becomes all zero, and nothing else changes.
  pub record Zeroes (c : ℕ) (d d' : Disk) : Type 0 where
    pub zeroed : (o : ℕ) → o < bsize → byte d' c o ≡ 0
    pub elsewhere : (b o : ℕ) → b ≢ c → byte d' b o ≡ byte d b o
    pub logs : Logs 1 d d'

  pub bzero-Zeroes :
      (c k : ℕ) (d : Disk) → Room sb (suc k) d → Returns (λ _ d'. Zeroes c d d') (bzero sb c d)
  unfolding bzero clear_block
  bzero-Zeroes c k d r =
      let d₁ : Disk = record d {
        image = λ b o. if b == c && ltb o bsize then 0 else d.image b o;
      } in
      rw (log_write-ok sb c k d₁ (omega (arith, r))) (
        returns (record {
          zeroed = λ o h. ground arith;
          elsewhere = λ b o ne. ground arith;
          logs = absorb-Logs sb c d d₁ refl refl (λ b o ne. ground arith);
        }))

  pub mark-Marks :
      (c k : ℕ) (d : Disk)
      → Room sb (suc k) d
      → Returns (λ _ d'. Marks c d d') (mark sb (bblock sb c) (c % bpb) d)
  unfolding mark store_byte
  mark-Marks c k d r =
      let x : ℕ = byte d (bblock sb c) (c % bpb / 8) in
      let d₁ : Disk = record d {
        image = λ b o.
            if b == bblock sb c && o == c % bpb / 8
            then set_bit x (c % bpb % 8) % 256
            else d.image b o;
      } in
      rw (log_write-ok sb (bblock sb c) k d₁ (omega (arith, r))) (
        returns (record {
          bits = λ b. ground (arith, set_bit_lem x (c % bpb % 8) (b % bpb % 8));
          elsewhere = λ b o ne. ground arith;
          logs = absorb-Logs sb (bblock sb c) d d₁ refl refl (λ b o ne. ground arith);
        }))

  -- With room in the log, `bfree` of an allocated block frees that block alone.
  pub bfree-Frees :
      (c k : ℕ) (d : Disk)
      → Room sb (suc k) d
      → allocated sb d c ≡ true
      → Returns (λ _ d'. Frees c d d') (bfree sb c d)
  unfolding bfree store_byte
  bfree-Frees c k d r used =
      let x : ℕ = byte d (bblock sb c) (c % bpb / 8) in
      let d₁ : Disk = record d {
        image = λ b o.
            if b == bblock sb c && o == c % bpb / 8
            then clear_bit x (c % bpb % 8) % 256
            else d.image b o;
      } in
      rw used (
        rw (log_write-ok sb (bblock sb c) k d₁ (omega (arith, r))) (
          returns (record {
            bits = λ b. ground (arith, clear_bit_lem x (c % bpb % 8) (b % bpb % 8));
            elsewhere = λ b o ne. ground arith;
            header = refl;
            logs = absorb-Logs sb (bblock sb c) d d₁ refl refl (λ b o ne. ground arith);
          })))

  -- `bfree` of a free block stops the kernel.
  pub bfree_of_free : (c : ℕ) (d : Disk) → allocated sb d c ≡ false → bfree sb c d ≡ panic
  unfolding bfree
  bfree_of_free c d free = rw free
