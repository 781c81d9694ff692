-- ===== src/Fs/Bmap/Tree.antt =====
-- A file's blocks as a tree of addresses: the inode's own, those in its indirect block, and those
-- below its doubly indirect block.
use cuhksz_operating_system.Prelude.{ℕ, ◌+◌, ◌<◌, ◌≡◌, ◌≢◌, true, ◌==◌, if◌then◌else◌, length}
use cuhksz_operating_system.Fs.Disk.{Superblock, Disk, word}
use cuhksz_operating_system.Fs.Inode.{Inode, ndirect, nindirect}
use cuhksz_operating_system.Fs.Blocks.{bblock, allocated}
use cuhksz_operating_system.Fs.Bmap.{addr_at}

-- The places where an address stands.
pub data Pos : Type 0 where
  direct : (i : ℕ) → Pos  -- addrs[i], a data block
  single : Pos  -- addrs[NDIRECT], the indirect block
  double : Pos  -- addrs[NDIRECT+1], the doubly indirect block
  leaf : (i : ℕ) → Pos  -- word i of the indirect block, a data block
  mid : (i : ℕ) → Pos  -- word i of the doubly indirect block, a block of addresses
  deep : (i j : ℕ) → Pos  -- word j of block `mid i`, a data block

abbrev pub InTree : Pos → Type 0
InTree (direct i) = i < ndirect
InTree single = Unit
InTree double = Unit
InTree (leaf i) = i < nindirect
InTree (mid i) = i < nindirect
InTree (deep i j) = (i < nindirect) × (j < nindirect)

-- No block has no words.
abbrev pub entry : Disk → ℕ → ℕ → ℕ
entry d p i = if p == 0 then 0 else word d p i

-- The address at a place, 0 if there is none.
abbrev pub ptr : Inode → Disk → Pos → ℕ
ptr ip d (direct i) = addr_at ip i
ptr ip d single = addr_at ip ndirect
ptr ip d double = addr_at ip (ndirect + 1)
ptr ip d (leaf i) = entry d (addr_at ip ndirect) i
ptr ip d (mid i) = entry d (addr_at ip (ndirect + 1)) i
ptr ip d (deep i j) = entry d (entry d (addr_at ip (ndirect + 1)) i) j

module _ (sb : Superblock) where
  -- Each address of the tree is that of an allocated block on the disk outside the bit map, and no
  -- block has two places.
  pub record IsTree (ip : Inode) (d : Disk) : Type 0 where
    pub len : length ip.addrs ≡ 13
    pub used : (q : Pos) → InTree q → ptr ip d q ≢ 0 → allocated sb d (ptr ip d q) ≡ true
    pub on_disk : (q : Pos) → InTree q → ptr ip d q < sb.size
    pub off_map :
        (q : Pos) (b : ℕ) → InTree q → b < sb.size → ptr ip d q ≢ 0 → ptr ip d q ≢ bblock sb b
    pub apart :
        (q q' : Pos) → InTree q → InTree q' → ptr ip d q ≢ 0 → ptr ip d q ≡ ptr ip d q' → q ≡ q'
