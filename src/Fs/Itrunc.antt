-- ===== src/Fs/Itrunc.antt =====
-- `iupdate` and `itrunc` of Assignment4/source/fs.c: an inode written back, and a file's blocks freed.
pub mod Room
pub mod Loops
pub mod Stages
pub mod Update
pub mod Leak
use cuhksz_operating_system.Prelude.{
  ℕ, zero, suc, ◌+◌, ◌*◌, ◌/◌, ◌%◌, true, false, List, [], ◌∷◌, ◌==◌, if◌then◌else◌, set,
}
use cuhksz_operating_system.Fs.Disk.{
  Superblock, Disk, word, Cmd, pure, ◌>>=◌, ◌>>◌, store_byte, log_write,
}
use cuhksz_operating_system.Fs.Blocks.{bfree}
use cuhksz_operating_system.Fs.Inode.{Inode, ndirect, nindirect}
use cuhksz_operating_system.Fs.Bmap.{addr_at, set_addr}

-- IPB: a `struct dinode` has 64 bytes.
abbrev pub ipb : ℕ
ipb = 16

-- A `short` and a `uint` at byte `o` of block `b`.
unfoldable pub store_short : ℕ → ℕ → ℕ → Cmd (Unit {0})
store_short b o v = do store_byte b o v; store_byte b (o + 1) (v / 256)

unfoldable pub store_uint : ℕ → ℕ → ℕ → Cmd (Unit {0})
store_uint b o v = do
  store_byte b o v
  store_byte b (o + 1) (v / 256)
  store_byte b (o + 2) (v / 65536)
  store_byte b (o + 3) (v / 16777216)

-- `memmove(dip->addrs, ip->addrs, sizeof(ip->addrs))`
unfoldable pub store_addrs : ℕ → ℕ → List ℕ → Cmd (Unit {0})
store_addrs b o [] = pure tt
store_addrs b o (a ∷ rest) = do store_uint b o a; store_addrs b (o + 4) rest

-- The assignments to `*dip`, at byte `o` of block `b`.
unfoldable pub store_dinode : Inode → ℕ → ℕ → Cmd (Unit {0})
store_dinode ip b o = do
  store_short b o ip.type
  store_short b (o + 2) ip.major
  store_short b (o + 4) ip.minor
  store_short b (o + 6) ip.nlink
  store_uint b (o + 8) ip.size
  store_addrs b (o + 12) ip.addrs

module _ (sb : Superblock) where
  -- IBLOCK(i, sb)
  abbrev pub iblock : ℕ → ℕ
  iblock i = i / ipb + sb.inodestart

  unfoldable pub iupdate : Inode → Cmd (Unit {0})
  iupdate ip = do
    store_dinode ip (iblock ip.inum) (64 * (ip.inum % ipb))
    log_write sb (iblock ip.inum)

  -- The loop over the direct addresses; the first argument is the rounds left.
  unfoldable pub free_direct : ℕ → ℕ → Inode → Cmd Inode
  free_direct zero i ip = pure ip
  free_direct (suc left) i ip = elim (addr_at ip i == 0) [
    | true ↦ free_direct left (i + 1) ip
    | false ↦ do bfree sb (addr_at ip i); free_direct left (i + 1) (set_addr ip i 0)
  ]

  -- `bfree(ip->dev, a[j])`, where `a` is block `p` seen as an array of words
  unfoldable pub bfree_word : ℕ → ℕ → Cmd (Unit {0})
  bfree_word p j d = bfree sb (word d p j) d

  -- The loop that frees the blocks whose numbers are the words of block `p`.
  unfoldable pub free_words : ℕ → ℕ → ℕ → Cmd (Unit {0})
  free_words p zero j d = pure tt d
  free_words p (suc left) j d = elim (word d p j == 0) [
    | true ↦ free_words p left (j + 1) d
    | false ↦ (do bfree_word p j; free_words p left (j + 1)) d
  ]

  unfoldable pub free_single : Inode → Cmd Inode
  free_single ip = if addr_at ip ndirect == 0 then pure ip else do
    free_words (addr_at ip ndirect) nindirect 0
    bfree sb (addr_at ip ndirect)
    pure (set_addr ip ndirect 0)

  -- The outer loop of the doubly indirect part, over the words of block `p`.
  unfoldable pub free_tables : ℕ → ℕ → ℕ → Cmd (Unit {0})
  free_tables p zero j d = pure tt d
  free_tables p (suc left) j d = elim (word d p j == 0) [
    | true ↦ free_tables p left (j + 1) d
    | false ↦ (do free_words (word d p j) nindirect 0; bfree_word p j; free_tables p left (j + 1)) d
  ]

  -- The block that is read is that of `addrs[NDIRECT]`, as in the source.
  unfoldable pub free_double : Inode → Cmd Inode
  free_double ip = if addr_at ip (ndirect + 1) == 0 then pure ip else do
    free_tables (addr_at ip ndirect) nindirect 0
    bfree sb (addr_at ip (ndirect + 1))
    pure (set_addr ip (ndirect + 1) 0)

  unfoldable pub itrunc : Inode → Cmd Inode
  itrunc ip = do
    ip₁ ← free_direct ndirect 0 ip
    ip₂ ← free_single ip₁
    ip₃ ← free_double ip₂
    iupdate (record ip₃ { size = 0 })
    pure (record ip₃ { size = 0 })
