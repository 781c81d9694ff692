-- ===== src/Fs/Bmap.antt =====
-- `bmap` of Assignment4/source/fs.c: the block that holds the n-th block of a file, found through
-- direct, indirect and doubly indirect addresses, and allocated where there is none.
pub mod Tree
pub mod Grow
pub mod Frame
pub mod Store
pub mod Load
pub mod Correct
pub mod Walk
pub mod Again
use cuhksz_operating_system.Prelude.{ℕ, ◌+◌, ◌-◌, ◌/◌, ◌%◌, ltb, ◌==◌, if◌then◌else◌, get_or, set}
use cuhksz_operating_system.Fs.Disk.{
  Superblock, Disk, word, Cmd, pure, ◌>>=◌, ◌>>◌, ok, panic, store_word, log_write,
}
use cuhksz_operating_system.Fs.Blocks.{balloc}
use cuhksz_operating_system.Fs.Inode.{Inode, ndirect, nindirect, ndindirect}

abbrev pub addr_at : Inode → ℕ → ℕ
addr_at ip k = get_or ip.addrs k 0

abbrev pub set_addr : Inode → ℕ → ℕ → Inode
set_addr ip k a = record ip { addrs = set ip.addrs k a }

module _ (sb : Superblock) where
  -- `if((addr = ip->addrs[k]) == 0){ addr = balloc(ip->dev); if(addr == 0) return 0; ... }`:
  -- the address, 0 if there was none and none could be allocated, and the inode.
  unfoldable pub load_addr : Inode → ℕ → Cmd (ℕ × Inode)
  load_addr ip k =
      if addr_at ip k == 0
      then (do a ← balloc sb; pure (a, if a == 0 then ip else set_addr ip k a))
      else pure (addr_at ip k, ip)

  -- `if((addr = a[i]) == 0){ addr = balloc(ip->dev); if(addr){ a[i] = addr; log_write(bp); } }`
  -- where `a` is the block `p` seen as an array of words.
  unfoldable pub load_word : ℕ → ℕ → Cmd ℕ
  load_word p i d =
      if word d p i == 0
      then (do
        a ← balloc sb
        if a == 0 then pure 0 else do store_word p i a; log_write sb p; pure a)
          d
      else ok (word d p i) d

  unfoldable pub bmap_indirect : Inode → ℕ → Cmd (ℕ × Inode)
  bmap_indirect ip bn = do
    (p, ip') ← load_addr ip ndirect
    if p == 0 then pure (0, ip') else do a ← load_word p bn; pure (a, ip')

  -- The middle address is used as it is, also when it is 0 for want of a free block.
  unfoldable pub bmap_double : Inode → ℕ → Cmd (ℕ × Inode)
  bmap_double ip bn = do
    (p, ip') ← load_addr ip (ndirect + 1)
    if p == 0
        then pure (0, ip')
        else do m ← load_word p (bn / nindirect); a ← load_word m (bn % nindirect); pure (a, ip')

  unfoldable pub bmap : Inode → ℕ → Cmd (ℕ × Inode)
  bmap ip bn =
      if ltb bn ndirect
      then load_addr ip bn
      else if ltb (bn - ndirect) nindirect
      then bmap_indirect ip (bn - ndirect)
      else if ltb (bn - ndirect - nindirect) ndindirect
      then bmap_double ip (bn - ndirect - nindirect)
      else λ d. panic
