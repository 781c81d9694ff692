-- ===== src/Fs/Inode.antt =====
-- `struct inode`: the in-memory copy of an inode (kernel/file.h, with the NDIRECT + 2 addresses that
-- Assignment4/source/fs.c uses). Its sleep lock is held by the caller of what is modelled here.
use cuhksz_operating_system.Prelude.{ℕ, Bool, List}

-- NDIRECT, NINDIRECT and NDINDIRECT of Assignment4/source/fs.h
abbrev pub ndirect : ℕ
ndirect = 11

abbrev pub nindirect : ℕ
nindirect = 256

abbrev pub ndindirect : ℕ
ndindirect = 65536

pub record Inode : Type 0 where
  pub dev : ℕ
  pub inum : ℕ
  pub ref : ℕ
  pub valid : Bool
  pub type : ℕ
  pub major : ℕ
  pub minor : ℕ
  pub nlink : ℕ
  pub size : ℕ
  pub addrs : List ℕ
