-- ===== src/Fs/Bmap/Frame.antt =====
-- An allocation leaves the tree as it is, and a fresh block put into the inode or into a block of
-- addresses is an addition at one place.
use cuhksz_operating_system.Prelude.{
  ℕ, ◌+◌, ◌*◌, ◌<◌, ◌≡◌, ◌≢◌, refl, sym, ap, ◌∙◌, ◌==◌, length, length-set, get_or-set_self,
  get_or-set_ne, arith, Bool-cases, ==→ne, inl, inr,
}
use cuhksz_operating_system.Fs.Disk.{Superblock, Disk, byte, bsize, word}
use cuhksz_operating_system.Fs.Inode.{Inode, ndirect, nindirect}
use cuhksz_operating_system.Fs.Blocks.{allocated}
use cuhksz_operating_system.Fs.Blocks.Alloc.{Allocates}
use cuhksz_operating_system.Fs.Bmap.{addr_at, set_addr}
use cuhksz_operating_system.Fs.Bmap.Tree.{
  Pos, direct, single, double, leaf, mid, deep, InTree, entry, ptr, IsTree,
}
use cuhksz_operating_system.Fs.Bmap.Grow.{Adds}

pub word_congr :
    (d d' : Disk) (p i : ℕ) → ((o : ℕ) → byte d' p o ≡ byte d p o) → word d' p i ≡ word d p i
word_congr d d' p i h = omega (arith, h (4 * i), h (4 * i + 1), h (4 * i + 2), h (4 * i + 3))

pub word_zero :
    (d : Disk) (p i : ℕ) → i < nindirect → ((o : ℕ) → o < bsize → byte d p o ≡ 0) → word d p i ≡ 0
word_zero d p i h z = omega (
  arith,
  z (4 * i) (omega arith),
  z (4 * i + 1) (omega arith),
  z (4 * i + 2) (omega arith),
  z (4 * i + 3) (omega arith),
)

pub entry_congr :
    (d d' : Disk) (p i : ℕ) → (p ≢ 0 → word d' p i ≡ word d p i) → entry d' p i ≡ entry d p i
entry_congr d d' p i h = elim (Bool-cases (p == 0)) [
  | inl e ↦ rw e
  | inr ne ↦ rw ne (h (==→ne p 0 ne))
]

pub entry_zero :
    (d : Disk) (p i : ℕ) → i < nindirect → ((o : ℕ) → o < bsize → byte d p o ≡ 0) → entry d p i ≡ 0
entry_zero d p i h z = ground (arith, word_zero d p i h z)

module _ (sb : Superblock) (a : ℕ) (ip : Inode) (d d' : Disk) (t : IsTree sb ip d)
    (g : Allocates sb a d d') where
  -- Every block of the tree keeps its bytes.
  pub block_kept :
      (q : Pos) (o : ℕ) → InTree q → ptr ip d q ≢ 0 → byte d' (ptr ip d q) o ≡ byte d (ptr ip d q) o
  block_kept q o in_tree ne =
      g.elsewhere (ptr ip d q) o (λ e. cc (t.used q in_tree ne, g.was_free, ap (allocated sb d) e))
        (t.off_map q a in_tree g.in_range ne)

  entry_kept : (q : Pos) (i : ℕ) → InTree q → entry d' (ptr ip d q) i ≡ entry d (ptr ip d q) i
  entry_kept q i in_tree =
      entry_congr d d' (ptr ip d q) i
        (λ ne. word_congr d d' (ptr ip d q) i (λ o. block_kept q o in_tree ne))

  -- Every place of the tree keeps its address.
  pub ptr_kept : (q : Pos) → InTree q → ptr ip d' q ≡ ptr ip d q
  ptr_kept (direct i) h = refl
  ptr_kept single h = refl
  ptr_kept double h = refl
  ptr_kept (leaf i) h = entry_kept single i tt
  ptr_kept (mid i) h = entry_kept double i tt
  ptr_kept (deep i j) h =
      ap (λ (p : ℕ). entry d' p j) (entry_kept double i tt) ∙ entry_kept (mid i) j h.0

  addr_self : (k : ℕ) → k < 13 → addr_at (set_addr ip k a) k ≡ a
  addr_self k h = get_or-set_self ip.addrs k a 0 (omega (arith, t.len))

  addr_other : (k i : ℕ) → k ≢ i → addr_at (set_addr ip k a) i ≡ addr_at ip i
  addr_other k i ne = get_or-set_ne ip.addrs k i a 0 ne

  len_kept : (k : ℕ) → length (set_addr ip k a).addrs ≡ 13
  len_kept k = length-set ip.addrs k a ∙ t.len

  -- What a fresh block's words are, and what an empty place had below it.
  below_fresh : (p i : ℕ) → i < nindirect → p ≡ a → entry d' p i ≡ 0
  below_fresh p i h e = rw e (entry_zero d' a i h g.zeroed)

  pub Adds-direct : (k : ℕ) → k < ndirect → Adds sb (direct k) a ip d (set_addr ip k a) d'
  Adds-direct k h = record {
    in_range = g.in_range;
    was_free = g.was_free;
    bits = g.bits;
    len = len_kept k;
    at = addr_self k (omega arith);
    others = others;
  }
    where
      others : (q : Pos) → InTree q → q ≢ direct k → ptr (set_addr ip k a) d' q ≡ ptr ip d q
      others (direct i) hi ne = addr_other k i (λ e. ne (ap direct (sym e)))
      others single hi ne = addr_other k 11 (omega arith)
      others double hi ne = addr_other k 12 (omega arith)
      others (leaf i) hi ne = rw (addr_other k 11 (omega arith)) (ptr_kept (leaf i) hi)
      others (mid i) hi ne = rw (addr_other k 12 (omega arith)) (ptr_kept (mid i) hi)
      others (deep i j) hi ne = rw (addr_other k 12 (omega arith)) (ptr_kept (deep i j) hi)

  pub Adds-single : addr_at ip 11 ≡ 0 → Adds sb single a ip d (set_addr ip 11 a) d'
  Adds-single empty = record {
    in_range = g.in_range;
    was_free = g.was_free;
    bits = g.bits;
    len = len_kept 11;
    at = addr_self 11 (omega arith);
    others = others;
  }
    where
      others : (q : Pos) → InTree q → q ≢ single → ptr (set_addr ip 11 a) d' q ≡ ptr ip d q
      others (direct i) hi ne = addr_other 11 i (omega arith)
      others single hi ne = absurd (ne refl)
      others double hi ne = addr_other 11 12 (omega arith)
      others (leaf i) hi ne = rw empty (below_fresh _ i hi (addr_self 11 (omega arith)))
      others (mid i) hi ne = rw (addr_other 11 12 (omega arith)) (ptr_kept (mid i) hi)
      others (deep i j) hi ne = rw (addr_other 11 12 (omega arith)) (ptr_kept (deep i j) hi)

  pub Adds-double : addr_at ip 12 ≡ 0 → Adds sb double a ip d (set_addr ip 12 a) d'
  Adds-double empty = record {
    in_range = g.in_range;
    was_free = g.was_free;
    bits = g.bits;
    len = len_kept 12;
    at = addr_self 12 (omega arith);
    others = others;
  }
    where
      others : (q : Pos) → InTree q → q ≢ double → ptr (set_addr ip 12 a) d' q ≡ ptr ip d q
      others (direct i) hi ne = addr_other 12 i (omega arith)
      others single hi ne = addr_other 12 11 (omega arith)
      others double hi ne = absurd (ne refl)
      others (leaf i) hi ne = rw (addr_other 12 11 (omega arith)) (ptr_kept (leaf i) hi)
      others (mid i) hi ne = rw empty (below_fresh _ i hi (addr_self 12 (omega arith)))
      others (deep i j) hi ne = rw (empty, below_fresh _ i hi.0 (addr_self 12 (omega arith)))
