-- ===== src/Fs/Bmap/Store.antt =====
-- A fresh block put into a block of addresses of the tree is an addition at one place.
use cuhksz_operating_system.Prelude.{
  ℕ, ◌/◌, ◌%◌, ◌<◌, ◌≡◌, ◌≢◌, refl, sym, ap, ◌∙◌, ◌||◌, ◌==◌, arith,
}
use native.Mathlib.Decide.{ℕ_discrete}
use cuhksz_operating_system.Prelude.Bits.{has_bit}
use cuhksz_operating_system.Fs.Disk.{Superblock, Disk}
use cuhksz_operating_system.Fs.Inode.{Inode, nindirect}
use cuhksz_operating_system.Fs.Log.{StoresWord}
use cuhksz_operating_system.Fs.Blocks.{bpb, bblock, allocated}
use cuhksz_operating_system.Fs.Blocks.Alloc.{IsFormatted, Allocates}
use cuhksz_operating_system.Fs.Bmap.Tree.{
  Pos, direct, single, double, leaf, mid, deep, InTree, entry, ptr, IsTree,
}
use cuhksz_operating_system.Fs.Bmap.Grow.{Adds}
use cuhksz_operating_system.Fs.Bmap.Frame.{block_kept, word_congr, entry_congr, entry_zero}

-- Block `a` was allocated from `d` to `d₁`, and its number stored as word `j` of the tree's block at
-- `from`, which gave `d₂`.
module _ (sb : Superblock) (a : ℕ) (ip : Inode) (d d₁ d₂ : Disk) (t : IsTree sb ip d)
    (f : IsFormatted sb d) (g : Allocates sb a d d₁) (from : Pos) (j : ℕ) (in_from : InTree from)
    (ne : ptr ip d from ≢ 0) (s : StoresWord (ptr ip d from) j a d₁ d₂) where
  entry_here : entry d₂ (ptr ip d from) j ≡ a
  entry_here = ground (arith, s.here, g.in_range, f.size_fits)

  entry_same : (i : ℕ) → i ≢ j → entry d₂ (ptr ip d from) i ≡ entry d (ptr ip d from) i
  entry_same i other = entry_congr d d₂ (ptr ip d from) i (λ _.
      s.others i other
      ∙ word_congr d d₁ (ptr ip d from) i (λ o. block_kept sb a ip d d₁ t g from o in_from ne))

  entry_other :
      (q : Pos) (i : ℕ) → InTree q → q ≢ from → entry d₂ (ptr ip d q) i ≡ entry d (ptr ip d q) i
  entry_other q i in_tree other = entry_congr d d₂ (ptr ip d q) i (λ nz.
      word_congr d d₂ (ptr ip d q) i (λ o.
        s.elsewhere (ptr ip d q) o (λ e. other (t.apart q from in_tree in_from nz e))
        ∙ block_kept sb a ip d d₁ t g q o in_tree nz))

  -- The fresh block is still zero: it is not the block that was written.
  entry_fresh : (i : ℕ) → i < nindirect → entry d₂ a i ≡ 0
  entry_fresh i h = entry_zero d₂ a i h (λ o ho.
      s.elsewhere a o (λ e. cc (t.used from in_from ne, g.was_free, ap (allocated sb d) e))
      ∙ g.zeroed o ho)

  bits' : (b : ℕ) → b < sb.size → allocated sb d₂ b ≡ (a == b || allocated sb d b)
  bits' b h =
      ap (λ (x : ℕ). has_bit x (b % bpb % 8))
        (s.elsewhere (bblock sb b) (b % bpb / 8) (λ e. t.off_map from b in_from h ne (sym e)))
      ∙ g.bits b h

  added :
      (q : Pos)
      → ptr ip d₂ q ≡ a
      → ((q' : Pos) → InTree q' → q' ≢ q → ptr ip d₂ q' ≡ ptr ip d q')
      → Adds sb q a ip d ip d₂
  added q at others = record {
    in_range = g.in_range;
    was_free = g.was_free;
    bits = bits';
    len = t.len;
    at = at;
    others = others;
  }

  pub Adds-leaf : from ≡ single → Adds sb (leaf j) a ip d ip d₂
  Adds-leaf e = added (leaf j) (rw e at entry_here) others
    where
      not_single : (q : Pos) → q ≢ single → q ≢ from
      not_single q ne' e' = ne' (e' ∙ e)

      others : (q : Pos) → InTree q → q ≢ leaf j → ptr ip d₂ q ≡ ptr ip d q
      others (direct i) hi ne = refl
      others single hi ne = refl
      others double hi ne = refl
      others (leaf i) hi ne = rw e at (entry_same i (λ e'. ne (ap leaf e')))
      others (mid i) hi ne = entry_other double i tt (not_single double (λ e'. cc))
      others (deep i k) hi ne =
          ap (λ (p : ℕ). entry d₂ p k) (entry_other double i tt (not_single double (λ e'. cc)))
          ∙ entry_other (mid i) k hi.0 (not_single (mid i) (λ e'. cc))

  pub Adds-mid :
      j < nindirect → from ≡ double → entry d (ptr ip d from) j ≡ 0 → Adds sb (mid j) a ip d ip d₂
  Adds-mid hj e empty = added (mid j) (rw e at entry_here) others
    where
      not_double : (q : Pos) → q ≢ double → q ≢ from
      not_double q ne' e' = ne' (e' ∙ e)

      others : (q : Pos) → InTree q → q ≢ mid j → ptr ip d₂ q ≡ ptr ip d q
      others (direct i) hi ne = refl
      others single hi ne = refl
      others double hi ne = refl
      others (leaf i) hi ne = entry_other single i tt (not_double single (λ e'. cc))
      others (mid i) hi ne = rw e at (entry_same i (λ e'. ne (ap mid e')))
      others (deep i k) hi ne = elim (ℕ_discrete i j) [
        | yes same ↦
            let new : entry d₂ (ptr ip d double) i ≡ a = rw same (rw e at entry_here) in
            let old : entry d (ptr ip d double) i ≡ 0 = rw same (rw e at empty) in
            rw (new, old) (entry_fresh k hi.1)
        | no other ↦
            ap (λ (p : ℕ). entry d₂ p k) (rw e at (entry_same i other))
            ∙ entry_other (mid i) k hi.0 (not_double (mid i) (λ e'. cc))
      ]

  pub Adds-deep : (i : ℕ) → i < nindirect → from ≡ mid i → Adds sb (deep i j) a ip d ip d₂
  Adds-deep i hi' e = added (deep i j) (inner i j ∙ rw e at entry_here) others
    where
      not_mid : (q : Pos) → q ≢ mid i → q ≢ from
      not_mid q ne' e' = ne' (e' ∙ e)

      inner : (l k : ℕ) → ptr ip d₂ (deep l k) ≡ entry d₂ (ptr ip d (mid l)) k
      inner l k = ap (λ (p : ℕ). entry d₂ p k) (entry_other double l tt (not_mid double (λ e'. cc)))

      others : (q : Pos) → InTree q → q ≢ deep i j → ptr ip d₂ q ≡ ptr ip d q
      others (direct i) hi ne = refl
      others single hi ne = refl
      others double hi ne = refl
      others (leaf k) hi ne = entry_other single k tt (not_mid single (λ e'. cc))
      others (mid k) hi ne = entry_other double k tt (not_mid double (λ e'. cc))
      others (deep l k) hi ne = elim (ℕ_discrete l i) [
        | yes same ↦ inner l k ∙ rw same (rw e at (entry_same k (λ e'. ne (rw (same, e')))))
        | no other ↦ inner l k ∙ entry_other (mid l) k hi.0 (not_mid (mid l) (λ e'. other (cc)))
      ]
