-- ===== src/Fs/Bmap/Walk.antt =====
-- `bmap` on each of its ways: direct, indirect, doubly indirect, out of range.
use cuhksz_operating_system.Prelude.{
  ℕ, ◌+◌, ◌-◌, ◌/◌, ◌%◌, ◌≤◌, ◌<◌, ◌≡◌, ◌≢◌, refl, sym, ◌∙◌, true, ◌==◌, ltb, arith, Bool-cases,
  ==→eq, ==→ne, ne→==, inl, inr, ltb→lt, ltb→le, lt→ltb,
}
use mathlib.Core.Path.{subst}
use cuhksz_operating_system.Fs.Disk.{
  Superblock, Disk, byte, word, pure, ◌>>=◌, Returns, returns, bind, weaken,
}
use cuhksz_operating_system.Fs.Inode.{Inode, ndirect, nindirect, ndindirect}
use cuhksz_operating_system.Fs.Log.{Logs-refl, Logs-trans, Room, Room-Logs}
use cuhksz_operating_system.Fs.Blocks.{allocated}
use cuhksz_operating_system.Fs.Blocks.Alloc.{IsFormatted}
use cuhksz_operating_system.Fs.Bmap.{load_addr, load_word, bmap_indirect, bmap_double, bmap}
use cuhksz_operating_system.Fs.Bmap.Tree.{
  Pos, direct, single, double, leaf, mid, deep, entry, ptr, IsTree,
}
use cuhksz_operating_system.Fs.Bmap.Frame.{word_congr, Adds-direct, Adds-single, Adds-double}
use cuhksz_operating_system.Fs.Bmap.Store.{Adds-leaf, Adds-mid, Adds-deep}
use cuhksz_operating_system.Fs.Bmap.Load.{Loaded, load_addr-Loaded, load_word-Loaded}
use cuhksz_operating_system.Fs.Bmap.Correct.{
  maxfile, place, BootZero, Mapped, Loaded-Mapped, then_Mapped, no_way, load_word_boot,
}

module _ (sb : Superblock) where
  entry_of_ne_zero : (d : Disk) (p i : ℕ) → p ≢ 0 → entry d p i ≡ word d p i
  entry_of_ne_zero d p i ne = rw (ne→== p 0 ne)

  entry_of_zero : (d : Disk) (p i : ℕ) → p ≡ 0 → entry d p i ≡ 0
  entry_of_zero d p i e = rw e

  module _ (ip : Inode) (d : Disk) (t : IsTree sb ip d) (f : IsFormatted sb d) where
    direct-Mapped :
        (bn : ℕ)
        → bn < ndirect
        → Room sb 2 d
        → Returns (λ r d'. Mapped sb 2 (direct bn) ip d r.0 r.1 d') (load_addr sb ip bn d)
    direct-Mapped bn h r =
        weaken
          (load_addr-Loaded sb ip d t f bn (direct bn) h refl
            (λ a d' _ g. Adds-direct sb a ip d d' t g bn h) r)
          (λ p d' l. Loaded-Mapped sb 2 2 (direct bn) ip d p.0 p.1 d' (omega arith) l)

    -- From a block of addresses in place, to a data block below it.
    leaf-Mapped :
        (j : ℕ)
        → j < nindirect
        → ptr ip d single ≢ 0
        → Room sb 3 d
        → Returns (λ a d'. Mapped sb 3 (leaf j) ip d a ip d') (load_word sb (ptr ip d single) j d)
    leaf-Mapped j h ne r =
        weaken
          (load_word-Loaded sb ip d t f single j (leaf j) tt (λ x. x) ne (entry_of_ne_zero d _ j ne)
            (λ a d₁ d₂ _ g s. Adds-leaf sb a ip d d₁ d₂ t f g single j tt ne s refl) r)
          (λ a d' l. Loaded-Mapped sb 3 3 (leaf j) ip d a ip d' (omega arith) l)

    deep-Mapped :
        (i j : ℕ)
        → i < nindirect
        → j < nindirect
        → BootZero d
        → Room sb 3 d
        → (ptr ip d (mid i) ≡ 0 → (c : ℕ) → c < sb.size → allocated sb d c ≡ true)
        → Returns
            (λ a d'. Mapped sb 3 (deep i j) ip d a ip d')
            (load_word sb (ptr ip d (mid i)) j d)
    deep-Mapped i j hi hj boot r full = elim (Bool-cases (ptr ip d (mid i) == 0)) [
      | inl e ↦
          let z : ptr ip d (mid i) ≡ 0 = ==→eq _ 0 e in
          rw z (
            weaken (load_word_boot sb j d f (omega (arith, r)) (boot j hj) (full z)) (λ a d' p.
              rw (p.0, p.1) (no_way sb 3 (deep i j) ip d t f (entry_of_zero d _ j z) (full z))))
      | inr e ↦
          let ne : ptr ip d (mid i) ≢ 0 = ==→ne _ 0 e in
          weaken
            (load_word-Loaded sb ip d t f (mid i) j (deep i j) hi (λ x. x) ne
              (entry_of_ne_zero d _ j ne)
              (λ a d₁ d₂ _ g s. Adds-deep sb a ip d d₁ d₂ t f g (mid i) j hi ne s i hi refl) r)
            (λ a d' l. Loaded-Mapped sb 3 3 (deep i j) ip d a ip d' (omega arith) l)
    ]

    double-Loaded :
        (i : ℕ)
        → i < nindirect
        → ptr ip d double ≢ 0
        → Room sb 3 d
        → Returns (λ m d'. Loaded sb 3 (mid i) ip d m ip d') (load_word sb (ptr ip d double) i d)
    double-Loaded i h ne r =
        load_word-Loaded sb ip d t f double i (mid i) tt (λ x. x) ne (entry_of_ne_zero d _ i ne)
          (λ a d₁ d₂ empty g s. Adds-mid sb a ip d d₁ d₂ t f g double i tt ne s h refl empty) r

    single-Loaded :
        Room sb 2 d
        → Returns (λ r d'. Loaded sb 2 single ip d r.0 r.1 d') (load_addr sb ip ndirect d)
    single-Loaded r =
        load_addr-Loaded sb ip d t f ndirect single tt refl
          (λ a d' empty g. Adds-single sb a ip d d' t g empty) r

    double_addr-Loaded :
        Room sb 2 d
        → Returns (λ r d'. Loaded sb 2 double ip d r.0 r.1 d') (load_addr sb ip (ndirect + 1) d)
    double_addr-Loaded r =
        load_addr-Loaded sb ip d t f (ndirect + 1) double tt refl
          (λ a d' empty g. Adds-double sb a ip d d' t g empty) r

  bmap_indirect-Mapped :
      (ip : Inode) (d : Disk) (j : ℕ)
      → IsTree sb ip d
      → IsFormatted sb d
      → j < nindirect
      → Room sb 5 d
      → Returns (λ r d'. Mapped sb 5 (leaf j) ip d r.0 r.1 d') (bmap_indirect sb ip j d)
  unfolding bmap_indirect
  bmap_indirect-Mapped ip d j t f h r = bind (single-Loaded ip d t f (omega (arith, r))) λ p d₁ l.
      elim (Bool-cases (p.0 == 0)) [
        | inl e ↦
            let z : ptr p.1 d₁ single ≡ 0 = l.here ∙ ==→eq _ 0 e in
            rw e (
              returns (
                then_Mapped sb 2 3 5 single (leaf j) ip d p.0 p.1 d₁ 0 p.1 d₁ (omega arith) (λ x. x)
                  tt h l
                  (no_way sb 3 (leaf j) p.1 d₁ l.tree l.format (entry_of_zero d₁ _ j z)
                    (l.full (==→eq _ 0 e)))))
        | inr e ↦
            let ne : ptr p.1 d₁ single ≢ 0 = λ z. ==→ne _ 0 e (sym l.here ∙ z) in
            let room : Room sb 3 d₁ = Room-Logs sb 5 2 3 r l.logs (omega arith) in
            rw e (
              bind
                (subst
                  (λ x.
                    Returns (λ a d'. Mapped sb 3 (leaf j) p.1 d₁ a p.1 d') (load_word sb x j d₁))
                  l.here (leaf-Mapped p.1 d₁ l.tree l.format j h ne room))
                (λ a d₂ m. returns (
                  then_Mapped sb 2 3 5 single (leaf j) ip d p.0 p.1 d₁ a p.1 d₂ (omega arith)
                    (λ x. x) tt h l m)))
      ]

  BootZero-kept : (d d' : Disk) → ((o : ℕ) → byte d' 0 o ≡ byte d 0 o) → BootZero d → BootZero d'
  BootZero-kept d d' same boot j h = word_congr d d' 0 j same ∙ boot j h

  -- From the doubly indirect block in place, through a middle block to the data block.
  below_double :
      (ip : Inode) (d : Disk) (i j : ℕ)
      → IsTree sb ip d
      → IsFormatted sb d
      → BootZero d
      → i < nindirect
      → j < nindirect
      → Room sb 6 d
      → ptr ip d double ≢ 0
      → Returns {A = ℕ × Inode}
          (λ r d'. Mapped sb 6 (deep i j) ip d r.0 r.1 d')
          ((do m ← load_word sb (ptr ip d double) i; a ← load_word sb m j; pure (a, ip)) d)
  below_double ip d i j t f boot hi hj r ne =
      bind (double-Loaded ip d t f i hi ne (omega (arith, r))) λ m d₁ l.
        bind
          (subst (λ x. Returns (λ a d'. Mapped sb 3 (deep i j) ip d₁ a ip d') (load_word sb x j d₁))
            l.here
            (deep-Mapped ip d₁ l.tree l.format i j hi hj (BootZero-kept d d₁ l.boot_kept boot)
              (Room-Logs sb 6 3 3 r l.logs (omega arith)) (λ z. l.full (sym l.here ∙ z))))
          λ a d₂ p. returns (
            then_Mapped sb 3 3 6 (mid i) (deep i j) ip d m ip d₁ a ip d₂ (omega arith) (λ x. x) tt
              (hi, hj) l p)

  bmap_double-Mapped :
      (ip : Inode) (d : Disk) (bn : ℕ)
      → IsTree sb ip d
      → IsFormatted sb d
      → BootZero d
      → bn < ndindirect
      → Room sb 8 d
      → Returns
          (λ r d'. Mapped sb 8 (deep (bn / nindirect) (bn % nindirect)) ip d r.0 r.1 d')
          (bmap_double sb ip bn d)
  unfolding bmap_double
  bmap_double-Mapped ip d bn t f boot h r =
      let i : ℕ = bn / nindirect in
      let j : ℕ = bn % nindirect in
      let hi : i < nindirect = omega arith in
      let hj : j < nindirect = omega arith in
      bind (double_addr-Loaded ip d t f (omega (arith, r))) λ p d₁ l. elim (Bool-cases (p.0 == 0)) [
        | inl e ↦
            let z : ptr p.1 d₁ double ≡ 0 = l.here ∙ ==→eq _ 0 e in
            rw e (
              returns (
                then_Mapped sb 2 6 8 double (deep i j) ip d p.0 p.1 d₁ 0 p.1 d₁ (omega arith)
                  (λ x. x) tt (hi, hj) l
                  (no_way sb 6 (deep i j) p.1 d₁ l.tree l.format
                    (entry_of_zero d₁ _ j (entry_of_zero d₁ _ i z)) (l.full (==→eq _ 0 e)))))
        | inr e ↦
            let ne : ptr p.1 d₁ double ≢ 0 = λ z. ==→ne _ 0 e (sym l.here ∙ z) in
            rw e (
              weaken
                (subst
                  (λ x.
                    Returns {A = ℕ × Inode} (λ r d'. Mapped sb 6 (deep i j) p.1 d₁ r.0 r.1 d')
                      ((do m ← load_word sb x i; a ← load_word sb m j; pure (a, p.1)) d₁))
                  l.here
                  (below_double p.1 d₁ i j l.tree l.format (BootZero-kept d d₁ l.boot_kept boot) hi
                    hj (Room-Logs sb 8 2 6 r l.logs (omega arith)) ne))
                (λ q d₂ m.
                  then_Mapped sb 2 6 8 double (deep i j) ip d p.0 p.1 d₁ q.0 q.1 d₂ (omega arith)
                    (λ x. x) tt (hi, hj) l m))
      ]

  widen_log :
      (k n : ℕ) (q : Pos) (ip : Inode) (d : Disk) (a : ℕ) (ip' : Inode) (d' : Disk)
      → k ≤ n
      → Mapped sb k q ip d a ip' d'
      → Mapped sb n q ip d a ip' d'
  widen_log k n q ip d a ip' d' h m = record {
    tree = m.tree;
    format = m.format;
    logs = Logs-trans k 0 n m.logs (Logs-refl d') (omega arith);
    here = m.here;
    was = m.was;
    others = m.others;
    full = m.full;
    data_kept = m.data_kept;
    boot_kept = m.boot_kept;
    fresh_zero = m.fresh_zero;
    same_rest = m.same_rest;
  }

  -- For a file whose addresses form a tree, on a formatted disk whose block 0 has zeros for addresses,
  -- inside a transaction with eight free entries in the log:
  -- `bmap` of a block number below MAXFILE returns. What it returns is the address that the tree now
  -- has for that number; an address that was there is returned unchanged; 0 comes back only when no
  -- block of the disk is free. No other data block of the file changes its address or its bytes, a new
  -- block is zero, the tree and the format stay valid, and every changed block is in the log.
  pub bmap-Mapped :
      (ip : Inode) (d : Disk) (bn : ℕ)
      → IsTree sb ip d
      → IsFormatted sb d
      → BootZero d
      → bn < maxfile
      → Room sb 8 d
      → Returns (λ r d'. Mapped sb 8 (place bn) ip d r.0 r.1 d') (bmap sb ip bn d)
  unfolding bmap
  bmap-Mapped ip d bn t f boot h r = elim (Bool-cases (ltb bn ndirect)) [
    | inl low ↦ rw low (
        weaken (direct-Mapped ip d t f bn (ltb→lt _ _ low) (omega (arith, r)))
          (λ p d' m. widen_log 2 8 (direct bn) ip d p.0 p.1 d' (omega arith) m))
    | inr high ↦ rw high (elim (Bool-cases (ltb (bn - ndirect) nindirect)) [
      | inl low ↦ rw low (
          weaken (bmap_indirect-Mapped ip d (bn - ndirect) t f (ltb→lt _ _ low) (omega (arith, r)))
            (λ p d' m. widen_log 5 8 (leaf (bn - ndirect)) ip d p.0 p.1 d' (omega arith) m))
      | inr higher ↦
          let fits : bn - ndirect - nindirect < ndindirect =
            omega (arith, ltb→le _ _ high, ltb→le _ _ higher) in
          rw (higher, lt→ltb _ _ fits)
            (bmap_double-Mapped ip d (bn - ndirect - nindirect) t f boot fits r)
    ])
  ]
