-- ===== src/Fs/Bmap/Again.antt =====
-- `bmap` of a block that is there only reads, and of a number out of range stops the kernel.
use cuhksz_operating_system.Prelude.{
  ℕ, ◌+◌, ◌-◌, ◌/◌, ◌%◌, ◌≤◌, ◌<◌, ◌≡◌, ◌≢◌, ◌∙◌, ◌==◌, ltb, arith, Bool-cases, ==→ne, ne→==, inl,
  inr, ◌↔◌, ltb→lt, ltb→le, lt→ltb,
}
use cuhksz_operating_system.Fs.Disk.{Superblock, Disk, word, ok, panic, Outcome, Returns, returns}
use cuhksz_operating_system.Fs.Inode.{Inode, ndirect, nindirect, ndindirect}
use cuhksz_operating_system.Fs.Bmap.{
  addr_at, load_addr, load_word, bmap_indirect, bmap_double, bmap,
}
use cuhksz_operating_system.Fs.Bmap.Tree.{IsTree, leaf, deep, entry, ptr}
use cuhksz_operating_system.Fs.Bmap.Correct.{maxfile, BootZero, lookup}
use cuhksz_operating_system.Fs.Bmap.Walk.{bmap-Mapped}
use cuhksz_operating_system.Fs.Log.{Room}
use cuhksz_operating_system.Fs.Blocks.Alloc.{IsFormatted}

module _ (sb : Superblock) where
  out_of_range : (ip : Inode) (d : Disk) (bn : ℕ) → maxfile ≤ bn → bmap sb ip bn d ≡ panic
  unfolding bmap
  out_of_range ip d bn h = ground arith

  no_panic : {A : Type 0} {P : A → Disk → Type 0} {r : Outcome A} → Returns P r → r ≡ panic → ⊥
  no_panic (returns p) e = ground (arith, e)

  -- For a file whose addresses form a tree, on a formatted disk whose block 0 has zeros for addresses,
  -- inside a transaction with eight free entries in the log: `bmap` stops the kernel exactly for the
  -- block numbers from MAXFILE on, which is 11 + 256 + 256 * 256.
  pub bmap_out_of_range :
      (ip : Inode) (d : Disk) (bn : ℕ)
      → IsTree sb ip d
      → IsFormatted sb d
      → BootZero d
      → Room sb 8 d
      → (bmap sb ip bn d ≡ panic) ↔ (maxfile ≤ bn)
  bmap_out_of_range ip d bn t f boot r = (
    λ e. elim (Bool-cases (ltb bn maxfile)) [
      | inl low ↦ absurd (no_panic (bmap-Mapped sb ip d bn t f boot (ltb→lt bn maxfile low) r) e)
      | inr high ↦ ltb→le bn maxfile high
    ],
    out_of_range ip d bn,
  )

  load_word_there : (p i : ℕ) (d : Disk) → word d p i ≢ 0 → load_word sb p i d ≡ ok (word d p i) d
  unfolding load_word
  load_word_there p i d ne = rw (ne→== _ 0 ne)

  load_addr_there :
      (ip : Inode) (i : ℕ) (d : Disk)
      → addr_at ip i ≢ 0
      → load_addr sb ip i d ≡ ok (addr_at ip i, ip) d
  unfolding load_addr
  load_addr_there ip i d ne = rw (ne→== _ 0 ne)

  -- An entry that is there is the word of a block that is there.
  entry_there : (d : Disk) (p i : ℕ) → entry d p i ≢ 0 → (p ≢ 0) × (entry d p i ≡ word d p i)
  entry_there d p i ne = elim (Bool-cases (p == 0)) [
    | inl e ↦ absurd (ne (rw e))
    | inr e ↦ (==→ne p 0 e, rw e)
  ]

  bmap_indirect_there :
      (ip : Inode) (j : ℕ) (d : Disk)
      → ptr ip d (leaf j) ≢ 0
      → bmap_indirect sb ip j d ≡ ok (ptr ip d (leaf j), ip) d
  unfolding bmap_indirect
  bmap_indirect_there ip j d ne =
      let (there, e) = entry_there d (addr_at ip ndirect) j ne in
      rw (load_addr_there ip ndirect d there)
        (rw (ne→== _ 0 there) (rw (load_word_there (addr_at ip ndirect) j d (λ z. ne (e ∙ z)))))

  bmap_double_there :
      (ip : Inode) (bn : ℕ) (d : Disk)
      → ptr ip d (deep (bn / nindirect) (bn % nindirect)) ≢ 0
      → bmap_double sb ip bn d ≡ ok (ptr ip d (deep (bn / nindirect) (bn % nindirect)), ip) d
  unfolding bmap_double
  bmap_double_there ip bn d ne =
      let p = addr_at ip (ndirect + 1) in
      let m = entry d p (bn / nindirect) in
      let (mid_there, e) = entry_there d m (bn % nindirect) ne in
      let (there, e') = entry_there d p (bn / nindirect) mid_there in
      rw (load_addr_there ip (ndirect + 1) d there) (
        rw (ne→== _ 0 there) (
          rw (load_word_there p (bn / nindirect) d (λ z. mid_there (e' ∙ z)))
            (rw (← e') (rw (load_word_there m (bn % nindirect) d (λ z. ne (e ∙ z))) (rw e)))))

  -- Where a block is there, `bmap` returns it and leaves the inode and the disk as they are.
  pub bmap_there :
      (ip : Inode) (d : Disk) (bn : ℕ)
      → bn < maxfile
      → lookup ip d bn ≢ 0
      → bmap sb ip bn d ≡ ok (lookup ip d bn, ip) d
  unfolding bmap
  bmap_there ip d bn h ne = elim (Bool-cases (ltb bn ndirect)) [
    | inl low ↦ rw low (load_addr_there ip bn d (rw low at ne))
    | inr high ↦ rw high (elim (Bool-cases (ltb (bn - ndirect) nindirect)) [
      | inl low ↦ rw low (bmap_indirect_there ip (bn - ndirect) d (rw low at (rw high at ne)))
      | inr higher ↦
          let fits : bn - ndirect - nindirect < ndindirect =
            omega (arith, ltb→le _ _ high, ltb→le _ _ higher) in
          rw (higher, lt→ltb _ _ fits)
            (bmap_double_there ip (bn - ndirect - nindirect) d (rw higher at (rw high at ne)))
    ])
  ]
