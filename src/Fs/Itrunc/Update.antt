-- ===== src/Fs/Itrunc/Update.antt =====
-- `iupdate` writes the inode's block and logs it, and nothing else.
use cuhksz_operating_system.Prelude.{
  ℕ, suc, ◌+◌, ◌/◌, ◌%◌, ◌*◌, ◌<◌, ◌≤◌, ◌≡◌, ◌≢◌, refl, ap, ◌∙◌, List, [], ◌∷◌, length, arith, ◌⊎◌,
  get_or, inl, inr, Bool-cases, ◌==◌, ◌&&◌, ==→ne, if◌then◌else◌,
}
use cuhksz_operating_system.Prelude.Bits.{has_bit}
use cuhksz_operating_system.Fs.Disk.{
  Superblock, Disk, byte, Returns, returns, weaken, bind, Outcome, store_byte, absorb, Cmd,
  and_then,
}
use cuhksz_operating_system.Fs.Log.{log_write-ok, Room}
use cuhksz_operating_system.Fs.Blocks.{bblock, allocated, bpb}
use cuhksz_operating_system.Fs.Inode.{Inode}
use cuhksz_operating_system.Fs.Itrunc.{
  iupdate, iblock, ipb, store_dinode, store_short, store_uint, store_addrs,
}

-- Only bytes from `lo` to `hi` of block `b` were written, and nothing was logged.
pub record OnlyAt (b lo hi : ℕ) (d d' : Disk) : Type 0 where
  pub elsewhere : (b' o : ℕ) → b' ≢ b → byte d' b' o ≡ byte d b' o
  pub outside : (o : ℕ) → (o < lo) ⊎ (hi ≤ o) → byte d' b o ≡ byte d b o
  pub same_logged : d'.logged ≡ d.logged
  pub same_outstanding : d'.outstanding ≡ d.outstanding

-- Bytes from `lo` to `hi` of block `b` are zero.
abbrev pub Zeros : ℕ → ℕ → ℕ → Disk → Type 0
Zeros b lo hi d = (o : ℕ) → lo ≤ o → o < hi → byte d b o ≡ 0

both :
    {A : Type 0} {P Q : A → Disk → Type 0} {r : Outcome A}
    → Returns P r
    → Returns Q r
    → Returns (λ a d. P a d × Q a d) r
both (returns p) (returns q) = returns (p, q)

module _ (b lo hi : ℕ) where
  abbrev Writes : Disk → Outcome (Unit {0}) → Type 0
  Writes d r = Returns (λ _ d'. OnlyAt b lo hi d d') r

  OnlyAt-trans : (d d₁ d₂ : Disk) → OnlyAt b lo hi d d₁ → OnlyAt b lo hi d₁ d₂ → OnlyAt b lo hi d d₂
  OnlyAt-trans d d₁ d₂ p q = record {
    elsewhere = λ b' o ne. q.elsewhere b' o ne ∙ p.elsewhere b' o ne;
    outside = λ o h. q.outside o h ∙ p.outside o h;
    same_logged = q.same_logged ∙ p.same_logged;
    same_outstanding = q.same_outstanding ∙ p.same_outstanding;
  }

  -- One write, then the rest.
  then_Writes :
      (d : Disk) {r : Outcome (Unit {0})} {k : Unit {0} → Cmd (Unit {0})}
      → Writes d r
      → ((u : Unit {0}) (d' : Disk) → Writes d' (k u d'))
      → Writes d (and_then r k)
  then_Writes d w rest = bind w (λ u d₁ p. weaken (rest u d₁) (λ _ d₂ q. OnlyAt-trans d d₁ d₂ p q))

  store_byte-Writes : (o v : ℕ) (d : Disk) → lo ≤ o → o < hi → Writes d (store_byte b o v d)
  unfolding store_byte
  store_byte-Writes o v d low high = returns (record {
    elsewhere = λ b' o' ne. ground arith;
    outside = λ o' h. ground arith;
    same_logged = refl;
    same_outstanding = refl;
  })

  store_short-Writes : (o v : ℕ) (d : Disk) → lo ≤ o → o + 2 ≤ hi → Writes d (store_short b o v d)
  unfolding store_short
  store_short-Writes o v d low high =
      then_Writes d (store_byte-Writes o v d low (omega arith))
        (λ _ d₁. store_byte-Writes (o + 1) (v / 256) d₁ (omega arith) (omega arith))

  store_uint-Writes : (o v : ℕ) (d : Disk) → lo ≤ o → o + 4 ≤ hi → Writes d (store_uint b o v d)
  unfolding store_uint
  store_uint-Writes o v d low high =
      then_Writes d (store_byte-Writes o v d low (omega arith)) (λ _ d₁.
        then_Writes d₁ (store_byte-Writes (o + 1) (v / 256) d₁ (omega arith) (omega arith)) (λ _ d₂.
          then_Writes d₂ (store_byte-Writes (o + 2) (v / 65536) d₂ (omega arith) (omega arith))
            (λ _ d₃. store_byte-Writes (o + 3) (v / 16777216) d₃ (omega arith) (omega arith))))

  store_addrs-Writes :
      (o : ℕ) (addrs : List ℕ) (d : Disk)
      → lo ≤ o
      → o + 4 * length addrs ≤ hi
      → Writes d (store_addrs b o addrs d)
  unfolding store_addrs
  store_addrs-Writes o [] d low high = returns (record {
    elsewhere = λ b' o' ne. refl;
    outside = λ o' h. refl;
    same_logged = refl;
    same_outstanding = refl;
  })
  store_addrs-Writes o (a ∷ rest) d low high =
      then_Writes d (store_uint-Writes o a d low (omega arith))
        (λ _ d₁. store_addrs-Writes (o + 4) rest d₁ (omega arith) (omega arith))

module _ (ip : Inode) (b o : ℕ) where
  store_dinode-Writes :
      (d : Disk) → length ip.addrs ≡ 13 → Writes b o (o + 64) d (store_dinode ip b o d)
  unfolding store_dinode
  store_dinode-Writes d len =
      then_Writes b o (o + 64) d
        (store_short-Writes b o (o + 64) o ip.type d (omega arith) (omega arith))
        (λ _ d₁.
          then_Writes b o (o + 64) d₁
            (store_short-Writes b o (o + 64) (o + 2) ip.major d₁ (omega arith) (omega arith))
            (λ _ d₂.
              then_Writes b o (o + 64) d₂
                (store_short-Writes b o (o + 64) (o + 4) ip.minor d₂ (omega arith) (omega arith))
                (λ _ d₃.
                  then_Writes b o (o + 64) d₃
                    (store_short-Writes b o (o + 64) (o + 6) ip.nlink d₃ (omega arith)
                      (omega arith))
                    (λ _ d₄.
                      then_Writes b o (o + 64) d₄
                        (store_uint-Writes b o (o + 64) (o + 8) ip.size d₄ (omega arith)
                          (omega arith))
                        (λ _ d₅.
                          store_addrs-Writes b o (o + 64) (o + 12) ip.addrs d₅ (omega arith)
                            (omega (arith, len)))))))

store_byte-Zeros :
    (b lo o : ℕ) (d : Disk)
    → Zeros b lo o d
    → Returns (λ _ d'. Zeros b lo (o + 1) d') (store_byte b o 0 d)
unfolding store_byte
store_byte-Zeros b lo o d z =
    returns {d = record d { image = λ b₁ o₁. if b₁ == b && o₁ == o then 0 else d.image b₁ o₁ }}
      (λ o' h h'. elim (Bool-cases (o' == o)) [
        | inl e ↦ ground (arith, e)
        | inr ne ↦ ground (arith, ne, z o' h (omega (arith, ==→ne o' o ne)))
      ])

store_uint-Zeros :
    (b lo o : ℕ) (d : Disk)
    → Zeros b lo o d
    → Returns (λ _ d'. Zeros b lo (o + 4) d') (store_uint b o 0 d)
unfolding store_uint
store_uint-Zeros b lo o d z = bind (store_byte-Zeros b lo o d z) (λ _ d₁ z₁.
    bind (store_byte-Zeros b lo (o + 1) d₁ z₁) (λ _ d₂ z₂.
      bind (store_byte-Zeros b lo (o + 2) d₂ (λ o' h h'. z₂ o' h (omega arith))) (λ _ d₃ z₃.
        weaken (store_byte-Zeros b lo (o + 3) d₃ (λ o' h h'. z₃ o' h (omega arith)))
          (λ _ d₄ z₄ o' h h'. z₄ o' h (omega arith)))))

-- Addresses that are all zero give zero bytes.
store_addrs-Zeros :
    (b lo o : ℕ) (addrs : List ℕ) (d : Disk)
    → ((k : ℕ) → k < length addrs → get_or addrs k 0 ≡ 0)
    → Zeros b lo o d
    → Returns (λ _ d'. Zeros b lo (o + 4 * length addrs) d') (store_addrs b o addrs d)
unfolding store_addrs get_or
store_addrs-Zeros b lo o [] d none z = returns (λ o' h h'. z o' h (omega arith))
store_addrs-Zeros b lo o (a ∷ rest) d none z = rw (none 0 (omega arith)) (
    bind (store_uint-Zeros b lo o d z) (λ _ d₁ p.
      weaken (store_addrs-Zeros b lo (o + 4) rest d₁ (λ k h. none (suc k) (omega arith)) p)
        (λ _ d₂ q o' h h'. q o' h (omega arith))))

module _ (ip : Inode) (b o : ℕ) where
  store_dinode-Zeros :
      (d : Disk)
      → length ip.addrs ≡ 13
      → ip.size ≡ 0
      → ((k : ℕ) → k < 13 → get_or ip.addrs k 0 ≡ 0)
      → Returns (λ _ d'. Zeros b (o + 8) (o + 64) d') (store_dinode ip b o d)
  unfolding store_dinode store_short store_byte
  store_dinode-Zeros d len empty none = rw empty (
      bind (store_uint-Zeros b (o + 8) (o + 8) _ (λ o' h h'. omega arith)) (λ _ d₅ p.
        weaken
          (store_addrs-Zeros b (o + 8) (o + 12) ip.addrs d₅ (λ k h. none k (omega (arith, len)))
            (λ o' h h'. p o' h (omega arith)))
          (λ _ d₆ q o' h h'. q o' h (omega (arith, len)))))

module _ (sb : Superblock) where
  -- What `iupdate` does to the disk for an inode with nothing in it.
  pub record Updated (inum : ℕ) (d d' : Disk) : Type 0 where
    pub elsewhere : (b o : ℕ) → b ≢ iblock sb inum → byte d' b o ≡ byte d b o
    pub outside :
        (o : ℕ)
        → (o < 64 * (inum % ipb)) ⊎ (64 * (inum % ipb) + 64 ≤ o)
        → byte d' (iblock sb inum) o ≡ byte d (iblock sb inum) o
    pub zeros : Zeros (iblock sb inum) (64 * (inum % ipb) + 8) (64 * (inum % ipb) + 64) d'
    pub same_logged : d'.logged ≡ absorb (iblock sb inum) d.logged

  -- With room in the log, `iupdate` of an inode of size 0 without addresses returns, writes the 64
  -- bytes of the inode on the disk and no other, and logs their block.
  pub iupdate-Returns :
      (ip : Inode) (d : Disk)
      → Room sb 1 d
      → length ip.addrs ≡ 13
      → ip.size ≡ 0
      → ((k : ℕ) → k < 13 → get_or ip.addrs k 0 ≡ 0)
      → Returns (λ _ d'. Updated ip.inum d d') (iupdate sb ip d)
  unfolding iupdate
  iupdate-Returns ip d r len empty none =
      bind
        (both (store_dinode-Writes ip (iblock sb ip.inum) (64 * (ip.inum % ipb)) d len)
          (store_dinode-Zeros ip (iblock sb ip.inum) (64 * (ip.inum % ipb)) d len empty none))
        (λ _ d₁ p.
          rw
            (log_write-ok sb (iblock sb ip.inum) 0 d₁
              (omega (arith, r, ap length p.0.same_logged, p.0.same_outstanding)))
            (returns (record {
              elsewhere = p.0.elsewhere;
              outside = p.0.outside;
              zeros = p.1;
              same_logged = ap (absorb (iblock sb ip.inum)) p.0.same_logged;
            })))

  -- An inode's block outside the bit map: the allocation is as before.
  pub iupdate-allocated :
      (ip : Inode) (d d' : Disk) (b : ℕ)
      → ((b' o : ℕ) → b' ≢ iblock sb ip.inum → byte d' b' o ≡ byte d b' o)
      → bblock sb b ≢ iblock sb ip.inum
      → allocated sb d' b ≡ allocated sb d b
  iupdate-allocated ip d d' b same off =
      ap (λ (x : ℕ). has_bit x (b % bpb % 8)) (same (bblock sb b) (b % bpb / 8) off)
