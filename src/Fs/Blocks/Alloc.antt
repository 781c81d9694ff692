-- ===== src/Fs/Blocks/Alloc.antt =====
-- `balloc` gives out the first free block, zeroed, and marks it and nothing else.
use cuhksz_operating_system.Prelude.{
  ℕ, zero, suc, ◌+◌, ◌*◌, ◌/◌, ◌%◌, ◌^◌, ◌≤◌, ◌<◌, ◌≡◌, ◌≢◌, ◌⊎◌, inl, inr, refl, sym, ap, ◌∙◌,
  true, false, Option, none, some, ◌||◌, ltb, ◌==◌, arith, Bool-cases, ltb→lt, ltb→le,
}
use mathlib.Core.Path.{subst}
use native.Mathlib.Decide.{dec_lt}
use cuhksz_operating_system.Fs.Disk.{
  Superblock, Disk, byte, bsize, pure, ◌>>◌, Returns, returns, bind, weaken,
}
use cuhksz_operating_system.Fs.Log.{Logs, Logs-trans, Room, Room-Logs}
use cuhksz_operating_system.Fs.Blocks.{
  bpb, bblock, in_use, bzero, mark, scan, balloc_from, balloc, allocated, found_or,
}
use cuhksz_operating_system.Prelude.Bits.{has_bit}
use cuhksz_operating_system.Fs.Blocks.Bitmap.{Marks, Zeroes, bzero-Zeroes, mark-Marks}

module _ (sb : Superblock) where
  -- The blocks that hold the free bit map lie on the disk and are themselves allocated, and so is the
  -- boot block, whose number stands for "no block".
  pub record IsFormatted (d : Disk) : Type 0 where
    pub size_fits : sb.size < 2 ^ 32
    pub map_fits : sb.bmapstart + sb.size / bpb < sb.size
    pub after_boot : 0 < sb.bmapstart
    pub zero_reserved : allocated sb d 0 ≡ true
    pub maps_reserved : (b : ℕ) → b < sb.size → allocated sb d (bblock sb b) ≡ true

  -- `a` was free and is now allocated and zero; every other block is as before, but for the bit map.
  pub record Allocates (a : ℕ) (d d' : Disk) : Type 0 where
    pub in_range : a < sb.size
    pub was_free : allocated sb d a ≡ false
    pub bits : (b : ℕ) → b < sb.size → allocated sb d' b ≡ (a == b || allocated sb d b)
    pub zeroed : (o : ℕ) → o < bsize → byte d' a o ≡ 0
    pub elsewhere : (b o : ℕ) → b ≢ a → b ≢ bblock sb a → byte d' b o ≡ byte d b o
    pub logs : Logs 2 d d'

  -- A free block is not one of the bit map's.
  pub free-ne-map :
      (a b : ℕ) (d : Disk)
      → IsFormatted d
      → b < sb.size
      → allocated sb d a ≡ false
      → bblock sb b ≢ a
  free-ne-map a b d f h free e = cc (free, f.maps_reserved b h, ap (allocated sb d) e)

  take :
      (a : ℕ) (d d₁ d₂ : Disk)
      → IsFormatted d
      → a < sb.size
      → allocated sb d a ≡ false
      → Marks sb a d d₁
      → Zeroes sb a d₁ d₂
      → Allocates a d d₂
  take a d d₁ d₂ f h free m z = record {
    in_range = h;
    was_free = free;
    bits = λ b hb.
        ap (λ (x : ℕ). has_bit x (b % bpb % 8))
          (z.elsewhere (bblock sb b) (b % bpb / 8) (free-ne-map a b d f hb free))
        ∙ m.bits b;
    zeroed = z.zeroed;
    elsewhere = λ b o ne ne'. z.elsewhere b o ne ∙ m.elsewhere b o ne';
    logs = Logs-trans 1 1 2 m.logs z.logs (omega arith);
  }

  -- What the search for a free block from number `lo` on, before `hi`, has come to.
  abbrev Scanned : ℕ → ℕ → Disk → Option ℕ → Disk → Type 0
  Scanned lo hi d none d' =
      (d' ≡ d) × ((c : ℕ) → lo ≤ c → c < hi → c < sb.size → allocated sb d c ≡ true)
  Scanned lo hi d (some a) d' =
      Allocates a d d' × (lo ≤ a) × (a < hi) × ((c : ℕ) → lo ≤ c → c < a → allocated sb d c ≡ true)

  -- The body of the search at a free block.
  take-Allocates :
      (c bb bi : ℕ) (d : Disk)
      → IsFormatted d
      → Room sb 2 d
      → bb ≡ bblock sb c
      → bi ≡ c % bpb
      → c < sb.size
      → allocated sb d c ≡ false
      → Returns
          (λ found d'. (found ≡ some c) × Allocates c d d')
          ((do mark sb bb bi; bzero sb c; pure (some c)) d)
  take-Allocates c bb bi d f r e e' h free =
      rw (e, e')
        (bind (mark-Marks sb c 1 d r) λ _ d₁ m.
          bind (bzero-Zeroes sb c 0 d₁ (Room-Logs sb 2 1 1 r m.logs (omega arith)))
            λ _ d₂ z. returns (refl, take c d d₁ d₂ f h free m z))

  in_use-eq-allocated :
      (b bi : ℕ) (d : Disk)
      → b % bpb ≡ 0
      → bi < bpb
      → in_use sb d (bblock sb b) bi ≡ allocated sb d (b + bi)
  in_use-eq-allocated b bi d eb h =
      let e : bblock sb (b + bi) ≡ bblock sb b = omega arith in
      let e' : (b + bi) % bpb ≡ bi = omega arith in rw (e, e')

  -- A search that begins one block later has seen the same, if the first block is in use.
  widen :
      (lo hi : ℕ) (d : Disk) (found : Option ℕ) (d' : Disk)
      → allocated sb d lo ≡ true
      → Scanned (lo + 1) hi d found d'
      → Scanned lo hi d found d'
  widen lo hi d none d' used s = (
    s.0,
    λ c low high h. elim (dec_lt lo c) [
      | yes later ↦ s.1 c (omega arith) high h
      | no first ↦ let e : c ≡ lo = omega arith in rw e used
    ],
  )
  widen lo hi d (some a) d' used s = (
    s.0,
    omega (arith, s.1),
    s.2,
    λ c low high. elim (dec_lt lo c) [
      | yes later ↦ s.3 c (omega arith) high
      | no first ↦ let e : c ≡ lo = omega arith in rw e used
    ],
  )

  found_here :
      (c hi : ℕ) (d : Disk) (found : Option ℕ) (d' : Disk)
      → c < hi
      → (found ≡ some c) × Allocates c d d'
      → Scanned c hi d found d'
  found_here c hi d found d' h p =
      subst (λ o. Scanned c hi d o d') (sym p.0)
        (p.1, omega arith, h, λ k low high. absurd (omega arith))

  scan-Scanned :
      (left b bi : ℕ) (d : Disk)
      → bi + left ≡ bpb
      → b % bpb ≡ 0
      → IsFormatted d
      → Room sb 2 d
      → Returns (Scanned (b + bi) (b + bpb) d) (scan sb left b bi d)
  unfolding scan
  scan-Scanned zero b bi d e eb f r = returns (refl, λ c lo hi h. absurd (omega arith))
  scan-Scanned (suc left) b bi d e eb f r = elim (Bool-cases (ltb (b + bi) sb.size)) [
    | inr past ↦ rw (past, scan) (returns (refl, λ c lo hi h. absurd (ground arith)))
    | inl inside ↦
        rw (inside, scan)
          (elim (Bool-cases (in_use sb d (bblock sb b) bi)) [
            | inr free ↦
                rw (free, scan)
                  (weaken
                    (take-Allocates (b + bi) (bblock sb b) bi d f r (omega arith) (omega arith)
                      (ltb→lt _ _ inside)
                      (sym (in_use-eq-allocated b bi d eb (omega arith)) ∙ free))
                    (λ found d' p. found_here (b + bi) (b + bpb) d found d' (omega arith) p))
            | inl used ↦
                rw (used, scan)
                  (weaken (scan-Scanned left b (bi + 1) d (omega arith) eb f r) (λ found d' p.
                    widen (b + bi) (b + bpb) d found d'
                      (sym (in_use-eq-allocated b bi d eb (omega arith)) ∙ used)
                      (subst (λ k. Scanned k (b + bpb) d found d') (omega arith) p)))
          ])
  ]

  -- What `balloc` comes to: all blocks are in use, or the first free one is given out.
  unfoldable pub Balloced : Disk → ℕ → Disk → Type 0
  Balloced d a d' =
      ((a ≡ 0) × (d' ≡ d) × ((c : ℕ) → c < sb.size → allocated sb d c ≡ true))
      ⊎ ((0 < a) × Allocates a d d' × ((c : ℕ) → c < a → allocated sb d c ≡ true))

  -- One round of `balloc` has come to its end: what the whole call comes to.
  round-Balloced :
      (rounds b : ℕ) (d : Disk) (found : Option ℕ) (d₁ : Disk)
      → allocated sb d 0 ≡ true
      → ((c : ℕ) → c < b → c < sb.size → allocated sb d c ≡ true)
      → (((c : ℕ) → c < b + bpb → c < sb.size → allocated sb d c ≡ true)
          → Returns (Balloced d) (balloc_from sb rounds (b + bpb) d))
      → Scanned b (b + bpb) d found d₁
      → Returns (Balloced d) (found_or found (balloc_from sb rounds (b + bpb)) d₁)
  unfolding Balloced
  round-Balloced rounds b d none d₁ zero_used before again s = rw s.0 (
      again (λ c high h. elim (dec_lt c b) [
        | yes low ↦ before c low h
        | no here ↦ s.1 c (omega arith) high h
      ]))
  round-Balloced rounds b d (some a) d₁ zero_used before again s = returns (
      inr (
        positive,
        s.0,
        λ c h. elim (dec_lt c b) [
          | yes low ↦ before c low (omega (arith, s.0.in_range))
          | no here ↦ s.3 c (omega arith) h
        ],
      ))
    where
      positive : 0 < a
      positive = elim (dec_lt 0 a) [
        | yes h ↦ h
        | no h ↦
            let e : a ≡ 0 = omega arith in
            let used : allocated sb d a ≡ true = rw e zero_used in cc (s.0.was_free, used)
      ]

  balloc_from-Balloced :
      (rounds b : ℕ) (d : Disk)
      → sb.size ≤ b + rounds * bpb
      → b % bpb ≡ 0
      → IsFormatted d
      → Room sb 2 d
      → ((c : ℕ) → c < b → c < sb.size → allocated sb d c ≡ true)
      → Returns (Balloced d) (balloc_from sb rounds b d)
  unfolding balloc_from Balloced
  balloc_from-Balloced zero b d enough eb f r before =
      returns (inl (refl, refl, λ c h. before c (omega arith) h))
  balloc_from-Balloced (suc rounds) b d enough eb f r before = elim (Bool-cases (ltb b sb.size)) [
    | inr past ↦
        rw (past, balloc_from)
          (returns (inl (refl, refl, λ c h. before c (omega (arith, ltb→le _ _ past)) h)))
    | inl inside ↦
        rw (inside, balloc_from)
          (bind
            (subst (λ k. Returns (Scanned k (b + bpb) d) (scan sb bpb b 0 d)) (omega arith)
              (scan-Scanned bpb b 0 d (omega arith) eb f r))
            (λ found d₁ s.
              round-Balloced rounds b d found d₁ f.zero_reserved before
                (λ more.
                  balloc_from-Balloced rounds (b + bpb) d (omega arith) (omega arith) f r more)
                s))
  ]

  -- On a formatted disk, with room for two more blocks in the log, `balloc` returns: 0 and an unchanged disk exactly when
  -- every block is in use, else the first free block, now zeroed and marked.
  pub balloc-Balloced :
      (d : Disk) → IsFormatted d → Room sb 2 d → Returns (Balloced d) (balloc sb d)
  unfolding balloc
  balloc-Balloced d f r =
      balloc_from-Balloced (sb.size / bpb + 1) 0 d (omega arith) (omega arith) f r
        (λ c h. absurd (omega arith))

  -- Allocation keeps the format.
  pub Allocates-IsFormatted :
      (a : ℕ) (d d' : Disk) → IsFormatted d → Allocates a d d' → IsFormatted d'
  Allocates-IsFormatted a d d' f g = record {
    size_fits = f.size_fits;
    map_fits = f.map_fits;
    after_boot = f.after_boot;
    zero_reserved = ground (arith, g.bits 0, f.zero_reserved, f.map_fits);
    maps_reserved = λ b h. ground (arith, g.bits (bblock sb b), f.maps_reserved b h, f.map_fits);
  }
