-- ===== src/Bio/Recycle.antt =====
-- `bget` of bio.c: a buffer that has the block, or one that is recycled, and what the cache shows then.
use cuhksz_operating_system.Prelude.{
  ℕ, ◌+◌, ◌<◌, ◌≡◌, ◌≢◌, ◌⊎◌, inl, inr, refl, sym, ap, ◌∙◌, subst, true, false, ◌&&◌, ◌==◌, arith,
  Bool-cases, ==→eq, eq→==,
}
use cuhksz_operating_system.Bio.{
  Buf, Bcache, nbuf, share, recycle, Taken, panics, sleeps, gives, acquiresleep, bget,
}
use cuhksz_operating_system.Bio.Search.{Has, search_block, search_unused}
use cuhksz_operating_system.Bio.Content.{
  IsCache, shown, content, content-buf, content-disk, at_buf, off_buf, same_or_not, keep-IsCache,
  keep_content,
}

-- A buffer for the block, with one reference more, and what stays as it was.
pub record Got (dev blockno : ℕ) (c : Bcache) (s : ℕ) (c' : Bcache) : Type 0 where
  pub low : s < nbuf
  pub has : Has dev blockno s c'
  pub refs : (c'.buf s).refcnt ≡ (c.buf s).refcnt + 1
  pub locked : (c'.buf s).locked ≡ true
  pub others : (j : ℕ) → j ≢ s → c'.buf j ≡ c.buf j
  pub blocks : (d b : ℕ) → d ≢ 0 → content c' d b ≡ content c d b
  pub disk_same : c'.disk ≡ c.disk
  pub cache : IsCache c'

pub share-Got :
    (dev blockno s : ℕ) (c : Bcache)
    → IsCache c
    → s < nbuf
    → Has dev blockno s c
    → Got dev blockno c s (share s c)
share-Got dev blockno s c v low has =
    let b : Buf = record (c.buf s) { refcnt = (c.buf s).refcnt + 1; locked = true } in
    let v' = keep-IsCache s b c refl refl v (λ z. absurd (omega (arith, z))) in
    record {
      low = low;
      has = rw (eq→== s s refl) has;
      refs = rw (eq→== s s refl) refl;
      locked = rw (eq→== s s refl) refl;
      others = λ j ne. off_buf s j b c ne;
      blocks = λ d n used. keep_content s b c refl refl d n v v' refl used;
      disk_same = refl;
      cache = v';
    }

module _ (dev blockno s : ℕ) (c : Bcache) (v : IsCache c) (low : s < nbuf)
    (free : (c.buf s).refcnt ≡ 0) (missing : (j : ℕ) → j < nbuf → Has dev blockno j c → ⊥) where
  new : Buf
  new = record (c.buf s) { dev = dev; blockno = blockno; valid = false; refcnt = 1; locked = true }

  -- In the new cache only `s` has the block, and the others have what they had.
  own_or_old :
      (j d n : ℕ)
      → Has d n j (recycle dev blockno s c)
      → ((j ≡ s) × (d ≡ dev) × (n ≡ blockno)) ⊎ ((j ≢ s) × Has d n j c)
  unfolding new
  own_or_old j d n h = elim (same_or_not j s) [
    | inl e ↦
        let h' = subst (λ (x : Buf). (x.dev ≡ d) × (x.blockno ≡ n)) (at_buf s j new c e) h in
        inl (e, sym h'.0, sym h'.1)
    | inr e ↦ inr (e, subst (λ (x : Buf). (x.dev ≡ d) × (x.blockno ≡ n)) (off_buf s j new c e) h)
  ]

  old-Has : (j d n : ℕ) → j ≢ s → Has d n j c → Has d n j (recycle dev blockno s c)
  unfolding new
  old-Has j d n ne h =
      subst (λ (x : Buf). (x.dev ≡ d) × (x.blockno ≡ n)) (sym (off_buf s j new c ne)) h

  recycle-IsCache : IsCache (recycle dev blockno s c)
  unfolding new
  recycle-IsCache = record {
    order = v.order;
    unique = λ j k low_j low_k used h.
        let c' = recycle dev blockno s c in
        let d = (c'.buf j).dev in
        let n = (c'.buf j).blockno in
        elim (own_or_old j d n (refl, refl)) [
          | inl x ↦ elim (own_or_old k d n h) [
            | inl y ↦ y.0 ∙ sym x.0
            | inr y ↦ absurd (missing k low_k (y.1.0 ∙ x.1, y.1.1 ∙ x.2))
          ]
          | inr x ↦ elim (own_or_old k d n h) [
            | inl y ↦ absurd (missing j low_j (x.1.0 ∙ y.1, x.1.1 ∙ y.2))
            | inr y ↦
                v.unique j k low_j low_k (λ z. used (sym x.1.0 ∙ z))
                  (y.1.0 ∙ sym x.1.0, y.1.1 ∙ sym x.1.1)
          ]
        ];
    clean = λ j low_j. elim (same_or_not j s) [
      | inl e ↦ subst Clean (sym (at_buf s j new c e)) (λ z. absurd (omega (arith, z)))
      | inr e ↦ subst Clean (sym (off_buf s j new c e)) (v.clean j low_j)
    ];
  }
    where
      Clean : Buf → Type 0
      Clean x = x.refcnt ≡ 0 → x.valid ≡ true → x.bytes ≡ c.disk x.dev x.blockno

  -- The buffer that is recycled showed what is on the disk.
  shown_disk : shown (c.buf s) c.disk ≡ c.disk (c.buf s).dev (c.buf s).blockno
  shown_disk = elim (Bool-cases (c.buf s).valid) [
    | inl e ↦ rw e (v.clean s low free e)
    | inr e ↦ rw e refl
  ]

  content-recycle : (d n : ℕ) → d ≢ 0 → content (recycle dev blockno s c) d n ≡ content c d n
  unfolding new
  content-recycle d n used =
      let c' = recycle dev blockno s c in
      elim (search_block c v.order d n) [
        | inl h ↦ elim (same_or_not h.0 s) [
          | inl e ↦
              let has = subst (λ k. Has d n k c) e h.3 in
              content-disk c' d n v.order (gone e has)
              ∙ sym (
                  content-buf c s d n v low used has
                  ∙ shown_disk
                  ∙ ap (λ x. c.disk x (c.buf s).blockno) has.0
                  ∙ ap (c.disk d) has.1)
          | inr e ↦
              content-buf c' h.0 d n recycle-IsCache h.2 used (old-Has h.0 d n e h.3)
              ∙ ap (λ (x : Buf). shown x c.disk) (off_buf s h.0 new c e)
              ∙ sym (content-buf c h.0 d n v h.2 used h.3)
        ]
        | inr h ↦ elim (Bool-cases (d == dev && n == blockno)) [
          | inl e ↦
              content-buf c' s d n recycle-IsCache low used (
                rw (eq→== s s refl) (
                  sym (==→eq d dev (ground (arith, e))),
                  sym (==→eq n blockno (ground (arith, e))),
                ))
              ∙ rw
                  (
                    eq→== s s refl,
                    sym (==→eq d dev (ground (arith, e))),
                    sym (==→eq n blockno (ground (arith, e))),
                  )
                  refl
              ∙ sym (content-disk c d n v.order h.1)
          | inr e ↦
              content-disk c' d n v.order (absent h.1 e) ∙ sym (content-disk c d n v.order h.1)
        ]
      ]
    where
      gone :
          {j : ℕ}
          → j ≡ s
          → Has d n s c
          → (k : ℕ) → k < nbuf
          → Has d n k (recycle dev blockno s c)
          → ⊥
      gone e has k low_k h = elim (own_or_old k d n h) [
        | inl x ↦ missing s low (has.0 ∙ x.1, has.1 ∙ x.2)
        | inr x ↦ x.0 (
            v.unique s k low low_k (λ z. used (sym has.0 ∙ z))
              (x.1.0 ∙ sym has.0, x.1.1 ∙ sym has.1))
      ]

      absent :
          ((j : ℕ) → j < nbuf → Has d n j c → ⊥)
          → (d == dev && n == blockno) ≡ false
          → (k : ℕ) → k < nbuf
          → Has d n k (recycle dev blockno s c)
          → ⊥
      absent none_has e k low_k h = elim (own_or_old k d n h) [
        | inl x ↦ ground (arith, e, eq→== d dev x.1, eq→== n blockno x.2)
        | inr x ↦ none_has k low_k x.1
      ]

  pub recycle-Got : Got dev blockno c s (recycle dev blockno s c)
  unfolding new
  recycle-Got = record {
    low = low;
    has = rw (eq→== s s refl) (refl, refl);
    refs = rw (eq→== s s refl) (omega (arith, free));
    locked = rw (eq→== s s refl) refl;
    others = λ j ne. off_buf s j new c ne;
    blocks = content-recycle;
    disk_same = refl;
    cache = recycle-IsCache;
  }

-- The lock of the buffer was held, and the call sleeps; or it was free, and the call has the buffer.
unfoldable pub Waits : (dev blockno : ℕ) (c : Bcache) (r : Taken) → Type 0
Waits dev blockno c r =
    (s : ℕ) × (c' : Bcache) × (r ≡ sleeps s c') × ((c.buf s).locked ≡ true) × Got dev blockno c s c'

acquiresleep-cases :
    (dev blockno : ℕ) (c : Bcache) (s : ℕ) (c' : Bcache)
    → Got dev blockno c s c'
    → Waits dev blockno c (acquiresleep s (c.buf s).locked c')
      ⊎ ((acquiresleep s (c.buf s).locked c' ≡ gives s c') × ((c.buf s).locked ≡ false))
unfolding Waits
acquiresleep-cases dev blockno c s c' g = elim (Bool-cases (c.buf s).locked) [
  | inl e ↦ inl (s, c', rw e refl, e, g)
  | inr e ↦ inr (rw e refl, e)
]

-- `bget` panics exactly when no buffer has the block and all are in use.
pub bget-Got :
    (dev blockno : ℕ) (c : Bcache)
    → IsCache c
    → ((bget dev blockno c ≡ panics)
        × ((j : ℕ) → j < nbuf → Has dev blockno j c → ⊥)
        × ((j : ℕ) → j < nbuf → 0 < (c.buf j).refcnt))
      ⊎ Waits dev blockno c (bget dev blockno c)
      ⊎ ((s : ℕ) × (c' : Bcache) × (bget dev blockno c ≡ gives s c')
          × ((c.buf s).locked ≡ false)
          × Got dev blockno c s c')
unfolding bget
bget-Got dev blockno c v = elim (search_block c v.order dev blockno) [
  | inl h ↦ rw (h.1, bget) (inr (found h.0 (share h.0 c) (share-Got dev blockno h.0 c v h.2 h.3)))
  | inr h ↦ elim (search_unused c v.order) [
    | inl k ↦
        rw (h.0, k.1, bget)
          (inr
            (found k.0 (recycle dev blockno k.0 c) (recycle-Got dev blockno k.0 c v k.2 k.3 h.1)))
    | inr k ↦ inl (rw (h.0, k.0, bget) refl, h.1, k.1)
  ]
]
  where
    found :
        (s : ℕ) (c' : Bcache)
        → Got dev blockno c s c'
        → Waits dev blockno c (acquiresleep s (c.buf s).locked c')
          ⊎ ((s' : ℕ) × (c'' : Bcache) × (acquiresleep s (c.buf s).locked c' ≡ gives s' c'')
              × ((c.buf s').locked ≡ false)
              × Got dev blockno c s' c'')
    found s c' g = elim (acquiresleep-cases dev blockno c s c' g) [
      | inl w ↦ inl w
      | inr w ↦ inr (s, c', w.0, w.1, g)
    ]
