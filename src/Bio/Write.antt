-- ===== src/Bio/Write.antt =====
-- `bwrite` of bio.c: the bytes of a buffer go to the disk.
use cuhksz_operating_system.Prelude.{
  ℕ, ◌<◌, ◌≡◌, ◌≢◌, ◌⊎◌, inl, inr, refl, sym, ap, ◌∙◌, subst, true, ◌&&◌, some, ◌==◌, arith,
  Bool-cases, ==→eq, eq→==,
}
use cuhksz_operating_system.Bio.{Bcache, nbuf, store_block, bwrite}
use cuhksz_operating_system.Bio.Search.{Has, search_block}
use cuhksz_operating_system.Bio.Content.{IsCache, shown, content, content-buf, content-disk}

-- What `bwrite` leaves.
pub record Written (s : ℕ) (c c' : Bcache) : Type 0 where
  pub on_disk : c'.disk (c.buf s).dev (c.buf s).blockno ≡ (c.buf s).bytes
  pub elsewhere : (d n : ℕ) → (Has d n s c → ⊥) → c'.disk d n ≡ c.disk d n
  pub bufs : c'.buf ≡ c.buf
  pub order_same : c'.order ≡ c.order
  pub blocks : (d n : ℕ) → d ≢ 0 → content c' d n ≡ content c d n
  pub cache : IsCache c'

module _ (s : ℕ) (c : Bcache) (v : IsCache c) (low : s < nbuf) (used : (c.buf s).dev ≢ 0)
    (valid : (c.buf s).valid ≡ true) where
  own : (store_block s c).disk (c.buf s).dev (c.buf s).blockno ≡ (c.buf s).bytes
  own = rw (eq→== (c.buf s).dev _ refl, eq→== (c.buf s).blockno _ refl) refl

  other : (d n : ℕ) → (Has d n s c → ⊥) → (store_block s c).disk d n ≡ c.disk d n
  other d n ne = elim (Bool-cases (d == (c.buf s).dev && n == (c.buf s).blockno)) [
    | inl e ↦ absurd (
        ne (
          sym (==→eq d (c.buf s).dev (ground (arith, e))),
          sym (==→eq n (c.buf s).blockno (ground (arith, e))),
        ))
    | inr e ↦ rw e refl
  ]

  here_or_not : (d n : ℕ) → Has d n s c ⊎ (Has d n s c → ⊥)
  here_or_not d n = elim (Bool-cases ((c.buf s).dev == d && (c.buf s).blockno == n)) [
    | inl e ↦
        inl
          (==→eq (c.buf s).dev d (ground (arith, e)), ==→eq (c.buf s).blockno n (ground (arith, e)))
    | inr e ↦
        inr (λ h.
          absurd (ground (arith, e, eq→== (c.buf s).dev d h.0, eq→== (c.buf s).blockno n h.1)))
  ]

  written-IsCache : IsCache (store_block s c)
  written-IsCache = record {
    order = v.order;
    unique = v.unique;
    clean = λ j low_j zero_refs ok. elim (here_or_not (c.buf j).dev (c.buf j).blockno) [
      | inl h ↦
          let e = v.unique s j low low_j used (sym h.0, sym h.1) in
          subst (λ k. (c.buf k).bytes ≡ (store_block s c).disk (c.buf k).dev (c.buf k).blockno)
            (sym e) (sym own)
      | inr h ↦ v.clean j low_j zero_refs ok ∙ sym (other (c.buf j).dev (c.buf j).blockno h)
    ];
  }

  written_content : (d n : ℕ) → d ≢ 0 → content (store_block s c) d n ≡ content c d n
  written_content d n used_d = elim (search_block c v.order d n) [
    | inl h ↦
        content-buf (store_block s c) h.0 d n written-IsCache h.2 used_d h.3
        ∙ shown_same h.0 h.2
        ∙ sym (content-buf c h.0 d n v h.2 used_d h.3)
    | inr h ↦
        content-disk (store_block s c) d n v.order h.1
        ∙ other d n (h.1 s low)
        ∙ sym (content-disk c d n v.order h.1)
  ]
    where
      shown_same :
          (j : ℕ) → j < nbuf → shown (c.buf j) (store_block s c).disk ≡ shown (c.buf j) c.disk
      shown_same j low_j = elim (Bool-cases (c.buf j).valid) [
        | inl e ↦ rw e refl
        | inr e ↦ rw e (
            other (c.buf j).dev (c.buf j).blockno (λ h.
              let e' = v.unique s j low low_j used (sym h.0, sym h.1) in
              absurd (ground (arith, e, valid, ap (λ k. (c.buf k).valid) e'))))
      ]

  -- For a cache in order: `bwrite` of a locked buffer that has the bytes of a block of a device that is
  -- not 0 returns. The block on the disk has the bytes of the buffer then, the other blocks on the disk,
  -- the buffers and their order are the same, the cache shows the same of every block, and stays in
  -- order.
  pub bwrite-Written :
      (c.buf s).locked ≡ true → (c' : Bcache) × (bwrite s c ≡ some c') × Written s c c'
  unfolding bwrite
  bwrite-Written held = (
    store_block s c,
    rw held refl,
    record {
      on_disk = own;
      elsewhere = other;
      bufs = refl;
      order_same = refl;
      blocks = written_content;
      cache = written-IsCache;
    },
  )
