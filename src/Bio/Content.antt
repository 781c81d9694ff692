-- ===== src/Bio/Content.antt =====
-- What the cache of bio.c shows of a block: the bytes of the buffer that has it, or those on the disk.
use cuhksz_operating_system.Prelude.{
  ℕ, ◌<◌, ◌≡◌, ◌≢◌, ◌⊎◌, inl, inr, refl, sym, ap, ◌∙◌, subst, true, none, some, ◌==◌, if◌then◌else◌,
  Bool-cases, ==→eq, ==→ne, eq→==, ne→==,
}
use cuhksz_operating_system.Bio.{Buf, Bcache, nbuf, set_buf, find_block}
use cuhksz_operating_system.Bio.Search.{IsOrder, Has, search_block}

-- All buffers are in the list, a block has one buffer at most, and a buffer that is not in use agrees
-- with the disk. Device 0 is that of buffers which were never used.
pub record IsCache (c : Bcache) : Type 0 where
  pub order : IsOrder c.order
  pub unique :
      (s s' : ℕ)
      → s < nbuf
      → s' < nbuf
      → (c.buf s).dev ≢ 0
      → Has (c.buf s).dev (c.buf s).blockno s' c
      → s' ≡ s
  pub clean :
      (s : ℕ)
      → s < nbuf
      → (c.buf s).refcnt ≡ 0
      → (c.buf s).valid ≡ true
      → (c.buf s).bytes ≡ c.disk (c.buf s).dev (c.buf s).blockno

abbrev pub shown : Buf → (ℕ → ℕ → ℕ → ℕ) → ℕ → ℕ
shown b disk = if b.valid then b.bytes else disk b.dev b.blockno

-- The bytes of a block for those who read it through the cache.
pub content : Bcache → ℕ → ℕ → ℕ → ℕ
content c dev blockno = elim (find_block dev blockno c.order c) [
  | none ↦ c.disk dev blockno
  | some s ↦ shown (c.buf s) c.disk
]

pub content-buf :
    (c : Bcache) (s dev blockno : ℕ)
    → IsCache c
    → s < nbuf
    → dev ≢ 0
    → Has dev blockno s c
    → content c dev blockno ≡ shown (c.buf s) c.disk
unfolding content
content-buf c s dev blockno v low used has = elim (search_block c v.order dev blockno) [
  | inl h ↦
      rw (h.1, content)
        (ap (λ j. shown (c.buf j) c.disk)
          (v.unique s h.0 low h.2 (λ z. used (sym has.0 ∙ z))
            (h.3.0 ∙ sym has.0, h.3.1 ∙ sym has.1)))
  | inr h ↦ absurd (h.1 s low has)
]

pub content-disk :
    (c : Bcache) (dev blockno : ℕ)
    → IsOrder c.order
    → ((s : ℕ) → s < nbuf → Has dev blockno s c → ⊥)
    → content c dev blockno ≡ c.disk dev blockno
unfolding content
content-disk c dev blockno ok missing = elim (search_block c ok dev blockno) [
  | inl h ↦ absurd (missing h.0 h.2 h.3)
  | inr h ↦ rw (h.0, content) refl
]

pub at_buf : (s j : ℕ) (b : Buf) (c : Bcache) → j ≡ s → (set_buf s b c).buf j ≡ b
at_buf s j b c e = rw (eq→== j s e) refl

pub off_buf : (s j : ℕ) (b : Buf) (c : Bcache) → j ≢ s → (set_buf s b c).buf j ≡ c.buf j
off_buf s j b c ne = rw (ne→== j s ne) refl

pub same_or_not : (j s : ℕ) → (j ≡ s) ⊎ (j ≢ s)
same_or_not j s = elim (Bool-cases (j == s)) [
  | inl e ↦ inl (==→eq j s e)
  | inr e ↦ inr (==→ne j s e)
]

-- A buffer that keeps its block, but for its bytes and count.
module _ (s : ℕ) (b : Buf) (c : Bcache) (same_dev : b.dev ≡ (c.buf s).dev)
    (same_blockno : b.blockno ≡ (c.buf s).blockno) where
  keeps : (j dev blockno : ℕ) → Has dev blockno j c → Has dev blockno j (set_buf s b c)
  keeps j dev blockno h = elim (same_or_not j s) [
    | inl e ↦
        subst (λ (x : Buf). (x.dev ≡ dev) × (x.blockno ≡ blockno)) (sym (at_buf s j b c e))
          (
            same_dev ∙ ap (λ k. (c.buf k).dev) (sym e) ∙ h.0,
            same_blockno ∙ ap (λ k. (c.buf k).blockno) (sym e) ∙ h.1,
          )
    | inr e ↦ subst (λ (x : Buf). (x.dev ≡ dev) × (x.blockno ≡ blockno)) (sym (off_buf s j b c e)) h
  ]

  kept : (j dev blockno : ℕ) → Has dev blockno j (set_buf s b c) → Has dev blockno j c
  kept j dev blockno h = elim (same_or_not j s) [
    | inl e ↦
        let h' = subst (λ (x : Buf). (x.dev ≡ dev) × (x.blockno ≡ blockno)) (at_buf s j b c e) h in
        (
          ap (λ k. (c.buf k).dev) e ∙ sym same_dev ∙ h'.0,
          ap (λ k. (c.buf k).blockno) e ∙ sym same_blockno ∙ h'.1,
        )
    | inr e ↦ subst (λ (x : Buf). (x.dev ≡ dev) × (x.blockno ≡ blockno)) (off_buf s j b c e) h
  ]

  pub keep-IsCache :
      IsCache c
      → (b.refcnt ≡ 0 → b.valid ≡ true → b.bytes ≡ c.disk b.dev b.blockno)
      → IsCache (set_buf s b c)
  keep-IsCache v ok =
      let c' = set_buf s b c in
      record {
        order = v.order;
        unique = λ j k low low' used h.
            let own = kept j (c'.buf j).dev (c'.buf j).blockno (refl, refl) in
            let h' = kept k (c'.buf j).dev (c'.buf j).blockno h in
            v.unique j k low low' (λ z. used (sym own.0 ∙ z)) (h'.0 ∙ sym own.0, h'.1 ∙ sym own.1);
        clean = λ j low. elim (same_or_not j s) [
          | inl e ↦ subst Clean (sym (at_buf s j b c e)) ok
          | inr e ↦ subst Clean (sym (off_buf s j b c e)) (v.clean j low)
        ];
      }
    where
      Clean : Buf → Type 0
      Clean x = x.refcnt ≡ 0 → x.valid ≡ true → x.bytes ≡ c.disk x.dev x.blockno

  pub keep_content :
      (dev blockno : ℕ)
      → IsCache c
      → IsCache (set_buf s b c)
      → shown b c.disk ≡ shown (c.buf s) c.disk
      → dev ≢ 0
      → content (set_buf s b c) dev blockno ≡ content c dev blockno
  keep_content dev blockno v v' same used = elim (search_block c v.order dev blockno) [
    | inl h ↦
        content-buf (set_buf s b c) h.0 dev blockno v' h.2 used (keeps h.0 dev blockno h.3)
        ∙ shown_same h.0
        ∙ sym (content-buf c h.0 dev blockno v h.2 used h.3)
    | inr h ↦
        content-disk (set_buf s b c) dev blockno v.order
          (λ j low has. h.1 j low (kept j dev blockno has))
        ∙ sym (content-disk c dev blockno v.order h.1)
  ]
    where
      shown_same : (j : ℕ) → shown ((set_buf s b c).buf j) c.disk ≡ shown (c.buf j) c.disk
      shown_same j = elim (same_or_not j s) [
        | inl e ↦
            ap (λ (x : Buf). shown x c.disk) (at_buf s j b c e)
            ∙ same
            ∙ ap (λ k. shown (c.buf k) c.disk) (sym e)
        | inr e ↦ ap (λ (x : Buf). shown x c.disk) (off_buf s j b c e)
      ]
