-- ===== src/Bio/Ops.antt =====
-- `bread`, `bwrite` and `brelse` of bio.c: what they do to the blocks that the cache shows.
use cuhksz_operating_system.Prelude.{
  ℕ, ◌-◌, ◌<◌, ◌≡◌, ◌≢◌, ◌⊎◌, inl, inr, refl, sym, ◌∙◌, true, false, some, List, ◌∷◌, ◌==◌, arith,
  Bool-cases, ==→eq, ==→ne, eq→==,
}
use cuhksz_operating_system.Bio.{
  Buf, Bcache, nbuf, set_buf, load, panics, gives, bread, unlink, brelse,
}
use cuhksz_operating_system.Bio.Search.{IsOrder, Has, search_block, front-IsOrder}
use cuhksz_operating_system.Bio.Content.{
  IsCache, content, content-buf, content-disk, off_buf, keep-IsCache, keep_content,
}
use cuhksz_operating_system.Bio.Recycle.{Got, Waits, bget-Got}

load-Got :
    (dev blockno s : ℕ) (c c' : Bcache)
    → Got dev blockno c s c'
    → (c'.buf s).valid ≡ false
    → Got dev blockno c s (load s c')
load-Got dev blockno s c c' g e =
    let old = c'.buf s in
    let b : Buf = record old { bytes = c'.disk old.dev old.blockno; valid = true } in
    let v' = keep-IsCache s b c' refl refl g.cache (λ z h. refl) in
    record {
      low = g.low;
      has = rw (eq→== s s refl) g.has;
      refs = rw (eq→== s s refl) g.refs;
      locked = rw (eq→== s s refl) g.locked;
      others = λ j ne. off_buf s j b c' ne ∙ g.others j ne;
      blocks = λ d n used.
          keep_content s b c' refl refl d n g.cache v' (rw e refl) used ∙ g.blocks d n used;
      disk_same = g.disk_same;
      cache = v';
    }

-- For a cache in order and a device that is not 0: `bread` panics exactly when no buffer has the block
-- and all are in use. Else it takes a buffer for the block, with one reference more; the other buffers
-- and the disk are the same, the cache shows the same of every block as before, and stays in order. If
-- another process has the lock of this buffer the call sleeps; if none has, it gives the buffer, locked,
-- and its bytes are what the cache showed of the block.
pub bread-Got :
    (dev blockno : ℕ) (c : Bcache)
    → IsCache c
    → dev ≢ 0
    → ((bread dev blockno c ≡ panics)
        × ((j : ℕ) → j < nbuf → Has dev blockno j c → ⊥)
        × ((j : ℕ) → j < nbuf → 0 < (c.buf j).refcnt))
      ⊎ Waits dev blockno c (bread dev blockno c)
      ⊎ ((s : ℕ) × (c' : Bcache) × (bread dev blockno c ≡ gives s c')
          × ((c.buf s).locked ≡ false)
          × Got dev blockno c s c'
          × ((c'.buf s).valid ≡ true)
          × ((c'.buf s).bytes ≡ content c dev blockno))
unfolding bread Waits
bread-Got dev blockno c v used = elim (bget-Got dev blockno c v) [
  | inl h ↦ inl (rw (h.0, bread) refl, h.1, h.2)
  | inr (inl (s, c', e, held, g)) ↦ inr (inl (s, c', rw (e, bread) refl, held, g))
  | inr (inr (s, c', e, free, g)) ↦ elim (Bool-cases (c'.buf s).valid) [
    | inl ok ↦ inr (inr (s, c', rw (e, bread) (rw ok refl), free, g, ok, shows s c' g ok))
    | inr bad ↦
        let g' = load-Got dev blockno s c c' g bad in
        let ok : ((load s c').buf s).valid ≡ true = rw (eq→== s s refl) refl in
        inr
          (inr (s, load s c', rw (e, bread) (rw bad refl), free, g', ok, shows s (load s c') g' ok))
  ]
]
  where
    shows :
        (s : ℕ) (c' : Bcache)
        → Got dev blockno c s c'
        → (c'.buf s).valid ≡ true
        → (c'.buf s).bytes ≡ content c dev blockno
    shows s c' g ok =
        sym (content-buf c' s dev blockno g.cache g.low used g.has ∙ rw ok refl)
        ∙ g.blocks dev blockno used

-- The list may change as long as all buffers are in it.
reorder-IsCache :
    (c : Bcache) (order : List ℕ) → IsCache c → IsOrder order → IsCache (record c { order = order })
reorder-IsCache c order v ok = record { order = ok; unique = v.unique; clean = v.clean }

reorder_content :
    (c : Bcache) (order : List ℕ) (dev blockno : ℕ)
    → IsCache c
    → IsOrder order
    → dev ≢ 0
    → content (record c { order = order }) dev blockno ≡ content c dev blockno
reorder_content c order dev blockno v ok used =
    let c' : Bcache = record c { order = order } in
    elim (search_block c v.order dev blockno) [
      | inl h ↦
          content-buf c' h.0 dev blockno (reorder-IsCache c order v ok) h.2 used h.3
          ∙ sym (content-buf c h.0 dev blockno v h.2 used h.3)
      | inr h ↦ content-disk c' dev blockno ok h.1 ∙ sym (content-disk c dev blockno v.order h.1)
    ]

-- What `brelse` leaves.
pub record Released (s : ℕ) (c c' : Bcache) : Type 0 where
  pub refs : (c'.buf s).refcnt ≡ (c.buf s).refcnt - 1
  pub unlocked : (c'.buf s).locked ≡ false
  pub others : (j : ℕ) → j ≢ s → c'.buf j ≡ c.buf j
  pub blocks : (d b : ℕ) → d ≢ 0 → content c' d b ≡ content c d b
  pub disk_same : c'.disk ≡ c.disk
  pub recent : (c.buf s).refcnt ≡ 1 → c'.order ≡ s ∷ unlink s c.order
  pub order_same : 1 < (c.buf s).refcnt → c'.order ≡ c.order
  pub cache : IsCache c'

-- For a cache in order: `brelse` of a locked buffer that is in use, and that agrees with the disk if
-- this is its last reference and it has bytes, returns. The buffer has one reference less and is not
-- locked; it is the most recent one of the list if that was the last reference, else the list is the
-- same; the other buffers and the disk are the same, the cache shows the same of every block, and
-- stays in order.
pub brelse-Released :
    (s : ℕ) (c : Bcache)
    → IsCache c
    → s < nbuf
    → (c.buf s).locked ≡ true
    → 0 < (c.buf s).refcnt
    → ((c.buf s).refcnt ≡ 1
        → (c.buf s).valid ≡ true
        → (c.buf s).bytes ≡ c.disk (c.buf s).dev (c.buf s).blockno)
    → (c' : Bcache) × (brelse s c ≡ some c') × Released s c c'
unfolding brelse
brelse-Released s c v low held pos clean =
    let old = c.buf s in
    let b : Buf = record old { refcnt = old.refcnt - 1; locked = false } in
    let c₁ = set_buf s b c in
    let v₁ = keep-IsCache s b c refl refl v (λ z. clean (omega (arith, pos, z))) in
    let same : (d n : ℕ) → d ≢ 0 → content c₁ d n ≡ content c d n =
      λ d n. keep_content s b c refl refl d n v v₁ refl in
    elim (Bool-cases (old.refcnt - 1 == 0)) [
      | inl e ↦
          let ok = front-IsOrder s c.order v.order low in
          (
            record c₁ { order = s ∷ unlink s c.order },
            rw held (rw e refl),
            record {
              refs = rw (eq→== s s refl) refl;
              unlocked = rw (eq→== s s refl) refl;
              others = λ j ne. off_buf s j b c ne;
              blocks = λ d n used.
                  reorder_content c₁ (s ∷ unlink s c.order) d n v₁ ok used ∙ same d n used;
              disk_same = refl;
              recent = λ h. refl;
              order_same = λ h. absurd (omega (arith, h, ==→eq _ _ e));
              cache = reorder-IsCache c₁ (s ∷ unlink s c.order) v₁ ok;
            },
          )
      | inr e ↦ (
        c₁,
        rw held (rw e refl),
        record {
          refs = rw (eq→== s s refl) refl;
          unlocked = rw (eq→== s s refl) refl;
          others = λ j ne. off_buf s j b c ne;
          blocks = same;
          disk_same = refl;
          recent = λ h. absurd (==→ne _ _ e (omega (arith, h)));
          order_same = λ h. refl;
          cache = v₁;
        },
      )
    ]
