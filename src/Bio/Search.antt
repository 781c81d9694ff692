-- ===== src/Bio/Search.antt =====
-- The two searches of `bget` in bio.c, and the list of buffers as an order on all of them.
use cuhksz_operating_system.Prelude.{
  ℕ, zero, suc, ◌+◌, ◌≤◌, ◌<◌, ◌≡◌, ◌⊎◌, inl, inr, refl, sym, subst, ◌&&◌, none, some, List, [],
  ◌∷◌, ◌==◌, if◌then◌else◌, arith, Bool-cases, ==→eq, ==→ne, eq→==, ltb, leb,
}
use cuhksz_operating_system.Bio.{Bcache, nbuf, find_block, find_unused, unlink, binit_from}

-- How often a buffer stands in the list.
unfoldable pub count : ℕ → List ℕ → ℕ
count s [] = 0
count s (b ∷ order) = (if b == s then 1 else 0) + count s order

-- Each buffer stands in the list once, and nothing else does.
abbrev pub IsOrder : List ℕ → Type 0
IsOrder order = ((s : ℕ) → s < nbuf → count s order ≡ 1) × ((s : ℕ) → nbuf ≤ s → count s order ≡ 0)

abbrev pub Has : ℕ → ℕ → ℕ → Bcache → Type 0
Has dev blockno s c = ((c.buf s).dev ≡ dev) × ((c.buf s).blockno ≡ blockno)

-- What the first loop finds.
find_block-Has :
    (dev blockno : ℕ) (order : List ℕ) (c : Bcache)
    → ((s : ℕ) × (find_block dev blockno order c ≡ some s)
        × (0 < count s order)
        × Has dev blockno s c)
      ⊎ ((find_block dev blockno order c ≡ none)
          × ((s : ℕ) → 0 < count s order → Has dev blockno s c → ⊥))
unfolding find_block count
find_block-Has dev blockno [] c = inr (refl, λ s h. absurd (omega (arith, h)))
find_block-Has dev blockno (b ∷ order) c =
    elim (Bool-cases ((c.buf b).dev == dev && (c.buf b).blockno == blockno)) [
      | inl e ↦
          inl (
            b,
            rw e refl,
            rw (eq→== b b refl) (omega arith),
            (ground (arith, e), ground (arith, e)),
          )
      | inr e ↦ elim (find_block-Has dev blockno order c) [
        | inl h ↦ inl (h.0, rw e h.1, omega (arith, h.2), h.3)
        | inr h ↦ inr (
          rw e h.0,
          λ s pos has. elim (Bool-cases (b == s)) [
            | inl e' ↦
                let here = subst (λ k. Has dev blockno k c) (sym (==→eq b s e')) has in
                ground (arith, e, eq→== _ _ here.0, eq→== _ _ here.1)
            | inr e' ↦ h.1 s (ground (arith, pos, e')) has
          ],
        )
      ]
    ]

-- What the second loop finds.
find_unused-unused :
    (order : List ℕ) (c : Bcache)
    → ((s : ℕ) × (find_unused order c ≡ some s) × (0 < count s order) × ((c.buf s).refcnt ≡ 0))
      ⊎ ((find_unused order c ≡ none) × ((s : ℕ) → 0 < count s order → 0 < (c.buf s).refcnt))
unfolding find_unused count
find_unused-unused [] c = inr (refl, λ s h. absurd (omega (arith, h)))
find_unused-unused (b ∷ order) c = elim (find_unused-unused order c) [
  | inl h ↦ inl (h.0, rw (h.1, find_unused) refl, omega (arith, h.2), h.3)
  | inr h ↦ elim (Bool-cases ((c.buf b).refcnt == 0)) [
    | inl e ↦
        inl (b, rw (h.0, find_unused) (rw e refl), rw (eq→== b b refl) (omega arith), ==→eq _ _ e)
    | inr e ↦ inr (
      rw (h.0, find_unused) (rw e refl),
      λ s pos. elim (Bool-cases (b == s)) [
        | inl e' ↦ subst (λ k. 0 < (c.buf k).refcnt) (==→eq b s e') (omega (arith, ==→ne _ _ e))
        | inr e' ↦ h.1 s (ground (arith, pos, e'))
      ],
    )
  ]
]

module _ (c : Bcache) (ok : IsOrder c.order) where
  listed : (s : ℕ) → 0 < count s c.order → s < nbuf
  listed s h = elim (Bool-cases (ltb s nbuf)) [
    | inl e ↦ ground (arith, e)
    | inr e ↦ absurd (omega (arith, h, ok.1 s (ground (arith, e))))
  ]

  -- The first loop of `bget` over all buffers.
  pub search_block :
      (dev blockno : ℕ)
      → ((s : ℕ) × (find_block dev blockno c.order c ≡ some s) × (s < nbuf) × Has dev blockno s c)
        ⊎ ((find_block dev blockno c.order c ≡ none)
            × ((s : ℕ) → s < nbuf → Has dev blockno s c → ⊥))
  search_block dev blockno = elim (find_block-Has dev blockno c.order c) [
    | inl h ↦ inl (h.0, h.1, listed h.0 h.2, h.3)
    | inr h ↦ inr (h.0, λ s low. h.1 s (omega (arith, ok.0 s low)))
  ]

  pub search_unused :
      ((s : ℕ) × (find_unused c.order c ≡ some s) × (s < nbuf) × ((c.buf s).refcnt ≡ 0))
      ⊎ ((find_unused c.order c ≡ none) × ((s : ℕ) → s < nbuf → 0 < (c.buf s).refcnt))
  search_unused = elim (find_unused-unused c.order c) [
    | inl h ↦ inl (h.0, h.1, listed h.0 h.2, h.3)
    | inr h ↦ inr (h.0, λ s low. h.1 s (omega (arith, ok.0 s low)))
  ]

count-unlink :
    (s j : ℕ) (order : List ℕ)
    → 0 < count s order
    → count j (unlink s order) + (if s == j then 1 else 0) ≡ count j order
unfolding count unlink
count-unlink s j [] pos = absurd (omega (arith, pos))
count-unlink s j (b ∷ order) pos = elim (Bool-cases (b == s)) [
  | inl e ↦ rw (e, unlink) (ground (arith, ==→eq b s e))
  | inr e ↦
      let ih = count-unlink s j order (ground (arith, pos, e)) in rw (e, unlink) (omega (arith, ih))
]

-- A buffer that goes to the front.
pub front-IsOrder :
    (s : ℕ) (order : List ℕ) → IsOrder order → s < nbuf → IsOrder (s ∷ unlink s order)
unfolding count
front-IsOrder s order ok low =
    let same : (j : ℕ) → count j (s ∷ unlink s order) ≡ count j order =
      λ j. omega (arith, count-unlink s j order (omega (arith, ok.0 s low))) in
    (λ j h. omega (arith, same j, ok.0 j h), λ j h. omega (arith, same j, ok.1 j h))

count-binit_from :
    (left b j : ℕ) (order : List ℕ)
    → count j (binit_from left b order)
      ≡ count j order + (if leb b j && ltb j (b + left) then 1 else 0)
unfolding binit_from count
count-binit_from zero b j order = ground arith
count-binit_from (suc left) b j order = ground (arith, count-binit_from left (b + 1) j (b ∷ order))

-- `binit` puts each buffer in the list once.
pub binit-IsOrder : IsOrder (binit_from nbuf 0 [])
unfolding count
binit-IsOrder = (
  λ j h. ground (arith, count-binit_from nbuf 0 j [], h),
  λ j h. ground (arith, count-binit_from nbuf 0 j [], h),
)
