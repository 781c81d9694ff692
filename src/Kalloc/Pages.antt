-- ===== src/Kalloc/Pages.antt =====
-- `kinit` of kalloc.c frees every page of the range, and pages that are given out stay apart.
use cuhksz_operating_system.Prelude.{
  ℕ, zero, suc, ◌+◌, ◌*◌, ◌/◌, ◌%◌, ◌≤◌, ◌<◌, ◌≡◌, ◌⊎◌, inl, inr, refl, some, List, [], ◌∷◌, leb,
  ◌==◌, arith, Bool-cases, ==→eq, ==→ne,
}
use cuhksz_operating_system.Kalloc.{Kmem, pgsize, round_up, freerange_from, freerange, kinit}
use cuhksz_operating_system.Kalloc.Chain.{Chain, Absent, IsPage, Pages, IsFree, kfree-IsFree}

pub Present : ℕ → List ℕ → Type 0
Present q [] = ⊥
Present q (p ∷ ps) = (q ≡ p) ⊎ Present q ps

AllBelow : ℕ → List ℕ → Type 0
AllBelow b [] = Unit
AllBelow b (p ∷ ps) = (p < b) × AllBelow b ps

below-Absent : (b : ℕ) (ps : List ℕ) → AllBelow b ps → Absent b ps
unfolding AllBelow Absent
below-Absent b [] h = tt
below-Absent b (p ∷ ps) h = (omega (arith, h.0), below-Absent b ps h.1)

AllBelow-mono : (b c : ℕ) (ps : List ℕ) → b ≤ c → AllBelow b ps → AllBelow c ps
unfolding AllBelow
AllBelow-mono b c [] le h = tt
AllBelow-mono b c (p ∷ ps) le h = (omega (arith, h.0), AllBelow-mono b c ps le h.1)

module _ (end phystop : ℕ) (positive : 0 < end) where
  -- What the loop has freed at the end.
  record Freed (p : ℕ) (ps ps' : List ℕ) (k' : Kmem) : Type 0 where
    is_free : IsFree end phystop k' ps'
    covers : (q : ℕ) → q % pgsize ≡ 0 → p ≤ q → q + pgsize ≤ phystop → Present q ps'
    keeps : (q : ℕ) → Present q ps → Present q ps'

  freerange_from-Freed :
      (left p : ℕ) (k : Kmem) (ps : List ℕ)
      → p % pgsize ≡ 0
      → end ≤ p
      → phystop < p + left * pgsize
      → IsFree end phystop k ps
      → AllBelow p ps
      → (k' : Kmem) × (ps' : List ℕ) × (freerange_from end phystop left p phystop k ≡ some k')
        × Freed p ps ps' k'
  unfolding freerange_from Present AllBelow
  freerange_from-Freed zero p k ps aligned low rounds f below = (
    k,
    ps,
    refl,
    record { is_free = f; covers = λ q a h h'. absurd (omega arith); keeps = λ q h. h },
  )
  freerange_from-Freed (suc left) p k ps aligned low rounds f below =
      elim (Bool-cases (leb (p + pgsize) phystop)) [
        | inr e ↦ (
          k,
          ps,
          rw (e, freerange_from) refl,
          record { is_free = f; covers = λ q a h h'. absurd (ground (arith, e)); keeps = λ q h. h },
        )
        | inl e ↦
            let page : IsPage end phystop p = (aligned, low, ground (arith, e)) in
            let r =
              (kfree-IsFree end phystop p k ps positive f).0 (page, below-Absent p ps below) in
            let ih =
              freerange_from-Freed left (p + pgsize) r.0 (p ∷ ps) (omega arith) (omega arith)
                (omega arith) r.2
                (omega arith, AllBelow-mono p (p + pgsize) ps (omega arith) below) in
            (
              ih.0,
              ih.1,
              rw (e, r.1, freerange_from) ih.2,
              record {
                is_free = ih.3.is_free;
                covers = λ q a h h'. elim (Bool-cases (q == p)) [
                  | inl e' ↦ ih.3.keeps q (inl (==→eq q p e'))
                  | inr e' ↦ ih.3.covers q a (omega (arith, ==→ne q p e')) h'
                ];
                keeps = λ q h. ih.3.keeps q (inr h);
              },
            )
      ]

  -- From an empty list, and with kernel code in front of the range: `kinit` does not panic, and the
  -- free pages are distinct pages of the range, with each page in it that ends at `phystop` or below.
  pub kinit-IsFree :
      (k : Kmem)
      → k.freelist ≡ 0
      → (k' : Kmem) × (ps : List ℕ) × (kinit end phystop k ≡ some k')
        × IsFree end phystop k' ps
        × ((q : ℕ) → IsPage end phystop q → q + pgsize ≤ phystop → Present q ps)
  unfolding kinit freerange AllBelow Chain Pages
  kinit-IsFree k e =
      let r =
        freerange_from-Freed (phystop / pgsize + 1) (round_up end) k [] (omega arith) (omega arith)
          (omega arith) (record { chain = e; pages = tt }) tt in
      (r.0, r.1, r.2, r.3.is_free, λ q h fits. r.3.covers q h.0 (omega (arith, h.0, h.1)) fits)
