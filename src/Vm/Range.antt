-- ===== src/Vm/Range.antt =====
-- `mappages` and `walkaddr` of vm.c: the pages that are mapped are found, and no other address changes.
use cuhksz_operating_system.Prelude.{
  ℕ, zero, suc, ◌+◌, ◌*◌, ◌/◌, ◌≤◌, ◌<◌, ◌≡◌, ◌≢◌, refl, sym, ap, ◌∙◌, Bool, true, false, Option,
  none, some, arith,
}
use cuhksz_operating_system.Vm.{
  pgsize, maxva, Memory, shifted, px, is_valid, set_pte, walk, leaf_pte, map_from,
}
use cuhksz_operating_system.Vm.Tree.{Labels, IsTree, entry, split_bits, entry-Reaches}
use cuhksz_operating_system.Vm.Walk.{Walked, walk_from-Walked}
use cuhksz_operating_system.Vm.Map.{
  set-IsTree, entry-set_other, entry-set_own, no_high_bits, walk-some, Mapped, first-Mapped,
}

-- The root as the walk for an address meets it.
pub root_at :
    (labels : Labels) (root va : ℕ)
    → labels root ≡ some (2, 0)
    → va < maxva
    → labels root ≡ some (2, shifted 3 va)
root_at labels root va h low = h ∙ ap (λ k. some (2, k)) (sym (no_high_bits va low))

same_page : (a va : ℕ) → shifted 0 va ≡ shifted 1 a * 512 + px 0 a → va / pgsize ≡ a / pgsize
unfolding shifted
same_page a va h = h ∙ split_bits 0 a

-- No page from `a` on is mapped yet.
abbrev pub Unmapped : ℕ → ℕ → ℕ → Memory → Type 0
Unmapped left root a m = (j : ℕ) → j < left → is_valid (entry 2 root (a + j * pgsize) m) ≡ false

abbrev Maps : ℕ → ℕ → ℕ → ℕ → ℕ → Memory → Type 0
Maps left root a page perm m =
    (answer : Bool) × (m' : Memory) × (k : ℕ) × (map_from left root a page perm m
      ≡ some (answer, m'))
    × Mapped root a page perm left m answer m' k

pub map_from-Mapped :
    (left root a page perm : ℕ) (m : Memory) (lab : Labels)
    → IsTree lab m
    → lab root ≡ some (2, 0)
    → a + left * pgsize ≤ maxva
    → Unmapped left root a m
    → Maps left root a page perm m
unfolding map_from
map_from-Mapped zero root a page perm m lab v at low unmapped = (
  true,
  m,
  0,
  refl,
  record {
    labels = lab;
    tree = v;
    root_there = at;
    done = λ h. refl;
    failed = λ h. absurd (ground (arith, h));
    mapped = λ j h. absurd (omega (arith, h));
    others = λ va low_va out. refl;
  },
)
map_from-Mapped (suc left) root a page perm m lab v at low unmapped =
    let low_a : a < maxva = omega (arith, low) in
    let at_a = root_at lab root a at low_a in
    let (r, m₁, q, w) = walk_from-Walked 2 root a true m lab v at_a in
    let start : walk root a true m ≡ some (r, m₁) = walk-some root a true m low_a ∙ ap some q in
    by_slot r m₁ start w (λ m₂ labels v₂ root_there.
      map_from-Mapped left root (a + pgsize) (page + 1) perm m₂ labels v₂ root_there
        (omega (arith, low)))
  where
    by_slot :
        (r : Option (ℕ × ℕ)) (m₁ : Memory)
        → walk root a true m ≡ some (r, m₁)
        → Walked lab m 2 root a true r m₁
        → ((m₂ : Memory) (labels : Labels)
            → IsTree labels m₂
            → labels root ≡ some (2, 0)
            → Unmapped left root (a + pgsize) m₂
            → Maps left root (a + pgsize) (page + 1) perm m₂)
        → Maps (suc left) root a page perm m
    by_slot none m₁ start w next = (
      false,
      m₁,
      0,
      unfold map_from in rw (start, map_from) refl,
      record {
        labels = w.labels;
        tree = w.tree;
        root_there = w.old root (2, 0) at;
        done = λ h. absurd (ground (arith, h));
        failed = λ h. (omega arith, w.found.1 refl);
        mapped = λ j h. absurd (omega (arith, h));
        others = λ va low_va out. w.entries 2 root 0 va at;
      },
    )
    by_slot (some (t, i)) m₁ start w next =
        let low_a : a < maxva = omega (arith, low) in
        let here = w.found.0 in
        let leaf = w.found.1 in
        let e = leaf_pte page perm in
        let m₂ = set_pte t i e m₁ in
        let v₂ = set-IsTree w.labels m₁ w.tree t (shifted 1 a) i e leaf in
        let root_there = w.old root (2, 0) at in
        let found : m₁.pte t i ≡ entry 2 root a m₁ =
          ap (m₁.pte t) here ∙ sym (entry-Reaches t 2 root a m₁ w.found.2) in
        let unused : is_valid (m₁.pte t i) ≡ false =
          ap is_valid (found ∙ w.entries 2 root 0 a at ∙ ap (λ x. entry 2 root x m) (omega arith))
          ∙ unmapped 0 (omega arith) in
        let own =
          entry-set_own w.labels m₁ w.tree t (shifted 1 a) i e leaf 2 root a
            (root_at w.labels root a root_there low_a) w.found.2 here in
        let rest_same : (va : ℕ)
            → va < maxva
            → va / pgsize ≢ a / pgsize
            → entry 2 root va m₂ ≡ entry 2 root va m =
          λ va low_va ne.
            entry-set_other w.labels m₁ w.tree t (shifted 1 a) i e leaf 2 root va
              (root_at w.labels root va root_there low_va)
              (λ z. ne (same_page a va (z ∙ ap (λ x. shifted 1 a * 512 + x) here)))
            ∙ w.entries 2 root 0 va at in
        let ih = next m₂ w.labels v₂ root_there (λ j h.
          ap is_valid (
            rest_same (a + pgsize + j * pgsize) (omega (arith, low, h))
              (λ z. absurd (omega (arith, z)))
            ∙ ap (λ x. entry 2 root x m) (omega arith))
          ∙ unmapped (suc j) (omega (arith, h))) in
        (
          ih.0,
          ih.1,
          suc ih.2,
          (unfold map_from in rw (start, map_from) (rw (unused) refl)) ∙ ih.3,
          first-Mapped root a page perm left m ih.0 m₂ ih.1 ih.2 ih.4 low_a own rest_same,
        )
