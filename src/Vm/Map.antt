-- ===== src/Vm/Map.antt =====
-- An entry of the last level in a tree of tables: only the addresses of one page see it change.
use cuhksz_operating_system.Prelude.{
  ℕ, zero, suc, ◌+◌, ◌*◌, ◌/◌, ◌≤◌, ◌<◌, ◌≡◌, ◌≢◌, ◌⊎◌, inl, inr, refl, sym, ap, ◌∙◌, subst, Bool,
  true, false, some, [], leb, arith, Bool-cases,
}
use cuhksz_operating_system.Vm.{
  pgsize, maxva, Memory, shifted, px, is_valid, pte2page, set_pte, walk_from, walk, leaf_pte,
}
use cuhksz_operating_system.Vm.Tree.{
  Labels, IsTree, entry, Reaches, same_level, split_bits, child_of, entry-Reaches, entry_step,
}
use cuhksz_operating_system.Vm.Link.{at_pte, off_pte, same_or_not}

module _ (lab : Labels) (m : Memory) (v : IsTree lab m) (t₀ n₀ i₀ e : ℕ)
    (at₀ : lab t₀ ≡ some (0, n₀)) where
  -- A table above the last level is another one.
  above : (u l k : ℕ) → lab u ≡ some (suc l, k) → u ≢ t₀
  above u l k h z = absurd (omega (arith, (same_level (ap lab (sym z) ∙ h) at₀).0))

  pub set-IsTree : IsTree lab (set_pte t₀ i₀ e m)
  set-IsTree = record {
    child = λ t l n i h low ok.
        let same = off_pte t₀ i₀ e m t i (inl (above t l n h)) in
        ap (λ x. lab (pte2page x)) same ∙ v.child t l n i h low (ap is_valid (sym same) ∙ ok);
    unlabelled = v.unlabelled;
    distinct = v.distinct;
  }

  -- The entry of another page.
  pub entry-set_other :
      (l u va : ℕ)
      → lab u ≡ some (l, shifted (suc l) va)
      → shifted 0 va ≢ n₀ * 512 + i₀
      → entry l u va (set_pte t₀ i₀ e m) ≡ entry l u va m
  unfolding entry
  entry-set_other zero u va at other = elim (same_or_not u t₀) [
    | inr h ↦ off_pte t₀ i₀ e m u (px 0 va) (inl h)
    | inl h ↦ elim (same_or_not (px 0 va) i₀) [
      | inr h' ↦ off_pte t₀ i₀ e m u (px 0 va) (inr h')
      | inl h' ↦ absurd (
          other
            (sym (split_bits 0 va) ∙ omega (arith, h', (same_level (ap lab (sym h) ∙ at) at₀).1)))
    ]
  ]
  entry-set_other (suc l) u va at other =
      entry_step l u va m (set_pte t₀ i₀ e m)
        (off_pte t₀ i₀ e m u (px (suc l) va) (inl (above u l (shifted (suc (suc l)) va) at)))
        (λ ok.
          entry-set_other l (pte2page (m.pte u (px (suc l) va))) va (child_of l u va v at ok) other)

  Reaches-set :
      (l u va : ℕ)
      → lab u ≡ some (l, shifted (suc l) va)
      → Reaches t₀ l u va m
      → Reaches t₀ l u va (set_pte t₀ i₀ e m)
  unfolding Reaches
  Reaches-set zero u va at r = r
  Reaches-set (suc l) u va at r =
      let same =
        off_pte t₀ i₀ e m u (px (suc l) va) (inl (above u l (shifted (suc (suc l)) va) at)) in
      (
        ap is_valid same ∙ r.0,
        subst (λ x. Reaches t₀ l (pte2page x) va (set_pte t₀ i₀ e m)) (sym same)
            (Reaches-set l (pte2page (m.pte u (px (suc l) va))) va (child_of l u va v at r.0) r.1),
      )

  pub entry-set_own :
      (l u va : ℕ)
      → lab u ≡ some (l, shifted (suc l) va)
      → Reaches t₀ l u va m
      → i₀ ≡ px 0 va
      → entry l u va (set_pte t₀ i₀ e m) ≡ e
  entry-set_own l u va at r here =
      entry-Reaches t₀ l u va (set_pte t₀ i₀ e m) (Reaches-set l u va at r)
      ∙ ap ((set_pte t₀ i₀ e m).pte t₀) (sym here)
      ∙ at_pte t₀ i₀ e m

pub no_high_bits : (va : ℕ) → va < maxva → shifted 3 va ≡ 0
unfolding shifted
no_high_bits va low = omega (arith, low)

pub walk-some :
    (root va : ℕ) (alloc : Bool) (m : Memory)
    → va < maxva
    → walk root va alloc m ≡ some (walk_from 2 root va alloc m)
unfolding walk
walk-some root va alloc m low = elim (Bool-cases (leb maxva va)) [
  | inl e ↦ absurd (ground (arith, e, low))
  | inr e ↦ rw e refl
]

-- Outside of `k` pages from `a` on.
abbrev pub Outside : ℕ → ℕ → ℕ → Type 0
Outside a k va = (va / pgsize < a / pgsize) ⊎ (a / pgsize + k ≤ va / pgsize)

-- What mapping `left` pages from address `a` on leaves: `k` of them are mapped, all if the answer is
-- 0, and no page is free if it is -1.
pub record Mapped (root a page perm left : ℕ) (m : Memory) (answer : Bool) (m' : Memory) (k : ℕ)
    : Type 0 where
  pub labels : Labels
  pub tree : IsTree labels m'
  pub root_there : labels root ≡ some (2, 0)
  pub done : answer ≡ true → k ≡ left
  pub failed : answer ≡ false → (k < left) × (m'.free ≡ [])
  pub mapped : (j : ℕ) → j < k → entry 2 root (a + j * pgsize) m' ≡ leaf_pte (page + j) perm
  pub others : (va : ℕ) → va < maxva → Outside a k va → entry 2 root va m' ≡ entry 2 root va m

-- With the first page mapped, the others are the rest.
module _ (root a page perm left : ℕ) (m : Memory) (answer : Bool) (m₁ m' : Memory) (k : ℕ)
    (w : Mapped root (a + pgsize) (page + 1) perm left m₁ answer m' k) (low : a < maxva)
    (own : entry 2 root a m₁ ≡ leaf_pte page perm)
    (rest_same : (va : ℕ)
      → va < maxva
      → va / pgsize ≢ a / pgsize
      → entry 2 root va m₁ ≡ entry 2 root va m) where
  pub first-Mapped : Mapped root a page perm (suc left) m answer m' (suc k)
  first-Mapped = record {
    labels = w.labels;
    tree = w.tree;
    root_there = w.root_there;
    done = λ h. omega (arith, w.done h);
    failed = λ h. (omega (arith, (w.failed h).0), (w.failed h).1);
    mapped = λ j. by_place j;
    others = λ va low_va out. elim out [
      | inl h ↦
          w.others va low_va (inl (omega (arith, h)))
          ∙ rest_same va low_va (λ z. absurd (omega (arith, h, z)))
      | inr h ↦
          w.others va low_va (inr (omega (arith, h)))
          ∙ rest_same va low_va (λ z. absurd (omega (arith, h, z)))
    ];
  }
    where
      by_place : (j : ℕ) → j < suc k → entry 2 root (a + j * pgsize) m' ≡ leaf_pte (page + j) perm
      by_place zero h =
          ap (λ x. entry 2 root x m') (omega arith)
          ∙ w.others a low (inl (omega arith))
          ∙ own
          ∙ ap (λ x. leaf_pte x perm) (omega arith)
      by_place (suc j) h =
          ap (λ x. entry 2 root x m') (omega arith)
          ∙ w.mapped j (omega (arith, h))
          ∙ ap (λ x. leaf_pte x perm) (omega arith)
