-- ===== src/Vm/Walk.antt =====
-- `walk` of vm.c finds the entry of an address, and makes the tables that are missing on the way.
use cuhksz_operating_system.Prelude.{
  ℕ, zero, suc, ◌≡◌, ◌⊎◌, inl, inr, refl, sym, ap, ◌∙◌, subst, Bool, true, false, Option, none,
  some, List, [], ◌∷◌, arith, Bool-cases,
}
use cuhksz_operating_system.Vm.{
  Memory, shifted, px, is_valid, pte2page, pages_for, new_table, walk_from,
}
use cuhksz_operating_system.Vm.Tree.{
  Labels, IsTree, entry, Reaches, px_bound, split_bits, child_of, entry_missing, entry_next,
}
use cuhksz_operating_system.Vm.Link.{
  more, more_old, more_new, new_entry, leads_to, kept_entry, new_table-IsTree, entry-new_table,
}

-- What is found: no entry, and then the address has none and no page was left for a table; or one
-- that the tables lead to.
abbrev pub Found : Labels → Memory → ℕ → ℕ → ℕ → Bool → Option (ℕ × ℕ) → Memory → Type 0
Found labels m level t va alloc none m' = (entry level t va m ≡ 0) × (alloc ≡ true → m'.free ≡ [])
Found labels m level t va alloc (some (t₀, i)) m' =
    (i ≡ px 0 va) × (labels t₀ ≡ some (0, shifted 1 va)) × Reaches t₀ level t va m'

-- The tables that were there lead to the same entries as before.
pub record Walked (lab : Labels) (m : Memory) (level t va : ℕ) (alloc : Bool) (r : Option (ℕ × ℕ))
    (m' : Memory) : Type 0 where
  pub labels : Labels
  pub tree : IsTree labels m'
  pub old : (u : ℕ) (x : ℕ × ℕ) → lab u ≡ some x → labels u ≡ some x
  pub entries : (l u k va' : ℕ) → lab u ≡ some (l, k) → entry l u va' m' ≡ entry l u va' m
  pub kept :
      (u j : ℕ) (x : ℕ × ℕ) → lab u ≡ some x → is_valid (m.pte u j) ≡ true → m'.pte u j ≡ m.pte u j
  pub same : alloc ≡ false → m' ≡ m
  pub found : Found labels m level t va alloc r m'

List-cases : (l : List ℕ) → (l ≡ []) ⊎ ((p : ℕ) × (rest : List ℕ) × (l ≡ p ∷ rest))
List-cases [] = inl refl
List-cases (p ∷ rest) = inr (p, rest, refl)

module _ (level t va : ℕ) (alloc : Bool) (m : Memory)
    (bad : is_valid (m.pte t (px (suc level) va)) ≡ false) where
  walk_stop : pages_for alloc m ≡ [] → walk_from (suc level) t va alloc m ≡ (none, m)
  unfolding walk_from
  walk_stop e =
      rw (bad, walk_from)
        (ap
          (λ (l : List ℕ). elim l [
            | [] ↦ (none, m)
            | p ∷ rest ↦ walk_from level p va alloc (new_table t (px (suc level) va) p rest m)
          ])
          e)

  walk_link :
      (p : ℕ) (rest : List ℕ)
      → pages_for alloc m ≡ p ∷ rest
      → walk_from (suc level) t va alloc m
        ≡ walk_from level p va alloc (new_table t (px (suc level) va) p rest m)
  unfolding walk_from
  walk_link p rest e =
      rw (bad, walk_from)
        (ap
          (λ (l : List ℕ). elim l [
            | [] ↦ (none, m)
            | p' ∷ rest' ↦ walk_from level p' va alloc (new_table t (px (suc level) va) p' rest' m)
          ])
          e)

stays-Walked :
    (lab : Labels) (m : Memory) (level t va : ℕ) (alloc : Bool)
    → IsTree lab m
    → is_valid (m.pte t (px (suc level) va)) ≡ false
    → (alloc ≡ true → m.free ≡ [])
    → Walked lab m (suc level) t va alloc none m
stays-Walked lab m level t va alloc v missing over = record {
  labels = lab;
  tree = v;
  old = λ u x e. e;
  entries = λ l u k va' e. refl;
  kept = λ u j x e ok. refl;
  same = λ e. refl;
  found = (entry_missing level t va m missing, over);
}

-- The entry of the table leads to where the rest of the walk starts.
deeper-Found :
    (labels : Labels) (m m₁ m' : Memory) (level t va c : ℕ) (alloc : Bool) (r : Option (ℕ × ℕ))
    → m'.pte t (px (suc level) va) ≡ m₁.pte t (px (suc level) va)
    → is_valid (m₁.pte t (px (suc level) va)) ≡ true
    → pte2page (m₁.pte t (px (suc level) va)) ≡ c
    → entry (suc level) t va m ≡ entry level c va m₁
    → Found labels m₁ level c va alloc r m'
    → Found labels m (suc level) t va alloc r m'
unfolding Reaches
deeper-Found labels m m₁ m' level t va c alloc none kept ok leads e f = (e ∙ f.0, f.1)
deeper-Found labels m m₁ m' level t va c alloc (some x) kept ok leads e f = (
  f.0,
  f.1,
  (
    ap is_valid kept ∙ ok,
    subst (λ k. Reaches x.0 level k va m') (sym (ap pte2page kept ∙ leads)) f.2,
  ),
)

-- The loop of `walk`, from a table whose level and label fit the address, in a tree of tables: it
-- answers an entry of the address that the tables lead to, or 0, and then the address has no entry and,
-- if tables may be made, no page is free. The tables are a tree again, of the old tables and perhaps
-- new ones; every address has the entry that it had below each old table, and no valid entry of an
-- old table changes; nothing changes if no tables may be made.
pub walk_from-Walked :
    (level t va : ℕ) (alloc : Bool) (m : Memory) (lab : Labels)
    → IsTree lab m
    → lab t ≡ some (level, shifted (suc level) va)
    → (r : Option (ℕ × ℕ)) × (m' : Memory) × (walk_from level t va alloc m ≡ (r, m'))
      × Walked lab m level t va alloc r m'
unfolding walk_from Reaches
walk_from-Walked zero t va alloc m lab v at = (
  some (t, px 0 va),
  m,
  refl,
  record {
    labels = lab;
    tree = v;
    old = λ u x e. e;
    entries = λ l u k va' e. refl;
    kept = λ u j x e ok. refl;
    same = λ e. refl;
    found = (refl, at, refl);
  },
)
walk_from-Walked (suc level) t va alloc m lab v at =
    let i = px (suc level) va in
    elim (Bool-cases (is_valid (m.pte t i))) [
      | inl ok ↦
          let (r, m', e, w) =
            walk_from-Walked level (pte2page (m.pte t i)) va alloc m lab v
              (child_of level t va v at ok) in
          (
            r,
            m',
            rw (ok, walk_from) e,
            record {
              labels = w.labels;
              tree = w.tree;
              old = w.old;
              entries = w.entries;
              kept = w.kept;
              same = w.same;
              found =
                  deeper-Found w.labels m m m' level t va (pte2page (m.pte t i)) alloc r
                    (w.kept t i _ at ok) ok refl (entry_next level t va m ok) w.found;
            },
          )
      | inr bad ↦ elim (Bool-cases alloc) [
        | inr off ↦ (
          none,
          m,
          walk_stop level t va alloc m bad (rw off refl),
          stays-Walked lab m level t va alloc v bad (λ z. absurd (ground (arith, z, off))),
        )
        | inl on ↦ elim (List-cases m.free) [
          | inl e ↦ (
            none,
            m,
            walk_stop level t va alloc m bad (rw on e),
            stays-Walked lab m level t va alloc v bad (λ z. e),
          )
          | inr (p, rest, e) ↦
              let n = shifted (suc (suc level)) va in
              let low = px_bound (suc level) va in
              let m₁ = new_table t i p rest m in
              let lab₁ = more lab m v t level n i p rest at low e bad in
              let v₁ = new_table-IsTree lab m v t level n i p rest at low e bad in
              let leads =
                leads_to lab m v t level n i p rest at low e bad _
                  (new_entry lab m v t level n i p rest at low e bad) in
              let (r, m', q, w) = walk_from-Walked level p va alloc m₁ lab₁ v₁ (
                more_new lab m v t level n i p rest at low e bad
                ∙ ap (λ k. some (level, k)) (split_bits (suc level) va)) in
              (
                r,
                m',
                walk_link level t va alloc m bad p rest (rw on e) ∙ q,
                record {
                  labels = w.labels;
                  tree = w.tree;
                  old = λ u x h. w.old u x (more_old lab m v t level n i p rest at low e bad u h);
                  entries = λ l u k va' h.
                      w.entries l u k va' (more_old lab m v t level n i p rest at low e bad u h)
                      ∙ entry-new_table lab m v t level n i p rest at low e bad l u k va' h;
                  kept = λ u j x h ok.
                      let one = kept_entry lab m v t level n i p rest at low e bad u j h ok in
                      w.kept u j x (more_old lab m v t level n i p rest at low e bad u h)
                        (ap is_valid one ∙ ok)
                      ∙ one;
                  same = λ z. absurd (ground (arith, z, on));
                  found =
                      deeper-Found w.labels m m₁ m' level t va p alloc r
                        (w.kept t i _ (more_old lab m v t level n i p rest at low e bad t at)
                          leads.0)
                        leads.0 leads.1
                        (sym (
                            entry-new_table lab m v t level n i p rest at low e bad (suc level) t n
                              va at)
                          ∙ entry_next level t va m₁ leads.0
                          ∙ ap (λ k. entry level k va m₁) leads.1)
                        w.found;
                },
              )
        ]
      ]
    ]
