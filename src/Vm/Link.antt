-- ===== src/Vm/Link.antt =====
-- A walk that takes a page for a table changes no entry of any address.
use cuhksz_operating_system.Prelude.{
  ℕ, zero, suc, ◌+◌, ◌*◌, ◌%◌, ◌<◌, ◌≡◌, ◌≢◌, ◌⊎◌, inl, inr, refl, sym, ap, ◌∙◌, subst, Bool, true,
  false, none, some, List, [], ◌∷◌, ◌==◌, if◌then◌else◌, arith, Bool-cases, ==→eq, ==→ne, eq→==,
  ne→==,
}
use cuhksz_operating_system.Vm.{
  Memory, px, is_valid, pte2page, table_pte, set_pte, clear_page, new_table,
}
use cuhksz_operating_system.Vm.Tree.{
  Labels, Unlabelled, Absent, Distinct, IsTree, entry, same_level, px_bound, entry_step,
  entry_missing, entry_next, entry_empty,
}

pub same_or_not : (j s : ℕ) → (j ≡ s) ⊎ (j ≢ s)
same_or_not j s = elim (Bool-cases (j == s)) [
  | inl e ↦ inl (==→eq j s e)
  | inr e ↦ inr (==→ne j s e)
]

module _ (t i e : ℕ) (m : Memory) where
  pub at_pte : (set_pte t i e m).pte t i ≡ e
  at_pte = rw (eq→== t t refl, eq→== i i refl) refl

  pub off_pte : (u j : ℕ) → (u ≢ t) ⊎ (j ≢ i) → (set_pte t i e m).pte u j ≡ m.pte u j
  off_pte u j (inl h) = rw (ne→== u t h) refl
  off_pte u j (inr h) = elim (Bool-cases (u == t)) [
    | inl z ↦ rw (z, ne→== j i h) refl
    | inr z ↦ rw z refl
  ]

module _ (lab : Labels) (m : Memory) (v : IsTree lab m) (t level n i p : ℕ) (rest : List ℕ)
    (at : lab t ≡ some (suc level, n)) (low : i < 512) (pages : m.free ≡ p ∷ rest)
    (missing : is_valid (m.pte t i) ≡ false) where
  -- The labels with the new table.
  pub more : Labels
  more u = if u == p then some (level, n * 512 + i) else lab u

  fresh : lab p ≡ none
  fresh = (subst (Unlabelled lab) pages v.unlabelled).0

  no_table : {x : ℕ × ℕ} → none ≡ some x → ⊥
  no_table h = ground (arith, h)

  pub old_table : (u : ℕ) {x : ℕ × ℕ} → lab u ≡ some x → u ≢ p
  old_table u h z = no_table (sym fresh ∙ ap lab (sym z) ∙ h)

  pub more_old : (u : ℕ) {x : ℕ × ℕ} → lab u ≡ some x → more u ≡ some x
  unfolding more
  more_old u h = rw (ne→== u p (old_table u h)) h

  pub more_new : more p ≡ some (level, n * 512 + i)
  unfolding more
  more_new = rw (eq→== p p refl) refl

  more_off : (u : ℕ) → u ≢ p → more u ≡ lab u
  unfolding more
  more_off u ne = rw (ne→== u p ne) refl

  new_empty : (j : ℕ) → (new_table t i p rest m).pte p j ≡ 0
  new_empty j =
      off_pte t i (table_pte p) (clear_page p (record m { free = rest })) p j
        (inl (λ z. old_table t at (sym z)))
      ∙ rw (eq→== p p refl) refl

  new_same : (u j : ℕ) → u ≢ p → (u ≢ t) ⊎ (j ≢ i) → (new_table t i p rest m).pte u j ≡ m.pte u j
  new_same u j ne other =
      off_pte t i (table_pte p) (clear_page p (record m { free = rest })) u j other
      ∙ rw (ne→== u p ne) refl

  pub new_entry : (new_table t i p rest m).pte t i ≡ table_pte p
  new_entry = at_pte t i (table_pte p) (clear_page p (record m { free = rest }))

  pub leads_to : (e : ℕ) → e ≡ table_pte p → (is_valid e ≡ true) × (pte2page e ≡ p)
  leads_to e h = (eq→== (e % 2) 1 (omega (arith, h)), omega (arith, h))

  -- An entry is the new one, or was there.
  which : (u j : ℕ) → ((u ≡ t) × (j ≡ i)) ⊎ ((u ≢ t) ⊎ (j ≢ i))
  which u j = elim (same_or_not u t) [
    | inl e ↦ elim (same_or_not j i) [ inl e' ↦ inl (e, e') | inr e' ↦ inr (inr e') ]
    | inr e ↦ inr (inl e)
  ]

  Unlabelled-more :
      (pages' : List ℕ) → Absent p pages' → Unlabelled lab pages' → Unlabelled more pages'
  Unlabelled-more [] a u = tt
  Unlabelled-more (q ∷ pages') a u =
      (more_off q (λ z. a.0 (sym z)) ∙ u.0, Unlabelled-more pages' a.1 u.1)

  empty_bad : (u j : ℕ) → u ≡ p → is_valid ((new_table t i p rest m).pte u j) ≡ true → ⊥
  empty_bad u j z ok = not_valid _ (ap (λ x. (new_table t i p rest m).pte x j) z ∙ new_empty j) ok
    where
      not_valid : (e : ℕ) → e ≡ 0 → is_valid e ≡ true → ⊥
      not_valid e h ok' = omega (arith, h, ==→eq (e % 2) 1 ok')

  pub new_table-IsTree : IsTree more (new_table t i p rest m)
  new_table-IsTree = record {
    child = λ u l k j is_table low_j ok.
        let old : u ≢ p → lab u ≡ some (suc l, k) = λ ne. sym (more_off u ne) ∙ is_table in
        elim (same_or_not u p) [
          | inl z ↦ absurd (empty_bad u j z ok)
          | inr z ↦ elim (which u j) [
            | inl h ↦
                let is_p =
                  (leads_to _ (
                    ap (λ x. (new_table t i p rest m).pte x j) h.0
                    ∙ ap ((new_table t i p rest m).pte t) h.1
                    ∙ new_entry)).1 in
                let same = same_level at (ap lab (sym h.0) ∙ old z) in
                ap more is_p
                ∙ more_new
                ∙ ap (λ x. some (x, n * 512 + i)) (omega (arith, same.0))
                ∙ ap (λ x. some (l, x)) (omega (arith, same.1, h.1))
            | inr h ↦
                let same = new_same u j z h in
                ap (λ x. more (pte2page x)) same
                ∙ more_old _ (v.child u l k j (old z) low_j (ap is_valid (sym same) ∙ ok))
          ]
        ];
    unlabelled =
        Unlabelled-more rest (subst Distinct pages v.distinct).0
          (subst (Unlabelled lab) pages v.unlabelled).1;
    distinct = (subst Distinct pages v.distinct).1;
  }

  -- No address has another entry.
  pub entry-new_table :
      (l u k va : ℕ) → lab u ≡ some (l, k) → entry l u va (new_table t i p rest m) ≡ entry l u va m
  unfolding entry
  entry-new_table zero u k va is_table =
      new_same u (px 0 va) (old_table u is_table)
        (inl (λ z. absurd (omega (arith, (same_level (ap lab (sym z) ∙ is_table) at).0))))
  entry-new_table (suc l) u k va is_table =
      let j = px (suc l) va in
      elim (which u j) [
        | inl h ↦
            let e : (new_table t i p rest m).pte u j ≡ table_pte p =
              ap (λ x. (new_table t i p rest m).pte x j) h.0
              ∙ ap ((new_table t i p rest m).pte t) h.1
              ∙ new_entry in
            let gone : is_valid (m.pte u j) ≡ false =
              ap (λ x. is_valid (m.pte x j)) h.0 ∙ ap (λ x. is_valid (m.pte t x)) h.1 ∙ missing in
            entry_next l u va (new_table t i p rest m) (leads_to _ e).0
            ∙ ap (λ x. entry l x va (new_table t i p rest m)) (leads_to _ e).1
            ∙ entry_empty l p va (new_table t i p rest m) new_empty
            ∙ sym (entry_missing l u va m gone)
        | inr h ↦
            entry_step l u va m (new_table t i p rest m) (new_same u j (old_table u is_table) h)
              (λ ok. entry-new_table l _ _ va (v.child u l k j is_table (px_bound (suc l) va) ok))
      ]

  -- An entry that was there stays.
  pub kept_entry :
      (u j : ℕ) {x : ℕ × ℕ}
      → lab u ≡ some x
      → is_valid (m.pte u j) ≡ true
      → (new_table t i p rest m).pte u j ≡ m.pte u j
  kept_entry u j h ok = elim (which u j) [
    | inl z ↦ absurd (
        clash _ (ap (λ x. is_valid (m.pte x j)) z.0 ∙ ap (λ x. is_valid (m.pte t x)) z.1 ∙ missing)
          ok)
    | inr z ↦ new_same u j (old_table u h) z
  ]
    where
      clash : (b : Bool) → b ≡ false → b ≡ true → ⊥
      clash b e e' = ground (arith, e, e')
