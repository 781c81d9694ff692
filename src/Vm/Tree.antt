-- ===== src/Vm/Tree.antt =====
-- The tables below a root form a tree: each has a level and the bits of the addresses that lead to it.
use cuhksz_operating_system.Prelude.{
  ℕ, zero, suc, ◌+◌, ◌*◌, ◌<◌, ◌≡◌, ◌≢◌, inl, inr, refl, sym, ap, ◌∙◌, true, false, Option, none,
  some, List, [], ◌∷◌, if◌then◌else◌, arith, Bool-cases,
}
use cuhksz_operating_system.Vm.{Memory, shifted, px, is_valid, pte2page}

-- The level of a table, and the number that the bits above its index form.
abbrev pub Labels : Type 0
Labels = ℕ → Option (ℕ × ℕ)

abbrev pub Unlabelled : Labels → List ℕ → Type 0
Unlabelled lab [] = Unit
Unlabelled lab (p ∷ rest) = (lab p ≡ none) × Unlabelled lab rest

abbrev pub Absent : ℕ → List ℕ → Type 0
Absent p [] = Unit
Absent p (q ∷ rest) = (p ≢ q) × Absent p rest

abbrev pub Distinct : List ℕ → Type 0
Distinct [] = Unit
Distinct (p ∷ rest) = Absent p rest × Distinct rest

-- An entry of a table leads to the table of the next bits, and free pages are no tables.
pub record IsTree (lab : Labels) (m : Memory) : Type 0 where
  pub child :
      (t level n i : ℕ)
      → lab t ≡ some (suc level, n)
      → i < 512
      → is_valid (m.pte t i) ≡ true
      → lab (pte2page (m.pte t i)) ≡ some (level, n * 512 + i)
  pub unlabelled : Unlabelled lab m.free
  pub distinct : Distinct m.free

-- The entry of an address, 0 if a table is missing.
unfoldable pub entry : ℕ → ℕ → ℕ → Memory → ℕ
entry zero t va m = m.pte t (px 0 va)
entry (suc level) t va m =
    let e = m.pte t (px (suc level) va) in
    let next = entry level (pte2page e) va m in if is_valid e then next else 0

-- The tables of an address down to table `t₀` are there.
unfoldable pub Reaches : ℕ → ℕ → ℕ → ℕ → Memory → Type 0
Reaches t₀ zero t va m = t ≡ t₀
Reaches t₀ (suc level) t va m =
    let e = m.pte t (px (suc level) va) in (is_valid e ≡ true) × Reaches t₀ level (pte2page e) va m

pub same_level :
    {o : Option (ℕ × ℕ)} {l n l' n' : ℕ} → o ≡ some (l, n) → o ≡ some (l', n') → (l ≡ l') × (n ≡ n')
same_level e e' = (
  ap (λ (x : Option (ℕ × ℕ)). elim x [ none ↦ 0 | some y ↦ y.0 ]) (sym e ∙ e'),
  ap (λ (x : Option (ℕ × ℕ)). elim x [ none ↦ 0 | some y ↦ y.1 ]) (sym e ∙ e'),
)

pub px_bound : (level va : ℕ) → px level va < 512
px_bound level va = omega arith

-- The bits above an index and the index give the bits above the next one.
pub split_bits : (level va : ℕ) → shifted (suc level) va * 512 + px level va ≡ shifted level va
unfolding shifted
split_bits level va = omega arith

pub child_of :
    {lab : Labels} {m : Memory} (level t va : ℕ)
    → IsTree lab m
    → lab t ≡ some (suc level, shifted (suc (suc level)) va)
    → is_valid (m.pte t (px (suc level) va)) ≡ true
    → lab (pte2page (m.pte t (px (suc level) va))) ≡ some (level, shifted (suc level) va)
child_of {lab = lab} {m = m} level t va v at ok =
    v.child t level (shifted (suc (suc level)) va) (px (suc level) va) at (px_bound (suc level) va)
      ok
    ∙ ap (λ k. some (level, k)) (split_bits (suc level) va)

-- The entry of an address whose tables are there.
pub entry-Reaches :
    (t₀ level t va : ℕ) (m : Memory)
    → Reaches t₀ level t va m
    → entry level t va m ≡ m.pte t₀ (px 0 va)
unfolding entry Reaches
entry-Reaches t₀ zero t va m r = ap (λ k. m.pte k (px 0 va)) r
entry-Reaches t₀ (suc level) t va m r = rw (r.0, entry) (entry-Reaches t₀ level _ va m r.1)

-- Two memories that agree on an entry and below it.
pub entry_step :
    (level u va : ℕ) (m m' : Memory)
    → m'.pte u (px (suc level) va) ≡ m.pte u (px (suc level) va)
    → (is_valid (m.pte u (px (suc level) va)) ≡ true
        → entry level (pte2page (m.pte u (px (suc level) va))) va m'
          ≡ entry level (pte2page (m.pte u (px (suc level) va))) va m)
    → entry (suc level) u va m' ≡ entry (suc level) u va m
unfolding entry
entry_step level u va m m' same below = elim (Bool-cases (is_valid (m.pte u (px (suc level) va)))) [
  | inl e ↦ rw (same, entry) (rw (e, entry) (below e))
  | inr e ↦ rw (same, entry) (rw (e, entry) refl)
]

-- A missing entry, and one that leads on.
pub entry_missing :
    (level u va : ℕ) (m : Memory)
    → is_valid (m.pte u (px (suc level) va)) ≡ false
    → entry (suc level) u va m ≡ 0
unfolding entry
entry_missing level u va m e = rw (e, entry) refl

pub entry_next :
    (level u va : ℕ) (m : Memory)
    → is_valid (m.pte u (px (suc level) va)) ≡ true
    → entry (suc level) u va m ≡ entry level (pte2page (m.pte u (px (suc level) va))) va m
unfolding entry
entry_next level u va m e = rw (e, entry) refl

-- All entries of an empty table are missing.
pub entry_empty : (level p va : ℕ) (m : Memory) → ((j : ℕ) → m.pte p j ≡ 0) → entry level p va m ≡ 0
unfolding entry
entry_empty zero p va m empty = empty (px 0 va)
entry_empty (suc level) p va m empty =
    entry_missing level p va m (ap is_valid (empty (px (suc level) va)))
