-- ===== src/Fs/Bmap/Grow.antt =====
-- A fresh block put at an empty place of the tree: the tree stays a tree, and no other place changes.
use cuhksz_operating_system.Prelude.{
  ℕ, ◌<◌, ◌≡◌, ◌≢◌, sym, ap, ◌∙◌, true, false, ◌||◌, ◌==◌, length, arith,
}
use mathlib.Core.Path.{subst}
use native.Mathlib.Decide.{ℕ_discrete}
use cuhksz_operating_system.Fs.Disk.{Superblock, Disk}
use cuhksz_operating_system.Fs.Inode.{Inode}
use cuhksz_operating_system.Fs.Blocks.{allocated}
use cuhksz_operating_system.Fs.Blocks.Alloc.{IsFormatted, free-ne-map}
use cuhksz_operating_system.Fs.Bmap.Tree.{Pos, InTree, ptr, IsTree}

pub Pos-discrete : Discrete Pos
Pos-discrete = hlevel ℕ_discrete

module _ (sb : Superblock) where
  -- Block `a`, free before, stands at the empty place `q`; no other place of the tree changes.
  pub record Adds (q : Pos) (a : ℕ) (ip : Inode) (d : Disk) (ip' : Inode) (d' : Disk) : Type 0 where
    pub in_range : a < sb.size
    pub was_free : allocated sb d a ≡ false
    pub bits : (b : ℕ) → b < sb.size → allocated sb d' b ≡ (a == b || allocated sb d b)
    pub len : length ip'.addrs ≡ 13
    pub at : ptr ip' d' q ≡ a
    pub others : (q' : Pos) → InTree q' → q' ≢ q → ptr ip' d' q' ≡ ptr ip d q'

  module _ (q : Pos) (a : ℕ) (ip : Inode) (d : Disk) (ip' : Inode) (d' : Disk) where
    -- A block of the tree is not the fresh one.
    fresh :
        (t : IsTree sb ip d) (g : Adds q a ip d ip' d') (q' : Pos)
        → InTree q'
        → ptr ip d q' ≢ 0
        → ptr ip d q' ≢ a
    fresh t g q' in_tree ne e = cc (t.used q' in_tree ne, g.was_free, ap (allocated sb d) e)

    module _ (t : IsTree sb ip d) (g : Adds q a ip d ip' d') where
      here : (q' : Pos) → q' ≡ q → ptr ip' d' q' ≡ a
      here q' e = ap (ptr ip' d') e ∙ g.at

      -- No other block has the fresh number.
      not_twice :
          (q₁ q₂ : Pos)
          → InTree q₂
          → q₁ ≡ q
          → q₂ ≢ q
          → ptr ip' d' q₁ ≢ 0
          → ptr ip' d' q₁ ≢ ptr ip' d' q₂
      not_twice q₁ q₂ in₂ e₁ n₂ ne e =
          let old : ptr ip' d' q₂ ≡ ptr ip d q₂ = g.others q₂ in₂ n₂ in
          fresh t g q₂ in₂ (λ z. ne (e ∙ old ∙ z)) (sym old ∙ sym e ∙ here q₁ e₁)

      apart' :
          (q₁ q₂ : Pos)
          → InTree q₁
          → InTree q₂
          → ptr ip' d' q₁ ≢ 0
          → ptr ip' d' q₁ ≡ ptr ip' d' q₂
          → q₁ ≡ q₂
      apart' q₁ q₂ in₁ in₂ ne e = elim (Pos-discrete q₁ q) [
        | yes e₁ ↦ elim (Pos-discrete q₂ q) [
          | yes e₂ ↦ e₁ ∙ sym e₂
          | no n₂ ↦ absurd (not_twice q₁ q₂ in₂ e₁ n₂ ne e)
        ]
        | no n₁ ↦ elim (Pos-discrete q₂ q) [
          | yes e₂ ↦ absurd (not_twice q₂ q₁ in₁ e₂ n₁ (λ z. ne (e ∙ z)) (sym e))
          | no n₂ ↦
              let old₁ : ptr ip' d' q₁ ≡ ptr ip d q₁ = g.others q₁ in₁ n₁ in
              let old₂ : ptr ip' d' q₂ ≡ ptr ip d q₂ = g.others q₂ in₂ n₂ in
              t.apart q₁ q₂ in₁ in₂ (λ z. ne (old₁ ∙ z)) (sym old₁ ∙ e ∙ old₂)
        ]
      ]

      used' : (q' : Pos) → InTree q' → ptr ip' d' q' ≢ 0 → allocated sb d' (ptr ip' d' q') ≡ true
      used' q' in_tree ne = elim (Pos-discrete q' q) [
        | yes e ↦ ap (allocated sb d') (here q' e) ∙ g.bits a g.in_range ∙ ground (arith)
        | no n ↦
            let old : ptr ip' d' q' ≡ ptr ip d q' = g.others q' in_tree n in
            ap (allocated sb d') old
            ∙ g.bits (ptr ip d q') (t.on_disk q' in_tree)
            ∙ ground (arith, t.used q' in_tree (λ z. ne (old ∙ z)))
      ]

      pub Adds-IsTree : IsFormatted sb d → IsTree sb ip' d'
      Adds-IsTree f = record {
        len = g.len;
        used = used';
        on_disk = λ q' in_tree. elim (Pos-discrete q' q) [
          | yes e ↦ subst (λ n. n < sb.size) (sym (here q' e)) g.in_range
          | no n ↦ subst (λ n. n < sb.size) (sym (g.others q' in_tree n)) (t.on_disk q' in_tree)
        ];
        off_map = λ q' b in_tree h ne e. elim (Pos-discrete q' q) [
          | yes eq ↦ free-ne-map sb a b d f h g.was_free (sym (sym (here q' eq) ∙ e))
          | no n ↦
              let old : ptr ip' d' q' ≡ ptr ip d q' = g.others q' in_tree n in
              t.off_map q' b in_tree h (λ z. ne (old ∙ z)) (sym old ∙ e)
        ];
        apart = apart';
      }
