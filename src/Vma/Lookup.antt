-- ===== src/Vma/Lookup.antt =====
-- A slot of Assignment3/source/sysfile.c that was free is found again by its addresses.
use cuhksz_operating_system.Prelude.{
  ℕ, zero, suc, ◌+◌, ◌*◌, ◌≤◌, ◌<◌, ◌≡◌, refl, ap, ◌⊎◌, inl, inr, some, ◌==◌, arith, Bool-cases,
  ==→eq, ==→ne, eq→==,
}
use cuhksz_operating_system.Vma.{
  Vma, vmasize, pgsize, starting_address, vma_searching_from, vma_searching, set_vma, find_vma_from,
  find_vma,
}

-- Every slot has its own place, or was never set.
unfoldable pub IsPlaced : (ℕ → Vma) → Type 0
IsPlaced vma =
    (j : ℕ)
    → j < vmasize
    → ((vma j).mapped_starting_address ≡ starting_address j) ⊎ ((vma j).mapped_starting_address ≡ 0)

vma_searching-some :
    (left i k : ℕ) (vma : ℕ → Vma)
    → vma_searching_from left i vma ≡ some k
    → (i ≤ k) × (k < i + left)
unfolding vma_searching_from
vma_searching-some zero i k vma e = ground (arith, e)
vma_searching-some (suc left) i k vma e = ground (arith, e, vma_searching-some left (i + 1) k vma)

find_vma-placed :
    (va left i k : ℕ) (vma : ℕ → Vma)
    → IsPlaced vma
    → i ≤ k
    → k < i + left
    → i + left ≤ vmasize
    → (vma k).mapped_starting_address ≡ starting_address k
    → starting_address k ≤ va
    → va < starting_address k + 8 * pgsize
    → find_vma_from va left i vma ≡ some k
unfolding find_vma_from IsPlaced
find_vma-placed va zero i k vma p low high fits at above below = absurd (omega arith)
find_vma-placed va (suc left) i k vma p low high fits at above below = elim (Bool-cases (k == i)) [
  | inl e ↦
      let e' = ==→eq k i e in
      let here = ap (λ j. (vma j).mapped_starting_address) e' in
      ground (arith, here, at, above, below, e')
  | inr e ↦
      let rest =
        find_vma-placed va left (i + 1) k vma p (omega (arith, ==→ne k i e)) (omega arith)
          (omega arith) at above below in
      ground (arith, rest, p i (omega arith), ==→ne k i e)
]

set_vma-IsPlaced :
    (i length flags shared offset file : ℕ) (vma : ℕ → Vma)
    → IsPlaced vma
    → IsPlaced (set_vma i length flags shared offset file vma)
unfolding IsPlaced
set_vma-IsPlaced i length flags shared offset file vma p j h = ground (arith, p j h, ==→eq j i)

-- In slots that each have their own place or were never set: when `vma_searching` answers a slot and
-- `set_vma` sets it, the slots are again so placed, and every address in the eight pages from the
-- slot's start is found to be that slot's.
pub mapped_is_found :
    (length flags shared offset file i va : ℕ) (vma : ℕ → Vma)
    → IsPlaced vma
    → vma_searching vma ≡ some i
    → starting_address i ≤ va
    → va < starting_address i + 8 * pgsize
    → IsPlaced (set_vma i length flags shared offset file vma)
      × (find_vma va (set_vma i length flags shared offset file vma) ≡ some i)
mapped_is_found length flags shared offset file i va vma p e above below =
    let q = set_vma-IsPlaced i length flags shared offset file vma p in
    let s = vma_searching-some vmasize 0 i vma e in
    (
      q,
      find_vma-placed va vmasize 0 i _ q (omega arith) (omega (arith, s.1)) (omega arith)
          (rw (eq→== i i refl) refl) above below,
    )
