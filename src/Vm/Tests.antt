-- ===== src/Vm/Tests.antt =====
-- A root table without entries, in page 7.
use cuhksz_operating_system.Prelude.{
  ℕ, ◌+◌, ◌*◌, ◌/◌, ◌<◌, ◌≡◌, refl, ap, Bool, true, false, Option, none, some, [], ◌∷◌, ◌==◌,
  if◌then◌else◌, arith,
}
use cuhksz_operating_system.Vm.{
  pgsize, maxva, Memory, round_down, mappages, walkaddr, map_from, walk, walk_from, shifted,
  is_valid,
}
use cuhksz_operating_system.Vm.Tree.{IsTree, Labels, entry_empty}
use cuhksz_operating_system.Vm.Map.{Outside}
use cuhksz_operating_system.Vm.Lookup.{pages, mappages-walkaddr}

abbrev new_memory : Memory
new_memory = record { pte = λ t i. 0; free = 20 ∷ 21 ∷ 22 ∷ [] }

abbrev labels : Labels
labels t = if t == 7 then some (2, 0) else none

new_memory-IsTree : IsTree labels new_memory
new_memory-IsTree = record {
  child = λ t level n i h low ok. absurd (ground (arith, ok));
  unlabelled = (refl, (refl, (refl, tt)));
  distinct = (
    (λ h. ground (arith, h), (λ h. ground (arith, h), tt)),
    ((λ h. ground (arith, h), tt), (tt, tt)),
  );
}

abbrev found : ℕ → Option (Bool × Memory) → Option ℕ
found va none = none
found va (some (answer, m)) = walkaddr 7 va m

-- Two pages from 0x5000 on go to pages 90 and 91; the flags are R and U.
found_second : found 0x6abc (mappages 7 0x5000 8192 90 18 new_memory) ≡ some 91
unfolding mappages walkaddr map_from walk walk_from shifted
found_second = refl

found_outside : found 0x7abc (mappages 7 0x5000 8192 90 18 new_memory) ≡ none
unfolding mappages walkaddr map_from walk walk_from shifted
found_outside = refl

mappages-walkaddr_example :
    (answer : Bool) × (m' : Memory) × (mappages 7 0x5000 8192 90 18 new_memory ≡ some (answer, m'))
    × (answer ≡ true
        → (j x : ℕ) → j < pages 0x5000 8192
        → x / pgsize ≡ 0x5000 / pgsize + j
        → walkaddr 7 x m' ≡ some (90 + j))
    × (answer ≡ false → m'.free ≡ [])
    × ((x : ℕ)
        → x < maxva
        → Outside (round_down 0x5000) (pages 0x5000 8192) x
        → walkaddr 7 x m' ≡ walkaddr 7 x new_memory)
    × ((labels' : Labels) × IsTree labels' m')
mappages-walkaddr_example =
    mappages-walkaddr labels 7 0x5000 8192 90 18 new_memory new_memory-IsTree refl (omega arith)
      refl (λ h. ground (arith, h)) (omega arith)
      (λ j h. ap is_valid (entry_empty 2 7 (round_down 0x5000 + j * pgsize) new_memory (λ i. refl)))
