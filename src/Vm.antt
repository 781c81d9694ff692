-- ===== src/Vm.antt =====
-- Page tables: the walk of Assignment3/initial_code/kernel/vm.c and the functions that map
-- pages with it. A page of physical memory is its number (the address by PGSIZE); of a page that is
-- used as a table, memory has the 512 entries. An entry is a page number times 2^10 plus flags. The
-- free pages are a list, whose first one `kalloc` gives; Kalloc has the list inside the pages.
pub mod Tree
pub mod Link
pub mod Walk
pub mod Map
pub mod Range
pub mod Lookup
mod Tests
use cuhksz_operating_system.Prelude.{
  ℕ, zero, suc, ◌+◌, ◌-◌, ◌*◌, ◌/◌, ◌%◌, ◌^◌, Bool, true, false, not, ◌&&◌, Option, none, some,
  List, [], ◌∷◌, ltb, leb, ◌==◌, if◌then◌else◌,
}

-- PGSIZE and MAXVA
abbrev pub pgsize : ℕ
pgsize = 4096

abbrev pub maxva : ℕ
maxva = 2 ^ 38

pub record Memory : Type 0 where
  pub pte : ℕ → ℕ → ℕ
  pub free : List ℕ

-- PX(level, va): `va >> 12`, then `>> 9` for each level, and the low nine bits.
unfoldable pub shifted : ℕ → ℕ → ℕ
shifted zero va = va / pgsize
shifted (suc level) va = shifted level va / 512

abbrev pub px : ℕ → ℕ → ℕ
px level va = shifted level va % 512

-- `*pte & PTE_V`, the page number of PTE2PA, and `PA2PTE(pa) | PTE_V`
abbrev pub is_valid : ℕ → Bool
is_valid e = e % 2 == 1

abbrev pub pte2page : ℕ → ℕ
pte2page e = e / 1024

abbrev pub table_pte : ℕ → ℕ
table_pte page = page * 1024 + 1

abbrev pub set_pte : ℕ → ℕ → ℕ → Memory → Memory
set_pte t i e m = record m {
  pte = λ u j. if u == t then (if j == i then e else m.pte u j) else m.pte u j;
}

-- `memset(pagetable, 0, PGSIZE)`
abbrev pub clear_page : ℕ → Memory → Memory
clear_page p m = record m { pte = λ u j. if u == p then 0 else m.pte u j }

-- The free pages that a walk may take.
abbrev pub pages_for : Bool → Memory → List ℕ
pages_for alloc m = if alloc then m.free else []

-- A page is taken for a table, and the entry leads to it.
abbrev pub new_table : ℕ → ℕ → ℕ → List ℕ → Memory → Memory
new_table t i p rest m = set_pte t i (table_pte p) (clear_page p (record m { free = rest }))

-- The loop of `walk` from `level` on: the table and the index of the entry, `none` for 0.
unfoldable pub walk_from : ℕ → ℕ → ℕ → Bool → Memory → Option (ℕ × ℕ) × Memory
walk_from zero t va alloc m = (some (t, px 0 va), m)
walk_from (suc level) t va alloc m =
    let i = px (suc level) va in
    let e = m.pte t i in
    elim (is_valid e) [
      | true ↦ walk_from level (pte2page e) va alloc m
      | false ↦ elim (pages_for alloc m) [
        | [] ↦ (none, m)
        | p ∷ rest ↦ walk_from level p va alloc (new_table t i p rest m)
      ]
    ]

-- `none` is the panic.
unfoldable pub walk : ℕ → ℕ → Bool → Memory → Option (Option (ℕ × ℕ) × Memory)
walk pagetable va alloc m = if leb maxva va then none else some (walk_from 2 pagetable va alloc m)

-- PTE_U, the fifth bit
abbrev pub is_user : ℕ → Bool
is_user e = e / 16 % 2 == 1

-- `walkaddr`: the page number, `none` for 0. The bound on `va` is tested before the walk.
unfoldable pub walkaddr : ℕ → ℕ → Memory → Option ℕ
walkaddr pagetable va m =
    let (slot, m') = walk_from 2 pagetable va false m in
    if leb maxva va then none else elim slot [
      | none ↦ none
      | some (t, i) ↦
          if is_valid (m.pte t i) && is_user (m.pte t i) then some (pte2page (m.pte t i)) else none
    ]

-- `PA2PTE(pa) | perm | PTE_V`, for the page number of `pa` and flags below 2^10
abbrev pub leaf_pte : ℕ → ℕ → ℕ
leaf_pte page perm = page * 1024 + (if perm % 2 == 1 then perm else perm + 1)

-- The loop of `mappages` for the pages left, at address `a` and page `page`: whether it answers 0. The page
-- number has no bound here; the source's `pa` wraps at 2^64.
unfoldable pub map_from : ℕ → ℕ → ℕ → ℕ → ℕ → Memory → Option (Bool × Memory)
map_from zero pagetable a page perm m = some (true, m)
map_from (suc left) pagetable a page perm m = elim (walk pagetable a true m) [
  | none ↦ none
  | some (slot, m') ↦ elim slot [
    | none ↦ some (false, m')
    | some (t, i) ↦ elim (is_valid (m'.pte t i)) [
      | true ↦ none
      | false ↦
          map_from left pagetable (a + pgsize) (page + 1) perm (set_pte t i (leaf_pte page perm) m')
    ]
  ]
]

-- PGROUNDDOWN
abbrev pub round_down : ℕ → ℕ
round_down a = a / pgsize * pgsize

-- `mappages(pagetable, va, size, pa, perm)`, for the page number of `pa`.
unfoldable pub mappages : ℕ → ℕ → ℕ → ℕ → ℕ → Memory → Option (Bool × Memory)
mappages pagetable va size page perm m =
    let a = round_down va in
    let last = round_down (va + size - 1) in
    if size == 0 then none else map_from ((last - a) / pgsize + 1) pagetable a page perm m
