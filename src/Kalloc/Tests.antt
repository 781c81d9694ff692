-- ===== src/Kalloc/Tests.antt =====
-- Memory from 12388 to 32768, of which the four pages from 16384 on are handed out.
use cuhksz_operating_system.Prelude.{
  ℕ, ◌+◌, ◌≤◌, ◌≡◌, refl, Option, none, some, List, [], ◌∷◌, ◌==◌, if◌then◌else◌, arith, get_or,
}
use cuhksz_operating_system.Kalloc.{Kmem, pgsize, kfree, kinit, kalloc}
use cuhksz_operating_system.Kalloc.Chain.{Chain, Absent, IsPage, Pages, IsFree}
use cuhksz_operating_system.Kalloc.Pages.{Present, kinit-IsFree}
use cuhksz_operating_system.Kalloc.Held.{
  Pool, alloc, free, call, calls, remove, Apart, IsPool, calls-IsPool,
}

abbrev blank : Kmem
blank = record { freelist = 0; word = λ a. 0 }

-- Pages 24576 and 28672 are free, and 16384 is held.
abbrev two_free : Kmem
two_free = record { freelist = 28672; word = λ a. if a == 28672 then 24576 else 0 }

abbrev one_held : Pool
one_held = record { kmem = two_free; held = 16384 ∷ [] }

abbrev held_after : Option Pool → List ℕ
held_after none = []
held_after (some s) = s.held

-- The page that was given back last is handed out first, and again.
four_calls :
    held_after (calls 12388 32768 (alloc ∷ free 0 ∷ alloc ∷ free 1 ∷ []) one_held) ≡ 28672 ∷ []
unfolding calls call kalloc kfree remove get_or
four_calls = refl

two_free-IsFree : IsFree 12388 32768 two_free (28672 ∷ 24576 ∷ [])
unfolding Chain Pages Absent
two_free-IsFree = record { chain = omega arith; pages = omega arith }

kinit-IsFree_example :
    (k' : Kmem) × (ps : List ℕ) × (kinit 12388 32768 blank ≡ some k')
    × IsFree 12388 32768 k' ps
    × ((q : ℕ) → IsPage 12388 32768 q → q + pgsize ≤ 32768 → Present q ps)
kinit-IsFree_example = kinit-IsFree 12388 32768 (omega arith) blank refl

one_held-IsPool : IsPool 12388 32768 one_held
unfolding Pages Absent Apart
one_held-IsPool = record {
  pages = 28672 ∷ 24576 ∷ [];
  free_pages = two_free-IsFree;
  held_pages = omega arith;
  apart = omega arith;
}

calls-IsPool_example :
    (s' : Pool) × (calls 12388 32768 (alloc ∷ alloc ∷ free 1 ∷ []) one_held ≡ some s')
    × IsPool 12388 32768 s'
calls-IsPool_example =
    calls-IsPool 12388 32768 (omega arith) (alloc ∷ alloc ∷ free 1 ∷ []) one_held one_held-IsPool
