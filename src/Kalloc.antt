-- ===== src/Kalloc.antt =====
-- Assignment3/initial_code/kernel/kalloc.c: the free list of pages, which runs through the pages
-- themselves. Memory is a function from addresses to the 8-byte words at them; `end` and `phystop` are
-- the bounds of the memory that is handed out.
pub mod Chain
pub mod Pages
pub mod Held
mod Tests
use cuhksz_operating_system.Prelude.{
  ℕ, zero, suc, ◌+◌, ◌-◌, ◌*◌, ◌/◌, ◌%◌, Bool, true, false, not, ◌||◌, ◌&&◌, Option, none, some,
  ltb, leb, ◌==◌, if◌then◌else◌,
}

-- PGSIZE
abbrev pub pgsize : ℕ
pgsize = 4096

-- `kmem`, and the memory where the pages are.
pub record Kmem : Type 0 where
  pub freelist : ℕ
  pub word : ℕ → ℕ

-- `memset(pa, c, PGSIZE)`, where `junk` is the word of eight bytes `c`.
abbrev pub fill : ℕ → ℕ → Kmem → Kmem
fill pa junk k = record k { word = λ a. if leb pa a && ltb a (pa + pgsize) then junk else k.word a }

-- `r->next = kmem.freelist; kmem.freelist = r;`
abbrev pub push : ℕ → Kmem → Kmem
push pa k = record k { freelist = pa; word = λ a. if a == pa then k.freelist else k.word a }

abbrev pub junk_freed : ℕ
junk_freed = 0x0101010101010101

abbrev pub junk_given : ℕ
junk_given = 0x0505050505050505

-- PGROUNDUP(sz)
abbrev pub round_up : ℕ → ℕ
round_up a = (a + pgsize - 1) / pgsize * pgsize

module _ (end phystop : ℕ) where
  -- `none` is the panic.
  unfoldable pub kfree : ℕ → Kmem → Option Kmem
  kfree pa k =
      if not (pa % pgsize == 0) || ltb pa end || leb phystop pa
      then none
      else some (push pa (fill pa junk_freed k))

  -- The loop of `freerange`; the first argument bounds its rounds.
  unfoldable pub freerange_from : ℕ → ℕ → ℕ → Kmem → Option Kmem
  freerange_from zero p pa_end k = some k
  freerange_from (suc left) p pa_end k = elim (leb (p + pgsize) pa_end) [
    | false ↦ some k
    | true ↦ elim (kfree p k) [ none ↦ none | some k' ↦ freerange_from left (p + pgsize) pa_end k' ]
  ]

  -- More rounds than there are pages below `pa_end`.
  unfoldable pub freerange : ℕ → ℕ → Kmem → Option Kmem
  freerange pa_start pa_end k = freerange_from (pa_end / pgsize + 1) (round_up pa_start) pa_end k

  unfoldable pub kinit : Kmem → Option Kmem
  kinit k = freerange end phystop k

-- The page, 0 if there is none.
unfoldable pub kalloc : Kmem → ℕ × Kmem
kalloc k =
    if k.freelist == 0
    then (0, k)
    else (k.freelist, fill k.freelist junk_given (record k { freelist = k.word k.freelist }))
