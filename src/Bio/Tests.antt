-- ===== src/Bio/Tests.antt =====
-- The cache after `binit`, and one with a buffer in use.
use cuhksz_operating_system.Prelude.{
  ℕ, ◌<◌, ◌≡◌, ◌≢◌, ◌⊎◌, inl, inr, refl, sym, ◌∙◌, true, false, Option, none, some, [], ◌==◌,
  if◌then◌else◌, arith, Bool-cases, ==→eq,
}
use cuhksz_operating_system.Bio.{
  Buf, Bcache, nbuf, binit, binit_from, find_block, find_unused, Taken, panics, sleeps, gives, bget,
  bread, bwrite, brelse,
}
use cuhksz_operating_system.Bio.Search.{Has, binit-IsOrder}
use cuhksz_operating_system.Bio.Content.{IsCache, content}
use cuhksz_operating_system.Bio.Recycle.{Got, Waits}
use cuhksz_operating_system.Bio.Ops.{bread-Got, Released, brelse-Released}
use cuhksz_operating_system.Bio.Write.{Written, bwrite-Written}

abbrev unused : Buf
unused = record { dev = 0; blockno = 0; refcnt = 0; valid = false; locked = false; bytes = λ i. 0 }

abbrev sevens : ℕ → ℕ → ℕ → ℕ
sevens d n i = 7

abbrev boot : Bcache
boot = binit (record { buf = λ j. unused; order = []; disk = sevens })

boot-IsCache : IsCache boot
boot-IsCache = record {
  order = binit-IsOrder;
  unique = λ s s' low low' used. absurd (used refl);
  clean = λ s low zero_refs ok. absurd (ground (arith, ok));
}

-- Buffer 0 has block 5 of disk 1.
abbrev busy : Bcache
busy = binit (record {
  buf = λ j.
      if j == 0
      then record {
        dev = 1;
        blockno = 5;
        refcnt = 1;
        valid = true;
        locked = true;
        bytes = sevens 1 5;
      }
      else unused;
  order = [];
  disk = sevens;
})

in_use : (j : ℕ) → (busy.buf j).dev ≢ 0 → j ≡ 0
in_use j used = elim (Bool-cases (j == 0)) [
  | inl e ↦ ==→eq j 0 e
  | inr e ↦ absurd (used (rw e refl))
]

busy-IsCache : IsCache busy
busy-IsCache = record {
  order = binit-IsOrder;
  unique = λ s s' low low' used has. in_use s' (λ z. used (sym has.0 ∙ z)) ∙ sym (in_use s used);
  clean = λ s low zero_refs ok. absurd (ground (arith, zero_refs, ok));
}

abbrev buffer : Taken → Option ℕ
buffer panics = none
buffer (sleeps s c) = none
buffer (gives s c) = some s

-- The least recent buffer is taken first; a buffer that is locked is waited for.
bread_least_recent : buffer (bread 1 5 boot) ≡ some 0
unfolding bread bget find_block find_unused binit_from
bread_least_recent = refl

bread_waits : buffer (bread 1 5 busy) ≡ none
unfolding bread bget find_block find_unused binit_from
bread_waits = refl

bread_next : buffer (bread 1 6 busy) ≡ some 1
unfolding bread bget find_block find_unused binit_from
bread_next = refl

bread-Got_example :
    ((bread 1 6 busy ≡ panics)
      × ((j : ℕ) → j < nbuf → Has 1 6 j busy → ⊥)
      × ((j : ℕ) → j < nbuf → 0 < (busy.buf j).refcnt))
    ⊎ Waits 1 6 busy (bread 1 6 busy)
    ⊎ ((s : ℕ) × (c' : Bcache) × (bread 1 6 busy ≡ gives s c')
        × ((busy.buf s).locked ≡ false)
        × Got 1 6 busy s c'
        × ((c'.buf s).valid ≡ true)
        × ((c'.buf s).bytes ≡ content busy 1 6))
bread-Got_example = bread-Got 1 6 busy busy-IsCache (λ h. ground (arith, h))

brelse-Released_example : (c' : Bcache) × (brelse 0 busy ≡ some c') × Released 0 busy c'
brelse-Released_example =
    brelse-Released 0 busy busy-IsCache (omega arith) refl (omega arith) (λ h ok. refl)

bwrite-Written_example : (c' : Bcache) × (bwrite 0 busy ≡ some c') × Written 0 busy c'
bwrite-Written_example =
    bwrite-Written 0 busy busy-IsCache (omega arith) (λ h. ground (arith, h)) refl refl
