-- ===== src/Log/Reserve.antt =====
-- `begin_op` of log.c reserves room in the log: system calls that run at the same time, in any order
-- of their steps, never make the transaction too big for the header.
use mathlib.Core.Path.{subst}
use cuhksz_operating_system.Prelude.{
  ℕ, zero, suc, ◌+◌, ◌*◌, ◌-◌, ◌≤◌, ◌<◌, ◌≡◌, ◌≢◌, refl, ap, Bool, true, false, none, some, List,
  [], ◌∷◌, length, arith, get_or, set, length-set,
}
use cuhksz_operating_system.Fs.Disk.{logsize, absorb}
use cuhksz_operating_system.Fs.Log.{length-absorb}
use cuhksz_operating_system.Log.{Log, maxopblocks, begin_op, end_op, committed, header_write}

-- The calls between `begin_op` and `end_op`, each with the number of log writes that it may still do.
pub record System : Type 0 where
  pub log : Log
  pub budgets : List ℕ

pub total : List ℕ → ℕ
total [] = 0
total (x ∷ xs) = x + total xs

-- Call number `i` of the list leaves it.
unfoldable pub remove : ℕ → List ℕ → List ℕ
remove i [] = []
remove zero (x ∷ xs) = xs
remove (suc i) (x ∷ xs) = x ∷ remove i xs

-- One step of some process: the functions of log.c that the calls go through, each under the lock.
pub data Step (size : ℕ) : System → System → Type 0 where
  begins :
      {l l' : Log} {xs : List ℕ}
      → begin_op l ≡ some l'
      → Step size
          (record { log = l; budgets = xs })
          (record { log = l'; budgets = maxopblocks ∷ xs })
  writes :
      {l l' : Log} {xs : List ℕ} (i b : ℕ)
      → 1 ≤ get_or xs i 0
      → header_write size b l ≡ some l'
      → Step size
          (record { log = l; budgets = xs })
          (record { log = l'; budgets = set xs i (get_or xs i 0 - 1) })
  ends :
      {l l' : Log} {xs : List ℕ} {commits : Bool} (i : ℕ)
      → i < length xs
      → end_op l ≡ some (l', commits)
      → Step size (record { log = l; budgets = xs }) (record { log = l'; budgets = remove i xs })
  commits :
      {l : Log} {xs : List ℕ}
      → l.committing ≡ true
      → Step size (record { log = l; budgets = xs }) (record { log = committed l; budgets = xs })

pub data Reaches (size : ℕ) (s : System) : System → Type 0 where
  here : Reaches size s s
  more : {s' s'' : System} → Reaches size s s' → Step size s' s'' → Reaches size s s''

-- A budget never exceeds MAXOPBLOCKS.
pub Small : List ℕ → Type 0
Small [] = Unit
Small (x ∷ xs) = (x ≤ maxopblocks) × Small xs

-- Each call has its count, the log has room for all that they may write, and a commit runs alone.
pub record Reserved (s : System) : Type 0 where
  pub counted : s.log.outstanding ≡ length s.budgets
  pub room : length s.log.block + total s.budgets ≤ logsize
  pub each : Small s.budgets
  pub alone : s.log.committing ≡ true → s.log.outstanding ≡ 0

total-set :
    (xs : List ℕ) (i : ℕ) → 1 ≤ get_or xs i 0 → total (set xs i (get_or xs i 0 - 1)) + 1 ≡ total xs
unfolding total get_or set
total-set [] i h = absurd (omega (arith, h))
total-set (x ∷ xs) zero h = omega (arith, h)
total-set (x ∷ xs) (suc i) h = omega (arith, total-set xs i h)

total-remove :
    (xs : List ℕ) (i : ℕ) → i < length xs → total (remove i xs) + get_or xs i 0 ≡ total xs
unfolding total get_or remove
total-remove [] i h = absurd (omega arith)
total-remove (x ∷ xs) zero h = omega arith
total-remove (x ∷ xs) (suc i) h = omega (arith, total-remove xs i (omega arith))

length-remove : (xs : List ℕ) (i : ℕ) → i < length xs → length (remove i xs) + 1 ≡ length xs
unfolding remove
length-remove [] i h = absurd (omega arith)
length-remove (x ∷ xs) zero h = omega arith
length-remove (x ∷ xs) (suc i) h = omega (arith, length-remove xs i (omega arith))

Small-set : (xs : List ℕ) (i : ℕ) → Small xs → Small (set xs i (get_or xs i 0 - 1))
unfolding Small get_or set
Small-set [] i s = tt
Small-set (x ∷ xs) zero s = (omega (arith, s.0), s.1)
Small-set (x ∷ xs) (suc i) s = (s.0, Small-set xs i s.1)

Small-remove : (xs : List ℕ) (i : ℕ) → Small xs → Small (remove i xs)
unfolding Small remove
Small-remove [] i s = tt
Small-remove (x ∷ xs) zero s = s.1
Small-remove (x ∷ xs) (suc i) s = (s.0, Small-remove xs i s.1)

total-Small : (xs : List ℕ) → Small xs → total xs ≤ length xs * maxopblocks
unfolding total Small
total-Small [] s = omega arith
total-Small (x ∷ xs) s = omega (arith, s.0, total-Small xs s.1)

begin_op-some :
    (l l' : Log)
    → begin_op l ≡ some l'
    → (l.committing ≡ false)
      × (length l.block + (l.outstanding + 1) * maxopblocks ≤ logsize)
      × (record l { outstanding = l.outstanding + 1 } ≡ l')
unfolding begin_op
begin_op-some l l' e = (ground (arith, e), ground (arith, e), ground (arith, e))

header_write-some :
    (size b : ℕ) (l l' : Log)
    → header_write size b l ≡ some l'
    → record l { block = absorb b l.block } ≡ l'
unfolding header_write
header_write-some size b l l' e = ground (arith, e)

end_op-some :
    (l l' : Log) (last : Bool)
    → end_op l ≡ some (l', last)
    → (l'.outstanding ≡ l.outstanding - 1)
      × (l'.block ≡ l.block)
      × (l'.committing ≡ true → l'.outstanding ≡ 0)
unfolding end_op
end_op-some l l' last e = (ground (arith, e), ground (arith, e), λ h. ground (arith, e, h))

Step-Reserved : (size : ℕ) (s s' : System) → Step size s s' → Reserved s → Reserved s'
unfolding committed total Small
Step-Reserved size _ _ (begins {l} {l'} {xs} e) r =
    let f = begin_op-some l l' e in
    subst (λ k. Reserved (record { log = k; budgets = maxopblocks ∷ xs })) f.2
      (record {
        counted = omega (arith, r.counted);
        room = omega (arith, f.1, r.counted, total-Small xs r.each);
        each = (omega arith, r.each);
        alone = λ h. ground (arith, h, f.0);
      })
Step-Reserved size _ _ (writes {l} {l'} {xs} i b h e) r =
    subst (λ k. Reserved (record { log = k; budgets = set xs i (get_or xs i 0 - 1) }))
      (header_write-some size b l l' e)
      (record {
        counted = omega (arith, r.counted, length-set xs i (get_or xs i 0 - 1));
        room = omega (arith, r.room, total-set xs i h, length-absorb b l.block);
        each = Small-set xs i r.each;
        alone = r.alone;
      })
Step-Reserved size _ _ (ends {l} {l'} {xs} i h e) r =
    let f = end_op-some l l' _ e in
    record {
      counted = omega (arith, f.0, r.counted, length-remove xs i h);
      room = omega (arith, ap length f.1, r.room, total-remove xs i h);
      each = Small-remove xs i r.each;
      alone = f.2;
    }
Step-Reserved size _ _ (commits {l} {xs} h) r = record {
  counted = r.counted;
  room = omega (arith, r.alone h, r.counted, total-Small xs r.each);
  each = r.each;
  alone = λ h'. r.alone h;
}

Reaches-Reserved : (size : ℕ) (s s' : System) → Reserved s → Reaches size s s' → Reserved s'
Reaches-Reserved size s _ r here = r
Reaches-Reserved size s _ r (more p q) = Step-Reserved size _ _ q (Reaches-Reserved size s _ r p)

-- The log after `initlog`: no call runs.
abbrev pub idle : System
idle = record { log = record { outstanding = 0; committing = false; block = [] }; budgets = [] }

idle-Reserved : Reserved idle
unfolding total Small
idle-Reserved = record { counted = refl; room = omega arith; each = tt; alone = λ h. refl }

-- In a log with more than LOGSIZE blocks, whatever steps have been done since `initlog` by any number
-- of calls at the same time, in any order: a call that has done fewer than MAXOPBLOCKS log writes can
-- do one more, and a call that runs can end; neither panics. The header is never over its size.
pub no_panic :
    (size : ℕ) (s : System)
    → logsize < size
    → Reaches size idle s
    → ((i b : ℕ) → 1 ≤ get_or s.budgets i 0 → header_write size b s.log ≢ none)
      × ((i : ℕ) → i < length s.budgets → end_op s.log ≢ none)
      × (length s.log.block ≤ logsize)
unfolding header_write end_op
no_panic size s big p =
    let r = Reaches-Reserved size idle s idle-Reserved p in
    (
      λ i b h e.
          let left = total-set s.budgets i h in
          let many = total-Small s.budgets r.each in
          ground (arith, e, r.counted, r.room, left, many),
      λ i h e. ground (arith, e, r.counted, r.alone),
      omega (arith, r.room),
    )
