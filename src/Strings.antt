-- ===== src/Strings.antt =====
-- Assignment3/initial_code/kernel/string.c: bytes and strings in memory. Memory is a function from
-- addresses to bytes; a pointer is its address, and addresses do not wrap. A count goes down to 0 by
-- recursion; where the source's counter is an `int`, it is one that is not negative.
pub mod Move
pub mod Compare
pub mod Copy
mod Tests
use cuhksz_operating_system.Prelude.{
  ℕ, zero, suc, ◌+◌, ◌-◌, ◌%◌, Bool, true, false, ◌&&◌, not, Option, none, some, ltb, ◌==◌,
  if◌then◌else◌,
}

abbrev pub Memory : Type 0
Memory = ℕ → ℕ

-- `*p = v`, a byte
abbrev pub store : ℕ → ℕ → Memory → Memory
store p v m = λ a. if a == p then v % 256 else m a

-- The difference of two bytes, an `int`: the flag is its sign.
pub record Difference : Type 0 where
  pub negative : Bool
  pub size : ℕ

abbrev pub minus : ℕ → ℕ → Difference
minus a b =
    if ltb a b
    then record { negative = true; size = b - a }
    else record { negative = false; size = a - b }

abbrev pub nothing : Difference
nothing = record { negative = false; size = 0 }

-- The loop of `memset`; the first argument is the rounds left.
unfoldable pub memset_from : ℕ → ℕ → ℕ → ℕ → Memory → Memory
memset_from zero i dst c m = m
memset_from (suc left) i dst c m = memset_from left (i + 1) dst c (store (dst + i) c m)

abbrev pub memset : ℕ → ℕ → ℕ → Memory → Memory
memset dst c n m = memset_from n 0 dst c m

unfoldable pub memcmp : ℕ → ℕ → ℕ → Memory → Difference
memcmp s1 s2 zero m = nothing
memcmp s1 s2 (suc n) m =
    let rest = memcmp (s1 + 1) (s2 + 1) n m in
    if not (m s1 == m s2) then minus (m s1) (m s2) else rest

-- `while(n-- > 0) *--d = *--s;`
unfoldable pub move_down : ℕ → ℕ → ℕ → Memory → Memory
move_down d s zero m = m
move_down d s (suc n) m = move_down (d - 1) (s - 1) n (store (d - 1) (m (s - 1)) m)

-- `while(n-- > 0) *d++ = *s++;`
unfoldable pub move_up : ℕ → ℕ → ℕ → Memory → Memory
move_up d s zero m = m
move_up d s (suc n) m = move_up (d + 1) (s + 1) n (store d (m s) m)

unfoldable pub memmove : ℕ → ℕ → ℕ → Memory → Memory
memmove dst src n m =
    if n == 0
    then m
    else if ltb src dst && ltb dst (src + n)
    then move_down (dst + n) (src + n) n m
    else move_up dst src n m

abbrev pub memcpy : ℕ → ℕ → ℕ → Memory → Memory
memcpy dst src n m = memmove dst src n m

unfoldable pub strncmp : ℕ → ℕ → ℕ → Memory → Difference
strncmp p q zero m = nothing
strncmp p q (suc n) m =
    let rest = strncmp (p + 1) (q + 1) n m in
    if not (m p == 0) && m p == m q then rest else minus (m p) (m q)

-- The second loop of `strncpy`: `while(n-- > 0) *s++ = 0;`
unfoldable pub pad : ℕ → ℕ → Memory → Memory
pad s zero m = m
pad s (suc n) m = pad (s + 1) n (store s 0 m)

-- The first loop, which hands over to the second at the end of `t`.
unfoldable pub strncpy : ℕ → ℕ → ℕ → Memory → Memory
strncpy s t zero m = m
strncpy s t (suc n) m =
    let rest = strncpy (s + 1) (t + 1) n (store s (m t) m) in
    if m t % 256 == 0 then pad (s + 1) n (store s (m t) m) else rest

-- The loop of `safestrcpy` and the store after it; the count is what `n` is before `--n`.
unfoldable pub safestrcpy_from : ℕ → ℕ → ℕ → Memory → Memory
safestrcpy_from s t zero m = store s 0 m
safestrcpy_from s t (suc n) m =
    let rest = safestrcpy_from (s + 1) (t + 1) n (store s (m t) m) in
    if m t % 256 == 0 then store (s + 1) 0 (store s (m t) m) else rest

unfoldable pub safestrcpy : ℕ → ℕ → ℕ → Memory → Memory
safestrcpy s t n m = if n == 0 then m else safestrcpy_from s t (n - 1) m

-- `none` when there is no zero byte in the first `fuel` ones.
unfoldable pub strlen_from : ℕ → ℕ → ℕ → Memory → Option ℕ
strlen_from zero n s m = none
strlen_from (suc fuel) n s m =
    let rest = strlen_from fuel (n + 1) s m in if m (s + n) == 0 then some n else rest

abbrev pub strlen : ℕ → ℕ → Memory → Option ℕ
strlen fuel s m = strlen_from fuel 0 s m
