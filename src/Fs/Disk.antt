-- ===== src/Fs/Disk.antt =====
-- The disk as the file system sees it: blocks through the buffer cache of bio.c, and the in-memory
-- header of the log of log.c. `bread` and `brelse` move no bytes: what they return is the block here.
-- A call of the kernel is run as one process; a `panic` stops it.
use cuhksz_operating_system.Prelude.{
  ℕ, ◌+◌, ◌*◌, ◌/◌, ◌%◌, Bool, false, ◌&&◌, ◌||◌, List, [], ◌∷◌, ◌++◌, ltb, leb, ◌==◌,
  if◌then◌else◌, length,
}

-- BSIZE
abbrev pub bsize : ℕ
bsize = 1024

-- LOGSIZE, which is MAXOPBLOCKS * 3
abbrev pub logsize : ℕ
logsize = 30

-- `struct superblock` of fs.h, less its magic number.
pub record Superblock : Type 0 where
  pub size : ℕ
  pub nblocks : ℕ
  pub ninodes : ℕ
  pub nlog : ℕ
  pub logstart : ℕ
  pub inodestart : ℕ
  pub bmapstart : ℕ

-- `image b o` is byte `o` of block `b`; `logged` is `log.lh.block[0..log.lh.n)`.
pub record Disk : Type 0 where
  pub image : ℕ → ℕ → ℕ
  pub logged : List ℕ
  pub outstanding : ℕ

-- `bp->data[o]` for the buffer of block `b`, an unsigned char.
abbrev pub byte : Disk → ℕ → ℕ → ℕ
byte d b o = d.image b o % 256

pub data Outcome {ℓ} (A : Type ℓ) : Type ℓ where
  ok : A → Disk → Outcome A
  panic : Outcome A

abbrev pub Cmd : Type 0 → Type 0
Cmd A = Disk → Outcome A

abbrev pub pure : {A : Type 0} → A → Cmd A
pure = ok

module _ {A B : Type 0} where
  abbrev pub and_then : Outcome A → (A → Cmd B) → Outcome B
  and_then (ok a d) k = k a d
  and_then panic k = panic

  infixl 5 ◌>>=◌ ◌>>◌
  abbrev pub ◌>>=◌ : Cmd A → (A → Cmd B) → Cmd B
  m >>= k = λ d. and_then (m d) k

  abbrev pub ◌>>◌ : Cmd A → Cmd B → Cmd B
  m >> n = m >>= λ _. n

-- Total correctness: the call returns, and what it returns has the property.
pub data Returns {A : Type 0} (P : A → Disk → Type 0) : Outcome A → Type 0 where
  returns : {a : A} {d : Disk} → P a d → Returns P (ok a d)

module _ {A : Type 0} {P : A → Disk → Type 0} where
  pub bind :
      {B : Type 0} {Q : B → Disk → Type 0} {r : Outcome A} {k : A → Cmd B}
      → Returns P r
      → ((a : A) (d : Disk) → P a d → Returns Q (k a d))
      → Returns Q (and_then r k)
  bind (returns p) next = next _ _ p

  pub weaken :
      {Q : A → Disk → Type 0} {r : Outcome A}
      → Returns P r
      → ((a : A) (d : Disk) → P a d → Q a d)
      → Returns Q r
  weaken (returns p) f = returns (f _ _ p)

-- `bp->data[o] = v`
unfoldable pub store_byte : ℕ → ℕ → ℕ → Cmd (Unit {0})
store_byte b o v d =
    ok tt (record d { image = λ b' o'. if b' == b && o' == o then v % 256 else d.image b' o' })

-- `memset(bp->data, 0, BSIZE)`
unfoldable pub clear_block : ℕ → Cmd (Unit {0})
clear_block b d =
    ok tt (record d { image = λ b' o'. if b' == b && ltb o' bsize then 0 else d.image b' o' })

-- `((uint*)bp->data)[i]`, little endian.
abbrev pub word : Disk → ℕ → ℕ → ℕ
word d b i =
    byte d b (4 * i)
    + 256 * byte d b (4 * i + 1)
    + 65536 * byte d b (4 * i + 2)
    + 16777216 * byte d b (4 * i + 3)

-- `((uint*)bp->data)[i] = v`
unfoldable pub store_word : ℕ → ℕ → ℕ → Cmd (Unit {0})
store_word b i v = do
  store_byte b (4 * i) v
  store_byte b (4 * i + 1) (v / 256)
  store_byte b (4 * i + 2) (v / 65536)
  store_byte b (4 * i + 3) (v / 16777216)

-- Is the block number in the list of the log header?
abbrev pub is_logged : ℕ → List ℕ → Bool
is_logged b [] = false
is_logged b (x ∷ xs) = x == b || is_logged b xs

-- The loop of `log_write`: the number takes the place that it has, or the next free one.
abbrev pub absorb : ℕ → List ℕ → List ℕ
absorb b xs = if is_logged b xs then xs else xs ++ b ∷ []

module _ (sb : Superblock) where
  -- `log_write(bp)`; `log.size` is `sb.nlog`, and `n >= log.size - 1` is a signed comparison.
  unfoldable pub log_write : ℕ → Cmd (Unit {0})
  log_write b d =
      if leb logsize (length d.logged) || leb sb.nlog (length d.logged + 1)
      then panic
      else if d.outstanding == 0
      then panic
      else ok tt (record d { logged = absorb b d.logged })
