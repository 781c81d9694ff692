-- ===== src/Fs/Itrunc/Room.antt =====
-- Freeing any number of blocks fits the log: the bit map's blocks are absorbed.
use cuhksz_operating_system.Prelude.{
  ℕ, zero, suc, ◌+◌, ◌/◌, ◌≤◌, ◌<◌, ◌≡◌, refl, ap, true, false, List, [], ◌∷◌, ◌++◌, ◌==◌,
  if◌then◌else◌, length, length-append, arith, Bool-cases, ==→eq, ==→ne, inl, inr,
}
use cuhksz_operating_system.Fs.Disk.{Superblock, Disk, logsize, is_logged, absorb, Returns, weaken}
use cuhksz_operating_system.Fs.Log.{Room, is_logged-append}
use cuhksz_operating_system.Fs.Blocks.{bpb, bblock, allocated, bfree}
use cuhksz_operating_system.Fs.Blocks.Bitmap.{Frees, bfree-Frees}

-- How many of the `m` blocks from `start` on are not in the log.
unfoldable pub unlogged : ℕ → ℕ → List ℕ → ℕ
unlogged start zero xs = 0
unlogged start (suc m) xs = (if is_logged (m + start) xs then 0 else 1) + unlogged start m xs

-- A block that enters the log leaves the count.
unlogged-append :
    (start m b : ℕ) (xs : List ℕ)
    → is_logged b xs ≡ false
    → (b < start → unlogged start m (xs ++ b ∷ []) ≡ unlogged start m xs)
      × (start + m ≤ b → unlogged start m (xs ++ b ∷ []) ≡ unlogged start m xs)
      × (start ≤ b → b < start + m → unlogged start m (xs ++ b ∷ []) + 1 ≡ unlogged start m xs)
unfolding unlogged
unlogged-append start zero b xs new = (λ h. refl, λ h. refl, λ h h'. absurd (omega arith))
unlogged-append start (suc m) b xs new =
    let ih = unlogged-append start m b xs new in
    let e = is_logged-append (m + start) xs (b ∷ []) in
    (
      λ h. ground (arith, e, ih.0 h),
      λ h. ground (arith, e, ih.1 (omega arith)),
      λ h h'. elim (Bool-cases (b == m + start)) [
        | inl here ↦
            let eq : b ≡ m + start = ==→eq b _ here in
            ground (arith, e, ih.1 (omega arith), ap (λ (k : ℕ). is_logged k xs) eq)
        | inr other ↦ ground (arith, e, ih.2 h (omega (arith, ==→ne b _ other)))
      ],
    )

module _ (sb : Superblock) where
  -- The blocks that the log would hold with the whole bit map in it.
  unfoldable pub full_log : List ℕ → ℕ
  full_log xs = length xs + unlogged sb.bmapstart (sb.size / bpb + 1) xs

  -- There is room for the whole bit map and one block more, inside a transaction.
  pub record MapRoom (d : Disk) : Type 0 where
    pub in_header : full_log d.logged + 1 ≤ logsize
    pub on_disk : full_log d.logged + 2 ≤ sb.nlog
    pub in_trans : 1 ≤ d.outstanding

  full_log-absorb :
      (c : ℕ) (xs : List ℕ) → c < sb.size → full_log (absorb (bblock sb c) xs) ≡ full_log xs
  unfolding full_log
  full_log-absorb c xs h = elim (Bool-cases (is_logged (bblock sb c) xs)) [
    | inl old ↦ rw old
    | inr new ↦ rw new (
        omega (
          arith,
          length-append xs (bblock sb c ∷ []),
          (unlogged-append sb.bmapstart (sb.size / bpb + 1) (bblock sb c) xs new).2 (omega arith)
              (omega arith),
        ))
  ]

  pub MapRoom-Room : (d : Disk) → MapRoom d → Room sb 1 d
  unfolding full_log
  MapRoom-Room d r = omega (arith, r)

  -- One block is freed, and there is as much room as before.
  pub bfree-MapRoom :
      (c : ℕ) (d : Disk)
      → MapRoom d
      → c < sb.size
      → allocated sb d c ≡ true
      → Returns (λ _ d'. Frees sb c d d' × MapRoom d') (bfree sb c d)
  bfree-MapRoom c d r h used = weaken (bfree-Frees sb c 0 d (MapRoom-Room d r) used) (λ _ d' f. (
    f,
    omega (arith, r, f.logs.same_outstanding, full_log-absorb c d.logged h, ap full_log f.header),
  ))
