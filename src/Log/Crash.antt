-- ===== src/Log/Crash.antt =====
-- A crash of log.c at any disk write, in a commit or in a recovery: the file system has all of the
-- transaction or nothing of it.
use cuhksz_operating_system.Prelude.{
  ℕ, zero, suc, ◌+◌, ◌≤◌, ◌<◌, ◌≡◌, refl, ap, ◌∙◌, inl, inr, true, false, List, [], ◌∷◌, ◌==◌,
  length, get_or, arith, Bool-cases, ==→eq,
}
use cuhksz_operating_system.Fs.Disk.{is_logged}
use cuhksz_operating_system.Log.{
  Image, Machine, and_then, install_trans, read_blocks, fill_head, write_head,
}
use cuhksz_operating_system.Log.Writes.{
  Safe, Safe-bind, bwrite-Safe, Home, Homes, InLog, InLog-congr, install_trans-Safe,
}

pub get_or_default : (bs : List ℕ) (i x y : ℕ) → i < length bs → get_or bs i x ≡ get_or bs i y
unfolding get_or
get_or_default [] i x y h = absurd (omega arith)
get_or_default (b ∷ bs) zero x y h = refl
get_or_default (b ∷ bs) (suc i) x y h = get_or_default bs i x y (omega arith)

-- The numbers that the header holds are read back.
pub read_blocks_all :
    (d : Image) (head : ℕ) (bs : List ℕ) (i : ℕ)
    → ((j : ℕ) → j < length bs → d head (i + j + 1) ≡ get_or bs j 0)
    → read_blocks d head (length bs) i ≡ bs
unfolding read_blocks get_or
read_blocks_all d head [] i h = refl
read_blocks_all d head (b ∷ bs) i h =
    let first : d head (i + 1) ≡ b = ap (d head) (omega arith) ∙ h 0 (omega arith) in
    let rest =
      read_blocks_all d head bs (i + 1)
        (λ j lt. ap (d head) (omega arith) ∙ h (suc j) (omega arith)) in
    cc

module _ (start size : ℕ) where
  Homes-Home :
      (c : ℕ) (bs : List ℕ) → Homes start size bs → is_logged c bs ≡ true → Home start size c
  unfolding Homes
  Homes-Home c [] homes h = ground (arith, h)
  Homes-Home c (b ∷ bs) homes h = elim (Bool-cases (b == c)) [
    | inl e ↦ ground (arith, ==→eq b c e, homes.0)
    | inr e ↦ Homes-Home c bs homes.1 (ground (arith, h, e))
  ]

  -- The log is empty on the disk, and the blocks outside it are those of `image`.
  pub record Idle (image d : Image) : Type 0 where
    pub no_blocks : d start 0 ≡ 0
    pub homes : (c w : ℕ) → Home start size c → d c w ≡ image c w

  -- The log holds the new contents of the blocks `bs`, and the other blocks are those of `image`.
  pub record Committed (image : Image) (bs : List ℕ) (d : Image) : Type 0 where
    pub count : d start 0 ≡ length bs
    pub numbers : (i : ℕ) → i < length bs → d start (i + 1) ≡ get_or bs i 0
    pub in_log : InLog start size image 0 bs d
    pub rest : (c w : ℕ) → Home start size c → is_logged c bs ≡ false → d c w ≡ image c w

  -- A write of the header, from a disk that has everything in place, empties the log.
  pub clear-Safe :
      (image : Image) (m : Machine) {P : Image → Type 0}
      → 1 ≤ size
      → ((c w : ℕ) → Home start size c → m.disk c w ≡ image c w)
      → (m.left ≡ 0 → P m.disk)
      → Safe P (λ m'. Idle image m'.disk) (write_head start [] m)
  unfolding write_head
  clear-Safe image m fits homes stop =
      bwrite-Safe start (fill_head start [] m) stop
        (λ i e. record { no_blocks = ground arith; homes = λ c w h. ground (arith, homes c w h) })

  -- From a committed disk whose blocks are also in the cache, the blocks are installed and the log is
  -- emptied. If the run stops, the disk is still committed.
  pub install_clear-Safe :
      (image : Image) (bs : List ℕ) (m : Machine)
      → Homes start size bs
      → length bs + 1 ≤ size
      → Committed image bs m.disk
      → InLog start size image 0 bs m.cache
      → Safe
          (λ d. Committed image bs d × (m.left < length bs + 1))
          (λ m'. Idle image m'.disk)
          (and_then (install_trans start 0 bs m) (write_head start []))
  install_clear-Safe image bs m homes fits was cached =
      let keeps : (d : Image)
          → ((c w : ℕ) → is_logged c bs ≡ false → d c w ≡ m.disk c w)
          → Committed image bs d =
        λ d same.
          let out : (c w : ℕ) → start ≤ c → c < start + size → d c w ≡ m.disk c w = λ c w low high.
            elim (Bool-cases (is_logged c bs)) [
              | inl e ↦ absurd (omega (arith, Homes-Home c bs homes e))
              | inr e ↦ same c w e
            ] in
          record {
            count = out start 0 (omega arith) (omega arith) ∙ was.count;
            numbers = λ i h. out start (i + 1) (omega arith) (omega arith) ∙ was.numbers i h;
            in_log =
                InLog-congr start size image 0 bs m.disk d
                  (λ c w low high. out c w (omega arith) high) (omega arith) was.in_log;
            rest = λ c w h e. same c w e ∙ was.rest c w h e;
          } in
      Safe-bind (install_trans-Safe start size image 0 bs m homes cached (omega arith))
        (λ d p. (keeps d p.0, omega (arith, p.1)))
        (λ m' r.
          clear-Safe image m' (omega arith)
            (λ c w h. elim (Bool-cases (is_logged c bs)) [
              | inl e ↦ r.homes_disk c w e
              | inr e ↦ r.rest_disk c w e ∙ was.rest c w h e
            ])
            (λ e. (keeps m'.disk r.rest_disk, omega (arith, r.used))))
