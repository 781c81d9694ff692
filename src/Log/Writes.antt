-- ===== src/Log/Writes.antt =====
-- What the loops of the log write: each run either stops at some write, with a disk that is known,
-- or does all its writes.
use cuhksz_operating_system.Prelude.{
  ℕ, zero, suc, ◌+◌, ◌≤◌, ◌<◌, ◌≡◌, refl, ◌∙◌, ◌⊎◌, inl, inr, true, false, List, [], ◌∷◌, length,
  arith, Bool-cases,
}
use cuhksz_operating_system.Fs.Disk.{is_logged}
use cuhksz_operating_system.Log.{
  Image, Machine, Run, crashed, running, and_then, written, copy, bwrite, bwrite_of, write_log,
  install_trans,
}

-- A run that stops leaves a disk in `P`, and one that goes on a machine in `Q`.
pub data Safe (P : Image → Type 0) (Q : Machine → Type 0) : Run → Type 0 where
  stopped : {d : Image} → P d → Safe P Q (crashed d)
  goes_on : {m : Machine} → Q m → Safe P Q (running m)

pub Safe-bind :
    {P P' : Image → Type 0} {Q Q' : Machine → Type 0} {r : Run} {k : Machine → Run}
    → Safe P Q r
    → ((d : Image) → P d → P' d)
    → ((m : Machine) → Q m → Safe P' Q' (k m))
    → Safe P' Q' (and_then r k)
Safe-bind (stopped p) f g = stopped (f _ p)
Safe-bind (goes_on q) f g = g _ q

pub Safe-weaken :
    {P P' : Image → Type 0} {Q Q' : Machine → Type 0} {r : Run}
    → Safe P Q r
    → ((d : Image) → P d → P' d)
    → ((m : Machine) → Q m → Q' m)
    → Safe P' Q' r
Safe-weaken (stopped p) f g = stopped (f _ p)
Safe-weaken (goes_on q) f g = goes_on (g _ q)

bwrite_of_then :
    (n b : ℕ) (m : Machine) {P : Image → Type 0} {Q : Machine → Type 0} (k : Machine → Run)
    → (n ≡ 0 → P m.disk)
    → ((i : ℕ) → n ≡ suc i → Safe P Q (k (written b m i)))
    → Safe P Q (and_then (bwrite_of n b m) k)
unfolding bwrite_of
bwrite_of_then zero b m k f g = stopped (f refl)
bwrite_of_then (suc i) b m k f g = g i refl

-- A write stops only when no write is left, and then nothing has changed.
pub bwrite_then :
    (b : ℕ) (m : Machine) {P : Image → Type 0} {Q : Machine → Type 0} (k : Machine → Run)
    → (m.left ≡ 0 → P m.disk)
    → ((i : ℕ) → m.left ≡ suc i → Safe P Q (k (written b m i)))
    → Safe P Q (and_then (bwrite b m) k)
bwrite_then b m k f g = bwrite_of_then m.left b m k f g

bwrite_of-Safe :
    (n b : ℕ) (m : Machine) {P : Image → Type 0} {Q : Machine → Type 0}
    → (n ≡ 0 → P m.disk)
    → ((i : ℕ) → n ≡ suc i → Q (written b m i))
    → Safe P Q (bwrite_of n b m)
unfolding bwrite_of
bwrite_of-Safe zero b m f g = stopped (f refl)
bwrite_of-Safe (suc i) b m f g = goes_on (g i refl)

pub bwrite-Safe :
    (b : ℕ) (m : Machine) {P : Image → Type 0} {Q : Machine → Type 0}
    → (m.left ≡ 0 → P m.disk)
    → ((i : ℕ) → m.left ≡ suc i → Q (written b m i))
    → Safe P Q (bwrite b m)
bwrite-Safe b m f g = bwrite_of-Safe m.left b m f g

module _ (start size : ℕ) where
  -- Blocks outside the log.
  abbrev pub Home : ℕ → Type 0
  Home c = (c < start) ⊎ (start + size ≤ c)

  unfoldable pub Homes : List ℕ → Type 0
  Homes [] = Unit
  Homes (b ∷ bs) = Home b × Homes bs

  -- From place `tail` on the log's blocks have the contents that `new` gives to the numbers.
  pub InLog : Image → ℕ → List ℕ → Image → Type 0
  InLog new tail [] d = Unit
  InLog new tail (b ∷ bs) d =
      ((w : ℕ) → d (start + tail + 1) w ≡ new b w) × InLog new (tail + 1) bs d

  pub InLog-congr :
      (new : Image) (tail : ℕ) (bs : List ℕ) (d d' : Image)
      → ((c w : ℕ) → start + tail < c → c < start + size → d' c w ≡ d c w)
      → tail + length bs + 1 ≤ size
      → InLog new tail bs d
      → InLog new tail bs d'
  unfolding InLog
  InLog-congr new tail [] d d' same fits l = tt
  InLog-congr new tail (b ∷ bs) d d' same fits l = (
    λ w. same (start + tail + 1) w (omega arith) (omega arith) ∙ l.0 w,
    InLog-congr new (tail + 1) bs d d' (λ c w low high. same c w (omega arith) high) (omega arith)
        l.1,
  )

  -- What `write_log` leaves.
  pub record Written (new : Image) (tail : ℕ) (bs : List ℕ) (m m' : Machine) : Type 0 where
    pub log_disk : InLog new tail bs m'.disk
    pub log_cache : InLog new tail bs m'.cache
    pub rest_disk : (c w : ℕ) → (c ≤ start + tail) ⊎ (start + size ≤ c) → m'.disk c w ≡ m.disk c w
    pub rest_cache :
        (c w : ℕ) → (c ≤ start + tail) ⊎ (start + size ≤ c) → m'.cache c w ≡ m.cache c w

  pub write_log-Safe :
      (new : Image) (tail : ℕ) (bs : List ℕ) (m : Machine)
      → Homes bs
      → ((c w : ℕ) → Home c → m.cache c w ≡ new c w)
      → tail + length bs + 1 ≤ size
      → Safe
          (λ d. (c w : ℕ) → (c ≤ start + tail) ⊎ (start + size ≤ c) → d c w ≡ m.disk c w)
          (Written new tail bs m)
          (write_log start tail bs m)
  unfolding write_log InLog Homes
  write_log-Safe new tail [] m homes cached fits = goes_on (record {
    log_disk = tt;
    log_cache = tt;
    rest_disk = λ c w h. refl;
    rest_cache = λ c w h. refl;
  })
  write_log-Safe new tail (b ∷ bs) m homes cached fits =
      bwrite_then (start + tail + 1) (copy (start + tail + 1) b m) _ (λ e c w h. refl)
        (λ i e.
          Safe-weaken
            (write_log-Safe new (tail + 1) bs
              (written (start + tail + 1) (copy (start + tail + 1) b m) i) homes.1
              (λ c w h. ground (arith, cached c w h)) (omega arith))
            (λ d same c w h. ground (arith, same c w))
            (λ m' r. record {
              log_disk = (
                λ w. ground (arith, r.rest_disk (start + tail + 1) w, cached b w homes.0),
                r.log_disk,
              );
              log_cache = (
                λ w. ground (arith, r.rest_cache (start + tail + 1) w, cached b w homes.0),
                r.log_cache,
              );
              rest_disk = λ c w h. ground (arith, r.rest_disk c w);
              rest_cache = λ c w h. ground (arith, r.rest_cache c w);
            }))

  -- What `install_trans` leaves.
  pub record Installed (new : Image) (bs : List ℕ) (m m' : Machine) : Type 0 where
    pub homes_disk : (c w : ℕ) → is_logged c bs ≡ true → m'.disk c w ≡ new c w
    pub homes_cache : (c w : ℕ) → is_logged c bs ≡ true → m'.cache c w ≡ new c w
    pub rest_disk : (c w : ℕ) → is_logged c bs ≡ false → m'.disk c w ≡ m.disk c w
    pub rest_cache : (c w : ℕ) → is_logged c bs ≡ false → m'.cache c w ≡ m.cache c w
    pub used : m'.left + length bs ≡ m.left

  pub install_trans-Safe :
      (new : Image) (tail : ℕ) (bs : List ℕ) (m : Machine)
      → Homes bs
      → InLog new tail bs m.cache
      → tail + length bs + 1 ≤ size
      → Safe
          (λ d. ((c w : ℕ) → is_logged c bs ≡ false → d c w ≡ m.disk c w) × (m.left < length bs))
          (Installed new bs m)
          (install_trans start tail bs m)
  unfolding install_trans InLog Homes
  install_trans-Safe new tail [] m homes l fits = goes_on (record {
    homes_disk = λ c w h. ground (arith, h);
    homes_cache = λ c w h. ground (arith, h);
    rest_disk = λ c w h. refl;
    rest_cache = λ c w h. refl;
    used = omega arith;
  })
  install_trans-Safe new tail (b ∷ bs) m homes l fits =
      bwrite_then b (copy b (start + tail + 1) m) _ (λ e. (λ c w h. refl, omega arith))
        (λ i e.
          Safe-weaken
            (install_trans-Safe new (tail + 1) bs (written b (copy b (start + tail + 1) m) i)
              homes.1
              (InLog-congr new (tail + 1) bs m.cache _ (λ c w low high. ground (arith, homes.0))
                (omega arith) l.1)
              (omega arith))
            (λ d p. (λ c w h. ground (arith, p.0 c w), omega (arith, p.1)))
            (λ m' r. record {
              homes_disk = λ c w h. elim (Bool-cases (is_logged c bs)) [
                | inl e' ↦ r.homes_disk c w e'
                | inr e' ↦ ground (arith, r.rest_disk c w e', l.0 w, h)
              ];
              homes_cache = λ c w h. elim (Bool-cases (is_logged c bs)) [
                | inl e' ↦ r.homes_cache c w e'
                | inr e' ↦ ground (arith, r.rest_cache c w e', l.0 w, h)
              ];
              rest_disk = λ c w h. ground (arith, r.rest_disk c w, h);
              rest_cache = λ c w h. ground (arith, r.rest_cache c w, h);
              used = omega (arith, r.used);
            }))
