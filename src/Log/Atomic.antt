-- ===== src/Log/Atomic.antt =====
-- `commit` and `recover_from_log` of log.c are atomic in the face of crashes, in recovery as well.
use cuhksz_operating_system.Prelude.{
  ℕ, suc, ◌+◌, ◌≤◌, ◌<◌, ◌≡◌, refl, ap, ◌∙◌, ◌⊎◌, inl, inr, false, List, [], ◌∷◌, length, get_or,
  arith,
}
use cuhksz_operating_system.Fs.Disk.{is_logged}
use cuhksz_operating_system.Log.{
  Image, Machine, Run, crashed, running, written, install_trans, head_word, read_blocks, fill_head,
  write_head, commit, recover_from_log,
}
use cuhksz_operating_system.Log.Writes.{
  Safe, stopped, goes_on, Safe-bind, Safe-weaken, bwrite_then, Home, Homes, InLog-congr,
  write_log-Safe,
}
use cuhksz_operating_system.Log.Crash.{
  get_or_default, read_blocks_all, Idle, Committed, clear-Safe, install_clear-Safe,
}

-- The machine after a start: nothing is in the cache but what the disk holds.
abbrev pub boot : Image → ℕ → Machine
boot d k = record { cache = d; disk = d; left = k }

abbrev pub disk_of : Run → Image
disk_of (crashed d) = d
disk_of (running m) = m.disk

-- What both ends of a run say of the disk.
disk_safe :
    {P Q R : Image → Type 0} {r : Run}
    → Safe P (λ m. Q m.disk) r
    → ((d : Image) → P d → R d)
    → ((d : Image) → Q d → R d)
    → R (disk_of r)
disk_safe (stopped p) f g = f _ p
disk_safe (goes_on q) f g = g _ q

head_word_number :
    (bs : List ℕ) (j old : ℕ) → j < length bs → head_word bs (j + 1) old ≡ get_or bs j 0
head_word_number bs j old h =
    let e : j + 1 ≡ suc j = omega arith in
    ap (λ k. head_word bs k old) e ∙ get_or_default bs j old 0 h

module _ (start size : ℕ) where
  -- Recoveries after each other, each of which the machine stops after a number of writes.
  unfoldable pub crashes : List ℕ → Image → Image
  crashes [] d = d
  crashes (k ∷ ks) d = crashes ks (disk_of (recover_from_log start (boot d k)))

  recover-Idle :
      (image d : Image) (k : ℕ)
      → 1 ≤ size
      → Idle start size image d
      → Safe
          (λ d'. Idle start size image d' × (k < 1))
          (λ m'. Idle start size image m'.disk)
          (recover_from_log start (boot d k))
  unfolding recover_from_log install_trans read_blocks
  recover-Idle image d k fits idle =
      rw (idle.no_blocks, recover_from_log, install_trans, read_blocks)
        (clear-Safe start size image (boot d k) fits idle.homes (λ e. (idle, omega (arith, e))))

  recover-Committed :
      (image d : Image) (bs : List ℕ) (k : ℕ)
      → Homes start size bs
      → length bs + 1 ≤ size
      → Committed start size image bs d
      → Safe
          (λ d'. Committed start size image bs d' × (k < length bs + 1))
          (λ m'. Idle start size image m'.disk)
          (recover_from_log start (boot d k))
  unfolding recover_from_log
  recover-Committed image d bs k homes fits was =
      let e : read_blocks d start (d start 0) 0 ≡ bs =
        ap (λ n. read_blocks d start n 0) was.count
        ∙ read_blocks_all d start bs 0 (λ j h. ap (d start) (omega arith) ∙ was.numbers j h) in
      rw e (install_clear-Safe start size image bs (boot d k) homes fits was was.in_log)

  -- For a transaction whose blocks lie outside the log and fit in it, whose new contents `image`
  -- are in the cache, and whose other blocks are the same on the disk: if the commit stops at some
  -- write, the disk is the old one with an empty log, or the log is complete with the new contents;
  -- if it does not stop, the disk has the new contents and an empty log.
  pub commit-Safe :
      (old image : Image) (bs : List ℕ) (m : Machine)
      → Homes start size bs
      → length bs + 1 ≤ size
      → Idle start size old m.disk
      → ((c w : ℕ) → Home start size c → m.cache c w ≡ image c w)
      → ((c w : ℕ) → Home start size c → is_logged c bs ≡ false → old c w ≡ image c w)
      → Safe
          (λ d. Idle start size old d ⊎ Committed start size image bs d)
          (λ m'. Idle start size image m'.disk)
          (commit start bs m)
  unfolding commit write_head
  commit-Safe old image [] m homes fits idle cached clean =
      goes_on (record {
        no_blocks = idle.no_blocks;
        homes = λ c w h. idle.homes c w h ∙ clean c w h refl;
      })
  commit-Safe old image (b ∷ bs) m homes fits idle cached clean =
      let all = b ∷ bs in
      Safe-bind (write_log-Safe start size image 0 all m homes cached (omega arith))
        (λ d same. inl (record {
          no_blocks = same start 0 (inl (omega arith)) ∙ idle.no_blocks;
          homes = λ c w h. same c w (ground (arith, h)) ∙ idle.homes c w h;
        }))
        (λ m₁ r.
          bwrite_then start (fill_head start all m₁) _
            (λ e. inl (record {
              no_blocks = r.rest_disk start 0 (inl (omega arith)) ∙ idle.no_blocks;
              homes = λ c w h. r.rest_disk c w (ground (arith, h)) ∙ idle.homes c w h;
            }))
            (λ i e.
              Safe-weaken
                (install_clear-Safe start size image all (written start (fill_head start all m₁) i)
                  homes fits
                  (record {
                    count = ground arith;
                    numbers =
                        λ j h. ground (arith, head_word_number all j (m₁.cache start (j + 1)) h);
                    in_log =
                        InLog-congr start size image 0 all m₁.disk _ (λ c w low high. ground arith)
                          (omega arith) r.log_disk;
                    rest = λ c w h e'. ground (
                      arith,
                      h,
                      r.rest_disk c w (ground (arith, h)),
                      idle.homes c w h,
                      clean c w h e',
                    );
                  })
                  (InLog-congr start size image 0 all m₁.cache _ (λ c w low high. ground arith)
                    (omega arith) r.log_cache))
                (λ d p. inr p.0) (λ m' p. p)))

  crashes-Idle :
      (image : Image) (ks : List ℕ) (d : Image)
      → 1 ≤ size
      → Idle start size image d
      → Idle start size image (crashes ks d)
  unfolding crashes
  crashes-Idle image [] d fits idle = idle
  crashes-Idle image (k ∷ ks) d fits idle =
      crashes-Idle image ks _ fits
        (disk_safe (recover-Idle image d k fits idle) (λ d' p. p.0) (λ d' p. p))

  crashes-Committed :
      (image : Image) (bs ks : List ℕ) (d : Image)
      → Homes start size bs
      → length bs + 1 ≤ size
      → Idle start size image d ⊎ Committed start size image bs d
      → Idle start size image (crashes ks d) ⊎ Committed start size image bs (crashes ks d)
  unfolding crashes
  crashes-Committed image bs ks d homes fits (inl idle) =
      inl (crashes-Idle image ks d (omega arith) idle)
  crashes-Committed image bs [] d homes fits (inr was) = inr was
  crashes-Committed image bs (k ∷ ks) d homes fits (inr was) =
      crashes-Committed image bs ks _ homes fits (
        disk_safe {R = λ d'. Idle start size image d' ⊎ Committed start size image bs d'}
          (recover-Committed image d bs k homes fits was) (λ d' p. inr p.0) (λ d' p. inl p))

  last_recovery :
      (image d : Image) (bs : List ℕ) (k : ℕ)
      → Homes start size bs
      → length bs + 1 ≤ size
      → length bs < k
      → Idle start size image d ⊎ Committed start size image bs d
      → Safe (λ d'. ⊥) (λ m'. Idle start size image m'.disk) (recover_from_log start (boot d k))
  last_recovery image d bs k homes fits enough (inl idle) =
      Safe-weaken (recover-Idle image d k (omega arith) idle) (λ d' p. absurd (omega (arith, p.1)))
        (λ m' p. p)
  last_recovery image d bs k homes fits enough (inr was) =
      Safe-weaken (recover-Committed image d bs k homes fits was)
        (λ d' p. absurd (omega (arith, p.1))) (λ m' p. p)

  -- What the file system finds after a commit that stopped at any write or at none, after any number
  -- of recoveries that stopped at any write, and after a last one that has enough writes left.
  abbrev pub recovered : List ℕ → Machine → List ℕ → ℕ → Run
  recovered bs m ks last =
      recover_from_log start (boot (crashes ks (disk_of (commit start bs m))) last)

  -- For a transaction whose blocks lie outside the log and fit in it, whose new contents `image`
  -- are in the cache, and whose other blocks are the same on the disk as in `image`: however many
  -- writes the commit could do, and whatever number of recoveries stopped at whatever write, a last
  -- recovery that can do one write more than the transaction has blocks returns, with an empty log,
  -- and all blocks outside the log are those of before the transaction, or all are the new ones.
  pub recovered-Idle :
      (old image : Image) (bs : List ℕ) (m : Machine) (ks : List ℕ) (last : ℕ)
      → Homes start size bs
      → length bs + 1 ≤ size
      → length bs < last
      → Idle start size old m.disk
      → ((c w : ℕ) → Home start size c → m.cache c w ≡ image c w)
      → ((c w : ℕ) → Home start size c → is_logged c bs ≡ false → old c w ≡ image c w)
      → Safe
          (λ d. ⊥)
          (λ m'. Idle start size old m'.disk ⊎ Idle start size image m'.disk)
          (recovered bs m ks last)
  recovered-Idle old image bs m ks last homes fits enough idle cached clean =
      let either : Idle start size old (disk_of (commit start bs m))
          ⊎ (Idle start size image (disk_of (commit start bs m))
              ⊎ Committed start size image bs (disk_of (commit start bs m))) =
        disk_safe
          {R = λ d.
            Idle start size old d ⊎ (Idle start size image d ⊎ Committed start size image bs d)}
          (commit-Safe old image bs m homes fits idle cached clean)
          (λ d p. elim p [ inl p' ↦ inl p' | inr p' ↦ inr (inr p') ]) (λ d p. inr (inl p)) in
      elim either [
        | inl before ↦
            Safe-weaken
              (last_recovery old _ bs last homes fits enough
                (inl (crashes-Idle old ks _ (omega arith) before)))
              (λ d p. p) (λ m' p. inl p)
        | inr after ↦
            Safe-weaken
              (last_recovery image _ bs last homes fits enough
                (crashes-Committed image bs ks _ homes fits after))
              (λ d p. p) (λ m' p. inr p)
      ]
