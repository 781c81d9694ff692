-- ===== src/Pipe/Transfer.antt =====
-- What `pipewrite` and `piperead` do to the queue of unread bytes.
use cuhksz_operating_system.Prelude.{
  ℕ, zero, suc, ◌+◌, ◌%◌, ◌≤◌, ◌<◌, ◌≡◌, ◌⊎◌, refl, sym, ap, ◌∙◌, Bool, true, false, List, [], ◌∷◌,
  ◌++◌, none, some, arith, get_or, set, get_or-set_self, get_or-set_ne, Bool-cases, Option-cases,
  inl, inr, Option, not, ◌||◌,
}
use mathlib.Core.Path.{subst}
use mathlib.Core.List.{append-nil, append_assoc}
use cuhksz_operating_system.Pipe.{
  Pipe, add_u32, Exit, done, failed, asleep, pipesize, put, advance, is_full, is_empty, front,
  write_from,
}
use cuhksz_operating_system.Pipe.Valid.{
  IsValid, unread, put-IsValid, unread-put, unread-advance, is_full_iff,
}

-- The `n` bytes from counter value `h` on.
unfoldable pub window : List ℕ → ℕ → ℕ → List ℕ
window buf h zero = []
window buf h (suc n) = get_or buf (h % pipesize) 0 ∷ window buf (h + 1) n

-- The unread bytes, oldest first.
abbrev pub contents : Pipe → List ℕ
contents pi = window pi.buf pi.nread (unread pi)

window_congr : (buf : List ℕ) (h k n : ℕ) → h % 512 ≡ k % 512 → window buf h n ≡ window buf k n
unfolding window
window_congr buf h k zero e = refl
window_congr buf h k (suc n) e = rw (e, window_congr buf (h + 1) (k + 1) n (omega arith))

window_end :
    (buf : List ℕ) (h n : ℕ)
    → window buf h (suc n) ≡ window buf h n ++ get_or buf ((h + n) % 512) 0 ∷ []
unfolding window
window_end buf h zero = let e : h ≡ h + 0 = omega arith in rw (← e)
window_end buf h (suc n) =
    let e : h + 1 + n ≡ h + suc n = omega arith in
    ap (λ (t : List ℕ). get_or buf (h % 512) 0 ∷ t) (window_end buf (h + 1) n ∙ (rw e))

-- A write `k` places on is out of sight of a window of at most `k` bytes.
window-set :
    (buf : List ℕ) (h k p n ch : ℕ)
    → p ≡ (h + k) % 512
    → n ≤ k
    → k < 512
    → window (set buf p ch) h n ≡ window buf h n
unfolding window
window-set buf h k p zero ch at short inside = refl
window-set buf h zero p (suc n) ch at short inside = absurd (omega arith)
window-set buf h (suc k) p (suc n) ch at short inside =
    rw (get_or-set_ne buf p (h % 512) ch 0 (λ e. omega arith))
      (rw (window-set buf (h + 1) k p n ch (omega arith) (omega arith) (omega arith)))

pub contents-put :
    (pi : Pipe) (ch : ℕ)
    → IsValid pi
    → is_full pi ≡ false
    → contents (put pi ch) ≡ contents pi ++ ch ∷ []
contents-put pi ch v room =
    let n : ℕ = unread pi in
    let longer : unread (put pi ch) ≡ suc n = omega (arith, unread-put pi ch v room) in
    let at : pi.nwrite % 512 ≡ (pi.nread + n) % 512 = omega (arith, v) in
    let small : n < 512 = ground (arith, is_full_iff pi v) in
    rw longer (
      window_end (set pi.buf (pi.nwrite % 512) ch) pi.nread n
      ∙ rw (window-set pi.buf pi.nread n (pi.nwrite % 512) n ch at (omega arith) small)
          (rw (← at) (rw (get_or-set_self pi.buf (pi.nwrite % 512) ch 0 (omega (arith, v))))))

pub contents-advance :
    (pi : Pipe) → IsValid pi → is_empty pi ≡ false → contents pi ≡ front pi ∷ contents (advance pi)
unfolding window
contents-advance pi v some_left =
    let shorter : unread pi ≡ suc (unread (advance pi)) =
      omega (arith, unread-advance pi v some_left) in
    rw shorter (
      rw (
        window_congr pi.buf (pi.nread + 1) (add_u32 pi.nread 1) (unread (advance pi))
          (omega arith)))

-- The byte that `copyin` left in `ch`; where it failed nothing is sent.
abbrev pub or_zero : Option ℕ → ℕ
or_zero none = 0
or_zero (some ch) = ch

-- The `m` bytes that `copyin` gives from index `i` on.
abbrev pub sent : (ℕ → Option ℕ) → ℕ → ℕ → List ℕ
sent copyin i zero = []
sent copyin i (suc m) = or_zero (copyin i) ∷ sent copyin (i + 1) m

module _ (killed : ℕ → Bool) (copyin : ℕ → Option ℕ) (n : ℕ) where
  -- Why a stretch of `pipewrite(pi, addr, n)` that got to index `j` ended there.
  abbrev pub WriteEnds : ℕ → Exit × Pipe → Type 0
  WriteEnds j (done r, pi) = (r ≡ j) × ((j ≡ n) ⊎ (copyin j ≡ none))
  WriteEnds j (asleep r, pi) = (r ≡ j) × (unread pi ≡ pipesize) × (j < n)
  WriteEnds j (failed, pi) = ((pi.readopen ≡ false) ⊎ (killed j ≡ true)) × (j < n)

  -- From index `i` and pipe `pi` to the end `r`: `count` bytes were appended and nothing else done.
  pub record Wrote (i : ℕ) (pi : Pipe) (r : Exit × Pipe) : Type 0 where
    pub count : ℕ
    pub valid : IsValid r.1
    pub grown : contents r.1 ≡ contents pi ++ sent copyin i count
    pub ends : WriteEnds (i + count) r
    pub same_ends : (r.1.readopen ≡ pi.readopen) × (r.1.writeopen ≡ pi.writeopen)

  stays : (i : ℕ) (pi : Pipe) (e : Exit) → IsValid pi → WriteEnds i (e, pi) → Wrote i pi (e, pi)
  stays i pi e v ends = record {
    count = 0;
    valid = v;
    grown = sym (append-nil _);
    ends = subst (λ j. WriteEnds j (e, pi)) (omega arith) ends;
    same_ends = (refl, refl);
  }

  goes_on :
      (i : ℕ) (pi : Pipe) (ch : ℕ) (r : Exit × Pipe)
      → IsValid pi
      → is_full pi ≡ false
      → copyin i ≡ some ch
      → Wrote (i + 1) (put pi ch) r
      → Wrote i pi r
  goes_on i pi ch r v room got w = record {
    count = suc w.count;
    valid = w.valid;
    grown =
        w.grown
        ∙ rw (contents-put pi ch v room)
            (append_assoc (contents pi) (ch ∷ []) (sent copyin (i + 1) w.count) ∙ rw got);
    ends = let e : i + 1 + w.count ≡ i + suc w.count = omega arith in rw (← e) w.ends;
    same_ends = w.same_ends;
  }

  -- A stretch of `pipewrite(pi, addr, n)` from index `i` on, on a valid pipe, appends the next bytes
  -- of the user's memory to the unread ones, in order, keeps the pipe valid, and ends for one of four
  -- reasons: all `n` bytes are in, `copyin` failed, the pipe is full (it sleeps), or the read end is
  -- closed or the process killed (-1). It closes neither end.
  pub write_from-Wrote :
      (left i : ℕ) (pi : Pipe)
      → i + left ≡ n
      → IsValid pi
      → Wrote i pi (write_from killed copyin left i pi)
  unfolding write_from
  write_from-Wrote zero i pi e v = stays i pi (done i) v (refl, inl (omega arith))
  write_from-Wrote (suc left) i pi e v = elim (Bool-cases (not pi.readopen || killed i)) [
    | inl stop ↦ rw (stop, write_from) (stays i pi failed v (ground arith, omega arith))
    | inr live ↦
        rw (live, write_from)
          (elim (Bool-cases (is_full pi)) [
            | inl full ↦
                rw (full, write_from)
                  (stays i pi (asleep i) v (refl, ground (arith, is_full_iff pi v), omega arith))
            | inr room ↦
                rw (room, write_from)
                  (elim (Option-cases (copyin i)) [
                    | inl fault ↦ rw (fault, write_from) (stays i pi (done i) v (refl, inr fault))
                    | inr (ch, got) ↦
                        rw (got, write_from)
                          (goes_on i pi ch _ v room got (
                            write_from-Wrote left (i + 1) (put pi ch) (omega arith)
                              (put-IsValid pi ch v room)))
                  ])
          ])
  ]
