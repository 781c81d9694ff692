-- ===== src/Pipe/Drain.antt =====
-- What `piperead` does to the queue of unread bytes.
use cuhksz_operating_system.Prelude.{
  ℕ, zero, suc, ◌+◌, ◌≡◌, ◌⊎◌, refl, ap, ◌∙◌, Bool, false, List, [], ◌∷◌, ◌++◌, arith, length,
  Bool-cases, inl, inr,
}
use cuhksz_operating_system.Pipe.{Pipe, advance, is_empty, front, read_from}
use cuhksz_operating_system.Pipe.Valid.{IsValid, unread, advance-IsValid, is_empty_iff}
use cuhksz_operating_system.Pipe.Transfer.{contents, contents-advance}

module _ (copyout : ℕ → ℕ → Bool) (n : ℕ) where
  -- Why the copying loop ended at count `r`: `n` bytes, nothing left, or `copyout` refused a byte,
  -- which had been taken from the pipe before and is lost.
  abbrev pub ReadEnds : ℕ → List ℕ → Pipe → Type 0
  ReadEnds r [] pi = (r ≡ n) ⊎ (unread pi ≡ 0)
  ReadEnds r (ch ∷ lost) pi = (lost ≡ []) × (copyout r ch ≡ false)

  -- The loop from index `i` on: what reached the reader, then what was lost, then what is left make
  -- up what was there.
  pub record Took (i : ℕ) (pi : Pipe) (r : ℕ × List ℕ × Pipe) : Type 0 where
    pub lost : List ℕ
    pub valid : IsValid r.2
    pub split : contents pi ≡ r.1 ++ (lost ++ contents r.2)
    pub counted : r.0 ≡ i + length r.1
    pub ends : ReadEnds r.0 lost r.2
    pub same_ends : (r.2.readopen ≡ pi.readopen) × (r.2.writeopen ≡ pi.writeopen)

  takes :
      (i : ℕ) (pi : Pipe) (r : ℕ × List ℕ × Pipe)
      → IsValid pi
      → is_empty pi ≡ false
      → Took (i + 1) (advance pi) r
      → Took i pi (r.0, front pi ∷ r.1, r.2)
  takes i pi r v more t = record {
    lost = t.lost;
    valid = t.valid;
    split = contents-advance pi v more ∙ ap (λ (l : List ℕ). front pi ∷ l) t.split;
    counted = omega (arith, t.counted);
    ends = t.ends;
    same_ends = t.same_ends;
  }

  -- The copying loop of `piperead`, on a valid pipe: what reached the reader, then at most one byte
  -- that `copyout` refused after it was taken, then what is left, make up what was there. The loop
  -- counts the bytes that reached the reader, and ends at `n`, at an empty pipe or at the refusal.
  pub read_from-Took :
      (left i : ℕ) (pi : Pipe) → i + left ≡ n → IsValid pi → Took i pi (read_from copyout left i pi)
  unfolding read_from
  read_from-Took zero i pi e v = record {
    lost = [];
    valid = v;
    split = refl;
    counted = omega arith;
    ends = inl (omega arith);
    same_ends = (refl, refl);
  }
  read_from-Took (suc left) i pi e v = elim (Bool-cases (is_empty pi)) [
    | inl none_left ↦
        rw (none_left, read_from)
          (record {
            lost = [];
            valid = v;
            split = refl;
            counted = omega arith;
            ends = inr (ground (arith, is_empty_iff pi v));
            same_ends = (refl, refl);
          })
    | inr more ↦
        rw (more, read_from)
          (elim (Bool-cases (copyout i (front pi))) [
            | inl went ↦
                rw (went, read_from)
                  (takes i pi _ v more (
                    read_from-Took left (i + 1) (advance pi) (omega arith)
                      (advance-IsValid pi v more)))
            | inr refused ↦
                rw (refused, read_from)
                  (record {
                    lost = front pi ∷ [];
                    valid = advance-IsValid pi v more;
                    split = contents-advance pi v more;
                    counted = omega arith;
                    ends = (refl, refused);
                    same_ends = (refl, refl);
                  })
          ])
  ]
