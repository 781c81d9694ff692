-- ===== src/Pipe/Stream.antt =====
-- A pipe as a stream: any interleaving of stretches of `pipewrite`, `piperead` and `pipeclose`.
use cuhksz_operating_system.Prelude.{
  ℕ, zero, suc, ◌+◌, ◌≤◌, ◌≡◌, refl, sym, ap, ◌∙◌, Bool, true, false, not, Option, List, [], ◌∷◌,
  ◌++◌, arith, length, Bool-cases, Option-cases, none, some, ◌||◌, inl, inr, ◌&&◌,
}
use mathlib.Core.List.{append_assoc, append-nil}
use cuhksz_operating_system.Pipe.{
  Pipe, Exit, pipesize, pipe_init, close, is_empty, is_full, put, read, write_from,
}
use cuhksz_operating_system.Pipe.Valid.{IsValid, unread, put-IsValid}
use cuhksz_operating_system.Pipe.Transfer.{window, contents, contents-put, write_from-Wrote}
use cuhksz_operating_system.Pipe.Drain.{ReadEnds, read_from-Took}

length-window : (buf : List ℕ) (h n : ℕ) → length (window buf h n) ≡ n
unfolding window
length-window buf h zero = refl
length-window buf h (suc n) = ap suc (length-window buf (h + 1) n)

-- A fresh pipe is valid and holds nothing.
pub pipe_init-IsValid :
    (junk : List ℕ)
    → length junk ≡ pipesize
    → IsValid (pipe_init junk) × (contents (pipe_init junk) ≡ [])
unfolding pipe_init window
pipe_init-IsValid junk size = (omega arith, refl)

-- One stretch of a call, under the pipe's lock. `copyout` succeeds: the reader's buffer is mapped.
pub data Event : Type 0 where
  writes : (ℕ → Bool) → (ℕ → Option ℕ) → (i left : ℕ) → Event
  reads : (killed : Bool) → (n : ℕ) → Event
  closes : (writable : Bool) → Event

abbrev mapped : ℕ → ℕ → Bool
mapped i ch = true

-- What `copyin` brought to the writers, what the readers got, and the pipe.
pub record Trace : Type 0 where
  pub accepted : List ℕ
  pub received : List ℕ
  pub pipe : Pipe

-- The bytes that `copyin` brings in a stretch, one in each round until the stretch ends.
copied : (ℕ → Bool) → (ℕ → Option ℕ) → ℕ → ℕ → Pipe → List ℕ
copied killed copyin zero i pi = []
copied killed copyin (suc left) i pi = elim (not pi.readopen || killed i) [
  | true ↦ []
  | false ↦ elim (is_full pi) [
    | true ↦ []
    | false ↦ elim (copyin i) [
      | none ↦ []
      | some ch ↦ ch ∷ copied killed copyin left (i + 1) (put pi ch)
    ]
  ]
]

pub step : Trace → Event → Trace
step t (writes killed copyin i left) = record t {
  accepted = t.accepted ++ copied killed copyin left i t.pipe;
  pipe = (write_from killed copyin left i t.pipe).1;
}
step t (reads killed n) =
    let (e, out, after) = read killed mapped n t.pipe in
    record t { received = t.received ++ out; pipe = after }
step t (closes writable) = record t { pipe = (close t.pipe writable).0 }

pub run : Trace → List Event → Trace
run t [] = t
run t (e ∷ es) = run (step t e) es

-- Nothing is lost, doubled or reordered.
pub record IsStream (t : Trace) : Type 0 where
  pub valid : IsValid t.pipe
  pub fifo : t.accepted ≡ t.received ++ contents t.pipe

length-contents : (pi : Pipe) → length (contents pi) ≡ unread pi
length-contents pi = length-window pi.buf pi.nread (unread pi)

-- The pipe grows by the bytes that `copyin` brought.
write_from-copied :
    (killed : ℕ → Bool) (copyin : ℕ → Option ℕ) (left i : ℕ) (pi : Pipe)
    → IsValid pi
    → contents (write_from killed copyin left i pi).1
      ≡ contents pi ++ copied killed copyin left i pi
unfolding write_from copied
write_from-copied killed copyin zero i pi v = sym (append-nil (contents pi))
write_from-copied killed copyin (suc left) i pi v =
    elim (Bool-cases (not pi.readopen || killed i)) [
      | inl e ↦ rw (e, write_from, copied) (sym (append-nil (contents pi)))
      | inr e ↦ elim (Bool-cases (is_full pi)) [
        | inl e' ↦ rw (e, write_from, copied) (rw e' (sym (append-nil (contents pi))))
        | inr room ↦ elim (Option-cases (copyin i)) [
          | inl e' ↦ rw (e, write_from, copied) (rw room (rw e' (sym (append-nil (contents pi)))))
          | inr (ch, e') ↦
              rw (e, write_from, copied)
                (rw room (
                  rw e' (
                    write_from-copied killed copyin left (i + 1) (put pi ch)
                      (put-IsValid pi ch v room)
                    ∙ ap (λ l. l ++ copied killed copyin left (i + 1) (put pi ch))
                        (contents-put pi ch v room)
                    ∙ append_assoc (contents pi) (ch ∷ [])
                        (copied killed copyin left (i + 1) (put pi ch)))))
        ]
      ]
    ]

writes-IsStream :
    (t : Trace) (killed : ℕ → Bool) (copyin : ℕ → Option ℕ) (i left : ℕ)
    → IsStream t
    → IsStream (step t (writes killed copyin i left))
unfolding step
writes-IsStream t killed copyin i left s =
    let w = write_from-Wrote killed copyin (i + left) left i t.pipe refl s.valid in
    let new = copied killed copyin left i t.pipe in
    record {
      valid = w.valid;
      fifo =
          ap (λ (l : List ℕ). l ++ new) s.fifo
          ∙ append_assoc t.received (contents t.pipe) new
          ∙ ap (λ (l : List ℕ). t.received ++ l)
              (sym (write_from-copied killed copyin left i t.pipe s.valid));
    }

nothing_lost :
    (n r : ℕ) (lost out rest : List ℕ) (pi pi' : Pipe)
    → ReadEnds mapped n r lost pi'
    → contents pi ≡ out ++ (lost ++ rest)
    → contents pi ≡ out ++ rest
nothing_lost n r [] out rest pi pi' ends e = e
nothing_lost n r (ch ∷ lost) out rest pi pi' ends e = cc ends.1

-- What a reader gets, then what is left, make up what was there.
abbrev Splits : Pipe → Exit × List ℕ × Pipe → Type 0
Splits pi r = IsValid r.2 × (contents pi ≡ r.1 ++ contents r.2)

read-Splits : (killed : Bool) (n : ℕ) (pi : Pipe) → IsValid pi → Splits pi (read killed mapped n pi)
unfolding read
read-Splits killed n pi v = elim (Bool-cases (is_empty pi && pi.writeopen)) [
  | inl waits ↦
      rw waits
        (elim (Bool-cases killed) [ inl dies ↦ rw dies (v, refl) | inr lives ↦ rw lives (v, refl) ])
  | inr goes ↦
      let w = read_from-Took mapped n n 0 pi (omega arith) v in
      rw goes (w.valid, nothing_lost n _ w.lost _ _ pi _ w.ends w.split)
]

reads-IsStream :
    (t : Trace) (killed : Bool) (n : ℕ) → IsStream t → IsStream (step t (reads killed n))
unfolding step
reads-IsStream t killed n s =
    let (v, split) = read-Splits killed n t.pipe s.valid in
    record {
      valid = v;
      fifo =
          s.fifo
          ∙ ap (λ (l : List ℕ). t.received ++ l) split
          ∙ sym (
              append_assoc t.received (read killed mapped n t.pipe).1
                (contents (read killed mapped n t.pipe).2));
    }

closes-IsStream : (t : Trace) (writable : Bool) → IsStream t → IsStream (step t (closes writable))
unfolding step close
closes-IsStream t true s = record { valid = omega (arith, s.valid); fifo = s.fifo }
closes-IsStream t false s = record { valid = omega (arith, s.valid); fifo = s.fifo }

step-IsStream : (t : Trace) (e : Event) → IsStream t → IsStream (step t e)
step-IsStream t (writes killed copyin i left) s = writes-IsStream t killed copyin i left s
step-IsStream t (reads killed n) s = reads-IsStream t killed n s
step-IsStream t (closes writable) s = closes-IsStream t writable s

run-IsStream : (t : Trace) (es : List Event) → IsStream t → IsStream (run t es)
unfolding run
run-IsStream t [] s = s
run-IsStream t (e ∷ es) s = run-IsStream (step t e) es (step-IsStream t e s)

abbrev pub fresh : List ℕ → Trace
fresh junk = record { accepted = []; received = []; pipe = pipe_init junk }

-- From a fresh pipe, whatever stretches of writes, reads into memory where `copyout` succeeds, and
-- closes follow: the bytes that `copyin` brought to the writers are the bytes that the readers got, in
-- order, followed by the at most 512 bytes that the pipe still holds.
pub run_fifo :
    (junk : List ℕ) (es : List Event)
    → length junk ≡ pipesize
    → let t = run (fresh junk) es in
      (t.accepted ≡ t.received ++ contents t.pipe) × (length (contents t.pipe) ≤ pipesize)
run_fifo junk es size =
    let s = run-IsStream (fresh junk) es (start (pipe_init-IsValid junk size)) in
    (s.fifo, omega (arith, length-contents (run (fresh junk) es).pipe, s.valid))
  where
    start : IsValid (pipe_init junk) × (contents (pipe_init junk) ≡ []) → IsStream (fresh junk)
    start h = record { valid = h.0; fifo = sym h.1 }

-- The page goes back to the allocator at the second of the two closes, and not at the first.
pub close_frees_once :
    (pi : Pipe) (writable : Bool)
    → pi.readopen ≡ true
    → pi.writeopen ≡ true
    → ((close pi writable).2 ≡ false) × ((close (close pi writable).0 (not writable)).2 ≡ true)
unfolding close
close_frees_once pi true r w = ground arith
close_frees_once pi false r w = ground arith
