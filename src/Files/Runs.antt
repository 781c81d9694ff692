-- ===== src/Files/Runs.antt =====
-- Any run of the calls that open, copy and close files.
use cuhksz_operating_system.Prelude.{
  ℕ, zero, suc, ◌+◌, ◌<◌, ◌≡◌, ◌≢◌, inl, inr, refl, sym, ap, false, Option, none, some, List, [],
  ◌∷◌, arith, ne→==,
}
use cuhksz_operating_system.Files.{
  nofile, nproc, File, System, sys_dup, sys_close, open_file, fork_files, exit_files, fd_none,
}
use cuhksz_operating_system.Files.Tally.{is, tally, total}
use cuhksz_operating_system.Files.Counted.{IsCounted}
use cuhksz_operating_system.Files.Calls.{sys_dup-Counts, sys_close-Closed}
use cuhksz_operating_system.Files.Loops.{
  open_file-Counts, fork_files-IsCounted, exit_files-IsCounted,
}

-- A call of a process; `forked` is that of the parent, with the place of the child.
pub data Call : Type 0 where
  opened : ℕ → File → Call
  copied : ℕ → ℕ → Call
  closed : ℕ → ℕ → Call
  forked : ℕ → ℕ → Call
  exited : ℕ → Call

abbrev pub after : Option (Option ℕ × System) → Option System
after none = none
after (some (answer, s)) = some s

unfoldable pub run : Call → System → Option System
run (opened p x) s = after (open_file p x s)
run (copied p fd) s = after (sys_dup p fd s)
run (closed p fd) s = after (sys_close p fd s)
run (forked p np) s = fork_files nofile 0 p np s
run (exited p) s = exit_files nofile 0 p s

-- The processes are there, and the child of a fork is another one with no descriptor in use.
abbrev pub Allowed : Call → System → Type 0
Allowed (opened p x) s = p < nproc
Allowed (copied p fd) s = p < nproc
Allowed (closed p fd) s = p < nproc
Allowed (forked p np) s =
    (p < nproc) × (np < nproc) × (np ≢ p) × ((e : ℕ) → e < nofile → s.ofile np e ≡ 0)
Allowed (exited p) s = p < nproc

unfoldable pub run_all : List Call → System → Option System
run_all [] s = some s
run_all (c ∷ calls) s = elim (run c s) [ none ↦ none | some s' ↦ run_all calls s' ]

unfoldable pub AllAllowed : List Call → System → Type 0
AllAllowed [] s = Unit
AllAllowed (c ∷ calls) s = Allowed c s × ((s' : System) → run c s ≡ some s' → AllAllowed calls s')

run-IsCounted :
    (c : Call) (s : System)
    → IsCounted s
    → Allowed c s
    → (s' : System) × (run c s ≡ some s') × IsCounted s'
unfolding run
run-IsCounted (opened p x) s v ok = let r = open_file-Counts p x s v ok in (r.1, ap after r.2, r.3)
run-IsCounted (copied p fd) s v ok = let r = sys_dup-Counts p fd s v ok in (r.1, ap after r.2, r.3)
run-IsCounted (closed p fd) s v ok = elim (sys_close-Closed p fd s v ok) [
  | inl h ↦ (s, ap after h.0, v)
  | inr (f, s', h, c) ↦ (s', ap after c.answer, c.counts)
]
run-IsCounted (forked p np) s v ok =
    fork_files-IsCounted nofile 0 p np s v (omega arith) ok.0 ok.1 ok.2 (λ e h. ok.3 e)
run-IsCounted (exited p) s v ok =
    let r =
      exit_files-IsCounted nofile 0 p s v (omega arith) ok (λ e h. absurd (omega (arith, h))) in
    (r.0, r.1, r.2)

-- Any sequence of calls of processes in the table that open a file, copy or close a descriptor, fork
-- into a process with no descriptor in use, or exit, runs without a panic from a state where the
-- references of each file are the descriptors that hold it, and leaves such a state.
pub run_all-IsCounted :
    (calls : List Call) (s : System)
    → IsCounted s
    → AllAllowed calls s
    → (s' : System) × (run_all calls s ≡ some s') × IsCounted s'
unfolding run_all AllAllowed
run_all-IsCounted [] s v ok = (s, refl, v)
run_all-IsCounted (c ∷ calls) s v ok =
    let r = run-IsCounted c s v ok.0 in
    let ih = run_all-IsCounted calls r.0 r.2 (ok.1 r.0 r.1) in (ih.0, rw (r.1, run_all) ih.1, ih.2)

tally_empty : (f n : ℕ) → tally f n (λ e. 0) ≡ 0
unfolding tally
tally_empty f zero = refl
tally_empty f (suc n) =
    let z : is f 0 ≡ 0 = rw (ne→== 0 (f + 1) (λ h. absurd (omega (arith, h)))) refl in
    omega (arith, tally_empty f n, z)

total_empty : (f n : ℕ) → total f n (λ p e. 0) ≡ 0
unfolding total
total_empty f zero = refl
total_empty f (suc n) = omega (arith, total_empty f n, tally_empty f nofile)

-- The system before any call.
abbrev pub boot : System
boot = record {
  file = λ f. record {
    type = fd_none;
    ref = 0;
    readable = false;
    writable = false;
    pipe = 0;
    ip = 0;
    off = 0;
    major = 0;
  };
  ofile = λ p e. 0;
  ended = [];
}

pub boot-IsCounted : IsCounted boot
boot-IsCounted = record {
  counted = λ f low. sym (total_empty f nproc);
  bounded = λ p fd low low_fd. omega arith;
  idle = λ f low z. refl;
}
