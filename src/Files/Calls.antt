-- ===== src/Files/Calls.antt =====
-- The calls that open, copy and close files never panic and count the descriptors.
use cuhksz_operating_system.Prelude.{
  ℕ, zero, suc, ◌+◌, ◌-◌, ◌≤◌, ◌<◌, ◌≡◌, ◌≢◌, ◌⊎◌, inl, inr, refl, List, ◌∷◌, ap, ◌∙◌, Option, none,
  some, ◌==◌, leb, arith, Bool-cases, ==→eq, ==→ne, eq→==, ne→==,
}
use cuhksz_operating_system.Files.{
  nfile, nofile, nproc, File, fd_pipe, fd_inode, fd_device, Ended, pipeclose, iput, System,
  set_file, set_ofile, dropped, filedup, find_file, fileclose, argfd, give_up, fdalloc_from,
  sys_dup, sys_close,
}
use cuhksz_operating_system.Files.Tally.{is, total, total-set_ofile, at_ofile}
use cuhksz_operating_system.Files.Counted.{IsCounted, add-IsCounted, held_ref, drop-IsCounted}

-- A descriptor of a process holds a file of the table.
pub record Holds (p fd f : ℕ) (s : System) : Type 0 where
  pub low_fd : fd < nofile
  pub low_f : f < nfile
  pub holds : s.ofile p fd ≡ f + 1

pub held :
    (p fd : ℕ) (s : System)
    → IsCounted s
    → p < nproc
    → fd < nofile
    → s.ofile p fd ≢ 0
    → Holds p fd (s.ofile p fd - 1) s
held p fd s v low low_fd used = record {
  low_fd = low_fd;
  low_f = omega (arith, v.bounded p fd low low_fd, used);
  holds = omega (arith, used);
}

argfd-Holds :
    (p fd : ℕ) (s : System)
    → IsCounted s
    → p < nproc
    → ((argfd p fd s ≡ none) × ((nofile ≤ fd) ⊎ (s.ofile p fd ≡ 0)))
      ⊎ ((f : ℕ) × (argfd p fd s ≡ some f) × Holds p fd f s)
unfolding argfd
argfd-Holds p fd s v low = elim (Bool-cases (leb nofile fd)) [
  | inl e ↦ inl (rw e refl, inl (ground (arith, e)))
  | inr e ↦ elim (Bool-cases (s.ofile p fd == 0)) [
    | inl e' ↦ inl (rw (e, e') refl, inr (==→eq _ _ e'))
    | inr e' ↦
        inr
          (s.ofile p fd - 1, rw (e, e') refl, held p fd s v low (ground (arith, e)) (==→ne _ _ e'))
  ]
]

pub fdalloc_from-free :
    (left fd p f : ℕ) (s : System)
    → (fdalloc_from left fd p f s ≡ (none, s))
      ⊎ ((k : ℕ) × (fdalloc_from left fd p f s ≡ (some k, set_ofile p k (f + 1) s))
          × (k < fd + left)
          × (s.ofile p k ≡ 0))
unfolding fdalloc_from
fdalloc_from-free zero fd p f s = inl refl
fdalloc_from-free (suc left) fd p f s = elim (Bool-cases (s.ofile p fd == 0)) [
  | inl e ↦ inr (fd, rw e refl, omega arith, ==→eq _ _ e)
  | inr e ↦ elim (fdalloc_from-free left (fd + 1) p f s) [
    | inl h ↦ inl (rw e h)
    | inr h ↦ inr (h.0, rw e h.1, omega (arith, h.2), h.3)
  ]
]

pub find_file-free :
    (left i : ℕ) (s : System)
    → (find_file left i s ≡ none)
      ⊎ ((f : ℕ) × (find_file left i s ≡ some f) × (f < i + left) × ((s.file f).ref ≡ 0))
unfolding find_file
find_file-free zero i s = inl refl
find_file-free (suc left) i s = elim (Bool-cases ((s.file i).ref == 0)) [
  | inl e ↦ inr (i, rw e refl, omega arith, ==→eq _ _ e)
  | inr e ↦ elim (find_file-free left (i + 1) s) [
    | inl h ↦ inl (rw e h)
    | inr h ↦ inr (h.0, rw e h.1, omega (arith, h.2), h.3)
  ]
]

abbrev pub more : ℕ → System → System
more f s = set_file f (record (s.file f) { ref = (s.file f).ref + 1 }) s

pub filedup-more : (f : ℕ) (s : System) → 0 < (s.file f).ref → filedup f s ≡ some (more f s)
unfolding filedup
filedup-more f s pos = rw (ne→== (s.file f).ref 0 (omega (arith, pos))) refl

pub fileclose-dropped :
    (f : ℕ) (s : System) → 0 < (s.file f).ref → fileclose f s ≡ some (dropped f s)
unfolding fileclose
fileclose-dropped f s pos = rw (ne→== (s.file f).ref 0 (omega (arith, pos))) refl

pub dropped-ofile : (f : ℕ) (s : System) → (dropped f s).ofile ≡ s.ofile
dropped-ofile f s = elim (Bool-cases ((s.file f).ref - 1 == 0)) [
  | inl e ↦ rw e refl
  | inr e ↦ rw e refl
]

dropped_last :
    (f : ℕ) (s : System) → (s.file f).ref - 1 ≡ 0 → (dropped f s).ended ≡ give_up (s.file f) s.ended
dropped_last f s e = rw (eq→== _ _ e) refl

dropped_more : (f : ℕ) (s : System) → (s.file f).ref - 1 ≢ 0 → (dropped f s).ended ≡ s.ended
dropped_more f s e = rw (ne→== _ _ e) refl

give_up-pipe :
    (ff : File) (ended : List Ended)
    → ff.type ≡ fd_pipe
    → give_up ff ended ≡ pipeclose ff.pipe ff.writable ∷ ended
unfolding give_up
give_up-pipe ff ended e = rw e refl

give_up-inode :
    (ff : File) (ended : List Ended)
    → (ff.type ≡ fd_inode) ⊎ (ff.type ≡ fd_device)
    → give_up ff ended ≡ iput ff.ip ∷ ended
unfolding give_up
give_up-inode ff ended (inl e) = rw e refl
give_up-inode ff ended (inr e) = rw e refl

abbrev pub Counts : {A : Type 0} → Option (A × System) → Type 0
Counts {A = A} r = (a : A) × (s' : System) × (r ≡ some (a, s')) × IsCounted s'

pub sys_dup-Counts : (p fd : ℕ) (s : System) → IsCounted s → p < nproc → Counts (sys_dup p fd s)
unfolding sys_dup
sys_dup-Counts p fd s v low = elim (argfd-Holds p fd s v low) [
  | inl h ↦ (none, s, rw (h.0, sys_dup) refl, v)
  | inr (f, e, h) ↦ elim (fdalloc_from-free nofile 0 p f s) [
    | inl k ↦ (none, s, rw (e, sys_dup) (rw k (rw k refl)), v)
    | inr (k, e', low_k, free) ↦ (
      some k,
      more f (set_ofile p k (f + 1) s),
      rw (e, sys_dup)
          (rw e' (
            rw e' (
              rw
                (filedup-more f (set_ofile p k (f + 1) s)
                  (held_ref p fd low h.low_fd f h.low_f s v h.holds))
                refl))),
      add-IsCounted p k low (omega (arith, low_k)) f h.low_f s v _ free refl,
    )
  ]
]

-- What `sys_close` of a descriptor that holds file `f` leaves.
pub record Closed (p fd f : ℕ) (s s' : System) : Type 0 where
  pub answer : sys_close p fd s ≡ some (some 0, s')
  pub free : s'.ofile p fd ≡ 0
  pub last_pipe :
      total f nproc s'.ofile ≡ 0
      → (s.file f).type ≡ fd_pipe
      → s'.ended ≡ pipeclose (s.file f).pipe (s.file f).writable ∷ s.ended
  pub last_inode :
      total f nproc s'.ofile ≡ 0
      → ((s.file f).type ≡ fd_inode) ⊎ ((s.file f).type ≡ fd_device)
      → s'.ended ≡ iput (s.file f).ip ∷ s.ended
  pub not_last : 0 < total f nproc s'.ofile → s'.ended ≡ s.ended
  pub counts : IsCounted s'

-- When the references of all files are the descriptors that hold them: `sys_close` answers -1 and
-- changes nothing for a descriptor that is out of range or not in use. Else it answers 0, the
-- descriptor is not in use any more, and the references are the descriptors again. If no descriptor of
-- any process holds the file now, the end of the pipe that the file is is closed, or the inode of the
-- file or the device is put; if one does, nothing is given up.
pub sys_close-Closed :
    (p fd : ℕ) (s : System)
    → IsCounted s
    → p < nproc
    → ((sys_close p fd s ≡ some (none, s)) × ((nofile ≤ fd) ⊎ (s.ofile p fd ≡ 0)))
      ⊎ ((f : ℕ) × (s' : System) × (s.ofile p fd ≡ f + 1) × Closed p fd f s s')
unfolding sys_close
sys_close-Closed p fd s v low = elim (argfd-Holds p fd s v low) [
  | inl h ↦ inl (rw (h.0, sys_close) refl, h.1)
  | inr (f, e, h) ↦
      let s₁ = set_ofile p fd 0 s in
      let pos = held_ref p fd low h.low_fd f h.low_f s v h.holds in
      let w = drop-IsCounted p fd low h.low_fd f h.low_f s v h.holds in
      let left : (s.file f).ref ≡ total f nproc s₁.ofile + 1 = omega (
        arith,
        v.counted f h.low_f,
        total-set_ofile p fd 0 s f low h.low_fd,
        is_one f (s.ofile p fd) h.holds,
        is_zero f,
      ) in
      inr (
        f,
        dropped f s₁,
        h.holds,
        record {
          answer = rw (e, sys_close) (rw (fileclose-dropped f s₁ pos) refl);
          free = ap (λ (o : ℕ → ℕ → ℕ). o p fd) (dropped-ofile f s₁) ∙ at_ofile p fd 0 s;
          last_pipe = λ h' is_pipe.
              dropped_last f s₁ (omega (arith, left, ap (total f nproc) (dropped-ofile f s₁), h'))
              ∙ give_up-pipe (s.file f) s.ended is_pipe;
          last_inode = λ h' is_inode.
              dropped_last f s₁ (omega (arith, left, ap (total f nproc) (dropped-ofile f s₁), h'))
              ∙ give_up-inode (s.file f) s.ended is_inode;
          not_last = λ h'.
              dropped_more f s₁
                (λ z. absurd (omega (arith, left, ap (total f nproc) (dropped-ofile f s₁), h', z)));
          counts = w;
        },
      )
]
  where
    is_one : (f w : ℕ) → w ≡ f + 1 → is f w ≡ 1
    is_one f w e = rw (eq→== w (f + 1) e) refl

    is_zero : (f : ℕ) → is f 0 ≡ 0
    is_zero f = rw (ne→== 0 (f + 1) (λ z. absurd (omega (arith, z)))) refl
