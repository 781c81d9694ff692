-- ===== src/Files/Loops.antt =====
-- `sys_open` and the loops of `fork` and `exit` over the descriptors.
use cuhksz_operating_system.Prelude.{
  ℕ, zero, suc, ◌+◌, ◌-◌, ◌≤◌, ◌<◌, ◌≡◌, ◌≢◌, inl, inr, refl, sym, ap, ◌∙◌, subst, none, some, ◌==◌,
  arith, Bool-cases, ==→eq, ==→ne, eq→==,
}
use cuhksz_operating_system.Files.{
  nfile, nofile, nproc, fd_none, File, System, set_file, set_ofile, dropped, find_file, taken,
  filealloc, open_file, fork_files, exit_files,
}
use cuhksz_operating_system.Files.Tally.{at_ofile, off_ofile}
use cuhksz_operating_system.Files.Counted.{
  IsCounted, file-IsCounted, add-IsCounted, held_ref, drop-IsCounted,
}
use cuhksz_operating_system.Files.Calls.{
  held, fdalloc_from-free, find_file-free, more, filedup-more, fileclose-dropped, dropped-ofile,
  Counts,
}

-- The last of two changes of a file stands.
twice-IsCounted :
    (f : ℕ) (x y : File) (s : System)
    → IsCounted (set_file f x s)
    → IsCounted (set_file f x (set_file f y s))
twice-IsCounted f x y s w =
    let same : (g : ℕ) → (set_file f x (set_file f y s)).file g ≡ (set_file f x s).file g =
      λ g. elim (Bool-cases (g == f)) [ inl e ↦ rw e refl | inr e ↦ rw e refl ] in
    record {
      counted = λ g low. ap (λ (z : File). z.ref) (same g) ∙ w.counted g low;
      bounded = w.bounded;
      idle =
          λ g low. subst (λ (z : File). z.ref ≡ 0 → z.type ≡ fd_none) (sym (same g)) (w.idle g low);
    }

-- A file that was taken for nobody is free again.
untaken-IsCounted :
    (f : ℕ) (s : System) → IsCounted s → (s.file f).ref ≡ 0 → IsCounted (dropped f (taken f s))
untaken-IsCounted f s v free =
    let x : File = record (s.file f) { ref = 0; type = fd_none } in
    let w =
      twice-IsCounted f x (record (s.file f) { ref = 1 }) s
        (file-IsCounted f x s v (sym free) (λ z. refl)) in
    rw (eq→== f f refl) (record { counted = w.counted; bounded = w.bounded; idle = w.idle })

filealloc-none : (s : System) → find_file nfile 0 s ≡ none → filealloc s ≡ (none, s)
unfolding filealloc
filealloc-none s e = rw (e, filealloc) refl

filealloc-some :
    (s : System) (f : ℕ) → find_file nfile 0 s ≡ some f → filealloc s ≡ (some f, taken f s)
unfolding filealloc
filealloc-some s f e = rw (e, filealloc) refl

taken_ref : (f : ℕ) (s : System) → ((taken f s).file f).ref ≡ 1
taken_ref f s = rw (eq→== f f refl) refl

pub open_file-Counts :
    (p : ℕ) (x : File) (s : System) → IsCounted s → p < nproc → Counts (open_file p x s)
unfolding open_file
open_file-Counts p x s v low = elim (find_file-free nfile 0 s) [
  | inl h ↦ let a = filealloc-none s h in (none, s, rw (a, open_file) (rw a refl), v)
  | inr (f, e, low_f, free) ↦
      let a = filealloc-some s f e in
      elim (fdalloc_from-free nofile 0 p f (taken f s)) [
        | inl k ↦ (
          none,
          dropped f (taken f s),
          rw (a, open_file)
              (rw a (
                rw k (
                  rw a (
                    rw k (
                      rw (fileclose-dropped f (taken f s) (omega (arith, taken_ref f s))) refl))))),
          untaken-IsCounted f s v free,
        )
        | inr (k, e', low_k, free_k) ↦ (
          some k,
          opened f k,
          rw (a, open_file) (rw a (rw e' (rw a (rw e' refl)))),
          twice-IsCounted f (fields f) (record (s.file f) { ref = 1 }) (set_ofile p k (f + 1) s)
              (add-IsCounted p k low (omega (arith, low_k)) f (omega (arith, low_f)) s v (fields f)
                free_k (omega (arith, taken_ref f s, free))),
        )
      ]
]
  where
    fields : ℕ → File
    fields f = record x { ref = ((taken f s).file f).ref }

    opened : ℕ → ℕ → System
    opened f k = set_file f (fields f) (set_ofile p k (f + 1) (taken f s))

-- The child of `fork` starts with no descriptor in use.
pub fork_files-IsCounted :
    (left fd p np : ℕ) (s : System)
    → IsCounted s
    → fd + left ≤ nofile
    → p < nproc
    → np < nproc
    → np ≢ p
    → ((e : ℕ) → fd ≤ e → e < nofile → s.ofile np e ≡ 0)
    → (s' : System) × (fork_files left fd p np s ≡ some s') × IsCounted s'
unfolding fork_files
fork_files-IsCounted zero fd p np s v low low_p low_np apart empty = (s, refl, v)
fork_files-IsCounted (suc left) fd p np s v low low_p low_np apart empty =
    elim (Bool-cases (s.ofile p fd == 0)) [
      | inl e ↦
          let ih =
            fork_files-IsCounted left (fd + 1) p np s v (omega (arith, low)) low_p low_np apart
              (λ k h. empty k (omega (arith, h))) in
          (ih.0, rw (e, fork_files) ih.1, ih.2)
      | inr e ↦
          let f = s.ofile p fd - 1 in
          let low_fd : fd < nofile = omega (arith, low) in
          let h = held p fd s v low_p low_fd (==→ne _ _ e) in
          let s₁ = more f (set_ofile np fd (f + 1) s) in
          let ih =
            fork_files-IsCounted left (fd + 1) p np s₁
              (add-IsCounted np fd low_np low_fd f h.low_f s v _ (empty fd (omega arith) low_fd)
                refl)
              (omega (arith, low)) low_p low_np apart
              (λ k h' low_k.
                off_ofile np fd (f + 1) s np k (inr (λ z. absurd (omega (arith, z, h'))))
                ∙ empty k (omega (arith, h')) low_k) in
          (
            ih.0,
            rw (e, fork_files)
                (rw (filedup-more f s (held_ref p fd low_p low_fd f h.low_f s v h.holds)) (
                  ap (λ n. fork_files left (fd + 1) p np (set_ofile np fd n (more f s))) h.holds
                  ∙ ih.1)),
            ih.2,
          )
    ]

-- `exit` closes the file before it clears the descriptor, `sys_close` after.
close_first :
    (p fd f : ℕ) (s : System) → set_ofile p fd 0 (dropped f s) ≡ dropped f (set_ofile p fd 0 s)
close_first p fd f s = elim (Bool-cases ((s.file f).ref - 1 == 0)) [
  | inl e ↦ rw e refl
  | inr e ↦ rw e refl
]

pub exit_files-IsCounted :
    (left fd p : ℕ) (s : System)
    → IsCounted s
    → fd + left ≤ nofile
    → p < nproc
    → ((e : ℕ) → e < fd → s.ofile p e ≡ 0)
    → (s' : System) × (exit_files left fd p s ≡ some s')
      × IsCounted s'
      × ((e : ℕ) → e < fd + left → s'.ofile p e ≡ 0)
unfolding exit_files
exit_files-IsCounted zero fd p s v low low_p empty = (s, refl, v, λ e h. empty e (omega (arith, h)))
exit_files-IsCounted (suc left) fd p s v low low_p empty = elim (Bool-cases (s.ofile p fd == 0)) [
  | inl e ↦
      let ih = exit_files-IsCounted left (fd + 1) p s v (omega (arith, low)) low_p (λ k h.
        elim (Bool-cases (k == fd)) [
          | inl z ↦ ap (s.ofile p) (==→eq k fd z) ∙ ==→eq _ _ e
          | inr z ↦ empty k (omega (arith, h, ==→ne k fd z))
        ]) in
      (ih.0, rw (e, exit_files) ih.1, ih.2, λ k h. ih.3 k (omega (arith, h)))
  | inr e ↦
      let f = s.ofile p fd - 1 in
      let low_fd : fd < nofile = omega (arith, low) in
      let h = held p fd s v low_p low_fd (==→ne _ _ e) in
      let s₁ = dropped f (set_ofile p fd 0 s) in
      let same = dropped-ofile f (set_ofile p fd 0 s) in
      let ih =
        exit_files-IsCounted left (fd + 1) p s₁
          (drop-IsCounted p fd low_p low_fd f h.low_f s v h.holds) (omega (arith, low)) low_p
          (λ k h'. ap (λ (o : ℕ → ℕ → ℕ). o p k) same ∙ elim (Bool-cases (k == fd)) [
            | inl z ↦ ap ((set_ofile p fd 0 s).ofile p) (==→eq k fd z) ∙ at_ofile p fd 0 s
            | inr z ↦
                off_ofile p fd 0 s p k (inr (==→ne k fd z))
                ∙ empty k (omega (arith, h', ==→ne k fd z))
          ]) in
      (
        ih.0,
        rw (e, exit_files)
            (rw (fileclose-dropped f s (held_ref p fd low_p low_fd f h.low_f s v h.holds))
              (ap (exit_files left (fd + 1) p) (close_first p fd f s) ∙ ih.1)),
        ih.2,
        λ k h'. ih.3 k (omega (arith, h')),
      )
]
