-- ===== src/Files/Counted.antt =====
-- The references of a file are the descriptors that hold it.
use cuhksz_operating_system.Prelude.{
  ℕ, ◌+◌, ◌-◌, ◌≤◌, ◌<◌, ◌≡◌, ◌≢◌, ◌⊎◌, inl, inr, refl, sym, ap, ◌∙◌, subst, ◌==◌, arith,
  Bool-cases, ==→eq, ==→ne, eq→==, ne→==,
}
use cuhksz_operating_system.Files.{
  nfile, nofile, nproc, fd_none, File, System, set_file, set_ofile, dropped,
}
use cuhksz_operating_system.Files.Tally.{is, total, total-set_ofile, at_ofile, off_ofile}

pub record IsCounted (s : System) : Type 0 where
  pub counted : (f : ℕ) → f < nfile → (s.file f).ref ≡ total f nproc s.ofile
  pub bounded : (p fd : ℕ) → p < nproc → fd < nofile → s.ofile p fd ≤ nfile
  pub idle : (f : ℕ) → f < nfile → (s.file f).ref ≡ 0 → (s.file f).type ≡ fd_none

same_or_not : (j s : ℕ) → (j ≡ s) ⊎ (j ≢ s)
same_or_not j s = elim (Bool-cases (j == s)) [
  | inl e ↦ inl (==→eq j s e)
  | inr e ↦ inr (==→ne j s e)
]

at_file : (f g : ℕ) (x : File) (s : System) → g ≡ f → (set_file f x s).file g ≡ x
at_file f g x s e = rw (eq→== g f e) refl

off_file : (f g : ℕ) (x : File) (s : System) → g ≢ f → (set_file f x s).file g ≡ s.file g
off_file f g x s ne = rw (ne→== g f ne) refl

abbrev IsIdle : File → Type 0
IsIdle x = x.ref ≡ 0 → x.type ≡ fd_none

-- A file with the references that it had.
pub file-IsCounted :
    (f : ℕ) (x : File) (s : System)
    → IsCounted s
    → x.ref ≡ (s.file f).ref
    → IsIdle x
    → IsCounted (set_file f x s)
file-IsCounted f x s v same idle = record {
  counted = λ g low. elim (same_or_not g f) [
    | inl e ↦
        ap (λ (y : File). y.ref) (at_file f g x s e)
        ∙ same
        ∙ ap (λ k. (s.file k).ref) (sym e)
        ∙ v.counted g low
    | inr e ↦ ap (λ (y : File). y.ref) (off_file f g x s e) ∙ v.counted g low
  ];
  bounded = v.bounded;
  idle = λ g low. elim (same_or_not g f) [
    | inl e ↦ subst IsIdle (sym (at_file f g x s e)) idle
    | inr e ↦ subst IsIdle (sym (off_file f g x s e)) (v.idle g low)
  ];
}

module _ (p fd : ℕ) (low : p < nproc) (low_fd : fd < nofile) (f : ℕ) (low_f : f < nfile)
    (s : System) (v : IsCounted s) where
  -- A descriptor that goes between not in use and the file, which counts it.
  set-IsCounted :
      (x : File) (new : ℕ)
      → (new ≡ 0) ⊎ (new ≡ f + 1)
      → (s.ofile p fd ≡ 0) ⊎ (s.ofile p fd ≡ f + 1)
      → x.ref + is f (s.ofile p fd) ≡ (s.file f).ref + is f new
      → IsIdle x
      → IsCounted (set_file f x (set_ofile p fd new s))
  set-IsCounted x new is_new is_old count idle =
      let s₁ = set_ofile p fd new s in
      record {
        counted = λ g low_g.
            let t = total-set_ofile p fd new s g low low_fd in
            elim (same_or_not g f) [
              | inl e ↦
                  ap (λ (y : File). y.ref) (at_file f g x s₁ e)
                  ∙ omega (
                    arith,
                    count,
                    v.counted f low_f,
                    total-set_ofile p fd new s f low low_fd,
                    ap (λ k. total k nproc s₁.ofile) e,
                  )
              | inr e ↦
                  ap (λ (y : File). y.ref) (off_file f g x s₁ e)
                  ∙ omega (
                    arith,
                    v.counted g low_g,
                    t,
                    other g e new is_new,
                    other g e (s.ofile p fd) is_old,
                  )
            ];
        bounded = λ q e low_q low_e. elim (same_or_not q p) [
          | inl z ↦ elim (same_or_not e fd) [
            | inl z' ↦
                subst (λ k. s₁.ofile k e ≤ nfile) (sym z)
                  (subst (λ k. s₁.ofile p k ≤ nfile) (sym z')
                    (subst (λ k. k ≤ nfile) (sym (at_ofile p fd new s)) small))
            | inr z' ↦
                subst (λ k. k ≤ nfile) (sym (off_ofile p fd new s q e (inr z')))
                  (v.bounded q e low_q low_e)
          ]
          | inr z ↦
              subst (λ k. k ≤ nfile) (sym (off_ofile p fd new s q e (inl z)))
                (v.bounded q e low_q low_e)
        ];
        idle = λ g low_g. elim (same_or_not g f) [
          | inl e ↦ subst IsIdle (sym (at_file f g x s₁ e)) idle
          | inr e ↦ subst IsIdle (sym (off_file f g x s₁ e)) (v.idle g low_g)
        ];
      }
    where
      small : new ≤ nfile
      small = elim is_new [ inl e ↦ omega (arith, e) | inr e ↦ omega (arith, e, low_f) ]

      other : (g : ℕ) → g ≢ f → (w : ℕ) → (w ≡ 0) ⊎ (w ≡ f + 1) → is g w ≡ 0
      other g ne w (inl e) = rw (ne→== w (g + 1) (λ z. absurd (omega (arith, e, z)))) refl
      other g ne w (inr e) = rw (ne→== w (g + 1) (λ z. ne (omega (arith, e, z)))) refl

  -- A descriptor gets the file, which counts one more.
  pub add-IsCounted :
      (x : File)
      → s.ofile p fd ≡ 0
      → x.ref ≡ (s.file f).ref + 1
      → IsCounted (set_file f x (set_ofile p fd (f + 1) s))
  add-IsCounted x free more =
      set-IsCounted x (f + 1) (inr refl) (inl free)
        (omega (arith, more, is_free (s.ofile p fd) free, is_full))
        (λ z. absurd (omega (arith, more, z)))
    where
      is_free : (w : ℕ) → w ≡ 0 → is f w ≡ 0
      is_free w e = rw (ne→== w (f + 1) (λ z. absurd (omega (arith, e, z)))) refl

      is_full : is f (f + 1) ≡ 1
      is_full = rw (eq→== (f + 1) (f + 1) refl) refl

  module _ (holds : s.ofile p fd ≡ f + 1) where
    is_one : is f (s.ofile p fd) ≡ 1
    is_one = rw (eq→== (s.ofile p fd) (f + 1) holds) refl

    pub held_ref : 0 < (s.file f).ref
    held_ref =
        omega (arith, v.counted f low_f, total-set_ofile p fd 0 s f low low_fd, is_one, is_zero)
      where
        is_zero : is f 0 ≡ 0
        is_zero = rw (ne→== 0 (f + 1) (λ z. absurd (omega (arith, z)))) refl

    -- A descriptor gives the file up.
    pub drop-IsCounted : IsCounted (dropped f (set_ofile p fd 0 s))
    drop-IsCounted = elim (Bool-cases ((s.file f).ref - 1 == 0)) [
      | inl e ↦
          let w =
            set-IsCounted (record (s.file f) { ref = 0; type = fd_none }) 0 (inl refl) (inr holds)
              (omega (arith, is_one, is_zero, held_ref, ==→eq _ _ e)) (λ z. refl) in
          rw e (record { counted = w.counted; bounded = w.bounded; idle = w.idle })
      | inr e ↦ rw e (
          set-IsCounted (record (s.file f) { ref = (s.file f).ref - 1 }) 0 (inl refl) (inr holds)
            (omega (arith, is_one, is_zero, held_ref)) (λ z. absurd (==→ne _ _ e z)))
    ]
      where
        is_zero : is f 0 ≡ 0
        is_zero = rw (ne→== 0 (f + 1) (λ z. absurd (omega (arith, z)))) refl
