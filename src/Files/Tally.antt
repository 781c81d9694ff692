-- ===== src/Files/Tally.antt =====
-- How many descriptors hold a file.
use cuhksz_operating_system.Prelude.{
  ℕ, zero, suc, ◌+◌, ◌<◌, ◌≡◌, ◌≢◌, ◌⊎◌, inl, inr, refl, ap, ◌==◌, if◌then◌else◌, arith, Bool-cases,
  ==→eq, ==→ne, eq→==, ne→==,
}
use cuhksz_operating_system.Files.{nofile, nproc, System, set_ofile}

abbrev pub is : ℕ → ℕ → ℕ
is f v = if v == f + 1 then 1 else 0

-- Of the first `n` descriptors of a process.
unfoldable pub tally : ℕ → ℕ → (ℕ → ℕ) → ℕ
tally f zero o = 0
tally f (suc n) o = is f (o n) + tally f n o

-- Of the first `n` processes.
unfoldable pub total : ℕ → ℕ → (ℕ → ℕ → ℕ) → ℕ
total f zero o = 0
total f (suc n) o = tally f nofile (o n) + total f n o

tally_same : (f n : ℕ) (o o' : ℕ → ℕ) → ((e : ℕ) → e < n → o e ≡ o' e) → tally f n o ≡ tally f n o'
unfolding tally
tally_same f zero o o' same = refl
tally_same f (suc n) o o' same =
    let ih = tally_same f n o o' (λ e low. same e (omega (arith, low))) in
    omega (arith, ih, ap (is f) (same n (omega arith)))

-- One descriptor changes.
tally_set :
    (f n fd : ℕ) (o o' : ℕ → ℕ)
    → fd < n
    → ((e : ℕ) → e ≢ fd → o' e ≡ o e)
    → tally f n o' + is f (o fd) ≡ tally f n o + is f (o' fd)
unfolding tally
tally_set f zero fd o o' low off = absurd (omega (arith, low))
tally_set f (suc n) fd o o' low off = elim (Bool-cases (n == fd)) [
  | inl e ↦
      let e' = ==→eq n fd e in
      let rest = tally_same f n o' o (λ k h. off k (λ z. absurd (omega (arith, z, h, e')))) in
      omega (arith, rest, ap (λ k. is f (o k)) e', ap (λ k. is f (o' k)) e')
  | inr e ↦
      let ih = tally_set f n fd o o' (omega (arith, low, ==→ne n fd e)) off in
      omega (arith, ih, ap (is f) (off n (==→ne n fd e)))
]

total_same :
    (f n : ℕ) (o o' : ℕ → ℕ → ℕ)
    → ((q : ℕ) → q < n → (e : ℕ) → o q e ≡ o' q e)
    → total f n o ≡ total f n o'
unfolding total
total_same f zero o o' same = refl
total_same f (suc n) o o' same =
    let ih = total_same f n o o' (λ q low. same q (omega (arith, low))) in
    omega (arith, ih, tally_same f nofile (o n) (o' n) (λ e low. same n (omega arith) e))

-- One descriptor of one process changes.
pub total_set :
    (f n p fd : ℕ) (o o' : ℕ → ℕ → ℕ)
    → p < n
    → fd < nofile
    → ((q e : ℕ) → q ≢ p → o' q e ≡ o q e)
    → ((e : ℕ) → e ≢ fd → o' p e ≡ o p e)
    → total f n o' + is f (o p fd) ≡ total f n o + is f (o' p fd)
unfolding total
total_set f zero p fd o o' low low_fd off_p off_fd = absurd (omega (arith, low))
total_set f (suc n) p fd o o' low low_fd off_p off_fd = elim (Bool-cases (n == p)) [
  | inl e ↦
      let e' = ==→eq n p e in
      let rest = total_same f n o' o (λ q h k. off_p q k (λ z. absurd (omega (arith, z, h, e')))) in
      let own = tally_set f nofile fd (o p) (o' p) low_fd off_fd in
      omega
        (arith, rest, own, ap (λ k. tally f nofile (o k)) e', ap (λ k. tally f nofile (o' k)) e')
  | inr e ↦
      let ih = total_set f n p fd o o' (omega (arith, low, ==→ne n p e)) low_fd off_p off_fd in
      let same = tally_same f nofile (o' n) (o n) (λ k h. off_p n k (==→ne n p e)) in
      omega (arith, ih, same)
]

module _ (p fd v : ℕ) (s : System) where
  pub at_ofile : (set_ofile p fd v s).ofile p fd ≡ v
  at_ofile = rw (eq→== p p refl, eq→== fd fd refl) refl

  pub off_ofile : (q e : ℕ) → (q ≢ p) ⊎ (e ≢ fd) → (set_ofile p fd v s).ofile q e ≡ s.ofile q e
  off_ofile q e (inl h) = rw (ne→== q p h) refl
  off_ofile q e (inr h) = elim (Bool-cases (q == p)) [
    | inl z ↦ rw (z, ne→== e fd h) refl
    | inr z ↦ rw z refl
  ]

  -- The count of a file after one descriptor changes.
  pub total-set_ofile :
      (f : ℕ)
      → p < nproc
      → fd < nofile
      → total f nproc (set_ofile p fd v s).ofile + is f (s.ofile p fd)
        ≡ total f nproc s.ofile + is f v
  total-set_ofile f low low_fd =
      let o' = (set_ofile p fd v s).ofile in
      let h =
        total_set f nproc p fd s.ofile o' low low_fd (λ q e ne. off_ofile q e (inl ne))
          (λ e ne. off_ofile p e (inr ne)) in
      omega (arith, h, ap (is f) at_ofile)
