-- ===== src/Strings/Copy.antt =====
-- `safestrcpy` and `strlen` of string.c: what is copied is a string.
use cuhksz_operating_system.Prelude.{
  ℕ, zero, suc, ◌+◌, ◌-◌, ◌%◌, ◌≤◌, ◌<◌, ◌≡◌, ◌≢◌, ◌⊎◌, inl, inr, refl, sym, ap, ◌∙◌, some, ◌==◌,
  arith, Bool-cases, ==→eq, ==→ne, ne→==,
}
use cuhksz_operating_system.Strings.{
  Memory, store, safestrcpy_from, safestrcpy, strlen_from, strlen,
}
use cuhksz_operating_system.Strings.Move.{IsBytes, store-IsBytes}

-- From `m` to `m'` the string at `t` was copied to the `n` bytes at `s`, and cut to fit.
pub record Copied (s t n : ℕ) (m m' : Memory) : Type 0 where
  pub len : ℕ
  pub fits : len < n
  pub same : (i : ℕ) → i < len → (m' (s + i) ≡ m (t + i)) × (m (t + i) ≢ 0)
  pub ends : m' (s + len) ≡ 0
  pub cut : (suc len ≡ n) ⊎ (m (t + len) ≡ 0)
  pub others : (a : ℕ) → (a < s) ⊎ (s + n ≤ a) → m' a ≡ m a

at_start : (m : Memory) (p : ℕ) → m (p + 0) ≡ m p
at_start m p = ap m (omega arith)

shift : (m : Memory) (p i : ℕ) → m (p + suc i) ≡ m (p + 1 + i)
shift m p i = ap m (omega arith)

stored : (s v a : ℕ) (m : Memory) → a ≢ s → store s v m a ≡ m a
stored s v a m ne = rw (ne→== a s ne)

safestrcpy_from-Copied :
    (s t n : ℕ) (m : Memory)
    → IsBytes m
    → (t + suc n ≤ s) ⊎ (s + suc n ≤ t)
    → Copied s t (suc n) m (safestrcpy_from s t n m)
unfolding safestrcpy_from
safestrcpy_from-Copied s t zero m b apart = record {
  len = 0;
  fits = omega arith;
  same = λ i h. absurd (omega arith);
  ends = ground arith;
  cut = inl refl;
  others = λ a h. ground arith;
}
safestrcpy_from-Copied s t (suc n) m b apart = elim (Bool-cases (m t % 256 == 0)) [
  | inl end ↦
      rw (end, safestrcpy_from)
        (record {
          len = 0;
          fits = omega arith;
          same = λ i h. absurd (omega arith);
          ends = ground (arith, end);
          cut = inr (at_start m t ∙ ground (arith, end, b t));
          others = λ a h. ground arith;
        })
  | inr more ↦
      let m₁ = store s (m t) m in
      let ih =
        safestrcpy_from-Copied (s + 1) (t + 1) n m₁ (store-IsBytes s (m t) m b) (ground arith) in
      let m' = safestrcpy_from (s + 1) (t + 1) n m₁ in
      let full : m t ≢ 0 = ground (arith, more) in
      rw (more, safestrcpy_from)
        (record {
          len = suc ih.len;
          fits = omega (arith, ih.fits);
          same = λ i h. elim (Bool-cases (i == 0)) [
            | inl first ↦
                let e : m' (s + i) ≡ m' s = ap m' (omega (arith, ==→eq i 0 first)) in
                let e' : m (t + i) ≡ m t = ap m (omega (arith, ==→eq i 0 first)) in
                let e'' : m' s ≡ m t = ih.others s (inl (omega arith)) ∙ ground (arith, b t) in
                (e ∙ e'' ∙ sym e', λ z. full (sym e' ∙ z))
            | inr later ↦
                let r = ih.same (i - 1) (omega (arith, h, ==→ne i 0 later)) in
                let e : m' (s + i) ≡ m' (s + 1 + (i - 1)) =
                  ap m' (omega (arith, ==→ne i 0 later)) in
                let e' : m (t + i) ≡ m (t + 1 + (i - 1)) = ap m (omega (arith, ==→ne i 0 later)) in
                let e'' : m₁ (t + 1 + (i - 1)) ≡ m (t + 1 + (i - 1)) =
                  stored s (m t) _ m (omega (arith, h, apart, ==→ne i 0 later)) in
                (e ∙ r.0 ∙ e'' ∙ sym e', λ z. r.1 (e'' ∙ sym e' ∙ z))
          ];
          ends = shift m' s ih.len ∙ ih.ends;
          cut = elim ih.cut [
            | inl c ↦ inl (omega (arith, c))
            | inr c ↦ inr (
                shift m t ih.len
                ∙ sym (stored s (m t) (t + 1 + ih.len) m (omega (arith, apart, ih.fits)))
                ∙ c)
          ];
          others = λ a h. ih.others a (ground (arith, h)) ∙ stored s (m t) a m (omega (arith, h));
        })
]

-- For a buffer of at least one byte that does not overlap the string: `safestrcpy` copies the string
-- up to its end, or as much of it as fits; what stands in the buffer ends with a zero byte inside the
-- buffer, and no byte outside of the buffer changes. For an empty buffer nothing changes.
pub safestrcpy-Copied :
    (s t n : ℕ) (m : Memory)
    → IsBytes m
    → (t + n ≤ s) ⊎ (s + n ≤ t)
    → ((n ≡ 0) × (safestrcpy s t n m ≡ m)) ⊎ Copied s t n m (safestrcpy s t n m)
unfolding safestrcpy
safestrcpy-Copied s t zero m b apart = inl (refl, refl)
safestrcpy-Copied s t (suc n) m b apart =
    let e : suc n - 1 ≡ n = omega arith in
    inr (rw (ne→== (suc n) 0 (omega arith), e) (safestrcpy_from-Copied s t n m b apart))

-- `strlen` finds the first zero byte, if it looks so far.
strlen_from-eq :
    (fuel i k s : ℕ) (m : Memory)
    → k < fuel
    → m (s + (i + k)) ≡ 0
    → ((j : ℕ) → j < k → m (s + (i + j)) ≢ 0)
    → strlen_from fuel i s m ≡ some (i + k)
unfolding strlen_from
strlen_from-eq zero i k s m h end full = absurd (omega arith)
strlen_from-eq (suc fuel) i zero s m h end full =
    let e : i + 0 ≡ i = omega arith in rw (ap (λ (x : ℕ). m (s + x)) (sym e) ∙ end) (rw e refl)
strlen_from-eq (suc fuel) i (suc k) s m h end full =
    let away : m (s + i) ≢ 0 =
      λ z. full 0 (omega arith) (ap (λ (x : ℕ). m (s + x)) (omega arith) ∙ z) in
    let go =
      strlen_from-eq fuel (i + 1) k s m (omega arith)
        (ap (λ (x : ℕ). m (s + x)) (omega arith) ∙ end)
        (λ j lt z. full (suc j) (omega arith) (ap (λ (x : ℕ). m (s + x)) (omega arith) ∙ z)) in
    let e : i + 1 + k ≡ i + suc k = omega arith in rw (ne→== (m (s + i)) 0 away) (go ∙ ap some e)

-- What `safestrcpy` leaves in a buffer that is not empty is a string whose length `strlen` finds: it
-- is that of the source, or the buffer is full.
pub strlen-safestrcpy :
    (s t n : ℕ) (m : Memory)
    → IsBytes m
    → (t + n ≤ s) ⊎ (s + n ≤ t)
    → 1 ≤ n
    → (k : ℕ) × (k < n)
      × (strlen n s (safestrcpy s t n m) ≡ some k)
      × ((k + 1 ≡ n) ⊎ (strlen n t m ≡ some k))
strlen-safestrcpy s t n m b apart h = elim (safestrcpy-Copied s t n m b apart) [
  | inl (e, _) ↦ absurd (omega arith)
  | inr c ↦ (
    c.len,
    c.fits,
    strlen_from-eq n 0 c.len s _ c.fits (ap (safestrcpy s t n m) (omega arith) ∙ c.ends) (λ j lt z.
          let e : m (t + j) ≡ 0 = sym (c.same j lt).0 ∙ ap (safestrcpy s t n m) (omega arith) ∙ z in
          (c.same j lt).1 e)
        ∙ ap some (omega arith),
    elim c.cut [
      | inl full ↦ inl (omega (arith, full))
      | inr end ↦ inr (
          strlen_from-eq n 0 c.len t m c.fits (ap m (omega arith) ∙ end)
            (λ j lt z. (c.same j lt).1 (ap m (omega arith) ∙ z))
          ∙ ap some (omega arith))
    ],
  )
]
