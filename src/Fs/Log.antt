-- ===== src/Fs/Log.antt =====
-- What `log_write` and stores to a buffer do, and the contract that every change of a block obeys:
-- the changed block is in the log's header, so that the commit writes it.
use cuhksz_operating_system.Prelude.{
  ℕ, suc, ◌+◌, ◌^◌, ◌≤◌, ◌<◌, ◌≡◌, ◌≢◌, inl, inr, refl, ap, ◌∙◌, true, ◌||◌, List, [], ◌∷◌, ◌++◌,
  ◌==◌, length, arith, Bool-cases, length-append, ==→eq, ==→ne,
}
use cuhksz_operating_system.Fs.Disk.{
  Superblock, Disk, byte, logsize, word, ok, Returns, returns, bind, pure, ◌>>◌, store_byte,
  store_word, is_logged, absorb, log_write,
}

pub is_logged-append :
    (b : ℕ) (xs ys : List ℕ) → is_logged b (xs ++ ys) ≡ (is_logged b xs || is_logged b ys)
is_logged-append b [] ys = refl
is_logged-append b (x ∷ xs) ys = ground (arith, is_logged-append b xs ys)

pub is_logged-absorb_self : (b : ℕ) (xs : List ℕ) → is_logged b (absorb b xs) ≡ true
is_logged-absorb_self b xs = ground (arith, is_logged-append b xs (b ∷ []))

is_logged-absorb :
    (c b : ℕ) (xs : List ℕ) → is_logged c xs ≡ true → is_logged c (absorb b xs) ≡ true
is_logged-absorb c b xs h = ground (arith, is_logged-append c xs (b ∷ []))

pub length-absorb : (b : ℕ) (xs : List ℕ) → length (absorb b xs) ≤ length xs + 1
length-absorb b xs = ground (arith, length-append xs (b ∷ []))

-- From `d` to `d'` the log took at most `k` numbers more, and every block that differs is in it.
pub record Logs (k : ℕ) (d d' : Disk) : Type 0 where
  pub grew : length d'.logged ≤ length d.logged + k
  pub same_outstanding : d'.outstanding ≡ d.outstanding
  pub keeps_logged : (b : ℕ) → is_logged b d.logged ≡ true → is_logged b d'.logged ≡ true
  pub covers : (b o : ℕ) → byte d' b o ≢ byte d b o → is_logged b d'.logged ≡ true

pub Logs-refl : (d : Disk) → Logs 0 d d
Logs-refl d = record {
  grew = omega arith;
  same_outstanding = refl;
  keeps_logged = λ b h. h;
  covers = λ b o h. absurd (h refl);
}

pub Logs-trans : {d d₁ d₂ : Disk} (j k n : ℕ) → Logs j d d₁ → Logs k d₁ d₂ → j + k ≤ n → Logs n d d₂
Logs-trans {d} {d₁} {d₂} j k n p q fits = record {
  grew = omega (arith, p.grew, q.grew);
  same_outstanding = q.same_outstanding ∙ p.same_outstanding;
  keeps_logged = λ b h. q.keeps_logged b (p.keeps_logged b h);
  covers = λ b o h. elim (Bool-cases (byte d₂ b o == byte d₁ b o)) [
    | inl e ↦ q.keeps_logged b (p.covers b o (λ e'. h (==→eq _ _ e ∙ e')))
    | inr ne ↦ q.covers b o (==→ne _ _ ne)
  ];
}

module _ (sb : Superblock) where
  -- The log has room for `k` blocks more, inside a transaction.
  pub record Room (k : ℕ) (d : Disk) : Type 0 where
    pub in_header : length d.logged + k ≤ logsize
    pub on_disk : length d.logged + k + 1 ≤ sb.nlog
    pub in_trans : 1 ≤ d.outstanding

  pub Room-Logs : {d d' : Disk} (k j m : ℕ) → Room k d → Logs j d d' → j + m ≤ k → Room m d'
  Room-Logs k j m r l fits = omega (arith, r, l.grew, l.same_outstanding)

  -- Inside a transaction with room, `log_write` returns, and only the log's header changes.
  pub log_write-ok :
      (b k : ℕ) (d : Disk)
      → Room (suc k) d
      → log_write sb b d ≡ ok tt (record d { logged = absorb b d.logged })
  unfolding log_write
  log_write-ok b k d r = ground arith

  -- The header's change alone.
  pub absorb-Logs :
      (b : ℕ) (d d₁ : Disk)
      → d₁.logged ≡ d.logged
      → d₁.outstanding ≡ d.outstanding
      → ((b' o : ℕ) → b' ≢ b → byte d₁ b' o ≡ byte d b' o)
      → Logs 1 d (record d₁ { logged = absorb b d₁.logged })
  absorb-Logs b d d₁ logged outstanding elsewhere = record {
    grew = omega (arith, length-absorb b d₁.logged, ap length logged);
    same_outstanding = outstanding;
    keeps_logged = λ c h. is_logged-absorb c b d₁.logged (ap (is_logged c) logged ∙ h);
    covers = λ c o h. elim (Bool-cases (c == b)) [
      | inl e ↦ rw (==→eq c b e) (is_logged-absorb_self b d₁.logged)
      | inr ne ↦ absurd (h (elsewhere c o (==→ne c b ne)))
    ];
  }

-- `store_word` puts the word there and leaves all other bytes.
pub record StoresWord (b i v : ℕ) (d d' : Disk) : Type 0 where
  pub here : v < 2 ^ 32 → word d' b i ≡ v
  pub others : (j : ℕ) → j ≢ i → word d' b j ≡ word d b j
  pub elsewhere : (b' o : ℕ) → b' ≢ b → byte d' b' o ≡ byte d b' o

pub store_word-StoresWord :
    (b i v : ℕ) (d : Disk)
    → Returns
        (λ _ d'. StoresWord b i v d d' × (d'.logged ≡ d.logged) × (d'.outstanding ≡ d.outstanding))
        (store_word b i v d)
unfolding store_word store_byte
store_word-StoresWord b i v d = returns (
  record {
    here = λ h. ground arith;
    others = λ j ne. ground arith;
    elsewhere = λ b' o ne. ground arith;
  },
  refl,
  refl,
)

-- A word stored and its block logged, before the answer `x` is returned.
pub store_logged :
    (sb : Superblock) {A : Type 0} {P : A → Disk → Type 0} (x : A) (b i v k : ℕ) (d : Disk)
    → Room sb (suc k) d
    → ((d' : Disk) → StoresWord b i v d d' → Logs 1 d d' → P x d')
    → Returns P ((do store_word b i v; log_write sb b; pure x) d)
store_logged sb x b i v k d r done = bind (store_word-StoresWord b i v d) λ _ d₁ p.
    rw (log_write-ok sb b k d₁ (omega (arith, r, p, ap length p.1))) (
      returns (
        done _ (record { here = p.0.here; others = p.0.others; elsewhere = p.0.elsewhere })
          (absorb-Logs sb b d d₁ p.1 p.2 p.0.elsewhere)))
