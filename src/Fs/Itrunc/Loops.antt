-- ===== src/Fs/Itrunc/Loops.antt =====
-- The loops of `itrunc`: each frees the blocks that its addresses name, and no other.
use cuhksz_operating_system.Prelude.{
  ℕ, zero, suc, ◌+◌, ◌≤◌, ◌<◌, ◌≡◌, ◌≢◌, ◌⊎◌, refl, sym, ap, ◌∙◌, Bool, true, false, not, ◌&&◌,
  ◌||◌, ◌==◌, length, length-set, get_or-set_self, get_or-set_ne, arith, Bool-cases, ==→eq, ==→ne,
  ne→==, inl, inr,
}
use mathlib.Core.Path.{subst}
use native.Mathlib.Decide.{ℕ_discrete}
use cuhksz_operating_system.Fs.Disk.{Superblock, Disk, byte, word, Returns, returns, weaken, bind}
use cuhksz_operating_system.Fs.Blocks.{bblock, allocated, bfree}
use cuhksz_operating_system.Fs.Inode.{Inode, nindirect}
use cuhksz_operating_system.Fs.Bmap.{addr_at, set_addr}
use cuhksz_operating_system.Fs.Bmap.Frame.{word_congr}
use cuhksz_operating_system.Fs.Itrunc.{free_words, free_direct, bfree_word}
use cuhksz_operating_system.Fs.Itrunc.Room.{MapRoom, bfree-MapRoom}

-- Is `b` one of the nonzero numbers `f j`, ..., `f (j + left - 1)`?
pub hits : (ℕ → ℕ) → ℕ → ℕ → ℕ → Bool
hits f j zero b = false
hits f j (suc left) b = (not (f j == 0) && f j == b) || hits f (j + 1) left b

pub hits_iff :
    (f : ℕ → ℕ) (j left b i : ℕ) → j ≤ i → i < j + left → f i ≢ 0 → f i ≡ b → hits f j left b ≡ true
unfolding hits
hits_iff f j zero b i low high ne e = absurd (omega arith)
hits_iff f j (suc left) b i low high ne e = elim (ℕ_discrete i j) [
  | yes same ↦
      let here : f j ≡ b = ap f (sym same) ∙ e in
      let there : f j ≢ 0 = λ z. ne (ap f same ∙ z) in ground arith
  | no other ↦ ground (arith, hits_iff f (j + 1) left b i (omega arith) (omega arith) ne e)
]

pub hits_none :
    (f : ℕ → ℕ) (j left b : ℕ)
    → ((i : ℕ) → j ≤ i → i < j + left → f i ≢ 0 → f i ≢ b)
    → hits f j left b ≡ false
unfolding hits
hits_none f j zero b h = refl
hits_none f j (suc left) b h =
    let rest : hits f (j + 1) left b ≡ false =
      hits_none f (j + 1) left b (λ i low high. h i (omega arith) (omega arith)) in
    elim (Bool-cases (f j == 0)) [
      | inl z ↦ rw (z, rest)
      | inr nz ↦ rw (nz, rest, ne→== (f j) b (h j (omega arith) (omega arith) (==→ne _ 0 nz)))
    ]

module _ (sb : Superblock) where
  -- From `d` to `d'` the blocks of the set `gone` were freed, and only the bit map was written.
  pub record Pruned (gone : ℕ → Bool) (d d' : Disk) : Type 0 where
    pub bits : (b : ℕ) → b < sb.size → allocated sb d' b ≡ (not (gone b) && allocated sb d b)
    pub same : (b o : ℕ) → ((c : ℕ) → c < sb.size → b ≢ bblock sb c) → byte d' b o ≡ byte d b o
    pub room : MapRoom sb d'

  pub Pruned-none : (d : Disk) → MapRoom sb d → Pruned (λ b. false) d d
  Pruned-none d r = record { bits = λ b h. refl; same = λ b o h. refl; room = r }

  pub Pruned-trans :
      (F G H : ℕ → Bool) (d d₁ d₂ : Disk)
      → Pruned F d d₁
      → Pruned G d₁ d₂
      → ((b : ℕ) → H b ≡ (F b || G b))
      → Pruned H d d₂
  Pruned-trans F G H d d₁ d₂ p q e = record {
    bits = λ b h. ground (arith, p.bits b h, q.bits b h, e b);
    same = λ b o off. q.same b o off ∙ p.same b o off;
    room = q.room;
  }

  pub bfree-Pruned :
      (c : ℕ) (d : Disk)
      → MapRoom sb d
      → c < sb.size
      → allocated sb d c ≡ true
      → Returns (λ _ d'. Pruned (λ b. c == b) d d') (bfree sb c d)
  bfree-Pruned c d r h used = weaken (bfree-MapRoom sb c d r h used) (λ _ d' p. record {
    bits = λ b hb. p.0.bits b;
    same = λ b o off. p.0.elsewhere b o (off c h);
    room = p.1;
  })

  pub bfree_word-Pruned :
      (p j c : ℕ) (d : Disk)
      → word d p j ≡ c
      → MapRoom sb d
      → c < sb.size
      → allocated sb d c ≡ true
      → Returns (λ _ d'. Pruned (λ b. c == b) d d') (bfree_word sb p j d)
  unfolding bfree_word
  bfree_word-Pruned p j c d e r h used = rw e (bfree-Pruned c d r h used)

  -- What the loops need of the numbers `f lo`, ..., `f (hi - 1)`: they are those of allocated blocks,
  -- no two the same.
  pub record AreUsed (f : ℕ → ℕ) (lo hi : ℕ) (d : Disk) : Type 0 where
    pub used : (i : ℕ) → lo ≤ i → i < hi → f i ≢ 0 → (f i < sb.size) × (allocated sb d (f i) ≡ true)
    pub distinct : (i k : ℕ) → lo ≤ i → i < hi → lo ≤ k → k < hi → f i ≢ 0 → f i ≡ f k → i ≡ k

  AreUsed-next :
      (f : ℕ → ℕ) (lo hi : ℕ) (d d' : Disk) (F : ℕ → Bool)
      → AreUsed f lo hi d
      → Pruned F d d'
      → ((i : ℕ) → lo + 1 ≤ i → i < hi → f i ≢ 0 → F (f i) ≡ false)
      → AreUsed f (lo + 1) hi d'
  AreUsed-next f lo hi d d' F u p apart = record {
    used = λ i low high ne.
        let (fits, is_used) = u.used i (omega arith) high ne in
        (fits, p.bits (f i) fits ∙ ground (arith, apart i low high ne));
    distinct = λ i k low high low' high'. u.distinct i k (omega arith) high (omega arith) high';
  }

  others_stay :
      (f : ℕ → ℕ) (lo hi : ℕ) (d : Disk) (i : ℕ)
      → AreUsed f lo hi d
      → lo < hi
      → f lo ≢ 0
      → lo + 1 ≤ i
      → i < hi
      → (f lo == f i) ≡ false
  others_stay f lo hi d i u some_left ne low high =
      ne→== (f lo) (f i)
        (λ e. omega (arith, u.distinct lo i (omega arith) some_left (omega arith) high ne e))

  pub free_words-Pruned :
      (f : ℕ → ℕ) (p left j hi : ℕ) (d : Disk)
      → j + left ≡ hi
      → hi ≤ nindirect
      → ((c : ℕ) → c < sb.size → p ≢ bblock sb c)
      → ((i : ℕ) → i < nindirect → word d p i ≡ f i)
      → AreUsed f j hi d
      → MapRoom sb d
      → Returns (λ _ d'. Pruned (hits f j left) d d') (free_words sb p left j d)
  unfolding free_words hits
  free_words-Pruned f p zero j hi d e fits off words u r = returns (Pruned-none d r)
  free_words-Pruned f p (suc left) j hi d e fits off words u r =
      elim (Bool-cases (word d p j == 0)) [
        | inl z ↦
            let fz : f j ≡ 0 = sym (words j (omega arith)) ∙ ==→eq _ 0 z in
            rw (z, free_words)
              (weaken
                (free_words-Pruned f p left (j + 1) hi d (omega arith) fits off words
                  (AreUsed-next f j hi d d (λ b. false) u (Pruned-none d r) (λ i a b c. refl)) r)
                (λ _ d' q.
                  Pruned-trans (λ b. false) (hits f (j + 1) left) (hits f j (suc left)) d d d'
                    (Pruned-none d r) q (λ b. rw fz)))
        | inr nz ↦
            let w : word d p j ≡ f j = words j (omega arith) in
            let ne : f j ≢ 0 = λ z. ==→ne _ 0 nz (w ∙ z) in
            let (inside, used) = u.used j (omega arith) (omega arith) ne in
            rw (nz, free_words)
              (bind (bfree_word-Pruned p j (f j) d w r inside used) (λ _ d₁ q.
                weaken
                  (free_words-Pruned f p left (j + 1) hi d₁ (omega arith) fits off
                    (λ i h. word_congr d d₁ p i (λ o. q.same p o off) ∙ words i h)
                    (AreUsed-next f j hi d d₁ (λ b. f j == b) u q
                      (λ i low high _. others_stay f j hi d i u (omega arith) ne low high))
                    q.room)
                  (λ _ d₂ q'.
                    Pruned-trans (λ b. f j == b) (hits f (j + 1) left) (hits f j (suc left)) d d₁ d₂
                      q q' (λ b. rw (ne→== (f j) 0 ne)))))
      ]

  -- What the loop over the direct addresses leaves in the inode.
  pub record Cleared (lo hi : ℕ) (ip ip' : Inode) : Type 0 where
    pub len : length ip'.addrs ≡ length ip.addrs
    pub zeroed : (k : ℕ) → lo ≤ k → k < hi → addr_at ip' k ≡ 0
    pub kept : (k : ℕ) → (k < lo) ⊎ (hi ≤ k) → addr_at ip' k ≡ addr_at ip k
    pub same_rest : ip' ≡ record ip { addrs = ip'.addrs }

  clear_one :
      (lo hi : ℕ) (ip ip' : Inode)
      → hi ≤ length ip.addrs
      → lo < hi
      → Cleared (lo + 1) hi (set_addr ip lo 0) ip'
      → Cleared lo hi ip ip'
  clear_one lo hi ip ip' fits h c = record {
    len = c.len ∙ length-set ip.addrs lo 0;
    zeroed = λ k low high. elim (ℕ_discrete k lo) [
      | yes e ↦ rw e (c.kept lo (inl (omega arith)) ∙ get_or-set_self ip.addrs lo 0 0 (omega arith))
      | no ne ↦ c.zeroed k (omega arith) high
    ];
    kept = λ k out. c.kept k (omega arith) ∙ get_or-set_ne ip.addrs lo k 0 0 (omega arith);
    same_rest = c.same_rest;
  }

  pass_one :
      (lo hi : ℕ) (ip ip' : Inode)
      → addr_at ip lo ≡ 0
      → lo < hi
      → Cleared (lo + 1) hi ip ip'
      → Cleared lo hi ip ip'
  pass_one lo hi ip ip' z h c = record {
    len = c.len;
    zeroed = λ k low high. elim (ℕ_discrete k lo) [
      | yes e ↦ rw e (c.kept lo (inl (omega arith)) ∙ z)
      | no ne ↦ c.zeroed k (omega arith) high
    ];
    kept = λ k out. c.kept k (omega arith);
    same_rest = c.same_rest;
  }

  pub free_direct-Pruned :
      (f : ℕ → ℕ) (left j hi : ℕ) (ip : Inode) (d : Disk)
      → j + left ≡ hi
      → hi ≤ length ip.addrs
      → ((i : ℕ) → j ≤ i → i < hi → addr_at ip i ≡ f i)
      → AreUsed f j hi d
      → MapRoom sb d
      → Returns
          (λ ip' d'. Pruned (hits f j left) d d' × Cleared j hi ip ip')
          (free_direct sb left j ip d)
  unfolding free_direct hits
  free_direct-Pruned f zero j hi ip d e fits at u r = returns (
    Pruned-none d r,
    record {
      len = refl;
      zeroed = λ k low high. absurd (omega arith);
      kept = λ k out. refl;
      same_rest = refl;
    },
  )
  free_direct-Pruned f (suc left) j hi ip d e fits at u r = elim (Bool-cases (addr_at ip j == 0)) [
    | inl z ↦
        let az : addr_at ip j ≡ 0 = ==→eq _ 0 z in
        let fz : f j ≡ 0 = sym (at j (omega arith) (omega arith)) ∙ az in
        rw (z, free_direct)
          (weaken
            (free_direct-Pruned f left (j + 1) hi ip d (omega arith) fits
              (λ i low high. at i (omega arith) high)
              (AreUsed-next f j hi d d (λ b. false) u (Pruned-none d r) (λ i a b c. refl)) r)
            (λ ip' d' q. (
              Pruned-trans (λ b. false) (hits f (j + 1) left) (hits f j (suc left)) d d d'
                  (Pruned-none d r) q.0 (λ b. rw fz),
              pass_one j hi ip ip' az (omega arith) q.1,
            )))
    | inr nz ↦
        let w : addr_at ip j ≡ f j = at j (omega arith) (omega arith) in
        let ne : f j ≢ 0 = λ z. ==→ne _ 0 nz (w ∙ z) in
        let (inside, used) = u.used j (omega arith) (omega arith) ne in
        rw (nz, free_direct)
          (bind
            (subst (λ c. Returns (λ _ d'. Pruned (λ b. f j == b) d d') (bfree sb c d)) (sym w)
              (bfree-Pruned (f j) d r inside used))
            (λ _ d₁ q.
              weaken
                (free_direct-Pruned f left (j + 1) hi (set_addr ip j 0) d₁ (omega arith)
                  (omega (arith, length-set ip.addrs j 0))
                  (λ i low high.
                    get_or-set_ne ip.addrs j i 0 0 (omega arith) ∙ at i (omega arith) high)
                  (AreUsed-next f j hi d d₁ (λ b. f j == b) u q
                    (λ i low high _. others_stay f j hi d i u (omega arith) ne low high))
                  q.room)
                (λ ip' d₂ q'. (
                  Pruned-trans (λ b. f j == b) (hits f (j + 1) left) (hits f j (suc left)) d d₁ d₂ q
                      q'.0 (λ b. rw (ne→== (f j) 0 ne)),
                  clear_one j hi ip ip' fits (omega arith) q'.1,
                ))))
  ]
