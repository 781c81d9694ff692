-- ===== src/Fs/Itrunc/Stages.antt =====
-- The second and third part of `itrunc`, and `iupdate`.
use cuhksz_operating_system.Prelude.{
  ℕ, zero, suc, ◌+◌, ◌≤◌, ◌<◌, ◌≡◌, ◌≢◌, refl, ◌∙◌, Bool, true, false, not, ◌&&◌, ◌||◌, ◌==◌,
  length, length-set, get_or-set_self, get_or-set_ne, arith, Bool-cases, ==→eq, ==→ne, inl, inr,
}
use cuhksz_operating_system.Fs.Disk.{Superblock, Disk, Returns, returns, bind, ok}
use cuhksz_operating_system.Fs.Blocks.{bblock, allocated}
use cuhksz_operating_system.Fs.Inode.{Inode, ndirect, nindirect}
use cuhksz_operating_system.Fs.Bmap.{addr_at, set_addr}
use cuhksz_operating_system.Fs.Bmap.Tree.{entry}
use cuhksz_operating_system.Fs.Bmap.Correct.{BootZero}
use cuhksz_operating_system.Fs.Itrunc.{free_single, free_tables, free_double}
use cuhksz_operating_system.Fs.Itrunc.Room.{MapRoom}
use cuhksz_operating_system.Fs.Itrunc.Loops.{
  hits, hits_none, Pruned, Pruned-none, Pruned-trans, AreUsed, bfree-Pruned, free_words-Pruned,
  Cleared,
}

-- Block `p`, if there is one.
abbrev pub block_itself : ℕ → ℕ → Bool
block_itself p b = not (p == 0) && p == b

hits_zero : (f : ℕ → ℕ) (j left b : ℕ) → ((i : ℕ) → f i ≡ 0) → hits f j left b ≡ false
hits_zero f j left b h = hits_none f j left b (λ i low high ne. absurd (ne (h i)))

module _ (sb : Superblock) where
  there_of_kept :
      (k : ℕ) (ip : Inode) → k < length ip.addrs → Cleared sb k (k + 1) ip (set_addr ip k 0)
  there_of_kept k ip h = record {
    len = length-set ip.addrs k 0;
    zeroed = λ i low high. let e : i ≡ k = omega arith in rw e (get_or-set_self ip.addrs k 0 0 h);
    kept = λ i out. get_or-set_ne ip.addrs k i 0 0 (omega arith);
    same_rest = refl;
  }

  before_of_kept : (k : ℕ) (ip : Inode) → addr_at ip k ≡ 0 → Cleared sb k (k + 1) ip ip
  before_of_kept k ip z = record {
    len = refl;
    zeroed = λ i low high. let e : i ≡ k = omega arith in rw e z;
    kept = λ i out. refl;
    same_rest = refl;
  }

  pub free_single-Pruned :
      (ip : Inode) (d : Disk)
      → let p = addr_at ip ndirect in
        ndirect < length ip.addrs
        → ((c : ℕ) → c < sb.size → p ≢ 0 → p ≢ bblock sb c)
        → (p ≢ 0 → (p < sb.size) × (allocated sb d p ≡ true))
        → AreUsed sb (entry d p) 0 nindirect d
        → ((i : ℕ) → i < nindirect → entry d p i ≢ 0 → entry d p i ≢ p)
        → MapRoom sb d
        → Returns
            (λ ip' d'.
              Pruned sb (λ b. hits (entry d p) 0 nindirect b || block_itself p b) d d'
              × Cleared sb ndirect (ndirect + 1) ip ip')
            (free_single sb ip d)
  unfolding free_single
  free_single-Pruned ip d len off used entries apart r =
      elim (Bool-cases (addr_at ip ndirect == 0)) [
        | inl z ↦
            let az : addr_at ip ndirect ≡ 0 = ==→eq _ 0 z in
            rw az (
              returns (
                Pruned-trans sb (λ b. false) (λ b. false) _ d d d (Pruned-none sb d r)
                    (Pruned-none sb d r) (λ b. rw (hits_zero (λ i. 0) 0 nindirect b (λ i. refl))),
                before_of_kept ndirect ip az,
              ))
        | inr nz ↦
            let ne : addr_at ip ndirect ≢ 0 = ==→ne _ 0 nz in
            let (inside, is_used) = used ne in
            rw nz (
              bind
                (free_words-Pruned sb (entry d (addr_at ip ndirect)) (addr_at ip ndirect) nindirect
                  0 nindirect d (omega arith) (omega arith) (λ c h. off c h ne) (λ i h. rw nz)
                  entries r)
                (λ _ d₁ q.
                  bind
                    (bfree-Pruned sb (addr_at ip ndirect) d₁ q.room inside (
                      q.bits (addr_at ip ndirect) inside
                      ∙ ground (
                        arith,
                        is_used,
                        hits_none (entry d (addr_at ip ndirect)) 0 nindirect (addr_at ip ndirect)
                            (λ i low high. apart i high),
                      )))
                    (λ _ d₂ q'. returns (
                      Pruned-trans sb (hits (entry d (addr_at ip ndirect)) 0 nindirect)
                          (λ b. addr_at ip ndirect == b) _ d d₁ d₂ q q' (λ b. refl),
                      there_of_kept ndirect ip len,
                    ))))
      ]

  free_tables_zero :
      (left j : ℕ) (d : Disk)
      → j + left ≤ nindirect
      → BootZero d
      → free_tables sb 0 left j d ≡ ok tt d
  unfolding free_tables
  free_tables_zero zero j d h z = refl
  free_tables_zero (suc left) j d h z =
      rw (z j (omega arith), free_tables) (free_tables_zero left (j + 1) d (omega arith) z)

  pub free_double-Pruned :
      (ip : Inode) (d : Disk)
      → let p = addr_at ip (ndirect + 1) in
        ndirect + 1 < length ip.addrs
        → addr_at ip ndirect ≡ 0
        → BootZero d
        → (p ≢ 0 → (p < sb.size) × (allocated sb d p ≡ true))
        → MapRoom sb d
        → Returns
            (λ ip' d'.
              Pruned sb (block_itself p) d d' × Cleared sb (ndirect + 1) (ndirect + 2) ip ip')
            (free_double sb ip d)
  unfolding free_double
  free_double-Pruned ip d len gone boot used r = elim (Bool-cases (addr_at ip (ndirect + 1) == 0)) [
    | inl z ↦
        let az : addr_at ip (ndirect + 1) ≡ 0 = ==→eq _ 0 z in
        rw az (returns (Pruned-none sb d r, before_of_kept (ndirect + 1) ip az))
    | inr nz ↦
        let (inside, is_used) = used (==→ne _ 0 nz) in
        rw nz (
          rw gone (
            rw (free_tables_zero nindirect 0 d (omega arith) boot) (
              bind (bfree-Pruned sb (addr_at ip (ndirect + 1)) d r inside is_used) (λ _ d₁ q.
                returns (
                  Pruned-trans sb (λ b. addr_at ip (ndirect + 1) == b) (λ b. false) _ d d₁ d₁ q
                      (Pruned-none sb d₁ q.room) (λ b. ground arith),
                  there_of_kept (ndirect + 1) ip len,
                )))))
  ]
