-- ===== src/Fs/Itrunc/Leak.antt =====
-- `itrunc` as a whole: which blocks of the file it frees, and which it does not.
use cuhksz_operating_system.Prelude.{
  ℕ, ◌+◌, ◌*◌, ◌%◌, ◌<◌, ◌≤◌, ◌⊎◌, ◌≡◌, ◌≢◌, refl, sym, ap, ◌∙◌, Bool, true, false, not, ◌&&◌, ◌||◌,
  ◌==◌, arith, Bool-cases, ==→ne, ne→==, eq→==, inl, inr,
}
use mathlib.Core.Path.{subst, fun_ext}
use native.Mathlib.Decide.{dec_lt}
use cuhksz_operating_system.Fs.Disk.{
  Superblock, Disk, byte, is_logged, Returns, returns, weaken, bind,
}
use cuhksz_operating_system.Fs.Blocks.{bblock, allocated}
use cuhksz_operating_system.Fs.Blocks.Alloc.{IsFormatted}
use cuhksz_operating_system.Fs.Inode.{Inode, ndirect, nindirect}
use cuhksz_operating_system.Fs.Bmap.{addr_at}
use cuhksz_operating_system.Fs.Bmap.Tree.{
  Pos, direct, single, double, leaf, mid, deep, InTree, entry, ptr, IsTree,
}
use cuhksz_operating_system.Fs.Bmap.Frame.{word_congr, entry_congr}
use cuhksz_operating_system.Fs.Bmap.Correct.{BootZero}
use cuhksz_operating_system.Fs.Log.{is_logged-absorb_self}
use cuhksz_operating_system.Fs.Itrunc.{itrunc, iblock, ipb, free_single, free_double}
use cuhksz_operating_system.Fs.Itrunc.Room.{MapRoom, MapRoom-Room}
use cuhksz_operating_system.Fs.Itrunc.Loops.{
  hits, hits_iff, hits_none, Pruned, Pruned-trans, AreUsed, Cleared, free_direct-Pruned,
}
use cuhksz_operating_system.Fs.Itrunc.Stages.{block_itself, free_single-Pruned, free_double-Pruned}
use cuhksz_operating_system.Fs.Itrunc.Update.{Zeros, Updated, iupdate-Returns, iupdate-allocated}

-- The blocks below the doubly indirect one.
abbrev pub below_double : Pos → Bool
below_double (mid i) = true
below_double (deep i j) = true
below_double _ = false

module _ (sb : Superblock) (ip : Inode) (d : Disk) (t : IsTree sb ip d) where
  -- The blocks that `itrunc` frees.
  abbrev gone_direct : ℕ → Bool
  gone_direct = hits (addr_at ip) 0 ndirect

  abbrev gone_single : ℕ → Bool
  gone_single b =
      hits (entry d (addr_at ip ndirect)) 0 nindirect b || block_itself (addr_at ip ndirect) b

  abbrev gone : ℕ → Bool
  gone b = gone_direct b || (gone_single b || block_itself (addr_at ip (ndirect + 1)) b)

  -- A block of the tree is not the one at another place.
  other_place :
      (q q' : Pos) → InTree q → InTree q' → q ≢ q' → ptr ip d q ≢ 0 → ptr ip d q ≢ ptr ip d q'
  other_place q q' h h' ne nz e = ne (t.apart q q' h h' nz e)

  not_direct : (q : Pos) → InTree q → ((i : ℕ) → direct i ≢ q) → gone_direct (ptr ip d q) ≡ false
  not_direct q h ne =
      hits_none (addr_at ip) 0 ndirect (ptr ip d q)
        (λ i low high nz. other_place (direct i) q high h (ne i) nz)

  not_leaf :
      (q : Pos)
      → InTree q
      → ((i : ℕ) → leaf i ≢ q)
      → hits (entry d (addr_at ip ndirect)) 0 nindirect (ptr ip d q) ≡ false
  not_leaf q h ne =
      hits_none (entry d (addr_at ip ndirect)) 0 nindirect (ptr ip d q)
        (λ i low high nz. other_place (leaf i) q high h (ne i) nz)

  not_itself :
      (q q' : Pos) → InTree q → InTree q' → q ≢ q' → block_itself (ptr ip d q) (ptr ip d q') ≡ false
  not_itself q q' h h' ne = elim (Bool-cases (ptr ip d q == 0)) [
    | inl z ↦ rw z
    | inr nz ↦ ground (arith, ne→== _ _ (other_place q q' h h' ne (==→ne _ 0 nz)))
  ]

  itself_none :
      (q : Pos) (b : ℕ) → (ptr ip d q ≢ 0 → ptr ip d q ≢ b) → block_itself (ptr ip d q) b ≡ false
  itself_none q b ne = elim (Bool-cases (ptr ip d q == 0)) [
    | inl z ↦ rw z
    | inr nz ↦ ground (arith, ne→== _ _ (ne (==→ne _ 0 nz)))
  ]

  -- A block that is not of the tree is not freed.
  gone_none : (b : ℕ) → ((q : Pos) → InTree q → ptr ip d q ≢ 0 → ptr ip d q ≢ b) → gone b ≡ false
  gone_none b away = ground (
    arith,
    hits_none (addr_at ip) 0 ndirect b (λ i low high. away (direct i) high),
    hits_none (entry d (addr_at ip ndirect)) 0 nindirect b (λ i low high. away (leaf i) high),
    itself_none single b (away single tt),
    itself_none double b (away double tt),
  )

  gone_iff : (q : Pos) → InTree q → ptr ip d q ≢ 0 → gone (ptr ip d q) ≡ not (below_double q)
  gone_iff (direct i) h nz =
      ground (arith, hits_iff (addr_at ip) 0 ndirect (addr_at ip i) i (omega arith) h nz refl)
  gone_iff (leaf i) h nz = ground (
    arith,
    hits_iff (entry d (addr_at ip ndirect)) 0 nindirect (ptr ip d (leaf i)) i (omega arith) h nz
        refl,
  )
  gone_iff single h nz = ground (arith, ne→== _ 0 nz, eq→== (addr_at ip ndirect) _ refl)
  gone_iff double h nz = ground (arith, ne→== _ 0 nz, eq→== (addr_at ip (ndirect + 1)) _ refl)
  gone_iff (mid i) h nz = ground (
    arith,
    not_direct (mid i) h (λ k e. cc),
    not_leaf (mid i) h (λ k e. cc),
    not_itself single (mid i) tt h (λ e. cc),
    not_itself double (mid i) tt h (λ e. cc),
  )
  gone_iff (deep i j) h nz = ground (
    arith,
    not_direct (deep i j) h (λ k e. cc),
    not_leaf (deep i j) h (λ k e. cc),
    not_itself single (deep i j) tt h (λ e. cc),
    not_itself double (deep i j) tt h (λ e. cc),
  )

  module _ (f : IsFormatted sb d) where
    -- A block of the tree that was not freed is still allocated.
    survives :
        (F : ℕ → Bool) (d' : Disk) (q : Pos)
        → Pruned sb F d d'
        → InTree q
        → ptr ip d q ≢ 0
        → F (ptr ip d q) ≡ false
        → (ptr ip d q < sb.size) × (allocated sb d' (ptr ip d q) ≡ true)
    survives F d' q p h nz kept =
        (t.on_disk q h, p.bits (ptr ip d q) (t.on_disk q h) ∙ ground (arith, t.used q h nz))

    direct-AreUsed : AreUsed sb (addr_at ip) 0 ndirect d
    direct-AreUsed = record {
      used = λ i low high nz. (t.on_disk (direct i) high, t.used (direct i) high nz);
      distinct = λ i k low high low' high' nz e. cc (t.apart (direct i) (direct k) high high' nz e);
    }

    leaf-AreUsed :
        (d₁ : Disk)
        → Pruned sb gone_direct d d₁
        → AreUsed sb (entry d (addr_at ip ndirect)) 0 nindirect d₁
    leaf-AreUsed d₁ p = record {
      used = λ i low high nz.
          survives gone_direct d₁ (leaf i) p high nz (not_direct (leaf i) high (λ k e. cc));
      distinct = λ i k low high low' high' nz e. cc (t.apart (leaf i) (leaf k) high high' nz e);
    }

    -- The loops write the bit map only: the indirect block keeps its words.
    entry_kept :
        (d₁ : Disk) (a : ℕ)
        → Pruned sb gone_direct d d₁
        → a ≡ addr_at ip ndirect
        → entry d₁ a ≡ entry d (addr_at ip ndirect)
    entry_kept d₁ a p e = fun_ext (λ i. rw e (
        entry_congr d d₁ (addr_at ip ndirect) i (λ nz.
          word_congr d d₁ (addr_at ip ndirect) i
            (λ o. p.same (addr_at ip ndirect) o (λ c h. t.off_map single c tt h nz)))))

    stage_two :
        (ip₁ : Inode) (d₁ : Disk)
        → Pruned sb gone_direct d d₁
        → Cleared sb 0 ndirect ip ip₁
        → Returns
            (λ ip₂ d₂. Pruned sb gone_single d₁ d₂ × Cleared sb ndirect (ndirect + 1) ip₁ ip₂)
            (free_single sb ip₁ d₁)
    stage_two ip₁ d₁ p c =
        let e : addr_at ip₁ ndirect ≡ addr_at ip ndirect = c.kept ndirect (inr (omega arith)) in
        let same = entry_kept d₁ (addr_at ip₁ ndirect) p e in
        weaken
          (free_single-Pruned sb ip₁ d₁ (omega (arith, c.len, t.len))
            (λ k h. rw e (λ nz. t.off_map single k tt h nz))
            (rw e
              (λ nz. survives gone_direct d₁ single p tt nz (not_direct single tt (λ k e'. cc))))
            (subst (λ F. AreUsed sb F 0 nindirect d₁) (sym same) (leaf-AreUsed d₁ p))
            (λ i h.
              subst (λ F. F i ≢ 0 → F i ≢ addr_at ip₁ ndirect) (sym same)
                (rw e (λ nz. other_place (leaf i) single h tt (λ e'. cc) nz)))
            p.room)
          (λ ip₂ d₂ q. (
            subst
                (λ F.
                  Pruned sb (λ b. hits F 0 nindirect b || block_itself (addr_at ip ndirect) b) d₁
                    d₂)
                same
                (subst
                  (λ a.
                    Pruned sb
                      (λ b. hits (entry d₁ (addr_at ip₁ ndirect)) 0 nindirect b || block_itself a b)
                      d₁ d₂)
                  e q.0),
            q.1,
          ))

    stage_three :
        (ip₁ ip₂ : Inode) (d₁ d₂ : Disk)
        → BootZero d
        → Pruned sb (λ b. gone_direct b || gone_single b) d d₂
        → Cleared sb 0 ndirect ip ip₁
        → Cleared sb ndirect (ndirect + 1) ip₁ ip₂
        → Returns
            (λ ip₃ d₃.
              Pruned sb (block_itself (addr_at ip (ndirect + 1))) d₂ d₃
              × Cleared sb (ndirect + 1) (ndirect + 2) ip₂ ip₃)
            (free_double sb ip₂ d₂)
    stage_three ip₁ ip₂ d₁ d₂ boot p c₁ c₂ =
        let e : addr_at ip₂ (ndirect + 1) ≡ addr_at ip (ndirect + 1) =
          c₂.kept (ndirect + 1) (inr (omega arith)) ∙ c₁.kept (ndirect + 1) (inr (omega arith)) in
        weaken
          (free_double-Pruned sb ip₂ d₂ (omega (arith, c₂.len, c₁.len, t.len))
            (c₂.zeroed ndirect (omega arith) (omega arith))
            (λ j h.
              word_congr d d₂ 0 j (λ o. p.same 0 o (λ c hc e'. omega (arith, f.after_boot)))
              ∙ boot j h)
            (rw e (λ nz.
              survives (λ b. gone_direct b || gone_single b) d₂ double p tt nz
                (ground (
                  arith,
                  not_direct double tt (λ k e'. cc),
                  not_leaf double tt (λ k e'. cc),
                  not_itself single double tt tt (λ e'. cc),
                ))))
            p.room)
          (λ ip₃ d₃ q. (subst (λ a. Pruned sb (block_itself a) d₂ d₃) e q.0, q.1))

    -- What `itrunc` leaves.
    pub record Truncated (ip' : Inode) (d' : Disk) : Type 0 where
      pub empty : ip'.size ≡ 0
      pub cleared : (k : ℕ) → k < 13 → addr_at ip' k ≡ 0
      pub blocks :
          (q : Pos) → InTree q → ptr ip d q ≢ 0 → allocated sb d' (ptr ip d q) ≡ below_double q
      pub others :
          (b : ℕ)
          → b < sb.size
          → ((q : Pos) → InTree q → ptr ip d q ≢ 0 → ptr ip d q ≢ b)
          → allocated sb d' b ≡ allocated sb d b
      pub bytes :
          (b o : ℕ)
          → ((c : ℕ) → c < sb.size → b ≢ bblock sb c)
          → b ≢ iblock sb ip.inum
          → byte d' b o ≡ byte d b o
      pub other_inodes :
          (o : ℕ)
          → (o < 64 * (ip.inum % ipb)) ⊎ (64 * (ip.inum % ipb) + 64 ≤ o)
          → byte d' (iblock sb ip.inum) o ≡ byte d (iblock sb ip.inum) o
      pub on_disk :
          Zeros (iblock sb ip.inum) (64 * (ip.inum % ipb) + 8) (64 * (ip.inum % ipb) + 64) d'
      pub in_log : is_logged (iblock sb ip.inum) d'.logged ≡ true

    -- No address is left in the inode.
    no_address :
        (ip₁ ip₂ ip₃ : Inode)
        → Cleared sb 0 ndirect ip ip₁
        → Cleared sb ndirect (ndirect + 1) ip₁ ip₂
        → Cleared sb (ndirect + 1) (ndirect + 2) ip₂ ip₃
        → (k : ℕ) → k < 13
        → addr_at ip₃ k ≡ 0
    no_address ip₁ ip₂ ip₃ c₁ c₂ c₃ k h = elim (dec_lt k ndirect) [
      | yes low ↦
          c₃.kept k (inl (omega arith)) ∙ c₂.kept k (inl low) ∙ c₁.zeroed k (omega arith) low
      | no high ↦ elim (dec_lt k 12) [
        | yes low ↦ c₃.kept k (inl low) ∙ c₂.zeroed k (omega arith) low
        | no higher ↦ c₃.zeroed k (omega arith) h
      ]
    ]

    finish :
        (ip₁ ip₂ ip₃ : Inode) (d₃ d₄ : Disk)
        → ((b : ℕ) → b < sb.size → bblock sb b ≢ iblock sb ip.inum)
        → Cleared sb 0 ndirect ip ip₁
        → Cleared sb ndirect (ndirect + 1) ip₁ ip₂
        → Cleared sb (ndirect + 1) (ndirect + 2) ip₂ ip₃
        → Pruned sb gone d d₃
        → Updated sb ip₃.inum d₃ d₄
        → Truncated (record ip₃ { size = 0 }) d₄
    finish ip₁ ip₂ ip₃ d₃ d₄ off c₁ c₂ c₃ p w =
        let number : ip₃.inum ≡ ip.inum =
          ap (λ (x : Inode). x.inum) c₃.same_rest
          ∙ ap (λ (x : Inode). x.inum) c₂.same_rest
          ∙ ap (λ (x : Inode). x.inum) c₁.same_rest in
        let w' : Updated sb ip.inum d₃ d₄ = subst (λ i. Updated sb i d₃ d₄) number w in
        let bits : (b : ℕ) → b < sb.size → allocated sb d₄ b ≡ (not (gone b) && allocated sb d b) =
          λ b h. iupdate-allocated sb ip d₃ d₄ b w'.elsewhere (off b h) ∙ p.bits b h in
        record {
          empty = refl;
          cleared = no_address ip₁ ip₂ ip₃ c₁ c₂ c₃;
          blocks = λ q h nz.
              bits (ptr ip d q) (t.on_disk q h) ∙ ground (arith, gone_iff q h nz, t.used q h nz);
          others = λ b h away. bits b h ∙ rw (gone_none b away);
          bytes = λ b o away ne. w'.elsewhere b o ne ∙ p.same b o away;
          other_inodes =
              λ o h. w'.outside o h ∙ p.same (iblock sb ip.inum) o (λ c hc e. off c hc (sym e));
          on_disk = w'.zeros;
          in_log =
              ap (is_logged (iblock sb ip.inum)) w'.same_logged
              ∙ is_logged-absorb_self (iblock sb ip.inum) d₃.logged;
        }

    -- For a file whose addresses form a tree, on a formatted disk whose block 0 has zeros for addresses,
    -- whose log has room for the bit map and one block more inside a transaction, and whose bit map does
    -- not hold the inode:
    -- `itrunc` returns, with a file of size 0 that has no address left. Of the file's blocks it frees
    -- the direct ones, the indirect block, the blocks that this one names and the doubly indirect
    -- block; every middle block and every data block below the doubly indirect block stays allocated,
    -- though no address leads to it any more. The allocation of all other blocks is as it was. The inode
    -- on the disk has size 0 and no address either, and its block is in the log. Outside the blocks of
    -- the bit map and the 64 bytes of that inode, no byte of the disk is changed.
    pub itrunc-Truncated :
        BootZero d
        → MapRoom sb d
        → ((b : ℕ) → b < sb.size → bblock sb b ≢ iblock sb ip.inum)
        → Returns Truncated (itrunc sb ip d)
    unfolding itrunc
    itrunc-Truncated boot r off =
        bind
          (free_direct-Pruned sb (addr_at ip) ndirect 0 ndirect ip d refl (omega (arith, t.len))
            (λ i low high. refl) direct-AreUsed r)
          (λ ip₁ d₁ p. bind (stage_two ip₁ d₁ p.0 p.1) (λ ip₂ d₂ q.
            let so_far : Pruned sb (λ b. gone_direct b || gone_single b) d d₂ =
              Pruned-trans sb gone_direct gone_single _ d d₁ d₂ p.0 q.0 (λ b. refl) in
            bind (stage_three ip₁ ip₂ d₁ d₂ boot so_far p.1 q.1) (λ ip₃ d₃ s.
              bind
                (iupdate-Returns sb (record ip₃ { size = 0 }) d₃ (MapRoom-Room sb d₃ s.0.room)
                  (omega (arith, t.len, p.1.len, q.1.len, s.1.len)) refl
                  (no_address ip₁ ip₂ ip₃ p.1 q.1 s.1))
                (λ _ d₄ w. returns (
                  finish ip₁ ip₂ ip₃ d₃ d₄ off p.1 q.1 s.1
                    (Pruned-trans sb (λ b. gone_direct b || gone_single b)
                      (block_itself (addr_at ip (ndirect + 1))) gone d d₂ d₃ so_far s.0
                      (λ b. ground arith))
                    w)))))
