-- ===== src/Fs/Bmap/Load.antt =====
-- What one step of `bmap` does: it loads the address at a place of the tree, or puts a block there.
use cuhksz_operating_system.Prelude.{
  ℕ, ◌<◌, ◌≡◌, ◌≢◌, refl, sym, ap, ◌∙◌, true, ◌==◌, if◌then◌else◌, arith, Bool-cases, ==→eq, ==→ne,
  ne→==, eq→==, inl, inr,
}
use mathlib.Core.Path.{subst}
use cuhksz_operating_system.Fs.Disk.{
  Superblock, Disk, byte, bsize, word, pure, ◌>>◌, Returns, returns, bind, store_word, log_write,
}
use cuhksz_operating_system.Fs.Inode.{Inode}
use cuhksz_operating_system.Fs.Log.{
  Logs, Logs-refl, Logs-trans, Room, Room-Logs, StoresWord, store_logged,
}
use cuhksz_operating_system.Fs.Blocks.{bblock, allocated}
use cuhksz_operating_system.Fs.Blocks.Alloc.{IsFormatted, Allocates, Balloced, balloc-Balloced}
use cuhksz_operating_system.Fs.Bmap.{addr_at, set_addr, load_addr, load_word}
use cuhksz_operating_system.Fs.Bmap.Tree.{
  Pos, direct, single, double, leaf, mid, deep, InTree, ptr, IsTree,
}
use cuhksz_operating_system.Fs.Bmap.Grow.{Adds, Adds-IsTree}
use cuhksz_operating_system.Fs.Bmap.Frame.{block_kept}

-- The places whose block holds the file's bytes.
abbrev pub IsData : Pos → Type 0
IsData (direct i) = Unit
IsData single = ⊥
IsData double = ⊥
IsData (leaf i) = Unit
IsData (mid i) = ⊥
IsData (deep i j) = Unit

module _ (sb : Superblock) where
  -- From `ip`, `d` to `ip'`, `d'` the address `a` at place `q` was loaded, or put there.
  pub record Loaded (k : ℕ) (q : Pos) (ip : Inode) (d : Disk) (a : ℕ) (ip' : Inode) (d' : Disk)
      : Type 0 where
    pub tree : IsTree sb ip' d'
    pub format : IsFormatted sb d'
    pub logs : Logs k d d'
    pub here : ptr ip' d' q ≡ a
    pub was : ptr ip d q ≢ 0 → a ≡ ptr ip d q
    pub others : (q' : Pos) → InTree q' → q' ≢ q → ptr ip' d' q' ≡ ptr ip d q'
    pub full : a ≡ 0 → (c : ℕ) → c < sb.size → allocated sb d' c ≡ true
    pub data_kept :
        (q' : Pos) (o : ℕ)
        → InTree q'
        → IsData q'
        → ptr ip d q' ≢ 0
        → byte d' (ptr ip d q') o ≡ byte d (ptr ip d q') o
    pub boot_kept : (o : ℕ) → byte d' 0 o ≡ byte d 0 o
    pub fresh_zero : ptr ip d q ≡ 0 → a ≢ 0 → (o : ℕ) → o < bsize → byte d' a o ≡ 0
    pub same_rest : ip' ≡ record ip { addrs = ip'.addrs }

  -- Nothing was done: the address was there, or no block was free.
  stay :
      (k : ℕ) (q : Pos) (ip : Inode) (d : Disk) (a : ℕ)
      → IsTree sb ip d
      → IsFormatted sb d
      → ptr ip d q ≡ a
      → (a ≡ 0 → (c : ℕ) → c < sb.size → allocated sb d c ≡ true)
      → Loaded k q ip d a ip d
  stay k q ip d a t f e full = record {
    tree = t;
    format = f;
    logs = Logs-trans 0 0 k (Logs-refl d) (Logs-refl d) (omega arith);
    here = e;
    was = λ ne. sym e;
    others = λ q' in_tree ne. refl;
    full = full;
    data_kept = λ q' o in_tree is_data ne. refl;
    boot_kept = λ o. refl;
    fresh_zero = λ empty ne. absurd (ne (sym e ∙ empty));
    same_rest = refl;
  }

  Adds-IsFormatted :
      (q : Pos) (a : ℕ) (ip : Inode) (d : Disk) (ip' : Inode) (d' : Disk)
      → IsFormatted sb d
      → Adds sb q a ip d ip' d'
      → IsFormatted sb d'
  Adds-IsFormatted q a ip d ip' d' f g = record {
    size_fits = f.size_fits;
    map_fits = f.map_fits;
    after_boot = f.after_boot;
    zero_reserved = ground (arith, g.bits 0, f.zero_reserved, f.map_fits);
    maps_reserved = λ b h. ground (arith, g.bits (bblock sb b), f.maps_reserved b h, f.map_fits);
  }

  -- A block was put at an empty place.
  put :
      (k : ℕ) (q : Pos) (ip : Inode) (d : Disk) (a : ℕ) (ip' : Inode) (d' : Disk)
      → IsTree sb ip d
      → IsFormatted sb d
      → ptr ip d q ≡ 0
      → 0 < a
      → Adds sb q a ip d ip' d'
      → Logs k d d'
      → ((q' : Pos) (o : ℕ)
          → InTree q'
          → IsData q'
          → ptr ip d q' ≢ 0
          → byte d' (ptr ip d q') o ≡ byte d (ptr ip d q') o)
      → ((o : ℕ) → byte d' 0 o ≡ byte d 0 o)
      → ((o : ℕ) → o < bsize → byte d' a o ≡ 0)
      → ip' ≡ record ip { addrs = ip'.addrs }
      → Loaded k q ip d a ip' d'
  put k q ip d a ip' d' t f empty positive g logs data_kept boot_kept zeroed same_rest = record {
    tree = Adds-IsTree sb q a ip d ip' d' t g f;
    format = Adds-IsFormatted q a ip d ip' d' f g;
    logs = logs;
    here = g.at;
    was = λ ne. absurd (ne empty);
    others = g.others;
    full = λ z. absurd (omega arith);
    data_kept = data_kept;
    boot_kept = boot_kept;
    fresh_zero = λ _ _. zeroed;
    same_rest = same_rest;
  }

  -- An allocation writes neither the boot block nor a block of the tree.
  boot_of_Allocates :
      (a : ℕ) (d d' : Disk) (o : ℕ)
      → IsFormatted sb d
      → 0 < a
      → Allocates sb a d d'
      → byte d' 0 o ≡ byte d 0 o
  boot_of_Allocates a d d' o f positive g =
      g.elsewhere 0 o (omega arith) (omega (arith, f.after_boot))

  module _ (ip : Inode) (d : Disk) (t : IsTree sb ip d) (f : IsFormatted sb d) where
    abbrev LoadedPair : ℕ → Pos → ℕ × Inode → Disk → Type 0
    LoadedPair k q r d' = Loaded k q ip d r.0 r.1 d'

    module _ (i : ℕ) (q : Pos) (in_tree : InTree q) (place : ptr ip d q ≡ addr_at ip i)
        (adds : (a : ℕ) (d' : Disk)
          → addr_at ip i ≡ 0
          → Allocates sb a d d'
          → Adds sb q a ip d (set_addr ip i a) d') where
      addr_of_Balloced :
          (a : ℕ) (d' : Disk)
          → addr_at ip i ≡ 0
          → Balloced sb d a d'
          → LoadedPair 2 q (a, if a == 0 then ip else set_addr ip i a) d'
      unfolding Balloced
      addr_of_Balloced a d' empty (inl (z, same, full)) =
          rw (eq→== a 0 z, same) (stay 2 q ip d a t f (place ∙ empty ∙ sym z) (λ _. full))
      addr_of_Balloced a d' empty (inr (positive, g, first)) = rw (ne→== a 0 (omega arith)) (
          put 2 q ip d a (set_addr ip i a) d' t f (place ∙ empty) positive (adds a d' empty g)
            g.logs (λ q' o in_tree is_data ne. block_kept sb a ip d d' t g q' o in_tree ne)
            (λ o. boot_of_Allocates a d d' o f positive g) g.zeroed refl)

      pub load_addr-Loaded : Room sb 2 d → Returns (LoadedPair 2 q) (load_addr sb ip i d)
      unfolding load_addr
      load_addr-Loaded r = elim (Bool-cases (addr_at ip i == 0)) [
        | inl empty ↦ rw empty (
            bind (balloc-Balloced sb d f r)
              λ a d' p. returns (addr_of_Balloced a d' (==→eq _ 0 empty) p))
        | inr there ↦
            rw there
              (returns (stay 2 q ip d (addr_at ip i) t f place (λ z. absurd (==→ne _ 0 there z))))
      ]

    module _ (from : Pos) (j : ℕ) (q : Pos) (in_from : InTree from) (not_data : ¬ IsData from)
        (ne : ptr ip d from ≢ 0) (place : ptr ip d q ≡ word d (ptr ip d from) j)
        (adds : (a : ℕ) (d₁ d₂ : Disk)
          → ptr ip d q ≡ 0
          → Allocates sb a d d₁
          → StoresWord (ptr ip d from) j a d₁ d₂
          → Adds sb q a ip d ip d₂) where
      put_word :
          (a : ℕ) (d₁ d₂ : Disk)
          → ptr ip d q ≡ 0
          → 0 < a
          → Allocates sb a d d₁
          → StoresWord (ptr ip d from) j a d₁ d₂
          → Logs 1 d₁ d₂
          → Loaded 3 q ip d a ip d₂
      put_word a d₁ d₂ empty positive g s l =
          put 3 q ip d a ip d₂ t f empty positive (adds a d₁ d₂ empty g s)
            (Logs-trans 2 1 3 g.logs l (omega arith))
            (λ q' o in_tree is_data nz.
              s.elsewhere (ptr ip d q') o
                (λ e. not_data (subst IsData (t.apart q' from in_tree in_from nz e) is_data))
              ∙ block_kept sb a ip d d₁ t g q' o in_tree nz)
            (λ o. s.elsewhere 0 o (λ e. ne (sym e)) ∙ boot_of_Allocates a d d₁ o f positive g)
            (λ o h.
              s.elsewhere a o (λ e. cc (t.used from in_from ne, g.was_free, ap (allocated sb d) e))
              ∙ g.zeroed o h)
            refl

      word_of_Balloced :
          (a : ℕ) (d₁ : Disk)
          → Room sb 3 d
          → ptr ip d q ≡ 0
          → Balloced sb d a d₁
          → Returns
              (λ a' d'. Loaded 3 q ip d a' ip d')
              ((if a == 0
                  then pure 0
                  else do store_word (ptr ip d from) j a; log_write sb (ptr ip d from); pure a)
                d₁)
      unfolding Balloced
      word_of_Balloced a d₁ r empty (inl (z, same, full)) =
          rw (eq→== a 0 z, same) (returns (stay 3 q ip d 0 t f empty (λ _. full)))
      word_of_Balloced a d₁ r empty (inr (positive, g, first)) = rw (ne→== a 0 (omega arith)) (
          store_logged sb a (ptr ip d from) j a 0 d₁ (Room-Logs sb 3 2 1 r g.logs (omega arith))
            (λ d₂ s l. put_word a d₁ d₂ empty positive g s l))

      pub load_word-Loaded :
          Room sb 3 d → Returns (λ a d'. Loaded 3 q ip d a ip d') (load_word sb (ptr ip d from) j d)
      unfolding load_word
      load_word-Loaded r = elim (Bool-cases (word d (ptr ip d from) j == 0)) [
        | inl empty ↦ rw empty (
            bind (balloc-Balloced sb d f (omega (arith, r)))
              λ a d₁ p. word_of_Balloced a d₁ r (place ∙ ==→eq _ 0 empty) p)
        | inr there ↦ rw there (
            returns (
              stay 3 q ip d (word d (ptr ip d from) j) t f place (λ z. absurd (==→ne _ 0 there z))))
      ]
