-- ===== src/Fs/Bmap/Correct.antt =====
-- `bmap` against the tree of addresses: it extends the map from block numbers to blocks at one number.
use cuhksz_operating_system.Prelude.{
  ℕ, ◌+◌, ◌-◌, ◌/◌, ◌%◌, ◌≤◌, ◌<◌, ◌≡◌, ◌≢◌, refl, sym, ap, ◌∙◌, true, ltb, if◌then◌else◌, arith,
  eq→==, inl, inr,
}
use mathlib.Core.Path.{subst}
use cuhksz_operating_system.Fs.Disk.{Superblock, Disk, byte, bsize, word, Returns, returns, bind}
use cuhksz_operating_system.Fs.Inode.{Inode, ndirect, nindirect}
use cuhksz_operating_system.Fs.Log.{Logs, Logs-refl, Logs-trans, Room}
use cuhksz_operating_system.Fs.Blocks.{allocated}
use cuhksz_operating_system.Fs.Blocks.Alloc.{IsFormatted, Balloced, balloc-Balloced}
use cuhksz_operating_system.Fs.Bmap.{load_word}
use cuhksz_operating_system.Fs.Bmap.Tree.{Pos, direct, leaf, deep, InTree, ptr, IsTree}
use cuhksz_operating_system.Fs.Bmap.Load.{IsData, Loaded}

-- The number of blocks of a file, MAXFILE.
abbrev pub maxfile : ℕ
maxfile = 65803

-- Where the address of the file's block `bn` stands.
abbrev pub place : ℕ → Pos
place bn =
    if ltb bn ndirect
    then direct bn
    else if ltb (bn - ndirect) nindirect
    then leaf (bn - ndirect)
    else deep ((bn - ndirect - nindirect) / nindirect) ((bn - ndirect - nindirect) % nindirect)

-- The block that holds block `bn` of the file, 0 if there is none.
abbrev pub lookup : Inode → Disk → ℕ → ℕ
lookup ip d bn = ptr ip d (place bn)

-- The boot block holds zero words, as mkfs leaves it.
abbrev pub BootZero : Disk → Type 0
BootZero d = (j : ℕ) → j < nindirect → word d 0 j ≡ 0

module _ (sb : Superblock) where
  -- From `ip`, `d` to `ip'`, `d'` the data place `q` came to hold the address `a`.
  pub record Mapped (k : ℕ) (q : Pos) (ip : Inode) (d : Disk) (a : ℕ) (ip' : Inode) (d' : Disk)
      : Type 0 where
    pub tree : IsTree sb ip' d'
    pub format : IsFormatted sb d'
    pub logs : Logs k d d'
    pub here : ptr ip' d' q ≡ a
    pub was : ptr ip d q ≢ 0 → a ≡ ptr ip d q
    pub others : (q' : Pos) → InTree q' → IsData q' → q' ≢ q → ptr ip' d' q' ≡ ptr ip d q'
    pub full : a ≡ 0 → (c : ℕ) → c < sb.size → allocated sb d' c ≡ true
    pub data_kept :
        (q' : Pos) (o : ℕ)
        → InTree q'
        → IsData q'
        → ptr ip d q' ≢ 0
        → byte d' (ptr ip d q') o ≡ byte d (ptr ip d q') o
    pub boot_kept : (o : ℕ) → byte d' 0 o ≡ byte d 0 o
    pub fresh_zero : ptr ip d q ≡ 0 → a ≢ 0 → (o : ℕ) → o < bsize → byte d' a o ≡ 0
    pub same_rest : ip' ≡ record ip { addrs = ip'.addrs }

  pub Loaded-Mapped :
      (k n : ℕ) (q : Pos) (ip : Inode) (d : Disk) (a : ℕ) (ip' : Inode) (d' : Disk)
      → k ≤ n
      → Loaded sb k q ip d a ip' d'
      → Mapped n q ip d a ip' d'
  Loaded-Mapped k n q ip d a ip' d' h l = record {
    tree = l.tree;
    format = l.format;
    logs = Logs-trans k 0 n l.logs (Logs-refl d') (omega arith);
    here = l.here;
    was = l.was;
    others = λ q' in_tree is_data ne. l.others q' in_tree ne;
    full = l.full;
    data_kept = l.data_kept;
    boot_kept = l.boot_kept;
    fresh_zero = l.fresh_zero;
    same_rest = l.same_rest;
  }

  -- A load at a place of addresses, then the rest of the way.
  pub then_Mapped :
      (j k n : ℕ) (q₁ q : Pos) (ip : Inode) (d : Disk) (p : ℕ) (ip₁ : Inode) (d₁ : Disk) (a : ℕ)
      (ip₂ : Inode) (d₂ : Disk)
      → j + k ≤ n
      → ¬ IsData q₁
      → IsData q
      → InTree q
      → Loaded sb j q₁ ip d p ip₁ d₁
      → Mapped k q ip₁ d₁ a ip₂ d₂
      → Mapped n q ip d a ip₂ d₂
  then_Mapped j k n q₁ q ip d p ip₁ d₁ a ip₂ d₂ fits index is_data in_tree l m =
      let apart = λ (q' : Pos) (h : IsData q') (e : q' ≡ q₁). index (subst IsData e h) in
      let same : ptr ip₁ d₁ q ≡ ptr ip d q = l.others q in_tree (apart q is_data) in
      record {
        tree = m.tree;
        format = m.format;
        logs = Logs-trans j k n l.logs m.logs fits;
        here = m.here;
        was = λ ne. m.was (λ z. ne (sym same ∙ z)) ∙ same;
        others = λ q' in_tree' is_data' ne.
            m.others q' in_tree' is_data' ne ∙ l.others q' in_tree' (apart q' is_data');
        full = m.full;
        data_kept = λ q' o in_tree' is_data' ne.
            let e : ptr ip₁ d₁ q' ≡ ptr ip d q' = l.others q' in_tree' (apart q' is_data') in
            subst (λ b. byte d₂ b o ≡ byte d₁ b o) e
              (m.data_kept q' o in_tree' is_data' (λ z. ne (sym e ∙ z)))
            ∙ l.data_kept q' o in_tree' is_data' ne;
        boot_kept = λ o. m.boot_kept o ∙ l.boot_kept o;
        fresh_zero = λ empty ne. m.fresh_zero (same ∙ empty) ne;
        same_rest = m.same_rest ∙ ap (λ (x : Inode). record x { addrs = ip₂.addrs }) l.same_rest;
      }

  -- Where there is no block of addresses, and none could be had, the place stays empty.
  pub no_way :
      (k : ℕ) (q : Pos) (ip : Inode) (d : Disk)
      → IsTree sb ip d
      → IsFormatted sb d
      → ptr ip d q ≡ 0
      → ((c : ℕ) → c < sb.size → allocated sb d c ≡ true)
      → Mapped k q ip d 0 ip d
  no_way k q ip d t f empty full = record {
    tree = t;
    format = f;
    logs = Logs-trans 0 0 k (Logs-refl d) (Logs-refl d) (omega arith);
    here = empty;
    was = λ ne. absurd (ne empty);
    others = λ q' in_tree is_data ne. refl;
    full = λ _. full;
    data_kept = λ q' o in_tree is_data ne. refl;
    boot_kept = λ o. refl;
    fresh_zero = λ _ ne. absurd (ne refl);
    same_rest = refl;
  }

  -- On a full disk a zero word of the boot block is left alone.
  pub load_word_boot :
      (j : ℕ) (d : Disk)
      → IsFormatted sb d
      → Room sb 2 d
      → word d 0 j ≡ 0
      → ((c : ℕ) → c < sb.size → allocated sb d c ≡ true)
      → Returns (λ a d'. (a ≡ 0) × (d' ≡ d)) (load_word sb 0 j d)
  unfolding load_word Balloced
  load_word_boot j d f r zero_word full = rw (eq→== _ 0 zero_word) (
      bind (balloc-Balloced sb d f r) λ a d₁ p. elim p [
        | inl none_free ↦ rw (eq→== a 0 none_free.0) (returns (refl, none_free.1))
        | inr found ↦ cc (found.1.was_free, full a found.1.in_range)
      ])
