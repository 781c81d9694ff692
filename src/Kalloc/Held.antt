-- ===== src/Kalloc/Held.antt =====
-- Calls of `kalloc` and `kfree` of kalloc.c in any order: what is held is never handed out again.
use cuhksz_operating_system.Prelude.{
  ℕ, zero, suc, ◌<◌, ◌≡◌, ◌≢◌, inl, inr, refl, sym, subst, true, false, Option, none, some, List,
  [], ◌∷◌, ◌==◌, if◌then◌else◌, get_or, arith, Bool-cases, ==→ne, ne→==,
}
use cuhksz_operating_system.Kalloc.{Kmem, kfree, kalloc}
use cuhksz_operating_system.Kalloc.Chain.{
  Absent, IsPage, Pages, IsFree, kfree-IsFree, kalloc-IsFree,
}

-- The allocator and the pages that its callers hold.
pub record Pool : Type 0 where
  pub kmem : Kmem
  pub held : List ℕ

pub data Call : Type 0 where
  alloc : Call
  free : (i : ℕ) → Call  -- the i-th page that is held; nothing is done if there is none

unfoldable pub remove : ℕ → List ℕ → List ℕ
remove i [] = []
remove zero (x ∷ xs) = xs
remove (suc i) (x ∷ xs) = x ∷ remove i xs

module _ (end phystop : ℕ) where
  unfoldable pub call : Call → Pool → Option Pool
  call alloc s =
      let (p, k) = kalloc s.kmem in
      some (record { kmem = k; held = if p == 0 then s.held else p ∷ s.held })
  call (free i) s = elim (get_or s.held i 0 == 0) [
    | true ↦ some s
    | false ↦ elim (kfree end phystop (get_or s.held i 0) s.kmem) [
      | none ↦ none
      | some k ↦ some (record { kmem = k; held = remove i s.held })
    ]
  ]

  unfoldable pub calls : List Call → Pool → Option Pool
  calls [] s = some s
  calls (c ∷ cs) s = elim (call c s) [ none ↦ none | some s' ↦ calls cs s' ]

  -- No page is both held and free.
  unfoldable pub Apart : List ℕ → List ℕ → Type 0
  Apart [] ps = Unit
  Apart (h ∷ hs) ps = Absent h ps × Apart hs ps

  pub record IsPool (s : Pool) : Type 0 where
    pub pages : List ℕ
    pub free_pages : IsFree end phystop s.kmem pages
    pub held_pages : Pages end phystop s.held
    pub apart : Apart s.held pages

  Apart-split : (p : ℕ) (hs ps : List ℕ) → Apart hs (p ∷ ps) → Absent p hs × Apart hs ps
  unfolding Apart Absent
  Apart-split p [] ps a = (tt, tt)
  Apart-split p (h ∷ hs) ps a =
      let r = Apart-split p hs ps a.1 in ((λ e. a.0.0 (sym e), r.0), (a.0.1, r.1))

  Absent-remove : (p i : ℕ) (hs : List ℕ) → Absent p hs → Absent p (remove i hs)
  unfolding Absent remove
  Absent-remove p i [] a = tt
  Absent-remove p zero (h ∷ hs) a = a.1
  Absent-remove p (suc i) (h ∷ hs) a = (a.0, Absent-remove p i hs a.1)

  Absent-get_or : (p i : ℕ) (hs : List ℕ) → Absent p hs → get_or hs i 0 ≢ 0 → p ≢ get_or hs i 0
  unfolding Absent get_or
  Absent-get_or p i [] a nz = λ e. nz refl
  Absent-get_or p zero (h ∷ hs) a nz = a.0
  Absent-get_or p (suc i) (h ∷ hs) a nz = Absent-get_or p i hs a.1 nz

  -- One of the held pages, taken out.
  Held-remove :
      (i : ℕ) (hs ps : List ℕ)
      → get_or hs i 0 ≢ 0
      → Pages end phystop hs
      → Apart hs ps
      → IsPage end phystop (get_or hs i 0)
        × Absent (get_or hs i 0) ps
        × Pages end phystop (remove i hs)
        × Apart (remove i hs) (get_or hs i 0 ∷ ps)
  unfolding Pages Apart remove get_or Absent
  Held-remove i [] ps nz g a = absurd (nz refl)
  Held-remove zero (h ∷ hs) ps nz g a = (g.0, a.0, g.2, others h hs g.1 a.1)
    where
      others : (h : ℕ) (hs : List ℕ) → Absent h hs → Apart hs ps → Apart hs (h ∷ ps)
      others h [] b a = tt
      others h (x ∷ xs) b a = ((λ e. b.0 (sym e), a.0), others h xs b.1 a.1)
  Held-remove (suc i) (h ∷ hs) ps nz g a =
      let r = Held-remove i hs ps nz g.2 a.1 in
      (r.0, r.1, (g.0, Absent-remove h i hs g.1, r.2), ((Absent-get_or h i hs g.1 nz, a.0), r.3))

  module _ (positive : 0 < end) where
    call-IsPool : (c : Call) (s : Pool) → IsPool s → (s' : Pool) × (call c s ≡ some s') × IsPool s'
    unfolding call Pages Apart
    call-IsPool alloc s v = elim (kalloc-IsFree end phystop s.kmem v.pages positive v.free_pages) [
      | inl (e, e') ↦ (s, rw e' refl, v)
      | inr (p, rest, e, page, away, e', f) ↦
          let a = Apart-split p s.held rest (subst (Apart s.held) e v.apart) in
          (
            record { kmem = (kalloc s.kmem).1; held = p ∷ s.held },
            rw (e', ne→== p 0 (omega (arith, page, positive))) refl,
            record {
              pages = rest;
              free_pages = f;
              held_pages = (page, a.0, v.held_pages);
              apart = (away, a.1);
            },
          )
    ]
    call-IsPool (free i) s v = elim (Bool-cases (get_or s.held i 0 == 0)) [
      | inl e ↦ (s, rw (e, call) refl, v)
      | inr e ↦
          let h = Held-remove i s.held v.pages (==→ne _ 0 e) v.held_pages v.apart in
          let r =
            (kfree-IsFree end phystop (get_or s.held i 0) s.kmem v.pages positive v.free_pages).0
              (h.0, h.1) in
          (
            record { kmem = r.0; held = remove i s.held },
            rw (e, r.1, call) refl,
            record {
              pages = get_or s.held i 0 ∷ v.pages;
              free_pages = r.2;
              held_pages = h.2;
              apart = h.3;
            },
          )
    ]

    -- From a state in order, any sequence of calls, of which each `kfree` gives back a page that is held,
    -- returns without a panic; the pages that are held stay distinct pages of the range, none is free.
    pub calls-IsPool :
        (cs : List Call) (s : Pool) → IsPool s → (s' : Pool) × (calls cs s ≡ some s') × IsPool s'
    unfolding calls
    calls-IsPool [] s v = (s, refl, v)
    calls-IsPool (c ∷ cs) s v =
        let r = call-IsPool c s v in
        let ih = calls-IsPool cs r.0 r.2 in (ih.0, rw (r.1, calls) ih.1, ih.2)
