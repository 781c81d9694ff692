-- ===== src/Kalloc/Chain.antt =====
-- The free list of kalloc.c as a list of pages.
use cuhksz_operating_system.Prelude.{
  ℕ, ◌+◌, ◌%◌, ◌≤◌, ◌<◌, ◌≡◌, ◌≢◌, ◌⊎◌, inl, inr, refl, sym, ap, ◌∙◌, subst, not, ◌||◌, none, some,
  List, [], ◌∷◌, ltb, leb, ◌==◌, arith, Bool-cases, eq→==, ne→==,
}
use cuhksz_operating_system.Kalloc.{Kmem, pgsize, fill, push, junk_freed, kfree, kalloc}

-- From `head` on the words lead through these pages to 0.
unfoldable pub Chain : (ℕ → ℕ) → ℕ → List ℕ → Type 0
Chain word head [] = head ≡ 0
Chain word head (p ∷ ps) = (head ≡ p) × (p ≢ 0) × Chain word (word p) ps

-- The page is not one of these.
unfoldable pub Absent : ℕ → List ℕ → Type 0
Absent p [] = Unit
Absent p (q ∷ qs) = (p ≢ q) × Absent p qs

module _ (end phystop : ℕ) where
  abbrev pub IsPage : ℕ → Type 0
  IsPage p = (p % pgsize ≡ 0) × (end ≤ p) × (p < phystop)

  unfoldable pub Pages : List ℕ → Type 0
  Pages [] = Unit
  Pages (p ∷ ps) = IsPage p × Absent p ps × Pages ps

  -- A free list of distinct pages.
  pub record IsFree (k : Kmem) (ps : List ℕ) : Type 0 where
    pub chain : Chain k.word k.freelist ps
    pub pages : Pages ps

  -- Words outside a page that is not in the list do not matter to it.
  Chain-other :
      (word word' : ℕ → ℕ) (pa head : ℕ) (ps : List ℕ)
      → pa % pgsize ≡ 0
      → ((a : ℕ) → (a < pa) ⊎ (pa + pgsize ≤ a) → word' a ≡ word a)
      → Pages ps
      → Absent pa ps
      → Chain word head ps
      → Chain word' head ps
  unfolding Chain Absent Pages
  Chain-other word word' pa head [] page same ok away c = c
  Chain-other word word' pa head (p ∷ ps) page same ok away c =
      let e : word' p ≡ word p = same p (omega (arith, ok.0.0, away.0)) in
      (
        c.0,
        c.1,
        Chain-other word word' pa (word' p) ps page same ok.2 away.1
            (subst (λ h. Chain word h ps) (sym e) c.2),
      )

  -- `kfree` refuses what is no page of the range; a page that is not free becomes the first free one.
  pub kfree-IsFree :
      (pa : ℕ) (k : Kmem) (ps : List ℕ)
      → 0 < end
      → IsFree k ps
      → (IsPage pa × Absent pa ps
          → (k' : Kmem) × (kfree end phystop pa k ≡ some k') × IsFree k' (pa ∷ ps))
        × (¬ IsPage pa → kfree end phystop pa k ≡ none)
  unfolding kfree Chain Pages
  kfree-IsFree pa k ps positive f = (
    λ h.
        let k' = push pa (fill pa junk_freed k) in
        (
          k',
          ground (arith, h.0),
          record {
            chain = (
              refl,
              omega (arith, h.0),
              subst (λ x. Chain k'.word x ps) (rw (eq→== pa pa refl) refl)
                  (Chain-other k.word k'.word pa k.freelist ps h.0.0 (λ a o. ground (arith, o))
                    f.pages h.1 f.chain),
            );
            pages = (h.0, h.1, f.pages);
          },
        ),
    λ n. elim (Bool-cases (not (pa % pgsize == 0) || ltb pa end || leb phystop pa)) [
      | inl e ↦ rw e refl
      | inr e ↦ absurd (n (ground (arith, e), ground (arith, e), ground (arith, e)))
    ],
  )

  -- `kalloc` gives the first free page, which is then free no more, and 0 exactly when there is none.
  pub kalloc-IsFree :
      (k : Kmem) (ps : List ℕ)
      → 0 < end
      → IsFree k ps
      → ((ps ≡ []) × (kalloc k ≡ (0, k)))
        ⊎ ((p : ℕ) × (rest : List ℕ) × (ps ≡ p ∷ rest)
            × IsPage p
            × Absent p rest
            × ((kalloc k).0 ≡ p)
            × IsFree (kalloc k).1 rest)
  unfolding kalloc Chain Pages
  kalloc-IsFree k [] positive f = inl (refl, ground (arith, f.chain))
  kalloc-IsFree k (p ∷ ps) positive f =
      let head : k.freelist ≡ p = f.chain.0 in
      let full : k.freelist ≢ 0 = λ e. f.chain.1 (sym head ∙ e) in
      inr (
        p,
        ps,
        refl,
        f.pages.0,
        f.pages.1,
        rw (ne→== _ 0 full) head,
        rw (ne→== _ 0 full) (record {
          chain =
              Chain-other k.word _ k.freelist (k.word k.freelist) ps
                (ap (λ (a : ℕ). a % pgsize) head ∙ f.pages.0.0) (λ a o. ground (arith, o)) f.pages.2
                (subst (λ a. Absent a ps) (sym head) f.pages.1)
                (subst (λ a. Chain k.word a ps) (ap k.word (sym head)) f.chain.2);
          pages = f.pages.2;
        }),
      )
