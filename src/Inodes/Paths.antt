-- ===== src/Inodes/Paths.antt =====
-- `skipelem` of fs.c takes the elements of a path one by one.
use cuhksz_operating_system.Prelude.{
  ℕ, ◌+◌, ◌≤◌, ◌<◌, ◌≡◌, ◌≢◌, ◌⊎◌, inl, inr, refl, sym, ap, ◌∙◌, Bool, true, false, none, some,
  List, [], ◌∷◌, ◌++◌, ◌==◌, if◌then◌else◌, length, arith, Bool-cases, ==→eq, ==→ne, eq→==, ne→==,
}
use mathlib.Core.List.{append-nil, append_assoc}
use cuhksz_operating_system.Inodes.{skip_slashes, element, take, is_empty, skipelem, dirsiz}

-- The elements of a path: the runs of bytes between slashes that are not empty. `cur` is what was read
-- of the present one.
pub elements : List ℕ → List ℕ → List (List ℕ)
elements cur [] = if is_empty cur then [] else cur ∷ []
elements cur (c ∷ path) =
    let over = elements [] path in
    let longer = elements (cur ++ c ∷ []) path in
    if c == b'/' then (if is_empty cur then over else cur ∷ over) else longer

-- A path with no slash in front.
abbrev IsTrim : List ℕ → Type 0
IsTrim [] = Unit
IsTrim (c ∷ path) = c ≢ b'/'

-- The end of a path, or a slash and what follows.
abbrev IsBreak : List ℕ → Type 0
IsBreak [] = Unit
IsBreak (c ∷ path) = c ≡ b'/'

skip_slashes-elements : (path : List ℕ) → elements [] (skip_slashes path) ≡ elements [] path
unfolding elements skip_slashes
skip_slashes-elements [] = refl
skip_slashes-elements (c ∷ path) = elim (Bool-cases (c == b'/')) [
  | inl e ↦ rw (e, skip_slashes) (skip_slashes-elements path)
  | inr e ↦ rw (e, skip_slashes) (rw e refl)
]

skip_slashes-IsTrim : (path : List ℕ) → IsTrim (skip_slashes path)
unfolding skip_slashes
skip_slashes-IsTrim [] = tt
skip_slashes-IsTrim (c ∷ path) = elim (Bool-cases (c == b'/')) [
  | inl e ↦ rw (e, skip_slashes) (skip_slashes-IsTrim path)
  | inr e ↦ rw (e, skip_slashes) (==→ne c _ e)
]

length-skip_slashes : (path : List ℕ) → length (skip_slashes path) ≤ length path
unfolding skip_slashes
length-skip_slashes [] = omega arith
length-skip_slashes (c ∷ path) = ground (arith, length-skip_slashes path)

element-elements :
    (cur path : List ℕ) → elements cur path ≡ elements (cur ++ (element path).0) (element path).1
unfolding elements element
element-elements cur [] = ap (λ l. elements l []) (sym (append-nil cur))
element-elements cur (c ∷ path) = elim (Bool-cases (c == b'/')) [
  | inl e ↦
      let q : element (c ∷ path) ≡ ([], c ∷ path) = rw e refl in
      ap (λ l. elements l (c ∷ path)) (sym (append-nil cur))
      ∙ ap (λ (r : List ℕ × List ℕ). elements (cur ++ r.0) r.1) (sym q)
  | inr e ↦
      let q : element (c ∷ path) ≡ (c ∷ (element path).0, (element path).1) = rw e refl in
      let first : elements cur (c ∷ path) ≡ elements (cur ++ c ∷ []) path = rw e refl in
      first
      ∙ element-elements (cur ++ c ∷ []) path
      ∙ ap (λ l. elements l (element path).1) (append_assoc cur (c ∷ []) (element path).0)
      ∙ ap (λ (r : List ℕ × List ℕ). elements (cur ++ r.0) r.1) (sym q)
]

element-IsBreak : (path : List ℕ) → IsBreak (element path).1
unfolding element
element-IsBreak [] = tt
element-IsBreak (c ∷ path) = elim (Bool-cases (c == b'/')) [
  | inl e ↦ rw (e, element) (==→eq c _ e)
  | inr e ↦ rw (e, element) (element-IsBreak path)
]

length-element : (path : List ℕ) → length (element path).0 + length (element path).1 ≡ length path
unfolding element
length-element [] = omega arith
length-element (c ∷ path) = elim (Bool-cases (c == b'/')) [
  | inl e ↦ rw (e, element) (omega arith)
  | inr e ↦ rw (e, element) (omega (arith, length-element path))
]

-- A break ends the element that was read.
break-elements :
    (cur path : List ℕ)
    → is_empty cur ≡ false
    → IsBreak path
    → elements cur path ≡ cur ∷ elements [] path
unfolding elements
break-elements cur [] full b = rw full refl
break-elements cur (c ∷ path) full b = rw (eq→== c _ b, full) refl

abbrev pub is_nil : List (List ℕ) → Bool
is_nil [] = true
is_nil (x ∷ xs) = false

full-elements : (cur path : List ℕ) → is_empty cur ≡ false → is_nil (elements cur path) ≡ false
unfolding elements
full-elements cur [] full = rw full refl
full-elements cur (c ∷ path) full = elim (Bool-cases (c == b'/')) [
  | inl e ↦ rw (e, full) refl
  | inr e ↦ rw e (full-elements (cur ++ c ∷ []) path (longer cur))
]
  where
    longer : (l : List ℕ) → is_empty (l ++ c ∷ []) ≡ false
    longer [] = refl
    longer (x ∷ l) = refl

trim-elements : (path : List ℕ) → IsTrim path → is_empty path ≡ is_nil (elements [] path)
unfolding elements
trim-elements [] t = refl
trim-elements (c ∷ path) t = rw (ne→== c _ t) (sym (full-elements (c ∷ []) path refl))

-- What `skipelem` takes from a path.
pub record Takes (path e rest : List ℕ) : Type 0 where
  pub answer : skipelem path ≡ some (take dirsiz e, rest)
  pub splits : elements [] path ≡ e ∷ elements [] rest
  pub shorter : length rest < length path
  pub last : is_empty rest ≡ is_nil (elements [] rest)

element-full :
    (path : List ℕ) → IsTrim path → is_empty path ≡ false → is_empty (element path).0 ≡ false
unfolding element
element-full [] t full = full
element-full (c ∷ path) t full = rw (ne→== c _ t) refl

-- `skipelem` answers 0 exactly when the path has no element; else it gives the first element, cut to
-- DIRSIZ bytes, and a shorter path that has the other elements; this path is empty exactly when there
-- is none.
pub skipelem-Takes :
    (path : List ℕ)
    → ((skipelem path ≡ none) × (elements [] path ≡ []))
      ⊎ ((e : List ℕ) × (rest : List ℕ) × Takes path e rest)
unfolding skipelem
skipelem-Takes path =
    let s = skip_slashes path in
    elim (Bool-cases (is_empty s)) [
      | inl e ↦ inl (
        rw e refl,
        sym (skip_slashes-elements path) ∙ ap (elements []) (nothing s e) ∙ no_elements,
      )
      | inr e ↦
          let r = element s in
          inr (
            r.0,
            skip_slashes r.1,
            record {
              answer = rw e refl;
              splits =
                  sym (skip_slashes-elements path)
                  ∙ element-elements [] s
                  ∙ break-elements r.0 r.1 (element-full s (skip_slashes-IsTrim path) e)
                      (element-IsBreak s)
                  ∙ ap (λ l. r.0 ∷ l) (sym (skip_slashes-elements r.1));
              shorter = omega (
                arith,
                length-skip_slashes path,
                length-skip_slashes r.1,
                length-element s,
                some_length r.0 (element-full s (skip_slashes-IsTrim path) e),
              );
              last = trim-elements (skip_slashes r.1) (skip_slashes-IsTrim r.1);
            },
          )
    ]
  where
    nothing : (l : List ℕ) → is_empty l ≡ true → l ≡ []
    nothing [] h = refl
    nothing (x ∷ l) h = ground (arith, h)

    no_elements : elements [] [] ≡ []
    no_elements = unfold elements in refl

    some_length : (l : List ℕ) → is_empty l ≡ false → 1 ≤ length l
    some_length [] h = ground (arith, h)
    some_length (x ∷ l) h = omega arith
