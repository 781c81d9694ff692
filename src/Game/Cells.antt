-- ===== src/Game/Cells.antt =====
-- source.c: the cells of the map, in terms of the logs.
use cuhksz_operating_system.Prelude.{
  ℕ, zero, suc, ◌+◌, ◌-◌, ◌%◌, ◌≤◌, ◌<◌, Bool, true, false, not, ◌&&◌, ◌||◌, List, [], ◌∷◌, ◌==◌,
  ◌≡◌, refl, ap, ◌∙◌, arith, ltb, if◌then◌else◌, length, lt→ltb, ==→eq, ==→ne, eq→==, ne→==, ◌≢◌,
}
use cuhksz_operating_system.Game.{columns, log_length, number_of_logs, Map}
use cuhksz_operating_system.Game.Fleet.{AllBelow}
use cuhksz_operating_system.Game.Drawing.{covers, drawn, is_border}

-- Column `c` is one of the `log_length` columns from `h` on, round the row.
abbrev pub is_on : ℕ → ℕ → Bool
is_on h c = ltb ((c + columns - h) % columns) log_length

-- Log `k` is under column `c`.
unfoldable pub carried : List ℕ → ℕ → ℕ → Bool
carried [] k c = false
carried (h ∷ hs) zero c = is_on h c
carried (h ∷ hs) (suc k) c = carried hs k c

covers-eq :
    (h c n : ℕ)
    → h < columns
    → c < columns
    → n ≤ columns
    → covers h n c ≡ ltb ((c + columns - h) % columns) n
unfolding covers
covers-eq h c zero low low' le = ground arith
covers-eq h c (suc j) low low' le =
    ap (λ b. c == (h + j) % columns || b) (covers-eq h c j low low' (omega (arith, le)))
    ∙ by_last (c == (h + j) % columns) refl
  where
    d : ℕ
    d = (c + columns - h) % columns

    by_last : (b : Bool) → (c == (h + j) % columns) ≡ b → (b || ltb d j) ≡ ltb d (suc j)
    by_last true e =
        let here : d ≡ j = omega (arith, ==→eq c ((h + j) % columns) e, low, low', le) in
        ground (arith, here)
    by_last false e =
        let off : d ≢ j = λ s. ==→ne c ((h + j) % columns) e (omega (arith, s, low, low', le)) in
        ground (arith, off)

drawn-above : (i : ℕ) (hs : List ℕ) (r c : ℕ) → r ≤ i → drawn i hs r c ≡ false
unfolding drawn
drawn-above i [] r c le = refl
drawn-above i (h ∷ hs) r c le =
    rw (ne→== r (i + 1) (λ e. omega (arith, e, le)))
      (drawn-above (suc i) hs r c (omega (arith, le)))

drawn-below : (i : ℕ) (hs : List ℕ) (r c : ℕ) → i + length hs < r → drawn i hs r c ≡ false
unfolding drawn
drawn-below i [] r c low = refl
drawn-below i (h ∷ hs) r c low =
    rw (ne→== r (i + 1) (λ e. omega (arith, e, low)))
      (drawn-below (suc i) hs r c (omega (arith, low)))

drawn-carried :
    (i : ℕ) (hs : List ℕ) (k c : ℕ)
    → AllBelow hs
    → c < columns
    → drawn i hs (i + 1 + k) c ≡ carried hs k c
unfolding drawn carried
drawn-carried i [] k c lows low = refl
drawn-carried i (h ∷ hs) zero c (h_low, lows) low = rw (eq→== (i + 1 + 0) (i + 1) (omega arith)) (
    or_false (covers h log_length c) _ (drawn-above (suc i) hs (i + 1 + 0) c (omega arith))
    ∙ covers-eq h c log_length h_low low (omega arith))
  where
    or_false : (a b : Bool) → b ≡ false → (a || b) ≡ a
    or_false true b e = refl
    or_false false b e = e
drawn-carried i (h ∷ hs) (suc k) c (h_low, lows) low =
    rw (ne→== (i + 1 + suc k) (i + 1) (λ e. omega (arith, e)))
      (ap (λ r. drawn (suc i) hs r c) shifted ∙ drawn-carried (suc i) hs k c lows low)
  where
    shifted : i + 1 + suc k ≡ suc i + 1 + k
    shifted = omega arith

-- A cell of the map as it is drawn, in terms of the logs.
unfoldable pub IsDrawn : List ℕ → Map → Type 0
IsDrawn hs m =
    (r c : ℕ)
    → m r c ≡ (if drawn 0 hs r c then b'=' else if is_border columns r c then b'|' else b' ')

water : (a b : Bool) → ((if a then b'=' else if b then b'|' else b' ') == b' ') ≡ (not a && not b)
water true b = refl
water false true = refl
water false false = refl

is_border-at : (r c : ℕ) → c < columns → is_border columns r c ≡ (r == 0 || r == 10)
is_border-at r c low = rw (lt→ltb c columns low) (and_true (r == 0 || r == 10))
  where
    and_true : (b : Bool) → (b && true) ≡ b
    and_true true = refl
    and_true false = refl

-- A cell of the banks, and a cell of the river.
pub bank :
    (hs : List ℕ) (m : Map) (r c : ℕ)
    → IsDrawn hs m
    → c < columns
    → (r == 0 || r == 10) ≡ true
    → (m r c == b' ') ≡ false
unfolding IsDrawn
bank hs m r c cells low e =
    ap (λ x. x == b' ') (cells r c)
    ∙ water (drawn 0 hs r c) (is_border columns r c)
    ∙ ap (λ b. not (drawn 0 hs r c) && not b) (is_border-at r c low ∙ e)
    ∙ and_false (not (drawn 0 hs r c))
  where
    and_false : (b : Bool) → (b && false) ≡ false
    and_false true = refl
    and_false false = refl

pub river :
    (hs : List ℕ) (m : Map) (k c : ℕ)
    → AllBelow hs
    → IsDrawn hs m
    → c < columns
    → k < number_of_logs
    → (m (suc k) c == b' ') ≡ not (carried hs k c)
unfolding IsDrawn
river hs m k c lows cells low low' =
    let row : suc k ≡ 0 + 1 + k = omega arith in
    let inner : (suc k == 0 || suc k == 10) ≡ false =
      rw (ne→== (suc k) 0 (λ e. omega (arith, e)))
        (ne→== (suc k) 10 (λ e. omega (arith, e, low'))) in
    ap (λ x. x == b' ') (cells (suc k) c)
    ∙ water (drawn 0 hs (suc k) c) (is_border columns (suc k) c)
    ∙ ap (λ b. not (drawn 0 hs (suc k) c) && not b) (is_border-at (suc k) c low ∙ inner)
    ∙ and_true (not (drawn 0 hs (suc k) c))
    ∙ ap (λ r. not (drawn 0 hs r c)) row
    ∙ ap not (drawn-carried 0 hs k c lows low)
  where
    and_true : (b : Bool) → (b && true) ≡ b
    and_true true = refl
    and_true false = refl
