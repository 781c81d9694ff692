-- ===== src/Game/Ride.antt =====
-- source.c: the frog that stays on its log.
use cuhksz_operating_system.Prelude.{
  ℕ, zero, suc, ◌+◌, ◌-◌, ◌%◌, ◌≤◌, ◌<◌, replicate, Bool, true, false, Option, none, some, List, [],
  ◌∷◌, ◌==◌, ◌≡◌, ◌≢◌, inl, inr, refl, sym, ap, ◌∙◌, subst, arith, Bool-cases, ltb, lt→ltb, le→ltb,
  ltb→le, ltb→lt, if◌then◌else◌, length, ==→eq, ==→ne, eq→==, ne→==,
}
use cuhksz_operating_system.Prelude.Int.{ℤ, pos, negsuc, ◌+ℤ◌, difference, difference-le}
use cuhksz_operating_system.Game.{
  rows, columns, log_length, number_of_logs, lane, Frog, initialize_map, update_map,
  handle_keyboard_hit, adjust_frog_speed, update_frog_position, Outcome, fallen_out, fallen_in, won,
  playing, outside_array, Game, Turn, quits, ends, goes_on, verdict, turn, play,
}
use cuhksz_operating_system.Game.Fleet.{fleet, next, shift, AllBelow, shift-AllBelow, length-shift}
use cuhksz_operating_system.Game.Cells.{carried}
use cuhksz_operating_system.Game.Judge.{Fate, out, alive, fate, fate_on, fate_of, update_map-fate}
use cuhksz_operating_system.Game.Whole.{
  HasLogs, moved_game, moved_game-HasLogs, turn_for, turn-turn_for,
}

abbrev pub still : ℕ → ℤ → Frog
still k x = record { x = x; y = pos (suc k); x_speed = pos 0; y_speed = pos 0 }

-- The frog stands on log `k`, in column `c`.
pub record IsRiding (hs : List ℕ) (k c : ℕ) (g : Game) : Type 0 where
  pub logs : HasLogs hs g
  pub row : k < number_of_logs
  pub column : c < columns
  pub frog : g.frog ≡ still k (pos c)
  pub on : carried hs k c ≡ true

-- `adjust_frog_speed` has the direction of the log on the frog's row.
adjust-lane :
    (k : ℕ) (x : ℤ)
    → k < number_of_logs
    → update_frog_position (adjust_frog_speed (still k x)) ≡ still k (x +ℤ lane k)
unfolding adjust_frog_speed difference
adjust-lane k x low =
    rw (ne→== (suc k) 0 (λ e. omega (arith, e)))
      (rw (ne→== (suc k) 10 (λ e. omega (arith, e, low))) (by_parity (k % 2 == 0) refl))
  where
    plus_zero : suc k + 0 ≡ suc k
    plus_zero = omega arith

    by_parity :
        (b : Bool)
        → (k % 2 == 0) ≡ b
        → update_frog_position (
            if suc k % 2 == 0
            then record (still k x) { x_speed = negsuc 0 }
            else record (still k x) { x_speed = pos 1 })
          ≡ still k (x +ℤ (if b then pos 1 else negsuc 0))
    by_parity true e =
        rw (ne→== (suc k % 2) 0 (λ h. omega (arith, h, ==→eq (k % 2) 0 e)))
          (ap (λ r. record (still k (x +ℤ pos 1)) { y = pos r }) plus_zero)
    by_parity false e =
        rw (eq→== (suc k % 2) 0 (omega (arith, ==→ne (k % 2) 0 e)))
          (ap (λ r. record (still k (x +ℤ negsuc 0)) { y = pos r }) plus_zero)

carried-right :
    (i : ℕ) (hs : List ℕ) (k c : ℕ)
    → AllBelow hs
    → (i + k) % 2 ≡ 0
    → c + 1 < columns
    → carried (shift i hs) k (c + 1) ≡ carried hs k c
unfolding carried shift next
carried-right i [] k c lows even low = refl
carried-right i (h ∷ hs) zero c (h_low, lows) even low =
    let same : (c + 1 + columns - (h + 1) % columns) % columns ≡ (c + columns - h) % columns =
      omega (arith, low, h_low) in
    rw (eq→== (i % 2) 0 (omega (arith, even))) (ap (λ d. ltb d log_length) same)
carried-right i (h ∷ hs) (suc k) c (h_low, lows) even low =
    carried-right (suc i) hs k c lows (omega (arith, even)) low

carried-left :
    (i : ℕ) (hs : List ℕ) (k c : ℕ)
    → AllBelow hs
    → (i + k) % 2 ≢ 0
    → suc c < columns
    → carried (shift i hs) k c ≡ carried hs k (suc c)
unfolding carried shift next
carried-left i [] k c lows odd low = refl
carried-left i (h ∷ hs) zero c (h_low, lows) odd low =
    let same : (c + columns - (h + 49) % columns) % columns ≡ (suc c + columns - h) % columns =
      omega (arith, low, h_low) in
    rw (ne→== (i % 2) 0 (λ e. odd (omega (arith, e)))) (ap (λ d. ltb d log_length) same)
carried-left i (h ∷ hs) (suc k) c (h_low, lows) odd low =
    carried-left (suc i) hs k c lows (λ e. odd (omega (arith, e))) low

-- The frog rides on, or has left the map.
abbrev pub Rides : ℕ → Turn → Type 0
Rides k quits = ⊥
Rides k (ends fallen_out) = Unit
Rides k (ends fallen_in) = ⊥
Rides k (ends won) = ⊥
Rides k (ends (playing m)) = ⊥
Rides k (ends outside_array) = ⊥
Rides k (goes_on g) = (hs : List ℕ) × (c : ℕ) × IsRiding hs k c g

same_fate : {x y : Fate} → some x ≡ some y → x ≡ y
same_fate {x = x} e = ap (λ (o : Option Fate). elim o [ none ↦ x | some z ↦ z ]) e

verdict-out : (k : ℕ) (g : Game) (o : Outcome) → fate_of o ≡ some out → Rides k (verdict g o)
verdict-out k g fallen_out e = tt
verdict-out k g fallen_in e = absurd (ground (arith, same_fate e))
verdict-out k g won e = absurd (ground (arith, same_fate e))
verdict-out k g (playing m) e = absurd (ground (arith, same_fate e))
verdict-out k g outside_array e = absurd (ground (arith, e))

verdict-alive :
    (k c : ℕ) (hs : List ℕ) (g : Game) (o : Outcome)
    → fate_of o ≡ some alive
    → IsRiding hs k c g
    → Rides k (verdict g o)
verdict-alive k c hs g fallen_out e r = absurd (ground (arith, same_fate e))
verdict-alive k c hs g fallen_in e r = absurd (ground (arith, same_fate e))
verdict-alive k c hs g won e r = absurd (ground (arith, same_fate e))
verdict-alive k c hs g (playing m) e r = (hs, c, r)
verdict-alive k c hs g outside_array e r = absurd (ground (arith, e))

fate-alive :
    (hs : List ℕ) (k c : ℕ)
    → k < number_of_logs
    → c < columns
    → carried hs k c ≡ true
    → fate hs (pos c) (pos (suc k)) ≡ alive
unfolding fate fate_on
fate-alive hs k c row low on = rw (lt→ltb c columns low) (
    rw (lt→ltb (suc k) rows (omega (arith, row)))
      (rw (ne→== k number_of_logs (λ e. omega (arith, e, row))) (rw on refl)))

fate-out : (hs : List ℕ) (k c : ℕ) → columns ≤ c → fate hs (pos c) (pos (suc k)) ≡ out
unfolding fate
fate-out hs k c high = rw (le→ltb c columns high) refl

-- A turn without a key, for the column to which the frog is carried.
abbrev ridden : List ℕ → ℕ → ℤ → Turn
ridden hs k x =
    verdict (moved_game hs (still k x))
      (update_map initialize_map (fleet 0 (shift 0 hs)) (still k x))

ridden-fate :
    (hs : List ℕ) (k : ℕ) (x : ℤ)
    → AllBelow hs
    → length hs ≡ number_of_logs
    → fate_of (update_map initialize_map (fleet 0 (shift 0 hs)) (still k x))
      ≡ some (fate (shift 0 hs) x (pos (suc k)))
ridden-fate hs k x below size =
    update_map-fate (shift 0 hs) (still k x) (shift-AllBelow 0 hs) (length-shift 0 hs ∙ size)

ridden-out :
    (hs : List ℕ) (k : ℕ) (x : ℤ)
    → AllBelow hs
    → length hs ≡ number_of_logs
    → fate (shift 0 hs) x (pos (suc k)) ≡ out
    → Rides k (ridden hs k x)
ridden-out hs k x below size e = verdict-out k _ _ (ridden-fate hs k x below size ∙ ap some e)

ridden-on :
    (hs : List ℕ) (k c : ℕ)
    → AllBelow hs
    → length hs ≡ number_of_logs
    → k < number_of_logs
    → c < columns
    → carried (shift 0 hs) k c ≡ true
    → Rides k (ridden hs k (pos c))
ridden-on hs k c below size row low on =
    verdict-alive k c (shift 0 hs) _ _
      (ridden-fate hs k (pos c) below size ∙ ap some (fate-alive (shift 0 hs) k c row low on))
      (record {
        logs = moved_game-HasLogs hs (still k (pos c)) size;
        row = row;
        column = low;
        frog = refl;
        on = on;
      })

ridden-right :
    (hs : List ℕ) (k c : ℕ) (g : Game)
    → IsRiding hs k c g
    → k % 2 ≡ 0
    → Rides k (ridden hs k (pos (c + 1)))
ridden-right hs k c g r even = elim (Bool-cases (ltb (c + 1) columns)) [
  | inl e ↦
      let low = ltb→lt (c + 1) columns e in
      ridden-on hs k (c + 1) r.logs.below r.logs.size r.row low
        (carried-right 0 hs k c r.logs.below (omega (arith, even)) low ∙ r.on)
  | inr e ↦
      ridden-out hs k (pos (c + 1)) r.logs.below r.logs.size
        (fate-out (shift 0 hs) k (c + 1) (ltb→le (c + 1) columns e))
]

ridden-left :
    (hs : List ℕ) (k c : ℕ) (g : Game)
    → IsRiding hs k c g
    → k % 2 ≢ 0
    → Rides k (ridden hs k (difference c 1))
unfolding difference fate
ridden-left hs k zero g r odd = ridden-out hs k (negsuc 0) r.logs.below r.logs.size refl
ridden-left hs k (suc c) g r odd =
    let low : c < columns = omega (arith, r.column) in
    let same : suc c - 1 ≡ c = omega arith in
    subst (λ x. Rides k (ridden hs k x)) (sym (difference-le (suc c) 1 (omega arith) ∙ ap pos same))
      (ridden-on hs k c r.logs.below r.logs.size r.row low
        (carried-left 0 hs k c r.logs.below (λ e. odd (omega (arith, e))) r.column ∙ r.on))

turn-ridden :
    (hs : List ℕ) (k c : ℕ) (g : Game)
    → IsRiding hs k c g
    → turn none g ≡ ridden hs k (pos c +ℤ lane k)
unfolding handle_keyboard_hit turn_for
turn-ridden hs k c g r =
    turn-turn_for none g hs r.logs
    ∙ ap (λ f. turn_for hs (handle_keyboard_hit none f)) r.frog
    ∙ ap (λ f. verdict (moved_game hs f) (update_map initialize_map (fleet 0 (shift 0 hs)) f))
        (adjust-lane k (pos c) r.row)

turn-Rides : (hs : List ℕ) (k c : ℕ) (g : Game) → IsRiding hs k c g → Rides k (turn none g)
turn-Rides hs k c g r = subst (Rides k) (sym (turn-ridden hs k c g r)) (by_parity (k % 2 == 0) refl)
  where
    by_parity :
        (b : Bool)
        → (k % 2 == 0) ≡ b
        → Rides k (ridden hs k (pos c +ℤ (if b then pos 1 else negsuc 0)))
    by_parity true e = ridden-right hs k c g r (==→eq (k % 2) 0 e)
    by_parity false e = ridden-left hs k c g r (==→ne (k % 2) 0 e)

-- A frog that is on the log of its row and is not moved by a key stays on it, for any number of turns: the
-- game goes on with the frog on the same log, or the frog has been carried out of the map. It never
-- falls into the river.
pub play-Rides :
    (n : ℕ) (hs : List ℕ) (k c : ℕ) (g : Game)
    → IsRiding hs k c g
    → Rides k (play (replicate n none) g)
unfolding play replicate
play-Rides zero hs k c g r = (hs, c, r)
play-Rides (suc n) hs k c g r =
    by_turn (turn none g) (turn-Rides hs k c g r) (λ g' h. play-Rides n h.0 k h.1 g' h.2)
  where
    by_turn :
        (t : Turn)
        → Rides k t
        → ((g' : Game)
            → ((hs' : List ℕ) × (c' : ℕ) × IsRiding hs' k c' g')
            → Rides k (play (replicate n none) g'))
        → Rides k
            (elim t [ quits ↦ quits | ends o ↦ ends o | goes_on g' ↦ play (replicate n none) g' ])
    by_turn quits h rest = h
    by_turn (ends o) h rest = h
    by_turn (goes_on g') h rest = rest g' h
