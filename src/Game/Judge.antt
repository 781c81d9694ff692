-- ===== src/Game/Judge.antt =====
-- source.c: what `update_map` finds about the frog.
use cuhksz_operating_system.Prelude.{
  ℕ, zero, suc, ◌<◌, Bool, true, false, not, ◌&&◌, ◌||◌, Option, none, some, List, ◌==◌, ◌≡◌, inl,
  inr, refl, ap, ◌∙◌, arith, Bool-cases, ltb, leb, if◌then◌else◌, length, lt→ltb, ltb→lt, ltb→le,
  ==→eq, ==→ne, eq→==, ne→==,
}
use cuhksz_operating_system.Prelude.Int.{ℤ, pos, negsuc}
use cuhksz_operating_system.Game.{
  rows, columns, number_of_logs, Frog, Map, initialize_map, set_cell, borders, draw_logs, Outcome,
  fallen_out, fallen_in, won, playing, outside_array, judge_at, judge, update_map,
}
use cuhksz_operating_system.Game.Fleet.{fleet, AllBelow}
use cuhksz_operating_system.Game.Drawing.{drawn, Shows, draw_logs-Shows, borders-cell}
use cuhksz_operating_system.Game.Cells.{carried, IsDrawn, bank, river}

-- What the game says of a frog: a description without a map.
pub data Fate : Type 0 where
  out : Fate
  drowned : Fate
  across : Fate
  alive : Fate

-- The first row is the far bank, the last row is the near one, and log `k` is on row `k + 1`.
unfoldable pub fate_on : List ℕ → ℕ → ℕ → Fate
fate_on hs c zero = across
fate_on hs c (suc k) =
    if k == number_of_logs then alive else if carried hs k c then alive else drowned

unfoldable pub fate : List ℕ → ℤ → ℤ → Fate
fate hs (pos c) (pos r) = if ltb c columns && ltb r rows then fate_on hs c r else out
fate hs (pos c) (negsuc r) = out
fate hs (negsuc c) r = out

abbrev pub fate_of : Outcome → Option Fate
fate_of fallen_out = some out
fate_of fallen_in = some drowned
fate_of won = some across
fate_of (playing m) = some alive
fate_of outside_array = none

judge_at-fate_on :
    (hs : List ℕ) (m : Map) (c r : ℕ)
    → AllBelow hs
    → IsDrawn hs m
    → c < columns
    → r < rows
    → fate_of (judge_at (pos c) (pos r) m) ≡ some (fate_on hs c r)
unfolding fate_on
judge_at-fate_on hs m c zero lows cells low low' =
    rw (lt→ltb c columns low) (rw (bank hs m 0 c cells low refl) refl)
judge_at-fate_on hs m c (suc k) lows cells low low' =
    let row : (suc k == 0) ≡ false = ne→== (suc k) 0 (λ e. omega (arith, e)) in
    elim (Bool-cases (k == number_of_logs)) [
      | inl e ↦
          let near : (suc k == 0 || suc k == 10) ≡ true =
            rw row (eq→== (suc k) 10 (omega (arith, ==→eq k number_of_logs e))) in
          rw (lt→ltb c columns low) (
            rw (lt→ltb (suc k) rows low')
              (rw (bank hs m (suc k) c cells low near) (rw row (rw e refl))))
      | inr e ↦
          let low₁ : k < number_of_logs = omega (arith, low', ==→ne k number_of_logs e) in
          rw (lt→ltb c columns low) (
            rw (lt→ltb (suc k) rows low')
              (rw (river hs m k c lows cells low low₁) (rw row (rw e (by_log (carried hs k c))))))
    ]
  where
    by_log :
        (b : Bool)
        → fate_of (if not b then fallen_in else playing (set_cell (suc k) c b'0' m))
          ≡ some (if b then alive else drowned)
    by_log true = refl
    by_log false = refl

leb_lem : (n a : ℕ) → leb n a ≡ not (ltb a n)
leb_lem n a = elim (Bool-cases (ltb a n)) [
  | inl e ↦ rw e (ground (arith, ltb→lt a n e))
  | inr e ↦ rw e (ground (arith, ltb→le a n e))
]

outside : (a b : Bool) (o : Outcome) → fate_of (if a || b || true then fallen_out else o) ≡ some out
outside true b o = refl
outside false true o = refl
outside false false o = refl

judge-fate :
    (hs : List ℕ) (m : Map) (x y x' y' : ℤ)
    → AllBelow hs
    → IsDrawn hs m
    → fate_of (judge (record { x = x; y = y; x_speed = x'; y_speed = y' }) m) ≡ some (fate hs x y)
unfolding fate
judge-fate hs m (pos c) (pos r) x' y' lows cells =
    rw (leb_lem columns c, leb_lem rows r) (by_tests (ltb c columns) (ltb r rows) refl refl)
  where
    by_tests :
        (a b : Bool)
        → ltb c columns ≡ a
        → ltb r rows ≡ b
        → fate_of
            (if not a || false || not b || false then fallen_out else judge_at (pos c) (pos r) m)
          ≡ some (if a && b then fate_on hs c r else out)
    by_tests true true e e' =
        judge_at-fate_on hs m c r lows cells (ltb→lt c columns e) (ltb→lt r rows e')
    by_tests true false e e' = refl
    by_tests false b e e' = refl
judge-fate hs m (pos c) (negsuc r) x' y' lows cells =
    outside (leb columns c || false) false (judge_at (pos c) (negsuc r) m)
judge-fate hs m (negsuc c) (pos r) x' y' lows cells = refl
judge-fate hs m (negsuc c) (negsuc r) x' y' lows cells = refl

pub update_map-fate :
    (hs : List ℕ) (f : Frog)
    → AllBelow hs
    → length hs ≡ number_of_logs
    → fate_of (update_map initialize_map (fleet 0 hs) f) ≡ some (fate hs f.x f.y)
unfolding update_map IsDrawn
update_map-fate hs f lows size =
    by_map (draw_logs 0 (fleet 0 hs) banks) (draw_logs-Shows 0 hs banks (omega (arith, size)))
  where
    banks : Map
    banks = borders columns initialize_map

    by_map :
        (o : Option Map)
        → Shows (drawn 0 hs) banks o
        → fate_of (elim o [ none ↦ outside_array | some m' ↦ judge f m' ]) ≡ some (fate hs f.x f.y)
    by_map none h = absurd h
    by_map (some m') h = judge-fate hs m' f.x f.y f.x_speed f.y_speed lows (λ r c.
        h r c
        ∙ ap (λ z. if drawn 0 hs r c then b'=' else z) (borders-cell columns initialize_map r c))
