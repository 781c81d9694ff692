-- ===== src/Game/Whole.antt =====
-- source.c: whole games.
use cuhksz_operating_system.Prelude.{ℕ, Option, none, some, List, ◌≡◌, refl, ap, ◌∙◌, length}
use cuhksz_operating_system.Game.{
  number_of_logs, Frog, initialize_map, handle_logs_movement, update_map, handle_keyboard_hit,
  adjust_frog_speed, update_frog_position, fallen_out, fallen_in, won, playing, outside_array, Game,
  Turn, quits, ends, goes_on, verdict, turn,
}
use cuhksz_operating_system.Game.Fleet.{
  fleet, shift, AllBelow, shift-AllBelow, length-shift, handle_logs_movement-fleet,
}

-- The logs of a game have the headings `hs`, all of them columns.
pub record HasLogs (hs : List ℕ) (g : Game) : Type 0 where
  pub below : AllBelow hs
  pub size : length hs ≡ number_of_logs
  pub view : g.logs ≡ fleet 0 hs

-- The game after a turn, for the frog as it has moved.
abbrev pub moved_game : List ℕ → Frog → Game
moved_game hs f = record { logs = fleet 0 (shift 0 hs); frog = f }

pub moved_game-HasLogs :
    (hs : List ℕ) (f : Frog) → length hs ≡ number_of_logs → HasLogs (shift 0 hs) (moved_game hs f)
moved_game-HasLogs hs f size = record {
  below = shift-AllBelow 0 hs;
  size = length-shift 0 hs ∙ size;
  view = refl;
}

-- A turn, with the logs as headings.
unfoldable pub turn_for : (hs : List ℕ) (o : Option Frog) → Turn
turn_for hs none = quits
turn_for hs (some f) =
    let f' = update_frog_position (adjust_frog_speed f) in
    verdict (moved_game hs f') (update_map initialize_map (fleet 0 (shift 0 hs)) f')

pub turn-turn_for :
    (key : Option ℕ) (g : Game) (hs : List ℕ)
    → HasLogs hs g
    → turn key g ≡ turn_for hs (handle_keyboard_hit key g.frog)
unfolding turn turn_for
turn-turn_for key g hs v = by_key (handle_keyboard_hit key g.frog)
  where
    moved_logs : handle_logs_movement g.logs ≡ fleet 0 (shift 0 hs)
    moved_logs = ap handle_logs_movement v.view ∙ handle_logs_movement-fleet 0 hs v.below

    by_key :
        (o : Option Frog)
        → (elim o [
          | none ↦ quits
          | some f ↦
              let frog' = update_frog_position (adjust_frog_speed f) in
              let logs' = handle_logs_movement g.logs in
              verdict
                (record { logs = logs'; frog = frog' })
                (update_map initialize_map logs' frog')
        ])
          ≡ turn_for hs o
    by_key none = refl
    by_key (some f) =
        let f' = update_frog_position (adjust_frog_speed f) in
        ap (λ ls. verdict (record { logs = ls; frog = f' }) (update_map initialize_map ls f'))
          moved_logs

-- The game goes on with its logs, or has ended, but not with a write outside of the map.
abbrev pub Inside : Turn → Type 0
Inside quits = Unit
Inside (ends fallen_out) = Unit
Inside (ends fallen_in) = Unit
Inside (ends won) = Unit
Inside (ends (playing m)) = Unit
Inside (ends outside_array) = ⊥
Inside (goes_on g) = (hs : List ℕ) × HasLogs hs g
