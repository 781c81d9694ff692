-- ===== src/Game.antt =====
-- Assignment2/source/source.c: the frog that crosses a river on logs. In a turn of `main` the thread of
-- the frog and the thread of the logs each run once, in either order, since they share no data, and then
-- `main` draws the map and judges. Integers do not overflow: while a game goes on, every one of
-- them is between -51 and 100. The key that `kbhit` and `getchar` bring, if any, is an argument, and
-- so is what `rand` answers.
pub mod Fleet
pub mod Drawing
pub mod Cells
pub mod Judge
pub mod Whole
pub mod Ride
mod Tests
use cuhksz_operating_system.Prelude.{
  ℕ, zero, suc, ◌+◌, ◌-◌, ◌%◌, Bool, true, false, not, ◌&&◌, ◌||◌, Option, none, some, List, [],
  ◌∷◌, ◌==◌, ltb, if◌then◌else◌,
}
use cuhksz_operating_system.Prelude.Int.{
  ℤ, pos, negsuc, neg, ◌+ℤ◌, ◌*ℤ◌, remainder, at_least, is_negative, is_number,
}

-- ROW, COLUMN, LOG_LENGTH and NUMBER_OF_LOGS; SPEED is 1
abbrev pub rows : ℕ
rows = 11

abbrev pub columns : ℕ
columns = 50

abbrev pub log_length : ℕ
log_length = 15

abbrev pub number_of_logs : ℕ
number_of_logs = 9

pub record Log : Type 0 where
  pub heading_position : ℤ
  pub direction : ℤ
  pub speed : ℤ

pub record Frog : Type 0 where
  pub x : ℤ
  pub y : ℤ
  pub x_speed : ℤ
  pub y_speed : ℤ

-- The boundary conditions for a heading.
unfoldable pub wrap : ℤ → ℤ
wrap h =
    if at_least columns h
    then remainder h columns
    else if is_negative h
    then pos columns +ℤ neg (remainder (neg h) columns)
    else h

abbrev pub move_log : Log → Log
move_log l = record l { heading_position = wrap (l.heading_position +ℤ l.direction *ℤ l.speed) }

unfoldable pub handle_logs_movement : List Log → List Log
handle_logs_movement [] = []
handle_logs_movement (l ∷ ls) = move_log l ∷ handle_logs_movement ls

-- Logs on even places go right.
abbrev pub lane : ℕ → ℤ
lane i = if i % 2 == 0 then pos 1 else negsuc 0

-- The loop of `initialize_game`, from log `i` on.
unfoldable pub initialize_logs : (ℕ → ℕ) → ℕ → ℕ → List Log
initialize_logs rand zero i = []
initialize_logs rand (suc n) i =
    record { heading_position = pos (rand i % columns); direction = lane i; speed = pos 1 }
    ∷ initialize_logs rand n (suc i)

-- The characters of the rows and the columns.
abbrev pub Map : Type 0
Map = ℕ → ℕ → ℕ

abbrev pub initialize_map : Map
initialize_map r c = b' '

abbrev pub set_cell : ℕ → ℕ → ℕ → Map → Map
set_cell r c ch m r' c' = if r' == r && c' == c then ch else m r' c'

-- The first and the last row, up to a column.
unfoldable pub borders : ℕ → Map → Map
borders zero m = m
borders (suc i) m = set_cell (rows - 1) i b'|' (set_cell 0 i b'|' (borders i m))

-- `none` is a write outside of the map.
abbrev pub set_column : ℕ → ℤ → ℕ → Map → Option Map
set_column r (pos c) ch m = if ltb r rows && ltb c columns then some (set_cell r c ch m) else none
set_column r (negsuc c) ch m = none

infixl 5 ◌>>=◌
abbrev pub ◌>>=◌ : {A B : Type 0} → Option A → (A → Option B) → Option B
o >>= f = elim o [ none ↦ none | some a ↦ f a ]

-- The first characters of a log, on its row.
unfoldable pub draw_log : ℕ → ℤ → ℕ → Map → Option Map
draw_log r heading zero m = some m
draw_log r heading (suc j) m = do
  m' ← draw_log r heading j m
  set_column r (remainder (heading +ℤ pos j) columns) b'=' m'

-- The logs from number `i` on, one row below it each.
unfoldable pub draw_logs : ℕ → List Log → Map → Option Map
draw_logs i [] m = some m
draw_logs i (l ∷ ls) m = do
  m' ← draw_log (i + 1) l.heading_position log_length m
  draw_logs (suc i) ls m'

-- How `update_map` ends; `outside_array` is a write or a read outside of the map.
pub data Outcome : Type 0 where
  fallen_out : Outcome
  fallen_in : Outcome
  won : Outcome
  playing : Map → Outcome
  outside_array : Outcome

abbrev pub judge_at : ℤ → ℤ → Map → Outcome
judge_at (pos x) (pos y) m =
    if not (ltb x columns && ltb y rows)
    then outside_array
    else if m y x == b' '
    then fallen_in
    else if y == 0
    then won
    else playing (set_cell y x b'0' m)
judge_at (pos x) (negsuc y) m = outside_array
judge_at (negsuc x) y m = outside_array

abbrev pub judge : Frog → Map → Outcome
judge f m =
    if at_least columns f.x || is_negative f.x || at_least rows f.y || is_negative f.y
    then fallen_out
    else judge_at f.x f.y m

unfoldable pub update_map : Map → List Log → Frog → Outcome
update_map m logs f = elim (draw_logs 0 logs (borders columns m)) [
  | none ↦ outside_array
  | some m' ↦ judge f m'
]

-- `none` quits the game.
unfoldable pub handle_keyboard_hit : Option ℕ → Frog → Option Frog
handle_keyboard_hit none f = some (record f { x_speed = pos 0; y_speed = pos 0 })
handle_keyboard_hit (some ch) f =
    let f' = record f { x_speed = pos 0; y_speed = pos 0 } in
    if ch == b'w'
    then some (record f' { y_speed = negsuc 0 })
    else if ch == b's'
    then some (record f' { y_speed = pos 1 })
    else if ch == b'a'
    then some (record f' { x_speed = negsuc 0 })
    else if ch == b'd'
    then some (record f' { x_speed = pos 1 })
    else if ch == b'q'
    then none
    else some f'

unfoldable pub adjust_frog_speed : Frog → Frog
adjust_frog_speed f =
    if is_number 0 f.y || is_number (rows - 1) f.y
    then f
    else if is_number 0 (remainder f.y 2)
    then record f { x_speed = f.x_speed +ℤ negsuc 0 }
    else record f { x_speed = f.x_speed +ℤ pos 1 }

abbrev pub update_frog_position : Frog → Frog
update_frog_position f = record {
  x = f.x +ℤ f.x_speed;
  y = f.y +ℤ f.y_speed;
  x_speed = pos 0;
  y_speed = pos 0;
}

pub record Game : Type 0 where
  pub logs : List Log
  pub frog : Frog

-- The start of `main`.
abbrev pub new_game : (ℕ → ℕ) → Game
new_game rand = record {
  logs = initialize_logs rand number_of_logs 0;
  frog = record { x = pos 25; y = pos 10; x_speed = pos 0; y_speed = pos 0 };
}

-- How a turn ends: with the game that goes on, or with the end of the program.
pub data Turn : Type 0 where
  quits : Turn
  ends : Outcome → Turn
  goes_on : Game → Turn

abbrev pub verdict : Game → Outcome → Turn
verdict g (playing m) = goes_on g
verdict g fallen_out = ends fallen_out
verdict g fallen_in = ends fallen_in
verdict g won = ends won
verdict g outside_array = ends outside_array

-- A round of the loop of `main`, with what the two threads do in it.
unfoldable pub turn : Option ℕ → Game → Turn
turn key g = elim (handle_keyboard_hit key g.frog) [
  | none ↦ quits
  | some f ↦
      let frog' = update_frog_position (adjust_frog_speed f) in
      let logs' = handle_logs_movement g.logs in
      verdict (record { logs = logs'; frog = frog' }) (update_map initialize_map logs' frog')
]

-- The turns for a list of keys, up to the end of the program.
unfoldable pub play : List (Option ℕ) → Game → Turn
play [] g = goes_on g
play (key ∷ keys) g = elim (turn key g) [
  | quits ↦ quits
  | ends o ↦ ends o
  | goes_on g' ↦ play keys g'
]
