-- ===== src/Game/Tests.antt =====
-- A game of a few turns.
use cuhksz_operating_system.Prelude.{ℕ, refl, none, List, [], ◌∷◌, replicate, arith}
use cuhksz_operating_system.Prelude.Int.{pos}
use cuhksz_operating_system.Game.{Game, play}
use cuhksz_operating_system.Game.Fleet.{fleet, AllBelow}
use cuhksz_operating_system.Game.Cells.{carried}
use cuhksz_operating_system.Game.Ride.{still, IsRiding, Rides, play-Rides}

abbrev sample : List ℕ
sample = 0 ∷ 49 ∷ 10 ∷ 20 ∷ 30 ∷ 40 ∷ 5 ∷ 15 ∷ 25 ∷ []

sample-AllBelow : AllBelow sample
sample-AllBelow = (
  omega arith,
  (
    omega arith,
    (
      omega arith,
      (omega arith, (omega arith, (omega arith, (omega arith, (omega arith, (omega arith, tt)))))),
    ),
  ),
)

-- Log 1 is on the columns 49 and 0 to 13; the frog is on row 2, in column 3.
abbrev riding_game : Game
riding_game = record { logs = fleet 0 sample; frog = still 1 (pos 3) }

riding_game-IsRiding : IsRiding sample 1 3 riding_game
unfolding carried
riding_game-IsRiding = record {
  logs = record { below = sample-AllBelow; size = refl; view = refl };
  row = omega arith;
  column = omega arith;
  frog = refl;
  on = refl;
}

play-Rides_example : Rides 1 (play (replicate 5 none) riding_game)
play-Rides_example = play-Rides 5 sample 1 3 riding_game riding_game-IsRiding
