-- ===== src/Game/Fleet.antt =====
-- source.c: the logs go round their rows.
use cuhksz_operating_system.Prelude.{
  ℕ, zero, suc, ◌+◌, ◌-◌, ◌%◌, ◌<◌, List, [], ◌∷◌, ◌==◌, ◌≡◌, inl, inr, refl, ap, ◌∙◌, arith,
  Bool-cases, leb, length, if◌then◌else◌,
}
use cuhksz_operating_system.Prelude.Int.{ℤ, pos, negsuc, difference, difference-le, ◌+ℤ◌}
use cuhksz_operating_system.Game.{
  columns, Log, wrap, move_log, handle_logs_movement, lane, initialize_logs,
}

-- The logs from number `i` on whose headings are `hs`: the abstract view.
abbrev pub log_at : ℕ → ℕ → Log
log_at i h = record { heading_position = pos h; direction = lane i; speed = pos 1 }

unfoldable pub fleet : ℕ → List ℕ → List Log
fleet i [] = []
fleet i (h ∷ hs) = log_at i h ∷ fleet (suc i) hs

-- A place on the ring of the columns, one to the right or to the left.
unfoldable pub next : ℕ → ℕ → ℕ
next i h = if i % 2 == 0 then (h + 1) % columns else (h + 49) % columns

unfoldable pub shift : ℕ → List ℕ → List ℕ
shift i [] = []
shift i (h ∷ hs) = next i h ∷ shift (suc i) hs

abbrev pub AllBelow : List ℕ → Type 0
AllBelow [] = Unit
AllBelow (h ∷ hs) = (h < columns) × AllBelow hs

wrap-pos : (a : ℕ) → wrap (pos a) ≡ pos (a % columns)
unfolding wrap
wrap-pos a = elim (Bool-cases (leb columns a)) [
  | inl e ↦ rw (e, wrap) refl
  | inr e ↦ let small : a ≡ a % columns = ground (arith, e) in rw (e, wrap) (ap pos small)
]

wrap-right : (h : ℕ) → wrap (pos h +ℤ pos 1) ≡ pos ((h + 1) % columns)
wrap-right h = wrap-pos (h + 1)

wrap-left : (h : ℕ) → h < columns → wrap (pos h +ℤ negsuc 0) ≡ pos ((h + 49) % columns)
unfolding wrap difference
wrap-left zero low = refl
wrap-left (suc h) low =
    let round : (suc h - 1) % columns ≡ (suc h + 49) % columns = omega (arith, low) in
    ap wrap (difference-le (suc h) 1 (omega arith)) ∙ wrap-pos (suc h - 1) ∙ ap pos round

move_log-next : (i h : ℕ) → h < columns → move_log (log_at i h) ≡ log_at i (next i h)
unfolding next
move_log-next i h low = elim (Bool-cases (i % 2 == 0)) [
  | inl e ↦ rw (e, next) (ap (going (pos 1)) (wrap-right h))
  | inr e ↦ rw (e, next) (ap (going (negsuc 0)) (wrap-left h low))
]
  where
    going : ℤ → ℤ → Log
    going d x = record { heading_position = x; direction = d; speed = pos 1 }

next-below : (i h : ℕ) → next i h < columns
unfolding next
next-below i h = elim (Bool-cases (i % 2 == 0)) [
  | inl e ↦ rw (e, next) (omega arith)
  | inr e ↦ rw (e, next) (omega arith)
]

pub shift-AllBelow : (i : ℕ) (hs : List ℕ) → AllBelow (shift i hs)
unfolding shift
shift-AllBelow i [] = tt
shift-AllBelow i (h ∷ hs) = (next-below i h, shift-AllBelow (suc i) hs)

pub length-shift : (i : ℕ) (hs : List ℕ) → length (shift i hs) ≡ length hs
unfolding shift
length-shift i [] = refl
length-shift i (h ∷ hs) = ap suc (length-shift (suc i) hs)

-- Logs whose headings are columns of the map move as on a ring: those on even places one to the right,
-- those on odd places one to the left; so the headings stay columns of the map.
pub handle_logs_movement-fleet :
    (i : ℕ) (hs : List ℕ) → AllBelow hs → handle_logs_movement (fleet i hs) ≡ fleet i (shift i hs)
unfolding handle_logs_movement fleet shift
handle_logs_movement-fleet i [] low = refl
handle_logs_movement-fleet i (h ∷ hs) (low, lows) =
    ap (λ l. l ∷ handle_logs_movement (fleet (suc i) hs)) (move_log-next i h low)
    ∙ ap (λ ls. log_at i (next i h) ∷ ls) (handle_logs_movement-fleet (suc i) hs lows)

unfoldable pub headings : (ℕ → ℕ) → ℕ → ℕ → List ℕ
headings rand zero i = []
headings rand (suc n) i = rand i % columns ∷ headings rand n (suc i)

pub initialize_logs-fleet :
    (rand : ℕ → ℕ) (n i : ℕ) → initialize_logs rand n i ≡ fleet i (headings rand n i)
unfolding initialize_logs fleet headings
initialize_logs-fleet rand zero i = refl
initialize_logs-fleet rand (suc n) i =
    ap (λ ls. log_at i (rand i % columns) ∷ ls) (initialize_logs-fleet rand n (suc i))

pub headings-AllBelow : (rand : ℕ → ℕ) (n i : ℕ) → AllBelow (headings rand n i)
unfolding headings
headings-AllBelow rand zero i = tt
headings-AllBelow rand (suc n) i = (omega arith, headings-AllBelow rand n (suc i))
