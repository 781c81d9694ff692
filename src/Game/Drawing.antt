-- ===== src/Game/Drawing.antt =====
-- source.c: the map that `update_map` draws.
use cuhksz_operating_system.Prelude.{
  ℕ, zero, suc, ◌+◌, ◌%◌, ◌<◌, Bool, true, false, ◌&&◌, ◌||◌, Option, none, some, List, [], ◌∷◌,
  ◌==◌, ◌≡◌, refl, sym, ap, ◌∙◌, arith, ltb, length, lt→ltb, if◌then◌else◌,
}
use cuhksz_operating_system.Prelude.Int.{pos}
use cuhksz_operating_system.Game.{
  rows, columns, log_length, Map, borders, draw_log, draw_logs, ◌>>=◌,
}
use cuhksz_operating_system.Game.Fleet.{fleet}

-- The first `n` characters of a log, round the row.
unfoldable pub covers : ℕ → ℕ → ℕ → Bool
covers h zero c = false
covers h (suc j) c = c == (h + j) % columns || covers h j c

unfoldable pub drawn : ℕ → List ℕ → ℕ → ℕ → Bool
drawn i [] r c = false
drawn i (h ∷ hs) r c = r == i + 1 && covers h log_length c || drawn (suc i) hs r c

-- The map is drawn, and the cells are as before or have `=`.
abbrev pub Shows : (ℕ → ℕ → Bool) → Map → Option Map → Type 0
Shows p m none = ⊥
Shows p m (some m') = (r c : ℕ) → m' r c ≡ (if p r c then b'=' else m r c)

Shows-bind :
    (p q s : ℕ → ℕ → Bool) (m : Map) (o : Option Map) (f : Map → Option Map)
    → Shows p m o
    → ((m' : Map) → Shows q m' (f m'))
    → ((r c : ℕ) → s r c ≡ (q r c || p r c))
    → Shows s m (o >>= f)
Shows-bind p q s m none f h k e = h
Shows-bind p q s m (some m₁) f h k e = both (f m₁) (k m₁)
  where
    merge :
        (a b : Bool) (x : ℕ)
        → (if b then b'=' else if a then b'=' else x) ≡ (if b || a then b'=' else x)
    merge a true x = refl
    merge a false x = refl

    both : (o : Option Map) → Shows q m₁ o → Shows s m o
    both none g = g
    both (some m₂) g = λ r c.
        g r c
        ∙ ap (λ x. if q r c then b'=' else x) (h r c)
        ∙ merge (p r c) (q r c) (m r c)
        ∙ ap (λ b. if b then b'=' else m r c) (sym (e r c))

draw_log-Shows :
    (r h n : ℕ) (m : Map)
    → r < rows
    → Shows (λ r' c. r' == r && covers h n c) m (draw_log r (pos h) n m)
unfolding draw_log covers
draw_log-Shows r h zero m low = λ r' c. ap (λ b. if b then b'=' else m r' c) (none_here (r' == r))
  where
    none_here : (b : Bool) → false ≡ (b && false)
    none_here true = refl
    none_here false = refl
draw_log-Shows r h (suc j) m low =
    Shows-bind (λ r' c. r' == r && covers h j c) (λ r' c. r' == r && c == (h + j) % columns) _ m
      (draw_log r (pos h) j m) _ (draw_log-Shows r h j m low)
      (λ m'.
        rw (lt→ltb r rows low)
          (rw (lt→ltb ((h + j) % columns) columns (omega arith)) (λ r' c. refl)))
      (λ r' c. spread (r' == r) (c == (h + j) % columns) (covers h j c))
  where
    spread : (a b d : Bool) → (a && (b || d)) ≡ (a && b || a && d)
    spread true b d = refl
    spread false b d = refl

pub draw_logs-Shows :
    (i : ℕ) (hs : List ℕ) (m : Map)
    → i + length hs < rows
    → Shows (drawn i hs) m (draw_logs i (fleet i hs) m)
unfolding draw_logs fleet drawn
draw_logs-Shows i [] m low = λ r c. refl
draw_logs-Shows i (h ∷ hs) m low =
    Shows-bind (λ r c. r == i + 1 && covers h log_length c) (drawn (suc i) hs) _ m
      (draw_log (i + 1) (pos h) log_length m) _
      (draw_log-Shows (i + 1) h log_length m (omega (arith, low)))
      (λ m'. draw_logs-Shows (suc i) hs m' (omega (arith, low)))
      (λ r c. swapped (r == i + 1 && covers h log_length c) (drawn (suc i) hs r c))
  where
    swapped : (a b : Bool) → (a || b) ≡ (b || a)
    swapped true true = refl
    swapped true false = refl
    swapped false true = refl
    swapped false false = refl

-- The cells that the loop over the borders writes.
abbrev pub is_border : ℕ → ℕ → ℕ → Bool
is_border n r c = (r == 0 || r == 10) && ltb c n

pub borders-cell :
    (n : ℕ) (m : Map) (r c : ℕ) → borders n m r c ≡ (if is_border n r c then b'|' else m r c)
unfolding borders
borders-cell zero m r c =
    ap (λ b. if b then b'|' else m r c) (none_here (r == 0 || r == 10) (ltb c 0) (ground (arith)))
  where
    none_here : (b d : Bool) → d ≡ false → false ≡ (b && d)
    none_here true d h = sym h
    none_here false d h = refl
borders-cell (suc n) m r c =
    ap (λ x. if r == 10 && c == n then b'|' else if r == 0 && c == n then b'|' else x)
      (borders-cell n m r c)
    ∙ merge (r == 10) (r == 0) (c == n) (ltb c n) (m r c)
    ∙ ap (λ b. if (r == 0 || r == 10) && b then b'|' else m r c) (one_more (c == n) refl)
  where
    merge :
        (a b d e : Bool) (x : ℕ)
        → (if a && d then b'|' else if b && d then b'|' else if (b || a) && e then b'|' else x)
          ≡ (if (b || a) && (d || e) then b'|' else x)
    merge true true true e x = refl
    merge true true false e x = refl
    merge true false true e x = refl
    merge true false false e x = refl
    merge false true true e x = refl
    merge false true false e x = refl
    merge false false d e x = refl

    one_more : (b : Bool) → (c == n) ≡ b → (b || ltb c n) ≡ ltb c (suc n)
    one_more true h = ground (arith, h)
    one_more false h = ground (arith, h)
