-- ===== src/Box/Balance/Totals.antt =====
-- What the entries of a box score (cw/box.py) add up to, and how a change of one entry changes it.
use mlb_baseball.Prelude.{
  ℕ, zero, suc, ◌+◌, ◌≡◌, refl, true, List, [], ◌∷◌, get_or, get_elem?, arith, if◌then◌else◌,
  Bool-cases, inl, inr,
}
use mlb_baseball.Prelude.Sides.{Team, Sides, side, put_side}
use mlb_baseball.State.Update.{is_some}
use mlb_baseball.Box.Record.{Stat, same_stat, Counts, add, BoxPlayer, BoxPitcher, Boxscore}
use mlb_baseball.Box.Find.{
  Place, PitcherPlace, modify, player_at, pitcher_at, change_player, change_pitcher,
}

abbrev pub total : {A : Type 0} → (A → ℕ) → List A → ℕ
total w [] = 0
total w (x ∷ l) = w x + total w l

abbrev pub sides_total : {A : Type 0} → (List A → ℕ) → Sides (List A) → ℕ
sides_total u xs = u xs.away_side + u xs.home_side

-- A counter over all the players of a box score
unfoldable pub batting_total : Stat → Boxscore → ℕ
batting_total q box = sides_total (total (total (λ p. p.batting q))) box.slots

-- A counter over all its pitchers
unfoldable pub pitching_total : Stat → Boxscore → ℕ
pitching_total q box = sides_total (total (λ p. p.pitching q)) box.pitchers

-- What `counts.s += n` adds to the counter `q`
unfoldable pub gain : Stat → ℕ → Stat → ℕ
gain s n q = if same_stat s q then n else 0

pub add-gain : (s : Stat) (n : ℕ) (c : Counts) (q : Stat) → add s n c q ≡ c q + gain s n q
unfolding add gain
add-gain s n c q = elim (Bool-cases (same_stat s q)) [
  | inl e ↦ rw e refl
  | inr e ↦ rw e (omega arith)
]

module _ {A : Type 0} (w : A → ℕ) (f : A → A) (k : ℕ) (grows : (x : A) → w (f x) ≡ w x + k) where
  pub total-modify :
      (l : List A) (i : ℕ) → is_some (get_elem? l i) ≡ true → total w (modify i f l) ≡ total w l + k
  total-modify [] i h = cc
  total-modify (x ∷ l) zero h = omega (arith, grows x)
  total-modify (x ∷ l) (suc i) h = omega (arith, total-modify l i h)

  pub nested-modify :
      (ls : List (List A)) (i d : ℕ)
      → is_some (get_elem? (get_or ls i []) d) ≡ true
      → total (total w) (modify i (modify d f) ls) ≡ total (total w) ls + k
  nested-modify [] i d h = cc
  nested-modify (l ∷ ls) zero d h = omega (arith, total-modify l d h)
  nested-modify (l ∷ ls) (suc i) d h = omega (arith, nested-modify ls i d h)

module _ {A : Type 0} (w : A → ℕ) (f : A → A) (keeps : (x : A) → w (f x) ≡ w x) where
  pub total-modify_same : (l : List A) (i : ℕ) → total w (modify i f l) ≡ total w l
  total-modify_same [] i = refl
  total-modify_same (x ∷ l) zero = omega (arith, keeps x)
  total-modify_same (x ∷ l) (suc i) = omega (arith, total-modify_same l i)

  pub nested-modify_same :
      (ls : List (List A)) (i d : ℕ)
      → total (total w) (modify i (modify d f) ls) ≡ total (total w) ls
  nested-modify_same [] i d = refl
  nested-modify_same (l ∷ ls) zero d = omega (arith, total-modify_same l d)
  nested-modify_same (l ∷ ls) (suc i) d = omega (arith, nested-modify_same ls i d)

pub sides_total-put_side :
    {A : Type 0} (u : List A → ℕ) (xs : Sides (List A)) (t : Team) (c : List A) (k : ℕ)
    → u c ≡ u (side xs t) + k
    → sides_total u (put_side xs t c) ≡ sides_total u xs + k
sides_total-put_side u xs Team.visitors c k h = omega (arith, h)
sides_total-put_side u xs Team.home c k h = omega (arith, h)

pub sides_total-put_same :
    {A : Type 0} (u : List A → ℕ) (xs : Sides (List A)) (t : Team) (c : List A)
    → u c ≡ u (side xs t)
    → sides_total u (put_side xs t c) ≡ sides_total u xs
sides_total-put_same u xs Team.visitors c h = omega (arith, h)
sides_total-put_same u xs Team.home c h = omega (arith, h)

-- A change of a player who is there
pub batting_total-change_player :
    (q : Stat) (w : Place) (f : BoxPlayer → BoxPlayer) (k : ℕ) (box : Boxscore)
    → ((p : BoxPlayer) → (f p).batting q ≡ p.batting q + k)
    → is_some (player_at w box) ≡ true
    → batting_total q (change_player w f box) ≡ batting_total q box + k
unfolding batting_total change_player
batting_total-change_player q w f k box g h =
    sides_total-put_side (total (total (λ p. p.batting q))) box.slots w.team _ k
      (nested-modify (λ p. p.batting q) f k g (side box.slots w.team) w.slot w.depth h)

pub batting_total-change_same :
    (q : Stat) (w : Place) (f : BoxPlayer → BoxPlayer) (box : Boxscore)
    → ((p : BoxPlayer) → (f p).batting q ≡ p.batting q)
    → batting_total q (change_player w f box) ≡ batting_total q box
unfolding batting_total change_player
batting_total-change_same q w f box g =
    sides_total-put_same (total (total (λ p. p.batting q))) box.slots w.team _
      (nested-modify_same (λ p. p.batting q) f g (side box.slots w.team) w.slot w.depth)

pub pitching_total-change_pitcher :
    (q : Stat) (w : PitcherPlace) (f : BoxPitcher → BoxPitcher) (k : ℕ) (box : Boxscore)
    → ((p : BoxPitcher) → (f p).pitching q ≡ p.pitching q + k)
    → is_some (pitcher_at w box) ≡ true
    → pitching_total q (change_pitcher w f box) ≡ pitching_total q box + k
unfolding pitching_total change_pitcher
pitching_total-change_pitcher q w f k box g h =
    sides_total-put_side (total (λ p. p.pitching q)) box.pitchers w.team _ k
      (total-modify (λ p. p.pitching q) f k g (side box.pitchers w.team) w.depth h)

pub pitching_total-change_same :
    (q : Stat) (w : PitcherPlace) (f : BoxPitcher → BoxPitcher) (box : Boxscore)
    → ((p : BoxPitcher) → (f p).pitching q ≡ p.pitching q)
    → pitching_total q (change_pitcher w f box) ≡ pitching_total q box
unfolding pitching_total change_pitcher
pitching_total-change_same q w f box g =
    sides_total-put_same (total (λ p. p.pitching q)) box.pitchers w.team _
      (total-modify_same (λ p. p.pitching q) f g (side box.pitchers w.team) w.depth)
