-- ===== src/Box/Balance/Changes.antt =====
-- How a step changes the totals of a box score (cw/box.py), for the counters that batters and
-- pitchers share and for those whose events are listed.
use mlb_baseball.Prelude.{
  ℕ, zero, suc, ◌+◌, ◌≡◌, refl, ap, ◌∙◌, Bool, true, false, ◌&&◌, List, [], ◌∷◌, ◌++◌, length,
  length-append, get_elem?, get_or, ltb, leb, ◌==◌, arith, if◌then◌else◌,
}
use mlb_baseball.Prelude.Sides.{Team, Sides, side}
use mlb_baseball.State.Update.{is_some}
use mlb_baseball.Box.Record.{
  Stat, stat_code, same_stat, BoxPlayer, BoxPitcher, BoxEvent, Boxscore, add_event,
}
use mlb_baseball.Box.Find.{
  Place, PitcherPlace, modify, player_at, pitcher_at, change_player, change_pitcher,
}
use mlb_baseball.Box.Balance.Totals.{
  total, sides_total, batting_total, pitching_total, gain, batting_total-change_player,
  batting_total-change_same, pitching_total-change_pitcher, pitching_total-change_same,
}
use mlb_baseball.Box.Balance.Present.{
  put_side-test, player_at-change_player, pitcher_at-change_pitcher,
}

abbrev pub shared_code : ℕ → Bool
shared_code n = ltb n 18

abbrev pub listed_code : ℕ → Bool
listed_code n = leb 11 n && ltb n 20

abbrev pub counted_code : ℕ → Bool
counted_code n = ltb n 20

-- A counter that batters and pitchers share
unfoldable pub is_shared : Stat → Bool
unfolding stat_code
is_shared q = shared_code (stat_code q)

-- A counter of batting whose events are listed under its name
unfoldable pub is_listed : Stat → Bool
unfolding stat_code
is_listed q = listed_code (stat_code q)

unfoldable pub is_counted : Stat → Bool
unfolding stat_code
is_counted q = counted_code (stat_code q)

pub shared-IsCounted : (q : Stat) → is_shared q ≡ true → is_counted q ≡ true
unfolding is_shared is_counted
shared-IsCounted q h = ground arith

pub listed-IsCounted : (q : Stat) → is_listed q ≡ true → is_counted q ≡ true
unfolding is_listed is_counted
listed-IsCounted q h = ground arith

abbrev pub Gains : Type 0
Gains = Stat → ℕ

abbrev pub nothing : Gains
nothing q = 0

-- Box scores with the same places, where the totals of the second are those of the first and more
pub record IsChanged (b p e : Gains) (box box' : Boxscore) : Type 0 where
  pub batting : (q : Stat) → is_counted q ≡ true → batting_total q box' ≡ batting_total q box + b q
  pub pitching :
      (q : Stat) → is_shared q ≡ true → pitching_total q box' ≡ pitching_total q box + p q
  pub notable :
      (q : Stat) → is_listed q ≡ true → length (box'.notable q) ≡ length (box.notable q) + e q
  pub line : box'.linescore ≡ box.linescore
  pub rows : (t : Team) → length (side box'.slots t) ≡ length (side box.slots t)
  pub players : (w : Place) → is_some (player_at w box') ≡ is_some (player_at w box)
  pub pitchers : (w : PitcherPlace) → is_some (pitcher_at w box') ≡ is_some (pitcher_at w box)

pub both_changes :
    {b p e b' p' e' : Gains} {box mid box' : Boxscore}
    → IsChanged b p e box mid
    → IsChanged b' p' e' mid box'
    → IsChanged (λ q. b q + b' q) (λ q. p q + p' q) (λ q. e q + e' q) box box'
both_changes c d = record {
  batting = λ q h. omega (arith, c.batting q h, d.batting q h);
  pitching = λ q h. omega (arith, c.pitching q h, d.pitching q h);
  notable = λ q h. omega (arith, c.notable q h, d.notable q h);
  line = d.line ∙ c.line;
  rows = λ t. d.rows t ∙ c.rows t;
  players = λ w. d.players w ∙ c.players w;
  pitchers = λ w. d.pitchers w ∙ c.pitchers w;
}

length-modify : {A : Type 0} (i : ℕ) (f : A → A) (l : List A) → length (modify i f l) ≡ length l
length-modify i f [] = refl
length-modify zero f (x ∷ l) = refl
length-modify (suc i) f (x ∷ l) = ap suc (length-modify i f l)

change_player-rows :
    (w : Place) (f : BoxPlayer → BoxPlayer) (box : Boxscore) (t : Team)
    → length (side (change_player w f box).slots t) ≡ length (side box.slots t)
unfolding change_player
change_player-rows w f box t =
    put_side-test length box.slots w.team t _
      (length-modify w.slot (modify w.depth f) (side box.slots w.team))

no_gain : (a b : ℕ) → a ≡ b → a ≡ b + 0
no_gain a b h = omega (arith, h)

-- A change of a player by what his counters gain, where he is there
pub player-IsChanged :
    (w : Place) (f : BoxPlayer → BoxPlayer) (b : Gains) (box : Boxscore)
    → ((p : BoxPlayer) (q : Stat) → (f p).batting q ≡ p.batting q + b q)
    → is_some (player_at w box) ≡ true
    → IsChanged b nothing nothing box (change_player w f box)
player-IsChanged w f b box g h = record {
  batting = λ q k. batting_total-change_player q w f (b q) box (λ p. g p q) h;
  pitching = λ q k. no_gain _ _ (unfold pitching_total change_player in refl);
  notable = λ q k. no_gain _ _ (unfold change_player in refl);
  line = unfold change_player in refl;
  rows = change_player-rows w f box;
  players = λ v. player_at-change_player v w f box;
  pitchers = λ v. unfold change_player in refl;
}

-- A change of a player, there or not, that leaves the counters
pub player-kept :
    (w : Place) (f : BoxPlayer → BoxPlayer) (box : Boxscore)
    → ((p : BoxPlayer) (q : Stat) → is_counted q ≡ true → (f p).batting q ≡ p.batting q)
    → IsChanged nothing nothing nothing box (change_player w f box)
player-kept w f box g = record {
  batting = λ q k. no_gain _ _ (batting_total-change_same q w f box (λ p. g p q k));
  pitching = λ q k. no_gain _ _ (unfold pitching_total change_player in refl);
  notable = λ q k. no_gain _ _ (unfold change_player in refl);
  line = unfold change_player in refl;
  rows = change_player-rows w f box;
  players = λ v. player_at-change_player v w f box;
  pitchers = λ v. unfold change_player in refl;
}

pub pitcher-IsChanged :
    (w : PitcherPlace) (f : BoxPitcher → BoxPitcher) (g : Gains) (box : Boxscore)
    → ((p : BoxPitcher) (q : Stat) → (f p).pitching q ≡ p.pitching q + g q)
    → is_some (pitcher_at w box) ≡ true
    → IsChanged nothing g nothing box (change_pitcher w f box)
pitcher-IsChanged w f g box k h = record {
  batting = λ q l. no_gain _ _ (unfold batting_total change_pitcher in refl);
  pitching = λ q l. pitching_total-change_pitcher q w f (g q) box (λ p. k p q) h;
  notable = λ q l. no_gain _ _ (unfold change_pitcher in refl);
  line = unfold change_pitcher in refl;
  rows = λ t. unfold change_pitcher in refl;
  players = λ v. unfold change_pitcher in refl;
  pitchers = λ v. pitcher_at-change_pitcher v w f box;
}

pub pitcher-kept :
    (w : PitcherPlace) (f : BoxPitcher → BoxPitcher) (box : Boxscore)
    → ((p : BoxPitcher) (q : Stat) → is_shared q ≡ true → (f p).pitching q ≡ p.pitching q)
    → IsChanged nothing nothing nothing box (change_pitcher w f box)
pitcher-kept w f box g = record {
  batting = λ q l. no_gain _ _ (unfold batting_total change_pitcher in refl);
  pitching = λ q l. no_gain _ _ (pitching_total-change_same q w f box (λ p. g p q l));
  notable = λ q l. no_gain _ _ (unfold change_pitcher in refl);
  line = unfold change_pitcher in refl;
  rows = λ t. unfold change_pitcher in refl;
  players = λ v. unfold change_pitcher in refl;
  pitchers = λ v. pitcher_at-change_pitcher v w f box;
}

length-noted :
    (c : Bool) (l : List BoxEvent) (ev : BoxEvent)
    → length (if c then l ++ ev ∷ [] else l) ≡ length l + (if c then 1 else 0)
length-noted true l ev = length-append l (ev ∷ [])
length-noted false l ev = omega arith

-- An event in a list
pub event-IsChanged :
    (s : Stat) (ev : BoxEvent) (box : Boxscore)
    → IsChanged nothing nothing (gain s 1) box (add_event s ev box)
event-IsChanged s ev box = record {
  batting = λ q l. no_gain _ _ (unfold batting_total add_event in refl);
  pitching = λ q l. no_gain _ _ (unfold pitching_total add_event in refl);
  notable = λ q l. unfold add_event gain in length-noted (same_stat s q) (box.notable q) ev;
  line = unfold add_event in refl;
  rows = λ t. unfold add_event in refl;
  players = λ v. unfold add_event in refl;
  pitchers = λ v. unfold add_event in refl;
}

-- A box score with the same entries
pub same-IsChanged :
    {box box' : Boxscore}
    → box'.slots ≡ box.slots
    → box'.pitchers ≡ box.pitchers
    → box'.notable ≡ box.notable
    → box'.linescore ≡ box.linescore
    → IsChanged nothing nothing nothing box box'
same-IsChanged {box} {box'} h k l n = record {
  line = n;
  batting = λ q r.
      no_gain _ _ (unfold batting_total in ap (sides_total (total (total (λ p. p.batting q)))) h);
  pitching =
      λ q r. no_gain _ _ (unfold pitching_total in ap (sides_total (total (λ p. p.pitching q))) k);
  notable = λ q r. no_gain _ _ (ap (λ (f : Stat → List BoxEvent). length (f q)) l);
  rows = λ t. ap (λ (ss : Sides (List (List BoxPlayer))). length (side ss t)) h;
  players = λ w.
      ap
        (λ (ss : Sides (List (List BoxPlayer))).
          is_some (get_elem? (get_or (side ss w.team) w.slot []) w.depth))
        h;
  pitchers =
      λ w. ap (λ (ss : Sides (List BoxPitcher)). is_some (get_elem? (side ss w.team) w.depth)) k;
}

-- A counter gains nothing where another one of another kind is counted.
pub gain_none :
    (kind : ℕ → Bool) (s q : Stat) (n : ℕ)
    → kind (stat_code s) ≡ false
    → kind (stat_code q) ≡ true
    → gain s n q ≡ 0
unfolding gain same_stat
gain_none kind s q n h k = from (stat_code s == stat_code q) refl
  where
    from : (c : Bool) → (stat_code s == stat_code q) ≡ c → (if c then n else 0) ≡ 0
    from false e = refl
    from true e = (let r : stat_code s ≡ stat_code q = ground arith in cc)
