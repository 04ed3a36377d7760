-- ===== src/Box/Tests.antt =====
-- The box score of a short game (cw/box.py).
use mlb_baseball.Prelude.{
  some, ap, text_eq, ℕ, ◌+◌, ◌≡◌, refl, Bool, true, false, none, List, [], ◌∷◌, ◌++◌, codes, length,
  map, ◌&&◌, ◌==◌, if◌then◌else◌,
}
use mlb_baseball.Prelude.Sides.{Team, side, same_team}
use mlb_baseball.Play.Run.{run_text}
use mlb_baseball.Game.Records.{Appearance, Game, new_event, new_game}
use mlb_baseball.Play.Event.{empty_event}
use mlb_baseball.State.Record.{new_state}
use mlb_baseball.State.Update.{update, substitute}
use mlb_baseball.Iter.Record.{Result, ok, fault, GameIter, event}
use mlb_baseball.Box.Record.{Stat, Boxscore, new_box}
use mlb_baseball.Box.Starters.{enter_starters}
use mlb_baseball.Box.Iterate.{Walk, walk_game, played_box, box_create}
use mlb_baseball.Box.Balance.Totals.{batting_total, pitching_total}
use mlb_baseball.Box.Balance.Changes.{is_shared, is_listed}
use mlb_baseball.Box.Balance.Whole.{box_create-shared, box_create-listed}
use mlb_baseball.Box.Substitute.{substitution}
use mlb_baseball.Box.Line.Sums.{line_total}
use mlb_baseball.Box.Line.Whole.{box_create-line_total}
use mlb_baseball.Box.Lineup.Slots.{in_slot, on_mound, HasSlots}
use mlb_baseball.Box.Lineup.Whole.{substitution-in_slot, substitution-on_mound}
use mlb_baseball.Box.Walked.{walk_game-ends}

-- Player `n` of a side bats in the slot `n`; the ninth pitches.
abbrev place : ℕ → ℕ
place n = if n == 9 then 1 else n + 1

abbrev player : Team → ℕ → Appearance
player t n = record {
  player_id = (if same_team t Team.home then b'h' else b'a') ∷ (b'0' + n) ∷ [];
  name = [];
  team = t;
  slot = n;
  pos = place n;
}

abbrev nine : Team → List Appearance
nine t = map (player t) (1 ∷ 2 ∷ 3 ∷ 4 ∷ 5 ∷ 6 ∷ 7 ∷ 8 ∷ 9 ∷ [])

-- The pitcher who comes in after the single
abbrev reliever : Appearance
reliever = record { player_id = codes "hx"; name = []; team = Team.home; slot = 9; pos = 1 }

abbrev box_game : Game
box_game = record (new_game (codes "XXX")) {
  info = (codes "date", codes "2024/04/01") ∷ [];
  starters = nine Team.visitors ++ nine Team.home;
  events =
      new_event 1 Team.visitors (codes "a1") (codes "??") (codes "CBX") (codes "S8")
      ∷ record (new_event 1 Team.visitors (codes "a2") (codes "??") [] (codes "NP")) {
        subs = reliever ∷ [];
      }
      ∷ new_event 1 Team.visitors (codes "a2") (codes "??") (codes "X") (codes "HR/F7.1-H")
      ∷ new_event 1 Team.home (codes "h1") (codes "??") (codes "SSS") (codes "K")
      ∷ [];
}

abbrev nowhere : GameIter
nowhere = record {
  game = box_game;
  index = 0;
  state = new_state;
  play = empty_event;
  parse_ok = false;
}

abbrev or_new : Result Boxscore → Boxscore
or_new (ok box) = box
or_new (fault x) = new_box

scored_box : Boxscore
unfolding played_box
scored_box = or_new (played_box box_game)

abbrev made : Result Boxscore → Bool
made (ok box) = true
made (fault x) = false

made_box : (m : Result Boxscore) → made m ≡ true → m ≡ ok (or_new m)
made_box (ok box) h = refl
made_box (fault x) h = cc

box_made : made (played_box box_game) ≡ true
unfolding played_box run_text update substitute
box_made = refl

box_create_box : box_create box_game ≡ some (ok scored_box)
unfolding scored_box box_create
box_create_box = ap some (made_box (played_box box_game) box_made)

two_runs : (batting_total Stat.r scored_box == 2) && (pitching_total Stat.h scored_box == 2) ≡ true
unfolding scored_box played_box run_text update substitute batting_total pitching_total
two_runs = refl

box_create-shared_example : batting_total Stat.r scored_box ≡ pitching_total Stat.r scored_box
unfolding is_shared
box_create-shared_example = box_create-shared box_game Stat.r box_create_box refl

box_create-listed_example : length (scored_box.notable Stat.hr) ≡ batting_total Stat.hr scored_box
unfolding is_listed
box_create-listed_example = box_create-listed box_game Stat.hr box_create_box refl

abbrev first_box : Boxscore
unfolding enter_starters
first_box = or_new (enter_starters box_game new_box)

abbrev walked : Result Walk → Bool
walked (ok w) = true
walked (fault x) = false

abbrev or_walk : Walk → Result Walk → Walk
or_walk d (ok w) = w
or_walk d (fault x) = d

abbrev no_walk : Walk
no_walk = record { box = new_box; gi = nowhere; lead_change = false }

last_walk : Walk
unfolding walk_game
last_walk = or_walk no_walk (walk_game box_game first_box)

walked_box : (m : Result Walk) → walked m ≡ true → m ≡ ok (or_walk no_walk m)
walked_box (ok w) h = refl
walked_box (fault x) h = cc

walk_returns : walked (walk_game box_game first_box) ≡ true
unfolding walk_game first_box run_text update substitute
walk_returns = refl

walk_game_walk : walk_game box_game first_box ≡ ok last_walk
unfolding last_walk
walk_game_walk = walked_box (walk_game box_game first_box) walk_returns

walk_game-ends_example : event last_walk.gi ≡ none
walk_game-ends_example = walk_game-ends box_game first_box walk_game_walk

box_create-line_total_example :
    line_total Team.visitors scored_box.linescore ≡ side scored_box.score Team.visitors
box_create-line_total_example = box_create-line_total box_game Team.visitors box_create_box

abbrev stepped : Result (Boxscore × GameIter) → Bool
stepped (ok r) = true
stepped (fault x) = false

abbrev or_step : Result (Boxscore × GameIter) → Boxscore × GameIter
or_step (ok r) = r
or_step (fault x) = (new_box, nowhere)

stepped_box : (m : Result (Boxscore × GameIter)) → stepped m ≡ true → m ≡ ok (or_step m)
stepped_box (ok r) h = refl
stepped_box (fault x) h = cc

-- The reliever comes in before the first play.
relieved_box : Boxscore × GameIter
unfolding substitution
relieved_box = or_step (substitution reliever new_state first_box nowhere)

substitution_steps : stepped (substitution reliever new_state first_box nowhere) ≡ true
unfolding substitution first_box text_eq
substitution_steps = refl

first_slots : HasSlots first_box
unfolding first_box text_eq
first_slots Team.visitors = refl
first_slots Team.home = refl

relieved_returns : substitution reliever new_state first_box nowhere ≡ ok relieved_box
unfolding relieved_box
relieved_returns =
    stepped_box (substitution reliever new_state first_box nowhere) substitution_steps

substitution-in_slot_example : in_slot 9 Team.home relieved_box.0 ≡ some (codes "hx")
substitution-in_slot_example =
    substitution-in_slot reliever new_state first_box nowhere first_slots relieved_returns

substitution-on_mound_example : on_mound Team.home relieved_box.0 ≡ some (codes "hx")
substitution-on_mound_example =
    substitution-on_mound reliever new_state first_box nowhere first_slots refl relieved_returns
