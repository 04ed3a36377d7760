-- ===== src/Game/Records.antt =====
-- cw/game.py: the data that a game holds. Innings, slots, positions and bases are numbers from 0, and a
-- team is 0 or 1; what the reader makes of other numbers is in Game.Pending (`kept`, `kept_team`).
use mlb_baseball.Prelude.{ℕ, Option, none, List, [], Text}
use mlb_baseball.Prelude.Sides.{Team}
use mlb_baseball.Play.Bases.{Bases, all_bases}

-- `class Appearance`
pub record Appearance : Type 0 where
  pub player_id : Text
  pub name : Text
  pub team : Team
  pub slot : ℕ
  pub pos : ℕ

-- `class Comment`: the tuples of `ejection` and `umpchange` are lists of their four and three items.
pub record Comment : Type 0 where
  pub text : Text
  pub ejection : Option (List (Option Text))
  pub umpchange : Option (List (Option Text))

-- `class Event`
pub record Event : Type 0 where
  pub inning : ℕ
  pub batting_team : Team
  pub batter : Text
  pub count : Text
  pub pitches : Text
  pub event_text : Text
  pub batter_hand : ℕ
  pub pitcher_hand : ℕ
  pub pitcher_hand_id : Option Text
  pub ladj_align : ℕ
  pub ladj_slot : ℕ
  pub auto_base : ℕ
  pub auto_runner_id : Option Text
  pub presadj : Bases (Option Text)
  pub subs : List Appearance
  pub comments : List Comment

-- `Event(inning, batting_team, batter, count, pitches, event_text)`
abbrev pub new_event : ℕ → Team → Text → Text → Text → Text → Event
new_event inning team batter count pitches event_text = record {
  inning = inning;
  batting_team = team;
  batter = batter;
  count = count;
  pitches = pitches;
  event_text = event_text;
  batter_hand = b' ';
  pitcher_hand = b' ';
  pitcher_hand_id = none;
  ladj_align = 0;
  ladj_slot = 0;
  auto_base = 0;
  auto_runner_id = none;
  presadj = all_bases none;
  subs = [];
  comments = [];
}

-- A `data`, `stat`, `event` or `line` record
abbrev pub Row : Type 0
Row = List (Option Text)

-- `class Game`
pub record Game : Type 0 where
  pub game_id : Text
  pub version : Option Text
  pub info : List (Text × Text)
  pub starters : List Appearance
  pub events : List Event
  pub comments : List Comment
  pub row_data : List Row
  pub stat : List Row
  pub evdata : List Row
  pub line : List Row

-- `Game(game_id)`
abbrev pub new_game : Text → Game
new_game id = record {
  game_id = id;
  version = none;
  info = [];
  starters = [];
  events = [];
  comments = [];
  row_data = [];
  stat = [];
  evdata = [];
  line = [];
}
