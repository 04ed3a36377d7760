-- ===== src/State/Record.antt =====
-- cw/gameiter.py: `Runner`, `Slot`, `State` and `State.copy`.
-- `lineups[slot][team]` and `fielders[pos][team]` are kept by team: a list of ten for each side.
use mlb_baseball.Prelude.{
  ℕ, Bool, true, false, not, Option, none, List, [], replicate, Text, is_empty,
}
use mlb_baseball.Prelude.Sides.{Team, Sides, both_sides}
use mlb_baseball.Play.Bases.{Base, Bases, all_bases, on}

pub record Runner : Type 0 where
  pub runner : Text
  pub pitcher : Text
  pub catcher : Text
  pub src_event : ℕ
  pub is_auto : Bool

-- `Runner()`, and what `clear` leaves
abbrev pub no_runner : Runner
no_runner = record { runner = []; pitcher = []; catcher = []; src_event = 0; is_auto = false }

pub record Slot : Type 0 where
  pub player_id : Option Text
  pub name : Option Text
  pub position : ℕ

abbrev pub empty_slot : Slot
empty_slot = record { player_id = none; name = none; position = 0 }

pub record State : Type 0 where
  pub event_count : ℕ
  pub inning : ℕ
  pub batting_team : Team
  pub outs : ℕ
  pub inning_batters : ℕ
  pub inning_score : ℕ
  pub score : Sides ℕ
  pub hits : Sides ℕ
  pub errors : Sides ℕ
  pub times_out : Sides ℕ
  pub next_batter : Sides ℕ
  pub num_batters : Sides ℕ
  pub dh_slot : Sides ℕ
  pub num_auto_runners : Sides ℕ
  pub is_leadoff : Bool
  pub is_new_pa : Bool
  pub ph_flag : Bool
  pub runners : Bases Runner
  pub lineups : Sides (List Slot)
  pub fielders : Sides (List (Option Text))
  pub removed_for_ph : Option Text
  pub removed_for_pr : Bases (Option Text)
  pub walk_pitcher : Option Text
  pub strikeout_batter : Option Text
  pub strikeout_batter_hand : ℕ
  pub removed_position : ℕ
  pub go_ahead_rbi : Option Text
  pub batter_hand : ℕ
  pub pitcher_hand : ℕ
  pub date : Text

-- `State()`
abbrev pub new_state : State
new_state = record {
  event_count = 0;
  inning = 1;
  batting_team = Team.visitors;
  outs = 0;
  inning_batters = 0;
  inning_score = 0;
  score = both_sides 0;
  hits = both_sides 0;
  errors = both_sides 0;
  times_out = both_sides 0;
  next_batter = both_sides 1;
  num_batters = both_sides 0;
  dh_slot = both_sides 0;
  num_auto_runners = both_sides 0;
  is_leadoff = true;
  is_new_pa = true;
  ph_flag = false;
  runners = all_bases no_runner;
  lineups = both_sides (replicate 10 empty_slot);
  fielders = both_sides (replicate 10 none);
  removed_for_ph = none;
  removed_for_pr = all_bases none;
  walk_pitcher = none;
  strikeout_batter = none;
  strikeout_batter_hand = b' ';
  removed_position = 0;
  go_ahead_rbi = none;
  batter_hand = b' ';
  pitcher_hand = b' ';
  date = [];
}

-- `copy_from`
unfoldable pub copy_runner : Runner → Runner
copy_runner r = record {
  runner = r.runner;
  pitcher = r.pitcher;
  catcher = r.catcher;
  src_event = r.src_event;
  is_auto = r.is_auto;
}

unfoldable pub copy_slots : List Slot → List Slot
copy_slots [] = []
copy_slots (List.◌∷◌ s l) =
    List.◌∷◌ (record { player_id = s.player_id; name = s.name; position = s.position })
      (copy_slots l)

-- `State.copy`: the fields that are given to `State(...)`, then those that are copied after it
unfoldable pub copy_state : State → State
unfolding copy_runner copy_slots
copy_state s = record {
  event_count = s.event_count;
  inning = s.inning;
  batting_team = s.batting_team;
  outs = s.outs;
  inning_batters = s.inning_batters;
  inning_score = s.inning_score;
  score = s.score;
  hits = s.hits;
  errors = s.errors;
  times_out = s.times_out;
  next_batter = s.next_batter;
  num_batters = s.num_batters;
  dh_slot = s.dh_slot;
  num_auto_runners = s.num_auto_runners;
  is_leadoff = s.is_leadoff;
  is_new_pa = s.is_new_pa;
  ph_flag = s.ph_flag;
  runners = record {
    at_batter = copy_runner s.runners.at_batter;
    at_first = copy_runner s.runners.at_first;
    at_second = copy_runner s.runners.at_second;
    at_third = copy_runner s.runners.at_third;
  };
  lineups = record {
    away_side = copy_slots s.lineups.away_side;
    home_side = copy_slots s.lineups.home_side;
  };
  fielders = s.fielders;
  removed_for_ph = s.removed_for_ph;
  removed_for_pr = s.removed_for_pr;
  walk_pitcher = s.walk_pitcher;
  strikeout_batter = s.strikeout_batter;
  strikeout_batter_hand = s.strikeout_batter_hand;
  removed_position = s.removed_position;
  go_ahead_rbi = s.go_ahead_rbi;
  batter_hand = s.batter_hand;
  pitcher_hand = s.pitcher_hand;
  date = s.date;
}

-- `base_occupied`
unfoldable pub base_occupied : State → Base → Bool
base_occupied s b = not (is_empty (on s.runners b).runner)
