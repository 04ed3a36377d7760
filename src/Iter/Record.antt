-- ===== src/Iter/Record.antt =====
-- cw/gameiter.py: the iterator, its reset and its copy.
use mlb_baseball.Prelude.{
  ℕ, Bool, true, false, Option, none, some, List, [], ◌∷◌, ◌++◌, length, get_elem?, set, leb, ltb,
  ◌==◌, Text, codes, text_eq, take, drop, if◌then◌else◌,
}
use mlb_baseball.Prelude.Sides.{Team, side, put_side}
use mlb_baseball.Play.Event.{EventData, empty_event}
use mlb_baseball.Play.Monad.{Exception}
use mlb_baseball.Play.Parse.{Parsed, parsed, failed, parse_event}
use mlb_baseball.Game.Records.{Appearance, Event, Game}
use mlb_baseball.Game.Container.{info_lookup}
use mlb_baseball.State.Record.{Slot, State, new_state, copy_state}

-- What ends a call: an exception of the parser, or one of the iterator's own.
pub data Fault : Type 0 where
  parse_fault : Exception → Fault
  index_error value_error assertion_error : Fault

pub data Result (A : Type 0) : Type 0 where
  ok : A → Result A
  fault : Fault → Result A

infixl 5 ◌>>=◌
abbrev pub ◌>>=◌ : {A B : Type 0} → Result A → (A → Result B) → Result B
ok a >>= f = f a
fault x >>= f = fault x

-- An IndexError of the code where `none` stands for one
abbrev pub in_range : {A : Type 0} → Option A → Result A
in_range none = fault Fault.index_error
in_range (some a) = ok a

pub record GameIter : Type 0 where
  pub game : Game
  pub index : ℕ
  pub state : State
  pub play : EventData
  pub parse_ok : Bool

-- The `event` property
abbrev pub event : GameIter → Option Event
event gi = get_elem? gi.game.events gi.index

-- `ev.event_text != "NP"`
abbrev pub is_play : Event → Bool
is_play ev = if text_eq ev.event_text (codes "NP") then false else true

-- `_copy_data`
unfoldable pub copy_data : EventData → EventData
copy_data d = record {
  event_type = d.event_type;
  advance = d.advance;
  rbi_flag = d.rbi_flag;
  fc_flag = d.fc_flag;
  muff_flag = d.muff_flag;
  play = d.play;
  sh_flag = d.sh_flag;
  sf_flag = d.sf_flag;
  dp_flag = d.dp_flag;
  gdp_flag = d.gdp_flag;
  tp_flag = d.tp_flag;
  wp_flag = d.wp_flag;
  pb_flag = d.pb_flag;
  foul_flag = d.foul_flag;
  bunt_flag = d.bunt_flag;
  force_flag = d.force_flag;
  sb_flag = d.sb_flag;
  cs_flag = d.cs_flag;
  po_flag = d.po_flag;
  fielded_by = d.fielded_by;
  num_putouts = d.num_putouts;
  num_assists = d.num_assists;
  num_errors = d.num_errors;
  num_touches = d.num_touches;
  putouts = d.putouts;
  assists = d.assists;
  errors = d.errors;
  touches = d.touches;
  error_types = d.error_types;
  batted_ball_type = d.batted_ball_type;
  hit_location = d.hit_location;
}

-- `copy`: the game is shared, the rest is copied.
unfoldable pub copy : GameIter → GameIter
unfolding copy_state copy_data
copy gi = record {
  game = gi.game;
  index = gi.index;
  state = copy_state gi.state;
  play = copy_data gi.play;
  parse_ok = gi.parse_ok;
}

-- One starter of `_lineup_setup`; `none` is the IndexError of a slot above 9.
unfoldable pub set_starter : Appearance → State → Option State
set_starter a s =
    if ltb a.slot (length (side s.lineups a.team))
    then (let row : Slot = record {
      player_id = some a.player_id;
      name = some a.name;
      position = a.pos;
    } in
        let s' = record s {
          lineups = put_side s.lineups a.team (set (side s.lineups a.team) a.slot row);
        } in
        some (
          if leb a.pos 9
          then record s' {
            fielders =
                put_side s'.fielders a.team
                  (set (side s'.fielders a.team) a.pos (some a.player_id));
          }
          else if a.pos == 10
          then record s' { dh_slot = put_side s'.dh_slot a.team a.slot }
          else s'))
    else none

-- `_lineup_setup`
unfoldable pub lineup_setup : List Appearance → State → Option State
unfolding set_starter
lineup_setup [] s = some s
lineup_setup (a ∷ l) s = elim (set_starter a s) [ none ↦ none | some s' ↦ lineup_setup l s' ]

-- The data and the flag of `parse_event`, or its exception
abbrev pub parse_result : Parsed → Result (EventData × Bool)
parse_result (parsed d fine) = ok (d, fine)
parse_result (failed x) = fault (Fault.parse_fault x)

-- `date[0:4] + date[5:7] + date[8:10]`
abbrev pub short_date : Text → Text
short_date d = take 4 d ++ take 2 (drop 5 d) ++ take 2 (drop 8 d)

-- The first play of `_reset`
unfoldable pub load_first : Option Event → GameIter → Result GameIter
unfolding parse_event
load_first none gi = ok gi
load_first (some ev) gi =
    if is_play ev
    then (do
      (d, fine) ← parse_result (parse_event ev.event_text)
      let s' = record gi.state { batter_hand = ev.batter_hand; pitcher_hand = ev.pitcher_hand }
      ok (record gi { state = s'; play = d; parse_ok = fine }))
    else ok (record gi { parse_ok = true })

-- The state of `_reset`, before its first play
unfoldable pub reset_state : Game → Result State
unfolding info_lookup lineup_setup
reset_state g = elim (info_lookup (codes "date") g) [
  | none ↦ fault Fault.value_error
  | some date ↦ (do
    s ← in_range (lineup_setup g.starters (record new_state { date = short_date date }))
    let team : Team = elim (info_lookup (codes "htbf") g) [
      | none ↦ Team.visitors
      | some v ↦ if text_eq v (codes "true") then Team.home else Team.visitors
    ]
    ok (record s { batting_team = team }))
]

-- `GameIter(game)`
unfoldable pub new_iter : Game → Result GameIter
unfolding reset_state load_first
new_iter g = do
  s ← reset_state g
  let gi : GameIter = record { game = g; index = 0; state = s; play = empty_event; parse_ok = true }
  load_first (event gi) gi
