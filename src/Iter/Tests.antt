-- ===== src/Iter/Tests.antt =====
-- A short game of cw/gameiter.py.
use mlb_baseball.Prelude.{
  arith, ℕ, ◌+◌, ◌≡◌, ◌≢◌, refl, Bool, true, false, some, [], ◌∷◌, codes, pos, text_eq,
}
use mlb_baseball.Prelude.Sides.{Team, side}
use mlb_baseball.Play.Bases.{first, on}
use mlb_baseball.Play.Event.{EventData, empty_event}
use mlb_baseball.Play.Run.{run_text}
use mlb_baseball.Game.Records.{Comment, Event, Game, new_event, new_game}
use mlb_baseball.Game.Container.{new_comment}
use mlb_baseball.State.Record.{new_state}
use mlb_baseball.State.Update.{update}
use mlb_baseball.Iter.Record.{Result, ok, fault, GameIter, event, new_iter, copy}
use mlb_baseball.Iter.Step.{next, process_comments}
use mlb_baseball.Iter.Ahead.{future_runs}
use mlb_baseball.Iter.Copy.{copy_eq}
use mlb_baseball.Iter.Rounds.{IsMoved, next-IsMoved}
use mlb_baseball.Iter.Scores.{event_runs, next-score}
use mlb_baseball.Iter.Half.{HalfEnds, half_over, goes_on}
use mlb_baseball.Iter.Runs.{shown, future_runs-shown}
use mlb_baseball.Iter.Comments.{process_comments_again}
use mlb_baseball.Iter.Order.Reached.{started, moved_on, Reached-InOrder}
use mlb_baseball.State.Batting.{InOrder}
use mlb_baseball.Iter.Loaded.{IsPlayed, next-IsPlayed, next-rbi_flag}
use mlb_baseball.Play.Parse.{Parsed, parsed, failed, parse_event}

-- A single, a home run with the runner on, and the home side's strikeout
abbrev short_game : Game
short_game = record (new_game (codes "XXX")) {
  info = (codes "date", codes "2024/04/01") ∷ [];
  events =
      new_event 1 Team.visitors (codes "ann") (codes "??") [] (codes "S8")
      ∷ new_event 1 Team.visitors (codes "bob") (codes "??") [] (codes "HR/F7.1-H")
      ∷ new_event 1 Team.home (codes "cy") (codes "??") [] (codes "K")
      ∷ [];
}

abbrev strikeout_event : Event
strikeout_event = new_event 1 Team.visitors (codes "bob") (codes "??") [] (codes "K")

abbrev rbi_event : Event
rbi_event = new_event 1 Team.visitors (codes "cy") (codes "??") [] (codes "D7.1-H(RBI)")

abbrev nowhere : GameIter
nowhere = record {
  game = short_game;
  index = 0;
  state = new_state;
  play = empty_event;
  parse_ok = false;
}

abbrev or_nowhere : Result GameIter → GameIter
or_nowhere (ok gi) = gi
or_nowhere (fault x) = nowhere

at_single : GameIter
unfolding new_iter run_text
at_single = or_nowhere (new_iter short_game)

at_home_run : GameIter
unfolding next at_single
at_home_run = or_nowhere (next at_single)

at_strikeout : GameIter
unfolding next at_home_run
at_strikeout = or_nowhere (next at_home_run)

abbrev returns : Result GameIter → Bool
returns (ok gi) = true
returns (fault x) = false

returned : (m : Result GameIter) → returns m ≡ true → m ≡ ok (or_nowhere m)
returned (ok gi) h = refl
returned (fault x) h = cc

single_returns : returns (next at_single) ≡ true
unfolding next run_text at_single update
single_returns = refl

home_run_returns : returns (next at_home_run) ≡ true
unfolding next run_text at_home_run update
home_run_returns = refl

next_single : next at_single ≡ ok at_home_run
unfolding at_home_run
next_single = returned (next at_single) single_returns

next_home_run : next at_home_run ≡ ok at_strikeout
unfolding at_strikeout
next_home_run = returned (next at_home_run) home_run_returns

half : HalfEnds at_single.state at_home_run at_strikeout
unfolding next run_text at_strikeout update
half = goes_on refl refl next_home_run (half_over refl refl)

future_runs-shown_example :
    (runs : ℕ) × (future_runs at_single ≡ ok (runs, record at_single { game = at_strikeout.game }))
    × (shown at_single.state at_home_run + runs ≡ shown at_single.state at_strikeout)
future_runs-shown_example = future_runs-shown at_single next_single half

two_runs : shown at_single.state at_strikeout ≡ 2
unfolding next run_text at_strikeout update
two_runs = refl

copy_eq_example : copy at_single ≡ at_single
copy_eq_example = copy_eq at_single

next-IsMoved_example : IsMoved 1 at_single at_home_run
next-IsMoved_example = next-IsMoved at_single next_single

abbrev single_event : Event
single_event = new_event 1 Team.visitors (codes "ann") (codes "??") [] (codes "S8")

home_run_event :
    event at_home_run
    ≡ some (new_event 1 Team.visitors (codes "bob") (codes "??") [] (codes "HR/F7.1-H"))
unfolding next run_text at_strikeout update
home_run_event = refl

next-score_example :
    side at_strikeout.state.score at_home_run.state.batting_team
    ≡ side at_home_run.state.score at_home_run.state.batting_team
      + event_runs
          (new_event 1 Team.visitors (codes "bob") (codes "??") [] (codes "HR/F7.1-H"))
          at_home_run.play
next-score_example =
    next-score at_home_run
      (new_event 1 Team.visitors (codes "bob") (codes "??") [] (codes "HR/F7.1-H")) home_run_event
      next_home_run

-- A strikeout with the batter of the single on first, and a double with an explicit RBI
abbrev third_game : Game
third_game = record short_game {
  events =
      new_event 1 Team.visitors (codes "ann") (codes "??") [] (codes "S8")
      ∷ strikeout_event
      ∷ rbi_event
      ∷ [];
}

at_first : GameIter
unfolding new_iter run_text
at_first = or_nowhere (new_iter third_game)

at_out : GameIter
unfolding next at_first
at_out = or_nowhere (next at_first)

at_double : GameIter
unfolding next at_out
at_double = or_nowhere (next at_out)

first_returns : returns (next at_first) ≡ true
unfolding next run_text at_first update
first_returns = refl

out_returns : returns (next at_out) ≡ true
unfolding next run_text at_out update
out_returns = refl

next_first : next at_first ≡ ok at_out
unfolding at_out
next_first = returned (next at_first) first_returns

next_out : next at_out ≡ ok at_double
unfolding at_double
next_out = returned (next at_out) out_returns

out_event : event at_out ≡ some strikeout_event
unfolding next run_text at_double update
out_event = refl

double_event : event at_double ≡ some rbi_event
unfolding next run_text at_double update
double_event = refl

abbrev text_data : Parsed → EventData
text_data (parsed d b) = d
text_data (failed x) = empty_event

abbrev is_parsed : Parsed → Bool
is_parsed (parsed d b) = b
is_parsed (failed x) = false

parsed_text : (o : Parsed) → is_parsed o ≡ true → o ≡ parsed (text_data o) true
parsed_text (parsed d true) h = refl
parsed_text (parsed d false) h = cc
parsed_text (failed x) h = cc

strikeout_data : EventData
unfolding run_text
strikeout_data = text_data (parse_event (codes "K"))

strikeout_parses : is_parsed (parse_event (codes "K")) ≡ true
unfolding run_text
strikeout_parses = refl

strikeout_text : parse_event (codes "K") ≡ parsed strikeout_data true
unfolding strikeout_data
strikeout_text = parsed_text (parse_event (codes "K")) strikeout_parses

next-IsPlayed_example : IsPlayed at_out.state strikeout_data at_out.play
unfolding text_eq
next-IsPlayed_example =
    next-IsPlayed at_first strikeout_event strikeout_data true next_first out_event refl
      strikeout_text

ann_stays : on at_out.play.advance first ≡ 1
unfolding next run_text at_double update
ann_stays = refl

next-rbi_flag_example : on at_double.play.rbi_flag first ≢ pos 2
unfolding text_eq
next-rbi_flag_example = next-rbi_flag at_out rbi_event first next_out double_event refl

-- A suspended game
abbrev suspension : Comment
suspension = new_comment (codes "suspended,20240402")

process_comments_again_example :
    process_comments (process_comments (suspension ∷ []) (codes "20240401")).0 (codes "20240401")
    ≡ ((process_comments (suspension ∷ []) (codes "20240401")).0, codes "20240401")
process_comments_again_example =
    process_comments_again (suspension ∷ []) (codes "20240401") (codes "20240401")

resumed : (process_comments (suspension ∷ []) (codes "20240401")).1 ≡ codes "20240402"
unfolding process_comments new_comment
resumed = refl

start_returns : returns (new_iter short_game) ≡ true
unfolding new_iter run_text
start_returns = refl

starts : new_iter short_game ≡ ok at_single
unfolding at_single
starts = returned (new_iter short_game) start_returns

Reached-InOrder_example : InOrder at_strikeout.state.next_batter
Reached-InOrder_example =
    Reached-InOrder short_game (omega arith, (omega arith, (omega arith, tt)))
      (moved_on (moved_on (started starts) next_single) next_home_run)

third_batter : side at_strikeout.state.next_batter Team.visitors ≡ 3
unfolding next run_text at_strikeout update
third_batter = refl
