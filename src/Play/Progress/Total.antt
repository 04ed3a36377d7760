-- ===== src/Play/Progress/Total.antt =====
-- Termination of cw/parse.py: `parse_event`.
use mlb_baseball.Prelude.{ℕ, ◌≢◌, Bool, true, Option, none, some, Text, arith}
use mlb_baseball.Play.Event.{Ev}
use mlb_baseball.Play.Monad.{Exception, Outcome, ok, raised}
use mlb_baseball.Play.Table.{Handler}
use mlb_baseball.Play.Parse.{
  run_handler, start_primary, parse_primary, parse_tail, parse_action, Parsed, parsed, failed,
  start_run, parse_event, result,
}
use mlb_baseball.Play.Progress.Rules.{
  Ends, Within, weight, Ends-pure, Ends-token, Ends-change, Ends-bind, Ends-if,
}
use mlb_baseball.Play.Progress.Quiet.{Ends-and, ends_rules}
use mlb_baseball.Play.Progress.Credits.{primary_event-Ends}
use mlb_baseball.Play.Progress.Runners.{advancement-Ends}
use mlb_baseball.Play.Progress.Steals.{
  stolen_base-Ends, caught_stealing-Ends, pickoff_caught_stealing-Ends, pickoff-Ends,
}
use mlb_baseball.Play.Progress.Handlers.{
  balk-Ends, safe_on_error-Ends, fielders_choice-Ends, foul_error-Ends, generic_out-Ends,
  hit_by_pitch-Ends, interference-Ends, indifference-Ends, other_advance-Ends, passed_ball-Ends,
  wild_pitch-Ends, base_hit-Ends, ground_rule_double-Ends, strikeout-Ends, walk-Ends,
}

run_handler-Ends : (b : ℕ) (h : Handler) → Ends b (run_handler h)
unfolding run_handler
run_handler-Ends b Handler.balk = balk-Ends b true
run_handler-Ends b Handler.interference = interference-Ends b true
run_handler-Ends b Handler.caught_stealing = caught_stealing-Ends b true
run_handler-Ends b Handler.base_hit = base_hit-Ends b true
run_handler-Ends b Handler.ground_rule_double = ground_rule_double-Ends b true
run_handler-Ends b Handler.indifference = indifference-Ends b true
run_handler-Ends b Handler.safe_on_error = safe_on_error-Ends b true
run_handler-Ends b Handler.fielders_choice = fielders_choice-Ends b true
run_handler-Ends b Handler.foul_error = foul_error-Ends b true
run_handler-Ends b Handler.hit_by_pitch = hit_by_pitch-Ends b true
run_handler-Ends b Handler.walk = walk-Ends b true
run_handler-Ends b Handler.strikeout = strikeout-Ends b true
run_handler-Ends b Handler.other_advance = other_advance-Ends b true
run_handler-Ends b Handler.passed_ball = passed_ball-Ends b true
run_handler-Ends b Handler.pickoff = pickoff-Ends b true
run_handler-Ends b Handler.pickoff_caught_stealing = pickoff_caught_stealing-Ends b true
run_handler-Ends b Handler.pickoff_stolen_base = stolen_base-Ends b true
run_handler-Ends b Handler.stolen_base = stolen_base-Ends b true
run_handler-Ends b Handler.wild_pitch = wild_pitch-Ends b true

start_primary-Ends : (b : ℕ) (o : Option (Ev × Handler)) → Ends b (start_primary o)
unfolding start_primary
start_primary-Ends b none = Ends-pure _
start_primary-Ends b (some (ev, h)) = Ends-bind (Ends-change _) (λ _. run_handler-Ends b h)

parse_action-Ends : (b : ℕ) → Ends b parse_action
unfolding parse_action parse_primary parse_tail
parse_action-Ends b =
    Ends-and
      (Ends-bind (primary_event-Ends b) (λ _. Ends-bind Ends-token (λ t.
        Ends-if _ (Ends-bind (Ends-change _) (λ _. generic_out-Ends b true))
          (start_primary-Ends b _))))
      (search (ends_rules, advancement-Ends) depth 40)

abbrev pub Finishes : Parsed → Type 0
Finishes (parsed e fine) = Unit
Finishes (failed x) = x ≢ Exception.out_of_fuel

Finishes-Within : (b : ℕ) (o : Outcome Bool) → Within b o → Finishes (result o)
Finishes-Within b (ok a r) w = tt
Finishes-Within b (raised Exception.index_error) w = λ e. cc
Finishes-Within b (raised Exception.unicode_error) w = λ e. cc
Finishes-Within b (raised Exception.out_of_fuel) w = absurd w

-- On every text the parser ends: it returns its data with a verdict, or raises a Python
-- exception; no loop and no recursion of it goes on for ever.
pub parse_event-Finishes : (text : Text) → Finishes (parse_event text)
unfolding parse_event
parse_event-Finishes text =
    let r = start_run text in
    Finishes-Within (weight r) (parse_action r) ((parse_action-Ends (weight r)).at r (omega arith))
