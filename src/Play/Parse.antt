-- ===== src/Play/Parse.antt =====
-- cw/parse.py: `parse_event`.
use mlb_baseball.Prelude.{
  Option, none, some, Bool, true, false, not, none, some, ◌==◌, Text, codes, is_empty, has_char,
  if◌then◌else◌,
}
use mlb_baseball.Play.Event.{Ev, EventData, empty_event}
use mlb_baseball.Play.Cursor.{nul, start}
use mlb_baseball.Play.Monad.{
  Action, Exception, Run, Outcome, ok, raised, pure, ◌>>=◌, ◌>>◌, ◌&>◌, when, symbol, nextsym,
  token, change, try_change,
}
use mlb_baseball.Play.Credit.{primary_event}
use mlb_baseball.Play.Advance.{advancement}
use mlb_baseball.Play.Steals.{stolen_base, caught_stealing}
use mlb_baseball.Play.Pickoffs.{pickoff_caught_stealing, pickoff}
use mlb_baseball.Play.Handlers.{
  balk, safe_on_error, fielders_choice, foul_error, generic_out, hit_by_pitch, interference,
}
use mlb_baseball.Play.Others.{
  indifference, other_advance, passed_ball, wild_pitch, base_hit, ground_rule_double, strikeout,
  walk,
}
use mlb_baseball.Play.Sanity.{sanity_check}
use mlb_baseball.Play.Table.{Handler, primary_table, lookup_primary}

-- A call of the handler with `flags = 1`
unfoldable pub run_handler : Handler → Action Bool
run_handler Handler.balk = balk true
run_handler Handler.interference = interference true
run_handler Handler.caught_stealing = caught_stealing true
run_handler Handler.base_hit = base_hit true
run_handler Handler.ground_rule_double = ground_rule_double true
run_handler Handler.indifference = indifference true
run_handler Handler.safe_on_error = safe_on_error true
run_handler Handler.fielders_choice = fielders_choice true
run_handler Handler.foul_error = foul_error true
run_handler Handler.hit_by_pitch = hit_by_pitch true
run_handler Handler.walk = walk true
run_handler Handler.strikeout = strikeout true
run_handler Handler.other_advance = other_advance true
run_handler Handler.passed_ball = passed_ball true
run_handler Handler.pickoff = pickoff true
run_handler Handler.pickoff_caught_stealing = pickoff_caught_stealing true
run_handler Handler.pickoff_stolen_base = stolen_base true
run_handler Handler.stolen_base = stolen_base true
run_handler Handler.wild_pitch = wild_pitch true

abbrev pub set_type : Ev → EventData → EventData
set_type ev e = record e { event_type = ev }

-- `_PRIMARY.get(p.token)` and the call of the handler
unfoldable pub start_primary : Option (Ev × Handler) → Action Bool
start_primary none = pure false
start_primary (some (ev, h)) = do change (set_type ev); run_handler h

-- The primary event
unfoldable pub parse_primary : Action Bool
unfolding start_primary
parse_primary = do
  primary_event
  t ← token
  if is_empty t
      then (do change (set_type Ev.generic_out); generic_out true)
      else start_primary (lookup_primary t primary_table)

-- What follows it, to the end of the text
unfoldable pub parse_tail : Action Bool
parse_tail = do
  c ← symbol
  (if c == b'.' then advancement else pure true) &> (do
    d ← symbol
    when (has_char d (codes "+-#")) nextsym
    k ← symbol
    if not (k == nul) then pure false else do try_change sanity_check; pure true)

unfoldable pub parse_action : Action Bool
parse_action = parse_primary &> parse_tail

-- `parse_event`: the data, half-filled where the text did not parse, and whether it parsed
pub data Parsed : Type 0 where
  parsed : EventData → Bool → Parsed
  failed : Exception → Parsed

abbrev pub result : Outcome Bool → Parsed
result (ok b r) = parsed r.event b
result (raised x) = failed x

abbrev pub start_run : Text → Run
start_run text = record { parser = start text; event = empty_event }

unfoldable pub parse_event : Text → Parsed
parse_event text = result (parse_action (start_run text))
