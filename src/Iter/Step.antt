-- ===== src/Iter/Step.antt =====
-- cw/gameiter.py: `next` and the comments and substitutions that it processes.
-- A comment is changed in the shared game, so the game is part of what a step returns.
use mlb_baseball.Prelude.{
  ◌+◌, Bool, ◌&&◌, ◌||◌, not, Option, none, some, List, [], ◌∷◌, pos, eq_ℤ, get_or, take, set, ◌==◌,
  Text, codes, starts_with, if◌then◌else◌,
}
use mlb_baseball.Prelude.Sides.{same_team, put_side}
use mlb_baseball.Play.Bases.{Base, batter, first, second, third, number, on, put_on}
use mlb_baseball.Play.Event.{Ev, EventData, is_ev, runner_put_out}
use mlb_baseball.Play.Parse.{parse_event}
use mlb_baseball.Game.Records.{Appearance, Comment, Event}
use mlb_baseball.Game.Container.{split_fields}
use mlb_baseball.State.Record.{State, base_occupied}
use mlb_baseball.State.Advance.{put_runner, place_runner}
use mlb_baseball.State.Update.{update, substitute, change_sides}
use mlb_baseball.Iter.Record.{
  Fault, Result, ok, fault, ◌>>=◌, in_range, GameIter, event, is_play, parse_result,
}

-- One comment of `_process_comments`, and the date after it
unfoldable pub process_comment : Comment → Text → Comment × Text
unfolding split_fields starts_with
process_comment c date =
    if starts_with c.text (codes "suspended,")
    then (record c { text = codes "suspended" }, take 8 (get_or (split_fields [] c.text) 1 []))
    else (c, date)

unfoldable pub process_comments : List Comment → Text → List Comment × Text
unfolding process_comment
process_comments [] date = ([], date)
process_comments (c ∷ l) date =
    let (c', date') = process_comment c date in
    let (l', date'') = process_comments l date' in (c' ∷ l', date'')

-- `_process_subs`
unfoldable pub process_subs : Event → List Appearance → State → Option State
process_subs ev [] s = some s
process_subs ev (a ∷ l) s =
    elim (substitute ev.batter ev.count a.player_id a.name a.team a.slot a.pos s) [
      | none ↦ none
      | some s' ↦ process_subs ev l s'
    ]

-- The play just seen: its update, comments and substitutions
unfoldable pub finish_event : Event → GameIter → Result GameIter
unfolding process_comments process_subs
finish_event ev gi = do
  let s =
      if is_play ev
      then update ev.batter gi.play gi.state
      else record gi.state { batter_hand = ev.batter_hand; pitcher_hand = ev.pitcher_hand }
  let done = process_comments ev.comments s.date
  let ev' = record ev { comments = done.0 }
  s' ← in_range (process_subs ev ev.subs (record s { date = done.1 }))
  ok (record gi {
    game = record gi.game { events = set gi.game.events gi.index ev' };
    index = gi.index + 1;
    state = s';
  })

abbrev pub same_half : Event → State → Bool
same_half ev s = (s.inning == ev.inning) && same_team s.batting_team ev.batting_team

abbrev pub adjust_pitcher : Base → Option Text → State → State
adjust_pitcher b none s = s
adjust_pitcher b (some p) s = put_runner s b (record (on s.runners b) { pitcher = p })

-- The adjustment records of a play that is about to begin
unfoldable pub adjust : Event → State → Result State
unfolding place_runner
adjust ev s = do
  let s₁ =
      if ev.ladj_slot == 0
      then s
      else record s { next_batter = put_side s.next_batter s.batting_team ev.ladj_slot }
  s₂ ←
      (if ev.auto_base == 0 then ok s₁ else elim ev.auto_runner_id [
        | none ↦ fault Fault.assertion_error
        | some r ↦ in_range (place_runner ev.auto_base r s₁)
      ])
  ok (
      adjust_pitcher third ev.presadj.at_third
        (adjust_pitcher second ev.presadj.at_second (adjust_pitcher first ev.presadj.at_first s₂)))

-- A runner of whom the play says nothing stays on his base.
unfoldable pub stay : Base → State → EventData → EventData
unfolding base_occupied runner_put_out
stay b s d =
    if (on d.advance b == 0) && base_occupied s b && not (runner_put_out d b)
    then record d { advance = put_on d.advance b (number b) }
    else d

unfoldable pub stay_all : State → EventData → EventData
unfolding stay
stay_all s d = stay third s (stay second s (stay first s d))

-- The run that scores from third is no RBI on an error with two out, nor on a walk with a base open.
unfoldable pub correct_rbi : State → EventData → EventData
unfolding is_ev base_occupied
correct_rbi s d =
    if is_ev d.event_type Ev.error && (s.outs == 2) && eq_ℤ d.rbi_flag.at_third (pos 1)
      || (is_ev d.event_type Ev.walk || is_ev d.event_type Ev.intentional_walk)
        && (not (base_occupied s second) || not (base_occupied s first))
    then record d { rbi_flag = put_on d.rbi_flag third (pos 0) }
    else d

abbrev pub plain_rbi : EventData → Base → EventData
plain_rbi d b =
    if eq_ℤ (on d.rbi_flag b) (pos 2)
    then record d { rbi_flag = put_on d.rbi_flag b (pos 1) }
    else d

-- What `next` makes of the parsed data
unfoldable pub settle : State → EventData → EventData
unfolding stay_all correct_rbi
settle s d =
    plain_rbi (plain_rbi (plain_rbi (plain_rbi (correct_rbi s (stay_all s d)) batter) first) second)
      third

-- The play that is about to begin
unfoldable pub load_event : Event → GameIter → Result GameIter
unfolding adjust settle change_sides
load_event ev gi = do
  let s₁ = if same_half ev gi.state then gi.state else change_sides ev gi.state
  s₂ ← adjust ev s₁
  if is_play ev
      then (do
        (d, fine) ← parse_result (parse_event ev.event_text)
        let s₃ = record s₂ { batter_hand = ev.batter_hand; pitcher_hand = ev.pitcher_hand }
        ok (record gi { state = s₃; play = settle s₃ d; parse_ok = fine }))
      else ok (record gi { state = s₂ })

abbrev pub load_if : Option Event → GameIter → Result GameIter
load_if none gi = ok gi
load_if (some ev) gi = load_event ev gi

-- `next`
unfoldable pub next : GameIter → Result GameIter
unfolding finish_event load_event
next gi = elim (event gi) [
  | none ↦ fault Fault.assertion_error
  | some ev ↦ (do gi' ← finish_event ev gi; load_if (event gi') gi')
]
