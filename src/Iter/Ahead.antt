-- ===== src/Iter/Ahead.antt =====
-- cw/gameiter.py: the look-ahead of `runner_fate`, `future_runs` and
-- `truncated_pa` over the rest of the half inning, on a copy that shares the game.
use mlb_baseball.Prelude.{
  ℕ, zero, suc, ◌+◌, ◌-◌, Bool, true, false, ◌||◌, ◌&&◌, none, some, length, leb, ◌==◌, between,
  if◌then◌else◌,
}
use mlb_baseball.Play.Bases.{Base, to_base, on}
use mlb_baseball.Play.Event.{EventData, is_batter, runs_on_play}
use mlb_baseball.Game.Records.{Event, Game}
use mlb_baseball.State.Record.{State}
use mlb_baseball.Iter.Record.{Result, ok, fault, ◌>>=◌, GameIter, event, is_play, copy}
use mlb_baseball.Iter.Step.{next}
use mlb_baseball.Prelude.Sides.{same_team}

-- What a round of a look-ahead makes of its value: it goes on, or breaks off.
pub data Round (A : Type 0) : Type 0 where
  go_on : A → Round A
  leave : A → Round A

-- `gi.state` is in the half inning of `self.state`.
abbrev pub in_half : State → State → Bool
in_half self s = (s.inning == self.inning) && same_team s.batting_team self.batting_team

module _ {A : Type 0} (self : State) (round : EventData → A → Round A) where
  -- `if gi.event.event_text != "NP": ...`
  abbrev pub visit : Event → EventData → A → Round A
  visit ev d a = if is_play ev then round d a else go_on a

  -- The loop, on fuel: a round moves on by one event, and none is left behind the last.
  unfoldable pub ahead_loop : ℕ → A → GameIter → Result (A × Game)
  ahead_loop zero a gi = ok (a, gi.game)
  ahead_loop (suc n) a gi = elim (event gi) [
    | none ↦ ok (a, gi.game)
    | some ev ↦
        if in_half self gi.state
        then elim (visit ev gi.play a) [
          | leave b ↦ ok (b, gi.game)
          | go_on b ↦ elim (next gi) [ fault x ↦ fault x | ok gi' ↦ ahead_loop n b gi' ]
        ]
        else ok (a, gi.game)
  ]

-- One round for each event left
abbrev pub events_left : GameIter → ℕ
events_left gi = length gi.game.events - gi.index

module _ {A : Type 0} (round : EventData → A → Round A) where
  -- `gi = self.copy(); gi.next(); while ...`: the value, and `self` over the game as it is left
  unfoldable pub look_ahead : A → GameIter → Result (A × GameIter)
  unfolding ahead_loop copy
  look_ahead a gi = do
    gi' ← next (copy gi)
    (b, g) ← ahead_loop gi.state round (events_left gi') a gi'
    ok (b, record gi { game = g })

abbrev pub fate_round : EventData → ℕ → Round ℕ
fate_round d base =
    let to = on d.advance (to_base base) in if between 1 3 to then go_on to else leave to

-- `runner_fate`
unfoldable pub runner_fate : Base → GameIter → Result (ℕ × GameIter)
unfolding look_ahead
runner_fate b gi =
    let to = on gi.play.advance b in
    if (to == 0) || leb 4 to then ok (to, gi) else look_ahead fate_round to gi

abbrev pub runs_round : EventData → ℕ → Round ℕ
runs_round d runs = go_on (runs + runs_on_play d)

-- `future_runs`
unfoldable pub future_runs : GameIter → Result (ℕ × GameIter)
unfolding look_ahead
future_runs gi = look_ahead runs_round 0 gi

abbrev pub pa_round : EventData → Bool → Round Bool
pa_round d truncated = if is_batter d then leave false else go_on truncated

-- `truncated_pa`
unfoldable pub truncated_pa : GameIter → Result (Bool × GameIter)
unfolding look_ahead
truncated_pa gi = if is_batter gi.play then ok (false, gi) else look_ahead pa_round true gi
