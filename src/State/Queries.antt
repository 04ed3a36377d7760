-- ===== src/State/Queries.antt =====
-- cw/gameiter.py: what is read of a `State`.
use mlb_baseball.Prelude.{
  ℕ, suc, ◌+◌, Bool, false, ◌&&◌, not, Option, none, some, List, [], ◌∷◌, ℤ, sub_ℕ, ltb, leb, ◌==◌,
  Text, if◌then◌else◌,
}
use mlb_baseball.Prelude.Sides.{Team, side}
use mlb_baseball.Play.Bases.{Base, first, second, third, on}
use mlb_baseball.Play.Event.{Ev, EventData, is_ev, runner_put_out}
use mlb_baseball.Roster.{Roster, roster_batting_hand, roster_throwing_hand}
use mlb_baseball.State.Record.{Slot, State, base_occupied}
use mlb_baseball.State.Advance.{defence, fielder, walk_charge, first_of_two}
use mlb_baseball.State.Update.{is_some, same_id}

unfoldable pub left_on_base : Team → State → ℤ
left_on_base t s =
    sub_ℕ (side s.num_batters t + side s.num_auto_runners t) (side s.score t + side s.times_out t)

-- Whether the slot holds the player: `pid is not None and pid == player_id`
abbrev pub holds : Option Text → Slot → Bool
holds id r = is_some r.player_id && same_id r.player_id id

-- `lineup_slot`: the last slot that holds the player; `none` is -1.
unfoldable pub last_slot : Option Text → List Slot → Option ℕ
last_slot id [] = none
last_slot id (r ∷ l) = elim (last_slot id l) [
  | some i ↦ some (suc i)
  | none ↦ if holds id r then some 0 else none
]

unfoldable pub lineup_slot : Team → Option Text → State → Option ℕ
unfolding last_slot
lineup_slot t id s = last_slot id (side s.lineups t)

-- The loop of `player_position` over the slots from `i` on
unfoldable pub position_from : ℕ → ℕ → Bool → Option Text → List Slot → Option ℕ
position_from i dh ph id [] = none
position_from i dh ph id (r ∷ l) =
    if holds id r
    then some (
        if ltb 10 r.position && (dh == i)
        then 10
        else if ltb 10 r.position && not ph
        then 0
        else r.position)
    else position_from (i + 1) dh ph id l

-- `player_position`: the batting order first, and the pitcher's slot last; `none` is -1.
abbrev pub order_then_pitcher : ℕ → Bool → Option Text → List Slot → Option ℕ
order_then_pitcher dh ph id [] = none
order_then_pitcher dh ph id (r ∷ l) = elim (position_from 1 dh ph id l) [
  | some p ↦ some p
  | none ↦ if holds id r then some r.position else none
]

unfoldable pub player_position : Team → Option Text → State → Option ℕ
unfolding position_from
player_position t id s = order_then_pitcher (side s.dh_slot t) s.ph_flag id (side s.lineups t)

unfoldable pub charged_batter : Text → EventData → State → Text
unfolding is_ev
charged_batter name d s =
    if is_ev d.event_type Ev.strikeout
    then elim s.strikeout_batter [ none ↦ name | some b ↦ b ]
    else name

unfoldable pub charged_pitcher : EventData → State → Option Text
unfolding walk_charge
charged_pitcher d s = first_of_two (walk_charge s d.event_type) (fielder s 1 (defence s))

-- A switch hitter bats from the side away from the pitcher's hand.
abbrev pub opposite : ℕ → ℕ
opposite p = if p == b'L' then b'R' else if p == b'R' then b'L' else b'?'

unfoldable pub charged_batter_hand : Text → EventData → Option Roster → Option Roster → State → ℕ
unfolding is_ev charged_batter charged_pitcher roster_batting_hand roster_throwing_hand
charged_batter_hand name d off def s =
    if is_ev d.event_type Ev.strikeout
      && is_some s.strikeout_batter
      && not (s.strikeout_batter_hand == b' ')
    then s.strikeout_batter_hand
    else (let hand =
          if s.batter_hand == b' '
          then roster_batting_hand off (some (charged_batter name d s))
          else s.batter_hand in
        if hand == b'B'
        then opposite (
            if not (s.pitcher_hand == b' ')
            then s.pitcher_hand
            else roster_throwing_hand def (charged_pitcher d s))
        else hand)

-- `_responsible_base`
unfoldable pub responsible_base : EventData → Base → State → Base
unfolding runner_put_out base_occupied
responsible_base d third s = third
responsible_base d second s =
    if runner_put_out d third && on d.fc_flag third && leb 4 (on d.advance second)
    then third
    else second
responsible_base d _ s =
    if runner_put_out d third && on d.fc_flag third && leb 4 (on d.advance second)
    then second
    else if runner_put_out d third
        && on d.fc_flag third
        && not (base_occupied s second)
        && leb 4 (on d.advance first)
    then third
    else first

unfoldable pub responsible_pitcher : EventData → Base → State → Text
unfolding responsible_base base_occupied
responsible_pitcher d b s =
    if not (base_occupied s b) then [] else (on s.runners (responsible_base d b s)).pitcher

unfoldable pub runner_is_auto : EventData → Base → State → Bool
unfolding responsible_base base_occupied
runner_is_auto d b s =
    if not (base_occupied s b) then false else (on s.runners (responsible_base d b s)).is_auto

unfoldable pub responsible_catcher : EventData → Base → State → Text
unfolding responsible_base base_occupied
responsible_catcher d b s =
    if not (base_occupied s b) then [] else (on s.runners (responsible_base d b s)).catcher
