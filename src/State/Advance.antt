-- ===== src/State/Advance.antt =====
-- cw/gameiter.py: the runners of a `State` and how a play moves them.
use mlb_baseball.Prelude.{
  ℕ, ◌+◌, Bool, true, false, ◌&&◌, ◌||◌, not, Option, none, some, List, [], ◌∷◌, ℤ, pos, ◌+ℤ◌,
  sub_ℕ, eq_ℤ, leb, ltb, ◌==◌, Text, is_empty, get_or, if◌then◌else◌, between,
}
use mlb_baseball.Prelude.Sides.{Team, other_team, side, put_side}
use mlb_baseball.Play.Bases.{Base, batter, first, second, third, to_base, on, put_on}
use mlb_baseball.Play.Event.{Ev, EventData, is_ev, runner_put_out}
use mlb_baseball.State.Record.{Runner, State, no_runner, base_occupied}

-- `x or ""`
abbrev pub or_blank : Option Text → Text
or_blank none = []
or_blank (some t) = t

-- `self.fielders[pos][team]`
abbrev pub fielder : State → ℕ → Team → Option Text
fielder s p t = get_or (side s.fielders t) p none

abbrev pub defence : State → Team
defence s = other_team s.batting_team

abbrev pub put_runner : State → Base → Runner → State
put_runner s b r = record s { runners = put_on s.runners b r }

-- `_place_runner`; `none` is the IndexError of a base above 3.
unfoldable pub place_runner : ℕ → Text → State → Option State
place_runner base runner s =
    if ltb 3 base
    then none
    else some (record s {
      runners = put_on s.runners (to_base base) (record (on s.runners (to_base base)) {
        runner = runner;
        pitcher = or_blank (fielder s 1 (defence s));
        catcher = or_blank (fielder s 2 (defence s));
        is_auto = true;
      });
      num_auto_runners =
          put_side s.num_auto_runners s.batting_team (side s.num_auto_runners s.batting_team + 1);
    })

-- `if event_type in (Ev.WALK, Ev.INTENTIONALWALK) and self.walk_pitcher`
unfoldable pub walk_charge : State → Ev → Option Text
unfolding is_ev
walk_charge s ev =
    if (is_ev ev Ev.walk || is_ev ev Ev.intentional_walk)
      && not (is_empty (or_blank s.walk_pitcher))
    then s.walk_pitcher
    else none

abbrev pub first_of_two : Option Text → Option Text → Option Text
first_of_two none o = o
first_of_two (some t) o = some t

-- `_place_batter`
unfoldable pub place_batter : Text → Ev → State → State
unfolding walk_charge
place_batter name ev s = put_runner s batter (record {
  runner = name;
  pitcher = or_blank (first_of_two (walk_charge s ev) (fielder s 1 (defence s)));
  catcher = or_blank (fielder s 2 (defence s));
  src_event = s.event_count;
  is_auto = false;
})

-- `_replace_runner`
unfoldable pub replace_runner : Base → Text → State → State
replace_runner b name s = put_runner s b (record (on s.runners b) { runner = name })

-- `_move_runner`
unfoldable pub move_runner : Base → Base → State → State
move_runner src dest s =
    let s' = put_runner s dest (on s.runners src) in
    put_runner s' src (record (on s'.runners src) { is_auto = false })

-- `self.runners[base].clear()`
unfoldable pub clear_runner : Base → State → State
clear_runner b s = put_runner s b no_runner

-- `dst.pitcher, dst.catcher, dst.is_auto = src.pitcher, src.catcher, src.is_auto`
unfoldable pub hand_over : Base → Base → State → State
hand_over src dst s = put_runner s dst (record (on s.runners dst) {
  pitcher = (on s.runners src).pitcher;
  catcher = (on s.runners src).catcher;
  is_auto = (on s.runners src).is_auto;
})

-- `_reassign_responsibility`: the loop over the bases below, one clause for each base
unfoldable pub reassign_first : State → State
unfolding hand_over
reassign_first s = hand_over first batter s

unfoldable pub reassign_second : State → State
unfolding hand_over reassign_first base_occupied
reassign_second s =
    if base_occupied s first
    then hand_over second first (reassign_first s)
    else hand_over second batter s

unfoldable pub reassign_third : State → State
unfolding hand_over reassign_first reassign_second base_occupied
reassign_third s =
    if base_occupied s second
    then hand_over third second (reassign_second s)
    else if base_occupied s first
    then hand_over third first (reassign_first s)
    else hand_over third batter s

unfoldable pub reassign_responsibility : Base → State → State
unfolding reassign_first reassign_second reassign_third
reassign_responsibility batter s = s
reassign_responsibility first s = reassign_first s
reassign_responsibility second s = reassign_second s
reassign_responsibility third s = reassign_third s

-- `_clear_all_runners`
unfoldable pub clear_all_runners : State → State
clear_all_runners s = record s {
  runners = record {
    at_batter = no_runner;
    at_first = no_runner;
    at_second = no_runner;
    at_third = no_runner;
  };
}

-- `_check_go_ahead_rbi`: the loop over the bases from `b` down, `diff` being the lead so far
abbrev pub is_zero : ℤ → Bool
is_zero a = eq_ℤ a (pos 0)

unfoldable pub go_ahead_from : List Base → ℤ → Text → EventData → Option Text → Option Text
go_ahead_from [] diff name d old = old
go_ahead_from (b ∷ bs) diff name d old =
    let up = diff +ℤ pos 1 in
    let scored = go_ahead_from bs up name d (if is_zero up then none else old) in
    let stayed = go_ahead_from bs diff name d old in
    if leb 4 (on d.advance b)
    then (if eq_ℤ up (pos 1)
        then (if is_zero (on d.rbi_flag b) then none else some name)
        else scored)
    else stayed

unfoldable pub check_go_ahead_rbi : Text → EventData → State → State
unfolding go_ahead_from
check_go_ahead_rbi name d s = record s {
  go_ahead_rbi =
      go_ahead_from (third ∷ second ∷ first ∷ batter ∷ [])
        (sub_ℕ (side s.score s.batting_team) (side s.score (defence s))) name d s.go_ahead_rbi;
}

-- A runner who scored or was put out leaves his base, after handing on his pitcher where he was
-- forced.
unfoldable pub leave : Base → EventData → State → State
unfolding reassign_responsibility runner_put_out clear_runner
leave b d s =
    clear_runner b (if on d.fc_flag b && runner_put_out d b then reassign_responsibility b s else s)

-- The four parts of `_process_advance` behind the batter's placement
unfoldable pub advance_third : EventData → State → State
unfolding leave runner_put_out
advance_third d s =
    if leb 4 (on d.advance third) || runner_put_out d third then leave third d s else s

unfoldable pub advance_second : EventData → State → State
unfolding leave runner_put_out move_runner
advance_second d s =
    let s' = if on d.advance second == 3 then move_runner second third s else s in
    if leb 3 (on d.advance second) || runner_put_out d second then leave second d s' else s'

unfoldable pub advance_first : EventData → State → State
unfolding leave runner_put_out move_runner
advance_first d s =
    let s' =
      if on d.advance first == 2
      then move_runner first second s
      else if on d.advance first == 3
      then move_runner first third s
      else s in
    if leb 2 (on d.advance first) || runner_put_out d first then leave first d s' else s'

-- Backwards advances
unfoldable pub retreat : EventData → State → State
unfolding move_runner clear_runner
retreat d s =
    let s' =
      if on d.advance third == 2
      then clear_runner third (move_runner third second s)
      else if on d.advance third == 1
      then clear_runner third (move_runner third first s)
      else s in
    if on d.advance second == 1 then clear_runner second (move_runner second first s') else s'

unfoldable pub advance_batter : EventData → State → State
unfolding move_runner
advance_batter d s =
    if between 1 3 (on d.advance batter)
    then move_runner batter (to_base (on d.advance batter)) s
    else s

-- `_process_advance`
unfoldable pub process_advance : Text → EventData → State → State
unfolding place_batter advance_third advance_second advance_first retreat advance_batter
process_advance name d s = advance_batter d (
    retreat d
      (advance_first d (advance_second d (advance_third d (place_batter name d.event_type s)))))
