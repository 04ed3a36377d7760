-- ===== src/State/Update.antt =====
-- cw/gameiter.py: `update`, `substitute` and `change_sides`.
use mlb_baseball.Prelude.{
  ℕ, ◌+◌, Bool, true, false, ◌&&◌, ◌||◌, not, Option, none, some, List, [], ◌∷◌, ltb, leb, ◌==◌,
  Text, codes, text_eq, one_of, get_or, get_elem?, set, length, if◌then◌else◌,
}
use mlb_baseball.Prelude.Sides.{Team, side, put_side}
use mlb_baseball.Play.Bases.{Base, first, second, third, on, put_on}
use mlb_baseball.Play.Event.{Ev, EventData, ev_between, is_batter, outs_on_play, runs_on_play}
use mlb_baseball.Game.Records.{Event}
use mlb_baseball.State.Record.{Slot, State}
use mlb_baseball.State.Advance.{
  defence, check_go_ahead_rbi, process_advance, replace_runner, clear_all_runners,
}

-- The counters of `update`, before the runners move
unfoldable pub count_play : EventData → State → State
unfolding runs_on_play outs_on_play ev_between
count_play d s = record s {
  event_count = s.event_count + 1;
  score = put_side s.score s.batting_team (side s.score s.batting_team + runs_on_play d);
  inning_score = s.inning_score + runs_on_play d;
  hits =
      if ev_between Ev.single Ev.home_run d.event_type
      then put_side s.hits s.batting_team (side s.hits s.batting_team + 1)
      else s.hits;
  errors = put_side s.errors (defence s) (side s.errors (defence s) + d.num_errors);
  times_out =
      put_side s.times_out s.batting_team (side s.times_out s.batting_team + outs_on_play d);
  outs = s.outs + outs_on_play d;
}

-- `self.next_batter[t] += 1`, and back to 1 behind the ninth
abbrev pub following : ℕ → ℕ
following n = if (n + 1) == 10 then 1 else n + 1

-- What `update` does once the runners have moved
unfoldable pub end_play : EventData → State → State
unfolding is_batter
end_play d s =
    if is_batter d
    then record s {
      num_batters = put_side s.num_batters s.batting_team (side s.num_batters s.batting_team + 1);
      next_batter =
          put_side s.next_batter s.batting_team (following (side s.next_batter s.batting_team));
      inning_batters = s.inning_batters + 1;
      ph_flag = false;
      is_leadoff = false;
      is_new_pa = true;
      removed_for_ph = none;
      walk_pitcher = none;
      strikeout_batter = none;
      removed_for_pr = record s.removed_for_pr {
        at_first = none;
        at_second = none;
        at_third = none;
      };
    }
    else record s {
      is_new_pa = false;
      removed_for_pr = record s.removed_for_pr {
        at_first = none;
        at_second = none;
        at_third = none;
      };
    }

-- `update`
unfoldable pub update : Text → EventData → State → State
unfolding check_go_ahead_rbi count_play process_advance end_play
update name d s = end_play d (process_advance name d (count_play d (check_go_ahead_rbi name d s)))

-- `is not None`
abbrev pub is_some : {A : Type 0} → Option A → Bool
is_some none = false
is_some (some a) = true

-- `a == b` on optional ids
abbrev pub same_id : Option Text → Option Text → Bool
same_id none none = true
same_id none (some t) = false
same_id (some s) none = false
same_id (some s) (some t) = text_eq s t

-- The pitcher charged with a walk, and the batter charged with a strikeout, by the count at which
-- the substitute came in
unfoldable pub note_count : Text → Text → Team → ℕ → State → State
unfolding one_of
note_count batter count team position s =
    let c₀ = get_or count 0 0 in
    let c₁ = get_or count 1 0 in
    if (length count == 2) && not (c₀ == b'?') && not (c₁ == b'?')
    then (if (position == 1) && (one_of count (codes "20" ∷ codes "21" ∷ []) || (c₀ == b'3'))
        then record s { walk_pitcher = get_or (side s.fielders team) 1 none }
        else if (position == 11) && not (is_some s.strikeout_batter) && (c₁ == b'2')
        then record s { strikeout_batter = some batter; strikeout_batter_hand = s.batter_hand }
        else s)
    else s

-- `self.lineups[0][team].player_id`
abbrev pub pitcher_slot : State → Team → Option Text
pitcher_slot s team = elim (get_elem? (side s.lineups team) 0) [
  | none ↦ none
  | some r ↦ r.player_id
]

abbrev pub cleared : Option Slot → Slot
cleared none = record { player_id = none; name = none; position = 0 }
cleared (some r) = record r { player_id = none; name = none }

-- The designated hitter is gone: slot 0 is emptied.
unfoldable pub drop_dh : Team → State → State
drop_dh team s = record s {
  lineups =
      put_side s.lineups team
        (set (side s.lineups team) 0 (cleared (get_elem? (side s.lineups team) 0)));
  dh_slot = put_side s.dh_slot team 0;
}

-- A pinch-runner takes the base of the player whom he replaces.
unfoldable pub pinch_run : Option Text → Text → List Base → State → State
unfolding replace_runner
pinch_run removed name [] s = s
pinch_run removed name (b ∷ bs) s =
    if same_id (some (on s.runners b).runner) removed
    then replace_runner b name (record s { removed_for_pr = put_on s.removed_for_pr b removed })
    else pinch_run removed name bs s

-- `self.fielders[pos][team] = player_id`; `none` is an IndexError.
unfoldable pub put_fielder : Text → Team → ℕ → State → Option State
put_fielder id team position s =
    if ltb position (length (side s.fielders team))
    then some (record s {
      fielders = put_side s.fielders team (set (side s.fielders team) position (some id));
    })
    else none

-- A new pitcher with a slot of his own ends the designated hitter.
unfoldable pub pitcher_fields : Team → ℕ → ℕ → State → State
unfolding drop_dh
pitcher_fields team slot position s =
    if (position == 1) && ltb 0 slot && is_some (pitcher_slot s team) then drop_dh team s else s

-- A substitute who does not field
unfoldable pub take_turn : Slot → Text → ℕ → State → State
unfolding pinch_run
take_turn removed id position s =
    if position == 11
    then record s {
      removed_for_ph = removed.player_id;
      ph_flag = true;
      removed_position = removed.position;
    }
    else if position == 12
    then pinch_run removed.player_id id (first ∷ second ∷ third ∷ []) s
    else s

unfoldable pub take_position : Slot → Text → Team → ℕ → ℕ → State → Option State
unfolding put_fielder pitcher_fields take_turn
take_position removed id team slot position s =
    let fielding : Option State = elim (put_fielder id team position s) [
      | none ↦ none
      | some s' ↦ some (pitcher_fields team slot position s')
    ] in
    if leb position 9 then fielding else some (take_turn removed id position s)

-- The last lines of `substitute`: the pitcher himself bats for somebody else.
unfoldable pub pitcher_bats : Text → Team → ℕ → State → State
unfolding drop_dh
pitcher_bats id team slot s =
    if ltb 0 slot && same_id (pitcher_slot s team) (some id) then drop_dh team s else s

-- `substitute`; `none` is an IndexError.
unfoldable pub substitute : Text → Text → Text → Text → Team → ℕ → ℕ → State → Option State
unfolding note_count take_position pitcher_bats
substitute batter count id name team slot position s = elim (get_elem? (side s.lineups team) slot) [
  | none ↦ none
  | some removed ↦
      (let row : Slot = record { player_id = some id; name = some name; position = position } in
        let s₁ = record s {
          lineups = put_side s.lineups team (set (side s.lineups team) slot row);
        } in
        elim (take_position removed id team slot position
          (note_count batter count team position s₁)) [
            | none ↦ none
            | some s₂ ↦ some (pitcher_bats id team slot s₂)
          ])
]

-- A pinch-hitter or -runner for the designated hitter becomes the designated hitter.
abbrev promoted : Slot → Slot
promoted r = if ltb 10 r.position then record r { position = 10 } else r

abbrev promote_in : List Slot → ℕ → List Slot
promote_in l i = elim (get_elem? l i) [ none ↦ l | some r ↦ set l i (promoted r) ]

-- A `dh_slot` is a slot that was written, so the read is in range.
unfoldable pub promote_dh : Team → State → State
promote_dh team s =
    if ltb 0 (side s.dh_slot team)
    then record s {
      lineups = put_side s.lineups team (promote_in (side s.lineups team) (side s.dh_slot team));
    }
    else s

-- `change_sides`
unfoldable pub change_sides : Event → State → State
unfolding clear_all_runners promote_dh
change_sides ev s =
    let s₁ = clear_all_runners (record s {
      inning = ev.inning;
      batting_team = ev.batting_team;
      outs = 0;
      is_leadoff = true;
      is_new_pa = true;
      ph_flag = false;
      inning_batters = 0;
      inning_score = 0;
    }) in
    record (promote_dh Team.home (promote_dh Team.visitors s₁)) { removed_for_ph = none }
