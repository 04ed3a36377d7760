-- ===== src/Box/Batter.antt =====
-- cw/box.py: `batter_stats`.
use mlb_baseball.Prelude.{
  ℕ, ◌+◌, ◌||◌, ◌&&◌, Bool, true, false, not, Option, some, [], ◌∷◌, ◌==◌, pos, eq_ℤ, ltb, leb,
  if◌then◌else◌,
}
use mlb_baseball.Prelude.Sides.{Team, Sides, other_team, side, put_side}
use mlb_baseball.Play.Bases.{batter, first, second, third, on}
use mlb_baseball.Play.Event.{
  Ev, EventData, is_ev, ev_between, is_batter, is_official_ab, outs_on_play, rbi_on_play,
  runs_on_play,
}
use mlb_baseball.Game.Records.{Event}
use mlb_baseball.State.Record.{State, base_occupied}
use mlb_baseball.State.Advance.{defence, fielder}
use mlb_baseball.State.Queries.{charged_batter, charged_pitcher}
use mlb_baseball.State.Update.{is_some}
use mlb_baseball.Iter.Record.{ok}
use mlb_baseball.Box.Record.{Stat, BoxEvent, box_event}
use mlb_baseball.Box.Find.{
  Action, ◌then◌, Place, PitcherPlace, count_batting, count_pitching, note, deref, or_return, when,
  find_player, find_current_player, find_on_side, current_pitcher,
}
use mlb_baseball.Box.Pitches.{count_both}

-- `side[t] += n` for a list of two that the box score holds
abbrev pub more : Team → ℕ → Sides ℕ → Sides ℕ
more t n xs = put_side xs t (side xs t + n)

unfoldable pub count_risp_ab : Team → Action
count_risp_ab t box = ok (record box { risp_ab = more t 1 box.risp_ab })

unfoldable pub count_risp_h : Team → Action
count_risp_h t box = ok (record box { risp_h = more t 1 box.risp_h })

unfoldable pub count_team_er : Team → Action
count_team_er t box = ok (record box { er = more t 1 box.er })

-- The event of a batter and the pitcher that it is charged to
abbrev pub duel : State → Place → PitcherPlace → BoxEvent
duel s who res = box_event s.inning s.batting_team (who.player_id ∷ res.player_id ∷ [])

-- A counter of the batter and of the pitcher, with an entry in the list of the same name
unfoldable pub count_noted : Stat → BoxEvent → Place → PitcherPlace → Action
unfolding count_both note
count_noted c ev who res = note c ev then count_both c 1 who res

abbrev pub in_scoring_position : State → Bool
in_scoring_position s = base_occupied s second || base_occupied s third

unfoldable pub hit_stats : State → EventData → Place → PitcherPlace → Action
unfolding base_occupied count_both count_risp_h count_noted is_ev runs_on_play rbi_on_play
hit_stats s d who res =
    count_both Stat.h 1 who res
    then when (in_scoring_position s) (count_risp_h s.batting_team)
    then (if is_ev d.event_type Ev.double
        then count_noted Stat.b2 (duel s who res) who res
        else if is_ev d.event_type Ev.triple
        then count_noted Stat.b3 (duel s who res) who res
        else if is_ev d.event_type Ev.home_run
        then count_noted Stat.hr
            (record (duel s who res) {
              runners = pos (runs_on_play d);
              outs = pos s.outs;
              location = d.hit_location;
            })
            who res
        then when (rbi_on_play d == 4) (count_both Stat.hrslam 1 who res)
        else ok)

unfoldable pub at_bat_stats : State → EventData → Place → PitcherPlace → Action
unfolding base_occupied count_both count_risp_ab hit_stats is_ev ev_between
at_bat_stats s d who res =
    count_both Stat.ab 1 who res
    then when (in_scoring_position s) (count_risp_ab s.batting_team)
    then (if ev_between Ev.single Ev.home_run d.event_type
        then hit_stats s d who res
        else if is_ev d.event_type Ev.strikeout
        then count_both Stat.so 1 who res
        else when d.gdp_flag (count_both Stat.gdp 1 who res))

-- The plays without an at bat
unfoldable pub other_stats : State → EventData → Option Place → PitcherPlace → Action
unfolding count_both count_noted count_pitching note is_ev
other_stats s d player res =
    if is_ev d.event_type Ev.walk || is_ev d.event_type Ev.intentional_walk
    then deref player (λ who.
      count_both Stat.bb 1 who res
      then when (is_ev d.event_type Ev.intentional_walk)
          (count_noted Stat.ibb (duel s who res) who res))
    else if is_ev d.event_type Ev.hit_by_pitch
    then deref player (λ who. count_noted Stat.hp (duel s who res) who res)
    else if is_ev d.event_type Ev.balk
    then count_pitching Stat.bk 1 res
    then note Stat.bk (box_event s.inning s.batting_team (res.player_id ∷ []))
    else when (is_ev d.event_type Ev.interference)
        (deref player (λ who. count_both Stat.xi 1 who res))

unfoldable pub batted_ball_stats : EventData → PitcherPlace → Action
unfolding count_pitching is_ev
batted_ball_stats d res = when (is_ev d.event_type Ev.generic_out && not d.bunt_flag) (
    if d.batted_ball_type == b'G'
    then count_pitching Stat.gb 1 res
    else when
        ((d.batted_ball_type == b'F')
          || (d.batted_ball_type == b'P')
          || (d.batted_ball_type == b'L'))
        (count_pitching Stat.fb 1 res))

unfoldable pub sacrifice_stats : State → EventData → Option Place → PitcherPlace → Action
unfolding count_noted
sacrifice_stats s d player res =
    when d.sh_flag (deref player (λ who. count_noted Stat.sh (duel s who res) who res))
    then when d.sf_flag (deref player (λ who. count_noted Stat.sf (duel s who res) who res))

-- A run that is charged to a pitcher, earned or not
unfoldable pub run_stats : Team → ℕ → Place → PitcherPlace → Action
unfolding count_both count_pitching count_team_er
run_stats fielding advance who res =
    count_both Stat.r 1 who res
    then when ((advance == 4) || (advance == 6)) (count_pitching Stat.er 1 res)
    then when (advance == 4) (count_team_er fielding)

unfoldable pub rbi_stats : State → EventData → Place → Action
unfolding count_batting rbi_on_play
rbi_stats s d who =
    count_batting Stat.bi (rbi_on_play d) who
    then when (s.outs == 2) (count_batting Stat.bi2out (rbi_on_play d) who)

-- The runners that the batter left in scoring position or moved up
unfoldable pub runners_left_stats : State → EventData → Option Place → Action
unfolding count_batting base_occupied outs_on_play is_ev
runners_left_stats s d player =
    if s.outs + outs_on_play d == 3
    then when (base_occupied s third && ltb (on d.advance third) 4)
        (deref player (count_batting Stat.lisp 1))
    then when (base_occupied s second && ltb (on d.advance second) 4)
        (deref player (count_batting Stat.lisp 1))
    else when (is_ev d.event_type Ev.generic_out) (
        when
          (base_occupied s first
            && ltb 1 (on d.advance first)
            && (ltb (on d.advance first) 4
                || leb 4 (on d.advance first) && eq_ℤ (on d.rbi_flag first) (pos 0)))
          (deref player (count_batting Stat.movedup 1))
        then when
            (base_occupied s second
              && ((on d.advance second == 3)
                  || leb 4 (on d.advance second) && eq_ℤ (on d.rbi_flag second) (pos 0)))
            (deref player (count_batting Stat.movedup 1)))

-- What comes before the wild pitch
unfoldable pub plate_stats : State → EventData → Option Place → PitcherPlace → Action
unfolding count_both count_pitching at_bat_stats other_stats batted_ball_stats is_batter
    outs_on_play is_official_ab
plate_stats s d player res =
    when (is_batter d) (deref player (λ who. count_both Stat.pa 1 who res))
    then count_pitching Stat.outs (outs_on_play d) res
    then (if is_official_ab d
        then deref player (λ who. at_bat_stats s d who res)
        else other_stats s d player res)
    then batted_ball_stats d res

-- What comes after it
unfoldable pub after_pitch_stats : State → EventData → Option Place → PitcherPlace → Action
unfolding sacrifice_stats run_stats rbi_stats runners_left_stats is_batter
after_pitch_stats s d player res =
    sacrifice_stats s d player res
    then when (leb 4 (on d.advance batter))
        (deref player (λ who. run_stats (other_team s.batting_team) (on d.advance batter) who res))
    then when (is_batter d) (deref player (rbi_stats s d))
    then runners_left_stats s d player

-- The wild pitch; where the catcher is not found the function returns.
unfoldable pub wild_pitch_stats : State → EventData → PitcherPlace → Action → Action
unfolding find_current_player count_pitching note
wild_pitch_stats s d pitcher rest box =
    if d.wp_flag
    then or_return (find_current_player (fielder s 2 (defence s)) false box)
        (λ catcher.
          note Stat.wp
            (box_event s.inning s.batting_team (pitcher.player_id ∷ catcher.player_id ∷ []))
          then count_pitching Stat.wp 1 pitcher
          then rest)
        box
    else rest box

unfoldable pub credit_play : State → EventData → Option Place → PitcherPlace → PitcherPlace → Action
unfolding plate_stats wild_pitch_stats after_pitch_stats
credit_play s d player pitcher res =
    plate_stats s d player res then wild_pitch_stats s d pitcher (after_pitch_stats s d player res)

-- `batter_stats`
unfoldable pub batter_stats : Event → State → EventData → Action
unfolding charged_batter charged_pitcher find_player is_batter credit_play
batter_stats ev s d box =
    let player = find_player (some (charged_batter ev.batter d s)) true box in
    if is_batter d && not (is_some player)
    then ok box
    else deref (current_pitcher (other_team s.batting_team) box)
        (λ pitcher box₁.
          or_return (find_on_side (charged_pitcher d s) (other_team s.batting_team) box₁)
            (credit_play s d player pitcher) box₁)
        box
