-- ===== src/Box/Pitches.antt =====
-- cw/box.py: `pitch_stats`.
use mlb_baseball.Prelude.{
  ℕ, Bool, false, some, [], ◌∷◌, Text, has_char, codes, is_empty, if◌then◌else◌,
}
use mlb_baseball.Prelude.Sides.{other_team}
use mlb_baseball.Game.Records.{Event}
use mlb_baseball.State.Record.{State}
use mlb_baseball.Iter.Record.{ok}
use mlb_baseball.Box.Record.{Stat}
use mlb_baseball.Box.Find.{
  Action, ◌then◌, Place, PitcherPlace, count_batting, count_pitching, or_return,
  find_current_player, current_pitcher,
}

-- `pitch_ball_thrown`
unfoldable pub pitch_ball_thrown : ℕ → Bool
pitch_ball_thrown c = has_char c (codes "BHIP")

-- `pitch_strike_thrown`
unfoldable pub pitch_strike_thrown : ℕ → Bool
pitch_strike_thrown c = has_char c (codes "CFKLMOQRSTXY")

-- `pitches[pitches.rfind(".") + 1 :]`
unfoldable pub after_period : Text → Text
after_period [] = []
after_period (c ∷ t) =
    let rest = after_period t in
    if has_char b'.' (c ∷ t) then (if has_char b'.' t then rest else t) else c ∷ t

-- A counter of the batter and of the pitcher
unfoldable pub count_both : Stat → ℕ → Place → PitcherPlace → Action
unfolding count_batting count_pitching
count_both s n who res = count_batting s n who then count_pitching s n res

unfoldable pub count_pitch : ℕ → Place → PitcherPlace → Action
unfolding pitch_ball_thrown pitch_strike_thrown count_both
count_pitch c who res =
    if pitch_ball_thrown c
    then count_both Stat.pitches 1 who res
    else if pitch_strike_thrown c
    then count_both Stat.pitches 1 who res
    then count_both Stat.strikes 1 who res
    else ok

unfoldable pub count_pitches : Text → Place → PitcherPlace → Action
unfolding count_pitch
count_pitches [] who res = ok
count_pitches (c ∷ t) who res = count_pitch c who res then count_pitches t who res

-- `pitch_stats`
unfoldable pub pitch_stats : Event → State → Action
unfolding after_period count_pitches find_current_player
pitch_stats ev s box =
    if is_empty ev.pitches
    then ok box
    else or_return (find_current_player (some ev.batter) false box)
        (λ who box₁.
          or_return (current_pitcher (other_team s.batting_team) box₁)
            (count_pitches (after_period ev.pitches) who) box₁)
        box
