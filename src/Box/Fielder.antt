-- ===== src/Box/Fielder.antt =====
-- cw/box.py: `fielder_stats`.
use mlb_baseball.Prelude.{
  ℕ, zero, suc, ◌+◌, ◌||◌, ◌&&◌, Bool, true, false, not, Option, none, some, List, [], ◌∷◌, ◌++◌,
  ◌==◌, pos, eq_ℤ, leb_ℤ, get_or, take, set, ltb, pos_part, Text, codes, text_eq, if◌then◌else◌,
}
use mlb_baseball.Play.Bases.{Base, batter, first, second, third, on}
use mlb_baseball.Play.Event.{Ev, EventData, is_ev, outs_on_play}
use mlb_baseball.State.Record.{State}
use mlb_baseball.State.Advance.{defence, fielder}
use mlb_baseball.State.Queries.{charged_pitcher}
use mlb_baseball.Iter.Record.{ok}
use mlb_baseball.Box.Record.{Stat, Fielding, BoxPlayer, box_event, Boxscore}
use mlb_baseball.Box.Find.{
  Action, ◌then◌, Place, player_at, change_player, note, deref, or_return, when,
  find_current_player, find_pitcher,
}

-- `fielding[pos]`, where there is one
abbrev pub fielding_at : ℕ → BoxPlayer → Option Fielding
fielding_at i p = get_or p.fielding i none

abbrev pub player_fielding : ℕ → Option BoxPlayer → Option Fielding
player_fielding i none = none
player_fielding i (some p) = fielding_at i p

abbrev pub change_found : (Fielding → Fielding) → Option Fielding → Option Fielding
change_found f none = none
change_found f (some x) = some (f x)

-- A change of `fielding` of an entry
unfoldable pub change_fielding : ℕ → (Fielding → Fielding) → Place → Action
unfolding change_player
change_fielding i f w box = ok (
    change_player w
      (λ p. record p { fielding = set p.fielding i (change_found f (fielding_at i p)) }) box)

-- `for i in range(n): if items[i] == pos: ...`
abbrev pub count_in : ℕ → List ℕ → ℕ
count_in i [] = 0
count_in i (x ∷ l) = if x == i then 1 + count_in i l else count_in i l

abbrev pub unknown_credit : EventData → Base → Bool
unknown_credit d b = text_eq (on d.play b) (codes "99")

-- `all(p != "99" for p in d.play)`
unfoldable pub credits_known : EventData → Bool
credits_known d = not (
    unknown_credit d batter
    || unknown_credit d first
    || unknown_credit d second
    || unknown_credit d third)

-- The putouts and the assists of the fielder at a position, none where a credit is unknown
unfoldable pub putouts_of : ℕ → EventData → ℕ
unfolding credits_known
putouts_of i d = if credits_known d then count_in i (take 3 d.putouts) else 0

unfoldable pub assists_of : ℕ → EventData → ℕ
unfolding credits_known
assists_of i d = if credits_known d then count_in i (take 10 d.assists) else 0

unfoldable pub errors_of : ℕ → EventData → ℕ
errors_of i d = count_in i (take 10 d.errors)

-- A ball in play
unfoldable pub in_play : EventData → Bool
unfolding is_ev
in_play d =
    is_ev d.event_type Ev.single
    || is_ev d.event_type Ev.double
    || is_ev d.event_type Ev.triple
    || is_ev d.event_type Ev.home_run && leb_ℤ (pos 1) d.fielded_by
    || is_ev d.event_type Ev.error
    || is_ev d.event_type Ev.generic_out
    || is_ev d.event_type Ev.fielders_choice

abbrev pub one_more : Bool → ℕ → ℕ
one_more c n = if c then n + 1 else n

-- What a play adds to the record of the fielder at a position, less passed balls and interference
unfoldable pub credit_fielding : ℕ → EventData → Fielding → Fielding
unfolding outs_on_play in_play putouts_of assists_of errors_of
credit_fielding i d f =
    let accepted = ltb 0 (putouts_of i d + assists_of i d) in
    record f {
      played = true;
      outs = f.outs + outs_on_play d;
      bip = one_more (in_play d) f.bip;
      bf = one_more (ltb 0 (outs_on_play d) && eq_ℤ d.fielded_by (pos i)) f.bf;
      po = f.po + putouts_of i d;
      a = f.a + assists_of i d;
      e = f.e + errors_of i d;
      dp = one_more (accepted && d.dp_flag) f.dp;
      tp = one_more (accepted && d.tp_flag) f.tp;
    }

-- One event of the fielder for each of his errors
unfoldable pub note_errors : ℕ → State → Place → Action
unfolding note
note_errors zero s who = ok
note_errors (suc n) s who =
    note Stat.err (box_event s.inning s.batting_team (who.player_id ∷ [])) then note_errors n s who

-- What is counted for the catcher
unfoldable pub catcher_stats : State → EventData → Place → Action
unfolding find_pitcher charged_pitcher change_fielding note is_ev
catcher_stats s d who =
    when d.pb_flag (λ box.
      deref (find_pitcher (charged_pitcher d s) box)
        (λ pitcher.
          change_fielding 2 (λ f. record f { pb = f.pb + 1 }) who
          then note Stat.pb
              (box_event s.inning s.batting_team (pitcher.player_id ∷ who.player_id ∷ [])))
        box)
    then when (is_ev d.event_type Ev.interference && (get_or d.errors 0 0 == 2))
        (change_fielding 2 (λ f. record f { xi = f.xi + 1 }) who)

-- One round of the loop over the positions, and the rounds that follow it
unfoldable pub position_stats : State → EventData → ℕ → Action → Action
unfolding find_current_player change_fielding credit_fielding errors_of note_errors catcher_stats
position_stats s d i rest box =
    or_return (find_current_player (fielder s i (defence s)) false box)
      (λ who box₁.
        or_return (player_fielding i (player_at who box₁))
          (λ f.
            change_fielding i (credit_fielding i d) who
            then note_errors (errors_of i d) s who
            then when (i == 2) (catcher_stats s d who)
            then rest)
          box₁)
      box

unfoldable pub positions_stats : State → EventData → List ℕ → Action → Action
unfolding position_stats
positions_stats s d [] rest = rest
positions_stats s d (i ∷ l) rest = position_stats s d i (positions_stats s d l rest)

-- The players who touch the ball in a double or triple play
unfoldable pub touch_players : State → List ℕ → Boxscore → List Text → (List Text → Action) → Action
unfolding find_current_player
touch_players s [] box ids act = act ids
touch_players s (i ∷ l) box ids act =
    deref (find_current_player (fielder s i (defence s)) false box)
      (λ who. touch_players s l box (ids ++ who.player_id ∷ []) act)

unfoldable pub multiple_play : State → EventData → Action
unfolding touch_players note
multiple_play s d box =
    when (d.dp_flag || d.tp_flag)
      (touch_players s (take (pos_part d.num_touches) d.touches) box [] (λ ids.
        note (if d.dp_flag then Stat.dp else Stat.tp) (box_event s.inning s.batting_team ids)))
      box

-- `fielder_stats`; where a fielder is not found the function returns.
unfoldable pub fielder_stats : State → EventData → Action
unfolding positions_stats multiple_play
fielder_stats s d = positions_stats s d (1 ∷ 2 ∷ 3 ∷ 4 ∷ 5 ∷ 6 ∷ 7 ∷ 8 ∷ 9 ∷ []) (multiple_play s d)
