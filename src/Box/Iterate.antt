-- ===== src/Box/Iterate.antt =====
-- cw/box.py: `iterate_game` and `box_create` for a game with play by play.
use mlb_baseball.Prelude.{
  ℕ, zero, suc, ◌+◌, Bool, true, false, ◌&&◌, Option, none, some, List, [], ◌∷◌, ◌==◌, ltb, leb,
  length, pos, Text, codes, if◌then◌else◌,
}
use mlb_baseball.Prelude.Sides.{Team, Sides, side, put_side, other_team}
use mlb_baseball.Play.Event.{EventData, runs_on_play}
use mlb_baseball.Game.Records.{Event, Game}
use mlb_baseball.Game.Container.{info_lookup}
use mlb_baseball.State.Record.{State}
use mlb_baseball.State.Queries.{left_on_base}
use mlb_baseball.Iter.Record.{Result, ok, fault, ◌>>=◌, GameIter, event, is_play, new_iter}
use mlb_baseball.Iter.Step.{next}
use mlb_baseball.Box.Record.{Stat, assign, BoxPitcher, Boxscore, new_box, rows_to}
use mlb_baseball.Box.Find.{
  Action, ◌then◌, modify, change_player, change_pitcher, when, find_player, find_pitcher,
}
use mlb_baseball.Box.Starters.{enter_starters}
use mlb_baseball.Box.Pitches.{pitch_stats}
use mlb_baseball.Box.Batter.{more, batter_stats}
use mlb_baseball.Box.Runner.{runner_stats}
use mlb_baseball.Box.Fielder.{fielder_stats}
use mlb_baseball.Box.Substitute.{add_substitutes}

-- `if row[t] < 0: row[t] = 0`
abbrev pub opened : Option ℕ → Option ℕ
opened none = some 0
opened (some n) = some n

-- `row[t] += n`, where the row is open
abbrev pub more_runs : ℕ → Option ℕ → Option ℕ
more_runs n none = none
more_runs n (some m) = some (m + n)

abbrev pub change_half : Team → (Option ℕ → Option ℕ) → Sides (Option ℕ) → Sides (Option ℕ)
change_half t f row = put_side row t (f (side row t))

-- The row of the inning of a play
unfoldable pub open_half : ℕ → Team → Action
unfolding rows_to
open_half i t box =
    ok (record box { linescore = modify i (change_half t opened) (rows_to i box.linescore) })

unfoldable pub add_runs : ℕ → Team → ℕ → Action
add_runs i t n box =
    ok (record box { linescore = modify i (change_half t (more_runs n)) box.linescore })

-- `if gi.data.dp_flag: box.dp[...] += 1`, and the same of triple plays
unfoldable pub count_multiple : Team → EventData → Action
count_multiple fielding d box = ok (record box {
  dp = if d.dp_flag then more fielding 1 box.dp else box.dp;
  tp = if d.tp_flag then more fielding 1 box.tp else box.tp;
})

-- What a play adds to the box score
unfoldable pub play_stats : Event → State → EventData → Action
unfolding batter_stats runner_stats fielder_stats count_multiple add_runs runs_on_play
play_stats ev s d =
    batter_stats ev s d
    then runner_stats s d
    then fielder_stats s d
    then count_multiple (other_team s.batting_team) d
    then add_runs s.inning s.batting_team (runs_on_play d)

-- The batting side takes the lead with the play.
unfoldable pub takes_lead : State → EventData → Bool
unfolding runs_on_play
takes_lead s d =
    let ours = side s.score s.batting_team in
    let theirs = side s.score (other_team s.batting_team) in
    ltb theirs (ours + runs_on_play d) && leb ours theirs

-- What an event adds to the box score before its substitutions
unfoldable pub event_stats : Event → State → EventData → Action
unfolding open_half pitch_stats play_stats
event_stats ev s d =
    open_half s.inning s.batting_team
    then pitch_stats ev s
    then when (is_play ev) (play_stats ev s d)

-- One round of the loop: the box score and the iterator at the next event
unfoldable pub box_round : Event → Boxscore → GameIter → Result (Boxscore × GameIter)
unfolding event_stats add_substitutes next
box_round ev box gi = do
  box₁ ← event_stats ev gi.state gi.play box
  r ← add_substitutes ev.subs gi.state box₁ gi
  gi' ← next r.1
  ok (r.0, gi')

abbrev pub lead_after : Event → GameIter → Bool → Bool
unfolding takes_lead
lead_after ev gi lead = if is_play ev then takes_lead gi.state gi.play else lead

-- The box score, the iterator and whether the last play took the lead
pub record Walk : Type 0 where
  pub box : Boxscore
  pub gi : GameIter
  pub lead_change : Bool

-- The loop, on fuel: each round moves on by one event.
unfoldable pub box_loop : ℕ → Walk → Result Walk
unfolding box_round
box_loop zero w = ok w
box_loop (suc n) w = elim (event w.gi) [
  | none ↦ ok w
  | some ev ↦ elim (box_round ev w.box w.gi) [
    | fault x ↦ fault x
    | ok r ↦
        box_loop n (record { box = r.0; gi = r.1; lead_change = lead_after ev w.gi w.lead_change })
  ]
]

-- The totals that the last state gives
unfoldable pub take_totals : State → Bool → Boxscore → Boxscore
unfolding left_on_base
take_totals s lead box = record box {
  outs_at_end = s.outs;
  walk_off = lead;
  lob = record { away_side = left_on_base Team.visitors s; home_side = left_on_base Team.home s };
  score = s.score;
  hits = s.hits;
  errors = s.errors;
}

-- The walk over the game, from the box score of its starters
unfoldable pub walk_game : Game → Boxscore → Result Walk
unfolding new_iter box_loop
walk_game g box = do
  gi ← new_iter g
  box_loop (length g.events) (record { box = box; gi = gi; lead_change = false })

-- `iterate_game`
unfoldable pub iterate_game : Game → Action
unfolding walk_game take_totals
iterate_game g box = do w ← walk_game g box; ok (take_totals w.gi.state w.lead_change w.box)

-- A complete game, or the last pitcher's
unfoldable pub finish_pitchers : List BoxPitcher → List BoxPitcher
unfolding assign
finish_pitchers [] = []
finish_pitchers (p ∷ []) =
    let p₁ : BoxPitcher = record p { pitching = assign Stat.cg 1 p.pitching } in
    (if p₁.pitching Stat.r == 0 then record p₁ { pitching = assign Stat.sho 1 p₁.pitching } else p₁)
    ∷ []
finish_pitchers (p ∷ q ∷ l) = record p { pitching = assign Stat.gf 1 p.pitching } ∷ q ∷ l

-- A decision that the game's information names, where its pitcher is found
unfoldable pub decide : Text → Stat → Game → Boxscore → Boxscore
unfolding info_lookup find_pitcher change_pitcher assign
decide label c g box = elim (find_pitcher (info_lookup label g) box) [
  | none ↦ box
  | some w ↦ change_pitcher w (λ p. record p { pitching = assign c 1 p.pitching }) box
]

unfoldable pub game_winning : Game → Boxscore → Boxscore
unfolding info_lookup find_player change_player
game_winning g box = elim (find_player (info_lookup (codes "gwrbi") g) true box) [
  | none ↦ box
  | some w ↦ change_player w (λ p. record p { gw = pos 1 }) box
]

unfoldable pub decisions : Game → Boxscore → Boxscore
unfolding finish_pitchers decide game_winning
decisions g box =
    let box₁ = record box {
      pitchers = record {
        away_side = finish_pitchers box.pitchers.away_side;
        home_side = finish_pitchers box.pitchers.home_side;
      };
    } in
    game_winning g (
      decide (codes "save") Stat.sv g
        (decide (codes "lp") Stat.lost g (decide (codes "wp") Stat.won g box₁)))

-- `box_create` where the game has events
unfoldable pub played_box : Game → Result Boxscore
unfolding enter_starters iterate_game decisions
played_box g = do box ← enter_starters g new_box; box' ← iterate_game g box; ok (decisions g box')

-- `box_create`; `none` stands for the branch of a game without events, which is compiled from stat
-- records (`process_boxscore_file`) and is not modelled.
unfoldable pub box_create : Game → Option (Result Boxscore)
unfolding played_box
box_create g = elim g.events [ [] ↦ none | ev ∷ evs ↦ some (played_box g) ]
