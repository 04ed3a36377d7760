-- ===== src/Play/Sanity.antt =====
-- cw/parse.py: `_sanity_check`, step by step.
use mlb_baseball.Prelude.{
  ℕ, zero, suc, ◌+◌, true, ◌&&◌, not, Option, some, none, List, [], pos, negsuc, pos_part, leb, ltb,
  eq_ℤ, ◌==◌, codes, is_empty, contains, length, set_item, get_or, if◌then◌else◌,
}
use mlb_baseball.Play.Bases.{Base, batter, first, second, third, on, put_on}
use mlb_baseball.Play.Event.{EventData, Ev, is_ev, is_batter, runner_put_out}
use mlb_baseball.Play.Arrays.{◌>>=◌, drop_first_putout, soften_error}
use mlb_baseball.Play.Flags.{equals}
use mlb_baseball.Play.Advance.{set_advance, set_rbi}

-- `default_advance`
unfoldable pub default_advance : Ev → Option ℕ
default_advance Ev.single = some 1
default_advance Ev.double = some 2
default_advance Ev.triple = some 3
default_advance Ev.home_run = some 4
default_advance _ = none

unfoldable pub advance_hitter : EventData → EventData
unfolding default_advance is_ev
advance_hitter e =
    if (on e.advance batter == 0) && is_empty (on e.play batter)
    then elim (default_advance e.event_type) [
      | none ↦ e
      | some n ↦
          (let e' = set_advance batter n e in
            if is_ev e.event_type Ev.home_run then set_rbi batter (pos 1) e' else e')
    ]
    else e

-- A batter who reached after a strikeout was not put out by the catcher.
unfoldable pub reached_on_strikeout : EventData → Option EventData
unfolding is_ev drop_first_putout
reached_on_strikeout e =
    if is_ev e.event_type Ev.strikeout
      && equals (on e.play batter) "2"
      && ltb 0 (on e.advance batter)
    then drop_first_putout (record e { play = put_on e.play batter [] })
    else some e

unfoldable pub clear_walk_rbi : EventData → EventData
unfolding is_ev
clear_walk_rbi e =
    if is_ev e.event_type Ev.walk
    then set_rbi batter (pos 0) (set_rbi first (pos 0) (set_rbi second (pos 0) e))
    else e

-- `for i in range(rounds): if e.error_types[i] == "F": e.error_types[i] = "D"`, from `i` on
unfoldable pub soften_from : ℕ → ℕ → EventData → Option EventData
unfolding soften_error
soften_from zero i e = some e
soften_from (suc rounds) i e = do e' ← soften_error (pos i) e; soften_from rounds (i + 1) e'

unfoldable pub error_defaults : EventData → Option EventData
unfolding is_ev is_batter soften_from
error_defaults e =
    if is_ev e.event_type Ev.foul_error
    then some (record e {
      foul_flag = true;
      batted_ball_type =
          if not (e.batted_ball_type == b' ')
          then e.batted_ball_type
          else if leb 7 (get_or e.errors 0 0)
          then b'F'
          else b'P';
    })
    else if not (is_batter e)
    then soften_from e.num_errors 0 e
    else some e

-- `for i in range(rounds): xs[i] = 0`, from `i` on
unfoldable pub clear_from : ℕ → ℕ → List ℕ → Option (List ℕ)
clear_from zero i xs = some xs
clear_from (suc rounds) i xs = do xs' ← set_item xs (pos i) 0; clear_from rounds (i + 1) xs'

unfoldable pub clear_credits : EventData → Option EventData
unfolding clear_from
clear_credits e = do
  putouts ← clear_from (pos_part e.num_putouts) 0 e.putouts
  assists ← clear_from e.num_assists 0 e.assists
  some (record e { putouts = putouts; assists = assists; num_putouts = pos 0; num_assists = 0 })

-- The body of `for base in range(4)`, without and with its last lines
unfoldable pub settle_runner : Base → EventData → EventData
unfolding runner_put_out
settle_runner base e = record e {
  rbi_flag =
      if eq_ℤ (on e.rbi_flag base) (negsuc 0) then put_on e.rbi_flag base (pos 0) else e.rbi_flag;
  advance = if runner_put_out e base then put_on e.advance base 0 else e.advance;
}

unfoldable pub settle_base : Base → EventData → Option EventData
unfolding settle_runner clear_credits contains
settle_base base e =
    if contains (on e.play base) (codes "99")
    then clear_credits (settle_runner base e)
    else some (settle_runner base e)

unfoldable pub settle_bases : EventData → Option EventData
unfolding settle_base
settle_bases e = do
  e₀ ← settle_base batter e
  e₁ ← settle_base first e₀
  e₂ ← settle_base second e₁
  settle_base third e₂

-- The default batted ball types
unfoldable pub default_trajectory : EventData → EventData
unfolding is_ev
default_trajectory e = record e {
  batted_ball_type =
      if e.sh_flag
      then b'G'
      else if not (e.batted_ball_type == b' ')
      then e.batted_ball_type
      else if is_ev e.event_type Ev.generic_out
          && (length (on e.play batter) == 1)
          && not e.dp_flag
          && not e.tp_flag
          && not e.bunt_flag
      then b'F'
      else if is_ev e.event_type Ev.generic_out && leb 1 (length (on e.play batter))
      then b'G'
      else if is_ev e.event_type Ev.single && e.bunt_flag
      then b'G'
      else e.batted_ball_type;
}

-- `_sanity_check`
unfoldable pub sanity_check : EventData → Option EventData
unfolding advance_hitter reached_on_strikeout clear_walk_rbi error_defaults settle_bases
    default_trajectory
sanity_check e = do
  e₁ ← reached_on_strikeout (advance_hitter e)
  e₂ ← error_defaults (clear_walk_rbi e₁)
  e₃ ← settle_bases e₂
  some (default_trajectory e₃)
