-- ===== src/Play/Flags.antt =====
-- cw/parse.py: the flags behind a batted ball.
use Prim.Native.String.{String}
use mlb_baseball.Prelude.{
  ℕ, zero, suc, Bool, true, ◌&&◌, ◌||◌, Option, some, [], ◌∷◌, ◌++◌, pos, leb, ◌==◌, Text, codes,
  has_char, one_of, text_eq, length, drop, get_or, if◌then◌else◌,
}
use mlb_baseball.Play.Event.{EventData, Ev, is_ev, throws}
use mlb_baseball.Play.Cursor.{nul}
use mlb_baseball.Play.Monad.{
  Action, ⊤, pure, raise, Exception, ◌>>=◌, ◌>>◌, symbol, nextsym, try_change,
}
use mlb_baseball.Play.Arrays.{set_error_type}
use mlb_baseball.Play.Location.{is_location, trajectory_or_location}
use mlb_baseball.Play.Credit.{fuel}

-- `t == "..."`
abbrev pub equals : Text → String → Bool
equals t s = text_eq t (codes s)

-- The body of the loop in `_flags` once `flag`, slash included, is read: the part of the ladder
-- up to the bunt double plays, then the rest.
unfoldable pub later_flag : Text → EventData → Option EventData
unfolding is_location trajectory_or_location set_error_type one_of is_ev text_eq
later_flag flag e =
    if equals flag "/TP"
    then some (record e { tp_flag = true })
    else if equals flag "/GTP"
    then some (record e { tp_flag = true; batted_ball_type = b'G' })
    else if equals flag "/LTP"
    then some (record e { tp_flag = true; batted_ball_type = b'L' })
    else if equals flag "/FL"
    then some (record e { foul_flag = true })
    else if equals flag "/FO"
    then some (record e {
      force_flag = true;
      batted_ball_type = if e.batted_ball_type == b' ' then b'G' else e.batted_ball_type;
    })
    else if one_of (drop 1 flag) throws
        && (is_ev e.event_type Ev.error || is_ev e.event_type Ev.pickoff_error)
    then set_error_type (pos 0) b'T' e
    else if equals flag "/B"
    then some (record e { bunt_flag = true })
    else if one_of flag (codes "/BG" ∷ codes "/BP" ∷ codes "/BF" ∷ codes "/BL" ∷ [])
    then some (record e { bunt_flag = true; batted_ball_type = get_or flag 2 nul })
    else if one_of flag (codes "/F" ∷ codes "/G" ∷ codes "/L" ∷ [])
    then some (record e { batted_ball_type = get_or flag 1 nul })
    else if one_of flag (codes "/P" ∷ codes "/IF" ∷ [])
    then some (record e { batted_ball_type = b'P' })
    else if leb 3 (length flag)
    then some (trajectory_or_location e flag)
    else if is_location (drop 1 flag)
    then some (record e { hit_location = drop 1 flag })
    else some e

unfoldable pub apply_flag : Text → EventData → Option EventData
unfolding later_flag
apply_flag flag e =
    if one_of flag (codes "/SH" ∷ codes "/SAC" ∷ [])
    then some (record e { sh_flag = true; bunt_flag = true })
    else if equals flag "/SF"
    then some (record e {
      sf_flag = true;
      batted_ball_type =
          if e.batted_ball_type == b' '
            || is_ev e.event_type Ev.error && (e.batted_ball_type == b'G')
          then b'F'
          else e.batted_ball_type;
    })
    else if equals flag "/DP"
    then some (record e { dp_flag = true })
    else if equals flag "/GDP"
    then some (record e { dp_flag = true; gdp_flag = true; batted_ball_type = b'G' })
    else if equals flag "/LDP"
    then some (record e { dp_flag = true; batted_ball_type = b'L' })
    else if equals flag "/FDP"
    then some (record e { dp_flag = true; batted_ball_type = b'F' })
    else if equals flag "/BGDP"
    then some
        (record e { bunt_flag = true; dp_flag = true; gdp_flag = true; batted_ball_type = b'G' })
    else if equals flag "/BPDP"
    then some (record e { bunt_flag = true; dp_flag = true; batted_ball_type = b'P' })
    else if equals flag "/BFDP"
    then some
        (record e { bunt_flag = true; dp_flag = true; batted_ball_type = b'P'; foul_flag = true })
    else later_flag flag e

-- `p.sym in "/.#!+-" or p.sym == NUL`
abbrev pub ends_flag : ℕ → Bool
ends_flag c = has_char c (codes "/.#!+-") || (c == nul)

module _ (again : Text → Action Text) where
  unfoldable pub flag_text_step : Text → Action Text
  flag_text_step tok = do
    nextsym
    c ← symbol
    if ends_flag c then pure tok else again (tok ++ c ∷ [])

unfoldable pub flag_text_loop : ℕ → Text → Action Text
flag_text_loop zero = λ tok. raise Exception.out_of_fuel
flag_text_loop (suc n) = flag_text_step (flag_text_loop n)

module _ (again : Action ⊤) where
  unfoldable pub flags_step : Action ⊤
  flags_step = do
    n ← fuel
    t ← flag_text_loop n (b'/' ∷ [])
    try_change (apply_flag t)
    c ← symbol
    if c == b'.' || (c == nul) then pure tt else again

unfoldable pub flags_loop : ℕ → Action ⊤
flags_loop zero = raise Exception.out_of_fuel
flags_loop (suc n) = flags_step (flags_loop n)

-- `_flags`
unfoldable pub all_flags : Action ⊤
all_flags = do n ← fuel; flags_loop n
