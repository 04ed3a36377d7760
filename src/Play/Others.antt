-- ===== src/Play/Others.antt =====
-- cw/parse.py: the other handlers of primary events.
use mlb_baseball.Prelude.{
  ℕ, zero, suc, Bool, true, false, ◌&&◌, ◌||◌, not, [], ◌∷◌, pos, ltb, ◌==◌, Text, codes, one_of,
  between, get_or, if◌then◌else◌,
}
use mlb_baseball.Play.Bases.{batter, put_on}
use mlb_baseball.Play.Event.{EventData, set_play, is_fielder, throws}
use mlb_baseball.Play.Cursor.{nul}
use mlb_baseball.Play.Monad.{
  Action, ⊤, pure, raise, Exception, ◌>>=◌, ◌>>◌, ◌&>◌, when, symbol, nextsym, token, read_event,
  change, try_change,
}
use mlb_baseball.Play.Arrays.{add_error, add_putout, add_touch, set_error_type}
use mlb_baseball.Play.Credit.{fuel, digit, primary_event, hit_fielder, fielding_credit}
use mlb_baseball.Play.Flags.{equals}
use mlb_baseball.Play.Advance.{set_advance}
use mlb_baseball.Play.Steals.{slashes, set_dp, note_dp, stolen_base, caught_stealing}
use mlb_baseball.Play.Pickoffs.{pickoff_caught_stealing, pickoff}
use mlb_baseball.Play.Handlers.{closing_flags}

-- `_indifference`
unfoldable pub indifference : Bool → Action Bool
indifference flags = pure true

abbrev set_tp : EventData → EventData
set_tp e = record e { tp_flag = true }

abbrev set_wp : EventData → EventData
set_wp e = record e { wp_flag = true }

abbrev set_pb : EventData → EventData
set_pb e = record e { pb_flag = true }

unfoldable pub advance_note : Text → Action Bool
advance_note t =
    if equals t "DP"
    then (do change set_dp; pure true)
    else if one_of t (
        codes "BINT"
        ∷ codes "INT"
        ∷ codes "AP"
        ∷ codes "MREV"
        ∷ codes "UREV"
        ∷ codes "NDP"
        ∷ codes "OBS"
        ∷ [])
    then pure true
    else if equals t "TP"
    then (do change set_tp; pure true)
    else pure (get_or t 0 nul == b'R')

-- `_other_advance`
unfoldable pub other_advance : Bool → Action Bool
other_advance flags = slashes flags advance_note

-- `_passed_ball`
unfoldable pub passed_ball : Bool → Action Bool
passed_ball flags = do change set_pb; slashes flags note_dp

-- `_wild_pitch`
unfoldable pub wild_pitch : Bool → Action Bool
wild_pitch flags = do change set_wp; slashes flags note_dp

-- `_base_hit`
unfoldable pub base_hit : Bool → Action Bool
base_hit flags = do c ← symbol; when (is_fielder c || (c == b'0')) hit_fielder; closing_flags flags

-- `while "1" <= p.sym <= "9": p.nextsym()`
module _ (again : Action ⊤) where
  unfoldable pub digits_step : Action ⊤
  digits_step = do c ← symbol; if between b'1' b'9' c then (do nextsym; again) else pure tt

unfoldable pub digits_loop : ℕ → Action ⊤
digits_loop zero = raise Exception.out_of_fuel
digits_loop (suc n) = digits_step (digits_loop n)

-- `_ground_rule_double`
unfoldable pub ground_rule_double : Bool → Action Bool
ground_rule_double flags = do n ← fuel; digits_loop n; closing_flags flags

-- A failure of the second event aborts a walk, and is passed over in a strikeout.
unfoldable pub forgiving : Bool → Action Bool → Action Bool
forgiving strikeout m = do fine ← m; pure (fine || strikeout)

-- `_plus_event`: `false` is its 0; `strikeout` tells the two kinds apart.
unfoldable pub plus_event : Bool → Action Bool
plus_event strikeout = do
  nextsym
  primary_event
  t ← token
  if equals t "WP"
      then (do change set_wp; pure true)
      else if equals t "PB"
      then (do change set_pb; pure true)
      else if equals t "PO"
      then forgiving strikeout (pickoff false)
      else if equals t "POCS"
      then forgiving strikeout (pickoff_caught_stealing false)
      else if equals t "POSB"
      then forgiving strikeout (stolen_base false)
      else if equals t "SB"
      then forgiving strikeout (stolen_base false)
      else if equals t "CS"
      then forgiving strikeout (caught_stealing false)
      else if equals t "DI"
      then (do _ ← indifference false; pure true)
      else if equals t "OA" || equals t "OBA" && strikeout
      then pure true
      else if equals t "E"
      then (do
        c ← symbol
        if not (between b'1' b'9' c)
            then pure false
            else do try_change (add_error (digit c) b'F'); nextsym; pure true)
      else pure (not strikeout)

-- `if p.sym == "+": if _plus_event(...) == 0: return 0`
unfoldable pub plus_tail : Bool → Action Bool
plus_tail strikeout = do c ← symbol; if c == b'+' then plus_event strikeout else pure true

unfoldable pub throw_flag : Text → EventData → Bool
throw_flag t e = one_of t throws && ltb 0 e.num_errors

unfoldable pub strikeout_flag : Text → Action Bool
strikeout_flag t = do
  throw ← read_event (throw_flag t)
  if throw
      then try_change (set_error_type (pos 0) b'T')
      else if equals t "DP"
      then change set_dp
      else if equals t "TP"
      then change set_tp
      else if one_of t (codes "B" ∷ codes "BF" ∷ codes "BG" ∷ codes "BP" ∷ [])
      then change (λ e. record e { bunt_flag = true })
      else when (equals t "FL") (change (λ e. record e { foul_flag = true }))
  pure true

-- The batter's out or error behind a K
unfoldable pub strikeout_credit : Bool → Text → EventData → EventData
strikeout_credit safe t e = record (set_play batter t e) {
  advance = put_on e.advance batter (if safe then 1 else 0);
  muff_flag = put_on e.muff_flag batter safe;
}

-- `_strikeout`
unfoldable pub strikeout : Bool → Action Bool
strikeout flags = do
  c ← symbol
  if between b'1' b'9' c
      then (do safe ← fielding_credit b' '; t ← token; change (strikeout_credit safe t))
      else (do
        change (set_play batter (codes "2"))
        try_change (add_putout 2)
        try_change (add_touch 2))
  plus_tail true &> slashes flags strikeout_flag

unfoldable pub walk_flag : Text → Action Bool
walk_flag t = do
  throw ← read_event (throw_flag t)
  if throw
      then (do try_change (set_error_type (pos 0) b'T'); pure true)
      else if equals t "DP"
      then (do change set_dp; pure true)
      else pure (
          one_of t (codes "BOOT" ∷ codes "MREV" ∷ codes "UREV" ∷ codes "UINT" ∷ codes "COUR" ∷ [])
          || (get_or t 0 nul == b'R'))

-- `_walk`
unfoldable pub walk : Bool → Action Bool
walk flags = do change (set_advance batter 1); plus_tail false &> slashes flags walk_flag
