-- ===== src/Play/Pickoffs.antt =====
-- cw/parse.py: pickoffs.
use mlb_baseball.Prelude.{
  ◌-◌, Bool, true, false, ◌&&◌, ◌||◌, not, pos, ◌-ℤ◌, ◌==◌, one_of, between, get_item,
  if◌then◌else◌,
}
use mlb_baseball.Play.Bases.{Base, to_base, put_on}
use mlb_baseball.Play.Event.{EventData, set_play, is_fielder, throws}
use mlb_baseball.Play.Monad.{
  Action, pure, ◌>>=◌, ◌>>◌, ◌&>◌, when, symbol, nextsym, token, read_event, change, try_change,
  try_read,
}
use mlb_baseball.Play.Arrays.{set_error_type}
use mlb_baseball.Play.Credit.{digit, fielding_credit, flag}
use mlb_baseball.Play.Flags.{all_flags}
use mlb_baseball.Play.Steals.{caught_stealing}

abbrev pub set_po : Base → EventData → EventData
set_po b e = record e { po_flag = put_on e.po_flag b true }

-- `_pickoff_caught_stealing`
unfoldable pub pickoff_caught_stealing : Bool → Action Bool
pickoff_caught_stealing flags = do
  c ← symbol
  when (between b'1' b'4' c) (change (set_po (to_base (c - b'1'))))
  caught_stealing flags

-- The type of the error in a pickoff that begins with 'E'
unfoldable pub pickoff_error : Action Bool
pickoff_error = do
  n ← read_event (λ e. pos e.num_errors -ℤ pos 1)
  c ← symbol
  if c == b'/'
      then (do
        flag
        t ← token
        if one_of t throws then (do try_change (set_error_type n b'T'); pure true) else pure false)
      else (do
        fielder ← try_read (λ e. get_item e.errors n)
        kind ← try_read (λ e. get_item e.error_types n)
        try_change (
            set_error_type n
              (if ((fielder == 1) || (fielder == 2)) && (kind == b'F') then b'T' else b'D'))
        pure true)

-- `_pickoff`
unfoldable pub pickoff_credit : Base → Action Bool
pickoff_credit runner = do
  c ← symbol
  if is_fielder c
      then (do _ ← fielding_credit b' '; t ← token; change (set_play runner t); pure true)
      else if c == b'E'
      then (do _ ← fielding_credit b' '; t ← token; change (set_play runner t); pickoff_error)
      else pure false

unfoldable pub pickoff : Bool → Action Bool
pickoff flags = do
  c ← symbol
  if not (between b'1' b'3' c) then pure false else do
    let runner = to_base (digit c)
    change (set_po runner)
    nextsym
    d ← symbol
    if not (d == b'(') then pure false else do
      nextsym
      pickoff_credit runner &> (do
        k ← symbol
        if not (k == b')')
            then pure false
            else do nextsym; s ← symbol; when (flags && (s == b'/')) all_flags; pure true)
