-- ===== src/Play/Steals.antt =====
-- cw/parse.py: stolen bases and caught stealing.
use mlb_baseball.Prelude.{
  ℕ, zero, suc, ◌+◌, ◌-◌, Bool, true, false, ◌&&◌, not, Option, some, none, pos, ◌==◌, Text, one_of,
  between, if◌then◌else◌,
}
use mlb_baseball.Play.Bases.{Base, first, second, third, number, to_base, on, put_on}
use mlb_baseball.Play.Event.{EventData, set_play, is_fielder, is_alpha, throws}
use mlb_baseball.Play.Monad.{
  Action, pure, raise, Exception, ◌>>=◌, ◌>>◌, ◌&>◌, when, symbol, nextsym, token, read_event,
  change, try_change,
}
use mlb_baseball.Play.Arrays.{set_last_error_type, soften_error}
use mlb_baseball.Play.Credit.{fuel, primary_event, fielding_credit, flag}
use mlb_baseball.Play.Flags.{equals}
use mlb_baseball.Play.Advance.{set_advance}

-- `while flags and p.sym == "/": _flag(p); ...`, where `body` is what is done with the token, and
-- gives `false` where it returns 0.
module _ (body : Text → Action Bool) (again : Action Bool) where
  unfoldable pub slashes_step : Action Bool
  slashes_step = do
    c ← symbol
    if c == b'/' then (do flag; t ← token; body t &> again) else pure true

unfoldable pub slashes_loop : (Text → Action Bool) → ℕ → Action Bool
slashes_loop body zero = raise Exception.out_of_fuel
slashes_loop body (suc n) = slashes_step body (slashes_loop body n)

unfoldable pub slashes : Bool → (Text → Action Bool) → Action Bool
slashes flags body = if flags then (do n ← fuel; slashes_loop body n) else pure true

-- Flags that are accepted silently, and those of which only /DP counts
abbrev pub ignore_flag : Text → Action Bool
ignore_flag t = pure true

abbrev pub set_dp : EventData → EventData
set_dp e = record e { dp_flag = true }

abbrev pub note_dp : Text → Action Bool
note_dp t = do when (equals t "DP") (change set_dp); pure true

-- `_stolen_base` and `_caught_stealing` call one another.
pub data Steal : Type 0 where
  stolen caught : Steal

unfoldable pub mark_steal : Base → ℕ → EventData → EventData
mark_steal b to e = set_advance b to (record e { sb_flag = put_on e.sb_flag b true })

-- The archaic SBH(UR) or SBH(TUR)
unfoldable pub unearned_steal : Action Bool
unearned_steal = do
  c ← symbol
  if not (c == b'(') then pure true else do
    change (set_advance third 5)
    nextsym
    d ← symbol
    when (d == b'T') (do change (set_advance third 6); nextsym)
    u ← symbol
    if not (u == b'U') then pure false else do
      nextsym
      r ← symbol
      if not (r == b'R')
          then pure false
          else do nextsym; k ← symbol; if not (k == b')') then pure false else do nextsym; pure true

unfoldable pub steal_base : Action Bool
steal_base = do
  c ← symbol
  if c == b'2'
      then (do change (mark_steal first 2); nextsym; pure true)
      else if c == b'3'
      then (do change (mark_steal second 3); nextsym; pure true)
      else if c == b'4'
      then (do change (mark_steal third 4); nextsym; unearned_steal)
      else pure false

-- The second play behind a ';', whose own result is not looked at
unfoldable pub second_steal : (Steal → Action Bool) → Action Bool
second_steal again = do
  c ← symbol
  if not (c == b';') then pure true else do
    nextsym
    primary_event
    t ← token
    if equals t "SB"
        then (do _ ← again Steal.stolen; pure true)
        else if equals t "CS"
        then (do _ ← again Steal.caught; pure true)
        else pure false

-- `_cs_error_credit`
unfoldable pub cs_error_credit : Action Bool
cs_error_credit = do
  c ← symbol
  if not (c == b'/') then pure true else do
    flag
    t ← token
    if one_of t throws
        then (do try_change (set_last_error_type b'T'); pure true)
        else pure (equals t "INT")

unfoldable pub cs_safe : Base → EventData → EventData
cs_safe runner e =
    set_advance runner (number runner + 1) (record e { muff_flag = put_on e.muff_flag runner true })

-- (UR) and (TUR) behind a runner who scored
unfoldable pub cs_unearned : Base → Action Bool
cs_unearned runner = do
  primary_event
  t ← token
  to ← read_event (λ e. on e.advance runner)
  if equals t "UR" && (to == 4)
      then (do change (set_advance runner 5); c ← symbol; pure (c == b')'))
      else if equals t "TUR" && (to == 4)
      then (do change (set_advance runner 6); c ← symbol; pure (c == b')'))
      else pure false

-- The body of `while p.nextsym() == "("`
unfoldable pub cs_credit : Base → Action Bool
cs_credit runner = do
  c ← symbol
  if is_fielder c
      then (do
        safe ← fielding_credit b' '
        when safe (change (cs_safe runner))
        t ← token
        change (set_play runner t)
        if safe then cs_error_credit else pure true)
      else if c == b'E'
      then (do
        _ ← fielding_credit b' '
        change (cs_safe runner)
        t ← token
        change (set_play runner t)
        cs_error_credit)
      else if is_alpha c
      then cs_unearned runner
      else pure true

module _ (runner : Base) (again : Action Bool) where
  unfoldable pub cs_step : Action Bool
  cs_step = do
    nextsym
    c ← symbol
    if c == b'(' then (do nextsym; cs_credit runner &> again) else pure true

unfoldable pub cs_loop : Base → ℕ → Action Bool
cs_loop runner zero = raise Exception.out_of_fuel
cs_loop runner (suc n) = cs_step runner (cs_loop runner n)

-- `for _ in range(e.num_errors): ...`, on the first error each time
unfoldable pub soften_rounds : ℕ → EventData → Option EventData
unfolding soften_error
soften_rounds zero e = some e
soften_rounds (suc n) e = elim (soften_error (pos 0) e) [
  | none ↦ none
  | some e' ↦ soften_rounds n e'
]

module _ (again : Steal → Action Bool) where
  unfoldable pub steal_step : Steal → Bool → Action Bool
  steal_step Steal.stolen flags = steal_base &> second_steal again &> slashes flags ignore_flag
  steal_step Steal.caught flags = do
    c ← symbol
    if not (between b'2' b'4' c) then pure false else do
      let runner = to_base (c - b'1')
      change (λ e. record e { cs_flag = put_on e.cs_flag runner true })
      n ← fuel
      cs_loop runner n
          &> second_steal again
          &> slashes flags note_dp
          &> (do try_change (λ e. soften_rounds e.num_errors e); pure true)

unfoldable pub steal_loop : ℕ → Steal → Bool → Action Bool
steal_loop zero kind flags = raise Exception.out_of_fuel
steal_loop (suc n) kind flags = steal_step (λ k. steal_loop n k false) kind flags

-- `_stolen_base`, `_pickoff_stolen_base`
unfoldable pub stolen_base : Bool → Action Bool
stolen_base flags = do n ← fuel; steal_loop n Steal.stolen flags

-- `_caught_stealing`
unfoldable pub caught_stealing : Bool → Action Bool
caught_stealing flags = do n ← fuel; steal_loop n Steal.caught flags
