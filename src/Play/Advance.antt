-- ===== src/Play/Advance.antt =====
-- cw/parse.py: the advances behind the '.', with their modifiers.
use mlb_baseball.Prelude.{
  ℕ, zero, suc, Bool, true, false, ◌&&◌, ◌||◌, not, [], ◌∷◌, ℤ, pos, negsuc, ltb, leb, eq_ℤ, ◌==◌,
  Text, codes, one_of, between, get_or, if◌then◌else◌,
}
use mlb_baseball.Play.Bases.{Base, batter, first, second, third, number, to_base, on, put_on}
use mlb_baseball.Play.Event.{EventData, Ev, is_ev, is_batter, set_play, is_fielder, throws}
use mlb_baseball.Play.Cursor.{nul}
use mlb_baseball.Play.Monad.{
  Action, ⊤, pure, raise, Exception, ◌>>=◌, ◌>>◌, ◌&>◌, when, symbol, nextsym, token, read_event,
  change, try_change,
}
use mlb_baseball.Play.Arrays.{drop_batter_putout, set_last_error_type}
use mlb_baseball.Play.Credit.{fuel, digit, primary_event, fielding_credit, flag}
use mlb_baseball.Play.Flags.{equals}

-- `for i in range(base_from, -1, -1): e.rbi_flag[i] = -1`
abbrev pub forbid_rbi : Base → EventData → EventData
forbid_rbi batter e = record e { rbi_flag = put_on e.rbi_flag batter (negsuc 0) }
forbid_rbi first e = record e {
  rbi_flag = put_on (put_on e.rbi_flag first (negsuc 0)) batter (negsuc 0);
}
forbid_rbi second e = record e {
  rbi_flag =
      put_on (put_on (put_on e.rbi_flag second (negsuc 0)) first (negsuc 0)) batter (negsuc 0);
}
forbid_rbi third e = record e {
  rbi_flag = record {
    at_batter = negsuc 0;
    at_first = negsuc 0;
    at_second = negsuc 0;
    at_third = negsuc 0;
  };
}

abbrev pub set_advance : Base → ℕ → EventData → EventData
set_advance b to e = record e { advance = put_on e.advance b to }

abbrev pub set_rbi : Base → ℤ → EventData → EventData
set_rbi b n e = record e { rbi_flag = put_on e.rbi_flag b n }

abbrev pub is_plate : Base → Bool
is_plate batter = true
is_plate first = false
is_plate second = false
is_plate third = false

-- The error of a runner who was out before it
unfoldable pub mark_muff : Base → ℕ → EventData → EventData
mark_muff from to e = record e {
  muff_flag = put_on e.muff_flag from true;
  advance = if ltb (on e.advance from) 5 then put_on e.advance from to else e.advance;
}

-- The implied putout of a strikeout goes when the batter is listed in the advancement.
unfoldable pub drop_strikeout_putout : Base → Action ⊤
drop_strikeout_putout from = do
  strikeout ← read_event (λ e. is_ev e.event_type Ev.strikeout)
  when (is_plate from && strikeout) (try_change drop_batter_putout)

unfoldable pub charge_advance_error : Bool → Base → ℕ → Action ⊤
charge_advance_error safe from to =
    when (not safe)
      (do change (mark_muff from to); drop_strikeout_putout from; change (forbid_rbi from))

-- `while p.sym != ")" and p.sym != NUL: p.nextsym()`
module _ (again : Action ⊤) where
  unfoldable pub skip_step : Action ⊤
  skip_step = do
    c ← symbol
    if not (c == b')') && not (c == nul) then (do nextsym; again) else pure tt

unfoldable pub skip_loop : ℕ → Action ⊤
skip_loop zero = raise Exception.out_of_fuel
skip_loop (suc n) = skip_step (skip_loop n)

-- The last lines of `_advance_modifier`
unfoldable pub close_paren : Action Bool
close_paren = do c ← symbol; if c == b')' then (do nextsym; pure true) else pure false

-- The flag behind a credit in an advance
unfoldable pub advance_flag : Bool → Action Bool
advance_flag is_error = do
  c ← symbol
  if not (c == b'/') then pure true else do
    flag
    t ← token
    if one_of t throws
        then (do when is_error (try_change (set_last_error_type b'T')); pure true)
        else pure (
            one_of t (
              codes "INT"
              ∷ codes "BINT"
              ∷ codes "OBS"
              ∷ codes "G"
              ∷ codes "U"
              ∷ codes "AP"
              ∷ codes "BR"
              ∷ codes "FO"
              ∷ []))

-- A modifier that is a word
unfoldable pub word_modifier : Base → Text → Action Bool
word_modifier from t = do
  to ← read_event (λ e. on e.advance from)
  c ← symbol
  if one_of t (codes "NR" ∷ codes "NORBI" ∷ [])
      then (do change (set_rbi from (pos 0)); pure true)
      else if equals t "RBI" && leb 4 to
      then (do change (set_rbi from (pos 2)); pure true)
      else if equals t "UR"
      then (do change (set_advance from 5); pure true)
      else if equals t "TUR"
      then (do change (set_advance from 6); pure true)
      else if equals t "WP"
      then (do change (λ e. set_rbi from (pos 0) (record e { wp_flag = true })); pure true)
      else if equals t "PB"
      then (do change (λ e. set_rbi from (pos 0) (record e { pb_flag = true })); pure true)
      else if equals t "TH"
      then (do when (between b'1' b'3' c) nextsym; pure true)
      else pure (one_of t (codes "THH" ∷ codes "INT" ∷ []))

-- `_advance_modifier`; `again` is its call of itself, at the same runner.
module _ (from : Base) (to : ℕ) (again : Bool → Action Bool) where
  unfoldable pub modifier_step : Bool → Action Bool
  modifier_step safe = do
    c ← symbol
    if is_fielder c || (c == b'E')
        then (do
          muffed ← fielding_credit b' '
          if muffed then charge_advance_error safe from to else drop_strikeout_putout from
          t ← token
          if get_or t 0 nul == b'E' then change (forbid_rbi from) else change (set_play from t)
          advance_flag (muffed || (c == b'E')) &> (do
            d ← symbol
            (if d == b'(' then (do nextsym; again (safe || muffed)) else pure true)
                &> (do n ← fuel; skip_loop n; close_paren)))
        else (do primary_event; t ← token; word_modifier from t &> close_paren)

unfoldable pub modifier_loop : Base → ℕ → ℕ → Bool → Action Bool
modifier_loop from to zero = λ safe. raise Exception.out_of_fuel
modifier_loop from to (suc n) = modifier_step from to (modifier_loop from to n)

unfoldable pub advance_modifier : Bool → Base → ℕ → Action Bool
advance_modifier safe from to = do n ← fuel; modifier_loop from to n safe

-- `while p.sym == "(": p.nextsym(); if not _advance_modifier(...): return 0`
module _ (safe : Bool) (from : Base) (to : ℕ) (again : Action Bool) where
  unfoldable pub modifiers_step : Action Bool
  modifiers_step = do
    c ← symbol
    if c == b'(' then (do nextsym; advance_modifier safe from to &> again) else pure true

unfoldable pub modifiers_loop : Bool → Base → ℕ → ℕ → Action Bool
modifiers_loop safe from to zero = raise Exception.out_of_fuel
modifiers_loop safe from to (suc n) = modifiers_step safe from to (modifiers_loop safe from to n)

-- The event of a runner who is safe at `to`
unfoldable pub safe_advance : Base → ℕ → EventData → EventData
unfolding is_batter is_ev
safe_advance from to e =
    let e' = if ltb to 4 || ltb (on e.advance from) 4 then set_advance from to e else e in
    if (to == 4)
      && is_batter e'
      && not e'.gdp_flag
      && (not (is_ev e'.event_type Ev.error) || (number from == 3))
      && not (is_ev e'.event_type Ev.strikeout)
      && not (eq_ℤ (on e'.rbi_flag from) (negsuc 0))
    then set_rbi from (pos 1) e'
    else e'

-- The event of a runner who is out
unfoldable pub out_advance : Base → EventData → EventData
unfolding is_ev
out_advance from e =
    let e' = set_advance from 0 e in
    if is_ev e'.event_type Ev.fielders_choice
    then record e' { fc_flag = put_on e'.fc_flag from true }
    else e'

-- `_runner_advance`
unfoldable pub runner_advance : Action Bool
runner_advance = do
  c ← symbol
  if not (between b'1' b'3' c) && not (c == b'B') then pure false else do
    let from = if c == b'B' then batter else to_base (digit c)
    nextsym
    d ← symbol
    if not (d == b'-') && not (d == b'X') then pure false else do
      let safe = d == b'-'
      nextsym
      h ← symbol
      if not (between b'1' b'3' h) && not (h == b'H') then pure false else do
        let to = if h == b'H' then 4 else digit h
        change (if safe then safe_advance from to else out_advance from)
        nextsym
        n ← fuel
        modifiers_loop safe from to n

-- `_advancement`
module _ (again : Action Bool) where
  unfoldable pub advancement_step : Action Bool
  advancement_step = do
    nextsym
    runner_advance &> (do c ← symbol; if c == b';' then again else pure (c == nul))

unfoldable pub advancement_loop : ℕ → Action Bool
advancement_loop zero = raise Exception.out_of_fuel
advancement_loop (suc n) = advancement_step (advancement_loop n)

unfoldable pub advancement : Action Bool
advancement = do n ← fuel; advancement_loop n
