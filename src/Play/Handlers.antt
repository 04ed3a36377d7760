-- ===== src/Play/Handlers.antt =====
-- cw/parse.py: the handlers of the primary events.
use mlb_baseball.Prelude.{
  ℕ, zero, suc, ◌+◌, Bool, true, false, ◌&&◌, ◌||◌, not, Option, some, none, [], ◌∷◌, pos, ltb, leb,
  ◌==◌, Text, codes, one_of, has_char, contains, between, length, get_or, last?, sub_ℕ,
  if◌then◌else◌,
}
use mlb_baseball.Play.Bases.{Base, batter, first, second, third, number, to_base, put_on}
use mlb_baseball.Play.Event.{EventData, set_play, is_digit, is_fielder}
use mlb_baseball.Play.Cursor.{nul, peek}
use mlb_baseball.Play.Monad.{
  Action, ⊤, pure, raise, Exception, ◌>>=◌, ◌>>◌, ◌&>◌, when, symbol, read_parser, nextsym, token,
  read_event, change, try_change,
}
use mlb_baseball.Play.Arrays.{add_error, add_untyped_error, add_assist, set_error_type}
use mlb_baseball.Play.Location.{is_location, hit_description}
use mlb_baseball.Play.Credit.{fuel, digit, fielding_credit}
use mlb_baseball.Play.Flags.{equals, all_flags}
use mlb_baseball.Play.Advance.{set_advance}
use mlb_baseball.Play.Steals.{slashes, ignore_flag}

-- `if flags and p.sym == "/": _flags(p, e)`, then `return 1`
unfoldable pub closing_flags : Bool → Action Bool
closing_flags flags = do c ← symbol; when (flags && (c == b'/')) all_flags; pure true

-- `if p.sym == c: p.nextsym()`
unfoldable pub skip_char : ℕ → Action ⊤
skip_char k = do c ← symbol; when (c == k) nextsym

-- `_balk`
unfoldable pub balk : Bool → Action Bool
balk flags = slashes flags ignore_flag

abbrev set_trajectory : ℕ → EventData → EventData
set_trajectory c e = record e { batted_ball_type = c }

-- `_safe_on_error`
unfoldable pub safe_on_error : Bool → Action Bool
safe_on_error flags = do
  change (set_advance batter 1)
  c ← symbol
  if not (is_digit c) then pure false else do
    try_change (add_error (digit c) b'F')
    change (λ e. record e {
      fielded_by = pos (digit c);
      batted_ball_type = if leb c b'6' then b'G' else b'F';
    })
    nextsym
    skip_char b'?'
    closing_flags flags

-- `_fielders_choice`
unfoldable pub fielders_choice : Bool → Action Bool
fielders_choice flags = do
  change (λ e. set_trajectory b'G' (set_advance batter 1 e))
  c ← symbol
  if between b'1' b'9' c
      then (do change (λ e. record e { fielded_by = pos (digit c) }); nextsym)
      else when (c == b'?') nextsym
  closing_flags flags

-- `_foul_error`
unfoldable pub foul_error : Bool → Action Bool
foul_error flags = do
  c ← symbol
  if not (between b'1' b'9' c) then pure false else do
    try_change (add_error (digit c) b'F')
    change (λ e. record e { fielded_by = pos (digit c) })
    nextsym
    closing_flags flags

-- `_out_base`; `none` is -1.
unfoldable pub out_base : Action (Option Base)
out_base = do
  nextsym
  c ← symbol
  if not (between b'1' b'3' c) && not (c == b'B') then pure none else do
    nextsym
    d ← symbol
    if not (d == b')')
        then pure none
        else do nextsym; pure (some (if c == b'B' then batter else to_base (digit c)))

-- The credit of a runner who is named in parentheses
unfoldable pub out_at : Base → Bool → Text → EventData → EventData
out_at base safe t e = set_play base t (record e {
  advance = put_on e.advance base (if safe then number base + 1 else 0);
  muff_flag = if safe then put_on e.muff_flag base true else e.muff_flag;
  fc_flag = put_on e.fc_flag base true;
  batted_ball_type =
      if not (e.batted_ball_type == b' ')
      then e.batted_ball_type
      else if ltb 1 (length t) || ltb 0 (number base)
      then b'G'
      else if (length t == 1) && (number base == 0)
      then b'F'
      else e.batted_ball_type;
})

-- The credit of the batter, which ends the loop
unfoldable pub out_batter : Bool → ℕ → Text → EventData → EventData
out_batter safe last t e = record (set_play batter t e) {
  batted_ball_type = if ltb 1 (length t) || not (last == b' ') then b'G' else b'F';
  advance = put_on e.advance batter (if safe then 1 else 0);
  muff_flag = if safe then put_on e.muff_flag batter true else e.muff_flag;
}

-- `force_play` is 1, 0 or -1 in the source: `some true`, `some false`, `none`.
abbrev note_force : Base → Option Bool → Option Bool
note_force base (some force) = some force
note_force base none = some (ltb 0 (number base))

unfoldable pub or_raise : Option ℕ → Action ℕ
or_raise none = raise Exception.index_error
or_raise (some c) = pure c

-- The loop of `_generic_out`; the outer `none` is its `return 0`.
module _ (again : ℕ → Option Bool → Action (Option (Option Bool))) where
  unfoldable pub outs_step : ℕ → Option Bool → Action (Option (Option Bool))
  outs_step last force = do
    c ← symbol
    if not (is_fielder c) then pure (some force) else do
      safe ← fielding_credit last
      d ← symbol
      if d == b'('
          then (do
            o ← out_base
            elim o [
              | none ↦ pure none
              | some base ↦ (do
                t ← token
                change (out_at base safe t)
                last' ← or_raise (last? t)
                again last' (note_force base force))
            ])
          else (do t ← token; change (out_batter safe last t); pure (some force))

unfoldable pub outs_loop : ℕ → ℕ → Option Bool → Action (Option (Option Bool))
outs_loop zero = λ last force. raise Exception.out_of_fuel
outs_loop (suc n) = outs_step (outs_loop n)

abbrev clear_fc : EventData → EventData
clear_fc e = record e {
  fc_flag = put_on (put_on (put_on e.fc_flag first false) second false) third false;
}

-- Rule 10.18(g): a caught ball hands no responsibility on, except in a reverse-force double play.
abbrev caught_ball : Option Bool → Bool
caught_ball none = false
caught_ball (some force) = not force

unfoldable pub finish_outs : Bool → Option Bool → Action Bool
finish_outs flags force = do
  c ← symbol
  when (has_char c (codes "+-")) nextsym
  _ ← closing_flags flags
  gdp ← read_parser (λ p. contains p.s (codes "/GDP"))
  when (caught_ball force && not gdp) (change clear_fc)
  pure true

-- `_generic_out`
unfoldable pub generic_out : Bool → Action Bool
generic_out flags = do
  c ← symbol
  next ← read_parser peek
  when (not (c == b'?') && (not (c == b'9') || not (next == b'9')))
      (change (λ e. record e { fielded_by = sub_ℕ c b'0' }))
  change (set_advance batter 1)
  n ← fuel
  o ← outs_loop n b' ' none
  elim o [ none ↦ pure false | some force ↦ finish_outs flags force ]

-- `_hit_by_pitch`
unfoldable pub hit_by_pitch : Bool → Action Bool
hit_by_pitch flags = do change (set_advance batter 1); slashes flags ignore_flag

-- One flag of `_interference`
unfoldable pub interference_flag : Text → Action Bool
unfolding is_location hit_description
interference_flag t = do
  errors ← read_event (λ e. e.num_errors)
  if (get_or t 0 nul == b'E') && ltb 0 errors
      then pure false
      else if one_of t (codes "E1" ∷ codes "E2" ∷ codes "E3" ∷ codes "E4" ∷ codes "E6" ∷ [])
      then (do try_change (add_untyped_error (digit (get_or t 1 nul))); pure true)
      else if equals t "4E1"
      then (do try_change (add_untyped_error 1); try_change (add_assist 4); pure true)
      else if equals t "INT"
      then pure true
      else if equals t "G"
      then (do change (set_trajectory b'G'); pure true)
      else if leb 2 (length t)
      then (do change (hit_description t); pure true)
      else if is_location t
      then (do change (λ e. record e { hit_location = t }); pure true)
      else pure true

-- `_interference`, which reads its flags whatever `flags` is
unfoldable pub interference : Bool → Action Bool
interference flags = do
  change (set_advance batter 1)
  slashes true interference_flag &> (do
    errors ← read_event (λ e. e.num_errors)
    when (errors == 0) (try_change (add_untyped_error 2))
    try_change (set_error_type (pos 0) b'F')
    pure true)
