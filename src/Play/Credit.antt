-- ===== src/Play/Credit.antt =====
-- cw/parse.py: fielding credits and single flags.
-- Loops count down on fuel; each call starts one with `fuel` (see `Play.Progress`).
use mlb_baseball.Prelude.{
  ℕ, zero, suc, ◌+◌, ◌-◌, Bool, true, false, ◌&&◌, ◌||◌, not, List, [], ◌∷◌, ◌++◌, length, ◌==◌,
  Text, codes, has_char, between, if◌then◌else◌, sub_ℕ,
}
use mlb_baseball.Play.Event.{Ev, is_ev, is_digit, is_fielder}
use mlb_baseball.Play.Cursor.{nul}
use mlb_baseball.Play.Monad.{
  Action, ⊤, pure, raise, Exception, ◌>>=◌, ◌>>◌, when, symbol, read_parser, nextsym, set_token,
  put, read_event, change, try_change,
}
use mlb_baseball.Play.Arrays.{add_error, add_assist, add_putout, touch}

-- Rounds for a loop that reads on: one for each character left, and two to stop.
unfoldable pub fuel : Action ℕ
fuel = read_parser (λ p. length p.rest + 2)

-- `ord(c) - ord("0")`, for a character that is not below '0'
abbrev pub digit : ℕ → ℕ
digit c = c - b'0'

-- `while "A" <= self.sym <= "Z": tok.append(self.sym); self.nextsym()`
module _ (again : Text → Action Text) where
  unfoldable pub primary_step : Text → Action Text
  primary_step tok = do
    c ← symbol
    if between b'A' b'Z' c then (do nextsym; again (tok ++ c ∷ [])) else pure tok

unfoldable pub primary_loop : ℕ → Text → Action Text
primary_loop zero = λ tok. raise Exception.out_of_fuel
primary_loop (suc n) = primary_step (primary_loop n)

unfoldable pub primary_event : Action ⊤
primary_event = do n ← fuel; tok ← primary_loop n []; set_token tok

-- `while _isfielder(p.sym) or p.sym == "0": p.nextsym()`
module _ (again : Action ⊤) where
  unfoldable pub fielders_step : Action ⊤
  fielders_step = do
    c ← symbol
    if is_fielder c || (c == b'0') then (do nextsym; again) else pure tt

unfoldable pub fielders_loop : ℕ → Action ⊤
fielders_loop zero = raise Exception.out_of_fuel
fielders_loop (suc n) = fielders_step (fielders_loop n)

unfoldable pub hit_fielder : Action ⊤
hit_fielder = do
  c ← symbol
  when (is_digit c) (change (λ e. record e { fielded_by = sub_ℕ c b'0' }))
  n ← fuel
  fielders_loop n

abbrev pub has : ℕ → List ℕ → Bool
has a [] = false
has a (b ∷ l) = (a == b) || has a l

-- `_dedupe_assists`; `seen` is `assists[:i]`
unfoldable pub dedupe_from : List ℕ → List ℕ → Action ⊤
dedupe_from seen [] = pure tt
dedupe_from seen (a ∷ l) = do
  when (not (has a seen)) (try_change (add_assist a))
  dedupe_from (seen ++ a ∷ []) l

unfoldable pub dedupe_assists : List ℕ → Action ⊤
dedupe_assists l = dedupe_from [] l

-- `assists.append(ord(c) - ord("0"))` if `c` is a digit
abbrev pub with_assist : ℕ → List ℕ → List ℕ
with_assist c l = if is_digit c then l ++ digit c ∷ [] else l

-- The error that ends a credit: "...En"
unfoldable pub credit_muff : ℕ → List ℕ → ℕ → Action Bool
credit_muff last assists n = do
  put n b'E'
  nextsym
  c ← symbol
  if not (is_digit c) then pure false else do
    try_change (add_error (digit c) b'D')
    put (n + 1) c
    put (n + 2) nul
    nextsym
    dedupe_assists (with_assist last assists)
    pure true

-- The `else` branch: the credit ends with a putout.
unfoldable pub credit_putout : ℕ → List ℕ → ℕ → Action Bool
credit_putout last assists n = do
  when (is_digit last) (do try_change (add_putout (digit last)); try_change (touch (digit last)))
  put n nul
  dedupe_assists assists
  pure false

-- The `while True` loop of `_fielding_credit`
module _ (again : ℕ → List ℕ → ℕ → Action Bool) where
  unfoldable pub credit_step : ℕ → List ℕ → ℕ → Action Bool
  credit_step last assists n = do
    nextsym
    c ← symbol
    if is_fielder c
        then (do
          when (is_digit last) (try_change (touch (digit last)))
          when (not (c == b'?')) (put n c)
          again c (with_assist last assists) (if c == b'?' then n else n + 1))
        else if c == b'E'
        then credit_muff last assists n
        else credit_putout last assists n

unfoldable pub credit_loop : ℕ → ℕ → List ℕ → ℕ → Action Bool
credit_loop zero = λ last assists n. raise Exception.out_of_fuel
credit_loop (suc f) = credit_step (credit_loop f)

-- The credit that begins with 'E': a plain error
unfoldable pub credit_error : Action Bool
credit_error = do
  nextsym
  c ← symbol
  if not (is_fielder c) then pure false else do
    interference ← read_event (λ e. is_ev e.event_type Ev.interference)
    when (is_digit c && not interference) (try_change (add_error (digit c) b'F'))
    put 0 b'E'
    put 1 c
    put 2 nul
    nextsym
    pure true

-- `_fielding_credit`
unfoldable pub fielding_credit : ℕ → Action Bool
fielding_credit prev = do
  c ← symbol
  if c == b'E' then credit_error else do
    let relayed = not (prev == b' ') && not (prev == c)
    when relayed (put 0 prev)
    let n = if relayed then 1 else 0
    put n c
    f ← fuel
    credit_loop f c (if relayed then digit prev ∷ [] else []) (n + 1)

-- `p.sym not in "/.()#!+-" and p.sym != NUL`
abbrev pub in_flag : ℕ → Bool
in_flag c = not (has_char c (codes "/.()#!+-")) && not (c == nul)

module _ (again : Text → Action Text) where
  unfoldable pub flag_step : Text → Action Text
  flag_step tok = do nextsym; c ← symbol; if in_flag c then again (tok ++ c ∷ []) else pure tok

unfoldable pub flag_loop : ℕ → Text → Action Text
flag_loop zero = λ tok. raise Exception.out_of_fuel
flag_loop (suc n) = flag_step (flag_loop n)

-- `_flag`
unfoldable pub flag : Action ⊤
flag = do n ← fuel; tok ← flag_loop n []; set_token tok
