-- ===== src/Play/Arrays.antt =====
-- The writes of cw/parse.py to the credit arrays of `EventData`. `none` is an IndexError.
use mlb_baseball.Prelude.{
  ℕ, zero, suc, ◌+◌, Option, none, some, List, ℤ, pos, ◌+ℤ◌, ◌-ℤ◌, eq_ℤ, ◌==◌, get_item, set_item,
  pos_part, if◌then◌else◌, not,
}
use mlb_baseball.Play.Event.{EventData}

infixl 5 ◌>>=◌
abbrev pub ◌>>=◌ : {A B : Type 0} → Option A → (A → Option B) → Option B
none >>= f = none
some a >>= f = f a

-- `e.errors[e.num_errors] = n; e.error_types[e.num_errors] = kind; e.num_errors += 1`
unfoldable pub add_error : ℕ → ℕ → EventData → Option EventData
add_error n kind e = do
  errors ← set_item e.errors (pos e.num_errors) n
  kinds ← set_item e.error_types (pos e.num_errors) kind
  some (record e { errors = errors; error_types = kinds; num_errors = e.num_errors + 1 })

-- `e.errors[e.num_errors] = n; e.num_errors += 1`
unfoldable pub add_untyped_error : ℕ → EventData → Option EventData
add_untyped_error n e = do
  errors ← set_item e.errors (pos e.num_errors) n
  some (record e { errors = errors; num_errors = e.num_errors + 1 })

-- `e.error_types[i] = kind`
unfoldable pub set_error_type : ℤ → ℕ → EventData → Option EventData
set_error_type i kind e = do
  kinds ← set_item e.error_types i kind
  some (record e { error_types = kinds })

-- `e.error_types[e.num_errors - 1] = kind`
unfoldable pub set_last_error_type : ℕ → EventData → Option EventData
unfolding set_error_type
set_last_error_type kind e = set_error_type (pos e.num_errors -ℤ pos 1) kind e

-- `if e.error_types[i] == "F": e.error_types[i] = "D"`
unfoldable pub soften_error : ℤ → EventData → Option EventData
unfolding set_error_type
soften_error i e = do
  kind ← get_item e.error_types i
  if kind == b'F' then set_error_type i b'D' e else some e

-- `e.assists[e.num_assists] = n; e.num_assists += 1`
unfoldable pub add_assist : ℕ → EventData → Option EventData
add_assist n e = do
  assists ← set_item e.assists (pos e.num_assists) n
  some (record e { assists = assists; num_assists = e.num_assists + 1 })

-- `e.putouts[e.num_putouts] = n; e.num_putouts += 1`
unfoldable pub add_putout : ℕ → EventData → Option EventData
add_putout n e = do
  putouts ← set_item e.putouts e.num_putouts n
  some (record e { putouts = putouts; num_putouts = e.num_putouts +ℤ pos 1 })

-- `e.touches[e.num_touches] = n; e.num_touches += 1`
unfoldable pub add_touch : ℕ → EventData → Option EventData
add_touch n e = do
  touches ← set_item e.touches e.num_touches n
  some (record e { touches = touches; num_touches = e.num_touches +ℤ pos 1 })

-- `_touch`
unfoldable pub touch : ℕ → EventData → Option EventData
unfolding add_touch
touch fielder e = if eq_ℤ e.num_touches (pos 0) then add_touch fielder e else do
  last ← get_item e.touches (e.num_touches -ℤ pos 1)
  if not (last == fielder) then add_touch fielder e else some e

-- `e.putouts[0] = e.putouts[1]; e.putouts[1] = e.putouts[2]; e.putouts[2] = 0;
-- e.num_putouts -= 1`
unfoldable pub drop_first_putout : EventData → Option EventData
drop_first_putout e = do
  second ← get_item e.putouts (pos 1)
  putouts ← set_item e.putouts (pos 0) second
  third ← get_item putouts (pos 2)
  putouts' ← set_item putouts (pos 1) third
  putouts'' ← set_item putouts' (pos 2) 0
  some (record e { putouts = putouts''; num_putouts = e.num_putouts -ℤ pos 1 })

-- `for i in range(rounds): xs[i] = xs[i + 1]`, from `i` on
unfoldable pub shift_down : ℕ → ℕ → List ℕ → Option (List ℕ)
shift_down zero i xs = some xs
shift_down (suc rounds) i xs = do
  next ← get_item xs (pos (i + 1))
  xs' ← set_item xs (pos i) next
  shift_down rounds (i + 1) xs'

-- `_drop_batter_putout`
unfoldable pub drop_batter_putout : EventData → Option EventData
unfolding drop_first_putout shift_down
drop_batter_putout e = do
  e' ← drop_first_putout e
  let count = e'.num_touches -ℤ pos 1
  touches ← shift_down (pos_part count) 0 e'.touches
  touches' ← set_item touches count 0
  some (record e' { touches = touches'; num_touches = count })
