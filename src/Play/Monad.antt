-- ===== src/Play/Monad.antt =====
-- The functions of cw/parse.py read and change one parser and one `EventData`, and may raise. A
-- call is an action on both; an exception ends the whole parse, so nothing of the state survives
-- it. A function that returns 0 for "invalid" and 1 otherwise is an `Action Bool`.
use mlb_baseball.Prelude.{ℕ, Bool, false, Option, none, some, Text, if◌then◌else◌}
use mlb_baseball.Play.Event.{EventData}
use mlb_baseball.Play.Cursor.{Parser, advance_cursor, token_of, write_token, write_char}

-- IndexError and UnicodeEncodeError are Python's; `out_of_fuel` marks a loop of the model that was
-- given too few rounds (see `Play.Progress`).
pub data Exception : Type 0 where
  index_error unicode_error out_of_fuel : Exception

pub record Run : Type 0 where
  pub parser : Parser
  pub event : EventData

pub data Outcome (A : Type 0) : Type 0 where
  ok : A → Run → Outcome A
  raised : Exception → Outcome A

abbrev pub Action : Type 0 → Type 0
Action A = Run → Outcome A

abbrev pub ⊤ : Type 0
⊤ = Unit

module _ {A : Type 0} where
  unfoldable pub pure : A → Action A
  pure a r = ok a r

  unfoldable pub raise : Exception → Action A
  raise x r = raised x

infixl 5 ◌>>=◌ ◌>>◌
-- opening this opens `pure` and `raise` too
unfoldable pub ◌>>=◌ : {A B : Type 0} → Action A → (A → Action B) → Action B
unfolding pure raise
◌>>=◌ m f r = elim (m r) [ ok a r' ↦ f a r' | raised x ↦ raised x ]

abbrev pub ◌>>◌ : {B : Type 0} → Action ⊤ → Action B → Action B
m >> k = m >>= λ _. k

-- `if not m: return 0`, then `k`
infixr 6 ◌&>◌
abbrev pub ◌&>◌ : Action Bool → Action Bool → Action Bool
m &> k = m >>= λ b. if b then k else pure false

-- `if b: m`
abbrev pub when : Bool → Action ⊤ → Action ⊤
when b m = if b then m else pure tt

-- Reads and writes of the cursor.
unfoldable pub symbol : Action ℕ
symbol r = ok r.parser.sym r

unfoldable pub read_parser : {A : Type 0} → (Parser → A) → Action A
read_parser f r = ok (f r.parser) r

unfoldable pub nextsym : Action ⊤
unfolding advance_cursor
nextsym r = ok tt (record r { parser = advance_cursor r.parser })

unfoldable pub token : Action Text
unfolding token_of
token r = ok (token_of r.parser) r

abbrev kept : Option Parser → Exception → Action ⊤
kept none x r = raised x
kept (some p) x r = ok tt (record r { parser = p })

unfoldable pub set_token : Text → Action ⊤
unfolding write_token
set_token t r = kept (write_token t r.parser) Exception.unicode_error r

unfoldable pub put : ℕ → ℕ → Action ⊤
unfolding write_char
put at c r = kept (write_char at c r.parser) Exception.index_error r

-- Reads and writes of the event.
unfoldable pub read_event : {A : Type 0} → (EventData → A) → Action A
read_event f r = ok (f r.event) r

unfoldable pub change : (EventData → EventData) → Action ⊤
change f r = ok tt (record r { event = f r.event })

abbrev pub stored : Option EventData → Action ⊤
stored none r = raised Exception.index_error
stored (some e) r = ok tt (record r { event = e })

-- A write to an array, or a read that may be out of range.
unfoldable pub try_change : (EventData → Option EventData) → Action ⊤
try_change f r = stored (f r.event) r

unfoldable pub try_read : {A : Type 0} → (EventData → Option A) → Action A
try_read f r = elim (f r.event) [ none ↦ raised Exception.index_error | some a ↦ ok a r ]
