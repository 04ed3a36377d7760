-- ===== src/Play/Progress/Rules.antt =====
-- Termination of cw/parse.py: the two measures, and one rule for each way to build an action.
use mlb_baseball.Prelude.{
  ℕ, ◌+◌, ◌≤◌, Bool, true, false, Option, [], ◌∷◌, length, ◌==◌, Text, if◌then◌else◌, arith,
}
use mlb_baseball.Play.Event.{EventData}
use mlb_baseball.Play.Cursor.{Parser, next_char, advance_cursor, write_token, write_char}
use mlb_baseball.Play.Monad.{
  Action, pure, raise, Exception, Run, Outcome, ok, raised, ◌>>=◌, symbol, read_parser, nextsym,
  token, set_token, put, read_event, change, try_change, try_read,
}

-- The characters behind the current one, and those with it
abbrev pub behind : Run → ℕ
behind r = length r.parser.rest

abbrev pub weight : Run → ℕ
weight r = behind r + (if r.parser.sym == 0 then 0 else 1)

abbrev pub IsGenuine : Exception → Type 0
IsGenuine Exception.index_error = Unit
IsGenuine Exception.unicode_error = Unit
IsGenuine Exception.out_of_fuel = ⊥

-- Where an action ends: at most `b` characters are left, or Python raises.
abbrev pub Within : {A : Type 0} → ℕ → Outcome A → Type 0
Within b (ok a r) = weight r ≤ b
Within b (raised x) = IsGenuine x

-- From at most `b` characters the action ends with at most `b`.
pub record Ends {A : Type 0} (b : ℕ) (m : Action A) : Type 0 where
  pub at : (r : Run) → weight r ≤ b → Within b (m r)

-- The action begins by reading on: the current character does not count.
pub record Reads {A : Type 0} (b : ℕ) (m : Action A) : Type 0 where
  pub at : (r : Run) → behind r ≤ b → Within b (m r)

pub Within-weaken : {A : Type 0} (b c : ℕ) (o : Outcome A) → b ≤ c → Within b o → Within c o
Within-weaken b c (ok a r) h w = omega arith
Within-weaken b c (raised x) h w = w

next_char_lem :
    (t : Text) → length (next_char t).1 + (if (next_char t).0 == 0 then 0 else 1) ≤ length t
unfolding next_char
next_char_lem [] = omega arith
next_char_lem (c ∷ t) = ground (arith, next_char_lem t)

module _ {A : Type 0} {b : ℕ} where
  pub Ends-Reads : {m : Action A} → Reads b m → Ends b m
  Ends-Reads h = record { at = λ r w. h.at r (omega arith) }

  pub Ends-pure : (a : A) → Ends b (pure a)
  unfolding pure
  Ends-pure a = record { at = λ r w. w }

  pub Ends-read_parser : (f : Parser → A) → Ends b (read_parser f)
  unfolding read_parser
  Ends-read_parser f = record { at = λ r w. w }

  pub Ends-read_event : (f : EventData → A) → Ends b (read_event f)
  unfolding read_event
  Ends-read_event f = record { at = λ r w. w }

  pub Ends-try_read : (f : EventData → Option A) → Ends b (try_read f)
  unfolding try_read
  Ends-try_read f = record { at = λ r w. ground arith }

  pub Ends-if : (t : Bool) {m n : Action A} → Ends b m → Ends b n → Ends b (if t then m else n)
  Ends-if true hm hn = hm
  Ends-if false hm hn = hn

  pub Reads-if : (t : Bool) {m n : Action A} → Reads b m → Reads b n → Reads b (if t then m else n)
  Reads-if true hm hn = hm
  Reads-if false hm hn = hn

  pub Ends-index_error : Ends b (raise {A = A} Exception.index_error)
  unfolding raise
  Ends-index_error = record { at = λ r w. tt }

module _ {b : ℕ} where
  pub Ends-symbol : Ends b symbol
  unfolding symbol
  Ends-symbol = record { at = λ r w. w }

  pub Ends-token : Ends b token
  unfolding token
  Ends-token = record { at = λ r w. w }

  pub Reads-nextsym : Reads b nextsym
  unfolding nextsym advance_cursor
  Reads-nextsym = record { at = λ r w. omega (arith, next_char_lem r.parser.rest) }

  pub Ends-nextsym : Ends b nextsym
  Ends-nextsym = Ends-Reads Reads-nextsym

  pub Ends-set_token : (t : Text) → Ends b (set_token t)
  unfolding set_token write_token
  Ends-set_token t = record { at = λ r w. ground arith }

  pub Ends-put : (n c : ℕ) → Ends b (put n c)
  unfolding put write_char
  Ends-put n c = record { at = λ r w. ground arith }

  pub Ends-change : (f : EventData → EventData) → Ends b (change f)
  unfolding change
  Ends-change f = record { at = λ r w. w }

  pub Ends-try_change : (f : EventData → Option EventData) → Ends b (try_change f)
  unfolding try_change
  Ends-try_change f = record { at = λ r w. ground arith }

module _ {A B : Type 0} {b : ℕ} where
  bind-Within :
      (o : Outcome A) (f : A → Action B)
      → ((a : A) → Ends b (f a))
      → Within b o
      → Within b (elim o [ ok a r ↦ f a r | raised x ↦ raised x ])
  bind-Within (ok a r) f hf w = (hf a).at r w
  bind-Within (raised x) f hf w = w

  pub Ends-bind :
      {m : Action A} {f : A → Action B} → Ends b m → ((a : A) → Ends b (f a)) → Ends b (m >>= f)
  unfolding ◌>>=◌
  Ends-bind {m} {f} hm hf = record { at = λ r w. bind-Within (m r) f hf (hm.at r w) }

  pub Reads-bind :
      {m : Action A} {f : A → Action B} → Reads b m → ((a : A) → Ends b (f a)) → Reads b (m >>= f)
  unfolding ◌>>=◌
  Reads-bind {m} {f} hm hf = record { at = λ r w. bind-Within (m r) f hf (hm.at r w) }
