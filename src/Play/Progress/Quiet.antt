-- ===== src/Play/Progress/Quiet.antt =====
-- Termination of cw/parse.py: actions that read nothing, and the rules for loops that read on.
use mlb_baseball.Prelude.{
  ℕ, zero, suc, ◌+◌, ◌-◌, ◌≤◌, ◌<◌, ◌≡◌, refl, Bool, true, false, Option, if◌then◌else◌, arith,
}
use mlb_baseball.Play.Event.{EventData}
use mlb_baseball.Play.Cursor.{write_char}
use mlb_baseball.Play.Monad.{
  Action, ⊤, pure, Run, Outcome, ok, raised, ◌>>=◌, ◌&>◌, symbol, read_parser, nextsym, put,
  try_change,
}
use mlb_baseball.Play.Credit.{fuel}
use mlb_baseball.Play.Progress.Rules.{
  behind, weight, IsGenuine, Within, Ends, Reads, Within-weaken, Ends-pure, Ends-read_parser,
  Ends-read_event, Ends-try_read, Ends-if, Ends-index_error, Ends-symbol, Ends-token, Reads-nextsym,
  Ends-nextsym, Ends-set_token, Ends-put, Ends-change, Ends-try_change, Ends-bind, Reads-bind,
}

-- An action that leaves the cursor alone
abbrev pub Still : {A : Type 0} → ℕ → Outcome A → Type 0
Still n (ok a r) = behind r ≤ n
Still n (raised x) = IsGenuine x

pub record Quiet {A : Type 0} (m : Action A) : Type 0 where
  pub at : (r : Run) → Still (behind r) (m r)

pub Quiet-symbol : Quiet symbol
unfolding symbol
Quiet-symbol = record { at = λ r. omega arith }

pub Quiet-put : (n c : ℕ) → Quiet (put n c)
unfolding put write_char
Quiet-put n c = record { at = λ r. ground arith }

pub Quiet-try_change : (f : EventData → Option EventData) → Quiet (try_change f)
unfolding try_change
Quiet-try_change f = record { at = λ r. ground arith }

pub Quiet-pure : {A : Type 0} (a : A) → Quiet (pure a)
unfolding pure
Quiet-pure a = record { at = λ r. omega arith }

pub Quiet-if :
    {A : Type 0} (t : Bool) {m n : Action A} → Quiet m → Quiet n → Quiet (if t then m else n)
Quiet-if true hm hn = hm
Quiet-if false hm hn = hn

module _ {A B : Type 0} {b : ℕ} where
  Still-Within :
      (n : ℕ) (o : Outcome A) (f : A → Action B)
      → ((a : A) → Reads b (f a))
      → n ≤ b
      → Still n o
      → Within b (elim o [ ok a r ↦ f a r | raised x ↦ raised x ])
  Still-Within n (ok a r) f hf le h = (hf a).at r (omega arith)
  Still-Within n (raised x) f hf le h = h

  pub Reads-Quiet :
      {m : Action A} {f : A → Action B} → Quiet m → ((a : A) → Reads b (f a)) → Reads b (m >>= f)
  unfolding ◌>>=◌
  Reads-Quiet {m} {f} hm hf = record { at = λ r w. Still-Within (behind r) (m r) f hf w (hm.at r) }

passes_pos : (t : ℕ → Bool) (k : ℕ) → t 0 ≡ false → t k ≡ true → 0 < k
passes_pos t zero e h = cc
passes_pos t (suc k) e h = omega arith

fails_pos : (t : ℕ → Bool) (k : ℕ) → t 0 ≡ true → t k ≡ false → 0 < k
fails_pos t zero e h = cc
fails_pos t (suc k) e h = omega arith

module _ {B : Type 0} {b : ℕ} where
  pub Reads-nextsym_bind : {f : ⊤ → Action B} → ((a : ⊤) → Ends b (f a)) → Reads b (nextsym >>= f)
  Reads-nextsym_bind {f} hf = Reads-bind Reads-nextsym hf

  -- A loop is started with more fuel than there are characters.
  pub Ends-fuel :
      {f : ℕ → Action B} → ((n c : ℕ) → c < n → c ≤ b → Ends c (f n)) → Ends b (fuel >>= f)
  unfolding ◌>>=◌ fuel read_parser
  Ends-fuel {f} hf = record {
    at = λ r w.
        Within-weaken (weight r) b (f (behind r + 2) r) w
          ((hf (behind r + 2) (weight r) (ground arith) w).at r (omega arith));
  }

  pub Reads-fuel :
      {f : ℕ → Action B} → ((n c : ℕ) → c < n → c ≤ b → Reads c (f n)) → Reads b (fuel >>= f)
  unfolding ◌>>=◌ fuel read_parser
  Reads-fuel {f} hf = record {
    at = λ r w.
        Within-weaken (behind r) b (f (behind r + 2) r) w
          ((hf (behind r + 2) (behind r) (omega arith) w).at r (omega arith));
  }

  -- A test that the end of the text fails: in its branch a character is left to read.
  pub Ends-test :
      (t : ℕ → Bool) {X Y : ℕ → Action B}
      → t 0 ≡ false
      → ((a c : ℕ) → b ≡ suc c → Reads c (X a))
      → ((a : ℕ) → Ends b (Y a))
      → Ends b (symbol >>= λ a. if t a then X a else Y a)
  unfolding ◌>>=◌ symbol
  Ends-test t {X} {Y} t0 hx hy = record {
    at = λ r w.
        let k = r.parser.sym in
        branch r k (t k) (λ e. let p : 0 < k = passes_pos t k t0 e in ground arith) w;
  }
    where
      branch :
          (r : Run) (k : ℕ) (v : Bool)
          → (v ≡ true → suc (behind r) ≤ b)
          → weight r ≤ b
          → Within b ((if v then X k else Y k) r)
      branch r k true some_left w =
          let p : suc (behind r) ≤ b = some_left refl in
          Within-weaken (b - 1) b (X k r) (omega arith)
            ((hx k (b - 1) (omega arith)).at r (omega arith))
      branch r k false some_left w = (hy k).at r w

  -- The same for a test that the end of the text passes.
  pub Ends-unless :
      (t : ℕ → Bool) {X Y : ℕ → Action B}
      → t 0 ≡ true
      → ((a c : ℕ) → b ≡ suc c → Reads c (X a))
      → ((a : ℕ) → Ends b (Y a))
      → Ends b (symbol >>= λ a. if t a then Y a else X a)
  unfolding ◌>>=◌ symbol
  Ends-unless t {X} {Y} t0 hx hy = record {
    at = λ r w.
        let k = r.parser.sym in
        branch r k (t k) (λ e. let p : 0 < k = fails_pos t k t0 e in ground arith) w;
  }
    where
      branch :
          (r : Run) (k : ℕ) (v : Bool)
          → (v ≡ false → suc (behind r) ≤ b)
          → weight r ≤ b
          → Within b ((if v then Y k else X k) r)
      branch r k false some_left w =
          let p : suc (behind r) ≤ b = some_left refl in
          Within-weaken (b - 1) b (X k r) (omega arith)
            ((hx k (b - 1) (omega arith)).at r (omega arith))
      branch r k true some_left w = (hy k).at r w

pub Ends-and : {b : ℕ} {m k : Action Bool} → Ends b m → Ends b k → Ends b (m &> k)
Ends-and hm hk = Ends-bind hm (λ fine. Ends-if fine hk (Ends-pure _))

pub ruleset ends_rules = (
  Ends-pure, Ends-read_parser, Ends-read_event, Ends-try_read, Ends-if, Ends-index_error,
  Ends-symbol, Ends-token, Ends-nextsym, Ends-set_token, Ends-put, Ends-change, Ends-try_change,
  Ends-bind, Ends-and,
)
