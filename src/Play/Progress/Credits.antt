-- ===== src/Play/Progress/Credits.antt =====
-- Termination of cw/parse.py: fielding credits and flags.
use mlb_baseball.Prelude.{
  ℕ, zero, suc, ◌<◌, ◌≡◌, refl, ◌||◌, ◌==◌, between, has_char, List, [], ◌∷◌, Text, arith,
}
use mlb_baseball.Play.Event.{is_fielder}
use mlb_baseball.Play.Cursor.{nul}
use mlb_baseball.Play.Credit.{
  primary_step, primary_loop, primary_event, fielders_step, fielders_loop, hit_fielder, dedupe_from,
  dedupe_assists, credit_muff, credit_putout, credit_step, credit_loop, credit_error,
  fielding_credit, in_flag, flag_step, flag_loop, flag,
}
use mlb_baseball.Play.Flags.{
  ends_flag, flag_text_step, flag_text_loop, flags_step, flags_loop, all_flags,
}
use mlb_baseball.Play.Progress.Rules.{
  Ends, Reads, Ends-Reads, Ends-pure, Ends-bind, Reads-bind, Reads-if,
}
use mlb_baseball.Play.Progress.Quiet.{
  Reads-nextsym_bind, Reads-Quiet, Reads-fuel, Ends-fuel, Ends-test, Ends-unless, Quiet-symbol,
  Quiet-put, Quiet-try_change, Quiet-pure, Quiet-if, ends_rules,
}

-- A loop with fuel for more than `b` characters
pub lt_pred : (b c n : ℕ) → b < suc n → b ≡ suc c → c < n
lt_pred b c n h e = omega arith

primary_loop-Ends : (n b : ℕ) (t : Text) → b < n → Ends b (primary_loop n t)
unfolding primary_loop primary_step
primary_loop-Ends zero b t h = elim h [ ]
primary_loop-Ends (suc n) b t h =
    Ends-test (λ x. between b'A' b'Z' x) refl
      (λ a c e. Reads-nextsym_bind (λ _. primary_loop-Ends n c _ (lt_pred b c n h e)))
      (λ a. Ends-pure _)

pub primary_event-Ends : (b : ℕ) → Ends b primary_event
unfolding primary_event
primary_event-Ends b =
    Ends-fuel (λ n c h _. Ends-bind (primary_loop-Ends n c [] h) (λ t. search ends_rules))

fielders_loop-Ends : (n b : ℕ) → b < n → Ends b (fielders_loop n)
unfolding fielders_loop fielders_step
fielders_loop-Ends zero b h = elim h [ ]
fielders_loop-Ends (suc n) b h =
    Ends-test (λ x. is_fielder x || (x == b'0')) refl
      (λ a c e. Reads-nextsym_bind (λ _. fielders_loop-Ends n c (lt_pred b c n h e)))
      (λ a. Ends-pure _)

pub hit_fielder-Ends : (b : ℕ) → Ends b hit_fielder
unfolding hit_fielder
hit_fielder-Ends b =
    Ends-bind (search ends_rules)
      (λ c. Ends-bind (search ends_rules) (λ _. Ends-fuel (λ n k h _. fielders_loop-Ends n k h)))

dedupe_from-Ends : (b : ℕ) (seen l : List ℕ) → Ends b (dedupe_from seen l)
unfolding dedupe_from
dedupe_from-Ends b seen [] = search ends_rules
dedupe_from-Ends b seen (a ∷ l) = Ends-bind (search ends_rules) (λ _. dedupe_from-Ends b _ l)

dedupe_assists-Ends : (b : ℕ) (l : List ℕ) → Ends b (dedupe_assists l)
unfolding dedupe_assists
dedupe_assists-Ends b l = dedupe_from-Ends b [] l

credit_muff-Ends : (b last : ℕ) (l : List ℕ) (n : ℕ) → Ends b (credit_muff last l n)
unfolding credit_muff
credit_muff-Ends b last l n = search (ends_rules, dedupe_assists-Ends) depth 30

credit_putout-Ends : (b last : ℕ) (l : List ℕ) (n : ℕ) → Ends b (credit_putout last l n)
unfolding credit_putout
credit_putout-Ends b last l n = search (ends_rules, dedupe_assists-Ends) depth 30

credit_loop-Reads : (f b last : ℕ) (l : List ℕ) (n : ℕ) → b < f → Reads b (credit_loop f last l n)
unfolding credit_loop credit_step
credit_loop-Reads zero b last l n h = elim h [ ]
credit_loop-Reads (suc f) b last l n h = Reads-nextsym_bind (λ _.
    Ends-test is_fielder refl
      (λ a c e. Reads-Quiet (Quiet-if _ (Quiet-try_change _) (Quiet-pure tt)) (λ _.
        Reads-Quiet (Quiet-if _ (Quiet-put _ _) (Quiet-pure tt))
          (λ _. credit_loop-Reads f c _ _ _ (lt_pred b c f h e))))
      (λ a. search (ends_rules, credit_muff-Ends, credit_putout-Ends) depth 10))

credit_error-Reads : (b : ℕ) → Reads b credit_error
unfolding credit_error
credit_error-Reads b = Reads-nextsym_bind (λ _. search ends_rules depth 30)

pub fielding_credit-Reads : (b prev : ℕ) → Reads b (fielding_credit prev)
unfolding fielding_credit
fielding_credit-Reads b prev = Reads-Quiet Quiet-symbol (λ c. Reads-if _ (credit_error-Reads b) (
    Reads-Quiet (Quiet-if _ (Quiet-put _ _) (Quiet-pure tt)) (λ _.
      Reads-Quiet (Quiet-put _ _) (λ _. Reads-fuel (λ f k h _. credit_loop-Reads f k _ _ _ h)))))

pub fielding_credit-Ends : (b prev : ℕ) → Ends b (fielding_credit prev)
fielding_credit-Ends b prev = Ends-Reads (fielding_credit-Reads b prev)

flag_loop-Reads : (n b : ℕ) (t : Text) → b < n → Reads b (flag_loop n t)
unfolding flag_loop flag_step
flag_loop-Reads zero b t h = elim h [ ]
flag_loop-Reads (suc n) b t h = Reads-nextsym_bind (λ _.
    Ends-test in_flag (unfold has_char in refl) (λ a c e. flag_loop-Reads n c _ (lt_pred b c n h e))
      (λ a. search ends_rules))

pub flag-Reads : (b : ℕ) → Reads b flag
unfolding flag
flag-Reads b =
    Reads-fuel (λ n k h _. Reads-bind (flag_loop-Reads n k [] h) (λ t. search ends_rules))

pub flag-Ends : (b : ℕ) → Ends b flag
flag-Ends b = Ends-Reads (flag-Reads b)

flag_text_loop-Reads : (n b : ℕ) (t : Text) → b < n → Reads b (flag_text_loop n t)
unfolding flag_text_loop flag_text_step
flag_text_loop-Reads zero b t h = elim h [ ]
flag_text_loop-Reads (suc n) b t h = Reads-nextsym_bind (λ _.
    Ends-unless ends_flag (unfold has_char in refl)
      (λ a c e. flag_text_loop-Reads n c _ (lt_pred b c n h e)) (λ a. search ends_rules))

flags_loop-Reads : (n b : ℕ) → b < n → Reads b (flags_loop n)
unfolding flags_loop flags_step
flags_loop-Reads zero b h = elim h [ ]
flags_loop-Reads (suc n) b h = Reads-fuel (λ m k hk le.
    Reads-bind (flag_text_loop-Reads m k _ hk) (λ t. Ends-bind (search ends_rules) (λ _.
      Ends-unless (λ x. (x == b'.') || (x == nul)) refl
        (λ a c e. flags_loop-Reads n c (omega arith)) (λ a. Ends-pure _))))

pub all_flags-Ends : (b : ℕ) → Ends b all_flags
unfolding all_flags
all_flags-Ends b = Ends-fuel (λ n c h _. Ends-Reads (flags_loop-Reads n c h))
