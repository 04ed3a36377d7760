-- ===== src/Play/Progress/Runners.antt =====
-- Termination of cw/parse.py: advances.
use mlb_baseball.Prelude.{ℕ, zero, suc, ◌<◌, refl, Bool, ◌||◌, ◌&&◌, not, ◌==◌, Text}
use mlb_baseball.Play.Bases.{Base}
use mlb_baseball.Play.Event.{is_fielder}
use mlb_baseball.Play.Cursor.{nul}
use mlb_baseball.Play.Advance.{
  drop_strikeout_putout, charge_advance_error, skip_step, skip_loop, close_paren, advance_flag,
  word_modifier, modifier_step, modifier_loop, advance_modifier, modifiers_step, modifiers_loop,
  runner_advance, advancement_step, advancement_loop, advancement,
}
use mlb_baseball.Play.Progress.Rules.{
  Ends, Reads, Ends-Reads, Ends-pure, Ends-symbol, Ends-bind, Ends-if, Ends-token, Ends-nextsym,
  Reads-bind,
}
use mlb_baseball.Play.Progress.Quiet.{
  Ends-and, Reads-nextsym_bind, Ends-fuel, Ends-test, ends_rules,
}
use mlb_baseball.Play.Progress.Credits.{
  lt_pred, primary_event-Ends, fielding_credit-Reads, fielding_credit-Ends, flag-Reads, flag-Ends,
  all_flags-Ends,
}

pub ruleset credit_rules =
    (ends_rules, primary_event-Ends, fielding_credit-Ends, flag-Ends, all_flags-Ends)

drop_strikeout_putout-Ends : (b : ℕ) (from : Base) → Ends b (drop_strikeout_putout from)
unfolding drop_strikeout_putout
drop_strikeout_putout-Ends b from = search ends_rules depth 20

charge_advance_error-Ends :
    (b : ℕ) (safe : Bool) (from : Base) (to : ℕ) → Ends b (charge_advance_error safe from to)
unfolding charge_advance_error
charge_advance_error-Ends b safe from to = search (ends_rules, drop_strikeout_putout-Ends) depth 20

skip_loop-Ends : (n b : ℕ) → b < n → Ends b (skip_loop n)
unfolding skip_loop skip_step
skip_loop-Ends zero b h = elim h [ ]
skip_loop-Ends (suc n) b h =
    Ends-test (λ x. not (x == b')') && not (x == nul)) refl
      (λ a c e. Reads-nextsym_bind (λ _. skip_loop-Ends n c (lt_pred b c n h e))) (λ a. Ends-pure _)

close_paren-Ends : (b : ℕ) → Ends b close_paren
unfolding close_paren
close_paren-Ends b = search ends_rules depth 20

advance_flag-Ends : (b : ℕ) (is_error : Bool) → Ends b (advance_flag is_error)
unfolding advance_flag
advance_flag-Ends b is_error = search credit_rules depth 20

word_modifier-Ends : (b : ℕ) (from : Base) (t : Text) → Ends b (word_modifier from t)
unfolding word_modifier
word_modifier-Ends b from t = search ends_rules depth 40

modifier_loop-Ends :
    (from : Base) (to n b : ℕ) (safe : Bool) → b < n → Ends b (modifier_loop from to n safe)
unfolding modifier_loop modifier_step
modifier_loop-Ends from to zero b safe h = elim h [ ]
modifier_loop-Ends from to (suc n) b safe h =
    Ends-test (λ x. is_fielder x || (x == b'E')) refl
      (λ a c e.
        let again : (s : Bool) → Ends c (modifier_loop from to n s) =
          λ s. modifier_loop-Ends from to n c s (lt_pred b c n h e) in
        Reads-bind (fielding_credit-Reads c _) (λ muffed.
          Ends-bind
            (Ends-if muffed (charge_advance_error-Ends c safe from to)
              (drop_strikeout_putout-Ends c from))
            (λ _. Ends-bind Ends-token (λ t. Ends-bind (search ends_rules) (λ _.
              Ends-and (advance_flag-Ends c _) (
                Ends-bind Ends-symbol (λ d.
                  Ends-and (Ends-if _ (Ends-bind Ends-nextsym (λ _. again _)) (Ends-pure _)) (
                    Ends-fuel (λ m k hk _.
                      Ends-bind (skip_loop-Ends m k hk) (λ _. close_paren-Ends k))))))))))
      (λ a. search (credit_rules, word_modifier-Ends, close_paren-Ends) depth 30)

advance_modifier-Ends :
    (b : ℕ) (safe : Bool) (from : Base) (to : ℕ) → Ends b (advance_modifier safe from to)
unfolding advance_modifier
advance_modifier-Ends b safe from to = Ends-fuel (λ n c h _. modifier_loop-Ends from to n c safe h)

modifiers_loop-Ends :
    (safe : Bool) (from : Base) (to n b : ℕ) → b < n → Ends b (modifiers_loop safe from to n)
unfolding modifiers_loop modifiers_step
modifiers_loop-Ends safe from to zero b h = elim h [ ]
modifiers_loop-Ends safe from to (suc n) b h =
    Ends-test (λ x. x == b'(') refl
      (λ a c e.
        let again : Ends c (modifiers_loop safe from to n) =
          modifiers_loop-Ends safe from to n c (lt_pred b c n h e) in
        Reads-nextsym_bind (λ _. Ends-and (advance_modifier-Ends c safe from to) again))
      (λ a. Ends-pure _)

runner_advance-Ends : (b : ℕ) → Ends b runner_advance
unfolding runner_advance
runner_advance-Ends b =
    let modifiers : (safe : Bool) (from : Base) (to : ℕ) → Ends b _ =
      λ safe from to. Ends-fuel (λ n c h _. modifiers_loop-Ends safe from to n c h) in
    search (ends_rules, modifiers) depth 40

advancement_loop-Reads : (n b : ℕ) → b < n → Reads b (advancement_loop n)
unfolding advancement_loop advancement_step
advancement_loop-Reads zero b h = elim h [ ]
advancement_loop-Reads (suc n) b h = Reads-nextsym_bind (λ _.
    Ends-bind (runner_advance-Ends b) (λ fine.
      Ends-if fine
        (Ends-test (λ x. x == b';') refl (λ a c e. advancement_loop-Reads n c (lt_pred b c n h e))
          (λ a. Ends-pure _))
        (Ends-pure _)))

pub advancement-Ends : (b : ℕ) → Ends b advancement
unfolding advancement
advancement-Ends b = Ends-fuel (λ n c h _. Ends-Reads (advancement_loop-Reads n c h))
