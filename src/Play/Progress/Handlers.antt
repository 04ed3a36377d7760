-- ===== src/Play/Progress/Handlers.antt =====
-- Termination of cw/parse.py: the handlers of the primary events.
use mlb_baseball.Prelude.{
  ℕ, zero, suc, ◌<◌, refl, Bool, true, false, not, Option, none, some, between, Text, last?,
}
use mlb_baseball.Play.Event.{is_fielder}
use mlb_baseball.Play.Monad.{Action, pure}
use mlb_baseball.Play.Handlers.{
  closing_flags, skip_char, balk, safe_on_error, fielders_choice, foul_error, out_base, or_raise,
  outs_step, outs_loop, finish_outs, generic_out, hit_by_pitch, interference_flag, interference,
}
use mlb_baseball.Play.Others.{
  indifference, advance_note, other_advance, passed_ball, wild_pitch, base_hit, digits_step,
  digits_loop, ground_rule_double, forgiving, plus_event, plus_tail, strikeout_flag, strikeout,
  walk_flag, walk,
}
use mlb_baseball.Play.Steals.{ignore_flag, note_dp}
use mlb_baseball.Play.Progress.Rules.{
  Ends, Ends-pure, Ends-symbol, Ends-token, Ends-change, Ends-bind, Ends-if, Ends-index_error,
  Reads-bind,
}
use mlb_baseball.Play.Progress.Quiet.{
  Ends-and, Reads-nextsym_bind, Ends-fuel, Ends-test, Ends-unless, ends_rules,
}
use mlb_baseball.Play.Progress.Credits.{lt_pred, hit_fielder-Ends, fielding_credit-Reads}
use mlb_baseball.Play.Progress.Runners.{credit_rules}
use mlb_baseball.Play.Progress.Steals.{
  slashes-Ends, ignore_flag-Ends, note_dp-Ends, stolen_base-Ends, caught_stealing-Ends,
  pickoff_caught_stealing-Ends, pickoff-Ends,
}

closing_flags-Ends : (b : ℕ) (flags : Bool) → Ends b (closing_flags flags)
unfolding closing_flags
closing_flags-Ends b flags = search credit_rules depth 20

skip_char-Ends : (b k : ℕ) → Ends b (skip_char k)
unfolding skip_char
skip_char-Ends b k = search ends_rules depth 20

ruleset handler_rules = (credit_rules, closing_flags-Ends, skip_char-Ends)

pub balk-Ends : (b : ℕ) (flags : Bool) → Ends b (balk flags)
unfolding balk
balk-Ends b flags = slashes-Ends ignore_flag ignore_flag-Ends b flags

pub safe_on_error-Ends : (b : ℕ) (flags : Bool) → Ends b (safe_on_error flags)
unfolding safe_on_error
safe_on_error-Ends b flags = search handler_rules depth 40

pub fielders_choice-Ends : (b : ℕ) (flags : Bool) → Ends b (fielders_choice flags)
unfolding fielders_choice
fielders_choice-Ends b flags = search handler_rules depth 40

pub foul_error-Ends : (b : ℕ) (flags : Bool) → Ends b (foul_error flags)
unfolding foul_error
foul_error-Ends b flags = search handler_rules depth 40

out_base-Ends : (b : ℕ) → Ends b out_base
unfolding out_base
out_base-Ends b = search ends_rules depth 40

or_raise-Ends : (b : ℕ) (o : Option ℕ) → Ends b (or_raise o)
unfolding or_raise
or_raise-Ends b none = Ends-index_error
or_raise-Ends b (some c) = Ends-pure c

outs_loop-Ends : (n b last : ℕ) (force : Option Bool) → b < n → Ends b (outs_loop n last force)
unfolding outs_loop outs_step
outs_loop-Ends zero b last force h = elim h [ ]
outs_loop-Ends (suc n) b last force h =
    Ends-unless (λ x. not (is_fielder x)) refl
      (λ a c e. Reads-bind (fielding_credit-Reads c _) (λ safe. Ends-bind Ends-symbol (λ d.
        Ends-if _
          (Ends-bind (out_base-Ends c) (elim [
            | none ↦ Ends-pure none
            | some base ↦ Ends-bind Ends-token (λ t. Ends-bind (Ends-change _) (λ _.
                Ends-bind (or_raise-Ends c (last? t))
                  (λ k. outs_loop-Ends n c k _ (lt_pred b c n h e))))
          ]))
          (Ends-bind Ends-token (λ t. Ends-bind (Ends-change _) (λ _. Ends-pure _))))))
      (λ a. Ends-pure _)

finish_outs-Ends : (b : ℕ) (flags : Bool) (force : Option Bool) → Ends b (finish_outs flags force)
unfolding finish_outs
finish_outs-Ends b flags force = search handler_rules depth 40

finish-Ends :
    (b : ℕ) (flags : Bool) (o : Option (Option Bool))
    → Ends b (elim o [ none ↦ pure false | some force ↦ finish_outs flags force ])
finish-Ends b flags none = Ends-pure _
finish-Ends b flags (some force) = finish_outs-Ends b flags force

pub generic_out-Ends : (b : ℕ) (flags : Bool) → Ends b (generic_out flags)
unfolding generic_out
generic_out-Ends b flags = Ends-bind Ends-symbol (λ c. Ends-bind (search ends_rules) (λ next.
    Ends-bind (search ends_rules) (λ _. Ends-bind (Ends-change _) (λ _.
      Ends-fuel
        (λ n k h _. Ends-bind (outs_loop-Ends n k _ none h) (λ o. finish-Ends k flags o))))))

pub hit_by_pitch-Ends : (b : ℕ) (flags : Bool) → Ends b (hit_by_pitch flags)
unfolding hit_by_pitch
hit_by_pitch-Ends b flags =
    Ends-bind (Ends-change _) (λ _. slashes-Ends ignore_flag ignore_flag-Ends b flags)

interference_flag-Ends : (b : ℕ) (t : Text) → Ends b (interference_flag t)
unfolding interference_flag
interference_flag-Ends b t = search ends_rules depth 40

pub interference-Ends : (b : ℕ) (flags : Bool) → Ends b (interference flags)
unfolding interference
interference-Ends b flags = Ends-bind (Ends-change _) (λ _.
    Ends-and (slashes-Ends interference_flag interference_flag-Ends b true)
      (search ends_rules depth 20))

pub indifference-Ends : (b : ℕ) (flags : Bool) → Ends b (indifference flags)
unfolding indifference
indifference-Ends b flags = Ends-pure _

advance_note-Ends : (b : ℕ) (t : Text) → Ends b (advance_note t)
unfolding advance_note
advance_note-Ends b t = search ends_rules depth 20

pub other_advance-Ends : (b : ℕ) (flags : Bool) → Ends b (other_advance flags)
unfolding other_advance
other_advance-Ends b flags = slashes-Ends advance_note advance_note-Ends b flags

pub passed_ball-Ends : (b : ℕ) (flags : Bool) → Ends b (passed_ball flags)
unfolding passed_ball
passed_ball-Ends b flags =
    Ends-bind (Ends-change _) (λ _. slashes-Ends note_dp note_dp-Ends b flags)

pub wild_pitch-Ends : (b : ℕ) (flags : Bool) → Ends b (wild_pitch flags)
unfolding wild_pitch
wild_pitch-Ends b flags = Ends-bind (Ends-change _) (λ _. slashes-Ends note_dp note_dp-Ends b flags)

pub base_hit-Ends : (b : ℕ) (flags : Bool) → Ends b (base_hit flags)
unfolding base_hit
base_hit-Ends b flags = search (handler_rules, hit_fielder-Ends) depth 20

digits_loop-Ends : (n b : ℕ) → b < n → Ends b (digits_loop n)
unfolding digits_loop digits_step
digits_loop-Ends zero b h = elim h [ ]
digits_loop-Ends (suc n) b h =
    Ends-test (λ x. between b'1' b'9' x) refl
      (λ a c e. Reads-nextsym_bind (λ _. digits_loop-Ends n c (lt_pred b c n h e)))
      (λ a. Ends-pure _)

pub ground_rule_double-Ends : (b : ℕ) (flags : Bool) → Ends b (ground_rule_double flags)
unfolding ground_rule_double
ground_rule_double-Ends b flags =
    Ends-fuel (λ n c h _. Ends-bind (digits_loop-Ends n c h) (λ _. closing_flags-Ends c flags))

forgiving-Ends : {b : ℕ} (k : Bool) {m : Action Bool} → Ends b m → Ends b (forgiving k m)
unfolding forgiving
forgiving-Ends k h = Ends-bind h (λ fine. Ends-pure _)

plus_event-Ends : (b : ℕ) (k : Bool) → Ends b (plus_event k)
unfolding plus_event
plus_event-Ends b k =
    search
      (
        handler_rules, forgiving-Ends, stolen_base-Ends, caught_stealing-Ends,
        pickoff_caught_stealing-Ends, pickoff-Ends, indifference-Ends,
      )
      depth 60

plus_tail-Ends : (b : ℕ) (k : Bool) → Ends b (plus_tail k)
unfolding plus_tail
plus_tail-Ends b k = search (ends_rules, plus_event-Ends) depth 20

strikeout_flag-Ends : (b : ℕ) (t : Text) → Ends b (strikeout_flag t)
unfolding strikeout_flag
strikeout_flag-Ends b t = search ends_rules depth 20

pub strikeout-Ends : (b : ℕ) (flags : Bool) → Ends b (strikeout flags)
unfolding strikeout
strikeout-Ends b flags = Ends-bind Ends-symbol (λ c. Ends-bind (search credit_rules depth 20) (λ _.
    Ends-and (plus_tail-Ends b true) (slashes-Ends strikeout_flag strikeout_flag-Ends b flags)))

walk_flag-Ends : (b : ℕ) (t : Text) → Ends b (walk_flag t)
unfolding walk_flag
walk_flag-Ends b t = search ends_rules depth 20

pub walk-Ends : (b : ℕ) (flags : Bool) → Ends b (walk flags)
unfolding walk
walk-Ends b flags =
    Ends-bind (Ends-change _)
      (λ _. Ends-and (plus_tail-Ends b false) (slashes-Ends walk_flag walk_flag-Ends b flags))
