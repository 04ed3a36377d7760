-- ===== src/Play/Progress/Steals.antt =====
-- Termination of cw/parse.py: steals and pickoffs.
use mlb_baseball.Prelude.{
  ℕ, zero, suc, ◌<◌, ◌≤◌, ◌≡◌, refl, Bool, true, false, arith, not, ◌==◌, Text,
}
use mlb_baseball.Play.Bases.{Base}
use mlb_baseball.Play.Monad.{Action}
use mlb_baseball.Play.Steals.{
  slashes_step, slashes_loop, slashes, ignore_flag, note_dp, Steal, unearned_steal, steal_base,
  second_steal, cs_error_credit, cs_unearned, cs_credit, cs_step, cs_loop, steal_step, steal_loop,
  stolen_base, caught_stealing,
}
use mlb_baseball.Play.Pickoffs.{pickoff_caught_stealing, pickoff_error, pickoff_credit, pickoff}
use mlb_baseball.Play.Progress.Rules.{
  Ends, Reads, Ends-Reads, Ends-pure, Ends-symbol, Ends-token, Ends-bind, Ends-if, Ends-change,
  Ends-try_change, Reads-bind,
}
use mlb_baseball.Play.Progress.Quiet.{
  Ends-and, Reads-nextsym_bind, Ends-fuel, Ends-test, Ends-unless, ends_rules,
}
use mlb_baseball.Play.Progress.Credits.{lt_pred, primary_event-Ends, flag-Reads}
use mlb_baseball.Play.Progress.Runners.{credit_rules}

lt_of_suc : (b c : ℕ) → b ≡ suc c → c < b
lt_of_suc b c e = omega arith

lt_le : (b c n : ℕ) → c < b → b < suc n → c < n
lt_le b c n h k = omega arith

lt_le_le : (b c k n : ℕ) → c < k → k ≤ b → b < suc n → c < n
lt_le_le b c k n h le g = omega arith

module _ (body : Text → Action Bool) (ends : (b : ℕ) (t : Text) → Ends b (body t)) where
  slashes_loop-Ends : (n b : ℕ) → b < n → Ends b (slashes_loop body n)
  unfolding slashes_loop slashes_step
  slashes_loop-Ends zero b h = elim h [ ]
  slashes_loop-Ends (suc n) b h =
      Ends-test (λ x. x == b'/') refl
        (λ a c e. Reads-bind (flag-Reads c) (λ _.
          Ends-bind Ends-token
            (λ t. Ends-and (ends c t) (slashes_loop-Ends n c (lt_pred b c n h e)))))
        (λ a. Ends-pure _)

  pub slashes-Ends : (b : ℕ) (flags : Bool) → Ends b (slashes flags body)
  unfolding slashes
  slashes-Ends b flags =
      Ends-if flags (Ends-fuel (λ n c h _. slashes_loop-Ends n c h)) (Ends-pure _)

pub ignore_flag-Ends : (b : ℕ) (t : Text) → Ends b (ignore_flag t)
ignore_flag-Ends b t = Ends-pure true

pub note_dp-Ends : (b : ℕ) (t : Text) → Ends b (note_dp t)
note_dp-Ends b t = search ends_rules depth 20

unearned_steal-Ends : (b : ℕ) → Ends b unearned_steal
unfolding unearned_steal
unearned_steal-Ends b = search ends_rules depth 40

steal_base-Ends : (b : ℕ) → Ends b steal_base
unfolding steal_base
steal_base-Ends b = search (ends_rules, unearned_steal-Ends) depth 40

cs_error_credit-Ends : (b : ℕ) → Ends b cs_error_credit
unfolding cs_error_credit
cs_error_credit-Ends b = search credit_rules depth 40

cs_unearned-Ends : (b : ℕ) (runner : Base) → Ends b (cs_unearned runner)
unfolding cs_unearned
cs_unearned-Ends b runner = search credit_rules depth 40

cs_credit-Ends : (b : ℕ) (runner : Base) → Ends b (cs_credit runner)
unfolding cs_credit
cs_credit-Ends b runner = search (credit_rules, cs_error_credit-Ends, cs_unearned-Ends) depth 40

cs_loop-Reads : (runner : Base) (n b : ℕ) → b < n → Reads b (cs_loop runner n)
unfolding cs_loop cs_step
cs_loop-Reads runner zero b h = elim h [ ]
cs_loop-Reads runner (suc n) b h = Reads-nextsym_bind (λ _.
    Ends-test (λ x. x == b'(') refl
      (λ a c e. Reads-nextsym_bind (λ _.
        Ends-and (cs_credit-Ends c runner)
          (Ends-Reads (cs_loop-Reads runner n c (lt_pred b c n h e)))))
      (λ a. Ends-pure _))

-- `again` is called behind a ';', so it has one character less.
second_steal-Ends :
    (again : Steal → Action Bool) (b : ℕ)
    → ((kind : Steal) (c : ℕ) → c < b → Ends c (again kind))
    → Ends b (second_steal again)
unfolding second_steal
second_steal-Ends again b h =
    Ends-unless (λ x. not (x == b';')) refl
      (λ a c e. Reads-nextsym_bind (λ _. Ends-bind (primary_event-Ends c) (λ _.
        Ends-bind Ends-token (λ t.
          Ends-if _ (Ends-bind (h Steal.stolen c (lt_of_suc b c e)) (λ _. Ends-pure true)) (
            Ends-if _ (Ends-bind (h Steal.caught c (lt_of_suc b c e)) (λ _. Ends-pure true))
              (Ends-pure _))))))
      (λ a. Ends-pure _)

steal_loop-Ends : (n b : ℕ) (kind : Steal) (flags : Bool) → b < n → Ends b (steal_loop n kind flags)
unfolding steal_loop steal_step
steal_loop-Ends zero b kind flags h = elim h [ ]
steal_loop-Ends (suc n) b Steal.stolen flags h = Ends-and (steal_base-Ends b) (
    Ends-and
      (second_steal-Ends (λ k. steal_loop n k false) b
        (λ k c lt. steal_loop-Ends n c k false (lt_le b c n lt h)))
      (slashes-Ends ignore_flag ignore_flag-Ends b flags))
steal_loop-Ends (suc n) b Steal.caught flags h = Ends-bind Ends-symbol (λ a.
    Ends-if _ (Ends-pure _) (
      Ends-bind (Ends-change _) (λ _. Ends-fuel (λ m k hm le.
        Ends-and (Ends-Reads (cs_loop-Reads _ m k hm)) (
          Ends-and
            (second_steal-Ends (λ j. steal_loop n j false) k
              (λ j c lt. steal_loop-Ends n c j false (lt_le_le b c k n lt le h)))
            (Ends-and (slashes-Ends note_dp note_dp-Ends k flags)
              (Ends-bind (Ends-try_change _) (λ _. Ends-pure true))))))))

pub stolen_base-Ends : (b : ℕ) (flags : Bool) → Ends b (stolen_base flags)
unfolding stolen_base
stolen_base-Ends b flags = Ends-fuel (λ n c h _. steal_loop-Ends n c _ flags h)

pub caught_stealing-Ends : (b : ℕ) (flags : Bool) → Ends b (caught_stealing flags)
unfolding caught_stealing
caught_stealing-Ends b flags = Ends-fuel (λ n c h _. steal_loop-Ends n c _ flags h)

pub pickoff_caught_stealing-Ends : (b : ℕ) (flags : Bool) → Ends b (pickoff_caught_stealing flags)
unfolding pickoff_caught_stealing
pickoff_caught_stealing-Ends b flags = search (ends_rules, caught_stealing-Ends) depth 20

pickoff_error-Ends : (b : ℕ) → Ends b pickoff_error
unfolding pickoff_error
pickoff_error-Ends b = search credit_rules depth 40

pickoff_credit-Ends : (b : ℕ) (runner : Base) → Ends b (pickoff_credit runner)
unfolding pickoff_credit
pickoff_credit-Ends b runner = search (credit_rules, pickoff_error-Ends) depth 40

pub pickoff-Ends : (b : ℕ) (flags : Bool) → Ends b (pickoff flags)
unfolding pickoff
pickoff-Ends b flags = search (credit_rules, pickoff_credit-Ends) depth 40
