-- ===== src/State/Balance.antt =====
-- `update` and the count of runners left on base.
use mlb_baseball.Prelude.{
  ℕ, ◌+◌, ◌≡◌, refl, ap, pos, sub_ℕ, ◌+ℤ◌, Text, arith, Bool-cases, inl, inr,
}
use mlb_baseball.Prelude.Sides.{Sides, side, side-put_side}
use mlb_baseball.Play.Bases.{Bases, batter, one_if, put_on}
use mlb_baseball.Play.Event.{EventData, is_batter, outs_on_play, runs_on_play}
use mlb_baseball.State.Record.{Runner, State, base_occupied}
use mlb_baseball.State.Advance.{check_go_ahead_rbi, process_advance}
use mlb_baseball.State.Update.{count_play, end_play, update}
use mlb_baseball.State.Queries.{left_on_base}
use mlb_baseball.State.Runners.{
  names, IsLegal, OutsArePresent, on_bases, batter_enters, process_advance_conserves,
  process_advance_rest, with_runners,
}

-- The state that `process_advance` is given in `update`
abbrev pub counted : EventData → Text → State → State
counted d t s = count_play d (check_go_ahead_rbi t d s)

sub_balance : (a b c e o o' : ℕ) → a + e + o ≡ c + b + o' → sub_ℕ a b +ℤ pos o ≡ sub_ℕ c e +ℤ pos o'
sub_balance a b c e o o' h = ground arith

names-counted : (d : EventData) (t : Text) (s : State) → names (counted d t s) ≡ names s
unfolding count_play check_go_ahead_rbi
names-counted d t s = refl

on_bases-counted : (d : EventData) (t : Text) (s : State) → on_bases (counted d t s) ≡ on_bases s
unfolding count_play check_go_ahead_rbi base_occupied
on_bases-counted d t s = refl

on_bases-end : (d : EventData) (s : State) → on_bases (end_play d s) ≡ on_bases s
unfolding end_play base_occupied
on_bases-end d s = ground arith

-- The runners play no part in the counters.
abbrev pub counted_with : EventData → Text → State → Bases Runner → State
counted_with d t s rs = end_play d (with_runners (counted d t s) rs)

pub update_eq :
    (d : EventData) (t : Text) (s : State)
    → update t d s ≡ counted_with d t s (process_advance t d (counted d t s)).runners
unfolding update
update_eq d t s = ap (end_play d) (process_advance_rest t d (counted d t s)).path

-- The counters of `left_on_base` that a play changes
module _ (d : EventData) (t : Text) (s : State) (rs : Bases Runner) where
  num_batters-counted :
      side (counted_with d t s rs).num_batters s.batting_team
      ≡ side s.num_batters s.batting_team + one_if (is_batter d)
  unfolding end_play count_play check_go_ahead_rbi
  num_batters-counted = elim (Bool-cases (is_batter d)) [
    | inl e ↦ rw e (side-put_side s.num_batters s.batting_team _)
    | inr e ↦ rw e (omega arith)
  ]

  score-counted :
      side (counted_with d t s rs).score s.batting_team
      ≡ side s.score s.batting_team + runs_on_play d
  unfolding end_play count_play check_go_ahead_rbi
  score-counted = elim (Bool-cases (is_batter d)) [
    | inl e ↦ rw e (side-put_side s.score s.batting_team _)
    | inr e ↦ rw e (side-put_side s.score s.batting_team _)
  ]

  times_out-counted :
      side (counted_with d t s rs).times_out s.batting_team
      ≡ side s.times_out s.batting_team + outs_on_play d
  unfolding end_play count_play check_go_ahead_rbi
  times_out-counted = elim (Bool-cases (is_batter d)) [
    | inl e ↦ rw e (side-put_side s.times_out s.batting_team _)
    | inr e ↦ rw e (side-put_side s.times_out s.batting_team _)
  ]

  auto-counted : (counted_with d t s rs).num_auto_runners ≡ s.num_auto_runners
  unfolding end_play count_play check_go_ahead_rbi
  auto-counted = elim (Bool-cases (is_batter d)) [ inl e ↦ rw e | inr e ↦ rw e ]

-- On a legal play whose outs are of runners who are there, and in which the batter goes somewhere
-- or is out exactly if the play is a batter's, `update` changes `left_on_base` of the batting side
-- by as much as it changes the number of runners on first, second and third.
pub update-left_on_base :
    (t : Text) (d : EventData) (s : State)
    → IsLegal d (put_on (names s) batter t)
    → OutsArePresent d (put_on (names s) batter t)
    → batter_enters d ≡ one_if (is_batter d)
    → left_on_base s.batting_team (update t d s) +ℤ pos (on_bases s)
      ≡ left_on_base s.batting_team s +ℤ pos (on_bases (update t d s))
unfolding left_on_base base_occupied
update-left_on_base t d s legal present entered =
    let c = counted d t s in
    let rs = (process_advance t d c).runners in
    let b = s.batting_team in
    let legal' : IsLegal d (put_on (names c) batter t) = rw (names-counted d t s) legal in
    let present' : OutsArePresent d (put_on (names c) batter t) =
      rw (names-counted d t s) present in
    rw (update_eq d t s) (
      sub_balance _ _ _ _ _ _ (
        omega (
          arith,
          num_batters-counted d t s rs,
          score-counted d t s rs,
          times_out-counted d t s rs,
          ap (λ (x : Sides ℕ). side x b) (auto-counted d t s rs),
          process_advance_conserves t d c legal' present',
          on_bases-counted d t s,
          on_bases-end d (with_runners c rs),
          entered,
        )))
