-- ===== src/Iter/Runs.antt =====
-- `future_runs` (cw/gameiter.py) and the score board.
use mlb_baseball.Prelude.{
  ℕ, zero, suc, ◌+◌, ◌≤◌, ◌≡◌, refl, ap, ◌∙◌, true, some, arith, Bool-cases, inl, inr,
}
use mathlib.Core.Path.{subst}
use mlb_baseball.Prelude.Sides.{Team, side}
use mlb_baseball.Play.Event.{EventData}
use mlb_baseball.Game.Records.{Event, Game}
use mlb_baseball.State.Record.{State}
use mlb_baseball.Iter.Record.{Result, ok, GameIter, event, is_play}
use mlb_baseball.Iter.Step.{next}
use mlb_baseball.Iter.Ahead.{
  go_on, in_half, visit, ahead_loop, events_left, look_ahead, runs_round, future_runs,
}
use mlb_baseball.Iter.Rounds.{next-events_left, events_left-event}
use mlb_baseball.Iter.Copy.{copy_eq}
use mlb_baseball.Iter.Scores.{event_runs, next-score}
use mlb_baseball.Iter.Half.{
  HalfEnds, no_event, half_over, goes_on, in_half-batting, loop-no_event, loop-half_over,
  loop-goes_on,
}

visit-runs :
    (self : State) (ev : Event) (d : EventData) (a : ℕ)
    → visit self runs_round ev d a ≡ go_on (a + event_runs ev d)
visit-runs self ev d a = elim (Bool-cases (is_play ev)) [
  | inl e ↦ rw e refl
  | inr e ↦ rw e (ap go_on (omega arith))
]

-- The score of the side that bats in `self`, in the state of `gi`
abbrev pub shown : State → GameIter → ℕ
shown self gi = side gi.state.score self.batting_team

step-shown :
    (self : State) (gi : GameIter) (ev : Event) {gi' : GameIter}
    → event gi ≡ some ev
    → in_half self gi.state ≡ true
    → next gi ≡ ok gi'
    → shown self gi' ≡ shown self gi + event_runs ev gi.play
step-shown self gi ev {gi'} p q m =
    let b = in_half-batting self gi.state q in
    subst (λ (t : Team). side gi'.state.score t ≡ side gi.state.score t + event_runs ev gi.play) b
      (next-score gi ev p m)

abbrev with_game : Game → ℕ → Result (ℕ × Game)
with_game g a = ok (a, g)

same_count : {g : Game} (a b : ℕ) → a ≡ b → with_game g a ≡ with_game g b
same_count {g} a b h = ap (with_game g) h

loop-runs :
    (self : State) {gi end : GameIter}
    → HalfEnds self gi end
    → (n a : ℕ) → events_left gi ≤ n
    → (runs : ℕ) × (ahead_loop self runs_round n a gi ≡ ok (a + runs, end.game))
      × (shown self gi + runs ≡ shown self end)
loop-runs self (no_event {gi} p) zero a l =
    (0, unfold ahead_loop in same_count a (a + 0) (omega arith), omega arith)
loop-runs self (no_event {gi} p) (suc n) a l =
    (0, loop-no_event self runs_round n a gi p ∙ same_count a (a + 0) (omega arith), omega arith)
loop-runs self (half_over {gi} p q) zero a l =
    (0, unfold ahead_loop in same_count a (a + 0) (omega arith), omega arith)
loop-runs self (half_over {gi} p q) (suc n) a l =
    (0, loop-half_over self runs_round n a gi p q ∙ same_count a (a + 0) (omega arith), omega arith)
loop-runs self (goes_on {gi} {gi'} {end} {ev} p q m h) zero a l =
    absurd (omega (arith, l, events_left-event gi p))
loop-runs self (goes_on {gi} {gi'} {end} {ev} p q m h) (suc n) a l =
    let (runs, e, f) =
      loop-runs self h n (a + event_runs ev gi.play) (next-events_left gi n p m l) in
    (
      event_runs ev gi.play + runs,
      loop-goes_on self runs_round n a gi _ p q (visit-runs self ev gi.play a) m
          ∙ e
          ∙ same_count (a + event_runs ev gi.play + runs) _ (omega arith),
      omega (arith, step-shown self gi ev p q m, f),
    )

-- Where `next` from `gi` returns and the steps after it come to the end of the half inning or of the
-- game at `end`, `future_runs` returns, and what it returns is the number of runs by which the score
-- of the side that bats in `gi` grows from the state after that `next` to the state of `end`.
pub future_runs-shown :
    (gi : GameIter) {gi' end : GameIter}
    → next gi ≡ ok gi'
    → HalfEnds gi.state gi' end
    → (runs : ℕ) × (future_runs gi ≡ ok (runs, record gi { game = end.game }))
      × (shown gi.state gi' + runs ≡ shown gi.state end)
unfolding future_runs look_ahead
future_runs-shown gi {gi'} {end} m h =
    let (runs, e, f) = loop-runs gi.state h (events_left gi') 0 (omega arith) in
    (0 + runs, rw (look_ahead, copy_eq gi, m, e) refl, omega (arith, f))
