-- ===== src/Iter/Half.antt =====
-- The rest of a half inning (cw/gameiter.py, the look-ahead loops) as a relation, without fuel.
use mlb_baseball.Prelude.{ℕ, suc, ◌≡◌, refl, Bool, true, false, none, some, ◌==◌, ◌&&◌}
use mlb_baseball.Prelude.Sides.{Team, same_team}
use mlb_baseball.Play.Event.{EventData}
use mlb_baseball.Game.Records.{Event}
use mlb_baseball.State.Record.{State}
use mlb_baseball.Iter.Record.{ok, GameIter, event}
use mlb_baseball.Iter.Step.{next}
use mlb_baseball.Iter.Ahead.{Round, go_on, in_half, visit, ahead_loop}

-- From `gi`, the steps of `next` leave the half inning of `self`, or the game, at `end`.
pub data HalfEnds (self : State) : GameIter → GameIter → Type 0 where
  no_event : {gi : GameIter} → event gi ≡ none → HalfEnds self gi gi
  half_over :
      {gi : GameIter} {ev : Event}
      → event gi ≡ some ev
      → in_half self gi.state ≡ false
      → HalfEnds self gi gi
  goes_on :
      {gi gi' end : GameIter} {ev : Event}
      → event gi ≡ some ev
      → in_half self gi.state ≡ true
      → next gi ≡ ok gi'
      → HalfEnds self gi' end
      → HalfEnds self gi end

pub in_half-batting : (s t : State) → in_half s t ≡ true → t.batting_team ≡ s.batting_team
in_half-batting s t h = teams t.batting_team s.batting_team (t.inning == s.inning) h
  where
    teams : (a b : Team) (c : Bool) → (c && same_team a b) ≡ true → a ≡ b
    teams Team.visitors Team.visitors c k = refl
    teams Team.visitors Team.home true k = cc
    teams Team.visitors Team.home false k = cc
    teams Team.home Team.visitors true k = cc
    teams Team.home Team.visitors false k = cc
    teams Team.home Team.home c k = refl

-- A round of the loop, by what it finds
module _ {A : Type 0} (self : State) (round : EventData → A → Round A) (n : ℕ) (a : A)
    (gi : GameIter) where
  pub loop-no_event : event gi ≡ none → ahead_loop self round (suc n) a gi ≡ ok (a, gi.game)
  unfolding ahead_loop
  loop-no_event p = rw (ahead_loop, p) refl

  pub loop-half_over :
      {ev : Event}
      → event gi ≡ some ev
      → in_half self gi.state ≡ false
      → ahead_loop self round (suc n) a gi ≡ ok (a, gi.game)
  unfolding ahead_loop
  loop-half_over p q = rw (ahead_loop, p, q) refl

  pub loop-goes_on :
      {ev : Event} {gi' : GameIter} (b : A)
      → event gi ≡ some ev
      → in_half self gi.state ≡ true
      → visit self round ev gi.play a ≡ go_on b
      → next gi ≡ ok gi'
      → ahead_loop self round (suc n) a gi ≡ ahead_loop self round n b gi'
  unfolding ahead_loop
  loop-goes_on b p q v m = rw (ahead_loop, p, q, v, m) refl
