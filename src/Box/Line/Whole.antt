-- ===== src/Box/Line/Whole.antt =====
-- The line score of a whole game (cw/box.py: `iterate_game`, `box_create`).
use mlb_baseball.Prelude.{
  ℕ, zero, suc, ◌≡◌, refl, ap, ◌∙◌, sym, false, Option, none, some, length, arith,
}
use mathlib.Core.Path.{subst}
use mlb_baseball.Prelude.Sides.{Team, Sides, side, both_sides}
use mlb_baseball.Game.Records.{Event, Game}
use mlb_baseball.Iter.Record.{Result, ok, fault, GameIter, event, new_iter}
use mlb_baseball.Iter.Rounds.{bind-eq_ok, ok-injective}
use mlb_baseball.Box.Record.{Boxscore, new_box}
use mlb_baseball.Box.Starters.{enter_starters}
use mlb_baseball.Box.Iterate.{
  Walk, box_round, lead_after, box_loop, walk_game, take_totals, iterate_game, played_box,
  box_create,
}
use mlb_baseball.Box.Balance.Tally.{IsTallied}
use mlb_baseball.Box.Balance.Whole.{box_round-IsHeld}
use mlb_baseball.Box.Balance.Whole.{box_create-played_box}
use mlb_baseball.Box.Balance.Starting.{enter_starters-IsTallied}
use mlb_baseball.Box.Line.Sums.{line_total, line_after-total, box_round-score}
use mlb_baseball.Box.Line.Start.{IsShown, enter_starters-IsShown, decisions-IsShown, new_iter-score}

-- The line score adds up to the score board.
record IsAdded (w : Walk) : Type 0 where
  tallied : IsTallied w.box
  added : (t : Team) → line_total t w.box.linescore ≡ side w.gi.state.score t

box_round-IsAdded :
    (ev : Event) (w : Walk) (r : Boxscore × GameIter)
    → event w.gi ≡ some ev
    → box_round ev w.box w.gi ≡ ok r
    → IsAdded w
    → IsAdded (record { box = r.0; gi = r.1; lead_change = lead_after ev w.gi w.lead_change })
box_round-IsAdded ev w r e h a =
    let held = box_round-IsHeld ev w.box w.gi r a.tallied h in
    record {
      tallied = held.tallied;
      added = λ t.
          (let shown = ap (line_total t) held.shown in
            omega (
              arith,
              shown,
              line_after-total t ev w.gi.state w.gi.play w.box.linescore,
              box_round-score t ev w.box w.gi r e h,
              a.added t,
            ));
    }

box_loop-IsAdded : (n : ℕ) (w : Walk) {w' : Walk} → IsAdded w → box_loop n w ≡ ok w' → IsAdded w'
unfolding box_loop
box_loop-IsAdded zero w a h = subst IsAdded (ok-injective h) a
box_loop-IsAdded (suc n) w {w'} a h = from (event w.gi) refl (λ v. box_loop-IsAdded n v {w' = w'}) h
  where
    round :
        (ev : Event) (o : Result (Boxscore × GameIter))
        → event w.gi ≡ some ev
        → box_round ev w.box w.gi ≡ o
        → ((v : Walk) → IsAdded v → box_loop n v ≡ ok w' → IsAdded w')
        → elim o [
          | fault x ↦ fault x
          | ok r ↦
              box_loop n
                (record { box = r.0; gi = r.1; lead_change = lead_after ev w.gi w.lead_change })
        ]
          ≡ ok w'
        → IsAdded w'
    round ev (fault x) e e' f k = cc
    round ev (ok r) e e' f k = f _ (box_round-IsAdded ev w r e e' a) k

    from :
        (o : Option Event)
        → event w.gi ≡ o
        → ((v : Walk) → IsAdded v → box_loop n v ≡ ok w' → IsAdded w')
        → elim o [
          | none ↦ ok w
          | some ev ↦ elim (box_round ev w.box w.gi) [
            | fault x ↦ fault x
            | ok r ↦
                box_loop n
                  (record { box = r.0; gi = r.1; lead_change = lead_after ev w.gi w.lead_change })
          ]
        ]
          ≡ ok w'
        → IsAdded w'
    from none e f k = subst IsAdded (ok-injective k) a
    from (some ev) e f k = round ev (box_round ev w.box w.gi) e refl f k

no_runs : (t : Team) → line_total t new_box.linescore ≡ side (both_sides 0) t
unfolding line_total
no_runs Team.visitors = refl
no_runs Team.home = refl

-- The walk over a game, from the box score of its starters
walk_game-IsAdded :
    (g : Game) {box : Boxscore} {w : Walk}
    → enter_starters g new_box ≡ ok box
    → walk_game g box ≡ ok w
    → IsAdded w
unfolding walk_game
walk_game-IsAdded g {box} {w} p h =
    let (gi, q, q') = bind-eq_ok (new_iter g) _ h in
    let begun : IsShown new_box.linescore new_box.score new_box = record {
      rows = refl;
      board = refl;
    } in
    let shown = (enter_starters-IsShown g).run new_box box begun p in
    box_loop-IsAdded (length g.events) (record { box = box; gi = gi; lead_change = false })
      (record {
        tallied = enter_starters-IsTallied g p;
        added = λ t.
            ap (line_total t) shown.rows
            ∙ no_runs t
            ∙ ap (λ (x : Sides ℕ). side x t) (sym (new_iter-score g q));
      })
      q'

-- Where a box score is made of a game with events, the runs of each side in its line score add up to the side's
-- score.
pub box_create-line_total :
    (g : Game) {box : Boxscore} (t : Team)
    → box_create g ≡ some (ok box)
    → line_total t box.linescore ≡ side box.score t
unfolding played_box iterate_game
box_create-line_total g {box} t h =
    let (first_box, p, q) = bind-eq_ok (enter_starters g new_box) _ (box_create-played_box g h) in
    let (played, p', q') = bind-eq_ok (iterate_game g first_box) _ q in
    let (w, r, r') = bind-eq_ok (walk_game g first_box) _ p' in
    let a = walk_game-IsAdded g p r in
    let totals : IsShown w.box.linescore w.gi.state.score
        (take_totals w.gi.state w.lead_change w.box) =
      unfold take_totals in record { rows = refl; board = refl } in
    let shown : IsShown w.box.linescore w.gi.state.score box =
      subst (IsShown w.box.linescore w.gi.state.score) (ok-injective q') (
        decisions-IsShown g played
          (subst (IsShown w.box.linescore w.gi.state.score) (ok-injective r') totals)) in
    ap (line_total t) shown.rows ∙ a.added t ∙ ap (λ (x : Sides ℕ). side x t) (sym shown.board)
