-- ===== src/Box/Walked.antt =====
-- The walk of `iterate_game` over a whole game (cw/box.py), and where it stops.
use mlb_baseball.Prelude.{
  ℕ, zero, suc, ◌≤◌, ◌≡◌, ap, ◌∙◌, sym, refl, true, false, Option, none, some, length, arith,
}
use mathlib.Core.Path.{subst}
use mlb_baseball.Play.Event.{empty_event}
use mlb_baseball.Play.Parse.{parse_event}
use mlb_baseball.Game.Records.{Event, Game}
use mlb_baseball.Iter.Record.{
  Result, ok, fault, GameIter, event, is_play, parse_result, load_first, reset_state, new_iter,
}
use mlb_baseball.Iter.Step.{next}
use mlb_baseball.Iter.Ahead.{events_left}
use mlb_baseball.Iter.Rounds.{
  bind-eq_ok, ok-injective, either_way, IsMoved, next-IsMoved, events_left-event,
}
use mlb_baseball.Box.Record.{Boxscore}
use mlb_baseball.Box.Substitute.{add_substitutes}
use mlb_baseball.Box.Iterate.{Walk, event_stats, box_round, lead_after, box_loop, walk_game}
use mlb_baseball.Box.Ends.{add_substitutes-StaysThere}
use mlb_baseball.Iter.Texts.{length-texts}

-- A round moves on by one event.
pub box_round-IsMoved :
    (ev : Event) (box : Boxscore) (gi : GameIter) {r : Boxscore × GameIter}
    → box_round ev box gi ≡ ok r
    → IsMoved 1 gi r.1
unfolding box_round
box_round-IsMoved ev box gi {r} h =
    let (box₁, p, q) = bind-eq_ok (event_stats ev gi.state gi.play box) _ h in
    let (mid, p', q') = bind-eq_ok (add_substitutes ev.subs gi.state box₁ gi) _ q in
    let (gi', p'', q'') = bind-eq_ok (next mid.1) _ q' in
    let m = (add_substitutes-StaysThere ev.subs gi.state).run box₁ gi mid p' in
    let k = next-IsMoved mid.1 p'' in
    subst (λ (x : Boxscore × GameIter). IsMoved 1 gi x.1) (ok-injective q'')
      (record {
        index = omega (arith, m.index, k.index);
        size = k.size ∙ length-texts gi.game mid.1.game m.game;
      })

box_round-events_left :
    (ev : Event) (box : Boxscore) (gi : GameIter) (r : Boxscore × GameIter) (n : ℕ)
    → event gi ≡ some ev
    → box_round ev box gi ≡ ok r
    → events_left gi ≤ suc n
    → events_left r.1 ≤ n
box_round-events_left ev box gi r n e h l =
    let m = box_round-IsMoved ev box gi h in
    omega (arith, m.index, m.size, events_left-event gi e, l)

none_left : (gi : GameIter) (o : Option Event) → event gi ≡ o → events_left gi ≤ 0 → event gi ≡ none
none_left gi none e l = e
none_left gi (some ev) e l = absurd (omega (arith, events_left-event gi e, l))

-- With one round for each event left, no event is left behind the loop.
pub box_loop-ends :
    (n : ℕ) (w : Walk) {w' : Walk}
    → events_left w.gi ≤ n
    → box_loop n w ≡ ok w'
    → event w'.gi ≡ none
unfolding box_loop
box_loop-ends zero w l h =
    ap (λ (x : Walk). event x.gi) (sym (ok-injective h)) ∙ none_left w.gi (event w.gi) refl l
box_loop-ends (suc n) w {w'} l h = from (event w.gi) refl (λ v. box_loop-ends n v {w' = w'}) h
  where
    round :
        (ev : Event) (o : Result (Boxscore × GameIter))
        → event w.gi ≡ some ev
        → box_round ev w.box w.gi ≡ o
        → ((v : Walk) → events_left v.gi ≤ n → box_loop n v ≡ ok w' → event w'.gi ≡ none)
        → elim o [
          | fault x ↦ fault x
          | ok r ↦
              box_loop n
                (record { box = r.0; gi = r.1; lead_change = lead_after ev w.gi w.lead_change })
        ]
          ≡ ok w'
        → event w'.gi ≡ none
    round ev (fault x) e e' f k = cc
    round ev (ok r) e e' f k = f _ (box_round-events_left ev w.box w.gi r n e e' l) k

    from :
        (o : Option Event)
        → event w.gi ≡ o
        → ((v : Walk) → events_left v.gi ≤ n → box_loop n v ≡ ok w' → event w'.gi ≡ none)
        → elim o [
          | none ↦ ok w
          | some ev ↦ elim (box_round ev w.box w.gi) [
            | fault x ↦ fault x
            | ok r ↦
                box_loop n
                  (record { box = r.0; gi = r.1; lead_change = lead_after ev w.gi w.lead_change })
          ]
        ]
          ≡ ok w'
        → event w'.gi ≡ none
    from none e f k = ap (λ (x : Walk). event x.gi) (sym (ok-injective k)) ∙ e
    from (some ev) e f k = round ev (box_round ev w.box w.gi) e refl f k

IsMoved-none : (gi : GameIter) → IsMoved 0 gi gi
IsMoved-none gi = record { index = omega arith; size = refl }

load_first-IsMoved :
    (o : Option Event) (gi : GameIter) {gi' : GameIter}
    → load_first o gi ≡ ok gi'
    → IsMoved 0 gi gi'
unfolding load_first
load_first-IsMoved none gi h = subst (IsMoved 0 gi) (ok-injective h) (IsMoved-none gi)
load_first-IsMoved (some ev) gi {gi'} h =
    either_way (is_play ev) _ _
      (λ k.
        (let (d, p, q) = bind-eq_ok (parse_result (parse_event ev.event_text)) _ k in
          subst (IsMoved 0 gi) (ok-injective q) (record { index = omega arith; size = refl })))
      (λ k. subst (IsMoved 0 gi) (ok-injective k) (record { index = omega arith; size = refl })) h

new_iter-events_left :
    (g : Game) {gi : GameIter} → new_iter g ≡ ok gi → events_left gi ≤ length g.events
unfolding new_iter
new_iter-events_left g {gi} h =
    let (s, p, q) = bind-eq_ok (reset_state g) _ h in
    let begin : GameIter = record {
      game = g;
      index = 0;
      state = s;
      play = empty_event;
      parse_ok = true;
    } in
    let m = load_first-IsMoved (event begin) begin q in omega (arith, m.index, m.size)

-- Where the walk over a game returns, no event is left: one round for each event of the game is
-- enough.
pub walk_game-ends :
    (g : Game) (box : Boxscore) {w : Walk} → walk_game g box ≡ ok w → event w.gi ≡ none
unfolding walk_game
walk_game-ends g box {w} h =
    let (gi, p, q) = bind-eq_ok (new_iter g) _ h in
    box_loop-ends (length g.events) (record { box = box; gi = gi; lead_change = false })
      (new_iter-events_left g p) q
