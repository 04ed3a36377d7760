-- ===== src/Iter/Order/Reached.antt =====
-- Every state that a run over a game reaches (cw/gameiter.py: `GameIter(game)`, then `next`).
use mlb_baseball.Prelude.{
  ◌≤◌, ◌≡◌, refl, sym, ap, ◌∙◌, Bool, true, false, Option, none, some, List, [], ◌∷◌, if◌then◌else◌,
  arith, Text, codes, text_eq,
}
use mathlib.Core.Path.{subst}
use mlb_baseball.Prelude.Sides.{Team, both_sides}
use mlb_baseball.Play.Event.{empty_event}
use mlb_baseball.Play.Parse.{parse_event}
use mlb_baseball.Game.Records.{Appearance, Event, Game}
use mlb_baseball.Game.Container.{info_lookup}
use mlb_baseball.State.Record.{State, new_state}
use mlb_baseball.State.Update.{change_sides}
use mlb_baseball.State.Batting.{InOrder}
use mlb_baseball.State.Scores.{change_sides-next_batter, same, into_score}
use mlb_baseball.Iter.Record.{
  ok, fault, Fault, ◌>>=◌, in_range, GameIter, event, is_play, parse_result, set_starter,
  lineup_setup, load_first, reset_state, new_iter, short_date,
}
use mlb_baseball.Iter.Step.{finish_event, adjust, same_half, load_event, load_if, next}
use mlb_baseball.Iter.Rounds.{bind-eq_ok, ok-injective, either_way}
use mlb_baseball.Iter.Scores.{in_range-ok}
use mlb_baseball.Iter.Order.{
  SlotsInOrder, IsOrdered, slot_at, finish_event-IsOrdered, adjust-InOrder,
}

half_order :
    (c : Bool) (ev : Event) (s : State)
    → (if c then s else change_sides ev s).next_batter ≡ s.next_batter
half_order true ev s = refl
half_order false ev s = change_sides-next_batter ev s

load_event-IsOrdered :
    (ev : Event) (gi : GameIter) {gi' : GameIter}
    → load_event ev gi ≡ ok gi'
    → ev.ladj_slot ≤ 9
    → IsOrdered gi
    → IsOrdered gi'
unfolding load_event
load_event-IsOrdered ev gi {gi'} h l o =
    let start = if same_half ev gi.state then gi.state else change_sides ev gi.state in
    let (s, p, q) = bind-eq_ok (adjust ev start) _ h in
    let k : InOrder s.next_batter =
      adjust-InOrder ev start p l
        (subst InOrder (sym (half_order (same_half ev gi.state) ev gi.state)) o.order) in
    either_way (is_play ev) _ _
      (λ r.
        (let (d, p', q') = bind-eq_ok (parse_result (parse_event ev.event_text)) _ r in
          subst IsOrdered (ok-injective q') (record { slots = o.slots; order = k })))
      (λ r. subst IsOrdered (ok-injective r) (record { slots = o.slots; order = k })) q

load_if-IsOrdered :
    (gi : GameIter) (o : Option Event) {gi' : GameIter}
    → event gi ≡ o
    → load_if o gi ≡ ok gi'
    → IsOrdered gi
    → IsOrdered gi'
load_if-IsOrdered gi none e h k = subst IsOrdered (ok-injective h) k
load_if-IsOrdered gi (some ev) e h k =
    load_event-IsOrdered ev gi h (slot_at gi.game.events gi.index k.slots e) k

from_event :
    (gi : GameIter) (o : Option Event) {gi' : GameIter}
    → event gi ≡ o
    → elim o [
      | none ↦ fault Fault.assertion_error
      | some ev ↦ finish_event ev gi >>= λ gi₁. load_if (event gi₁) gi₁
    ]
      ≡ ok gi'
    → IsOrdered gi
    → IsOrdered gi'
from_event gi none e h k = cc
from_event gi (some ev) e h k =
    let (gi₁, p, q) = bind-eq_ok (finish_event ev gi) _ h in
    load_if-IsOrdered gi₁ (event gi₁) refl q (finish_event-IsOrdered ev gi e p k)

next-IsOrdered : (gi : GameIter) {gi' : GameIter} → next gi ≡ ok gi' → IsOrdered gi → IsOrdered gi'
unfolding next
next-IsOrdered gi h k = from_event gi (event gi) refl h k

set_starter-order :
    (a : Appearance) (s : State) {s' : State}
    → set_starter a s ≡ some s'
    → s'.next_batter ≡ s.next_batter
unfolding set_starter
set_starter-order a s h = ground arith

lineup_setup-order :
    (l : List Appearance) (s : State) {s' : State}
    → lineup_setup l s ≡ some s'
    → s'.next_batter ≡ s.next_batter
unfolding lineup_setup
lineup_setup-order [] s {s'} h = (into_score s s s' (same s) h).order
lineup_setup-order (a ∷ l) s {s'} h =
    from (set_starter a s) refl h (λ s₁. lineup_setup-order l s₁ {s' = s'})
  where
    from :
        (o : Option State)
        → set_starter a s ≡ o
        → elim o [ none ↦ none | some s₁ ↦ lineup_setup l s₁ ] ≡ some s'
        → ((s₁ : State) → lineup_setup l s₁ ≡ some s' → s'.next_batter ≡ s₁.next_batter)
        → s'.next_batter ≡ s.next_batter
    from none e k f = cc
    from (some s₁) e k f = f s₁ k ∙ set_starter-order a s e

reset_state-order : (g : Game) {s : State} → reset_state g ≡ ok s → s.next_batter ≡ both_sides 1
unfolding reset_state
reset_state-order g {s} h = from (info_lookup (codes "date") g) h
  where
    from :
        (o : Option Text)
        → elim o [
          | none ↦ fault Fault.value_error
          | some date ↦
              in_range (lineup_setup g.starters (record new_state { date = short_date date }))
              >>= λ x. ok (record x {
                batting_team = elim (info_lookup (codes "htbf") g) [
                  | none ↦ Team.visitors
                  | some v ↦ if text_eq v (codes "true") then Team.home else Team.visitors
                ];
              })
        ]
          ≡ ok s
        → s.next_batter ≡ both_sides 1
    from none k = cc
    from (some date) k =
        let start : State = record new_state { date = short_date date } in
        let (x, p, q) = bind-eq_ok (in_range (lineup_setup g.starters start)) _ k in
        ap (λ (y : State). y.next_batter) (sym (ok-injective q))
        ∙ lineup_setup-order g.starters start (in_range-ok (lineup_setup g.starters start) p)

load_first-keeps :
    (o : Option Event) (gi : GameIter) {gi' : GameIter}
    → load_first o gi ≡ ok gi'
    → IsOrdered gi
    → IsOrdered gi'
unfolding load_first
load_first-keeps none gi h k = subst IsOrdered (ok-injective h) k
load_first-keeps (some ev) gi h k =
    either_way (is_play ev) _ _
      (λ r.
        (let (d, p', q') = bind-eq_ok (parse_result (parse_event ev.event_text)) _ r in
          subst IsOrdered (ok-injective q') (record { slots = k.slots; order = k.order })))
      (λ r. subst IsOrdered (ok-injective r) (record { slots = k.slots; order = k.order })) h

new_iter-IsOrdered :
    (g : Game) {gi : GameIter} → new_iter g ≡ ok gi → SlotsInOrder g.events → IsOrdered gi
unfolding new_iter
new_iter-IsOrdered g {gi} h l =
    let (s, p, q) = bind-eq_ok (reset_state g) _ h in
    let first_iter : GameIter = record {
      game = g;
      index = 0;
      state = s;
      play = empty_event;
      parse_ok = true;
    } in
    load_first-keeps (event first_iter) first_iter q (record {
      slots = l;
      order = subst InOrder (sym (reset_state-order g p)) (record {
        away_low = omega arith;
        away_high = omega arith;
        home_low = omega arith;
        home_high = omega arith;
      });
    })

-- The iterators that a run over a game goes through
pub data Reached (g : Game) : GameIter → Type 0 where
  started : {gi : GameIter} → new_iter g ≡ ok gi → Reached g gi
  moved_on : {gi gi' : GameIter} → Reached g gi → next gi ≡ ok gi' → Reached g gi'

-- Where no adjustment record of a game names a slot above 9, in every iterator that a run over the
-- game reaches the next batter of both sides is in one of the slots 1 to 9.
pub Reached-InOrder :
    (g : Game) {gi : GameIter} → SlotsInOrder g.events → Reached g gi → InOrder gi.state.next_batter
Reached-InOrder g l r = (ordered r).order
  where
    ordered : {gi : GameIter} → Reached g gi → IsOrdered gi
    ordered (started h) = new_iter-IsOrdered g h l
    ordered (moved_on {gi} r h) = next-IsOrdered gi h (ordered r)
