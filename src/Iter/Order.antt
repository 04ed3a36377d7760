-- ===== src/Iter/Order.antt =====
-- The batting order in every state that an iterator reaches (cw/gameiter.py).
pub mod Reached
use mlb_baseball.Prelude.{
  ℕ, suc, zero, ◌+◌, ◌≤◌, ◌≡◌, refl, sym, ap, ◌∙◌, Bool, true, false, Option, none, some, List, [],
  ◌∷◌, ◌==◌, leb, ltb, if◌then◌else◌, arith, Bool-cases, inl, inr, Text, codes, get_elem?, set,
  length,
}
use mathlib.Core.Path.{subst}
use mlb_baseball.Prelude.Sides.{Team, Sides, side, put_side, both_sides}
use mlb_baseball.Play.Bases.{Base, first, second, third, on}
use mlb_baseball.Play.Event.{EventData}
use mlb_baseball.Play.Parse.{parse_event}
use mlb_baseball.Game.Records.{Appearance, Comment, Event, Game}
use mlb_baseball.Game.Container.{info_lookup}
use mlb_baseball.State.Record.{State, new_state}
use mlb_baseball.State.Advance.{place_runner}
use mlb_baseball.State.Update.{change_sides, update}
use mlb_baseball.State.Batting.{InOrder, update-InOrder}
use mlb_baseball.State.Scores.{place_runner-score, change_sides-next_batter}
use mlb_baseball.Iter.Record.{
  Result, ok, fault, Fault, ◌>>=◌, in_range, GameIter, event, is_play, parse_result, set_starter,
  lineup_setup, load_first, reset_state, new_iter, short_date,
}
use mlb_baseball.Iter.Step.{
  process_comments, process_subs, finish_event, adjust, adjust_pitcher, settle, same_half,
  load_event, load_if, next,
}
use mlb_baseball.Iter.Rounds.{bind-eq_ok, ok-injective, either_way}
use mlb_baseball.Iter.Scores.{process_subs-score, in_range-ok}

-- The adjustment records of a game name slots of the batting order: 0 stands for none.
abbrev pub SlotsInOrder : List Event → Type 0
SlotsInOrder [] = Unit
SlotsInOrder (ev ∷ l) = (ev.ladj_slot ≤ 9) × SlotsInOrder l

pub slot_at :
    (l : List Event) (i : ℕ) {ev : Event}
    → SlotsInOrder l
    → get_elem? l i ≡ some ev
    → ev.ladj_slot ≤ 9
slot_at [] i s e = cc
slot_at (x ∷ l) zero s e = ground (arith, s.0)
slot_at (x ∷ l) (suc i) s e = slot_at l i s.1 e

slots_set :
    (l : List Event) (i : ℕ) (ev : Event)
    → SlotsInOrder l
    → ev.ladj_slot ≤ 9
    → SlotsInOrder (set l i ev)
slots_set [] i ev s h = tt
slots_set (x ∷ l) zero ev s h = (h, s.1)
slots_set (x ∷ l) (suc i) ev s h = (s.0, slots_set l i ev s.1 h)

-- The next batters and the adjustments to come are all within the order.
pub record IsOrdered (gi : GameIter) : Type 0 where
  pub slots : SlotsInOrder gi.game.events
  pub order : InOrder gi.state.next_batter

played_order :
    (c : Bool) (t : Text) (d : EventData) (s x : State)
    → x.next_batter ≡ s.next_batter
    → InOrder s.next_batter
    → InOrder (if c then update t d s else x).next_batter
played_order true t d s x h o = update-InOrder t d s o
played_order false t d s x h o = rw h o

pub finish_event-IsOrdered :
    (ev : Event) (gi : GameIter) {gi' : GameIter}
    → event gi ≡ some ev
    → finish_event ev gi ≡ ok gi'
    → IsOrdered gi
    → IsOrdered gi'
unfolding finish_event
finish_event-IsOrdered ev gi {gi'} e h o =
    let (s, p, q) = bind-eq_ok (in_range (process_subs ev ev.subs _)) _ h in
    let k = process_subs-score ev ev.subs _ (in_range-ok (process_subs ev ev.subs _) p) in
    subst IsOrdered (ok-injective q) (record {
      slots =
          slots_set gi.game.events gi.index _ o.slots (slot_at gi.game.events gi.index o.slots e);
      order =
          subst InOrder (sym k.order)
            (played_order (is_play ev) ev.batter gi.play gi.state _ refl o.order);
    })

adjusted_order :
    (c : Bool) (s : State) (t : Team) (n : ℕ)
    → (c ≡ false → (1 ≤ n) × (n ≤ 9))
    → InOrder s.next_batter
    → InOrder (if c then s else record s { next_batter = put_side s.next_batter t n }).next_batter
adjusted_order true s t n h o = o
adjusted_order false s Team.visitors n h o = record {
  away_low = (h refl).0;
  away_high = (h refl).1;
  home_low = o.home_low;
  home_high = o.home_high;
}
adjusted_order false s Team.home n h o = record {
  away_low = o.away_low;
  away_high = o.away_high;
  home_low = (h refl).0;
  home_high = (h refl).1;
}

pitchers-order :
    (a b c : Option Text) (s : State)
    → (adjust_pitcher third c (adjust_pitcher second b (adjust_pitcher first a s))).next_batter
      ≡ s.next_batter
pitchers-order none none none s = refl
pitchers-order none none (some p) s = refl
pitchers-order none (some p) none s = refl
pitchers-order none (some p) (some q) s = refl
pitchers-order (some p) none none s = refl
pitchers-order (some p) none (some q) s = refl
pitchers-order (some p) (some q) none s = refl
pitchers-order (some p) (some q) (some r) s = refl

auto_order :
    (b : ℕ) (o : Option Text) (s : State) {s' : State}
    → elim o [ none ↦ fault Fault.assertion_error | some r ↦ in_range (place_runner b r s) ] ≡ ok s'
    → s'.next_batter ≡ s.next_batter
auto_order b none s h = cc
auto_order b (some r) s h = (place_runner-score b r s (in_range-ok (place_runner b r s) h)).order

pub adjust-InOrder :
    (ev : Event) (s : State) {s' : State}
    → adjust ev s ≡ ok s'
    → ev.ladj_slot ≤ 9
    → InOrder s.next_batter
    → InOrder s'.next_batter
unfolding adjust
adjust-InOrder ev s {s'} h l o =
    let (s₂, p, q) = bind-eq_ok _ _ h in
    let e : s'.next_batter
        ≡ (if ev.ladj_slot == 0 then s else record s {
          next_batter = put_side s.next_batter s.batting_team ev.ladj_slot;
        }).next_batter =
      ap (λ (x : State). x.next_batter) (sym (ok-injective q))
      ∙ pitchers-order ev.presadj.at_first ev.presadj.at_second ev.presadj.at_third s₂
      ∙ either_way (ev.auto_base == 0) _ _
          (λ k. ap (λ (x : State). x.next_batter) (sym (ok-injective k)))
          (λ k. auto_order ev.auto_base ev.auto_runner_id _ k) p in
    subst InOrder (sym e)
      (adjusted_order (ev.ladj_slot == 0) s s.batting_team ev.ladj_slot (λ z. ground (arith, l)) o)
