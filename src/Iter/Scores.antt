-- ===== src/Iter/Scores.antt =====
-- `next` and the score board (cw/gameiter.py).
use mlb_baseball.Prelude.{
  ℕ, ◌+◌, ◌≡◌, refl, sym, ap, ◌∙◌, Bool, true, false, Option, none, some, List, [], ◌∷◌, ◌==◌,
  if◌then◌else◌, arith, Bool-cases, inl, inr, Text,
}
use mlb_baseball.Prelude.Sides.{Team, Sides, side, put_side, side-put_side}
use mlb_baseball.Play.Bases.{first, second, third}
use mlb_baseball.Play.Event.{EventData, runs_on_play}
use mlb_baseball.Play.Parse.{parse_event}
use mlb_baseball.Game.Records.{Appearance, Event}
use mlb_baseball.State.Record.{State}
use mlb_baseball.State.Advance.{place_runner}
use mlb_baseball.State.Update.{change_sides, update, substitute}
use mlb_baseball.State.Scores.{
  SameScore, same, trans_score, into_score, update-score, substitute-score, change_sides-score,
  place_runner-score,
}
use mlb_baseball.Iter.Record.{
  ok, fault, Fault, ◌>>=◌, in_range, GameIter, event, is_play, parse_result,
}
use mlb_baseball.Iter.Step.{
  process_subs, finish_event, adjust, adjust_pitcher, same_half, load_event, load_if, next,
}
use mlb_baseball.Iter.Rounds.{bind-eq_ok, ok-injective, either_way}

pub process_subs-score :
    (ev : Event) (l : List Appearance) (s : State) {s' : State}
    → process_subs ev l s ≡ some s'
    → SameScore s s'
unfolding process_subs
process_subs-score ev [] s {s'} h = into_score s s s' (same s) h
process_subs-score ev (a ∷ l) s {s'} h =
    from (substitute ev.batter ev.count a.player_id a.name a.team a.slot a.pos s) refl h
      (λ s₁. process_subs-score ev l s₁ {s' = s'})
  where
    from :
        (o : Option State)
        → substitute ev.batter ev.count a.player_id a.name a.team a.slot a.pos s ≡ o
        → elim o [ none ↦ none | some s₁ ↦ process_subs ev l s₁ ] ≡ some s'
        → ((s₁ : State) → process_subs ev l s₁ ≡ some s' → SameScore s₁ s')
        → SameScore s s'
    from none e k f = cc
    from (some s₁) e k f =
        trans_score (substitute-score ev.batter ev.count a.player_id a.name a.team a.slot a.pos s e)
          (f s₁ k)

pub in_range-ok : (o : Option State) {s : State} → in_range o ≡ ok s → o ≡ some s
in_range-ok none h = cc
in_range-ok (some x) h = cc

pitchers-score :
    (a b c : Option Text) (s : State)
    → (adjust_pitcher third c (adjust_pitcher second b (adjust_pitcher first a s))).score ≡ s.score
pitchers-score none none none s = refl
pitchers-score none none (some p) s = refl
pitchers-score none (some p) none s = refl
pitchers-score none (some p) (some q) s = refl
pitchers-score (some p) none none s = refl
pitchers-score (some p) none (some q) s = refl
pitchers-score (some p) (some q) none s = refl
pitchers-score (some p) (some q) (some r) s = refl

slot_score :
    (ev : Event) (s : State)
    → (if ev.ladj_slot == 0
        then s
        else record s { next_batter = put_side s.next_batter s.batting_team ev.ladj_slot }).score
      ≡ s.score
slot_score ev s = elim (Bool-cases (ev.ladj_slot == 0)) [ inl e ↦ rw e | inr e ↦ rw e ]

auto_score :
    (b : ℕ) (o : Option Text) (s : State) {s' : State}
    → elim o [ none ↦ fault Fault.assertion_error | some r ↦ in_range (place_runner b r s) ] ≡ ok s'
    → s'.score ≡ s.score
auto_score b none s h = cc
auto_score b (some r) s h = (place_runner-score b r s (in_range-ok (place_runner b r s) h)).score

adjust-score : (ev : Event) (s : State) {s' : State} → adjust ev s ≡ ok s' → s'.score ≡ s.score
unfolding adjust
adjust-score ev s {s'} h =
    let (s₂, p, q) = bind-eq_ok _ _ h in
    ap (λ (x : State). x.score) (sym (ok-injective q))
    ∙ pitchers-score ev.presadj.at_first ev.presadj.at_second ev.presadj.at_third s₂
    ∙ either_way (ev.auto_base == 0) _ _
        (λ k. ap (λ (x : State). x.score) (sym (ok-injective k)) ∙ slot_score ev s)
        (λ k. auto_score ev.auto_base ev.auto_runner_id _ k ∙ slot_score ev s) p

-- The runs of the play of an event, none where the event is not a play
abbrev pub event_runs : Event → EventData → ℕ
event_runs ev d = if is_play ev then runs_on_play d else 0

-- The score with more runs for a side
abbrev pub more_score : Team → ℕ → Sides ℕ → Sides ℕ
more_score t n xs = put_side xs t (side xs t + n)

plus_none : (n : ℕ) → n ≡ n + 0
plus_none n = omega arith

none_more : (xs : Sides ℕ) (t : Team) → xs ≡ more_score t 0 xs
none_more xs Team.visitors = ap (put_side xs Team.visitors) (plus_none xs.away_side)
none_more xs Team.home = ap (put_side xs Team.home) (plus_none xs.home_side)

played_score :
    (c : Bool) (t : Text) (d : EventData) (s x : State)
    → x.score ≡ s.score
    → (if c then update t d s else x).score
      ≡ more_score s.batting_team (if c then runs_on_play d else 0) s.score
played_score true t d s x h = update-score t d s
played_score false t d s x h = h ∙ none_more s.score s.batting_team

finish_event-score :
    (ev : Event) (gi : GameIter) {gi' : GameIter}
    → finish_event ev gi ≡ ok gi'
    → gi'.state.score ≡ more_score gi.state.batting_team (event_runs ev gi.play) gi.state.score
unfolding finish_event
finish_event-score ev gi {gi'} h =
    let (s, p, q) = bind-eq_ok (in_range (process_subs ev ev.subs _)) _ h in
    let k = process_subs-score ev ev.subs _ (in_range-ok (process_subs ev ev.subs _) p) in
    ap (λ (x : GameIter). x.state.score) (sym (ok-injective q))
    ∙ k.score
    ∙ played_score (is_play ev) ev.batter gi.play gi.state _ refl

half_score :
    (c : Bool) (ev : Event) (s : State) → (if c then s else change_sides ev s).score ≡ s.score
half_score true ev s = refl
half_score false ev s = change_sides-score ev s

load_event-score :
    (ev : Event) (gi : GameIter) {gi' : GameIter}
    → load_event ev gi ≡ ok gi'
    → gi'.state.score ≡ gi.state.score
unfolding load_event
load_event-score ev gi {gi'} h =
    let (s, p, q) =
      bind-eq_ok (adjust ev (if same_half ev gi.state then gi.state else change_sides ev gi.state))
        _ h in
    either_way (is_play ev) _ _
      (λ k.
        (let (d, p', q') = bind-eq_ok (parse_result (parse_event ev.event_text)) _ k in
          ap (λ (x : GameIter). x.state.score) (sym (ok-injective q'))
          ∙ adjust-score ev _ p
          ∙ half_score (same_half ev gi.state) ev gi.state))
      (λ k.
        ap (λ (x : GameIter). x.state.score) (sym (ok-injective k))
        ∙ adjust-score ev _ p
        ∙ half_score (same_half ev gi.state) ev gi.state)
      q

load_if-score :
    (o : Option Event) (gi : GameIter) {gi' : GameIter}
    → load_if o gi ≡ ok gi'
    → gi'.state.score ≡ gi.state.score
load_if-score none gi h = ap (λ (x : GameIter). x.state.score) (sym (ok-injective h))
load_if-score (some ev) gi h = load_event-score ev gi h

next_from :
    (gi : GameIter) (ev : Event) (o : Option Event) {gi' : GameIter}
    → o ≡ some ev
    → elim o [
      | none ↦ fault Fault.assertion_error
      | some ev ↦ finish_event ev gi >>= λ gi₁. load_if (event gi₁) gi₁
    ]
      ≡ ok gi'
    → (finish_event ev gi >>= λ gi₁. load_if (event gi₁) gi₁) ≡ ok gi'
next_from gi ev o {gi'} e h = rw e at h

-- Where `next` returns, the score is that before it with the runs of the play.
pub next-board :
    (gi : GameIter) (ev : Event) {gi' : GameIter}
    → event gi ≡ some ev
    → next gi ≡ ok gi'
    → gi'.state.score ≡ more_score gi.state.batting_team (event_runs ev gi.play) gi.state.score
unfolding next
next-board gi ev {gi'} e h =
    let (gi₁, p, q) = bind-eq_ok (finish_event ev gi) _ (next_from gi ev (event gi) e h) in
    load_if-score (event gi₁) gi₁ q ∙ finish_event-score ev gi p

-- Where `next` returns, it has added the runs of the play that it leaves, and none where the event
-- is no play, to the score of the side that batted.
pub next-score :
    (gi : GameIter) (ev : Event) {gi' : GameIter}
    → event gi ≡ some ev
    → next gi ≡ ok gi'
    → side gi'.state.score gi.state.batting_team
      ≡ side gi.state.score gi.state.batting_team + event_runs ev gi.play
next-score gi ev {gi'} e h =
    ap (λ (x : Sides ℕ). side x gi.state.batting_team) (next-board gi ev e h)
    ∙ side-put_side gi.state.score gi.state.batting_team
        (side gi.state.score gi.state.batting_team + event_runs ev gi.play)
