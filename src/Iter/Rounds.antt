-- ===== src/Iter/Rounds.antt =====
-- `next` and the look-ahead (cw/gameiter.py): the position in the game, and the rounds of the loop.
use mlb_baseball.Prelude.{
  ℕ, zero, suc, ◌+◌, ◌≤◌, ◌<◌, ◌≡◌, refl, sym, ap, ◌∙◌, Bool, true, false, Option, none, some, List,
  [], ◌∷◌, length, length-set, get_elem?, if◌then◌else◌, arith,
}
use mlb_baseball.Play.Parse.{parse_event}
use mlb_baseball.Game.Records.{Event}
use mlb_baseball.State.Update.{change_sides}
use mlb_baseball.Iter.Record.{
  Result, ok, fault, Fault, ◌>>=◌, in_range, GameIter, event, is_play, parse_result,
}
use mlb_baseball.Iter.Step.{
  process_subs, finish_event, adjust, same_half, load_event, load_if, next,
}
use mlb_baseball.Iter.Ahead.{events_left}

-- Where a step and what follows it return, the step alone returns.
pub bind-eq_ok :
    {A B : Type 0} (step : Result A) (rest : A → Result B) {end : B}
    → (step >>= rest) ≡ ok end
    → (mid : A) × (step ≡ ok mid) × (rest mid ≡ ok end)
bind-eq_ok (ok mid) rest p = (mid, refl, p)
bind-eq_ok (fault x) rest p = cc

-- One event further on in a game of as many events
pub record IsMoved (by : ℕ) (gi gi' : GameIter) : Type 0 where
  pub index : gi'.index ≡ gi.index + by
  pub size : length gi'.game.events ≡ length gi.game.events

ok_value : {A : Type 0} → A → Result A → A
ok_value d (ok a) = a
ok_value d (fault x) = d

pub ok-injective : {A : Type 0} {a b : A} → ok a ≡ ok b → a ≡ b
unfolding ok_value
ok-injective {A} {a} {b} p = ap (ok_value a) p

IsMoved-by : (n : ℕ) (gi x y : GameIter) → IsMoved n gi x → ok x ≡ ok y → IsMoved n gi y
IsMoved-by n gi x y m p =
    let e = sym (ok-injective p) in
    record {
      index = ap (λ (z : GameIter). z.index) e ∙ m.index;
      size = ap (λ (z : GameIter). length z.game.events) e ∙ m.size;
    }

finish_event-IsMoved :
    (ev : Event) (gi : GameIter) {gi' : GameIter} → finish_event ev gi ≡ ok gi' → IsMoved 1 gi gi'
unfolding finish_event
finish_event-IsMoved ev gi {gi'} h =
    let (s, p, q) = bind-eq_ok (in_range (process_subs ev ev.subs _)) _ h in
    IsMoved-by 1 gi _ gi' (record { index = refl; size = length-set gi.game.events gi.index _ }) q

pub either_way :
    {A P : Type 0} (c : Bool) (m n : Result A) {a : A}
    → (m ≡ ok a → P)
    → (n ≡ ok a → P)
    → (if c then m else n) ≡ ok a
    → P
either_way true m n f g h = f h
either_way false m n f g h = g h

load_event-IsMoved :
    (ev : Event) (gi : GameIter) {gi' : GameIter} → load_event ev gi ≡ ok gi' → IsMoved 0 gi gi'
unfolding load_event
load_event-IsMoved ev gi {gi'} h =
    let (s, p, q) =
      bind-eq_ok (adjust ev (if same_half ev gi.state then gi.state else change_sides ev gi.state))
        _ h in
    either_way (is_play ev) _ _
      (λ k.
        (let (d, p', q') = bind-eq_ok (parse_result (parse_event ev.event_text)) _ k in
          IsMoved-by 0 gi _ gi' (record { index = omega arith; size = refl }) q'))
      (IsMoved-by 0 gi _ gi' (record { index = omega arith; size = refl })) q

load_if-IsMoved :
    (o : Option Event) (gi : GameIter) {gi' : GameIter} → load_if o gi ≡ ok gi' → IsMoved 0 gi gi'
load_if-IsMoved none gi {gi'} h =
    IsMoved-by 0 gi gi gi' (record { index = omega arith; size = refl }) h
load_if-IsMoved (some ev) gi h = load_event-IsMoved ev gi h

IsMoved-on :
    (gi : GameIter) (o : Option Event) {gi' : GameIter}
    → elim o [
      | none ↦ fault Fault.assertion_error
      | some ev ↦ finish_event ev gi >>= λ gi₁. load_if (event gi₁) gi₁
    ]
      ≡ ok gi'
    → IsMoved 1 gi gi'
IsMoved-on gi none h = cc
IsMoved-on gi (some ev) {gi'} h =
    let (gi₁, p, q) = bind-eq_ok (finish_event ev gi) _ h in
    let m = finish_event-IsMoved ev gi p in
    let k = load_if-IsMoved (event gi₁) gi₁ q in
    record { index = omega (arith, m.index, k.index); size = k.size ∙ m.size }

-- Where `next` returns, the iterator is one event further on, in a game of as many events.
pub next-IsMoved : (gi : GameIter) {gi' : GameIter} → next gi ≡ ok gi' → IsMoved 1 gi gi'
unfolding next
next-IsMoved gi h = IsMoved-on gi (event gi) h

get_elem?-lt : {A : Type 0} (xs : List A) (i : ℕ) {a : A} → get_elem? xs i ≡ some a → i < length xs
get_elem?-lt [] i h = cc
get_elem?-lt (x ∷ xs) zero h = omega arith
get_elem?-lt (x ∷ xs) (suc i) h = omega (arith, get_elem?-lt xs i h)

-- The rounds left shrink at each step from an event.
pub next-events_left :
    (gi : GameIter) {gi' : GameIter} {ev : Event} (n : ℕ)
    → event gi ≡ some ev
    → next gi ≡ ok gi'
    → events_left gi ≤ suc n
    → events_left gi' ≤ n
next-events_left gi n e h l =
    let m = next-IsMoved gi h in
    omega (arith, m.index, m.size, get_elem?-lt gi.game.events gi.index e)

pub events_left-event : (gi : GameIter) {ev : Event} → event gi ≡ some ev → 1 ≤ events_left gi
events_left-event gi e = omega (arith, get_elem?-lt gi.game.events gi.index e)
