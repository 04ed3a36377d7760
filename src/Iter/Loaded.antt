-- ===== src/Iter/Loaded.antt =====
-- The play that `next` leaves behind (cw/gameiter.py).
use mlb_baseball.Prelude.{
  ◌≤◌, ◌≡◌, ◌≢◌, refl, sym, ap, ◌∙◌, Bool, true, false, Option, none, some, some-injective, pos,
  if◌then◌else◌, arith,
}
use mathlib.Core.Path.{subst}
use mlb_baseball.Play.Bases.{Base, batter, first, second, third, number, on}
use mlb_baseball.Play.Event.{EventData, runner_put_out}
use mlb_baseball.Play.Parse.{Parsed, parsed, failed, parse_event}
use mlb_baseball.Game.Records.{Event}
use mlb_baseball.State.Record.{State, base_occupied}
use mlb_baseball.State.Update.{change_sides}
use mlb_baseball.Iter.Record.{Fault, ok, fault, ◌>>=◌, GameIter, event, is_play, parse_result}
use mlb_baseball.Iter.Step.{finish_event, adjust, same_half, settle, load_event, load_if, next}
use mlb_baseball.Iter.Rounds.{bind-eq_ok, ok-injective, either_way}
use mlb_baseball.Iter.Settle.{stands, settle-advance, settle-rbi_flag}

-- The play of an iterator is what `settle` makes of the parsed text of an event.
pub record IsLoaded (ev : Event) (gi : GameIter) : Type 0 where
  pub data' : EventData
  pub fine : Bool
  pub parse : parse_event ev.event_text ≡ parsed data' fine
  pub play : gi.play ≡ settle gi.state data'

abbrev data_or : EventData → Parsed → EventData
data_or d (parsed e b) = e
data_or d (failed x) = d

parsed-injective : {d e : EventData} {b c : Bool} → parsed d b ≡ parsed e c → d ≡ e
parsed-injective {d = d} p = ap (data_or d) p

parse_result-ok : (o : Parsed) {r : EventData × Bool} → parse_result o ≡ ok r → o ≡ parsed r.0 r.1
parse_result-ok (parsed d b) h = ap (λ (x : EventData × Bool). parsed x.0 x.1) (ok-injective h)
parse_result-ok (failed x) h = cc

then_branch :
    {A : Type 0} (b : Bool) (m n : A) {r : A} → b ≡ true → (if b then m else n) ≡ r → m ≡ r
then_branch true m n y h = h
then_branch false m n y h = cc

load_event-IsLoaded :
    (ev : Event) (gi : GameIter) {gi' : GameIter}
    → is_play ev ≡ true
    → load_event ev gi ≡ ok gi'
    → IsLoaded ev gi'
unfolding load_event
load_event-IsLoaded ev gi {gi'} y h =
    let (s, p, q) =
      bind-eq_ok (adjust ev (if same_half ev gi.state then gi.state else change_sides ev gi.state))
        _ h in
    let (d, p', q') =
      bind-eq_ok (parse_result (parse_event ev.event_text)) _ (then_branch (is_play ev) _ _ y q) in
    subst (IsLoaded ev) (ok-injective q') (record {
      data' = d.0;
      fine = d.1;
      parse = parse_result-ok (parse_event ev.event_text) p';
      play = refl;
    })

-- A play that is loaded leaves the iterator at its event.
load_event-event :
    (ev : Event) (gi : GameIter) {gi' : GameIter} → load_event ev gi ≡ ok gi' → event gi' ≡ event gi
unfolding load_event
load_event-event ev gi {gi'} h =
    let (s, p, q) =
      bind-eq_ok (adjust ev (if same_half ev gi.state then gi.state else change_sides ev gi.state))
        _ h in
    either_way (is_play ev) _ _
      (λ k.
        (let (d, p', q') = bind-eq_ok (parse_result (parse_event ev.event_text)) _ k in
          sym (ap event (ok-injective q'))))
      (λ k. sym (ap event (ok-injective k))) q

not_both : {A P : Type 0} {o : Option A} {a : A} → o ≡ none → o ≡ some a → P
not_both p q = cc

load_if-IsLoaded :
    (ev : Event) (o : Option Event) (gi : GameIter) {gi' : GameIter}
    → event gi ≡ o
    → load_if o gi ≡ ok gi'
    → event gi' ≡ some ev
    → is_play ev ≡ true
    → IsLoaded ev gi'
load_if-IsLoaded ev none gi p q e y = not_both (ap event (sym (ok-injective q)) ∙ p) e
load_if-IsLoaded ev (some ev') gi p q e y =
    let same : ev' ≡ ev = some-injective (sym p ∙ (sym (load_event-event ev' gi q) ∙ e)) in
    load_event-IsLoaded ev gi y (ap (λ (x : Event). load_event x gi) (sym same) ∙ q)

-- `next` ends with the loading of an event.
Loads : GameIter → Type 0
Loads gi' = (gi : GameIter) × (load_if (event gi) gi ≡ ok gi')

finished-Loads :
    (gi : GameIter) (o : Option Event) {gi' : GameIter}
    → elim o [
      | none ↦ fault Fault.assertion_error
      | some ev ↦ finish_event ev gi >>= λ gi₁. load_if (event gi₁) gi₁
    ]
      ≡ ok gi'
    → Loads gi'
unfolding Loads
finished-Loads gi none h = cc
finished-Loads gi (some ev) h = let (gi₁, p, q) = bind-eq_ok (finish_event ev gi) _ h in (gi₁, q)

next-Loads : (gi : GameIter) {gi' : GameIter} → next gi ≡ ok gi' → Loads gi'
unfolding next
next-Loads gi h = finished-Loads gi (event gi) h

next-IsLoaded :
    (gi : GameIter) (ev : Event) {gi' : GameIter}
    → next gi ≡ ok gi'
    → event gi' ≡ some ev
    → is_play ev ≡ true
    → IsLoaded ev gi'
unfolding Loads
next-IsLoaded gi ev h e y =
    let l = next-Loads gi h in load_if-IsLoaded ev (event l.0) l.0 refl l.1 e y

-- What `next` makes of the data `d` of a play in the state `s`, base by base
pub record IsPlayed (s : State) (d play : EventData) : Type 0 where
  -- what the play states is left
  pub stated : (b : Base) → 1 ≤ on d.advance b → on play.advance b ≡ on d.advance b
  -- a runner of whom it says nothing, and who is not put out, stays
  pub stays :
      (b : Base)
      → on d.advance b ≡ 0
      → base_occupied s b ≡ true
      → runner_put_out d b ≡ false
      → on play.advance b ≡ number b
  -- nobody moves from an empty base, and nobody who is put out is made to stay
  pub empty : (b : Base) → base_occupied s b ≡ false → on play.advance b ≡ on d.advance b
  pub out : (b : Base) → runner_put_out d b ≡ true → on play.advance b ≡ on d.advance b

stands_batter : (s : State) (d : EventData) → stands s d batter ≡ d.advance.at_batter
stands_batter s d = ground arith

advance_of : (s : State) (d : EventData) (b : Base) → on (settle s d).advance b ≡ stands s d b
advance_of s d batter = ap (λ x. on x batter) (settle-advance s d) ∙ sym (stands_batter s d)
advance_of s d first = ap (λ x. on x first) (settle-advance s d)
advance_of s d second = ap (λ x. on x second) (settle-advance s d)
advance_of s d third = ap (λ x. on x third) (settle-advance s d)

stands-IsPlayed : (s : State) (d : EventData) → IsPlayed s d (settle s d)
stands-IsPlayed s d = record {
  stated = λ b h. advance_of s d b ∙ ground (arith, h);
  stays = λ b h o p. advance_of s d b ∙ ground (arith, h, o, p);
  empty = λ b o. advance_of s d b ∙ ground (arith, o);
  out = λ b p. advance_of s d b ∙ ground (arith, p);
}

-- Where `next` moves on to a play whose text parses to the data `d`: each advance that `d` states is
-- left; a runner on a base of whom `d` says nothing, and who is not put out, is made to stay on his
-- base; and the advances from empty bases and of runners who are put out are those of `d`.
pub next-IsPlayed :
    (gi : GameIter) (ev : Event) (d : EventData) (fine : Bool) {gi' : GameIter}
    → next gi ≡ ok gi'
    → event gi' ≡ some ev
    → is_play ev ≡ true
    → parse_event ev.event_text ≡ parsed d fine
    → IsPlayed gi'.state d gi'.play
next-IsPlayed gi ev d fine {gi'} h e y p =
    let l = next-IsLoaded gi ev h e y in
    let same = parsed-injective (sym p ∙ l.parse) in
    subst (λ (x : EventData). IsPlayed gi'.state d x)
      (sym (l.play ∙ ap (settle gi'.state) (sym same))) (stands-IsPlayed gi'.state d)

-- Where `next` moves on to a play, no RBI flag of its data keeps the value 2 of an explicit RBI.
pub next-rbi_flag :
    (gi : GameIter) (ev : Event) (b : Base) {gi' : GameIter}
    → next gi ≡ ok gi'
    → event gi' ≡ some ev
    → is_play ev ≡ true
    → on gi'.play.rbi_flag b ≢ pos 2
next-rbi_flag gi ev b {gi'} h e y =
    let l = next-IsLoaded gi ev h e y in
    subst (λ (x : EventData). on x.rbi_flag b ≢ pos 2) (sym l.play)
      (settle-rbi_flag gi'.state l.data' b)
