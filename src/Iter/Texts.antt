-- ===== src/Iter/Texts.antt =====
-- What `next` and a look-ahead change of the shared game (cw/gameiter.py): comments, no play texts.
use mlb_baseball.Prelude.{
  some-injective, if◌then◌else◌, ℕ, zero, suc, ◌≡◌, refl, sym, ap, ◌∙◌, Option, none, some, List,
  [], ◌∷◌, get_elem?, set, length, map, Text,
}
use mlb_baseball.Play.Parse.{parse_event}
use mlb_baseball.Game.Records.{Event, Game}
use mlb_baseball.State.Update.{change_sides}
use mlb_baseball.Iter.Record.{
  ok, fault, Fault, ◌>>=◌, in_range, GameIter, event, is_play, parse_result,
}
use mlb_baseball.Iter.Step.{
  process_subs, finish_event, adjust, same_half, load_event, load_if, next,
}
use mlb_baseball.Iter.Rounds.{bind-eq_ok, ok-injective, either_way}

-- The play texts of a game
abbrev pub texts : Game → List Text
texts g = map (λ (ev : Event). ev.event_text) g.events

map-set_same :
    {A B : Type 0} (f : A → B) (l : List A) (i : ℕ) (x y : A)
    → get_elem? l i ≡ some x
    → f y ≡ f x
    → map f (set l i y) ≡ map f l
map-set_same f [] i x y h e = refl
map-set_same f (z ∷ l) zero x y h e = ap (λ b. b ∷ map f l) (e ∙ ap f (sym (some-injective h)))
map-set_same f (z ∷ l) (suc i) x y h e = ap (λ m. f z ∷ m) (map-set_same f l i x y h e)

finish_event-texts :
    (ev : Event) (gi : GameIter) {gi' : GameIter}
    → event gi ≡ some ev
    → finish_event ev gi ≡ ok gi'
    → texts gi'.game ≡ texts gi.game
unfolding finish_event
finish_event-texts ev gi {gi'} e h =
    let (s, p, q) = bind-eq_ok (in_range (process_subs ev ev.subs _)) _ h in
    ap (λ (x : GameIter). texts x.game) (sym (ok-injective q))
    ∙ map-set_same (λ (x : Event). x.event_text) gi.game.events gi.index ev _ e refl

load_event-game :
    (ev : Event) (gi : GameIter) {gi' : GameIter} → load_event ev gi ≡ ok gi' → gi'.game ≡ gi.game
unfolding load_event
load_event-game ev gi {gi'} h =
    let (s, p, q) =
      bind-eq_ok (adjust ev (if same_half ev gi.state then gi.state else change_sides ev gi.state))
        _ h in
    either_way (is_play ev) _ _
      (λ k.
        (let (d, p', q') = bind-eq_ok (parse_result (parse_event ev.event_text)) _ k in
          ap (λ (x : GameIter). x.game) (sym (ok-injective q'))))
      (λ k. ap (λ (x : GameIter). x.game) (sym (ok-injective k))) q

load_if-game :
    (o : Option Event) (gi : GameIter) {gi' : GameIter} → load_if o gi ≡ ok gi' → gi'.game ≡ gi.game
load_if-game none gi h = ap (λ (x : GameIter). x.game) (sym (ok-injective h))
load_if-game (some ev) gi h = load_event-game ev gi h

texts-on :
    (gi : GameIter) (o : Option Event) {gi' : GameIter}
    → event gi ≡ o
    → elim o [
      | none ↦ fault Fault.assertion_error
      | some ev ↦ finish_event ev gi >>= λ gi₁. load_if (event gi₁) gi₁
    ]
      ≡ ok gi'
    → texts gi'.game ≡ texts gi.game
texts-on gi none e h = cc
texts-on gi (some ev) {gi'} e h =
    let (gi₁, p, q) = bind-eq_ok (finish_event ev gi) _ h in
    ap texts (load_if-game (event gi₁) gi₁ q) ∙ finish_event-texts ev gi e p

-- A step keeps the play texts.
pub next-texts :
    (gi : GameIter) {gi' : GameIter} → next gi ≡ ok gi' → texts gi'.game ≡ texts gi.game
unfolding next
next-texts gi h = texts-on gi (event gi) refl h

pub length-texts : (g g' : Game) → texts g' ≡ texts g → length g'.events ≡ length g.events
length-texts g g' h = sym (counted g'.events) ∙ ap length h ∙ counted g.events
  where
    counted : (l : List Event) → length (map (λ (ev : Event). ev.event_text) l) ≡ length l
    counted [] = refl
    counted (ev ∷ l) = ap suc (counted l)

or_empty : Text → List Text → Text
or_empty d [] = d
or_empty d (t ∷ l) = t

rest_of : List Text → List Text
rest_of [] = []
rest_of (t ∷ l) = l

-- An event of a game, in a game of the same texts
pub event-texts :
    (l l' : List Event) (i : ℕ) (ev : Event)
    → map (λ (x : Event). x.event_text) l' ≡ map (λ (x : Event). x.event_text) l
    → get_elem? l i ≡ some ev
    → (ev' : Event) × (get_elem? l' i ≡ some ev') × (ev'.event_text ≡ ev.event_text)
unfolding or_empty rest_of
event-texts [] l' i ev h e = cc
event-texts (x ∷ l) [] i ev h e = cc
event-texts (x ∷ l) (x' ∷ l') zero ev h e =
    (x', refl, ap (or_empty []) h ∙ ap (λ (y : Event). y.event_text) (some-injective e))
event-texts (x ∷ l) (x' ∷ l') (suc i) ev h e = event-texts l l' i ev (ap rest_of h) e
