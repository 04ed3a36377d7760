-- ===== src/Game/Needed.antt =====
-- cw/game.py: what needs a preceding play record.
use mlb_baseball.Prelude.{
  eq_ℤ, pos, ◌≡◌, refl, ap, ◌∙◌, Bool, true, false, ◌&&◌, ◌||◌, not, Option, none, some, List, [],
  ◌∷◌, ◌==◌, Text,
}
use mlb_baseball.Play.Bases.{Base}
use mlb_baseball.Game.Records.{Event, Game}
use mlb_baseball.Game.Container.{change_last}
use mlb_baseball.Game.Pending.{
  Outcome, value, value_error, ◌>>=◌, Pending, announced, pending_on, change_event, Changes,
  change_events, announcements, attach,
}

-- The outcome is a ValueError.
abbrev pub raised : {A : Type 0} → Outcome A → Bool
raised (value a) = false
raised value_error = true

-- Something is announced that the play of this batter takes; `more` stands for the third base.
abbrev announced_or : Option Text → Pending → Bool → Bool
announced_or batter p more =
    announced batter p
    || (not (p.pit_hand == b' ')
        || (not (eq_ℤ p.ladj_slot (pos 0))
            || (not (eq_ℤ p.auto_base (pos 0))
                || (pending_on p Base.first || (pending_on p Base.second || more)))))

abbrev pub is_announced : Option Text → Pending → Bool
is_announced batter p = announced_or batter p (pending_on p Base.third)

abbrev any_made : Changes → Bool
any_made [] = false
any_made ((b, f) ∷ more) = b || any_made more

abbrev pub no_event : List Event → Bool
no_event [] = true
no_event (e ∷ l) = false

-- A change to the last of some events leaves some events.
record IsChanged (f : Event → Event) (l : List Event) : Type 0 where
  changed : List Event
  changes : change_last f l ≡ some changed
  keeps_some : no_event changed ≡ false

change_last-IsChanged : (f : Event → Event) (e : Event) (l : List Event) → IsChanged f (e ∷ l)
unfolding change_last
change_last-IsChanged f e [] = record { changed = f e ∷ []; changes = refl; keeps_some = refl }
change_last-IsChanged f e (e' ∷ l) =
    let inner = change_last-IsChanged f e' l in
    record { changed = e ∷ inner.changed; changes = rw inner.changes refl; keeps_some = refl }

-- A change that is made raises where there is no event, and what follows is done otherwise.
change_event-then :
    (z b : Bool) (f : Event → Event) (g : Game) (k : Game → Outcome Game) (rest : Bool)
    → no_event g.events ≡ z
    → ((g' : Game) → no_event g'.events ≡ z → raised (k g') ≡ z && rest)
    → raised (change_event b f g >>= k) ≡ z && (b || rest)
unfolding change_event
change_event-then z false f g k rest e h = h g e
change_event-then z true f g k rest e h = from z g.events e h
  where
    changed_game : Option (List Event) → Outcome Game
    changed_game o = elim o [ none ↦ value_error | some l ↦ value (record g { events = l }) ]

    from :
        (z : Bool) (l : List Event)
        → no_event l ≡ z
        → ((g' : Game) → no_event g'.events ≡ z → raised (k g') ≡ z && rest)
        → raised (changed_game (change_last f l) >>= k) ≡ z && (true || rest)
    from true [] e h = unfold change_last in refl
    from false [] e h = cc
    from true (x ∷ l) e h = cc
    from false (x ∷ l) e h =
        let more = change_last-IsChanged f x l in
        ap (λ o. raised (changed_game o >>= k)) more.changes
        ∙ h (record g { events = more.changed }) more.keeps_some

or_false : (b : Bool) → b || false ≡ b
or_false true = refl
or_false false = refl

and_false : (z : Bool) → false ≡ z && false
and_false true = refl
and_false false = refl

change_events-raised :
    (changes : Changes) (z : Bool) (g : Game)
    → no_event g.events ≡ z
    → raised (change_events changes g) ≡ z && any_made changes
unfolding change_events
change_events-raised [] z g e = and_false z
change_events-raised ((b, f) ∷ more) z g e =
    change_event-then z b f g (change_events more) (any_made more) e
      (λ g' e'. change_events-raised more z g' e')

-- What is announced for a play raises a ValueError exactly where something is announced that the play
-- takes and the game has no event.
pub attach-is_announced :
    (batter : Option Text) (p : Pending) (g : Game)
    → raised (attach batter p g) ≡ no_event g.events && is_announced batter p
unfolding attach
attach-is_announced batter p g =
    change_events-raised (announcements batter p) (no_event g.events) g refl
    ∙ ap (λ (x : Bool). no_event g.events && announced_or batter p x)
        (or_false (pending_on p Base.third))
