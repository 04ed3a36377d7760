-- ===== src/Box/Ends.antt =====
-- The loop of `iterate_game` (cw/box.py) ends: a round moves on by one event, the look-ahead of the
-- substitutions by none.
use mlb_baseball.Prelude.{
  ℕ, zero, suc, ◌≡◌, refl, ap, ◌∙◌, sym, ◌||◌, Option, none, some, List, [], ◌∷◌, ◌==◌, ltb, leb,
  if◌then◌else◌,
}
use mathlib.Core.Path.{subst}
use mlb_baseball.Play.Bases.{Base, first, second, third, on}
use mlb_baseball.Play.Event.{EventData}
use mlb_baseball.Game.Records.{Appearance, Event, Game}
use mlb_baseball.State.Record.{State, base_occupied}
use mlb_baseball.Iter.Record.{Result, ok, fault, GameIter, event, copy}
use mlb_baseball.Iter.Step.{next}
use mlb_baseball.Iter.Ahead.{
  Round, go_on, leave, in_half, visit, ahead_loop, events_left, look_ahead, runner_fate,
}
use mlb_baseball.Iter.Rounds.{bind-eq_ok, ok-injective, either_way}
use mlb_baseball.Iter.Texts.{texts, next-texts}
use mlb_baseball.Box.Record.{Stat, Boxscore}
use mlb_baseball.Box.Find.{count_pitching, deref, when, current_pitcher}
use mlb_baseball.Box.Substitute.{
  Step, done, relieve, inherit, pitcher_change, substitution, add_substitutes,
}

module _ {A : Type 0} (self : State) (round : EventData → A → Round A) where
  ahead_loop-texts :
      (n : ℕ) (a : A) (gi : GameIter) {r : A × Game}
      → ahead_loop self round n a gi ≡ ok r
      → texts r.1 ≡ texts gi.game
  unfolding ahead_loop
  ahead_loop-texts zero a gi h = ap (λ (x : A × Game). texts x.1) (sym (ok-injective h))
  ahead_loop-texts (suc n) a gi {r} h =
      from (event gi) (λ b gi'. ahead_loop-texts n b gi' {r = r}) h
    where
      here : {b : A} → ok (b, gi.game) ≡ ok r → texts r.1 ≡ texts gi.game
      here k = ap (λ (x : A × Game). texts x.1) (sym (ok-injective k))

      moved :
          (b : A) (o : Result GameIter)
          → next gi ≡ o
          → ((b : A) (gi' : GameIter)
              → ahead_loop self round n b gi' ≡ ok r
              → texts r.1 ≡ texts gi'.game)
          → elim o [ fault x ↦ fault x | ok gi' ↦ ahead_loop self round n b gi' ] ≡ ok r
          → texts r.1 ≡ texts gi.game
      moved b (fault x) e f k = cc
      moved b (ok gi') e f k = f b gi' k ∙ next-texts gi e

      seen :
          (v : Round A)
          → ((b : A) (gi' : GameIter)
              → ahead_loop self round n b gi' ≡ ok r
              → texts r.1 ≡ texts gi'.game)
          → elim v [
            | leave b ↦ ok (b, gi.game)
            | go_on b ↦ elim (next gi) [
              | fault x ↦ fault x
              | ok gi' ↦ ahead_loop self round n b gi'
            ]
          ]
            ≡ ok r
          → texts r.1 ≡ texts gi.game
      seen (leave b) f k = here k
      seen (go_on b) f k = moved b (next gi) refl f k

      from :
          (o : Option Event)
          → ((b : A) (gi' : GameIter)
              → ahead_loop self round n b gi' ≡ ok r
              → texts r.1 ≡ texts gi'.game)
          → elim o [
            | none ↦ ok (a, gi.game)
            | some ev ↦
                if in_half self gi.state
                then elim (visit self round ev gi.play a) [
                  | leave b ↦ ok (b, gi.game)
                  | go_on b ↦ elim (next gi) [
                    | fault x ↦ fault x
                    | ok gi' ↦ ahead_loop self round n b gi'
                  ]
                ]
                else ok (a, gi.game)
          ]
            ≡ ok r
          → texts r.1 ≡ texts gi.game
      from none f k = here k
      from (some ev) f k =
          either_way (in_half self gi.state) _ _ (seen (visit self round ev gi.play a) f) here k

-- The iterator at the same event, over a game of the same texts
pub record IsThere (gi gi' : GameIter) : Type 0 where
  pub index : gi'.index ≡ gi.index
  pub game : texts gi'.game ≡ texts gi.game
  pub state : gi'.state ≡ gi.state
  pub play : gi'.play ≡ gi.play

there : (gi : GameIter) → IsThere gi gi
there gi = record { index = refl; game = refl; state = refl; play = refl }

look_ahead-IsThere :
    {A : Type 0} (round : EventData → A → Round A) (a : A) (gi : GameIter) {r : A × GameIter}
    → look_ahead round a gi ≡ ok r
    → IsThere gi r.1
unfolding look_ahead copy
look_ahead-IsThere {A} round a gi {r} h =
    let (gi', p, q) = bind-eq_ok (next (copy gi)) _ h in
    let (done, p', q') = bind-eq_ok (ahead_loop gi.state round (events_left gi') a gi') _ q in
    subst (λ (x : A × GameIter). IsThere gi x.1) (ok-injective q')
      (record {
        index = refl;
        game = ahead_loop-texts gi.state round (events_left gi') a gi' p' ∙ next-texts (copy gi) p;
        state = refl;
        play = refl;
      })

runner_fate-IsThere :
    (b : Base) (gi : GameIter) {r : ℕ × GameIter} → runner_fate b gi ≡ ok r → IsThere gi r.1
unfolding runner_fate
runner_fate-IsThere b gi {r} h =
    either_way ((on gi.play.advance b == 0) || leb 4 (on gi.play.advance b)) _ _
      (λ k. subst (λ (x : ℕ × GameIter). IsThere gi x.1) (ok-injective k) (there gi))
      (λ k. look_ahead-IsThere _ _ gi k) h

-- A step that leaves the iterator at its event
pub record StaysThere (step : Step) : Type 0 where
  pub run :
      (box : Boxscore) (gi : GameIter) (r : Boxscore × GameIter)
      → step box gi ≡ ok r
      → IsThere gi r.1

done-StaysThere : StaysThere done
done-StaysThere = record {
  run =
      λ box gi r h. subst (λ (x : Boxscore × GameIter). IsThere gi x.1) (ok-injective h) (there gi);
}

stays_on : {a b c : GameIter} → IsThere a b → IsThere b c → IsThere a c
stays_on m k = record {
  index = k.index ∙ m.index;
  game = k.game ∙ m.game;
  state = k.state ∙ m.state;
  play = k.play ∙ m.play;
}

inherit-StaysThere :
    (sub : Appearance) (s : State) (b : Base) {rest : Step}
    → StaysThere rest
    → StaysThere (inherit sub s b rest)
unfolding inherit
inherit-StaysThere sub s b {rest} f = record {
  run = λ box gi r h.
      either_way (base_occupied s b) _ _
        (λ k.
          (let (box₁, p, q) =
              bind-eq_ok (deref (current_pitcher sub.team box) (count_pitching Stat.inr 1) box) _
                k in
            let (fated, p', q') = bind-eq_ok (runner_fate b gi) _ q in
            let (box₂, p'', q'') =
              bind-eq_ok
                (when (leb 4 fated.0)
                  (deref (current_pitcher sub.team box₁) (count_pitching Stat.inrs 1)) box₁)
                _ q' in
            stays_on (runner_fate-IsThere b gi p') (f.run box₂ fated.1 r q'')))
        (f.run box gi r) h;
}

pitcher_change-StaysThere : (sub : Appearance) (s : State) → StaysThere (pitcher_change sub s)
unfolding pitcher_change
pitcher_change-StaysThere sub s = record {
  run = λ box gi r h.
      either_way (sub.pos == 1) _ _
        (λ k.
          (let (box₁, p, q) =
              bind-eq_ok
                (deref (current_pitcher sub.team box) (λ cur box₁. ok (relieve sub s cur box₁)) box)
                _ k in
            (inherit-StaysThere sub s first (
                inherit-StaysThere sub s second
                  (inherit-StaysThere sub s third done-StaysThere))).run
              box₁ gi r q))
        (done-StaysThere.run box gi r) h;
}

pub add_substitutes-StaysThere :
    (l : List Appearance) (s : State) → StaysThere (add_substitutes l s)
unfolding add_substitutes substitution
add_substitutes-StaysThere [] s = record { run = done-StaysThere.run }
add_substitutes-StaysThere (sub ∷ l) s = record {
  run = λ box gi r h.
      (let (mid, p, q) = bind-eq_ok (substitution sub s box gi) _ h in
        stays_on
          (either_way (ltb 9 sub.slot || (sub.pos == 0) || ltb 12 sub.pos) _ _ (λ k. cc)
            ((pitcher_change-StaysThere sub s).run _ gi mid) p)
          ((add_substitutes-StaysThere l s).run mid.0 mid.1 r q));
}
