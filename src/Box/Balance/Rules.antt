-- ===== src/Box/Balance/Rules.antt =====
-- What an action on a box score (cw/box.py) leads from a condition to, by the way it is composed.
use mlb_baseball.Prelude.{◌≡◌, refl, Bool, true, false, Option, none, some, if◌then◌else◌}
use mathlib.Core.Path.{subst}
use mlb_baseball.Iter.Record.{ok}
use mlb_baseball.Iter.Rounds.{bind-eq_ok, ok-injective}
use mlb_baseball.Box.Record.{Boxscore}
use mlb_baseball.Box.Find.{Action, ◌then◌, deref, or_return, when}

-- Where the action returns from a box score with `P`, it returns one with `Q`.
pub record Leads (P Q : Boxscore → Type 0) (act : Action) : Type 0 where
  pub run : (box box' : Boxscore) → P box → act box ≡ ok box' → Q box'

module _ {P : Boxscore → Type 0} where
  pub Leads-ok : Leads P P ok
  Leads-ok = record { run = λ box box' p h. subst P (ok-injective h) p }

  pub Leads-then :
      {Q R : Boxscore → Type 0} {act rest : Action}
      → Leads P Q act
      → Leads Q R rest
      → Leads P R (act then rest)
  Leads-then {act = act} {rest = rest} f g = record {
    run = λ box box' p h.
        (let (mid, k, l) = bind-eq_ok (act box) rest h in g.run mid box' (f.run box mid p k) l);
  }

  pub Leads-if :
      {Q : Boxscore → Type 0} (c : Bool) {act rest : Action}
      → Leads P Q act
      → Leads P Q rest
      → Leads P Q (if c then act else rest)
  Leads-if true f g = f
  Leads-if false f g = g

  pub Leads-when : (c : Bool) {act : Action} → Leads P P act → Leads P P (when c act)
  Leads-when true f = record { run = f.run }
  Leads-when false f = record { run = Leads-ok.run }

  pub Leads-deref :
      {A : Type 0} {Q : Boxscore → Type 0} (o : Option A) {act : A → Action}
      → ((a : A) → Leads P Q (act a))
      → Leads P Q (deref o act)
  Leads-deref none f = record { run = λ box box' p h. cc }
  Leads-deref (some a) f = record { run = (f a).run }

  -- A search of the box score: the function returns where nothing is found.
  pub Leads-or_leave :
      {A : Type 0} {Q : Boxscore → Type 0} (find : Boxscore → Option A) {act : A → Action}
      → ((box : Boxscore) → P box → Q box)
      → ((a : A) (box box' : Boxscore) → P box → find box ≡ some a → act a box ≡ ok box' → Q box')
      → Leads P Q (λ box. or_return (find box) act box)
  Leads-or_leave {A} {Q} find {act} w f = record {
    run = λ box box' p h. from box box' p (find box) refl h;
  }
    where
      from :
          (box box' : Boxscore)
          → P box
          → (o : Option A) → find box ≡ o
          → or_return o act box ≡ ok box'
          → Q box'
      from box box' p none e k = subst Q (ok-injective k) (w box p)
      from box box' p (some a) e k = f a box box' p e k

  pub Leads-or_return :
      {A : Type 0} (find : Boxscore → Option A) {act : A → Action}
      → ((a : A) (box box' : Boxscore) → P box → find box ≡ some a → act a box ≡ ok box' → P box')
      → Leads P P (λ box. or_return (find box) act box)
  Leads-or_return find f = Leads-or_leave find (λ box p. p) f

  -- A search of the box score that fails where nothing is found
  pub Leads-found :
      {A : Type 0} {Q : Boxscore → Type 0} (find : Boxscore → Option A) {act : A → Action}
      → ((a : A) (box box' : Boxscore) → P box → find box ≡ some a → act a box ≡ ok box' → Q box')
      → Leads P Q (λ box. deref (find box) act box)
  Leads-found {A} {Q} find {act} f = record {
    run = λ box box' p h. from box box' p (find box) refl h;
  }
    where
      from :
          (box box' : Boxscore)
          → P box
          → (o : Option A) → find box ≡ o
          → deref o act box ≡ ok box'
          → Q box'
      from box box' p none e k = cc
      from box box' p (some a) e k = f a box box' p e k
