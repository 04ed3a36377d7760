-- ===== src/Box/Balance/Present.antt =====
-- Places that stand for an entry of a box score (cw/box.py): those that the searches find, and those
-- that a change of an entry leaves.
use mlb_baseball.Prelude.{
  some-injective, ℕ, zero, suc, ◌+◌, ◌≡◌, refl, ap, ◌∙◌, Bool, true, false, Option, none, some,
  List, [], ◌∷◌, get_or, get_elem?, arith, if◌then◌else◌, Text, text_eq, drop,
}
use mathlib.Core.Path.{subst}
use mlb_baseball.Prelude.Sides.{Team, Sides, side, put_side}
use mlb_baseball.State.Update.{is_some}
use mlb_baseball.Box.Record.{BoxPlayer, BoxPitcher, Boxscore}
use mlb_baseball.Box.Find.{
  Place, PitcherPlace, modify, player_at, pitcher_at, change_player, change_pitcher, find_in_chain,
  find_in_slots, first_slot, find_player, find_current_in, find_current_player, find_in_pitchers,
  find_on_side, find_pitcher, current_pitcher, visitors_first,
}

some-modify :
    {A : Type 0} (f : A → A) (l : List A) (i j : ℕ)
    → is_some (get_elem? (modify i f l) j) ≡ is_some (get_elem? l j)
some-modify f [] i j = refl
some-modify f (x ∷ l) zero zero = refl
some-modify f (x ∷ l) zero (suc j) = refl
some-modify f (x ∷ l) (suc i) zero = refl
some-modify f (x ∷ l) (suc i) (suc j) = some-modify f l i j

some-modify_nested :
    {A : Type 0} (f : A → A) (ls : List (List A)) (i d j e : ℕ)
    → is_some (get_elem? (get_or (modify i (modify d f) ls) j []) e)
      ≡ is_some (get_elem? (get_or ls j []) e)
some-modify_nested f [] i d j e = refl
some-modify_nested f (l ∷ ls) zero d zero e = some-modify f l d e
some-modify_nested f (l ∷ ls) zero d (suc j) e = refl
some-modify_nested f (l ∷ ls) (suc i) d zero e = refl
some-modify_nested f (l ∷ ls) (suc i) d (suc j) e = some-modify_nested f ls i d j e

pub put_side-test :
    {A B : Type 0} (test : A → B) (xs : Sides A) (t t' : Team) (c : A)
    → test c ≡ test (side xs t)
    → test (side (put_side xs t c) t') ≡ test (side xs t')
put_side-test test xs Team.visitors Team.visitors c h = h
put_side-test test xs Team.visitors Team.home c h = refl
put_side-test test xs Team.home Team.visitors c h = refl
put_side-test test xs Team.home Team.home c h = h

-- A player is there after a change where he was before it.
pub player_at-change_player :
    (w w' : Place) (f : BoxPlayer → BoxPlayer) (box : Boxscore)
    → is_some (player_at w (change_player w' f box)) ≡ is_some (player_at w box)
unfolding change_player
player_at-change_player w w' f box =
    put_side-test
      (λ (ls : List (List BoxPlayer)). is_some (get_elem? (get_or ls w.slot []) w.depth)) box.slots
      w'.team w.team _
      (some-modify_nested f (side box.slots w'.team) w'.slot w'.depth w.slot w.depth)

pub pitcher_at-change_pitcher :
    (w w' : PitcherPlace) (f : BoxPitcher → BoxPitcher) (box : Boxscore)
    → is_some (pitcher_at w (change_pitcher w' f box)) ≡ is_some (pitcher_at w box)
unfolding change_pitcher
pitcher_at-change_pitcher w w' f box =
    put_side-test (λ (l : List BoxPitcher). is_some (get_elem? l w.depth)) box.pitchers w'.team
      w.team _ (some-modify f (side box.pitchers w'.team) w'.depth w.depth)

found_at : {A : Type 0} (P : A → Type 0) {a b : A} → some a ≡ some b → P a → P b
found_at P e p = subst P (some-injective e) p

find_in_chain-there :
    (id : Text) (l : List BoxPlayer) {d : ℕ}
    → find_in_chain id l ≡ some d
    → is_some (get_elem? l d) ≡ true
unfolding find_in_chain
find_in_chain-there id [] h = cc
find_in_chain-there id (p ∷ l) {d} h =
    from (text_eq p.player_id id) (find_in_chain id l) refl (λ i. find_in_chain-there id l {d = i})
      h
  where
    from :
        (c : Bool) (o : Option ℕ)
        → find_in_chain id l ≡ o
        → ((i : ℕ) → find_in_chain id l ≡ some i → is_some (get_elem? l i) ≡ true)
        → (if c then some 0 else elim o [ none ↦ none | some i ↦ some (suc i) ]) ≡ some d
        → is_some (get_elem? (p ∷ l) d) ≡ true
    from true o e f k = found_at (λ i. is_some (get_elem? (p ∷ l) i) ≡ true) k refl
    from false none e f k = cc
    from false (some i) e f k = found_at (λ j. is_some (get_elem? (p ∷ l) j) ≡ true) k (f i e)

-- A place in the slots of a side from the slot `i` on
record IsIn (t : Team) (i : ℕ) (ls : List (List BoxPlayer)) (w : Place) : Type 0 where
  offset : ℕ
  team : w.team ≡ t
  slot : w.slot ≡ i + offset
  there : is_some (get_elem? (get_or ls offset []) w.depth) ≡ true

IsIn-later :
    (t : Team) (i : ℕ) (l : List BoxPlayer) (ls : List (List BoxPlayer)) (w : Place)
    → IsIn t (i + 1) ls w
    → IsIn t i (l ∷ ls) w
IsIn-later t i l ls w p = record {
  offset = suc p.offset;
  team = p.team;
  slot = omega (arith, p.slot);
  there = p.there;
}

find_in_slots-IsIn :
    (t : Team) (i : ℕ) (id : Text) (ls : List (List BoxPlayer)) {w : Place}
    → find_in_slots t i id ls ≡ some w
    → IsIn t i ls w
unfolding find_in_slots
find_in_slots-IsIn t i id [] h = cc
find_in_slots-IsIn t i id (c ∷ ls) {w} h =
    from (find_in_chain id c) refl (find_in_slots-IsIn t (i + 1) id ls {w = w}) h
  where
    from :
        (o : Option ℕ)
        → find_in_chain id c ≡ o
        → (find_in_slots t (i + 1) id ls ≡ some w → IsIn t (i + 1) ls w)
        → elim o [
          | some d ↦ some (record { team = t; slot = i; depth = d; player_id = id })
          | none ↦ find_in_slots t (i + 1) id ls
        ]
          ≡ some w
        → IsIn t i (c ∷ ls) w
    from none e f k = IsIn-later t i c ls w (f k)
    from (some d) e f k =
        found_at (IsIn t i (c ∷ ls)) k (record {
          offset = 0;
          team = refl;
          slot = omega arith;
          there = find_in_chain-there id c e;
        })

find_current_in-IsIn :
    (t : Team) (i : ℕ) (id : Text) (ls : List (List BoxPlayer)) {w : Place}
    → find_current_in t i id ls ≡ some w
    → IsIn t i ls w
unfolding find_current_in
find_current_in-IsIn t i id [] h = cc
find_current_in-IsIn t i id ([] ∷ ls) {w} h =
    IsIn-later t i [] ls w (find_current_in-IsIn t (i + 1) id ls h)
find_current_in-IsIn t i id ((p ∷ c) ∷ ls) {w} h =
    from (text_eq p.player_id id) (find_current_in-IsIn t (i + 1) id ls {w = w}) h
  where
    from :
        (b : Bool)
        → (find_current_in t (i + 1) id ls ≡ some w → IsIn t (i + 1) ls w)
        → (if b
            then some (record { team = t; slot = i; depth = 0; player_id = id })
            else find_current_in t (i + 1) id ls)
          ≡ some w
        → IsIn t i ((p ∷ c) ∷ ls) w
    from true f k =
        found_at (IsIn t i ((p ∷ c) ∷ ls)) k
          (record { offset = 0; team = refl; slot = omega arith; there = refl })
    from false f k = IsIn-later t i (p ∷ c) ls w (f k)

get_or-drop :
    {A : Type 0} (n i j : ℕ) (l : List A) (d : A) → j ≡ n + i → get_or l j d ≡ get_or (drop n l) i d
get_or-drop zero i j l d h = ap (λ (k : ℕ). get_or l k d) (omega (arith, h))
get_or-drop (suc n) i j [] d h = refl
get_or-drop (suc n) i zero (x ∷ l) d h = absurd (omega (arith, h))
get_or-drop (suc n) i (suc j) (x ∷ l) d h = get_or-drop n i j l d (omega (arith, h))

IsIn-there :
    (t : Team) (n : ℕ) (w : Place) (box : Boxscore)
    → IsIn t n (drop n (side box.slots t)) w
    → is_some (player_at w box) ≡ true
IsIn-there t n w box p =
    ap (λ (ls : List (List BoxPlayer)). is_some (get_elem? (get_or ls w.slot []) w.depth))
      (ap (side box.slots) p.team)
    ∙ ap (λ (c : List BoxPlayer). is_some (get_elem? c w.depth))
        (get_or-drop n p.offset w.slot (side box.slots t) [] p.slot)
    ∙ p.there

-- What either side finds
either_side :
    {A : Type 0} (P : A → Type 0) (f : Team → Option A)
    → ((t : Team) (a : A) → f t ≡ some a → P a)
    → (a : A) → visitors_first f ≡ some a
    → P a
either_side {A = A} P f g a h = from (f Team.visitors) refl h
  where
    from :
        (o : Option A)
        → f Team.visitors ≡ o
        → elim o [ some b ↦ some b | none ↦ f Team.home ] ≡ some a
        → P a
    from none e k = g Team.home a k
    from (some b) e k = g Team.visitors a (e ∙ k)

-- The player that is found is there.
pub find_player-there :
    (id : Option Text) (b : Bool) (box : Boxscore) (w : Place)
    → find_player id b box ≡ some w
    → is_some (player_at w box) ≡ true
unfolding find_player
find_player-there none b box w h = cc
find_player-there (some id) b box w h =
    either_side (λ v. is_some (player_at v box) ≡ true) _
      (λ t v k. IsIn-there t (first_slot b) v box (find_in_slots-IsIn t (first_slot b) id _ k)) w h

pub find_current_player-there :
    (id : Option Text) (b : Bool) (box : Boxscore) (w : Place)
    → find_current_player id b box ≡ some w
    → is_some (player_at w box) ≡ true
unfolding find_current_player
find_current_player-there none b box w h = cc
find_current_player-there (some id) b box w h =
    either_side (λ v. is_some (player_at v box) ≡ true) _
      (λ t v k. IsIn-there t (first_slot b) v box (find_current_in-IsIn t (first_slot b) id _ k)) w
      h

record IsAmong (t : Team) (d : ℕ) (l : List BoxPitcher) (w : PitcherPlace) : Type 0 where
  offset : ℕ
  team : w.team ≡ t
  depth : w.depth ≡ d + offset
  there : is_some (get_elem? l offset) ≡ true

find_in_pitchers-IsAmong :
    (t : Team) (d : ℕ) (id : Text) (l : List BoxPitcher) {w : PitcherPlace}
    → find_in_pitchers t d id l ≡ some w
    → IsAmong t d l w
unfolding find_in_pitchers
find_in_pitchers-IsAmong t d id [] h = cc
find_in_pitchers-IsAmong t d id (p ∷ l) {w} h =
    from (text_eq p.player_id id) (find_in_pitchers-IsAmong t (d + 1) id l {w = w}) h
  where
    from :
        (b : Bool)
        → (find_in_pitchers t (d + 1) id l ≡ some w → IsAmong t (d + 1) l w)
        → (if b
            then some (record { team = t; depth = d; player_id = id })
            else find_in_pitchers t (d + 1) id l)
          ≡ some w
        → IsAmong t d (p ∷ l) w
    from true f k =
        found_at (IsAmong t d (p ∷ l)) k
          (record { offset = 0; team = refl; depth = omega arith; there = refl })
    from false f k =
        let q = f k in
        record {
          offset = suc q.offset;
          team = q.team;
          depth = omega (arith, q.depth);
          there = q.there;
        }

pub find_on_side-there :
    (id : Option Text) (t : Team) (box : Boxscore) (w : PitcherPlace)
    → find_on_side id t box ≡ some w
    → is_some (pitcher_at w box) ≡ true
find_on_side-there none t box w h = cc
find_on_side-there (some id) t box w h =
    let p = find_in_pitchers-IsAmong t 0 id (side box.pitchers t) h in
    ap (λ (l : List BoxPitcher). is_some (get_elem? l w.depth)) (ap (side box.pitchers) p.team)
    ∙ ap (λ (i : ℕ). is_some (get_elem? (side box.pitchers t) i)) (omega (arith, p.depth))
    ∙ p.there

-- The pitcher that is found is there.
pub find_pitcher-there :
    (id : Option Text) (box : Boxscore) (w : PitcherPlace)
    → find_pitcher id box ≡ some w
    → is_some (pitcher_at w box) ≡ true
unfolding find_pitcher
find_pitcher-there id box w h =
    either_side (λ v. is_some (pitcher_at v box) ≡ true) _
      (λ t v k. find_on_side-there id t box v k) w h

-- The current pitcher is there.
pub current_pitcher-there :
    (t : Team) (box : Boxscore) (w : PitcherPlace)
    → current_pitcher t box ≡ some w
    → is_some (pitcher_at w box) ≡ true
current_pitcher-there t box w h = from (side box.pitchers t) refl h
  where
    from :
        (l : List BoxPitcher)
        → side box.pitchers t ≡ l
        → elim l [
          | [] ↦ none
          | p ∷ l' ↦ some (record { team = t; depth = 0; player_id = p.player_id })
        ]
          ≡ some w
        → is_some (pitcher_at w box) ≡ true
    from [] e k = cc
    from (p ∷ l) e k =
        found_at (λ (v : PitcherPlace). is_some (pitcher_at v box) ≡ true) k
          (ap (λ (x : List BoxPitcher). is_some (get_elem? x 0)) e)
