-- ===== src/State/Lineups.antt =====
-- The shape of the lineups and of the fielders of a state (cw/gameiter.py): the ten rows of `_new_lineups`
-- and of the fielders, and the designated hitter's slot.
use mlb_baseball.Prelude.{
  some-injective, ℕ, suc, zero, ◌≤◌, ◌≡◌, refl, sym, ap, ◌∙◌, ◌&&◌, Bool, true, false, Option, none,
  some, List, [], ◌∷◌, Text, ltb, leb, ◌==◌, if◌then◌else◌, get_elem?, length, length-set, arith,
  set,
}
use mathlib.Core.Path.{subst}
use mlb_baseball.Prelude.Sides.{Team, Sides, side, put_side, same_team}
use mlb_baseball.Play.Bases.{Base, first, second, third}
use mlb_baseball.State.Record.{Slot, State}
use mlb_baseball.State.Advance.{replace_runner}
use mlb_baseball.State.Update.{
  note_count, drop_dh, pinch_run, put_fielder, pitcher_fields, take_turn, take_position,
  pitcher_bats, substitute, is_some, pitcher_slot, same_id,
}

-- Ten rows and ten fielders for each side, a designated hitter's slot among the rows, and a pitcher in
-- the row 0 where there is a designated hitter
pub record IsComplete (s : State) : Type 0 where
  pub rows : (t : Team) → length (side s.lineups t) ≡ 10
  pub posts : (t : Team) → length (side s.fielders t) ≡ 10
  pub hitter : (t : Team) → side s.dh_slot t ≤ 9
  pub pitcher : (t : Team) → 1 ≤ side s.dh_slot t → is_some (pitcher_slot s t) ≡ true

rows_set :
    (xs : Sides (List Slot)) (t u : Team) (i : ℕ) (r : Slot)
    → length (side (put_side xs t (set (side xs t) i r)) u) ≡ length (side xs u)
rows_set xs Team.visitors Team.visitors i r = length-set xs.away_side i r
rows_set xs Team.visitors Team.home i r = refl
rows_set xs Team.home Team.visitors i r = refl
rows_set xs Team.home Team.home i r = length-set xs.home_side i r

posts_set :
    (xs : Sides (List (Option Text))) (t u : Team) (i : ℕ) (r : Option Text)
    → length (side (put_side xs t (set (side xs t) i r)) u) ≡ length (side xs u)
posts_set xs Team.visitors Team.visitors i r = length-set xs.away_side i r
posts_set xs Team.visitors Team.home i r = refl
posts_set xs Team.home Team.visitors i r = refl
posts_set xs Team.home Team.home i r = length-set xs.home_side i r

slot_cleared : (xs : Sides ℕ) (t u : Team) → side xs u ≤ 9 → side (put_side xs t 0) u ≤ 9
slot_cleared xs Team.visitors Team.visitors h = omega arith
slot_cleared xs Team.visitors Team.home h = h
slot_cleared xs Team.home Team.visitors h = h
slot_cleared xs Team.home Team.home h = omega arith

-- Without a designated hitter nobody has to be in the row 0.
no_pitcher :
    (xs : Sides ℕ) (rows after : Team → Bool) (t u : Team)
    → ((v : Team) → 1 ≤ side xs v → rows v ≡ true)
    → (same_team t u ≡ false → after u ≡ rows u)
    → 1 ≤ side (put_side xs t 0) u
    → after u ≡ true
no_pitcher xs rows after Team.visitors Team.visitors h e l = absurd (omega (arith, l))
no_pitcher xs rows after Team.visitors Team.home h e l = e refl ∙ h Team.home l
no_pitcher xs rows after Team.home Team.visitors h e l = e refl ∙ h Team.visitors l
no_pitcher xs rows after Team.home Team.home h e l = absurd (omega (arith, l))

other_rows :
    (xs : Sides (List Slot)) (t u : Team) (l : List Slot)
    → same_team t u ≡ false
    → side (put_side xs t l) u ≡ side xs u
other_rows xs Team.visitors Team.visitors l h = cc
other_rows xs Team.visitors Team.home l h = refl
other_rows xs Team.home Team.visitors l h = refl
other_rows xs Team.home Team.home l h = cc

if_IsComplete :
    (c : Bool) {s t : State} → IsComplete s → IsComplete t → IsComplete (if c then s else t)
if_IsComplete true p q = p
if_IsComplete false p q = q

-- `pitcher_slot` of the rows of a side
abbrev first_id : List Slot → Option Text
first_id l = elim (get_elem? l 0) [ none ↦ none | some r ↦ r.player_id ]

abbrev first_filled : List Slot → Bool
first_filled l = is_some (first_id l)

drop_dh-IsComplete : (t : Team) (s : State) → IsComplete s → IsComplete (drop_dh t s)
unfolding drop_dh
drop_dh-IsComplete t s c = record {
  rows = λ u. rows_set s.lineups t u 0 _ ∙ c.rows u;
  posts = c.posts;
  hitter = λ u. slot_cleared s.dh_slot t u (c.hitter u);
  pitcher = λ u.
      no_pitcher s.dh_slot (λ v. is_some (pitcher_slot s v))
        (λ v. is_some (pitcher_slot (drop_dh t s) v)) t u c.pitcher
        (λ e. ap first_filled (other_rows s.lineups t u _ e));
}

-- `s'` has the lineups, the fielders and the designated hitters of `s`.
pub record SameLineups (s s' : State) : Type 0 where
  pub lineups : s'.lineups ≡ s.lineups
  pub fielders : s'.fielders ≡ s.fielders
  pub hitters : s'.dh_slot ≡ s.dh_slot

pub SameLineups-IsComplete : {s s' : State} → SameLineups s s' → IsComplete s → IsComplete s'
SameLineups-IsComplete m c = record {
  rows = λ u. ap (λ (x : Sides (List Slot)). length (side x u)) m.lineups ∙ c.rows u;
  posts = λ u. ap (λ (x : Sides (List (Option Text))). length (side x u)) m.fielders ∙ c.posts u;
  hitter = λ u. subst (λ (x : Sides ℕ). side x u ≤ 9) (sym m.hitters) (c.hitter u);
  pitcher = λ u l.
      ap (λ (x : Sides (List Slot)). first_filled (side x u)) m.lineups
      ∙ c.pitcher u (subst (λ (x : Sides ℕ). 1 ≤ side x u) m.hitters l);
}

note_count-SameLineups :
    (b n : Text) (t : Team) (p : ℕ) (s : State) → SameLineups s (note_count b n t p s)
unfolding note_count
note_count-SameLineups b n t p s = record {
  lineups = ground arith;
  fielders = ground arith;
  hitters = ground arith;
}

pinch_run-SameLineups :
    (removed : Option Text) (n : Text) (bs : List Base) (s : State)
    → SameLineups s (pinch_run removed n bs s)
unfolding pinch_run replace_runner
pinch_run-SameLineups removed n [] s = record { lineups = refl; fielders = refl; hitters = refl }
pinch_run-SameLineups removed n (b ∷ bs) s =
    let k = pinch_run-SameLineups removed n bs s in
    record {
      lineups = ground (arith, k.lineups);
      fielders = ground (arith, k.fielders);
      hitters = ground (arith, k.hitters);
    }

posted : State → Team → ℕ → Text → State
posted s t p id = record s {
  fielders = put_side s.fielders t (set (side s.fielders t) p (some id));
}

posted-IsComplete :
    (s : State) (t : Team) (p : ℕ) (id : Text) → IsComplete s → IsComplete (posted s t p id)
unfolding posted
posted-IsComplete s t p id c = record {
  rows = c.rows;
  posts = λ u. posts_set s.fielders t u p _ ∙ c.posts u;
  hitter = c.hitter;
  pitcher = c.pitcher;
}

pitcher_fields-IsComplete :
    (t : Team) (slot p : ℕ) (s : State) → IsComplete s → IsComplete (pitcher_fields t slot p s)
unfolding pitcher_fields
pitcher_fields-IsComplete t slot p s c = if_IsComplete _ (drop_dh-IsComplete t s c) c

take_turn-IsComplete :
    (removed : Slot) (id : Text) (p : ℕ) (s : State)
    → IsComplete s
    → IsComplete (take_turn removed id p s)
unfolding take_turn
take_turn-IsComplete removed id p s c =
    if_IsComplete (p == 11)
      (SameLineups-IsComplete (record { lineups = refl; fielders = refl; hitters = refl }) c)
      (if_IsComplete (p == 12)
        (SameLineups-IsComplete
          (pinch_run-SameLineups removed.player_id id (first ∷ second ∷ third ∷ []) s) c)
        c)

take_position-IsComplete :
    (removed : Slot) (id : Text) (t : Team) (slot p : ℕ) (s : State) {s' : State}
    → IsComplete s
    → take_position removed id t slot p s ≡ some s'
    → IsComplete s'
unfolding take_position put_fielder posted
take_position-IsComplete removed id t slot p s {s'} c h =
    from (leb p 9) (ltb p (length (side s.fielders t))) h
  where
    from :
        (b l : Bool)
        → (if b
            then elim (if l then some (posted s t p id) else none) as (λ o. Option State) [
              | none ↦ none
              | some x ↦ some (pitcher_fields t slot p x)
            ]
            else some (take_turn removed id p s))
          ≡ some s'
        → IsComplete s'
    from true true e =
        subst IsComplete (some-injective e)
          (pitcher_fields-IsComplete t slot p _ (posted-IsComplete s t p id c))
    from true false e = cc
    from false l e = subst IsComplete (some-injective e) (take_turn-IsComplete removed id p s c)

pitcher_bats-IsComplete :
    (id : Text) (t : Team) (slot : ℕ) (s : State)
    → IsComplete s
    → IsComplete (pitcher_bats id t slot s)
unfolding pitcher_bats
pitcher_bats-IsComplete id t slot s c =
    if_IsComplete (ltb 0 slot && same_id (pitcher_slot s t) (some id)) (drop_dh-IsComplete t s c) c

-- The state of `substitute` once its row is written
abbrev with_row : Text → Text → Team → ℕ → ℕ → State → State
with_row id n t slot p s = record s {
  lineups =
      put_side s.lineups t
        (set (side s.lineups t) slot (record { player_id = some id; name = some n; position = p }));
}

-- A written row is filled.
row_filled :
    (l : List Slot) (i : ℕ) (id : Text) (n : Option Text) (p : ℕ)
    → first_filled l ≡ true
    → first_filled (set l i (record { player_id = some id; name = n; position = p })) ≡ true
row_filled [] i id n p h = h
row_filled (r ∷ l) zero id n p h = refl
row_filled (r ∷ l) (suc i) id n p h = h

row_pitcher :
    (xs : Sides (List Slot)) (t u : Team) (i : ℕ) (id : Text) (n : Option Text) (p : ℕ)
    → first_filled (side xs u) ≡ true
    → first_filled (
        side
          (put_side xs t
            (set (side xs t) i (record { player_id = some id; name = n; position = p })))
          u)
      ≡ true
row_pitcher xs Team.visitors Team.visitors i id n p h = row_filled xs.away_side i id n p h
row_pitcher xs Team.visitors Team.home i id n p h = h
row_pitcher xs Team.home Team.visitors i id n p h = h
row_pitcher xs Team.home Team.home i id n p h = row_filled xs.home_side i id n p h

with_row-IsComplete :
    (id n : Text) (t : Team) (slot p : ℕ) (s : State)
    → IsComplete s
    → IsComplete (with_row id n t slot p s)
with_row-IsComplete id n t slot p s c = record {
  rows = λ u. rows_set s.lineups t u slot _ ∙ c.rows u;
  posts = c.posts;
  hitter = c.hitter;
  pitcher = λ u l. row_pitcher s.lineups t u slot id (some n) p (c.pitcher u l);
}

-- The state that the position is taken in
abbrev noted : Text → Text → Text → Text → Team → ℕ → ℕ → State → State
noted b c id n t slot p s = note_count b c t p (with_row id n t slot p s)

noted-IsComplete :
    (b c id n : Text) (t : Team) (slot p : ℕ) (s : State)
    → IsComplete s
    → IsComplete (noted b c id n t slot p s)
noted-IsComplete b c id n t slot p s k =
    SameLineups-IsComplete (note_count-SameLineups b c t p (with_row id n t slot p s))
      (with_row-IsComplete id n t slot p s k)

-- Where a state has ten rows and ten fielders for each side, a designated hitter's slot of 9 at most
-- and a player in the row 0 of each side with a designated hitter, it has after a substitution that
-- returns.
pub substitute-IsComplete :
    (b c id n : Text) (t : Team) (slot p : ℕ) (s : State) {s' : State}
    → IsComplete s
    → substitute b c id n t slot p s ≡ some s'
    → IsComplete s'
unfolding substitute
substitute-IsComplete b c id n t slot p s {s'} k h = from (get_elem? (side s.lineups t) slot) h
  where
    finished :
        (r : Slot) (o : Option State)
        → take_position r id t slot p (noted b c id n t slot p s) ≡ o
        → elim o as (λ x. Option State) [ none ↦ none | some x ↦ some (pitcher_bats id t slot x) ]
          ≡ some s'
        → IsComplete s'
    finished r none q e = cc
    finished r (some x) q e = subst IsComplete (some-injective e) (
        pitcher_bats-IsComplete id t slot x
          (take_position-IsComplete r id t slot p _ (noted-IsComplete b c id n t slot p s k) q))

    from :
        (o : Option Slot)
        → elim o as (λ x. Option State) [
          | none ↦ none
          | some r ↦ elim (take_position r id t slot p (noted b c id n t slot p s)) [
            | none ↦ none
            | some x ↦ some (pitcher_bats id t slot x)
          ]
        ]
          ≡ some s'
        → IsComplete s'
    from none e = cc
    from (some r) e = finished r (take_position r id t slot p (noted b c id n t slot p s)) refl e
