-- ===== src/State/Scores.antt =====
-- The score, the batting side and the next batters of a state (cw/gameiter.py) under `update`,
-- `substitute`, `change_sides` and `_place_runner`.
use mlb_baseball.Prelude.{
  leb, ltb, length, ℕ, ◌+◌, ◌≡◌, refl, sym, ap, ◌∙◌, Bool, true, false, Option, none, some, List,
  [], ◌∷◌, Text, if◌then◌else◌, Bool-cases, inl, inr, get_elem?, arith, set,
}
use mlb_baseball.Prelude.Sides.{Team, side, put_side}
use mlb_baseball.Play.Bases.{Base, first, second, third}
use mlb_baseball.Play.Event.{EventData, is_batter, runs_on_play}
use mlb_baseball.Game.Records.{Event}
use mlb_baseball.State.Record.{Slot, State}
use mlb_baseball.State.Advance.{check_go_ahead_rbi, clear_all_runners, replace_runner, place_runner}
use mlb_baseball.State.Update.{
  count_play, end_play, update, note_count, drop_dh, pinch_run, put_fielder, pitcher_fields,
  take_turn, take_position, pitcher_bats, substitute, promote_dh, change_sides,
}
use mlb_baseball.State.Balance.{update_eq}

-- `s'` has the score, the batting side and the next batters of `s`.
pub record SameScore (s s' : State) : Type 0 where
  pub score : s'.score ≡ s.score
  pub batting : s'.batting_team ≡ s.batting_team
  pub order : s'.next_batter ≡ s.next_batter

pub same : (s : State) → SameScore s s
same s = record { score = refl; batting = refl; order = refl }

pub trans_score : {s t u : State} → SameScore s t → SameScore t u → SameScore s u
trans_score p q = record {
  score = q.score ∙ p.score;
  batting = q.batting ∙ p.batting;
  order = q.order ∙ p.order;
}

pub if_score :
    (c : Bool) {s t u : State} → SameScore s t → SameScore s u → SameScore s (if c then t else u)
if_score true p q = p
if_score false p q = q

-- `update` adds the runs of the play to the score of the batting side and keeps the other side's.
pub update-score :
    (t : Text) (d : EventData) (s : State)
    → (update t d s).score
      ≡ put_side s.score s.batting_team (side s.score s.batting_team + runs_on_play d)
update-score t d s = rw (update_eq d t s) (
    unfold end_play count_play check_go_ahead_rbi in
    elim (Bool-cases (is_batter d)) [ inl e ↦ rw e | inr e ↦ rw e ])

pub update-batting_team :
    (t : Text) (d : EventData) (s : State) → (update t d s).batting_team ≡ s.batting_team
update-batting_team t d s = rw (update_eq d t s) (
    unfold end_play count_play check_go_ahead_rbi in
    elim (Bool-cases (is_batter d)) [ inl e ↦ rw e | inr e ↦ rw e ])

note_count-score : (b c : Text) (t : Team) (p : ℕ) (s : State) → SameScore s (note_count b c t p s)
unfolding note_count
note_count-score b c t p s = record {
  score = ground arith;
  batting = ground arith;
  order = ground arith;
}

drop_dh-score : (t : Team) (s : State) → SameScore s (drop_dh t s)
unfolding drop_dh
drop_dh-score t s = record { score = refl; batting = refl; order = refl }

pinch_run-score :
    (removed : Option Text) (n : Text) (bs : List Base) (s : State)
    → SameScore s (pinch_run removed n bs s)
unfolding pinch_run replace_runner
pinch_run-score removed n [] s = same s
pinch_run-score removed n (b ∷ bs) s =
    let k = pinch_run-score removed n bs s in
    record {
      score = ground (arith, k.score);
      batting = ground (arith, k.batting);
      order = ground (arith, k.order);
    }

take_turn-score :
    (removed : Slot) (id : Text) (p : ℕ) (s : State) → SameScore s (take_turn removed id p s)
unfolding take_turn
take_turn-score removed id p s =
    let k = pinch_run-score removed.player_id id (first ∷ second ∷ third ∷ []) s in
    record {
      score = ground (arith, k.score);
      batting = ground (arith, k.batting);
      order = ground (arith, k.order);
    }

pitcher_fields-score : (t : Team) (slot p : ℕ) (s : State) → SameScore s (pitcher_fields t slot p s)
unfolding pitcher_fields
pitcher_fields-score t slot p s = if_score _ (drop_dh-score t s) (same s)

pitcher_bats-score :
    (id : Text) (t : Team) (slot : ℕ) (s : State) → SameScore s (pitcher_bats id t slot s)
unfolding pitcher_bats
pitcher_bats-score id t slot s = if_score _ (drop_dh-score t s) (same s)

score_of : State → Option State → State
score_of d none = d
score_of d (some s) = s

-- The score behind an equation of results
pub into_score : (s x y : State) → SameScore s x → some x ≡ some y → SameScore s y
unfolding score_of
into_score s x y m p = record {
  score = ap (λ (o : Option State). (score_of s o).score) (sym p) ∙ m.score;
  batting = ap (λ (o : Option State). (score_of s o).batting_team) (sym p) ∙ m.batting;
  order = ap (λ (o : Option State). (score_of s o).next_batter) (sym p) ∙ m.order;
}

take_position-score :
    (removed : Slot) (id : Text) (t : Team) (slot p : ℕ) (s : State) {s' : State}
    → take_position removed id t slot p s ≡ some s'
    → SameScore s s'
unfolding take_position put_fielder
take_position-score removed id t slot p s {s'} h =
    from (leb p 9) (ltb p (length (side s.fielders t))) h
  where
    fielded : State
    fielded = record s { fielders = put_side s.fielders t (set (side s.fielders t) p (some id)) }

    from :
        (b c : Bool)
        → (if b
            then elim (if c then some fielded else none) as (λ o. Option State) [
              | none ↦ none
              | some x ↦ some (pitcher_fields t slot p x)
            ]
            else some (take_turn removed id p s))
          ≡ some s'
        → SameScore s s'
    from true true e =
        into_score s (pitcher_fields t slot p fielded) s'
          (trans_score (record { score = refl; batting = refl; order = refl })
            (pitcher_fields-score t slot p fielded))
          e
    from true false e = cc
    from false c e = into_score s (take_turn removed id p s) s' (take_turn-score removed id p s) e

-- A substitution that returns keeps the score, the batting side and the next batters.
pub substitute-score :
    (b c id n : Text) (t : Team) (slot p : ℕ) (s : State) {s' : State}
    → substitute b c id n t slot p s ≡ some s'
    → SameScore s s'
unfolding substitute
substitute-score b c id n t slot p s {s'} h = from (get_elem? (side s.lineups t) slot) h
  where
    with_row : State
    with_row = record s {
      lineups = put_side s.lineups t (
          set (side s.lineups t) slot
            (record { player_id = some id; name = some n; position = p }));
    }

    played : Slot → Option State
    played r = take_position r id t slot p (note_count b c t p with_row)

    finished :
        (r : Slot) (o : Option State)
        → played r ≡ o
        → elim o as (λ x. Option State) [ none ↦ none | some x ↦ some (pitcher_bats id t slot x) ]
          ≡ some s'
        → SameScore s s'
    finished r none q e = cc
    finished r (some x) q e =
        into_score s (pitcher_bats id t slot x) s'
          (trans_score
            (trans_score
              (trans_score (record { score = refl; batting = refl; order = refl })
                (note_count-score b c t p with_row))
              (take_position-score r id t slot p (note_count b c t p with_row) q))
            (pitcher_bats-score id t slot x))
          e

    from :
        (o : Option Slot)
        → elim o as (λ x. Option State) [
          | none ↦ none
          | some r ↦ elim (played r) [ none ↦ none | some x ↦ some (pitcher_bats id t slot x) ]
        ]
          ≡ some s'
        → SameScore s s'
    from none e = cc
    from (some r) e = finished r (played r) refl e

promote_dh-score : (t : Team) (s : State) → SameScore s (promote_dh t s)
unfolding promote_dh
promote_dh-score t s = record { score = ground arith; batting = ground arith; order = ground arith }

-- A change of sides keeps the score.
pub change_sides-score : (ev : Event) (s : State) → (change_sides ev s).score ≡ s.score
unfolding change_sides clear_all_runners promote_dh
change_sides-score ev s = ground arith

pub change_sides-next_batter :
    (ev : Event) (s : State) → (change_sides ev s).next_batter ≡ s.next_batter
unfolding change_sides clear_all_runners promote_dh
change_sides-next_batter ev s = ground arith

pub place_runner-score :
    (b : ℕ) (r : Text) (s : State) {s' : State} → place_runner b r s ≡ some s' → SameScore s s'
unfolding place_runner
place_runner-score b r s h = record {
  score = ground arith;
  batting = ground arith;
  order = ground arith;
}
