-- ===== src/Roster/Order.antt =====
-- `player_insert` (cw/roster.py) and the order of the ids.
use mlb_baseball.Prelude.{
  ℕ, ◌+◌, ◌≡◌, refl, true, false, List, [], ◌∷◌, Text, text_eq, if◌then◌else◌, arith, Bool-cases,
  inl, inr,
}
use mlb_baseball.Roster.{Player, Roster, text_lt, insert_player, player_insert}

-- No id of the list is smaller than the one before it.
pub data IsSorted : List Player → Type 0 where
  sorted_empty : IsSorted []
  sorted_one : {p : Player} → IsSorted (p ∷ [])
  sorted_more :
      {p q : Player} {l : List Player}
      → text_lt q.player_id p.player_id ≡ false
      → IsSorted (q ∷ l)
      → IsSorted (p ∷ q ∷ l)

text_lt-asym : (s t : Text) → text_lt s t ≡ true → text_lt t s ≡ false
unfolding text_lt
text_lt-asym [] [] h = cc
text_lt-asym [] (d ∷ t) h = refl
text_lt-asym (c ∷ s) [] h = cc
text_lt-asym (c ∷ s) (d ∷ t) h = ground (arith, text_lt-asym s t)

IsSorted-behind :
    (p q : Player) (l : List Player)
    → text_lt q.player_id p.player_id ≡ true
    → IsSorted (q ∷ l)
    → IsSorted (q ∷ insert_player p l)
unfolding insert_player
IsSorted-behind p q [] h s = sorted_more (text_lt-asym q.player_id p.player_id h) sorted_one
IsSorted-behind p q (r ∷ l) h (sorted_more k s) =
    elim (Bool-cases (text_lt r.player_id p.player_id)) [
      | inl e ↦ rw e (sorted_more k (IsSorted-behind p r l e s))
      | inr e ↦ rw e (sorted_more (text_lt-asym q.player_id p.player_id h) (sorted_more e s))
    ]

insert_player-IsSorted : (p : Player) (l : List Player) → IsSorted l → IsSorted (insert_player p l)
unfolding insert_player
insert_player-IsSorted p [] s = sorted_one
insert_player-IsSorted p (q ∷ l) s = elim (Bool-cases (text_lt q.player_id p.player_id)) [
  | inl e ↦ rw e (IsSorted-behind p q l e s)
  | inr e ↦ rw e (sorted_more e s)
]

-- How many players of a list have the id
abbrev pub with_id : Text → List Player → ℕ
with_id id [] = 0
with_id id (p ∷ l) = (if text_eq p.player_id id then 1 else 0) + with_id id l

insert_player-with_id :
    (p : Player) (id : Text) (l : List Player)
    → with_id id (insert_player p l) ≡ (if text_eq p.player_id id then 1 else 0) + with_id id l
unfolding insert_player
insert_player-with_id p id [] = refl
insert_player-with_id p id (q ∷ l) = elim (Bool-cases (text_lt q.player_id p.player_id)) [
  | inl e ↦ rw e (omega (arith, insert_player-with_id p id l))
  | inr e ↦ rw e refl
]

-- `player_insert` keeps a roster that is in the order of the ids in that order, and adds the player:
-- of every id the roster has as many players as before, and one more of the new player's.
pub player_insert-IsSorted :
    (p : Player) (r : Roster)
    → IsSorted r.players
    → IsSorted (player_insert p r).players
      × ((id : Text)
          → with_id id (player_insert p r).players
            ≡ (if text_eq p.player_id id then 1 else 0) + with_id id r.players)
unfolding player_insert
player_insert-IsSorted p r s =
    (insert_player-IsSorted p r.players s, λ id. insert_player-with_id p id r.players)
