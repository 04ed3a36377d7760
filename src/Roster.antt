-- ===== src/Roster.antt =====
-- cw/roster.py: players, rosters and leagues; Roster.Read has the file readers.
pub mod Order
pub mod Read
pub mod Rounds
pub mod Steps
pub mod Written
mod Tests
use mlb_baseball.Prelude.{
  ℕ, Bool, true, false, ◌&&◌, ◌||◌, Option, none, some, List, [], ◌∷◌, ◌++◌, ltb, ◌==◌, length,
  Text, text_eq, if◌then◌else◌,
}

pub record Player : Type 0 where
  pub player_id : Text
  pub last_name : Text
  pub first_name : Text
  pub bats : ℕ
  pub throws : ℕ

pub record Roster : Type 0 where
  pub team_id : Text
  pub league : Text
  pub city : Text
  pub nickname : Text
  pub year : ℕ
  pub players : List Player

unfoldable pub set_first_name : Text → Player → Player
set_first_name name p = record p { first_name = name }

unfoldable pub set_last_name : Text → Player → Player
set_last_name name p = record p { last_name = name }

unfoldable pub set_city : Text → Roster → Roster
set_city city r = record r { city = city }

unfoldable pub set_nickname : Text → Roster → Roster
set_nickname nickname r = record r { nickname = nickname }

unfoldable pub set_league : Text → Roster → Roster
set_league league r = record r { league = league }

-- `s < t` on Python's `str`
unfoldable pub text_lt : Text → Text → Bool
text_lt s [] = false
text_lt [] (d ∷ t) = true
text_lt (c ∷ s) (d ∷ t) = ltb c d || (c == d) && text_lt s t

unfoldable pub player_append : Player → Roster → Roster
player_append p r = record r { players = r.players ++ p ∷ [] }

-- The loop of `player_insert`: before the first player whose id is not smaller
unfoldable pub insert_player : Player → List Player → List Player
unfolding text_lt
insert_player p [] = p ∷ []
insert_player p (q ∷ l) =
    if text_lt q.player_id p.player_id then q ∷ insert_player p l else p ∷ q ∷ l

unfoldable pub player_insert : Player → Roster → Roster
unfolding insert_player
player_insert p r = record r { players = insert_player p r.players }

unfoldable pub player_count : Roster → ℕ
player_count r = length r.players

-- The first player with the id
unfoldable pub find_player : Option Text → List Player → Option Player
find_player none l = none
find_player (some id) [] = none
find_player (some id) (p ∷ l) = if text_eq p.player_id id then some p else find_player (some id) l

unfoldable pub player_find : Option Text → Roster → Option Player
unfolding find_player
player_find id r = find_player id r.players

-- `hand if hand not in ("\0", " ") else "?"`
abbrev pub known_hand : ℕ → ℕ
known_hand c = if (c == 0) || (c == b' ') then b'?' else c

abbrev hand_of : (Player → ℕ) → Option Player → ℕ
hand_of f none = b'?'
hand_of f (some p) = known_hand (f p)

unfoldable pub roster_batting_hand : Option Roster → Option Text → ℕ
unfolding find_player
roster_batting_hand none id = b'?'
roster_batting_hand (some r) id = hand_of (λ p. p.bats) (find_player id r.players)

unfoldable pub roster_throwing_hand : Option Roster → Option Text → ℕ
unfolding find_player
roster_throwing_hand none id = b'?'
roster_throwing_hand (some r) id = hand_of (λ p. p.throws) (find_player id r.players)

-- `class League`
unfoldable pub roster_append : Roster → List Roster → List Roster
roster_append r l = l ++ r ∷ []

unfoldable pub roster_find : Option Text → List Roster → Option Roster
roster_find none l = none
roster_find (some team) [] = none
roster_find (some team) (r ∷ l) =
    if text_eq r.team_id team then some r else roster_find (some team) l
