-- ===== src/Roster/Tests.antt =====
-- A roster of cw/roster.py.
use mlb_baseball.Prelude.{
  ◌+◌, ◌≤◌, ◌≡◌, refl, true, some, List, [], ◌∷◌, ◌++◌, map, length, arith, Text, codes, text_eq,
  if◌then◌else◌,
}
use mlb_baseball.Roster.{Player, Roster, text_lt, player_insert}
use mlb_baseball.File.Fields.{plain, all_plain}
use mlb_baseball.Roster.Read.{roster_read, league_read}
use mlb_baseball.Roster.Steps.{Fields, IsGood, body}
use mlb_baseball.Roster.Written.{
  AllGood, all_done, one_more, player_fields, team_fields, unread, file_of, roster_read-file_of,
  league_read-file_of,
}
use mlb_baseball.Roster.Order.{IsSorted, sorted_one, sorted_more, with_id, player_insert-IsSorted}

abbrev known_as : Text → Player
known_as id = record { player_id = id; last_name = []; first_name = []; bats = b'R'; throws = b'R' }

abbrev two_players : Roster
two_players = record {
  team_id = codes "XXX";
  league = codes "A";
  city = codes "Town";
  nickname = codes "Team";
  year = 2024;
  players = known_as (codes "adams001") ∷ known_as (codes "young001") ∷ [];
}

two_players-IsSorted : IsSorted two_players.players
unfolding text_lt
two_players-IsSorted = sorted_more refl sorted_one

player_insert-IsSorted_example :
    IsSorted (player_insert (known_as (codes "lopez001")) two_players).players
    × ((id : Text)
        → with_id id (player_insert (known_as (codes "lopez001")) two_players).players
          ≡ (if text_eq (codes "lopez001") id then 1 else 0) + with_id id two_players.players)
player_insert-IsSorted_example =
    player_insert-IsSorted (known_as (codes "lopez001")) two_players two_players-IsSorted

abbrev named : Text → Text → Text → Player
named id last first = record {
  player_id = id;
  last_name = last;
  first_name = first;
  bats = b'L';
  throws = b'R';
}

abbrev new_players : List Player
new_players =
    named (codes "smitj001") (codes "Smith") (codes "Jo")
    ∷ named (codes "ohtas001") (codes "Ohtani") (codes "Shohei")
    ∷ []

-- What a record of given fields is tested for
good : (r : Fields) → plain r.0 ≡ true → all_plain r.1 ≡ true → length (body r) + 2 ≤ 256 → IsGood r
good r h k l = record { first_plain = h; rest_plain = k; fits = l }

new_players-AllGood : AllGood (map player_fields new_players)
new_players-AllGood =
    one_more _ _ (good _ refl refl (omega arith))
      (one_more _ _ (good _ refl refl (omega arith)) all_done)

roster_read-file_of_example :
    roster_read (file_of (map player_fields new_players)) two_players
    ≡ some (record two_players { players = two_players.players ++ new_players })
roster_read-file_of_example = roster_read-file_of new_players two_players new_players-AllGood

two_teams-AllGood : AllGood (map team_fields (two_players ∷ two_players ∷ []))
two_teams-AllGood =
    one_more _ _ (good _ refl refl (omega arith))
      (one_more _ _ (good _ refl refl (omega arith)) all_done)

league_read-file_of_example :
    league_read (file_of (map team_fields (two_players ∷ two_players ∷ []))) []
    ≡ some (map unread (two_players ∷ two_players ∷ []))
league_read-file_of_example =
    league_read-file_of (two_players ∷ two_players ∷ []) [] two_teams-AllGood
