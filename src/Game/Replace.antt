-- ===== src/Game/Replace.antt =====
-- cw/game.py: `data_set_er` and `replace_player` of `Game`. `none` is a ValueError.
use mlb_baseball.Prelude.{
  ℕ, zero, suc, ◌+◌, Bool, false, Option, none, some, List, [], ◌∷◌, ◌++◌, length, map, ltb, ℤ, pos,
  negsuc, Text, codes, text_eq, if◌then◌else◌,
}
use Prim.Native.Nat.{◌/◌, ◌%◌}
use mlb_baseball.Game.Records.{Appearance, Event, Game, Row}
use mlb_baseball.Game.Container.{info_set, info_lookup}

-- `str` of an int: its decimal digits, on fuel for each of them
unfoldable pub digits : ℕ → ℕ → Text
digits zero n = []
digits (suc k) n =
    let higher = digits k (n / 10) in
    if ltb n 10 then (b'0' + n) ∷ [] else higher ++ (b'0' + n % 10) ∷ []

abbrev pub str : ℤ → Text
str (pos n) = digits (suc n) n
str (negsuc n) = b'-' ∷ digits (suc (suc n)) (suc n)

-- `_strcmp_eq`
abbrev pub strcmp_eq : Option Text → Text → Option Bool
strcmp_eq none b = none
strcmp_eq (some a) b = some (text_eq a b)

-- Whether a record is the `er` record of a player
unfoldable pub is_er : Text → Row → Option Bool
is_er id (a ∷ b ∷ c ∷ rest) = elim (strcmp_eq a (codes "er")) [
  | none ↦ none
  | some same ↦ if same then strcmp_eq b id else some false
]
is_er id row = some false

abbrev put_third : Text → Row → Row
put_third text (a ∷ b ∷ c ∷ rest) = a ∷ b ∷ some text ∷ rest
put_third text row = row

abbrev put_second : Text → Row → Row
put_second id (a ∷ b ∷ c ∷ rest) = a ∷ some id ∷ c ∷ rest
put_second id row = row

abbrev in_option : {A : Type 0} → (A → A) → Option A → Option A
in_option f none = none
in_option f (some l) = some (f l)

-- The first `er` record of the player is changed, or one is appended.
unfoldable pub set_er : Text → Text → List Row → Option (List Row)
unfolding is_er
set_er id text [] = some ((some (codes "er") ∷ some id ∷ some text ∷ []) ∷ [])
set_er id text (row ∷ rows) =
    let rest = in_option (λ l. row ∷ l) (set_er id text rows) in
    elim (is_er id row) [
      | none ↦ none
      | some found ↦ if found then some (put_third text row ∷ rows) else rest
    ]

unfoldable pub data_set_er : Text → ℤ → Game → Option Game
unfolding digits set_er
data_set_er id er g =
    if ltb 9 (length (str er)) then none else elim (set_er id (str er) g.row_data) [
      | none ↦ none
      | some l ↦ some (record g { row_data = l })
    ]

-- The renaming of one player
module _ (old new : Text) where
  abbrev pub renamed : Text → Text
  renamed id = if text_eq id old then new else id

  abbrev pub rename_player : Appearance → Appearance
  rename_player a = record a { player_id = renamed a.player_id }

  abbrev pub rename_event : Event → Event
  rename_event e = record e { batter = renamed e.batter; subs = map rename_player e.subs }

  unfoldable pub rename_rows : List Row → Option (List Row)
  unfolding is_er
  rename_rows [] = some []
  rename_rows (row ∷ rows) =
      let rest = rename_rows rows in
      elim (is_er old row) [
        | none ↦ none
        | some found ↦ in_option (λ l. (if found then put_second new row else row) ∷ l) rest
      ]

  abbrev pub rename_info : Text → Game → Game
  rename_info label g = elim (info_lookup label g) [
    | none ↦ g
    | some id ↦ if text_eq id old then info_set label new g else g
  ]

  -- `replace_player`
  unfoldable pub replace_player : Game → Option Game
  unfolding rename_rows info_set info_lookup
  replace_player g = elim (rename_rows g.row_data) [
    | none ↦ none
    | some rows ↦ some (
        rename_info (codes "save") (
          rename_info (codes "lp") (
            rename_info (codes "wp") (record g {
              starters = map rename_player g.starters;
              events = map rename_event g.events;
              row_data = rows;
            }))))
  ]
