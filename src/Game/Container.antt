-- ===== src/Game/Container.antt =====
-- cw/game.py: the operations of `class Game`. `none` is a
-- ValueError, which the port raises where Chadwick would crash.
use mlb_baseball.Prelude.{
  ℕ, zero, suc, ◌+◌, ◌&&◌, Option, none, some, List, [], ◌∷◌, ◌++◌, length, ltb, ◌==◌, drop, take,
  Text, codes, text_eq, has_char, starts_with, is_empty, if◌then◌else◌,
}
use mlb_baseball.Prelude.Sides.{Team, same_team}
use mlb_baseball.Game.Records.{Appearance, Comment, Event, Game, Row, new_event}

unfoldable pub set_version : Option Text → Game → Game
set_version v g = record g { version = v }

unfoldable pub info_append : Text → Text → Game → Game
info_append label value g = record g { info = g.info ++ (label, value) ∷ [] }

-- The first record with the label is replaced, and `none` says that there is none.
unfoldable pub replace_first : Text → Text → List (Text × Text) → Option (List (Text × Text))
replace_first label value [] = none
replace_first label value ((key, old) ∷ l) =
    if text_eq key label
    then some ((key, value) ∷ l)
    else elim (replace_first label value l) [ none ↦ none | some l' ↦ some ((key, old) ∷ l') ]

unfoldable pub info_set : Text → Text → Game → Game
unfolding replace_first info_append
info_set label value g = elim (replace_first label value g.info) [
  | none ↦ info_append label value g
  | some l ↦ record g { info = l }
]

-- The last record with the label
unfoldable pub last_value : Text → List (Text × Text) → Option Text
last_value label [] = none
last_value label ((key, value) ∷ l) = elim (last_value label l) [
  | some v ↦ some v
  | none ↦ if text_eq key label then some value else none
]

unfoldable pub info_lookup : Text → Game → Option Text
unfolding last_value
info_lookup label g = last_value label g.info

unfoldable pub starter_append : Appearance → Game → Game
starter_append a g = record g { starters = g.starters ++ a ∷ [] }

unfoldable pub event_append : ℕ → Team → Text → Text → Text → Text → Game → Game
event_append inning team batter count pitches event_text g = record g {
  events = g.events ++ new_event inning team batter count pitches event_text ∷ [];
}

-- `truncate`: the event is one of the game's objects, and is named by its place among them.
unfoldable pub truncate : ℕ → Game → Option Game
truncate i g =
    if ltb i (length g.events) then some (record g { events = take i g.events }) else none

-- A change to `events[-1]`
unfoldable pub change_last : (Event → Event) → List Event → Option (List Event)
change_last f [] = none
change_last f (e ∷ []) = some (f e ∷ [])
change_last f (e ∷ e' ∷ l) = elim (change_last f (e' ∷ l)) [ none ↦ none | some l' ↦ some (e ∷ l') ]

unfoldable pub substitute_append : Appearance → Game → Option Game
unfolding change_last
substitute_append a g = elim (change_last (λ e. record e { subs = e.subs ++ a ∷ [] }) g.events) [
  | none ↦ none
  | some l ↦ some (record g { events = l })
]

unfoldable pub data_append : Row → Game → Game
data_append row g = record g { row_data = g.row_data ++ row ∷ [] }

unfoldable pub stat_append : Row → Game → Game
stat_append row g = record g { stat = g.stat ++ row ∷ [] }

unfoldable pub evdata_append : Row → Game → Game
evdata_append row g = record g { evdata = g.evdata ++ row ∷ [] }

unfoldable pub line_append : Row → Game → Game
line_append row g = record g { line = g.line ++ row ∷ [] }

-- `text.split(",")` without the empty fields, `field` being what is read of the first
unfoldable pub split_fields : Text → Text → List Text
split_fields field [] = if is_empty field then [] else field ∷ []
split_fields field (c ∷ s) =
    let next = split_fields [] s in
    let longer = split_fields (field ++ c ∷ []) s in
    if c == b',' then (if is_empty field then next else field ∷ next) else longer

-- The item at `i`, or None
abbrev item : List Text → ℕ → Option Text
item [] i = none
item (t ∷ l) zero = some t
item (t ∷ l) (suc i) = item l i

-- `Comment(text)` with the fields of an ejection or a change of umpires
unfoldable pub new_comment : Text → Comment
unfolding split_fields starts_with
new_comment text =
    let ej = split_fields [] (drop 3 text) in
    let ump = split_fields [] (drop 10 text) in
    record {
      text = text;
      ejection =
          if starts_with text (codes "ej,")
          then some (item ej 0 ∷ item ej 1 ∷ item ej 2 ∷ item ej 3 ∷ [])
          else none;
      umpchange =
          if starts_with text (codes "umpchange,")
          then some (item ump 0 ∷ item ump 1 ∷ item ump 2 ∷ [])
          else none;
    }

-- `comment_append`: to the last event, or to the game before any event
unfoldable pub comment_append : Text → Game → Game
unfolding change_last new_comment
comment_append text g =
    elim (change_last (λ e. record e { comments = e.comments ++ new_comment text ∷ [] }) g.events) [
      | none ↦ record g { comments = g.comments ++ new_comment text ∷ [] }
      | some l ↦ record g { events = l }
    ]

unfoldable pub starter_find : Team → ℕ → List Appearance → Option Appearance
starter_find t slot [] = none
starter_find t slot (a ∷ l) =
    if same_team a.team t && (a.slot == slot) then some a else starter_find t slot l

unfoldable pub starter_by_position : Team → ℕ → List Appearance → Option Appearance
starter_by_position t pos [] = none
starter_by_position t pos (a ∷ l) =
    if same_team a.team t && (a.pos == pos) then some a else starter_by_position t pos l

-- `count_pitches`
unfoldable pub count_pitches : Text → Text → ℕ
unfolding has_char
count_pitches [] criterion = 0
count_pitches (c ∷ s) criterion =
    (if has_char c criterion then 1 else 0) + count_pitches s criterion
