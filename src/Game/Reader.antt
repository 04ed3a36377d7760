-- ===== src/Game/Reader.antt =====
-- cw/game.py: what `read_game` does with each record.
use mlb_baseball.Prelude.{
  ℕ, zero, suc, Bool, true, false, ◌&&◌, ◌||◌, Option, none, some, List, [], ◌∷◌, Text, codes,
  text_eq, if◌then◌else◌,
}
use mlb_baseball.File.{StrTok, strtok, cw_atoi}
use mlb_baseball.Game.Records.{Appearance, Game, Row}
use mlb_baseball.Game.Container.{
  set_version, info_append, starter_append, event_append, substitute_append, data_append,
  stat_append, evdata_append, line_append, comment_append,
}
use mlb_baseball.Game.Tokens.{tokens}
use mlb_baseball.Game.Pending.{
  Outcome, value, value_error, ◌>>=◌, kept, is_kept, kept_team, is_kept_team, are_kept, Pending,
  note_bats, note_throws, note_lineup, note_runner, note_pitcher, attach, spent,
}

-- A game that is being read, what is announced for its next play, and whether all its numbers are kept
-- as they are
pub record Reading : Type 0 where
  pub game : Game
  pub pending : Pending
  pub exact : Bool

-- `[tok(None) for _ in range(n)]`
unfoldable pub next_fields : ℕ → StrTok → List (Option Text)
unfolding strtok
next_fields zero tok = []
next_fields (suc n) tok = let (f, tok') = strtok none tok in f ∷ next_fields n tok'

-- `Appearance(pid, name, ...)` is handed on where no field is missing.
unfoldable pub read_appearance :
    List (Option Text) → (Appearance → Game → Outcome Game) → Reading → Outcome Reading
read_appearance (some pid ∷ some name ∷ some team ∷ some slot ∷ some at ∷ []) add r = do
  let a : Appearance = record {
    player_id = pid;
    name = name;
    team = kept_team (cw_atoi team);
    slot = kept (cw_atoi slot);
    pos = kept (cw_atoi at);
  }
  g ← add a r.game
  value (record r {
    game = g;
    exact =
        r.exact && is_kept_team (cw_atoi team) && is_kept (cw_atoi slot) && is_kept (cw_atoi at);
  })
read_appearance fields add r = value r

abbrev add_starter : Appearance → Game → Outcome Game
add_starter a g = value (starter_append a g)

abbrev or_value_error : {A : Type 0} → Option A → Outcome A
or_value_error none = value_error
or_value_error (some a) = value a

abbrev add_substitute : Appearance → Game → Outcome Game
add_substitute a g = or_value_error (substitute_append a g)

unfoldable pub read_event : List (Option Text) → Reading → Reading
read_event
      (some inning ∷ some batting_team ∷ some batter ∷ some count ∷ some pitches ∷ some play ∷ [])
      r =
    record r {
      game =
          event_append (kept (cw_atoi inning)) (kept_team (cw_atoi batting_team)) batter count
            pitches play r.game;
      exact = r.exact && is_kept (cw_atoi inning) && is_kept_team (cw_atoi batting_team);
    }
read_event fields r = r

-- `f[i]`
abbrev field_at : ℕ → List (Option Text) → Option Text
field_at i [] = none
field_at zero (f ∷ fs) = f
field_at (suc i) (f ∷ fs) = field_at i fs

-- A `play` record: the event, if no field is missing, and what is announced for it
unfoldable pub read_play : List (Option Text) → Reading → Outcome Reading
unfolding read_event attach spent
read_play fields r = do
  let played = read_event fields r
  g ← attach (field_at 2 fields) r.pending played.game
  value (record {
    game = g;
    pending = spent (field_at 2 fields) r.pending;
    exact = played.exact && are_kept r.pending;
  })

abbrev read_info : List (Option Text) → Game → Game
read_info (some label ∷ some data' ∷ []) g = info_append label data' g
read_info (some label ∷ none ∷ []) g = info_append label [] g
read_info fields g = g

abbrev read_comment : Option Text → Game → Game
read_comment none g = g
read_comment (some text) g = comment_append text g

abbrev read_version : Option Text → Game → Game
read_version none g = g
read_version (some v) g = set_version (some v) g

-- `items[-1:] == [None]`
abbrev ends_none : Row → Bool
ends_none [] = false
ends_none (none ∷ []) = true
ends_none (some t ∷ []) = false
ends_none (f ∷ f' ∷ fs) = ends_none (f' ∷ fs)

abbrev read_row : Bool → Bool → StrTok → (Row → Game → Game) → Game → Game
read_row stop_blank stop_space tok append g =
    let items = (tokens stop_blank stop_space tok).0 in
    if ends_none items then g else append items g

abbrev is_type : Text → Text → Bool
is_type = text_eq

-- The records that belong to the game
unfoldable pub read_game_record : Text → StrTok → Reading → Option (Outcome Reading)
unfolding next_fields read_appearance read_play
read_game_record t tok r =
    let g = r.game in
    if is_type t (codes "version")
    then some (value (record r { game = read_version (strtok none tok).0 g }))
    else if is_type t (codes "info")
    then some (value (record r { game = read_info (next_fields 2 tok) g }))
    else if is_type t (codes "start")
    then some (read_appearance (next_fields 5 tok) add_starter r)
    else if is_type t (codes "play")
    then some (read_play (next_fields 6 tok) r)
    else if is_type t (codes "sub")
    then some (read_appearance (next_fields 5 tok) add_substitute r)
    else if is_type t (codes "com")
    then some (value (record r { game = read_comment (strtok none tok).0 g }))
    else if is_type t (codes "data")
    then some (value (record r { game = read_row false false tok data_append g }))
    else if is_type t (codes "stat")
    then some (value (record r { game = read_row false true tok stat_append g }))
    else if is_type t (codes "event")
    then some (value (record r { game = read_row false true tok evdata_append g }))
    else if is_type t (codes "line")
    then some (value (record r { game = read_row true false tok line_append g }))
    else none

-- The records that announce something for the next play; any other is skipped.
unfoldable pub read_adjustment : Text → StrTok → Reading → Outcome Reading
unfolding next_fields note_lineup note_runner note_pitcher
read_adjustment t tok r =
    let fields = next_fields 2 tok in
    let a = field_at 0 fields in
    let b = field_at 1 fields in
    let p = r.pending in
    if is_type t (codes "badj")
    then value (record r { pending = note_bats a b p })
    else if is_type t (codes "padj")
    then value (record r { pending = note_throws a b p })
    else if is_type t (codes "ladj")
    then value (record r { pending = note_lineup a b p })
    else if is_type t (codes "cw:itb") || is_type t (codes "radj")
    then value (record r { pending = note_runner a b p })
    else if is_type t (codes "presadj")
    then value (record r { pending = note_pitcher a b p })
    else value r

-- What is done with a record of type `t`
unfoldable pub read_record : Text → StrTok → Reading → Outcome Reading
unfolding read_game_record read_adjustment
read_record t tok r = elim (read_game_record t tok r) [
  | none ↦ read_adjustment t tok r
  | some o ↦ o
]
