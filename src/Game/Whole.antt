-- ===== src/Game/Whole.antt =====
-- cw/game.py: the loops of `read_game` and `read_games`, on fuel (`none` is out of fuel).
use mlb_baseball.Prelude.{
  ℕ, zero, suc, ◌+◌, Bool, true, false, Option, none, some, List, [], ◌∷◌, length, Text, codes,
  text_eq, if◌then◌else◌,
}
use mlb_baseball.File.{CFile, open_file, bufsize, fgets, setpos, strtok}
use mlb_baseball.Game.Records.{Game, new_game}
use mlb_baseball.Game.Pending.{Outcome, value, value_error, nothing_pending}
use mlb_baseball.Game.Reader.{Reading, read_record}

-- A game with the mark that all its numbers are kept as they are
abbrev pub Found : Type 0
Found = Game × Bool

abbrev pub found : Reading → Option Found
found r = some (r.game, r.exact)

-- A game, or None, and the file behind it
abbrev pub GameRead : Type 0
GameRead = Option Found × CFile

abbrev pub game_read : Option Found → CFile → Option (Outcome GameRead)
game_read g f = some (value (g, f))

-- What a round does with the line that is read, `again` being the rounds behind it; a line is read
-- by a new tokenizer, since what one holds from an earlier line is never read.
abbrev pub with_line :
    (Reading → Option (Outcome GameRead))
    → CFile
    → CFile
    → Reading
    → Text
    → Option (Outcome GameRead)
with_line again f f' r line =
    let (rtype, tok) = strtok (some line) none in
    elim rtype [
      | none ↦ game_read (found r) (setpos f.at f')
      | some t ↦ elim (text_eq t (codes "id")) [
        | true ↦ game_read (found r) (setpos f.at f')
        | false ↦ elim (read_record t tok r) [
          | value r' ↦ again r'
          | value_error ↦ some value_error
        ]
      ]
    ]

unfoldable pub read_loop : ℕ → CFile → Reading → Option (Outcome GameRead)
read_loop zero f r = none
read_loop (suc n) f r =
    let (buf, f') = fgets bufsize f in
    elim f.eof [
      | true ↦ game_read (found r) f
      | false ↦ elim buf [
        | none ↦ if f'.eof then game_read (found r) f' else game_read none f'
        | some line ↦ elim f'.eof [
          | true ↦ game_read (found r) f'
          | false ↦ with_line (read_loop n f') f f' r line
        ]
      ]
    ]

-- The game of an `id` record
abbrev pub start_game : CFile → Option Text → Option Text → Option (Outcome GameRead)
start_game f (some t) (some id) = elim (text_eq t (codes "id")) [
  | true ↦
      read_loop (length f.bytes + 1) f
        (record { game = new_game id; pending = nothing_pending; exact = true })
  | false ↦ game_read none f
]
start_game f first id = game_read none f

-- `read_game`; each line takes a byte at least.
unfoldable pub read_game : CFile → Option (Outcome GameRead)
unfolding read_loop strtok
read_game f =
    let (buf, f') = fgets bufsize f in
    elim buf [
      | none ↦ game_read none f'
      | some line ↦
          let (first, tok) = strtok (some line) none in
          let (id, tok') = strtok none tok in start_game f' first id
    ]

-- What `read_games` has yielded when it ends, and the file then or the error that it ends with
abbrev pub Yielded : Type 0
Yielded = List Found × Outcome CFile

abbrev pub yield_first : Found → Option Yielded → Option Yielded
yield_first g none = none
yield_first g (some y) = some (g ∷ y.0, y.1)

-- What a round does with the outcome of `read_game`, `again` being the rounds behind it
abbrev pub next_game : (CFile → Option Yielded) → Option (Outcome GameRead) → Option Yielded
next_game again o = elim o [
  | none ↦ none
  | some o' ↦ elim o' [
    | value r ↦ elim r.0 [ none ↦ some ([], value r.1) | some g ↦ yield_first g (again r.1) ]
    | value_error ↦ some ([], value_error)
  ]
]

unfoldable pub games_loop : ℕ → CFile → Option Yielded
games_loop zero f = none
games_loop (suc n) f = next_game (games_loop n) (read_game f)

-- `read_games`
unfoldable pub read_games : Text → Option Yielded
unfolding games_loop
read_games bytes = games_loop (length bytes + 1) (open_file bytes)
