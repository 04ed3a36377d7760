-- ===== src/Lib.antt =====
-- The play-by-play engine of packages/retrosheetpy/src/retrosheetpy/cw, the Python port of
-- Chadwick: play texts are parsed, games are kept as records, and an iterator walks over the plays
-- of a game and keeps its state. Paths below are in that directory.
--
-- Parts, and the modules that model them:
--   parse.py     Play     `parse_event` and all it calls. Play.Cursor is `_Parser` with its token
--                         buffer, Play.Event is `EventData`, Play.Arrays the writes to its credit
--                         arrays; Play.Monad has the actions on both. Play.Credit, Location, Flags,
--                         Advance, Steals, Pickoffs, Handlers, Others have an action for each function of
--                         the source (`_generic_out` is `generic_out`), Play.Table is `_PRIMARY`,
--                         Play.Sanity is `_sanity_check`, Play.Parse is `parse_event`.
--   file.py      File     `CFile` with `fgets`, `StrTok` and `cw_atoi`; File.Scan has `scan_int` with
--                         its regular expression.
--   game.py      Game     Game.Records has the records, Game.Container the methods of `Game`,
--                         Game.Tokens the loop `_tokens`, Game.Reader what `read_game` does with
--                         each record, Game.Pending what adjustment records announce for a play,
--                         Game.Whole the loops of `read_game` and `read_games`, and Game.Replace
--                         `data_set_er` and `replace_player`.
--   roster.py    Roster   `Player`, `Roster`, `League` and the hands of a player; Roster.Read has the
--                         readers of rosters and team files.
--   gameiter.py  State    State.Record has `Runner`, `Slot`, `State` and `copy`; State.Advance the
--                         runners (`_process_advance` is `process_advance`, cut into its parts),
--                         State.Update has `update`, `substitute` and `change_sides`, and
--                         State.Queries what is read of a state.
--                Iter     Iter.Record has `GameIter`, its reset and its copy, Iter.Step has `next`,
--                         Iter.Ahead the look-ahead of `runner_fate`, `future_runs`, `truncated_pa`.
--   box.py       Box      Box.Record has the entries, Box.Find the places and searches; Box.Pitches,
--                         Batter, Runner, Fielder, Substitute and Starters have `pitch_stats`,
--                         `batter_stats`, `runner_stats`, `fielder_stats`, `add_substitute` and
--                         `enter_starters`, Box.Iterate has `iterate_game` and `box_create`.
-- The box score is built along a walk of the iterator: each event counts for the entries of the
-- players that the state names, and its substitutions look ahead for the runners that a new pitcher
-- inherits.
-- The iterator calls the parser on the text of each event, moves its state by `update` with the
-- data, and reads the events, comments and substitutions from the game. A look-ahead runs on a copy
-- of the iterator that shares the game; comments are changed in the shared game, so that a step and
-- a look-ahead return the game too.
--
-- How the code is read:
--   * a function that changes its argument takes the old value and returns the new one; an action of
--     the parser is a function of the parser and the event, and returns both or an exception;
--   * 0 and 1 for "invalid" and "valid" are Booleans, -1 for "none" is an Option;
--   * lists of four by base are the record Bases, lists of two by team the record Sides;
--   * an index out of range is an IndexError: a list is read and written by `get_item` and
--     `set_item`, which count a negative index from the end;
--   * a text is the list of its code points;
--   * an entry of a box score that the code has a reference to is a place: its side, its slot and
--     its number in the chain of `prev` links, which no function shortens before the place is used.
-- A file is read by `fgets` and `StrTok`; the games that are read are what the iterator walks over.
-- `read_game` goes on whatever numbers it reads: one that a `Game` of the development does not hold is
-- kept as another (below 0 as 0, a team that is not 1 as 0), and the game is marked as not exact.
-- Fuel: a loop of the parser is given one round for each character that is left and two more
-- (Play.Credit.fuel): a round that goes on reads a character, and Play.Progress follows that function
-- by function. The look-ahead has one round for each event that is left (Iter.Ahead.events_left),
-- since a step moves on by one event, and Iter.Half has the same loop as a relation without fuel.
-- The walk of the box score has one round for each event of the game (Box.Walked). `_tokens` has the
-- 256 rounds of the source, and the readers of rosters and games have one round for each byte of the
-- file and one more, since a line takes a byte (Roster.Rounds, Game.Ends).
--
-- Not modelled: `process_boxscore_file` for games without plays (`box_create` is `none` for them), what
-- is logged (the warnings of the readers and of `cw_atoi`, a play that is skipped), the scorebook, the
-- report programs and the rest of the repository, and Python's limits on the depth of recursion and on
-- the digits of `int`. Innings, slots, positions and bases are natural numbers and a team is 0 or 1; a
-- slot above 9 is the IndexError of the source.
pub mod Prelude
pub mod Play
pub mod Game
pub mod Roster
pub mod State
pub mod Iter
pub mod Box
pub mod File
