-- ===== src/Game/Tests.antt =====
-- The info records and the reading of a game of cw/game.py.
use mlb_baseball.Prelude.{
  is_some, pos, true, Option, none, List, ℕ, map, ◌++◌, Text, ◌≤◌, ◌≡◌, refl, some, [], ◌∷◌, codes,
  text_eq, arith, false,
}
use mlb_baseball.Game.Records.{Game, new_game}
use mlb_baseball.Game.Container.{
  replace_first, last_value, change_last, event_append, info_append, info_set, info_lookup,
}
use mlb_baseball.Game.Whole.{read_games, Yielded, games_loop, read_game, read_loop}
use mlb_baseball.Game.Reader.{
  read_record, read_game_record, read_adjustment, read_play, read_event, next_fields,
}
use mlb_baseball.Game.Pending.{Pending, nothing_pending, attach, change_events, spent, change_event}
use mlb_baseball.File.{
  cw_atoi, strtok, next_field, field, span, c_string, fgets, fgets_loop, setpos,
}
use mlb_baseball.Game.Ends.{read_games-ends}
use mlb_baseball.Game.Needed.{raised, attach-is_announced}
use mlb_baseball.Game.Replace.{data_set_er, set_er, is_er, digits, replace_player, rename_rows}
use mlb_baseball.Game.Info.{records, info_lookup-info_set, info_lookup-info_set_other}

abbrev dated : Game
dated = record (new_game (codes "XXX")) {
  info = (codes "date", codes "2024/04/01") ∷ (codes "htbf", codes "false") ∷ [];
}

one_date : records (codes "date") dated.info ≤ 1
unfolding text_eq
one_date = omega arith

info_lookup-info_set_example :
    info_lookup (codes "date") (info_set (codes "date") (codes "2024/04/02") dated)
    ≡ some (codes "2024/04/02")
info_lookup-info_set_example =
    info_lookup-info_set (codes "date") (codes "2024/04/02") dated one_date

other_label : text_eq (codes "date") (codes "htbf") ≡ false
unfolding text_eq
other_label = refl

info_lookup-info_set_other_example :
    info_lookup (codes "htbf") (info_set (codes "date") (codes "2024/04/02") dated)
    ≡ info_lookup (codes "htbf") dated
info_lookup-info_set_other_example =
    info_lookup-info_set_other (codes "date") (codes "2024/04/02") (codes "htbf") dated other_label

-- A file of one short game
abbrev short_file : Text
short_file =
    codes "id,XXX"
    ++ 10 ∷ codes "info,date,2024/04/01"
    ++ 10 ∷ codes "badj,a1,R"
    ++ 10 ∷ codes "play,1,0,a1,00,X,S8"
    ++ 10 ∷ []

read_games-ends_example : is_some (read_games short_file) ≡ true
read_games-ends_example = read_games-ends short_file

-- The hands of the batters of the first game
abbrev hands : Option Yielded → List ℕ
hands none = []
hands (some ([], o)) = []
hands (some (g ∷ l, o)) = map (λ e. e.batter_hand) g.0.events

hands_test : hands (read_games short_file) ≡ b'R' ∷ []
unfolding read_games games_loop read_game read_loop read_record read_game_record read_adjustment
    strtok next_field field span c_string fgets fgets_loop setpos text_eq read_play read_event
    attach change_events spent change_event change_last next_fields cw_atoi event_append info_append
hands_test = refl

-- A hand of the pitcher that is announced before any play
abbrev left_hander : Pending
left_hander = record nothing_pending { pit_hand = b'L'; pit_hand_pitcher = codes "p1" }

attach-is_announced_example : raised (attach none left_hander (new_game (codes "XXX"))) ≡ true
attach-is_announced_example = attach-is_announced none left_hander (new_game (codes "XXX"))

-- A pitcher with an `er` record who wins the game
abbrev with_er : Game
with_er = record dated {
  info = (codes "wp", codes "p1") ∷ [];
  row_data = (some (codes "er") ∷ some (codes "p1") ∷ some (codes "3") ∷ []) ∷ [];
}

data_set_er_test :
    data_set_er (codes "p1") (pos 12) with_er
    ≡ some (record with_er {
      row_data = (some (codes "er") ∷ some (codes "p1") ∷ some (codes "12") ∷ []) ∷ [];
    })
unfolding data_set_er set_er is_er digits text_eq
data_set_er_test = refl

replace_player_test :
    replace_player (codes "p1") (codes "p2") with_er
    ≡ some (record with_er {
      info = (codes "wp", codes "p2") ∷ [];
      row_data = (some (codes "er") ∷ some (codes "p2") ∷ some (codes "3") ∷ []) ∷ [];
    })
unfolding replace_player rename_rows is_er info_set replace_first info_lookup last_value text_eq
replace_player_test = refl
