-- ===== src/Box/Starters.antt =====
-- cw/box.py: `enter_starters`.
use mlb_baseball.Prelude.{
  ℕ, zero, suc, ◌+◌, none, some, [], ◌∷◌, ◌==◌, ltb, set, pos, Text, if◌then◌else◌, codes,
}
use mlb_baseball.Prelude.Sides.{Team, put_side}
use mlb_baseball.Game.Records.{Appearance, Game}
use mlb_baseball.Game.Container.{info_lookup, starter_find}
use mlb_baseball.Iter.Record.{ok, short_date}
use mlb_baseball.Box.Record.{
  Stat, assign, no_counts, no_fielding, BoxPlayer, new_player, BoxPitcher, new_pitcher, Boxscore,
}
use mlb_baseball.Box.Find.{Action, ◌then◌, deref}
use mlb_baseball.Box.Substitute.{put_chain}

-- The entry of a starter
unfoldable pub starter : Appearance → Text → BoxPlayer
unfolding assign
starter a date = record (new_player a.player_id a.name) {
  date = short_date date;
  batting = assign Stat.g 1 no_counts;
  positions = a.pos ∷ [];
  start_position = pos a.pos;
  fielding =
      let none_yet = (new_player a.player_id a.name).fielding in
      if ltb a.pos 10 then set none_yet a.pos (some no_fielding) else none_yet;
}

unfoldable pub starting_pitcher : Appearance → BoxPitcher
unfolding assign
starting_pitcher a = record (new_pitcher a.player_id a.name) {
  pitching = assign Stat.gs 1 (assign Stat.g 1 no_counts);
}

unfoldable pub enter_starter : ℕ → Team → Text → Appearance → Boxscore → Boxscore
unfolding starter starting_pitcher
enter_starter i t date a box =
    let box₁ = put_chain i t (starter a date ∷ []) box in
    if a.pos == 1
    then record box₁ { pitchers = put_side box₁.pitchers t (starting_pitcher a ∷ []) }
    else box₁

-- The starter of a slot, where there is one; without a date the code fails at the first.
unfoldable pub enter_slot : Game → Team → ℕ → Action
unfolding info_lookup starter_find enter_starter
enter_slot g t i box = elim (starter_find t i g.starters) [
  | none ↦ ok box
  | some a ↦
      deref (info_lookup (codes "date") g) (λ date box₁. ok (enter_starter i t date a box₁)) box
]

-- `n` slots of a side, from the slot `i` on
unfoldable pub enter_slots : Game → Team → ℕ → ℕ → Action
unfolding enter_slot
enter_slots g t zero i = ok
enter_slots g t (suc n) i = enter_slot g t i then enter_slots g t n (i + 1)

-- `enter_starters`
unfoldable pub enter_starters : Game → Action
unfolding enter_slots
enter_starters g = enter_slots g Team.visitors 10 0 then enter_slots g Team.home 10 0
