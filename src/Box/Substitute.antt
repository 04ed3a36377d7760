-- ===== src/Box/Substitute.antt =====
-- cw/box.py: `add_substitute`. The look-ahead of `runner_fate` may change the comments of the game,
-- so the iterator is part of what is returned.
use mlb_baseball.Prelude.{
  ℕ, ◌||◌, ◌&&◌, Bool, false, not, Option, none, some, List, [], ◌∷◌, ◌++◌, ◌==◌, ltb, leb, get_or,
  set, take, Text, text_eq, if◌then◌else◌,
}
use mlb_baseball.Prelude.Sides.{Team, side, put_side}
use mlb_baseball.Play.Bases.{Base, first, second, third}
use mlb_baseball.Game.Records.{Appearance}
use mlb_baseball.State.Record.{State, base_occupied}
use mlb_baseball.Iter.Record.{Result, ok, fault, Fault, ◌>>=◌, GameIter}
use mlb_baseball.Iter.Ahead.{runner_fate}
use mlb_baseball.Box.Record.{
  Stat, assign, no_counts, Fielding, no_fielding, BoxPlayer, new_player, BoxPitcher, new_pitcher,
  Boxscore,
}
use mlb_baseball.Box.Find.{
  Action, ◌then◌, Place, PitcherPlace, change_player, change_pitcher, count_pitching, when, deref,
  current_pitcher,
}
use mlb_baseball.Box.Fielder.{fielding_at}

-- `box.slots[slot][team]`: the entries of a slot, the current one first
abbrev pub chain : ℕ → Team → Boxscore → List BoxPlayer
chain i t box = get_or (side box.slots t) i []

abbrev pub put_chain : ℕ → Team → List BoxPlayer → Boxscore → Boxscore
put_chain i t c box = record box { slots = put_side box.slots t (set (side box.slots t) i c) }

-- The entry of a player who comes in
unfoldable pub entered : Appearance → State → BoxPlayer
unfolding assign
entered sub s = record (new_player sub.player_id sub.name) {
  date = take 8 s.date;
  batting = assign Stat.g 1 no_counts;
}

-- The entry of a player who comes in for another, a pinch hitter or runner in the inning
unfoldable pub entered_for : Appearance → State → BoxPlayer
unfolding entered
entered_for sub s =
    if sub.pos == 11
    then record (entered sub s) { ph_inn = s.inning }
    else if sub.pos == 12
    then record (entered sub s) { pr_inn = s.inning }
    else entered sub s

-- The pitcher of the slot 0 takes a field position, and with it the slot of his team's batting order
-- that he comes into.
unfoldable pub move_pitcher : Appearance → BoxPlayer → List BoxPlayer → Boxscore → Boxscore
move_pitcher sub p before box =
    put_chain sub.slot sub.team (p ∷ chain sub.slot sub.team box) (put_chain 0 sub.team before box)

-- Whether the current entry of a slot is the player's
abbrev pub heads : Text → List BoxPlayer → Bool
heads id [] = false
heads id (p ∷ l) = text_eq p.player_id id

-- Another player than the current one of the slot comes in for him.
unfoldable pub join : Appearance → State → BoxPlayer → Boxscore → Boxscore
unfolding entered_for
join sub s current box =
    if text_eq sub.player_id current.player_id
    then box
    else put_chain sub.slot sub.team (entered_for sub s ∷ chain sub.slot sub.team box) box

-- The entry of a substitute, by the current one of his slot and those of the slot 0
unfoldable pub enter : Appearance → State → List BoxPlayer → List BoxPlayer → Boxscore → Boxscore
unfolding entered move_pitcher join
enter sub s [] slot0 box = put_chain sub.slot sub.team (entered sub s ∷ []) box
enter sub s (cur ∷ before) [] box = join sub s cur box
enter sub s (cur ∷ before) (p ∷ l) box =
    if not (sub.slot == 0) && text_eq p.player_id sub.player_id
    then move_pitcher sub p l box
    else join sub s cur box

abbrev pub with_fielding : Option Fielding → Option Fielding
with_fielding none = some no_fielding
with_fielding (some f) = some f

-- The position of the entry, and the record of its fielding
unfoldable pub take_up : Appearance → State → BoxPlayer → BoxPlayer
take_up sub s p = record p {
  fielding =
      if ltb sub.pos 10
      then set p.fielding sub.pos (with_fielding (fielding_at sub.pos p))
      else p.fielding;
  positions =
      p.positions
      ++ (if leb 11 sub.pos && (sub.slot == side s.dh_slot sub.team)
          then sub.pos ∷ 10 ∷ []
          else sub.pos ∷ []);
}

abbrev pub min : ℕ → ℕ → ℕ
min a b = if leb a b then a else b

-- The extra batters of a pitcher who leaves
unfoldable pub relieved : State → BoxPitcher → BoxPitcher
unfolding assign
relieved s p =
    if (s.outs == 0) && ltb 0 s.inning_batters
    then record p {
      pitching =
          assign Stat.xbinn s.inning
            (assign Stat.xb (min (p.pitching Stat.pa) s.inning_batters) p.pitching);
    }
    else if p.pitching Stat.outs == 0
    then record p {
      pitching = assign Stat.xbinn s.inning (assign Stat.xb (p.pitching Stat.pa) p.pitching);
    }
    else p

-- A new pitcher; the pitcher of a slot of the batting order is not entered again.
unfoldable pub relieve : Appearance → State → PitcherPlace → Boxscore → Boxscore
unfolding change_pitcher relieved assign
relieve sub s cur box =
    if text_eq sub.player_id cur.player_id
    then box
    else (let box₁ = change_pitcher cur (relieved s) box in
        let pitcher : BoxPitcher = record (new_pitcher sub.player_id sub.name) {
          pitching = assign Stat.g 1 no_counts;
        } in
        record box₁ {
          pitchers = put_side box₁.pitchers sub.team (pitcher ∷ side box₁.pitchers sub.team);
        })

-- The box score and the iterator that a step goes on with
abbrev pub Step : Type 0
Step = Boxscore → GameIter → Result (Boxscore × GameIter)

-- The action on the box score, then the step
abbrev pub and_then : Action → Step → Step
and_then act rest box gi = act box >>= λ box'. rest box' gi

abbrev pub done : Step
done box gi = ok (box, gi)

-- A runner whom the new pitcher inherits, and the run that he scores
unfoldable pub inherit : Appearance → State → Base → Step → Step
unfolding base_occupied count_pitching runner_fate
inherit sub s b rest box gi =
    if base_occupied s b
    then (do
      box₁ ← deref (current_pitcher sub.team box) (count_pitching Stat.inr 1) box
      (fate, gi') ← runner_fate b gi
      box₂ ←
          when (leb 4 fate) (deref (current_pitcher sub.team box₁) (count_pitching Stat.inrs 1))
            box₁
      rest box₂ gi')
    else rest box gi

unfoldable pub pitcher_change : Appearance → State → Step
unfolding relieve inherit
pitcher_change sub s box gi =
    if sub.pos == 1
    then and_then (deref (current_pitcher sub.team box) (λ cur box₁. ok (relieve sub s cur box₁)))
        (inherit sub s first (inherit sub s second (inherit sub s third done))) box gi
    else done box gi

-- One round of the loop over the substitutions
unfoldable pub substitution : Appearance → State → Step
unfolding enter change_player take_up pitcher_change
substitution sub s box gi =
    if ltb 9 sub.slot || (sub.pos == 0) || ltb 12 sub.pos
    then fault Fault.value_error
    else (let box₁ = enter sub s (chain sub.slot sub.team box) (chain 0 sub.team box) box in
        let entry : Place = record {
          team = sub.team;
          slot = sub.slot;
          depth = 0;
          player_id = sub.player_id;
        } in
        pitcher_change sub s (change_player entry (take_up sub s) box₁) gi)

-- `add_substitute`
unfoldable pub add_substitutes : List Appearance → State → Step
unfolding substitution
add_substitutes [] s box gi = ok (box, gi)
add_substitutes (sub ∷ l) s box gi = substitution sub s box gi >>= λ r. add_substitutes l s r.0 r.1
