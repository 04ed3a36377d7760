-- ===== src/Box/Runner.antt =====
-- cw/box.py: `runner_stats`.
use mlb_baseball.Prelude.{
  Option, some, List, [], ◌∷◌, ◌==◌, ℤ, pos, true, false, sub_ℕ, eq_ℤ, get_or, leb, Text,
  if◌then◌else◌,
}
use mlb_baseball.Prelude.Sides.{other_team}
use mlb_baseball.Play.Bases.{Base, first, second, third, number, on}
use mlb_baseball.Play.Event.{EventData}
use mlb_baseball.State.Record.{State, base_occupied}
use mlb_baseball.State.Advance.{defence, fielder}
use mlb_baseball.State.Queries.{charged_pitcher, responsible_pitcher}
use mlb_baseball.Iter.Record.{ok}
use mlb_baseball.Box.Record.{Stat, BoxEvent, box_event}
use mlb_baseball.Box.Find.{
  Action, ◌then◌, Place, PitcherPlace, count_batting, count_pitching, note, deref, or_return, when,
  find_current_player, find_pitcher,
}
use mlb_baseball.Box.Batter.{run_stats}

-- `_c0(d.play[base]) - 48`
abbrev pub first_fielder : EventData → Base → ℤ
first_fielder d b = sub_ℕ (get_or (on d.play b) 0 0) 48

-- An event of a runner on a base
abbrev pub runner_event : State → Base → ℤ → List Text → BoxEvent
runner_event s b pickoff players = record (box_event s.inning s.batting_team players) {
  runners = pos (number b);
  pickoff = pickoff;
}

-- A pickoff by the pitcher
unfoldable pub pickoff_stats : ℤ → Option PitcherPlace → Action
unfolding count_pitching
pickoff_stats pickoff charged =
    when (eq_ℤ pickoff (pos 1)) (deref charged (count_pitching Stat.pk 1))

-- A steal or a runner caught: an event of the runner, the pitcher and the catcher, and its counter
unfoldable pub steal_stats : Stat → State → Base → ℤ → Place → PitcherPlace → Place → Action
unfolding note count_batting
steal_stats c s b pickoff who pitcher catcher =
    note c (runner_event s b pickoff (who.player_id ∷ pitcher.player_id ∷ catcher.player_id ∷ []))
    then count_batting c 1 who

-- The steals of one runner
unfoldable pub base_steals : State → EventData → Base → Place → Place → Option PitcherPlace → Action
unfolding steal_stats pickoff_stats note
base_steals s d b who catcher charged =
    when (on d.sb_flag b) (
      deref charged (λ pitcher.
        steal_stats Stat.sb s b (if on d.po_flag b then pos 1 else pos 0) who pitcher catcher))
    then (if on d.cs_flag b
        then (let pickoff = if on d.po_flag b then first_fielder d b else pos 0 in
            deref charged (λ pitcher. steal_stats Stat.cs s b pickoff who pitcher catcher)
            then pickoff_stats pickoff charged)
        else when (on d.po_flag b) (
            (if get_or (on d.play b) 0 0 == b'2'
              then note Stat.po
                  (runner_event s b (first_fielder d b) (who.player_id ∷ catcher.player_id ∷ []))
              else deref charged (λ pitcher.
                note Stat.po
                  (runner_event s b (first_fielder d b) (who.player_id ∷ pitcher.player_id ∷ []))))
            then pickoff_stats (first_fielder d b) charged))

-- One round of the loop over the bases, and the rounds that follow it
unfoldable pub base_stats : State → EventData → Base → Action → Action
unfolding base_occupied find_current_player find_pitcher responsible_pitcher charged_pitcher
    run_stats base_steals
base_stats s d b rest box =
    if base_occupied s b
    then or_return (find_current_player (some (on s.runners b).runner) true box)
        (λ who box₁.
          or_return (find_pitcher (some (responsible_pitcher d b s)) box₁)
            (λ pitcher box₂.
              or_return (find_current_player (fielder s 2 (defence s)) false box₂)
                (λ catcher box₃.
                  (when (leb 4 (on d.advance b))
                        (run_stats (other_team s.batting_team) (on d.advance b) who pitcher)
                      then base_steals s d b who catcher (find_pitcher (charged_pitcher d s) box₃)
                      then rest)
                    box₃)
                box₂)
            box₁)
        box
    else rest box

-- `runner_stats`
unfoldable pub runner_stats : State → EventData → Action
unfolding base_stats
runner_stats s d = base_stats s d first (base_stats s d second (base_stats s d third ok))
