-- ===== src/Box/Balance/Line.antt =====
-- The line score that an event leaves (cw/box.py), and the tallies.
use mlb_baseball.Prelude.{ℕ, refl, Bool, true, false, none, if◌then◌else◌}
use mlb_baseball.Prelude.Sides.{Team, other_team}
use mlb_baseball.Play.Event.{EventData, runs_on_play}
use mlb_baseball.Game.Records.{Event}
use mlb_baseball.State.Record.{State}
use mlb_baseball.Iter.Record.{is_play}
use mlb_baseball.Box.Record.{Boxscore, rows_to}
use mlb_baseball.Box.Find.{when, Action, ◌then◌, modify}
use mlb_baseball.Box.Batter.{more}
use mlb_baseball.Box.Iterate.{
  opened, more_runs, change_half, open_half, add_runs, count_multiple, play_stats, event_stats,
}
use mlb_baseball.Box.Balance.Rules.{Leads, Leads-ok, Leads-then}
use mlb_baseball.Box.Balance.Tally.{Rows, IsHeld, Leads-other}
use mlb_baseball.Box.Balance.Plays.{Keeps, pitch_stats-Keeps}
use mlb_baseball.Box.Balance.Charges.{batter_stats-Keeps}
use mlb_baseball.Box.Balance.Running.{runner_stats-Keeps}
use mathlib.Core.Path.{subst}
use mlb_baseball.Iter.Rounds.{ok-injective}
use mlb_baseball.Box.Balance.Totals.{batting_total, pitching_total}
use mlb_baseball.Box.Balance.Fielding.{fielder_stats-Keeps}

count_multiple-Keeps :
    {line : Rows} → (t : Team) (d : EventData) → Keeps line none none (count_multiple t d)
unfolding count_multiple
count_multiple-Keeps t d =
    Leads-other
      (λ box. record box {
        dp = if d.dp_flag then more t 1 box.dp else box.dp;
        tp = if d.tp_flag then more t 1 box.tp else box.tp;
      })
      (λ box. refl) (λ box. refl) (λ box. refl) (λ box. refl)

-- The row of the inning, made and opened for the side that bats
abbrev pub opened_line : State → Rows → Rows
opened_line s line = modify s.inning (change_half s.batting_team opened) (rows_to s.inning line)

abbrev pub scored_line : State → ℕ → Rows → Rows
scored_line s n line = modify s.inning (change_half s.batting_team (more_runs n)) line

-- The line score after an event
abbrev pub line_after : Event → State → EventData → Rows → Rows
line_after ev s d line =
    if is_play ev then scored_line s (runs_on_play d) (opened_line s line) else opened_line s line

rows_only :
    {box : Boxscore} {line : Rows} (line' : Rows)
    → IsHeld line none none box
    → IsHeld line' none none (record box { linescore = line' })
rows_only line' t = record {
  tallied = record {
    shared = λ q h. unfold batting_total pitching_total in t.tallied.shared q h;
    listed = λ q h. unfold batting_total in t.tallied.listed q h;
    rows = t.tallied.rows;
  };
  shown = refl;
  player = refl;
  pitcher = refl;
}

add_runs-Leads :
    (s : State) (n : ℕ) {line : Rows}
    → Leads
        (IsHeld line none none)
        (IsHeld (scored_line s n line) none none)
        (add_runs s.inning s.batting_team n)
unfolding add_runs
add_runs-Leads s n {line} = record {
  run = λ box box' t h. subst (IsHeld (scored_line s n line) none none) (ok-injective h) (
      subst
        (λ (x : Rows).
          IsHeld (scored_line s n x) none none
            (record box { linescore = scored_line s n box.linescore }))
        t.shown (rows_only (scored_line s n box.linescore) t));
}

open_half-Leads :
    (s : State) {line : Rows}
    → Leads
        (IsHeld line none none)
        (IsHeld (opened_line s line) none none)
        (open_half s.inning s.batting_team)
unfolding open_half
open_half-Leads s {line} = record {
  run = λ box box' t h. subst (IsHeld (opened_line s line) none none) (ok-injective h) (
      subst
        (λ (x : Rows).
          IsHeld (opened_line s x) none none
            (record box { linescore = opened_line s box.linescore }))
        t.shown (rows_only (opened_line s box.linescore) t));
}

-- A play, or an event that is none
either_line :
    (c : Bool) (act : Action) (line line' : Rows)
    → Leads (IsHeld line none none) (IsHeld line' none none) act
    → Leads (IsHeld line none none) (IsHeld (if c then line' else line) none none) (when c act)
either_line true act line line' f = record { run = f.run }
either_line false act line line' f = record { run = (Leads-ok {P = IsHeld line none none}).run }

-- What an event adds keeps the tallies, and leaves its line score.
pub event_stats-Leads :
    (ev : Event) (s : State) (d : EventData) {line : Rows}
    → Leads (IsHeld line none none) (IsHeld (line_after ev s d line) none none) (event_stats ev s d)
unfolding event_stats play_stats
event_stats-Leads ev s d {line} = Leads-then (open_half-Leads s) (
    Leads-then (pitch_stats-Keeps ev s) (
      either_line (is_play ev) _ (opened_line s line)
        (scored_line s (runs_on_play d) (opened_line s line))
        (Leads-then (batter_stats-Keeps ev s d) (
          Leads-then (runner_stats-Keeps s d) (
            Leads-then (fielder_stats-Keeps s d) (
              Leads-then (count_multiple-Keeps (other_team s.batting_team) d)
                (add_runs-Leads s (runs_on_play d))))))))
