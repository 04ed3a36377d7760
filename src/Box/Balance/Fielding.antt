-- ===== src/Box/Balance/Fielding.antt =====
-- `fielder_stats`, and the counters of a team (cw/box.py), and the tallies.
use mlb_baseball.Prelude.{
  ℕ, zero, suc, refl, Bool, true, false, ◌||◌, ◌&&◌, none, List, [], ◌∷◌, ◌++◌, ◌==◌, pos_part,
  take, set, get_or, Text, if◌then◌else◌,
}
use mlb_baseball.Play.Event.{Ev, EventData, is_ev}
use mlb_baseball.State.Record.{State}
use mlb_baseball.State.Advance.{defence, fielder}
use mlb_baseball.State.Queries.{charged_pitcher}
use mlb_baseball.Box.Record.{Stat, Fielding, box_event, Boxscore}
use mlb_baseball.Box.Find.{
  Action, ◌then◌, Place, player_at, note, find_current_player, find_pitcher,
}
use mlb_baseball.Box.Fielder.{
  fielding_at, player_fielding, change_found, change_fielding, credit_fielding, errors_of,
  note_errors, catcher_stats, position_stats, positions_stats, touch_players, multiple_play,
  fielder_stats,
}
use mlb_baseball.Box.Balance.Rules.{Leads-ok, Leads-then, Leads-when, Leads-deref, Leads-or_return}
use mlb_baseball.Box.Balance.Changes.{is_listed, player-kept}
use mlb_baseball.Box.Balance.Tally.{Rows, IsHeld, neutral-IsHeld, Leads-note}
use mlb_baseball.Box.Balance.Plays.{Keeps}
use mathlib.Core.Path.{subst}
use mlb_baseball.Iter.Rounds.{ok-injective}

change_fielding-Keeps :
    {line : Rows}
    → (i : ℕ) (f : Fielding → Fielding) (w : Place) → Keeps line none none (change_fielding i f w)
unfolding change_fielding
change_fielding-Keeps {line} i f w = record {
  run = λ box box' t h. subst (IsHeld line none none) (ok-injective h) (
      neutral-IsHeld
        (player-kept w
          (λ p. record p { fielding = set p.fielding i (change_found f (fielding_at i p)) }) box
          (λ p q k. refl))
        t);
}

note_errors-Keeps :
    {line : Rows} → (n : ℕ) (s : State) (w : Place) → Keeps line none none (note_errors n s w)
unfolding note_errors is_listed
note_errors-Keeps zero s w = Leads-ok
note_errors-Keeps (suc n) s w = Leads-then (Leads-note Stat.err _ refl) (note_errors-Keeps n s w)

catcher_stats-Keeps :
    {line : Rows}
    → (s : State) (d : EventData) (w : Place) → Keeps line none none (catcher_stats s d w)
unfolding catcher_stats is_listed
catcher_stats-Keeps {line} s d w =
    Leads-then
      (Leads-when d.pb_flag (record {
        run = λ box box' t h.
            (Leads-deref {P = IsHeld line none none} {Q = IsHeld line none none}
                (find_pitcher (charged_pitcher d s) box)
                (λ pitcher. Leads-then (change_fielding-Keeps 2 _ w) (
                  Leads-note Stat.pb
                    (box_event s.inning s.batting_team (pitcher.player_id ∷ w.player_id ∷ []))
                    refl))).run
              box box' t h;
      }))
      (Leads-when (is_ev d.event_type Ev.interference && (get_or d.errors 0 0 == 2))
        (change_fielding-Keeps 2 _ w))

position_stats-Keeps :
    {line : Rows}
    → (s : State) (d : EventData) (i : ℕ) {rest : Action} → Keeps line none none rest
    → Keeps line none none (position_stats s d i rest)
unfolding position_stats
position_stats-Keeps s d i {rest} f =
    Leads-or_return (find_current_player (fielder s i (defence s)) false) (λ w box box' t e h.
      (Leads-or_return (λ box₁. player_fielding i (player_at w box₁))
          (λ x box₁ box₂ t₁ e₁ h₁.
            (Leads-then (change_fielding-Keeps i (credit_fielding i d) w) (
                Leads-then (note_errors-Keeps (errors_of i d) s w)
                  (Leads-then (Leads-when (i == 2) (catcher_stats-Keeps s d w)) f))).run
              box₁ box₂ t₁ h₁)).run
        box box' t h)

positions_stats-Keeps :
    {line : Rows}
    → (s : State) (d : EventData) (l : List ℕ) {rest : Action} → Keeps line none none rest
    → Keeps line none none (positions_stats s d l rest)
unfolding positions_stats
positions_stats-Keeps s d [] f = f
positions_stats-Keeps s d (i ∷ l) f = position_stats-Keeps s d i (positions_stats-Keeps s d l f)

touch_players-Keeps :
    {line : Rows}
    → (s : State) (l : List ℕ) (box₀ : Boxscore) (ids : List Text) {act : List Text → Action}
    → ((ids : List Text) → Keeps line none none (act ids))
    → Keeps line none none (touch_players s l box₀ ids act)
unfolding touch_players
touch_players-Keeps s [] box₀ ids f = f ids
touch_players-Keeps s (i ∷ l) box₀ ids f =
    Leads-deref (find_current_player (fielder s i (defence s)) false box₀)
      (λ w. touch_players-Keeps s l box₀ (ids ++ w.player_id ∷ []) f)

noted_play-Keeps :
    {line : Rows}
    → (s : State) (d : EventData) (c : Bool) (ids : List Text)
    → Keeps line none none
        (note (if c then Stat.dp else Stat.tp) (box_event s.inning s.batting_team ids))
unfolding is_listed
noted_play-Keeps s d true ids = Leads-note Stat.dp _ refl
noted_play-Keeps s d false ids = Leads-note Stat.tp _ refl

multiple_play-Keeps :
    {line : Rows} → (s : State) (d : EventData) → Keeps line none none (multiple_play s d)
unfolding multiple_play
multiple_play-Keeps s d = record {
  run = λ box box' t h.
      (Leads-when (d.dp_flag || d.tp_flag) (
          touch_players-Keeps s (take (pos_part d.num_touches) d.touches) box []
            (λ ids. noted_play-Keeps s d d.dp_flag ids))).run
        box box' t h;
}

-- `fielder_stats` keeps the tallies.
pub fielder_stats-Keeps :
    {line : Rows} → (s : State) (d : EventData) → Keeps line none none (fielder_stats s d)
unfolding fielder_stats
fielder_stats-Keeps s d =
    positions_stats-Keeps s d (1 ∷ 2 ∷ 3 ∷ 4 ∷ 5 ∷ 6 ∷ 7 ∷ 8 ∷ 9 ∷ []) (multiple_play-Keeps s d)
