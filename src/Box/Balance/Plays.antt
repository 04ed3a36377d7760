-- ===== src/Box/Balance/Plays.antt =====
-- The functions of a play (cw/box.py) and the tallies: `pitch_stats` and `batter_stats`.
use mlb_baseball.Prelude.{
  ℕ, ◌≡◌, refl, true, false, ◌||◌, Option, none, some, [], ◌∷◌, ◌==◌, Text, is_empty, pos,
}
use mlb_baseball.Prelude.Sides.{Team, other_team}
use mlb_baseball.Play.Event.{Ev, EventData, is_ev, ev_between, runs_on_play, rbi_on_play}
use mlb_baseball.Game.Records.{Event}
use mlb_baseball.State.Record.{State}
use mlb_baseball.Iter.Rounds.{either_way}
use mlb_baseball.Box.Record.{Stat, Boxscore}
use mlb_baseball.Box.Find.{
  Action, Place, PitcherPlace, deref, or_return, find_current_player, current_pitcher,
}
use mlb_baseball.Box.Pitches.{
  count_pitch, count_pitches, pitch_stats, pitch_ball_thrown, pitch_strike_thrown, after_period,
}
use mlb_baseball.Box.Batter.{
  count_risp_ab, count_risp_h, count_team_er, hit_stats, at_bat_stats, run_stats,
  in_scoring_position, duel, more,
}
use mlb_baseball.Box.Balance.Present.{find_current_player-there, current_pitcher-there}
use mlb_baseball.Box.Balance.Rules.{
  Leads, Leads-ok, Leads-then, Leads-if, Leads-when, Leads-or_return,
}
use mlb_baseball.Box.Balance.Tally.{
  Rows, IsTallied, IsHeld, IsFound, Leads-count_pitching, Leads-count_both, Leads-count_noted,
  Leads-other, has_player, has_pitcher,
}
use mlb_baseball.Box.Balance.Changes.{is_listed, is_shared}

-- What an action keeps
abbrev pub Keeps : Rows → Option Place → Option PitcherPlace → Action → Type 0
Keeps line who res = Leads (IsHeld line who res) (IsHeld line who res)

module _ {line : Rows} {who : Place} {res : PitcherPlace} where
  count_pitch-Keeps :
      (c : ℕ) → Leads (IsFound line who res) (IsFound line who res) (count_pitch c who res)
  unfolding count_pitch is_listed
  count_pitch-Keeps c = Leads-if (pitch_ball_thrown c) (Leads-count_both Stat.pitches 1 refl) (
      Leads-if (pitch_strike_thrown c)
        (Leads-then (Leads-count_both Stat.pitches 1 refl) (Leads-count_both Stat.strikes 1 refl))
        Leads-ok)

  count_pitches-Keeps :
      (t : Text) → Leads (IsFound line who res) (IsFound line who res) (count_pitches t who res)
  unfolding count_pitches
  count_pitches-Keeps [] = Leads-ok
  count_pitches-Keeps (c ∷ t) = Leads-then (count_pitch-Keeps c) (count_pitches-Keeps t)

-- What is found may be forgotten.
pub forget :
    {line : Rows}
    → {who : Option Place} {res : Option PitcherPlace} {box : Boxscore} → IsHeld line who res box
    → IsHeld line none none box
forget t = record { tallied = t.tallied; shown = t.shown; player = refl; pitcher = refl }

pub held_with :
    {line : Rows}
    → (who : Option Place) (res : Option PitcherPlace) {box : Boxscore} → IsTallied box
    → box.linescore ≡ line
    → has_player who box ≡ true
    → has_pitcher res box ≡ true
    → IsHeld line who res box
held_with who res t n h k = record { tallied = t; shown = n; player = h; pitcher = k }

pub forget_pitcher :
    {line : Rows}
    → {who : Option Place} {res : Option PitcherPlace} {box : Boxscore} → IsHeld line who res box
    → IsHeld line who none box
forget_pitcher t = record {
  tallied = t.tallied;
  shown = t.shown;
  player = t.player;
  pitcher = refl;
}

pub pitch_stats-Keeps :
    {line : Rows} → (ev : Event) (s : State) → Keeps line none none (pitch_stats ev s)
unfolding pitch_stats
pitch_stats-Keeps {line} ev s = record {
  run = λ box box' t h.
      either_way (is_empty ev.pitches) _ _ ((Leads-ok {P = IsHeld line none none}).run box box' t)
        (found.run box box' t) h;
}
  where
    pitched :
        (who : Place)
        → Keeps line (some who) none (λ box.
          or_return
            (current_pitcher (other_team s.batting_team) box)
            (count_pitches (after_period ev.pitches) who)
            box)
    pitched who =
        Leads-or_return (current_pitcher (other_team s.batting_team)) (λ res box box' t e h.
          forget_pitcher (
            (count_pitches-Keeps (after_period ev.pitches)).run box box'
              (held_with (some who) (some res) t.tallied t.shown t.player
                (current_pitcher-there _ box res e))
              h))

    found : Keeps line none none (λ box.
        or_return
          (find_current_player (some ev.batter) false box)
          (λ who box₁.
            or_return
              (current_pitcher (other_team s.batting_team) box₁)
              (count_pitches (after_period ev.pitches) who)
              box₁)
          box)
    found = Leads-or_return (find_current_player (some ev.batter) false) (λ who box box' t e h.
        (let there = find_current_player-there (some ev.batter) false box who e in
          forget (
            (pitched who).run box box' (held_with (some who) none t.tallied t.shown there refl) h)))

-- Counters of the team that no tally reads
module _ {line : Rows} {who : Option Place} {res : Option PitcherPlace} (t : Team) where
  risp_ab-Keeps : Keeps line who res (count_risp_ab t)
  unfolding count_risp_ab
  risp_ab-Keeps =
      Leads-other (λ box. record box { risp_ab = more t 1 box.risp_ab }) (λ box. refl) (λ box. refl)
        (λ box. refl) (λ box. refl)

  risp_h-Keeps : Keeps line who res (count_risp_h t)
  unfolding count_risp_h
  risp_h-Keeps =
      Leads-other (λ box. record box { risp_h = more t 1 box.risp_h }) (λ box. refl) (λ box. refl)
        (λ box. refl) (λ box. refl)

  team_er-Keeps : Keeps line who res (count_team_er t)
  unfolding count_team_er
  team_er-Keeps =
      Leads-other (λ box. record box { er = more t 1 box.er }) (λ box. refl) (λ box. refl)
        (λ box. refl) (λ box. refl)

module _ {line : Rows} {who : Place} {res : PitcherPlace} where
  hit_stats-Keeps :
      (s : State) (d : EventData)
      → Leads (IsFound line who res) (IsFound line who res) (hit_stats s d who res)
  unfolding hit_stats is_listed
  hit_stats-Keeps s d = Leads-then (Leads-count_both Stat.h 1 refl) (
      Leads-then (Leads-when (in_scoring_position s) (risp_h-Keeps s.batting_team)) (
        Leads-if (is_ev d.event_type Ev.double) (Leads-count_noted Stat.b2 (duel s who res)) (
          Leads-if (is_ev d.event_type Ev.triple) (Leads-count_noted Stat.b3 (duel s who res)) (
            Leads-if (is_ev d.event_type Ev.home_run)
              (Leads-then
                (Leads-count_noted Stat.hr (record (duel s who res) {
                  runners = pos (runs_on_play d);
                  outs = pos s.outs;
                  location = d.hit_location;
                }))
                (Leads-when (rbi_on_play d == 4) (Leads-count_both Stat.hrslam 1 refl)))
              Leads-ok))))

  pub at_bat_stats-Keeps :
      (s : State) (d : EventData)
      → Leads (IsFound line who res) (IsFound line who res) (at_bat_stats s d who res)
  unfolding at_bat_stats is_listed
  at_bat_stats-Keeps s d = Leads-then (Leads-count_both Stat.ab 1 refl) (
      Leads-then (Leads-when (in_scoring_position s) (risp_ab-Keeps s.batting_team)) (
        Leads-if (ev_between Ev.single Ev.home_run d.event_type) (hit_stats-Keeps s d) (
          Leads-if (is_ev d.event_type Ev.strikeout) (Leads-count_both Stat.so 1 refl)
            (Leads-when d.gdp_flag (Leads-count_both Stat.gdp 1 refl)))))

  -- A run of the batter or of a runner
  pub run_stats-Keeps :
      (t : Team) (n : ℕ)
      → Leads (IsFound line who res) (IsFound line who res) (run_stats t n who res)
  unfolding run_stats is_listed is_shared
  run_stats-Keeps t n = Leads-then (Leads-count_both Stat.r 1 refl) (
      Leads-then (Leads-when ((n == 4) || (n == 6)) (Leads-count_pitching Stat.er 1 res refl))
        (Leads-when (n == 4) (team_er-Keeps t)))

-- An action on the player of a place, where there is one
pub on_player :
    {line : Rows}
    → (o : Option Place) {r : Option PitcherPlace} {act : Place → Action}
    → ((who : Place) → Keeps line (some who) r (act who))
    → Keeps line o r (deref o act)
on_player none f = record { run = λ box box' t h. cc }
on_player (some who) f = record { run = (f who).run }
