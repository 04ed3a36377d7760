-- ===== src/Box/Balance/Running.antt =====
-- `runner_stats` (cw/box.py) and the tallies.
use mlb_baseball.Prelude.{
  ◌≡◌, refl, true, false, Option, none, some, ◌==◌, leb, get_or, ℤ, pos, eq_ℤ, if◌then◌else◌,
}
use mlb_baseball.Prelude.Sides.{other_team}
use mlb_baseball.Play.Bases.{Base, first, second, third, on}
use mlb_baseball.Play.Event.{EventData}
use mlb_baseball.State.Record.{State, base_occupied}
use mlb_baseball.State.Advance.{defence, fielder}
use mlb_baseball.State.Queries.{charged_pitcher, responsible_pitcher}
use mlb_baseball.Iter.Rounds.{either_way}
use mlb_baseball.Box.Record.{Stat}
use mlb_baseball.Box.Find.{
  Action, ◌then◌, Place, PitcherPlace, or_return, when, find_current_player, find_pitcher,
}
use mlb_baseball.Box.Batter.{run_stats}
use mlb_baseball.Box.Runner.{
  first_fielder, pickoff_stats, steal_stats, base_steals, base_stats, runner_stats,
}
use mlb_baseball.Box.Balance.Present.{find_current_player-there, find_pitcher-there}
use mlb_baseball.Box.Balance.Rules.{
  Leads, Leads-ok, Leads-then, Leads-if, Leads-when, Leads-deref, Leads-or_leave, Leads-or_return,
}
use mlb_baseball.Box.Balance.Changes.{is_listed, is_shared}
use mlb_baseball.Box.Balance.Tally.{
  Rows, IsHeld, Leads-count_pitching, Leads-note, Leads-note_batting,
}
use mlb_baseball.Box.Balance.Plays.{Keeps, forget, held_with, run_stats-Keeps}

module _ {line : Rows} {who : Place} {res : Option PitcherPlace} (s : State) (d : EventData)
    (b : Base) where
  pickoff_stats-Keeps :
      (pickoff : ℤ) (charged : Option PitcherPlace)
      → Keeps line (some who) res (pickoff_stats pickoff charged)
  unfolding pickoff_stats is_shared
  pickoff_stats-Keeps pickoff charged =
      Leads-when (eq_ℤ pickoff (pos 1))
        (Leads-deref charged (λ w. Leads-count_pitching Stat.pk 1 w refl))

  steal_stats-Keeps :
      (c : Stat) (pickoff : ℤ) (pitcher : PitcherPlace) (catcher : Place)
      → is_shared c ≡ false
      → Keeps line (some who) res (steal_stats c s b pickoff who pitcher catcher)
  unfolding steal_stats
  steal_stats-Keeps c pickoff pitcher catcher h = Leads-note_batting c _ h

  base_steals-Keeps :
      (catcher : Place) (charged : Option PitcherPlace)
      → Keeps line (some who) res (base_steals s d b who catcher charged)
  unfolding base_steals is_shared is_listed
  base_steals-Keeps catcher charged =
      let pickoff = if on d.po_flag b then first_fielder d b else pos 0 in
      Leads-then
        (Leads-when (on d.sb_flag b)
          (Leads-deref charged (λ pitcher. steal_stats-Keeps Stat.sb _ pitcher catcher refl)))
        (Leads-if (on d.cs_flag b)
          (Leads-then
            (Leads-deref charged
              (λ pitcher. steal_stats-Keeps Stat.cs pickoff pitcher catcher refl))
            (pickoff_stats-Keeps pickoff charged))
          (Leads-when (on d.po_flag b) (
            Leads-then
              (Leads-if (get_or (on d.play b) 0 0 == b'2') (Leads-note Stat.po _ refl)
                (Leads-deref charged (λ pitcher. Leads-note Stat.po _ refl)))
              (pickoff_stats-Keeps (first_fielder d b) charged))))

module _ {line : Rows} (s : State) (d : EventData) (b : Base) {rest : Action}
    (f : Keeps line none none rest) where
  -- The runner, his pitcher and the catcher that are found
  credited :
      (who : Place) (pitcher : PitcherPlace) (catcher : Place) (charged : Option PitcherPlace)
      → Leads (IsHeld line (some who) (some pitcher)) (IsHeld line none none) (
          when
            (leb 4 (on d.advance b))
            (run_stats (other_team s.batting_team) (on d.advance b) who pitcher)
          then base_steals s d b who catcher charged
          then rest)
  credited who pitcher catcher charged =
      Leads-then (Leads-when (leb 4 (on d.advance b)) (run_stats-Keeps _ _)) (
        Leads-then (base_steals-Keeps s d b catcher charged)
          (record { run = λ box box' t h. f.run box box' (forget t) h }))

  caught :
      (who : Place) (pitcher : PitcherPlace)
      → Leads (IsHeld line (some who) (some pitcher)) (IsHeld line none none) (λ box.
        or_return
          (find_current_player (fielder s 2 (defence s)) false box)
          (λ catcher box₁.
            (when
                  (leb 4 (on d.advance b))
                  (run_stats (other_team s.batting_team) (on d.advance b) who pitcher)
                then base_steals s d b who catcher (find_pitcher (charged_pitcher d s) box₁)
                then rest)
              box₁)
          box)
  caught who pitcher =
      Leads-or_leave (find_current_player (fielder s 2 (defence s)) false) (λ box t. forget t)
        (λ catcher box box' t e h.
          (credited who pitcher catcher (find_pitcher (charged_pitcher d s) box)).run box box' t h)

  charged_to :
      (who : Place)
      → Leads (IsHeld line (some who) none) (IsHeld line none none) (λ box.
        or_return
          (find_pitcher (some (responsible_pitcher d b s)) box)
          (λ pitcher box₁.
            or_return
              (find_current_player (fielder s 2 (defence s)) false box₁)
              (λ catcher box₂.
                (when
                      (leb 4 (on d.advance b))
                      (run_stats (other_team s.batting_team) (on d.advance b) who pitcher)
                    then base_steals s d b who catcher (find_pitcher (charged_pitcher d s) box₂)
                    then rest)
                  box₂)
              box₁)
          box)
  charged_to who =
      Leads-or_leave (find_pitcher (some (responsible_pitcher d b s))) (λ box t. forget t)
        (λ pitcher box box' t e h.
          (caught who pitcher).run box box'
            (held_with (some who) (some pitcher) t.tallied t.shown t.player
              (find_pitcher-there (some (responsible_pitcher d b s)) box pitcher e))
            h)

  base_stats-Keeps : Keeps line none none (base_stats s d b rest)
  unfolding base_stats
  base_stats-Keeps = record {
    run = λ box box' t h.
        either_way (base_occupied s b) _ _
          ((Leads-or_return {P = IsHeld line none none}
              (find_current_player (some (on s.runners b).runner) true)
              (λ who box₁ box₂ t₁ e k.
                (charged_to who).run box₁ box₂
                  (held_with (some who) none t₁.tallied t₁.shown
                    (find_current_player-there (some (on s.runners b).runner) true box₁ who e) refl)
                  k)).run
            box box' t)
          (f.run box box' t) h;
  }

-- `runner_stats` keeps the tallies.
pub runner_stats-Keeps :
    {line : Rows} → (s : State) (d : EventData) → Keeps line none none (runner_stats s d)
unfolding runner_stats
runner_stats-Keeps s d =
    base_stats-Keeps s d first (base_stats-Keeps s d second (base_stats-Keeps s d third Leads-ok))
