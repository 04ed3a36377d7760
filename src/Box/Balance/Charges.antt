-- ===== src/Box/Balance/Charges.antt =====
-- `batter_stats` (cw/box.py) and the tallies.
use mlb_baseball.Prelude.{
  ◌+◌, ◌≡◌, refl, true, false, ◌||◌, ◌&&◌, Option, none, some, [], ◌∷◌, ◌==◌, not, leb,
  if◌then◌else◌,
}
use mlb_baseball.Prelude.Sides.{other_team}
use mlb_baseball.Play.Bases.{batter, on}
use mlb_baseball.Play.Event.{
  Ev, EventData, is_ev, is_batter, is_official_ab, outs_on_play, rbi_on_play,
}
use mlb_baseball.Game.Records.{Event}
use mlb_baseball.State.Record.{State}
use mlb_baseball.State.Advance.{defence, fielder}
use mlb_baseball.State.Queries.{charged_batter, charged_pitcher}
use mlb_baseball.State.Update.{is_some}
use mlb_baseball.Iter.Rounds.{either_way}
use mlb_baseball.Box.Record.{Stat, box_event, Boxscore}
use mlb_baseball.Box.Find.{
  Action, ◌then◌, Place, PitcherPlace, player_at, deref, or_return, note, count_batting,
  count_pitching, find_player, find_current_player, find_on_side, current_pitcher,
}
use mlb_baseball.Box.Batter.{
  other_stats, batted_ball_stats, duel, sacrifice_stats, rbi_stats, runners_left_stats, plate_stats,
  after_pitch_stats, wild_pitch_stats, credit_play, batter_stats,
}
use mlb_baseball.Box.Balance.Present.{find_player-there, find_on_side-there}
use mlb_baseball.Box.Balance.Rules.{
  Leads-ok, Leads-then, Leads-if, Leads-when, Leads-or_return, Leads-found,
}
use mlb_baseball.Box.Balance.Changes.{is_listed, is_counted, is_shared}
use mlb_baseball.Box.Balance.Tally.{
  Rows, IsHeld, Leads-count_batting, Leads-count_pitching, Leads-note, Leads-count_both,
  Leads-count_noted, has_player,
}
use mlb_baseball.Box.Balance.Plays.{
  Keeps, forget, forget_pitcher, held_with, on_player, at_bat_stats-Keeps, run_stats-Keeps,
}

module _ {line : Rows} (s : State) (d : EventData) (player : Option Place)
    (res : PitcherPlace) where
  other_stats-Keeps : Keeps line player (some res) (other_stats s d player res)
  unfolding other_stats is_listed is_shared
  other_stats-Keeps =
      Leads-if (is_ev d.event_type Ev.walk || is_ev d.event_type Ev.intentional_walk)
        (on_player player (λ who. Leads-then (Leads-count_both Stat.bb 1 refl) (
          Leads-when (is_ev d.event_type Ev.intentional_walk)
            (Leads-count_noted Stat.ibb (duel s who res)))))
        (Leads-if (is_ev d.event_type Ev.hit_by_pitch)
          (on_player player (λ who. Leads-count_noted Stat.hp (duel s who res)))
          (Leads-if (is_ev d.event_type Ev.balk)
            (Leads-then (Leads-count_pitching Stat.bk 1 res refl)
              (Leads-note Stat.bk (box_event s.inning s.batting_team (res.player_id ∷ [])) refl))
            (Leads-when (is_ev d.event_type Ev.interference)
              (on_player player (λ who. Leads-count_both Stat.xi 1 refl)))))

  batted_ball_stats-Keeps : Keeps line player (some res) (batted_ball_stats d res)
  unfolding batted_ball_stats is_shared
  batted_ball_stats-Keeps = Leads-when (is_ev d.event_type Ev.generic_out && not d.bunt_flag) (
      Leads-if (d.batted_ball_type == b'G') (Leads-count_pitching Stat.gb 1 res refl) (
        Leads-when
          ((d.batted_ball_type == b'F')
            || (d.batted_ball_type == b'P')
            || (d.batted_ball_type == b'L'))
          (Leads-count_pitching Stat.fb 1 res refl)))

  sacrifice_stats-Keeps : Keeps line player (some res) (sacrifice_stats s d player res)
  unfolding sacrifice_stats
  sacrifice_stats-Keeps =
      Leads-then
        (Leads-when d.sh_flag
          (on_player player (λ who. Leads-count_noted Stat.sh (duel s who res))))
        (Leads-when d.sf_flag
          (on_player player (λ who. Leads-count_noted Stat.sf (duel s who res))))

  rbi_stats-Keeps : (who : Place) → Keeps line (some who) (some res) (rbi_stats s d who)
  unfolding rbi_stats is_counted
  rbi_stats-Keeps who =
      Leads-then (Leads-count_batting Stat.bi (rbi_on_play d) who refl)
        (Leads-when (s.outs == 2) (Leads-count_batting Stat.bi2out (rbi_on_play d) who refl))

  one_batting :
      (c : Stat)
      → is_counted c ≡ false
      → Keeps line player (some res) (deref player (count_batting c 1))
  one_batting c h = on_player player (λ who. Leads-count_batting c 1 who h)

  runners_left_stats-Keeps : Keeps line player (some res) (runners_left_stats s d player)
  unfolding runners_left_stats is_counted
  runners_left_stats-Keeps =
      Leads-if (s.outs + outs_on_play d == 3)
        (Leads-then (Leads-when _ (one_batting Stat.lisp refl))
          (Leads-when _ (one_batting Stat.lisp refl)))
        (Leads-when (is_ev d.event_type Ev.generic_out) (
          Leads-then (Leads-when _ (one_batting Stat.movedup refl))
            (Leads-when _ (one_batting Stat.movedup refl))))

  plate_stats-Keeps : Keeps line player (some res) (plate_stats s d player res)
  unfolding plate_stats is_listed is_shared
  plate_stats-Keeps =
      Leads-then
        (Leads-when (is_batter d) (on_player player (λ who. Leads-count_both Stat.pa 1 refl)))
        (Leads-then (Leads-count_pitching Stat.outs (outs_on_play d) res refl) (
          Leads-then
            (Leads-if (is_official_ab d) (on_player player (λ who. at_bat_stats-Keeps s d))
              other_stats-Keeps)
            batted_ball_stats-Keeps))

  after_pitch_stats-Keeps : Keeps line player (some res) (after_pitch_stats s d player res)
  unfolding after_pitch_stats
  after_pitch_stats-Keeps = Leads-then sacrifice_stats-Keeps (
      Leads-then
        (Leads-when (leb 4 (on d.advance batter)) (
          on_player player
            (λ who. run_stats-Keeps (other_team s.batting_team) (on d.advance batter))))
        (Leads-then (Leads-when (is_batter d) (on_player player rbi_stats-Keeps))
          runners_left_stats-Keeps))

  wild_pitch_stats-Keeps :
      (pitcher : PitcherPlace) {rest : Action}
      → Keeps line player (some res) rest
      → Keeps line player (some res) (wild_pitch_stats s d pitcher rest)
  unfolding wild_pitch_stats is_listed is_shared
  wild_pitch_stats-Keeps pitcher {rest} f = record {
    run = λ box box' t h. either_way d.wp_flag _ _ (pitched.run box box' t) (f.run box box' t) h;
  }
    where
      noted : Place → Action
      noted catcher =
          note Stat.wp
            (box_event s.inning s.batting_team (pitcher.player_id ∷ catcher.player_id ∷ []))
          then count_pitching Stat.wp 1 pitcher
          then rest

      pitched :
          Keeps line player
            (some res)
            (λ box. or_return (find_current_player (fielder s 2 (defence s)) false box) noted box)
      pitched =
          Leads-or_return (find_current_player (fielder s 2 (defence s)) false)
            (λ catcher box box' t e h.
              (Leads-then (Leads-note Stat.wp _ refl)
                  (Leads-then (Leads-count_pitching Stat.wp 1 pitcher refl) f)).run
                box box' t h)

  pub credit_play-Keeps :
      (pitcher : PitcherPlace) → Keeps line player (some res) (credit_play s d player pitcher res)
  unfolding credit_play
  credit_play-Keeps pitcher =
      Leads-then plate_stats-Keeps (wild_pitch_stats-Keeps pitcher after_pitch_stats-Keeps)

-- The player that a search gives is there, where it gives one.
pub found_player :
    (find : Boxscore → Option Place) (box : Boxscore)
    → ((w : Place) → find box ≡ some w → is_some (player_at w box) ≡ true)
    → has_player (find box) box ≡ true
found_player find box f = from (find box) f
  where
    from :
        (o : Option Place)
        → ((w : Place) → o ≡ some w → is_some (player_at w box) ≡ true)
        → has_player o box ≡ true
    from none g = refl
    from (some w) g = g w refl

-- `batter_stats` keeps the tallies.
pub batter_stats-Keeps :
    {line : Rows}
    → (ev : Event) (s : State) (d : EventData) → Keeps line none none (batter_stats ev s d)
unfolding batter_stats
batter_stats-Keeps {line} ev s d = record {
  run = λ box box' t h.
      (let find = find_player (some (charged_batter ev.batter d s)) true in
        let there =
          found_player find box
            (find_player-there (some (charged_batter ev.batter d s)) true box) in
        either_way (is_batter d && not (is_some (find box))) _ _
          ((Leads-ok {P = IsHeld line none none}).run box box' t)
          (λ k. forget (
            (charged (find box)).run box box'
              (held_with (find box) none t.tallied t.shown there refl) k))
          h);
}
  where
    charged :
        (player : Option Place)
        → Keeps line player none (λ box.
          deref
            (current_pitcher (other_team s.batting_team) box)
            (λ pitcher box₁.
              or_return
                (find_on_side (charged_pitcher d s) (other_team s.batting_team) box₁)
                (credit_play s d player pitcher)
                box₁)
            box)
    charged player =
        Leads-found (current_pitcher (other_team s.batting_team)) (λ pitcher box box' t e h.
          (Leads-or_return {P = IsHeld line player none}
              (find_on_side (charged_pitcher d s) (other_team s.batting_team))
              (λ res box₁ box₂ t₁ e₁ h₁. forget_pitcher (
                (credit_play-Keeps s d player res pitcher).run box₁ box₂
                  (held_with player (some res) t₁.tallied t₁.shown t₁.player
                    (find_on_side-there _ _ box₁ res e₁))
                  h₁))).run
            box box' t h)
