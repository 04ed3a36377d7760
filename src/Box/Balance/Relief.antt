-- ===== src/Box/Balance/Relief.antt =====
-- The pitchers of `add_substitute`, and its loop (cw/box.py), and the tallies.
use mlb_baseball.Prelude.{
  ℕ, ◌≡◌, refl, ◌∙◌, Bool, true, false, ◌&&◌, none, ◌∷◌, ◌==◌, ltb, if◌then◌else◌, arith, text_eq,
}
use mlb_baseball.Prelude.Sides.{Team, side, put_side}
use mlb_baseball.Game.Records.{Appearance}
use mlb_baseball.State.Record.{State}
use mlb_baseball.Box.Record.{
  Stat, stat_code, BoxPlayer, BoxPitcher, Boxscore, assign, no_counts, new_pitcher,
}
use mlb_baseball.Box.Find.{Place, PitcherPlace, change_player, change_pitcher}
use mlb_baseball.Box.Substitute.{relieved, relieve, min}
use mlb_baseball.Box.Balance.Totals.{total, sides_total, batting_total, pitching_total}
use mlb_baseball.Box.Balance.Changes.{shared_code, is_shared, player-kept, pitcher-kept}
use mlb_baseball.Box.Balance.Tally.{Rows, IsTallied, IsHeld, neutral-IsHeld}
use mlb_baseball.Box.Balance.Plays.{held_with}
use mlb_baseball.Box.Balance.Entries.{same_totals-IsTallied, assign_other}

abbrev pub tallied_held : {box : Boxscore} → IsTallied box → IsHeld box.linescore none none box
tallied_held t = held_with none none t refl refl refl

pub change_pitcher-IsTallied :
    (w : PitcherPlace) (f : BoxPitcher → BoxPitcher) (box : Boxscore)
    → ((p : BoxPitcher) (q : Stat) → is_shared q ≡ true → (f p).pitching q ≡ p.pitching q)
    → IsTallied box
    → IsTallied (change_pitcher w f box)
change_pitcher-IsTallied w f box g t =
    let h : IsHeld box.linescore none none (change_pitcher w f box) =
      neutral-IsHeld (pitcher-kept w f box g) (tallied_held t) in
    h.tallied

pub change_player-IsTallied :
    (w : Place) (f : BoxPlayer → BoxPlayer) (box : Boxscore)
    → ((p : BoxPlayer) (q : Stat) → (f p).batting q ≡ p.batting q)
    → IsTallied box
    → IsTallied (change_player w f box)
change_player-IsTallied w f box g t =
    let h : IsHeld box.linescore none none (change_player w f box) =
      neutral-IsHeld (player-kept w f box (λ p q k. g p q)) (tallied_held t) in
    h.tallied

relieved-same :
    (s : State) (p : BoxPitcher) (q : Stat)
    → is_shared q ≡ true
    → (relieved s p).pitching q ≡ p.pitching q
unfolding relieved is_shared
relieved-same s p q h = from ((s.outs == 0) && ltb 0 s.inning_batters) (p.pitching Stat.outs == 0)
  where
    twice : (m n : ℕ) → assign Stat.xbinn m (assign Stat.xb n p.pitching) q ≡ p.pitching q
    twice m n =
        assign_other shared_code Stat.xbinn q m (assign Stat.xb n p.pitching)
          (unfold stat_code in refl) h
        ∙ assign_other shared_code Stat.xb q n p.pitching (unfold stat_code in refl) h

    from :
        (b c : Bool)
        → (if b
              then record p {
                pitching =
                    assign Stat.xbinn s.inning
                      (assign Stat.xb (min (p.pitching Stat.pa) s.inning_batters) p.pitching);
              }
              else if c
              then record p {
                pitching =
                    assign Stat.xbinn s.inning (assign Stat.xb (p.pitching Stat.pa) p.pitching);
              }
              else p).pitching
            q
          ≡ p.pitching q
    from true c = twice s.inning (min (p.pitching Stat.pa) s.inning_batters)
    from false true = twice s.inning (p.pitching Stat.pa)
    from false false = refl

-- A pitcher who comes in
new_pitcher-IsTallied :
    (t : Team) (p : BoxPitcher) (box : Boxscore)
    → ((q : Stat) → is_shared q ≡ true → p.pitching q ≡ 0)
    → IsTallied box
    → IsTallied (record box { pitchers = put_side box.pitchers t (p ∷ side box.pitchers t) })
new_pitcher-IsTallied t p box g k =
    same_totals-IsTallied box _ (λ q h. unfold batting_total in refl)
      (λ q h. unfold pitching_total in by_team t q (g q h)) (λ q. refl) (λ u. refl) k
  where
    by_team :
        (u : Team) (q : Stat)
        → p.pitching q ≡ 0
        → sides_total
            (total (λ x. x.pitching q))
            (put_side box.pitchers u (p ∷ side box.pitchers u))
          ≡ sides_total (total (λ x. x.pitching q)) box.pitchers
    by_team Team.visitors q e = omega (arith, e)
    by_team Team.home q e = omega (arith, e)

relieve-IsTallied :
    (sub : Appearance) (s : State) (cur : PitcherPlace) (box : Boxscore)
    → IsTallied box
    → IsTallied (relieve sub s cur box)
unfolding relieve
relieve-IsTallied sub s cur box k = from (text_eq sub.player_id cur.player_id)
  where
    from :
        (c : Bool)
        → IsTallied (
            if c
            then box
            else (let box₁ = change_pitcher cur (relieved s) box in
                let pitcher : BoxPitcher = record (new_pitcher sub.player_id sub.name) {
                  pitching = assign Stat.g 1 no_counts;
                } in
                record box₁ {
                  pitchers =
                      put_side box₁.pitchers sub.team (pitcher ∷ side box₁.pitchers sub.team);
                }))
    from true = k
    from false =
        new_pitcher-IsTallied sub.team _ (change_pitcher cur (relieved s) box)
          (λ q h.
            assign_other shared_code Stat.g q 1 no_counts (unfold stat_code in refl)
              (unfold is_shared in h))
          (change_pitcher-IsTallied cur (relieved s) box (relieved-same s) k)

relieve-line :
    (sub : Appearance) (s : State) (cur : PitcherPlace) (box : Boxscore)
    → (relieve sub s cur box).linescore ≡ box.linescore
unfolding relieve change_pitcher
relieve-line sub s cur box = from (text_eq sub.player_id cur.player_id)
  where
    from :
        (c : Bool)
        → (if c
            then box
            else (let box₁ = change_pitcher cur (relieved s) box in
                let pitcher : BoxPitcher = record (new_pitcher sub.player_id sub.name) {
                  pitching = assign Stat.g 1 no_counts;
                } in
                record box₁ {
                  pitchers =
                      put_side box₁.pitchers sub.team (pitcher ∷ side box₁.pitchers sub.team);
                })).linescore
          ≡ box.linescore
    from true = refl
    from false = refl

-- A relief keeps the tallies and the line score.
pub relieve-IsHeld :
    (sub : Appearance) (s : State) (cur : PitcherPlace) {line : Rows} (box : Boxscore)
    → IsHeld line none none box
    → IsHeld line none none (relieve sub s cur box)
relieve-IsHeld sub s cur box t =
    held_with none none (relieve-IsTallied sub s cur box t.tallied)
      (relieve-line sub s cur box ∙ t.shown) refl refl
