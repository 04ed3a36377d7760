-- ===== src/Box/Balance/Subs.antt =====
-- The loop of `add_substitute` (cw/box.py), the tallies and the line score.
use mlb_baseball.Prelude.{
  ◌≤◌, ◌≡◌, refl, ◌∙◌, Bool, true, false, ◌||◌, Option, none, some, List, [], ◌∷◌, ◌==◌, ltb, leb,
  if◌then◌else◌, arith,
}
use mathlib.Core.Path.{subst}
use mlb_baseball.Play.Bases.{Base, first, second, third}
use mlb_baseball.Game.Records.{Appearance}
use mlb_baseball.State.Record.{State, base_occupied}
use mlb_baseball.Iter.Record.{ok, fault, Fault, GameIter}
use mlb_baseball.Iter.Rounds.{bind-eq_ok, ok-injective, either_way}
use mlb_baseball.Iter.Ahead.{runner_fate}
use mlb_baseball.Box.Record.{Stat, Boxscore}
use mlb_baseball.Box.Find.{
  Place, PitcherPlace, change_player, count_pitching, deref, when, current_pitcher,
}
use mlb_baseball.Box.Substitute.{
  Step, done, chain, enter, relieve, take_up, inherit, pitcher_change, substitution,
  add_substitutes,
}
use mlb_baseball.Box.Balance.Changes.{is_shared}
use mlb_baseball.Box.Balance.Tally.{Rows, IsHeld, Leads-count_pitching}
use mlb_baseball.Box.Balance.Rules.{Leads-deref, Leads-when}
use mlb_baseball.Box.Balance.Plays.{held_with}
use mlb_baseball.Box.Balance.Entries.{enter-line, enter-IsTallied}
use mlb_baseball.Box.Balance.Relief.{change_player-IsTallied, relieve-IsHeld}

-- The step keeps the tallies and the line score.
record KeepsTallies (line : Rows) (step : Step) : Type 0 where
  run :
      (box : Boxscore) (gi : GameIter) (r : Boxscore × GameIter)
      → IsHeld line none none box
      → step box gi ≡ ok r
      → IsHeld line none none r.0

done-KeepsTallies : {line : Rows} → KeepsTallies line done
done-KeepsTallies {line} = record {
  run = λ box gi r t h.
      subst (λ (x : Boxscore × GameIter). IsHeld line none none x.0) (ok-injective h) t;
}

inherit-KeepsTallies :
    {line : Rows} (sub : Appearance) (s : State) (b : Base) {rest : Step}
    → KeepsTallies line rest
    → KeepsTallies line (inherit sub s b rest)
unfolding inherit is_shared
inherit-KeepsTallies {line} sub s b {rest} f = record {
  run = λ box gi r t h.
      either_way (base_occupied s b) _ _
        (λ k.
          (let (box₁, p, q) =
              bind-eq_ok (deref (current_pitcher sub.team box) (count_pitching Stat.inr 1) box) _
                k in
            let (fated, p', q') = bind-eq_ok (runner_fate b gi) _ q in
            let (box₂, p'', q'') =
              bind-eq_ok
                (when (leb 4 fated.0)
                  (deref (current_pitcher sub.team box₁) (count_pitching Stat.inrs 1)) box₁)
                _ q' in
            let inherited =
              Leads-deref {P = IsHeld line none none} (current_pitcher sub.team box)
                (λ w. Leads-count_pitching Stat.inr 1 w refl) in
            let scored = Leads-when (leb 4 fated.0) (
              Leads-deref {P = IsHeld line none none} (current_pitcher sub.team box₁)
                (λ w. Leads-count_pitching Stat.inrs 1 w refl)) in
            let t₁ = inherited.run box box₁ t p in
            let t₂ = scored.run box₁ box₂ t₁ p'' in f.run box₂ fated.1 r t₂ q''))
        (f.run box gi r t) h;
}

pitcher_change-KeepsTallies :
    {line : Rows} → (sub : Appearance) (s : State) → KeepsTallies line (pitcher_change sub s)
unfolding pitcher_change
pitcher_change-KeepsTallies {line} sub s = record {
  run = λ box gi r t h.
      either_way (sub.pos == 1) _ _
        (λ k.
          (let (box₁, p, q) =
              bind-eq_ok
                (deref (current_pitcher sub.team box) (λ cur box₁. ok (relieve sub s cur box₁)) box)
                _ k in
            inherited.run box₁ gi r (relieved_by box box₁ t (current_pitcher sub.team box) p) q))
        (done-KeepsTallies.run box gi r t) h;
}
  where
    inherited :
        KeepsTallies line (inherit sub s first (inherit sub s second (inherit sub s third done)))
    inherited =
        inherit-KeepsTallies sub s first
          (inherit-KeepsTallies sub s second (inherit-KeepsTallies sub s third done-KeepsTallies))

    relieved_by :
        (box box₁ : Boxscore)
        → IsHeld line none none box
        → (o : Option PitcherPlace)
        → deref o (λ cur box₂. ok (relieve sub s cur box₂)) box ≡ ok box₁
        → IsHeld line none none box₁
    relieved_by box box₁ t none k = cc
    relieved_by box box₁ t (some cur) k =
        subst (IsHeld line none none) (ok-injective k) (relieve-IsHeld sub s cur box t)

substitution-KeepsTallies :
    {line : Rows} → (sub : Appearance) (s : State) → KeepsTallies line (substitution sub s)
unfolding substitution
substitution-KeepsTallies {line} sub s = record {
  run = λ box gi r t h.
      from box gi r t (ltb 9 sub.slot || (sub.pos == 0) || ltb 12 sub.pos) (λ e. ground (arith, e))
        h;
}
  where
    entry : Place
    entry = record { team = sub.team; slot = sub.slot; depth = 0; player_id = sub.player_id }

    entered_box : Boxscore → Boxscore
    entered_box box = enter sub s (chain sub.slot sub.team box) (chain 0 sub.team box) box

    from :
        (box : Boxscore) (gi : GameIter) (r : Boxscore × GameIter)
        → IsHeld line none none box
        → (c : Bool) → (c ≡ false → sub.slot ≤ 9)
        → (if c
            then fault Fault.value_error
            else pitcher_change sub s (change_player entry (take_up sub s) (entered_box box)) gi)
          ≡ ok r
        → IsHeld line none none r.0
    from box gi r t true l k = cc
    from box gi r t false l k =
        (pitcher_change-KeepsTallies sub s).run
          (change_player entry (take_up sub s) (entered_box box)) gi r
          (held_with none none
            (change_player-IsTallied entry (take_up sub s) (entered_box box)
              (λ p q. unfold take_up in refl)
              (enter-IsTallied sub s (chain sub.slot sub.team box) (chain 0 sub.team box) box
                (l refl) refl refl t.tallied))
            (unfold change_player in
              enter-line sub s (chain sub.slot sub.team box) (chain 0 sub.team box) box ∙ t.shown)
            refl refl)
          k

-- `add_substitute` keeps the tallies.
pub add_substitutes-IsHeld :
    {line : Rows} (l : List Appearance) (s : State) (box : Boxscore) (gi : GameIter)
    (r : Boxscore × GameIter)
    → IsHeld line none none box
    → add_substitutes l s box gi ≡ ok r
    → IsHeld line none none r.0
unfolding add_substitutes
add_substitutes-IsHeld {line} [] s box gi r t h =
    subst (λ (x : Boxscore × GameIter). IsHeld line none none x.0) (ok-injective h) t
add_substitutes-IsHeld {line} (sub ∷ l) s box gi r t h =
    let (mid, p, q) = bind-eq_ok (substitution sub s box gi) _ h in
    add_substitutes-IsHeld l s mid.0 mid.1 r ((substitution-KeepsTallies sub s).run box gi mid t p)
      q
