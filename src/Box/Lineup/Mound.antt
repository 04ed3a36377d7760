-- ===== src/Box/Lineup/Mound.antt =====
-- Who pitches, and who stands in a slot, after a change of pitchers (cw/box.py: `add_substitute`).
use mlb_baseball.Prelude.{
  ℕ, zero, suc, ◌≡◌, refl, ap, ◌∙◌, sym, Bool, true, false, Option, some, List, [], ◌∷◌, get_or,
  leb, if◌then◌else◌, Text, text_eq, text_eq_iff,
}
use mathlib.Core.Path.{subst}
use mlb_baseball.Prelude.Sides.{Team, side, put_side, side-put_side}
use mlb_baseball.Play.Bases.{Base}
use mlb_baseball.Game.Records.{Appearance}
use mlb_baseball.State.Record.{State, base_occupied}
use mlb_baseball.Iter.Record.{ok, GameIter}
use mlb_baseball.Iter.Rounds.{bind-eq_ok, ok-injective, either_way}
use mlb_baseball.Iter.Ahead.{runner_fate}
use mlb_baseball.Box.Record.{Stat, BoxPlayer, BoxPitcher, Boxscore, new_pitcher, assign, no_counts}
use mlb_baseball.Box.Find.{
  Place, PitcherPlace, modify, change_player, change_pitcher, count_pitching, more_pitching, deref,
  when, current_pitcher,
}
use mlb_baseball.Box.Substitute.{Step, relieved, relieve, inherit}
use mlb_baseball.Box.Balance.Present.{put_side-test}
use mlb_baseball.Box.Balance.Rules.{Leads, Leads-deref, Leads-when}
use mlb_baseball.Box.Lineup.Slots.{current_id, pitcher_id, in_slot, on_mound}

id-modify :
    (f : BoxPlayer → BoxPlayer) (ls : List (List BoxPlayer)) (j d i : ℕ)
    → ((p : BoxPlayer) → (f p).player_id ≡ p.player_id)
    → current_id (get_or (modify j (modify d f) ls) i []) ≡ current_id (get_or ls i [])
id-modify f [] j d i g = refl
id-modify f (l ∷ ls) zero d zero g = of_chain l d
  where
    of_chain : (l : List BoxPlayer) (d : ℕ) → current_id (modify d f l) ≡ current_id l
    of_chain [] d = refl
    of_chain (p ∷ l) zero = ap some (g p)
    of_chain (p ∷ l) (suc d) = refl
id-modify f (l ∷ ls) zero d (suc i) g = refl
id-modify f (l ∷ ls) (suc j) d zero g = refl
id-modify f (l ∷ ls) (suc j) d (suc i) g = id-modify f ls j d i g

pub in_slot-change_player :
    (i : ℕ) (t : Team) (w : Place) (f : BoxPlayer → BoxPlayer) (box : Boxscore)
    → ((p : BoxPlayer) → (f p).player_id ≡ p.player_id)
    → in_slot i t (change_player w f box) ≡ in_slot i t box
unfolding change_player
in_slot-change_player i t w f box g =
    put_side-test (λ (ls : List (List BoxPlayer)). current_id (get_or ls i [])) box.slots w.team t _
      (id-modify f (side box.slots w.team) w.slot w.depth i g)

on_mound-change_pitcher :
    (t : Team) (w : PitcherPlace) (f : BoxPitcher → BoxPitcher) (box : Boxscore)
    → ((p : BoxPitcher) → (f p).player_id ≡ p.player_id)
    → on_mound t (change_pitcher w f box) ≡ on_mound t box
unfolding change_pitcher
on_mound-change_pitcher t w f box g =
    put_side-test pitcher_id box.pitchers w.team t _ (of_side (side box.pitchers w.team) w.depth)
  where
    of_side : (l : List BoxPitcher) (d : ℕ) → pitcher_id (modify d f l) ≡ pitcher_id l
    of_side [] d = refl
    of_side (p ∷ l) zero = ap some (g p)
    of_side (p ∷ l) (suc d) = refl

-- Who stands in a slot and who pitches
pub record IsField (i : ℕ) (t : Team) (batter pitcher : Option Text) (box : Boxscore) : Type 0 where
  pub slot : in_slot i t box ≡ batter
  pub mound : on_mound t box ≡ pitcher

module _ {i : ℕ} {t : Team} {batter pitcher : Option Text} where
  count_pitching-IsField :
      (c : Stat) (w : PitcherPlace)
      → Leads (IsField i t batter pitcher) (IsField i t batter pitcher) (count_pitching c 1 w)
  unfolding count_pitching
  count_pitching-IsField c w = record {
    run = λ box box' h k. subst (IsField i t batter pitcher) (ok-injective k) (record {
      slot = unfold change_pitcher in h.slot;
      mound = on_mound-change_pitcher t w (more_pitching c 1) box (λ p. refl) ∙ h.mound;
    });
  }

  pub inherit-IsField :
      (sub : Appearance) (s : State) (b : Base) {rest : Step}
      → ((box : Boxscore) (gi : GameIter) (r : Boxscore × GameIter)
          → IsField i t batter pitcher box
          → rest box gi ≡ ok r
          → IsField i t batter pitcher r.0)
      → (box : Boxscore) (gi : GameIter) (r : Boxscore × GameIter) → IsField i t batter pitcher box
      → inherit sub s b rest box gi ≡ ok r
      → IsField i t batter pitcher r.0
  unfolding inherit
  inherit-IsField sub s b {rest} f box gi r h k =
      either_way (base_occupied s b) _ _
        (λ e.
          (let (box₁, p, q) =
              bind-eq_ok (deref (current_pitcher sub.team box) (count_pitching Stat.inr 1) box) _
                e in
            let (fated, p', q') = bind-eq_ok (runner_fate b gi) _ q in
            let (box₂, p'', q'') =
              bind-eq_ok
                (when (leb 4 fated.0)
                  (deref (current_pitcher sub.team box₁) (count_pitching Stat.inrs 1)) box₁)
                _ q' in
            let inherited =
              Leads-deref (current_pitcher sub.team box) (count_pitching-IsField Stat.inr) in
            let scored =
              Leads-when (leb 4 fated.0)
                (Leads-deref (current_pitcher sub.team box₁) (count_pitching-IsField Stat.inrs)) in
            f box₂ fated.1 r (scored.run box₁ box₂ (inherited.run box box₁ h p) p'') q''))
        (f box gi r h) k

-- After a relief the substitute pitches.
pub relieve-mound :
    (sub : Appearance) (s : State) (cur : PitcherPlace) (box : Boxscore)
    → on_mound sub.team box ≡ some cur.player_id
    → on_mound sub.team (relieve sub s cur box) ≡ some sub.player_id
unfolding relieve
relieve-mound sub s cur box h = from (text_eq sub.player_id cur.player_id) refl
  where
    entered_box : Boxscore → BoxPitcher → Boxscore
    entered_box box₁ p = record box₁ {
      pitchers = put_side box₁.pitchers sub.team (p ∷ side box₁.pitchers sub.team);
    }

    from :
        (c : Bool)
        → text_eq sub.player_id cur.player_id ≡ c
        → on_mound sub.team (
            if c
            then box
            else entered_box
                (change_pitcher cur (relieved s) box)
                (record (new_pitcher sub.player_id sub.name) {
                  pitching = assign Stat.g 1 no_counts;
                }))
          ≡ some sub.player_id
    from true k =
        let (same, back) = text_eq_iff sub.player_id cur.player_id in h ∙ ap some (sym (same k))
    from false k =
        ap pitcher_id (side-put_side (change_pitcher cur (relieved s) box).pitchers sub.team _)

pub relieve-slot :
    (sub : Appearance) (s : State) (cur : PitcherPlace) (i : ℕ) (t : Team) (box : Boxscore)
    → in_slot i t (relieve sub s cur box) ≡ in_slot i t box
unfolding relieve change_pitcher
relieve-slot sub s cur i t box = from (text_eq sub.player_id cur.player_id)
  where
    box₁ : Boxscore
    box₁ = change_pitcher cur (relieved s) box

    pitcher : BoxPitcher
    pitcher = record (new_pitcher sub.player_id sub.name) { pitching = assign Stat.g 1 no_counts }

    from :
        (c : Bool)
        → in_slot i t (
            if c then box else record box₁ {
              pitchers = put_side box₁.pitchers sub.team (pitcher ∷ side box₁.pitchers sub.team);
            })
          ≡ in_slot i t box
    from true = refl
    from false = refl
