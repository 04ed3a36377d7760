-- ===== src/Box/Lineup/Whole.antt =====
-- The line-up after `add_substitute` (cw/box.py).
use mlb_baseball.Prelude.{
  ℕ, ◌≤◌, ◌≡◌, refl, ap, ◌∙◌, sym, Bool, true, false, ◌||◌, Option, none, some, List, [], ◌∷◌, ◌==◌,
  ltb, if◌then◌else◌, arith, Text,
}
use mathlib.Core.Path.{subst}
use mlb_baseball.Prelude.Sides.{Team, side}
use mlb_baseball.Play.Bases.{first, second, third}
use mlb_baseball.Game.Records.{Appearance}
use mlb_baseball.State.Record.{State}
use mlb_baseball.Iter.Record.{ok, fault, Fault, ◌>>=◌, GameIter}
use mlb_baseball.Iter.Rounds.{bind-eq_ok, ok-injective}
use mlb_baseball.Box.Record.{BoxPitcher, Boxscore}
use mlb_baseball.Box.Find.{Place, PitcherPlace, change_player, deref, current_pitcher}
use mlb_baseball.Box.Substitute.{
  Step, done, chain, enter, relieve, take_up, inherit, pitcher_change, substitution,
}
use mlb_baseball.Box.Lineup.Slots.{pitcher_id, in_slot, on_mound, HasSlots, enter-in_slot}
use mlb_baseball.Box.Lineup.Mound.{
  IsField, inherit-IsField, relieve-mound, relieve-slot, in_slot-change_player,
}

done-IsField :
    {i : ℕ} {t : Team} {batter pitcher : Option Text} (box : Boxscore) (gi : GameIter)
    (r : Boxscore × GameIter)
    → IsField i t batter pitcher box
    → done box gi ≡ ok r
    → IsField i t batter pitcher r.0
done-IsField {i} {t} {batter} {pitcher} box gi r h k =
    subst (λ (x : Boxscore × GameIter). IsField i t batter pitcher x.0) (ok-injective k) h

relief-IsField :
    (sub : Appearance) (s : State) (box box' : Boxscore) (x : Option Text)
    → in_slot sub.slot sub.team box ≡ x
    → deref (current_pitcher sub.team box) (λ cur box₁. ok (relieve sub s cur box₁)) box ≡ ok box'
    → IsField sub.slot sub.team x (some sub.player_id) box'
relief-IsField sub s box box' x h k = from (side box.pitchers sub.team) refl k
  where
    from :
        (l : List BoxPitcher)
        → side box.pitchers sub.team ≡ l
        → deref
            (elim l [
              | [] ↦ none
              | p ∷ l' ↦ some (record { team = sub.team; depth = 0; player_id = p.player_id })
            ])
            (λ cur box₁. ok (relieve sub s cur box₁))
            box
          ≡ ok box'
        → IsField sub.slot sub.team x (some sub.player_id) box'
    from [] e m = cc
    from (p ∷ l) e m =
        let cur : PitcherPlace = record { team = sub.team; depth = 0; player_id = p.player_id } in
        subst (IsField sub.slot sub.team x (some sub.player_id)) (ok-injective m) (record {
          slot = relieve-slot sub s cur sub.slot sub.team box ∙ h;
          mound = relieve-mound sub s cur box (ap pitcher_id e);
        })

change_pitched :
    (sub : Appearance) (s : State) (box : Boxscore) (gi : GameIter) (r : Boxscore × GameIter)
    (x : Option Text)
    → in_slot sub.slot sub.team box ≡ x
    → pitcher_change sub s box gi ≡ ok r
    → (in_slot sub.slot sub.team r.0 ≡ x)
      × ((sub.pos == 1) ≡ true → on_mound sub.team r.0 ≡ some sub.player_id)
unfolding pitcher_change
change_pitched sub s box gi r x h k = from (sub.pos == 1) k
  where
    inherited : Step
    inherited = inherit sub s first (inherit sub s second (inherit sub s third done))

    from :
        (c : Bool)
        → (if c
            then (deref (current_pitcher sub.team box) (λ cur box₁. ok (relieve sub s cur box₁)) box
                >>= λ box'. inherited box' gi)
            else done box gi)
          ≡ ok r
        → (in_slot sub.slot sub.team r.0 ≡ x)
          × (c ≡ true → on_mound sub.team r.0 ≡ some sub.player_id)
    from true m =
        let (box₁, p, q) =
          bind-eq_ok
            (deref (current_pitcher sub.team box) (λ cur box₁. ok (relieve sub s cur box₁)) box) _
            m in
        let field =
          inherit-IsField sub s first
            (inherit-IsField sub s second (inherit-IsField sub s third done-IsField)) box₁ gi r
            (relief-IsField sub s box box₁ x h p) q in
        (field.slot, λ e. field.mound)
    from false m = (
      ap (λ (y : Boxscore × GameIter). in_slot sub.slot sub.team y.0) (sym (ok-injective m)) ∙ h,
      λ e. cc,
    )

-- The slot and the pitcher after a substitution
substituted :
    (sub : Appearance) (s : State) (box : Boxscore) (gi : GameIter) {r : Boxscore × GameIter}
    → HasSlots box
    → substitution sub s box gi ≡ ok r
    → (in_slot sub.slot sub.team r.0 ≡ some sub.player_id)
      × ((sub.pos == 1) ≡ true → on_mound sub.team r.0 ≡ some sub.player_id)
unfolding substitution
substituted sub s box gi {r} h k =
    from (ltb 9 sub.slot || (sub.pos == 0) || ltb 12 sub.pos) (λ e. ground (arith, e)) k
  where
    entry : Place
    entry = record { team = sub.team; slot = sub.slot; depth = 0; player_id = sub.player_id }

    entered_box : Boxscore
    entered_box = enter sub s (chain sub.slot sub.team box) (chain 0 sub.team box) box

    from :
        (c : Bool)
        → (c ≡ false → sub.slot ≤ 9)
        → (if c
            then fault Fault.value_error
            else pitcher_change sub s (change_player entry (take_up sub s) entered_box) gi)
          ≡ ok r
        → (in_slot sub.slot sub.team r.0 ≡ some sub.player_id)
          × ((sub.pos == 1) ≡ true → on_mound sub.team r.0 ≡ some sub.player_id)
    from true l m = cc
    from false l m =
        change_pitched sub s (change_player entry (take_up sub s) entered_box) gi r
          (some sub.player_id)
          (in_slot-change_player sub.slot sub.team entry (take_up sub s) entered_box
              (λ p. unfold take_up in refl)
            ∙ enter-in_slot sub s (chain sub.slot sub.team box) (chain 0 sub.team box) box (l refl)
                h refl)
          m

-- Where a substitution returns from a box score of ten slots for each side, the current entry of its
-- slot is the substitute's.
pub substitution-in_slot :
    (sub : Appearance) (s : State) (box : Boxscore) (gi : GameIter) {r : Boxscore × GameIter}
    → HasSlots box
    → substitution sub s box gi ≡ ok r
    → in_slot sub.slot sub.team r.0 ≡ some sub.player_id
substitution-in_slot sub s box gi h k = let (slot, mound) = substituted sub s box gi h k in slot

-- Where a substitution in the pitcher's position returns from a box score of ten slots for each side,
-- the substitute is the current pitcher of his team.
pub substitution-on_mound :
    (sub : Appearance) (s : State) (box : Boxscore) (gi : GameIter) {r : Boxscore × GameIter}
    → HasSlots box
    → (sub.pos == 1) ≡ true
    → substitution sub s box gi ≡ ok r
    → on_mound sub.team r.0 ≡ some sub.player_id
substitution-on_mound sub s box gi h e k =
    let (slot, mound) = substituted sub s box gi h k in mound e
