-- ===== src/Box/Lineup/Slots.antt =====
-- Who stands in the slot of a substitute after his entry (cw/box.py: `add_substitute`).
use mlb_baseball.Prelude.{
  ℕ, zero, suc, ◌≤◌, ◌<◌, ◌≡◌, refl, ap, ◌∙◌, sym, Bool, true, false, ◌&&◌, not, Option, none, some,
  List, [], ◌∷◌, ◌==◌, get_or, set, length, if◌then◌else◌, arith, Text, text_eq, text_eq_iff,
}
use mlb_baseball.Prelude.Sides.{Team, side}
use mlb_baseball.Game.Records.{Appearance}
use mlb_baseball.State.Record.{State}
use mlb_baseball.Box.Record.{BoxPlayer, BoxPitcher, Boxscore}
use mlb_baseball.Box.Substitute.{chain, put_chain, entered, entered_for, move_pitcher, join, enter}
use mlb_baseball.Box.Balance.Entries.{put_chain-rows}

-- The current player of a slot
abbrev pub current_id : List BoxPlayer → Option Text
current_id [] = none
current_id (p ∷ l) = some p.player_id

-- The current pitcher of a side
abbrev pub pitcher_id : List BoxPitcher → Option Text
pitcher_id [] = none
pitcher_id (p ∷ l) = some p.player_id

abbrev pub in_slot : ℕ → Team → Boxscore → Option Text
in_slot i t box = current_id (chain i t box)

abbrev pub on_mound : Team → Boxscore → Option Text
on_mound t box = pitcher_id (side box.pitchers t)

-- Ten slots for each side
abbrev pub HasSlots : Boxscore → Type 0
HasSlots box = (t : Team) → length (side box.slots t) ≡ 10

get_or-set : {A : Type 0} (l : List A) (i : ℕ) (a d : A) → i < length l → get_or (set l i a) i d ≡ a
get_or-set [] i a d h = absurd (omega (arith, h))
get_or-set (x ∷ l) zero a d h = refl
get_or-set (x ∷ l) (suc i) a d h = get_or-set l i a d (omega (arith, h))

chain-put_chain :
    (i : ℕ) (t : Team) (c : List BoxPlayer) (box : Boxscore)
    → i < length (side box.slots t)
    → chain i t (put_chain i t c box) ≡ c
chain-put_chain i Team.visitors c box h = get_or-set box.slots.away_side i c [] h
chain-put_chain i Team.home c box h = get_or-set box.slots.home_side i c [] h

put_chain-slots :
    (i : ℕ) (t : Team) (c : List BoxPlayer) (box : Boxscore) (p : BoxPlayer)
    → i ≤ 9
    → HasSlots box
    → in_slot i t (put_chain i t (p ∷ c) box) ≡ some p.player_id
put_chain-slots i t c box p l h =
    ap current_id (chain-put_chain i t (p ∷ c) box (omega (arith, l, h t)))

entered_for-id : (sub : Appearance) (s : State) → (entered_for sub s).player_id ≡ sub.player_id
unfolding entered_for entered
entered_for-id sub s = from (sub.pos == 11) (sub.pos == 12)
  where
    from :
        (b c : Bool)
        → (if b
            then record (entered sub s) { ph_inn = s.inning }
            else if c
            then record (entered sub s) { pr_inn = s.inning }
            else entered sub s).player_id
          ≡ sub.player_id
    from true c = refl
    from false true = refl
    from false false = refl

join-in_slot :
    (sub : Appearance) (s : State) (cur : BoxPlayer) (c : List BoxPlayer) (box : Boxscore)
    → sub.slot ≤ 9
    → HasSlots box
    → chain sub.slot sub.team box ≡ cur ∷ c
    → in_slot sub.slot sub.team (join sub s cur box) ≡ some sub.player_id
unfolding join
join-in_slot sub s cur c box l h e = from (text_eq sub.player_id cur.player_id) refl
  where
    from :
        (b : Bool)
        → text_eq sub.player_id cur.player_id ≡ b
        → in_slot sub.slot sub.team (
            if b
            then box
            else put_chain sub.slot sub.team (entered_for sub s ∷ chain sub.slot sub.team box) box)
          ≡ some sub.player_id
    from true k =
        let (same, back) = text_eq_iff sub.player_id cur.player_id in
        ap current_id e ∙ ap some (sym (same k))
    from false k =
        put_chain-slots sub.slot sub.team (chain sub.slot sub.team box) box (entered_for sub s) l h
        ∙ ap some (entered_for-id sub s)

-- After the entry of a substitute his slot is his.
pub enter-in_slot :
    (sub : Appearance) (s : State) (c slot0 : List BoxPlayer) (box : Boxscore)
    → sub.slot ≤ 9
    → HasSlots box
    → chain sub.slot sub.team box ≡ c
    → in_slot sub.slot sub.team (enter sub s c slot0 box) ≡ some sub.player_id
unfolding enter entered move_pitcher
enter-in_slot sub s [] slot0 box l h e =
    put_chain-slots sub.slot sub.team [] box (entered sub s) l h
enter-in_slot sub s (cur ∷ c) [] box l h e = join-in_slot sub s cur c box l h e
enter-in_slot sub s (cur ∷ c) (p ∷ before) box l h e =
    from (not (sub.slot == 0)) (text_eq p.player_id sub.player_id) refl
  where
    moved :
        text_eq p.player_id sub.player_id ≡ true
        → in_slot sub.slot sub.team (move_pitcher sub p before box) ≡ some sub.player_id
    moved k =
        let (same, back) = text_eq_iff p.player_id sub.player_id in
        put_chain-slots sub.slot sub.team (chain sub.slot sub.team box)
          (put_chain 0 sub.team before box) p l (λ u. put_chain-rows 0 sub.team before box u ∙ h u)
        ∙ ap some (same k)

    from :
        (b d : Bool)
        → text_eq p.player_id sub.player_id ≡ d
        → in_slot sub.slot sub.team
            (if b && d then move_pitcher sub p before box else join sub s cur box)
          ≡ some sub.player_id
    from true true k = moved k
    from true false k = join-in_slot sub s cur c box l h e
    from false d k = join-in_slot sub s cur c box l h e
