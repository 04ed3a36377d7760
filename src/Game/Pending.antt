-- ===== src/Game/Pending.antt =====
-- cw/game.py, `read_game`: what adjustment records announce for the next play.
use mlb_baseball.Prelude.{
  ℕ, Bool, true, false, ◌&&◌, not, Option, none, some, List, [], ◌∷◌, ◌==◌, between, take, eq_ℤ,
  ◌||◌, is_empty, ℤ, pos, negsuc, Text, text_eq, if◌then◌else◌,
}
use mlb_baseball.Prelude.Sides.{Team}
use mlb_baseball.Play.Bases.{Base, Bases, all_bases, on, put_on, to_base}
use mlb_baseball.File.{cw_atoi}
use mlb_baseball.Game.Records.{Event, Game}
use mlb_baseball.Game.Container.{change_last}

-- What comes of a record: a value, or a ValueError
pub data Outcome (A : Type 0) : Type 0 where
  value : A → Outcome A
  value_error : Outcome A

infixl 5 ◌>>=◌
abbrev pub ◌>>=◌ : {A B : Type 0} → Outcome A → (A → Outcome B) → Outcome B
value a >>= f = f a
value_error >>= f = value_error

-- A number as `Game` keeps it, and whether it is kept as it is: below 0 it is kept as 0.
abbrev pub kept : ℤ → ℕ
kept (pos n) = n
kept (negsuc n) = 0

abbrev pub is_kept : ℤ → Bool
is_kept (pos n) = true
is_kept (negsuc n) = false

-- A team as `Game` keeps it: all but 1 is kept as 0.
abbrev pub kept_team : ℤ → Team
kept_team n = if eq_ℤ n (pos 1) then Team.home else Team.visitors

abbrev pub is_kept_team : ℤ → Bool
is_kept_team n = eq_ℤ n (pos 0) || eq_ℤ n (pos 1)

-- The variables of `read_game` behind `tok`
pub record Pending : Type 0 where
  pub bat_hand : ℕ
  pub bat_hand_batter : Text
  pub pit_hand : ℕ
  pub pit_hand_pitcher : Text
  pub auto_runner : Text
  pub presadj : Bases Text
  pub ladj_align : ℤ
  pub ladj_slot : ℤ
  pub auto_base : ℤ

abbrev pub nothing_pending : Pending
nothing_pending = record {
  bat_hand = b' ';
  bat_hand_batter = [];
  pit_hand = b' ';
  pit_hand_pitcher = [];
  auto_runner = [];
  presadj = all_bases [];
  ladj_align = pos 0;
  ladj_slot = pos 0;
  auto_base = pos 0;
}

-- `text[:1] or "\0"`
abbrev pub hand_char : Text → ℕ
hand_char [] = 0
hand_char (c ∷ t) = c

-- `text[: BUFSIZE - 1]`
abbrev pub clipped : Text → Text
clipped = take 1023

abbrev pub note_bats : Option Text → Option Text → Pending → Pending
note_bats (some batter) (some bats) p = record p {
  bat_hand_batter = clipped batter;
  bat_hand = hand_char bats;
}
note_bats batter bats p = p

abbrev pub note_throws : Option Text → Option Text → Pending → Pending
note_throws (some pitcher) (some throws) p = record p {
  pit_hand_pitcher = clipped pitcher;
  pit_hand = hand_char throws;
}
note_throws pitcher throws p = p

unfoldable pub note_lineup : Option Text → Option Text → Pending → Pending
note_lineup (some align) (some slot) p = record p {
  ladj_align = cw_atoi align;
  ladj_slot = cw_atoi slot;
}
note_lineup align slot p = p

unfoldable pub note_runner : Option Text → Option Text → Pending → Pending
note_runner (some runner) (some base) p = record p {
  auto_runner = clipped runner;
  auto_base = cw_atoi base;
}
note_runner runner base p = p

-- `1 <= base <= 3`
abbrev pub base_of : ℤ → Option Base
base_of (pos n) = if between 1 3 n then some (to_base n) else none
base_of (negsuc n) = none

abbrev put_pitcher : Option Base → Text → Pending → Pending
put_pitcher none pitcher p = p
put_pitcher (some b) pitcher p = record p { presadj = put_on p.presadj b (clipped pitcher) }

unfoldable pub note_pitcher : Option Text → Option Text → Pending → Pending
note_pitcher (some pitcher) (some base) p = put_pitcher (base_of (cw_atoi base)) pitcher p
note_pitcher pitcher base p = p

-- A change to the last event where there is something to change, which needs an event
unfoldable pub change_event : Bool → (Event → Event) → Game → Outcome Game
change_event false f g = value g
change_event true f g = elim (change_last f g.events) [
  | none ↦ value_error
  | some l ↦ value (record g { events = l })
]

-- The hand that was announced for the batter of the play
abbrev pub announced : Option Text → Pending → Bool
announced none p = false
announced (some batter) p = not (p.bat_hand == b' ') && text_eq p.bat_hand_batter batter

abbrev set_presadj : Base → Pending → Event → Event
set_presadj b p e = record e { presadj = put_on e.presadj b (some (on p.presadj b)) }

abbrev pub pending_on : Pending → Base → Bool
pending_on p b = not (is_empty (on p.presadj b))

-- Changes to the last event, each with the test that it is made on
abbrev pub Changes : Type 0
Changes = List (Bool × (Event → Event))

unfoldable pub change_events : Changes → Game → Outcome Game
change_events [] g = value g
change_events ((b, f) ∷ more) g = do g ← change_event b f g; change_events more g

abbrev pub announcements : Option Text → Pending → Changes
announcements batter p =
    (announced batter p, λ e. record e { batter_hand = p.bat_hand })
    ∷ (
      not (p.pit_hand == b' '),
      λ e. record e { pitcher_hand = p.pit_hand; pitcher_hand_id = some p.pit_hand_pitcher },
    )
    ∷ (
      not (eq_ℤ p.ladj_slot (pos 0)),
      λ e. record e { ladj_align = kept p.ladj_align; ladj_slot = kept p.ladj_slot },
    )
    ∷ (
      not (eq_ℤ p.auto_base (pos 0)),
      λ e. record e { auto_base = kept p.auto_base; auto_runner_id = some p.auto_runner },
    )
    ∷ (pending_on p Base.first, set_presadj Base.first p)
    ∷ (pending_on p Base.second, set_presadj Base.second p)
    ∷ (pending_on p Base.third, set_presadj Base.third p)
    ∷ []

-- What is announced goes to the last event.
unfoldable pub attach : Option Text → Pending → Game → Outcome Game
unfolding change_events
attach batter p g = change_events (announcements batter p) g

-- Whether the numbers that are announced are kept as they are
abbrev pub are_kept : Pending → Bool
are_kept p =
    (eq_ℤ p.ladj_slot (pos 0) || is_kept p.ladj_slot && is_kept p.ladj_align) && is_kept p.auto_base

-- What is still announced behind a play
unfoldable pub spent : Option Text → Pending → Pending
spent batter p = record {
  bat_hand = if announced batter p then p.bat_hand else b' ';
  bat_hand_batter = if announced batter p then p.bat_hand_batter else [];
  pit_hand = b' ';
  pit_hand_pitcher = if p.pit_hand == b' ' then p.pit_hand_pitcher else [];
  auto_runner = if eq_ℤ p.auto_base (pos 0) then p.auto_runner else [];
  presadj = all_bases [];
  ladj_align = if eq_ℤ p.ladj_slot (pos 0) then p.ladj_align else pos 0;
  ladj_slot = pos 0;
  auto_base = pos 0;
}
