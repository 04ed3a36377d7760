-- ===== src/Box/Find.antt =====
-- cw/box.py: the places of players and pitchers in a box score, how they are found and changed.
use mlb_baseball.Prelude.{
  ℕ, zero, suc, ◌+◌, Bool, true, false, Option, none, some, List, [], ◌∷◌, get_or, get_elem?, last?,
  drop, Text, text_eq, if◌then◌else◌,
}
use mlb_baseball.Prelude.Sides.{Team, side, put_side}
use mlb_baseball.Iter.Record.{Result, ok, fault, Fault, ◌>>=◌}
use mlb_baseball.Box.Record.{Stat, add, BoxPlayer, BoxPitcher, BoxEvent, Boxscore, add_event}

-- What a function of the module does to a box score
abbrev pub Action : Type 0
Action = Boxscore → Result Boxscore

infixr 20 ◌then◌
abbrev pub ◌then◌ : Action → Action → Action
(act then rest) box = act box >>= rest

-- An entry of a side's slot, by how many entries stand before it, and its player
pub record Place : Type 0 where
  pub team : Team
  pub slot : ℕ
  pub depth : ℕ
  pub player_id : Text

-- A pitcher of a side, by how many pitchers stand before him, and his player
pub record PitcherPlace : Type 0 where
  pub team : Team
  pub depth : ℕ
  pub player_id : Text

-- The change of one item of a list; there is none out of bounds.
abbrev pub modify : {A : Type 0} → ℕ → (A → A) → List A → List A
modify i f [] = []
modify zero f (x ∷ l) = f x ∷ l
modify (suc i) f (x ∷ l) = x ∷ modify i f l

abbrev pub player_at : Place → Boxscore → Option BoxPlayer
player_at w box = get_elem? (get_or (side box.slots w.team) w.slot []) w.depth

abbrev pub pitcher_at : PitcherPlace → Boxscore → Option BoxPitcher
pitcher_at w box = get_elem? (side box.pitchers w.team) w.depth

unfoldable pub change_player : Place → (BoxPlayer → BoxPlayer) → Boxscore → Boxscore
change_player w f box = record box {
  slots = put_side box.slots w.team (modify w.slot (modify w.depth f) (side box.slots w.team));
}

unfoldable pub change_pitcher : PitcherPlace → (BoxPitcher → BoxPitcher) → Boxscore → Boxscore
change_pitcher w f box = record box {
  pitchers = put_side box.pitchers w.team (modify w.depth f (side box.pitchers w.team));
}

-- `batting.s += n`
abbrev pub more_batting : Stat → ℕ → BoxPlayer → BoxPlayer
more_batting s n p = record p { batting = add s n p.batting }

-- `pitching.s += n`
abbrev pub more_pitching : Stat → ℕ → BoxPitcher → BoxPitcher
more_pitching s n p = record p { pitching = add s n p.pitching }

-- `batting.s += n` of the entry at a place
unfoldable pub count_batting : Stat → ℕ → Place → Action
unfolding change_player add
count_batting s n w box = ok (change_player w (more_batting s n) box)

-- `pitching.s += n` of the entry at a place
unfoldable pub count_pitching : Stat → ℕ → PitcherPlace → Action
unfolding change_pitcher add
count_pitching s n w box = ok (change_pitcher w (more_pitching s n) box)

unfoldable pub note : Stat → BoxEvent → Action
unfolding add_event
note s ev box = ok (add_event s ev box)

-- `_deref`: what is done with a player or pitcher that is there
abbrev pub deref : {A : Type 0} → Option A → (A → Action) → Action
deref none act box = fault Fault.value_error
deref (some a) act box = act a box

-- Where nothing is found, the play is logged and the function returns.
abbrev pub or_return : {A : Type 0} → Option A → (A → Action) → Action
or_return none act box = ok box
or_return (some a) act box = act a box

abbrev pub when : Bool → Action → Action
when c act box = if c then act box else ok box

-- The entries of a slot
unfoldable pub find_in_chain : Text → List BoxPlayer → Option ℕ
find_in_chain id [] = none
find_in_chain id (p ∷ l) =
    if text_eq p.player_id id
    then some 0
    else elim (find_in_chain id l) [ none ↦ none | some i ↦ some (suc i) ]

-- The slots of a side, from the slot `i` on
unfoldable pub find_in_slots : Team → ℕ → Text → List (List BoxPlayer) → Option Place
unfolding find_in_chain
find_in_slots t i id [] = none
find_in_slots t i id (c ∷ l) = elim (find_in_chain id c) [
  | some d ↦ some (record { team = t; slot = i; depth = d; player_id = id })
  | none ↦ find_in_slots t (i + 1) id l
]

-- `range(1 if batter else 0, 10)`
abbrev pub first_slot : Bool → ℕ
first_slot true = 1
first_slot false = 0

abbrev pub visitors_first : {A : Type 0} → (Team → Option A) → Option A
visitors_first f = elim (f Team.visitors) [ some a ↦ some a | none ↦ f Team.home ]

-- `find_player`
unfoldable pub find_player : Option Text → Bool → Boxscore → Option Place
unfolding find_in_slots
find_player none batter box = none
find_player (some id) batter box =
    visitors_first
      (λ t. find_in_slots t (first_slot batter) id (drop (first_slot batter) (side box.slots t)))

unfoldable pub find_current_in : Team → ℕ → Text → List (List BoxPlayer) → Option Place
find_current_in t i id [] = none
find_current_in t i id ([] ∷ l) = find_current_in t (i + 1) id l
find_current_in t i id ((p ∷ c) ∷ l) =
    if text_eq p.player_id id
    then some (record { team = t; slot = i; depth = 0; player_id = id })
    else find_current_in t (i + 1) id l

-- `find_current_player`
unfoldable pub find_current_player : Option Text → Bool → Boxscore → Option Place
unfolding find_current_in
find_current_player none batting_only box = none
find_current_player (some id) batting_only box = visitors_first (λ t.
    find_current_in t (first_slot batting_only) id
      (drop (first_slot batting_only) (side box.slots t)))

-- The walk over the `prev` links of a side's pitchers, from the depth `d` on
unfoldable pub find_in_pitchers : Team → ℕ → Text → List BoxPitcher → Option PitcherPlace
find_in_pitchers t d id [] = none
find_in_pitchers t d id (p ∷ l) =
    if text_eq p.player_id id
    then some (record { team = t; depth = d; player_id = id })
    else find_in_pitchers t (d + 1) id l

-- The pitchers of a side that a play may be charged to
abbrev pub find_on_side : Option Text → Team → Boxscore → Option PitcherPlace
find_on_side none t box = none
find_on_side (some id) t box = find_in_pitchers t 0 id (side box.pitchers t)

-- `find_pitcher`
unfoldable pub find_pitcher : Option Text → Boxscore → Option PitcherPlace
unfolding find_in_pitchers
find_pitcher id box = visitors_first (λ t. find_on_side id t box)

-- `box.pitchers[t]`
abbrev pub current_pitcher : Team → Boxscore → Option PitcherPlace
current_pitcher t box = elim (side box.pitchers t) [
  | [] ↦ none
  | p ∷ l ↦ some (record { team = t; depth = 0; player_id = p.player_id })
]

-- `get_starter`: the first entry of a slot
unfoldable pub get_starter : Team → ℕ → Boxscore → Option BoxPlayer
get_starter t slot box = last? (get_or (side box.slots t) slot [])

-- `get_starting_pitcher`
unfoldable pub get_starting_pitcher : Team → Boxscore → Option BoxPitcher
get_starting_pitcher t box = last? (side box.pitchers t)
