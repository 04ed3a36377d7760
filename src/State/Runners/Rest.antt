-- ===== src/State/Runners/Rest.antt =====
-- `_process_advance` (cw/gameiter.py) and the fields that are not the runners.
use mlb_baseball.Prelude.{◌≡◌, refl, ap, ◌∙◌, Bool, true, false, ◌==◌, Text, if◌then◌else◌}
use mlb_baseball.Play.Bases.{Base, Bases, batter, first, second, third, on}
use mlb_baseball.Play.Event.{Ev, EventData}
use mlb_baseball.State.Record.{Runner, State}
use mlb_baseball.State.Advance.{
  place_batter, move_runner, clear_runner, hand_over, reassign_first, reassign_second,
  reassign_third, reassign_responsibility, leave, advance_third, advance_second, advance_first,
  retreat, advance_batter, process_advance,
}

-- The state `s` with other runners
abbrev pub with_runners : State → Bases Runner → State
with_runners s rs = record s { runners = rs }

-- `s'` is `s` but for the runners.
pub record SameRest (s s' : State) : Type 0 where
  pub path : s' ≡ with_runners s s'.runners

unmoved : (s : State) → SameRest s s
unmoved s = record { path = refl }

trans_rest : {s t u : State} → SameRest s t → SameRest t u → SameRest s u
trans_rest {s} {t} {u} p q = record {
  path = q.path ∙ ap (λ (x : State). with_runners x u.runners) p.path;
}

if_rest : (c : Bool) {s t u : State} → SameRest s t → SameRest s u → SameRest s (if c then t else u)
if_rest true p q = p
if_rest false p q = q

move-rest : (a b : Base) (s : State) → SameRest s (move_runner a b s)
unfolding move_runner
move-rest a b s = record { path = refl }

clear-rest : (b : Base) (s : State) → SameRest s (clear_runner b s)
unfolding clear_runner
clear-rest b s = record { path = refl }

hand-rest : (a b : Base) (s : State) → SameRest s (hand_over a b s)
unfolding hand_over
hand-rest a b s = record { path = refl }

reassign_first-rest : (s : State) → SameRest s (reassign_first s)
unfolding reassign_first
reassign_first-rest s = hand-rest first batter s

reassign_second-rest : (s : State) → SameRest s (reassign_second s)
unfolding reassign_second
reassign_second-rest s =
    if_rest _ (trans_rest (reassign_first-rest s) (hand-rest second first (reassign_first s)))
      (hand-rest second batter s)

reassign_third-rest : (s : State) → SameRest s (reassign_third s)
unfolding reassign_third
reassign_third-rest s =
    if_rest _ (trans_rest (reassign_second-rest s) (hand-rest third second (reassign_second s))) (
      if_rest _ (trans_rest (reassign_first-rest s) (hand-rest third first (reassign_first s)))
        (hand-rest third batter s))

reassign-rest : (b : Base) (s : State) → SameRest s (reassign_responsibility b s)
unfolding reassign_responsibility
reassign-rest batter s = record { path = refl }
reassign-rest first s = reassign_first-rest s
reassign-rest second s = reassign_second-rest s
reassign-rest third s = reassign_third-rest s

leave-rest : (b : Base) (d : EventData) (s : State) → SameRest s (leave b d s)
unfolding leave
leave-rest b d s = trans_rest (if_rest _ (reassign-rest b s) (unmoved s)) (clear-rest b _)

third-rest : (d : EventData) (s : State) → SameRest s (advance_third d s)
unfolding advance_third
third-rest d s = if_rest _ (leave-rest third d s) (unmoved s)

second-rest : (d : EventData) (s : State) → SameRest s (advance_second d s)
unfolding advance_second
second-rest d s =
    let moved = if_rest (on d.advance second == 3) (move-rest second third s) (unmoved s) in
    if_rest _ (trans_rest moved (leave-rest second d _)) moved

first-rest : (d : EventData) (s : State) → SameRest s (advance_first d s)
unfolding advance_first
first-rest d s =
    let moved =
      if_rest (on d.advance first == 2) (move-rest first second s)
        (if_rest (on d.advance first == 3) (move-rest first third s) (unmoved s)) in
    if_rest _ (trans_rest moved (leave-rest first d _)) moved

back-rest : (a b : Base) (s : State) → SameRest s (clear_runner a (move_runner a b s))
back-rest a b s = trans_rest (move-rest a b s) (clear-rest a (move_runner a b s))

retreat-rest : (d : EventData) (s : State) → SameRest s (retreat d s)
unfolding retreat
retreat-rest d s =
    let moved =
      if_rest (on d.advance third == 2) (back-rest third second s)
        (if_rest (on d.advance third == 1) (back-rest third first s) (unmoved s)) in
    if_rest _ (trans_rest moved (back-rest second first _)) moved

batter-rest : (d : EventData) (s : State) → SameRest s (advance_batter d s)
unfolding advance_batter
batter-rest d s = if_rest _ (move-rest batter _ s) (unmoved s)

place-rest : (t : Text) (ev : Ev) (s : State) → SameRest s (place_batter t ev s)
unfolding place_batter
place-rest t ev s = record { path = refl }

-- `process_advance` changes no field of a state but the runners.
pub process_advance_rest :
    (t : Text) (d : EventData) (s : State) → SameRest s (process_advance t d s)
unfolding process_advance
process_advance_rest t d s = trans_rest (place-rest t d.event_type s) (
    trans_rest (third-rest d _) (
      trans_rest (second-rest d _)
        (trans_rest (first-rest d _) (trans_rest (retreat-rest d _) (batter-rest d _)))))
