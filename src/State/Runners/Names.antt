-- ===== src/State/Runners/Names.antt =====
-- The names on the bases under `_process_advance` (cw/gameiter.py).
use mlb_baseball.Prelude.{
  ℕ, ◌≡◌, refl, ap, ◌∙◌, true, ◌||◌, ◌&&◌, Text, [], leb, ◌==◌, between, if◌then◌else◌, arith,
  Bool-cases, inl, inr, ◌⊎◌,
}
use mlb_baseball.Play.Bases.{Base, Bases, batter, first, second, third, on, put_on}
use mlb_baseball.Play.Event.{Ev, EventData, runner_put_out}
use mlb_baseball.State.Record.{State}
use mlb_baseball.State.Advance.{
  place_batter, move_runner, clear_runner, hand_over, reassign_first, reassign_second,
  reassign_third, reassign_responsibility, leave, advance_third, advance_second, advance_first,
  retreat, advance_batter, process_advance,
}

abbrev pub names : State → Bases Text
names s = record {
  at_batter = s.runners.at_batter.runner;
  at_first = s.runners.at_first.runner;
  at_second = s.runners.at_second.runner;
  at_third = s.runners.at_third.runner;
}

names-move :
    (a b : Base) (s : State) → names (move_runner a b s) ≡ put_on (names s) b (on (names s) a)
unfolding move_runner
names-move batter batter s = refl
names-move batter first s = refl
names-move batter second s = refl
names-move batter third s = refl
names-move first batter s = refl
names-move first first s = refl
names-move first second s = refl
names-move first third s = refl
names-move second batter s = refl
names-move second first s = refl
names-move second second s = refl
names-move second third s = refl
names-move third batter s = refl
names-move third first s = refl
names-move third second s = refl
names-move third third s = refl

names-clear : (b : Base) (s : State) → names (clear_runner b s) ≡ put_on (names s) b []
unfolding clear_runner
names-clear batter s = refl
names-clear first s = refl
names-clear second s = refl
names-clear third s = refl

names-place :
    (t : Text) (ev : Ev) (s : State) → names (place_batter t ev s) ≡ put_on (names s) batter t
unfolding place_batter
names-place t ev s = refl

names-reassign_first : (s : State) → names (reassign_first s) ≡ names s
unfolding reassign_first hand_over
names-reassign_first s = refl

names-reassign_second : (s : State) → names (reassign_second s) ≡ names s
unfolding reassign_second hand_over
names-reassign_second s = ground arith

names-reassign_third : (s : State) → names (reassign_third s) ≡ names s
unfolding reassign_third hand_over
names-reassign_third s = ground arith

pub names-reassign : (b : Base) (s : State) → names (reassign_responsibility b s) ≡ names s
unfolding reassign_responsibility
names-reassign batter s = refl
names-reassign first s = names-reassign_first s
names-reassign second s = names-reassign_second s
names-reassign third s = names-reassign_third s

names-leave : (b : Base) (d : EventData) (s : State) → names (leave b d s) ≡ put_on (names s) b []
unfolding leave
names-leave b d s = elim (Bool-cases (on d.fc_flag b && runner_put_out d b)) [
  | inl e ↦ rw e (rw (names-clear b (reassign_responsibility b s), names-reassign b s))
  | inr e ↦ rw e (names-clear b s)
]

-- The same steps on names alone, base by base
abbrev third_part : EventData → Bases Text → Bases Text
third_part d n = record n {
  at_third = if leb 4 (on d.advance third) || runner_put_out d third then [] else n.at_third;
}

abbrev second_part : EventData → Bases Text → Bases Text
second_part d n = record n {
  at_second = if leb 3 (on d.advance second) || runner_put_out d second then [] else n.at_second;
  at_third = if on d.advance second == 3 then n.at_second else n.at_third;
}

abbrev first_part : EventData → Bases Text → Bases Text
first_part d n = record n {
  at_first = if leb 2 (on d.advance first) || runner_put_out d first then [] else n.at_first;
  at_second = if on d.advance first == 2 then n.at_first else n.at_second;
  at_third = if on d.advance first == 3 then n.at_first else n.at_third;
}

abbrev retreat_part : EventData → Bases Text → Bases Text
retreat_part d n =
    let third_back = if on d.advance third == 2 then n.at_third else n.at_second in
    record n {
      at_first =
          if on d.advance second == 1
          then third_back
          else if on d.advance third == 1
          then n.at_third
          else n.at_first;
      at_second = if on d.advance second == 1 then [] else third_back;
      at_third = if on d.advance third == 2 || (on d.advance third == 1) then [] else n.at_third;
    }

abbrev batter_part : EventData → Bases Text → Bases Text
batter_part d n = record n {
  at_first = if on d.advance batter == 1 then n.at_batter else n.at_first;
  at_second = if on d.advance batter == 2 then n.at_batter else n.at_second;
  at_third = if on d.advance batter == 3 then n.at_batter else n.at_third;
}

abbrev pub shift_names : EventData → Bases Text → Bases Text
shift_names d n = batter_part d (retreat_part d (first_part d (second_part d (third_part d n))))

names-third : (d : EventData) (s : State) → names (advance_third d s) ≡ third_part d (names s)
unfolding advance_third
names-third d s = ground (arith, names-leave third d s)

names-second : (d : EventData) (s : State) → names (advance_second d s) ≡ second_part d (names s)
unfolding advance_second
names-second d s = ground (
  arith,
  names-leave second d s,
  names-leave second d (move_runner second third s),
  names-move second third s,
)

names-first : (d : EventData) (s : State) → names (advance_first d s) ≡ first_part d (names s)
unfolding advance_first
names-first d s = ground (
  arith,
  names-leave first d s,
  names-leave first d (move_runner first second s),
  names-leave first d (move_runner first third s),
  names-move first second s,
  names-move first third s,
)

names-back :
    (a b : Base) (s : State)
    → names (clear_runner a (move_runner a b s)) ≡ put_on (put_on (names s) b (on (names s) a)) a []
names-back a b s = rw (names-clear a (move_runner a b s), names-move a b s)

names-retreat : (d : EventData) (s : State) → names (retreat d s) ≡ retreat_part d (names s)
unfolding retreat
names-retreat d s = ground (
  arith,
  names-back third second s,
  names-back third first s,
  names-back second first s,
  names-back second first (clear_runner third (move_runner third second s)),
  names-back second first (clear_runner third (move_runner third first s)),
)

to_base-cases : (k : ℕ) → between 1 3 k ≡ true → (k ≡ 1) ⊎ ((k ≡ 2) ⊎ (k ≡ 3))
to_base-cases k h = ground arith

names-batter : (d : EventData) (s : State) → names (advance_batter d s) ≡ batter_part d (names s)
unfolding advance_batter
names-batter d s = ground (
  arith,
  to_base-cases (on d.advance batter),
  names-move batter first s,
  names-move batter second s,
  names-move batter third s,
)

-- On names, `process_advance` shifts what stands on the bases, with the batter placed first.
pub names-process_advance :
    (t : Text) (d : EventData) (s : State)
    → names (process_advance t d s) ≡ shift_names d (put_on (names s) batter t)
unfolding process_advance
names-process_advance t d s =
    names-batter d _
    ∙ ap (batter_part d) (
        names-retreat d _
        ∙ ap (retreat_part d) (
            names-first d _
            ∙ ap (first_part d) (
                names-second d _
                ∙ ap (second_part d)
                    (names-third d _ ∙ ap (third_part d) (names-place t d.event_type s)))))
