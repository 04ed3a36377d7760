-- ===== src/State/Runners/Simultaneous.antt =====
-- `_process_advance` (cw/gameiter.py) moves the runners one after the other. This compares it with
-- the play on which all move at once.
use mlb_baseball.Prelude.{
  ◌≤◌, ◌<◌, ◌≡◌, ◌≢◌, ap, ◌∙◌, Bool, true, false, ◌||◌, Text, [], leb, ◌==◌, if◌then◌else◌, arith,
}
use mlb_baseball.Play.Bases.{Base, Bases, batter, first, second, third, number, on, put_on}
use mlb_baseball.Play.Event.{EventData, runner_put_out}
use mlb_baseball.State.Record.{State}
use mlb_baseball.State.Advance.{process_advance}
use mlb_baseball.State.Runners.Names.{names, shift_names, names-process_advance}

-- `b` reaches `to` or stays there.
abbrev pub lands : EventData → Base → Base → Bool
lands d b to = on d.advance b == number to

-- Who stands on a base once all have moved at once
abbrev pub arrival : EventData → Bases Text → Base → Text
arrival d n to =
    if lands d batter to
    then n.at_batter
    else if lands d first to
    then n.at_first
    else if lands d second to
    then n.at_second
    else if lands d third to
    then n.at_third
    else []

-- A legal play for the runners `n`, the batter among them: who is out goes nowhere; nobody moves
-- from an empty base, and everybody else on a base goes somewhere; runners do not pass one
-- another; and two do not go back at once.
pub record IsLegal (d : EventData) (n : Bases Text) : Type 0 where
  pub out_stays : (b : Base) → runner_put_out d b ≡ true → on d.advance b ≡ 0
  pub empty_stays : (b : Base) → on n b ≡ [] → on d.advance b ≡ 0
  pub others_go :
      (b : Base) → 1 ≤ number b → runner_put_out d b ≡ false → on d.advance b ≡ 0 → on n b ≡ []
  pub keep_order :
      (a b : Base)
      → number a < number b
      → 1 ≤ on d.advance a
      → 1 ≤ on d.advance b
      → on d.advance b ≤ 3
      → on d.advance a < on d.advance b
  pub one_retreat : on d.advance third ≡ 2 → on d.advance second ≢ 1

-- Third base before anybody goes back, and after
abbrev third_forward : EventData → Bases Text → Text
third_forward d n =
    if on d.advance first == 3
    then n.at_first
    else if on d.advance second == 3
    then n.at_second
    else if leb 4 (on d.advance third) || runner_put_out d third
    then []
    else n.at_third

abbrev second_forward : EventData → Bases Text → Text
second_forward d n =
    if on d.advance first == 2
    then n.at_first
    else if leb 3 (on d.advance second) || runner_put_out d second
    then []
    else n.at_second

module _ (d : EventData) (n : Bases Text) where
  shifted_third : on (shift_names d n) third ≡ (
      if on d.advance batter == 3
      then n.at_batter
      else if on d.advance third == 2 || (on d.advance third == 1)
      then []
      else third_forward d n)
  shifted_third = ground arith

  shifted_second : on (shift_names d n) second ≡ (
      if on d.advance batter == 2
      then n.at_batter
      else if on d.advance second == 1
      then []
      else if on d.advance third == 2
      then third_forward d n
      else second_forward d n)
  shifted_second = ground arith

  shifted_first : on (shift_names d n) first ≡ (
      if on d.advance batter == 1
      then n.at_batter
      else if on d.advance second == 1
      then (if on d.advance third == 2 then third_forward d n else second_forward d n)
      else if on d.advance third == 1
      then third_forward d n
      else if leb 2 (on d.advance first) || runner_put_out d first
      then []
      else n.at_first)
  shifted_first = ground arith

module _ (d : EventData) (n : Bases Text) (legal : IsLegal d n) where
  shift-third : on (shift_names d n) third ≡ arrival d n third
  shift-third =
      shifted_third d n
      ∙ ground (
        arith,
        legal.out_stays third,
        legal.others_go third,
        legal.keep_order first third,
        legal.keep_order second third,
      )

  shift-second : on (shift_names d n) second ≡ arrival d n second
  shift-second =
      shifted_second d n
      ∙ ground (
        arith,
        legal.out_stays second,
        legal.out_stays third,
        legal.others_go second,
        legal.keep_order first second,
        legal.keep_order first third,
        legal.keep_order second third,
      )

  shift-first : on (shift_names d n) first ≡ arrival d n first
  shift-first =
      shifted_first d n
      ∙ ground (
        arith,
        legal.out_stays first,
        legal.out_stays second,
        legal.out_stays third,
        legal.others_go first,
        legal.one_retreat,
        legal.keep_order first second,
        legal.keep_order first third,
        legal.keep_order second third,
      )

-- On a legal play (`IsLegal`: who is out goes nowhere, nobody moves from an empty base and
-- everybody else goes somewhere, runners do not pass one another, and not two go back) each of the
-- three bases holds, after the moves that the code makes one by one, the runner who ends there
-- when all move at once from where they stood, the batter included, and nobody where no runner
-- ends.
pub process_advance-arrival :
    (t : Text) (d : EventData) (s : State)
    → IsLegal d (put_on (names s) batter t)
    → let n = put_on (names s) batter t in
      let after = names (process_advance t d s) in
      (after.at_first ≡ arrival d n first)
      × (after.at_second ≡ arrival d n second)
      × (after.at_third ≡ arrival d n third)
process_advance-arrival t d s legal =
    let n = put_on (names s) batter t in
    (
      ap (λ (m : Bases Text). m.at_first) (names-process_advance t d s) ∙ shift-first d n legal,
      ap (λ (m : Bases Text). m.at_second) (names-process_advance t d s) ∙ shift-second d n legal,
      ap (λ (m : Bases Text). m.at_third) (names-process_advance t d s) ∙ shift-third d n legal,
    )
