-- ===== src/State/Runners/Retreat.antt =====
-- Two runners who go back on one play (cw/gameiter.py, the end of `_process_advance`).
use mlb_baseball.Prelude.{◌≡◌, ap, ◌∙◌, false, Text, [], arith}
use mlb_baseball.Play.Bases.{Bases, batter, first, second, third, on, put_on}
use mlb_baseball.Play.Event.{EventData, runner_put_out}
use mlb_baseball.State.Record.{State}
use mlb_baseball.State.Advance.{process_advance}
use mlb_baseball.State.Runners.Names.{names, shift_names, names-process_advance}

shift-retreats :
    (d : EventData) (n : Bases Text)
    → on d.advance third ≡ 2
    → on d.advance second ≡ 1
    → on d.advance first ≡ 0
    → on d.advance batter ≡ 0
    → runner_put_out d third ≡ false
    → runner_put_out d second ≡ false
    → (((shift_names d n).at_first ≡ n.at_third) × ((shift_names d n).at_second ≡ []))
      × ((shift_names d n).at_third ≡ [])
shift-retreats d n a b c e f g = ((ground arith, ground arith), ground arith)

-- Where the runner from third goes back to second and the runner from second to first, neither of
-- them is put out, and the batter and the runner from first do not move, the runner from third
-- ends on first base, and second and third are empty.
pub process_advance_retreats :
    (t : Text) (d : EventData) (s : State)
    → on d.advance third ≡ 2
    → on d.advance second ≡ 1
    → on d.advance first ≡ 0
    → on d.advance batter ≡ 0
    → runner_put_out d third ≡ false
    → runner_put_out d second ≡ false
    → let after = names (process_advance t d s) in
      (after.at_first ≡ (names s).at_third) × (after.at_second ≡ []) × (after.at_third ≡ [])
process_advance_retreats t d s a b c e f g =
    let n = put_on (names s) batter t in
    let k = shift-retreats d n a b c e f g in
    (
      ap (λ (m : Bases Text). m.at_first) (names-process_advance t d s) ∙ k.0.0,
      ap (λ (m : Bases Text). m.at_second) (names-process_advance t d s) ∙ k.0.1,
      ap (λ (m : Bases Text). m.at_third) (names-process_advance t d s) ∙ k.1,
    )
