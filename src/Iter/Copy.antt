-- ===== src/Iter/Copy.antt =====
-- `GameIter.copy`, `State.copy` and `_copy_data` (cw/gameiter.py).
use mlb_baseball.Prelude.{◌≡◌, refl, ap, List, [], ◌∷◌}
use mlb_baseball.State.Record.{Slot, State, copy_slots, copy_state, copy_runner}
use mlb_baseball.Iter.Record.{GameIter, copy, copy_data}

copy_slots_eq : (l : List Slot) → copy_slots l ≡ l
unfolding copy_slots
copy_slots_eq [] = refl
copy_slots_eq (s ∷ l) = ap (λ (x : List Slot). s ∷ x) (copy_slots_eq l)

copy_state_eq : (s : State) → copy_state s ≡ s
unfolding copy_state copy_runner
copy_state_eq s = rw (copy_slots_eq s.lineups.away_side, copy_slots_eq s.lineups.home_side) refl

-- A copy of an iterator is equal to the iterator it was made from, in every field.
pub copy_eq : (gi : GameIter) → copy gi ≡ gi
unfolding copy copy_data
copy_eq gi = rw (copy_state_eq gi.state) refl
