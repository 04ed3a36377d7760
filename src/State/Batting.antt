-- ===== src/State/Batting.antt =====
-- The batting order under the operations on a state.
use Prim.Native.Nat.{◌%◌}
use mlb_baseball.Prelude.{
  ℕ, ◌+◌, ap, ◌∙◌, ◌≤◌, ◌≡◌, Text, if◌then◌else◌, Bool-cases, inl, inr, arith,
}
use mlb_baseball.Prelude.Sides.{Team, Sides, side, put_side}
use mlb_baseball.Play.Event.{EventData, is_batter}
use mlb_baseball.State.Record.{State}
use mlb_baseball.State.Advance.{check_go_ahead_rbi}
use mlb_baseball.State.Update.{count_play, end_play, update, following}
use mlb_baseball.State.Balance.{update_eq}

-- The next batter of either side is one of the nine.
pub record InOrder (nb : Sides ℕ) : Type 0 where
  pub away_low : 1 ≤ nb.away_side
  pub away_high : nb.away_side ≤ 9
  pub home_low : 1 ≤ nb.home_side
  pub home_high : nb.home_side ≤ 9

-- The order behind a batter: the next slot, and the first behind the ninth
pub following_range : (n : ℕ) → 1 ≤ n → n ≤ 9 → (1 ≤ following n) × (following n ≤ 9)
following_range n h k = ground arith

advance_order :
    (nb : Sides ℕ) (t : Team) → InOrder nb → InOrder (put_side nb t (following (side nb t)))
advance_order nb Team.visitors h = ground (arith, following_range nb.away_side)
advance_order nb Team.home h = ground (arith, following_range nb.home_side)

next_batter-following :
    (t : Text) (d : EventData) (s : State)
    → (update t d s).next_batter ≡ (
        if is_batter d
        then put_side s.next_batter s.batting_team (following (side s.next_batter s.batting_team))
        else s.next_batter)
next_batter-following t d s = rw (update_eq d t s) (
    unfold end_play count_play check_go_ahead_rbi in
    elim (Bool-cases (is_batter d)) [ inl e ↦ rw e | inr e ↦ rw e ])

-- In the nine slots the one behind `n` is that of the remainder by 9.
following_slot : (n : ℕ) → 1 ≤ n → n ≤ 9 → following n ≡ n % 9 + 1
following_slot n h k = ground arith

side_slot : (nb : Sides ℕ) (t : Team) → InOrder nb → following (side nb t) ≡ side nb t % 9 + 1
side_slot nb Team.visitors h = following_slot nb.away_side h.away_low h.away_high
side_slot nb Team.home h = following_slot nb.home_side h.home_low h.home_high

-- Where the next batter of both sides is in one of the slots 1 to 9: if the play is a batter's,
-- `update` moves the batting side's next batter on to the slot behind his, which is the first behind
-- the ninth and else the next one, and keeps the other side's; if not, it keeps both.
pub next_batter-update :
    (t : Text) (d : EventData) (s : State)
    → InOrder s.next_batter
    → (update t d s).next_batter ≡ (
        if is_batter d
        then put_side s.next_batter s.batting_team (side s.next_batter s.batting_team % 9 + 1)
        else s.next_batter)
next_batter-update t d s h =
    next_batter-following t d s
    ∙ ap (λ (n : ℕ). if is_batter d then put_side s.next_batter s.batting_team n else s.next_batter)
        (side_slot s.next_batter s.batting_team h)

-- Where the next batter of both sides is in one of the slots 1 to 9, he is so after `update`.
pub update-InOrder :
    (t : Text) (d : EventData) (s : State)
    → InOrder s.next_batter
    → InOrder (update t d s).next_batter
update-InOrder t d s h = rw (next_batter-following t d s) (elim (Bool-cases (is_batter d)) [
  | inl e ↦ rw e (advance_order s.next_batter s.batting_team h)
  | inr e ↦ rw e h
])
