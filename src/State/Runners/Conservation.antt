-- ===== src/State/Runners/Conservation.antt =====
-- `_process_advance` (cw/gameiter.py): how many runners stand on the bases before and after it.
use mlb_baseball.Prelude.{
  ℕ, ◌+◌, ◌≤◌, ◌<◌, ◌≡◌, ◌≢◌, refl, ap, true, false, ◌||◌, not, Text, [], ◌∷◌, leb, is_empty,
  between, arith,
}
use mlb_baseball.Play.Bases.{Base, Bases, batter, first, second, third, number, on, put_on, one_if}
use mlb_baseball.Play.Event.{EventData, runner_put_out, outs_on_play, runs_on_play}
use mlb_baseball.State.Record.{State, base_occupied}
use mlb_baseball.State.Advance.{process_advance}
use mlb_baseball.State.Runners.Names.{names}
use mlb_baseball.State.Runners.Simultaneous.{IsLegal, lands, arrival, process_advance-arrival}

abbrev pub full : Text → ℕ
full t = one_if (not (is_empty t))

-- The runners on the three bases
abbrev pub on_bases : State → ℕ
on_bases s =
    one_if (base_occupied s first)
    + one_if (base_occupied s second)
    + one_if (base_occupied s third)

-- Only who is there can be put out.
abbrev pub OutsArePresent : EventData → Bases Text → Type 0
OutsArePresent d n = (b : Base) → runner_put_out d b ≡ true → on n b ≢ []

full_pos : (t : Text) → t ≢ [] → full t ≡ 1
full_pos [] h = absurd (h refl)
full_pos (c ∷ t) h = refl

full-empty : (t : Text) → t ≡ [] → full t ≡ 0
full-empty t e = rw e

module _ (d : EventData) (n : Bases Text) (legal : IsLegal d n) where
  -- who goes somewhere is there
  goer_present : (b : Base) → 1 ≤ on d.advance b → full (on n b) ≡ 1
  goer_present b h =
      full_pos (on n b) (λ e. let z : on d.advance b ≡ 0 = legal.empty_stays b e in omega arith)

  -- no two runners end on one base
  apart :
      (a b : Base) (k : ℕ)
      → number a < number b
      → 1 ≤ k
      → k ≤ 3
      → on d.advance a ≡ k
      → on d.advance b ≢ k
  apart a b k lt pos le ea eb =
      let h : on d.advance a < on d.advance b =
        legal.keep_order a b lt (omega arith) (omega arith) (omega arith) in
      omega arith

  -- a base is filled by exactly those who land on it
  full-arrival :
      (to : Base)
      → 1 ≤ number to
      → full (arrival d n to)
        ≡ one_if (lands d batter to)
          + one_if (lands d first to)
          + one_if (lands d second to)
          + one_if (lands d third to)
  full-arrival to h = ground (
    arith,
    goer_present batter,
    goer_present first,
    goer_present second,
    goer_present third,
    apart batter first (number to),
    apart batter second (number to),
    apart batter third (number to),
    apart first second (number to),
    apart first third (number to),
    apart second third (number to),
  )

  nobody_left :
      (b : Base)
      → 1 ≤ number b
      → runner_put_out d b ≡ false
      → on d.advance b ≡ 0
      → full (on n b) ≡ 0
  nobody_left b h o e = full-empty (on n b) (legal.others_go b h o e)

  module _ (present : OutsArePresent d n) where
    out_present : (b : Base) → runner_put_out d b ≡ true → full (on n b) ≡ 1
    out_present b e = full_pos (on n b) (present b e)

    -- the three ways to leave a base: out, home, or to a base
    fate :
        (b : Base)
        → 1 ≤ number b
        → full (on n b)
          ≡ one_if (runner_put_out d b)
            + one_if (leb 4 (on d.advance b))
            + one_if (between 1 3 (on d.advance b))
    fate b h = ground (arith, out_present b, legal.out_stays b, goer_present b, nobody_left b h)

  landings :
      (b : Base)
      → one_if (lands d b first) + one_if (lands d b second) + one_if (lands d b third)
        ≡ one_if (between 1 3 (on d.advance b))
  landings b = ground arith

-- The batter's part of the balance: he counts once if he goes somewhere or is out.
abbrev pub batter_enters : EventData → ℕ
batter_enters d = one_if (leb 1 (on d.advance batter) || runner_put_out d batter)

batter_fate :
    (d : EventData)
    → (runner_put_out d batter ≡ true → on d.advance batter ≡ 0)
    → batter_enters d
      ≡ one_if (runner_put_out d batter)
        + one_if (leb 4 (on d.advance batter))
        + one_if (between 1 3 (on d.advance batter))
batter_fate d h = ground arith

full_bases :
    (s : State)
    → on_bases s ≡ full (names s).at_first + full (names s).at_second + full (names s).at_third
unfolding base_occupied
full_bases s = refl

-- On a legal play whose outs are of runners who are there, the runners on base after it, the outs
-- and the runs together are the runners on base before it, and the batter where he goes somewhere
-- or is put out.
pub process_advance_conserves :
    (t : Text) (d : EventData) (s : State)
    → IsLegal d (put_on (names s) batter t)
    → OutsArePresent d (put_on (names s) batter t)
    → on_bases (process_advance t d s) + outs_on_play d + runs_on_play d
      ≡ on_bases s + batter_enters d
unfolding outs_on_play runs_on_play
process_advance_conserves t d s legal present =
    let n : Bases Text = put_on (names s) batter t in
    let (e₁, e₂, e₃) = process_advance-arrival t d s legal in
    omega (
      arith,
      full_bases s,
      full_bases (process_advance t d s),
      ap full e₁,
      ap full e₂,
      ap full e₃,
      full-arrival d n legal first,
      full-arrival d n legal second,
      full-arrival d n legal third,
      landings d n legal batter,
      landings d n legal first,
      landings d n legal second,
      landings d n legal third,
      fate d n legal present first,
      fate d n legal present second,
      fate d n legal present third,
      batter_fate d (legal.out_stays batter),
    )
