-- ===== src/Play/Bases.antt =====
-- The lists of four that parse.py and gameiter.py index by a base: 0 is the batter, 1 to 3 the
-- bases. The code never indexes them otherwise, so an index is one of four constructors.
use mlb_baseball.Prelude.{ℕ, zero, suc, ◌+◌, Bool, true, false}

pub data Base : Type 0 where
  batter first second third : Base

abbrev pub number : Base → ℕ
number batter = 0
number first = 1
number second = 2
number third = 3

-- The base of a number that the code has tested to be 3 or less.
abbrev pub to_base : ℕ → Base
to_base zero = batter
to_base (suc zero) = first
to_base (suc (suc zero)) = second
to_base (suc (suc (suc n))) = third

pub record Bases {ℓ} (A : Type ℓ) : Type ℓ where
  pub at_batter : A
  pub at_first : A
  pub at_second : A
  pub at_third : A

module _ {ℓ} {A : Type ℓ} where
  -- `[a] * 4`
  abbrev pub all_bases : A → Bases A
  all_bases a = record { at_batter = a; at_first = a; at_second = a; at_third = a }

  -- `bs[b]`
  abbrev pub on : Bases A → Base → A
  on bs batter = bs.at_batter
  on bs first = bs.at_first
  on bs second = bs.at_second
  on bs third = bs.at_third

  -- `bs[b] = a`
  abbrev pub put_on : Bases A → Base → A → Bases A
  put_on bs batter a = record bs { at_batter = a }
  put_on bs first a = record bs { at_first = a }
  put_on bs second a = record bs { at_second = a }
  put_on bs third a = record bs { at_third = a }

-- `sum(test(b) for b in range(4))`
abbrev pub one_if : Bool → ℕ
one_if true = 1
one_if false = 0

abbrev pub count_bases : (Base → Bool) → ℕ
count_bases test =
    one_if (test batter) + one_if (test first) + one_if (test second) + one_if (test third)
