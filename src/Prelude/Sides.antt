-- ===== src/Prelude/Sides.antt =====
-- The lists of two that gameiter.py and game.py index by a team: 0 visits, 1 is at home.
use mathlib.Core.Path.{◌≡◌, refl}
use mathlib.Core.Bool.{Bool, true, false}

pub data Team : Type 0 where
  visitors home : Team

-- `1 - team`
abbrev pub other_team : Team → Team
other_team Team.visitors = Team.home
other_team Team.home = Team.visitors

-- `a == b`
abbrev pub same_team : Team → Team → Bool
same_team Team.visitors Team.visitors = true
same_team Team.visitors Team.home = false
same_team Team.home Team.visitors = false
same_team Team.home Team.home = true

pub record Sides {ℓ} (A : Type ℓ) : Type ℓ where
  pub away_side : A
  pub home_side : A

module _ {ℓ} {A : Type ℓ} where
  -- `[a, a]`
  abbrev pub both_sides : A → Sides A
  both_sides a = record { away_side = a; home_side = a }

  -- `xs[team]`
  abbrev pub side : Sides A → Team → A
  side xs Team.visitors = xs.away_side
  side xs Team.home = xs.home_side

  -- `xs[team] = a`
  abbrev pub put_side : Sides A → Team → A → Sides A
  put_side xs Team.visitors a = record xs { away_side = a }
  put_side xs Team.home a = record xs { home_side = a }

  pub side-put_side : (xs : Sides A) (t : Team) (a : A) → side (put_side xs t a) t ≡ a
  side-put_side xs Team.visitors a = refl
  side-put_side xs Team.home a = refl

  pub side-put_other :
      (xs : Sides A) (t : Team) (a : A)
      → side (put_side xs t a) (other_team t) ≡ side xs (other_team t)
  side-put_other xs Team.visitors a = refl
  side-put_other xs Team.home a = refl
