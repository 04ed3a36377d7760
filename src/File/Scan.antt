-- ===== src/File/Scan.antt =====
-- cw/file.py: `scan_int`, by the regular expression `_SCAN_INT`. A matcher is given what has to match
-- behind it, and tries the longer match first.
use mlb_baseball.Prelude.{
  ℕ, ◌-◌, ◌==◌, Bool, ◌||◌, Option, none, some, [], ◌∷◌, length, take, drop, between, ℤ, pos, sub_ℕ,
  Text, if◌then◌else◌,
}
use mlb_baseball.File.{decimal}

-- `[ \t\n\v\f\r]`, `[+-]` and `[0-9]`
abbrev pub scan_space : ℕ → Bool
scan_space c = (c == b' ') || (c == b'\t') || (c == b'\n') || (c == 11) || (c == 12) || (c == b'\r')

abbrev pub scan_sign : ℕ → Bool
scan_sign c = (c == b'+') || (c == b'-')

abbrev pub scan_digit : ℕ → Bool
scan_digit c = between b'0' b'9' c

abbrev pub or_else : {A : Type 0} → Option A → Option A → Option A
or_else none n = n
or_else (some a) n = some a

-- `[...]*`
unfoldable pub match_star : {A : Type 0} → (ℕ → Bool) → (Text → Option A) → Text → Option A
match_star test after [] = after []
match_star test after (c ∷ t) =
    let longer = match_star test after t in
    if test c then or_else longer (after (c ∷ t)) else after (c ∷ t)

-- `[...]?`
abbrev pub match_option : {A : Type 0} → (ℕ → Bool) → (Text → Option A) → Text → Option A
match_option test after [] = after []
match_option test after (c ∷ t) =
    if test c then or_else (after t) (after (c ∷ t)) else after (c ∷ t)

-- `[...]+`
unfoldable pub match_plus : {A : Type 0} → (ℕ → Bool) → (Text → Option A) → Text → Option A
unfolding match_star
match_plus test after [] = none
match_plus test after (c ∷ t) = if test c then match_star test after t else none

-- The group and what is behind it
abbrev pub group_end : Text → Text → Option (Text × Text)
group_end start rest = some (take (length start - length rest) start, rest)

unfoldable pub match_group : Text → Option (Text × Text)
unfolding match_plus
match_group start = match_option scan_sign (match_plus scan_digit (group_end start)) start

-- `_SCAN_INT.match`
unfoldable pub scan_match : Text → Option (Text × Text)
unfolding match_star match_group
scan_match t = match_star scan_space match_group t

-- `int(...)` of digits with or without a sign
abbrev pub int_text : Text → ℤ
int_text [] = pos 0
int_text (c ∷ t) =
    if c == b'-'
    then sub_ℕ 0 (decimal 0 t)
    else if c == b'+'
    then pos (decimal 0 t)
    else pos (decimal 0 (c ∷ t))

-- `scan_int`
unfoldable pub scan_int : Text → ℕ → Option (ℤ × ℕ)
unfolding scan_match decimal
scan_int t n = elim (scan_match (drop n t)) [
  | none ↦ none
  | some found ↦ some (int_text found.0, length t - length found.1)
]
