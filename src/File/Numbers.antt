-- ===== src/File/Numbers.antt =====
-- What `cw_atoi` returns (cw/file.py).
use mlb_baseball.Prelude.{
  ℕ, ◌≤◌, ◌≡◌, refl, ap, ◌∙◌, Bool, true, false, ◌&&◌, [], ◌∷◌, ◌++◌, ℤ, pos, negsuc, sub_ℕ, ◌≤ℤ◌,
  Text, if◌then◌else◌, arith,
}
use mlb_baseball.File.{
  span, space, digit, decimal, sign_of, signed, int_max, in_int, in_long, checked, cw_atoi,
}
use mlb_baseball.File.Spans.{all, all-first, stops, span-all}

-- The range of a C `int`
pub record IsInt (n : ℤ) : Type 0 where
  pub low : negsuc int_max ≤ℤ n
  pub high : n ≤ℤ pos int_max

checked-IsInt : (minus : Bool) (t : Text) → IsInt (checked minus t)
unfolding checked
checked-IsInt minus [] = record { low = omega arith; high = omega arith }
checked-IsInt minus (c ∷ t) =
    from (in_int value && in_long value) (λ e. ground (arith, e)) (λ e. ground (arith, e))
  where
    value : ℤ
    value = signed minus (decimal 0 (c ∷ t))

    from :
        (b : Bool)
        → (b ≡ true → negsuc int_max ≤ℤ value)
        → (b ≡ true → value ≤ℤ pos int_max)
        → IsInt (if b then value else negsuc 0)
    from true l h = record { low = l refl; high = h refl }
    from false l h = record { low = omega arith; high = omega arith }

-- Of every text, `cw_atoi` returns a number in the range of a C `int`.
pub cw_atoi-IsInt : (t : Text) → IsInt (cw_atoi t)
unfolding cw_atoi
cw_atoi-IsInt t =
    let rest = (span space t).1 in
    let signs = sign_of rest in checked-IsInt signs.0 ((span digit signs.1).0)

checked-small :
    (minus : Bool) (c : ℕ) (t : Text)
    → decimal 0 (c ∷ t) ≤ int_max
    → checked minus (c ∷ t) ≡ signed minus (decimal 0 (c ∷ t))
unfolding checked
checked-small true c t h = small (decimal 0 (c ∷ t)) h
  where
    small :
        (n : ℕ)
        → n ≤ int_max
        → (if in_int (sub_ℕ 0 n) && in_long (sub_ℕ 0 n) then sub_ℕ 0 n else negsuc 0) ≡ sub_ℕ 0 n
    small n k = ground (arith, k)
checked-small false c t h = small (decimal 0 (c ∷ t)) h
  where
    small :
        (n : ℕ)
        → n ≤ int_max
        → (if in_int (pos n) && in_long (pos n) then pos n else negsuc 0) ≡ pos n
    small n k = ground (arith, k)

-- The sign that a number is written with
abbrev pub written_sign : Bool → Text
written_sign true = b'-' ∷ []
written_sign false = []

no_sign : (c : ℕ) (t : Text) → digit c ≡ true → sign_of (c ∷ t) ≡ (false, c ∷ t)
no_sign c t h = ground (arith, h)

no_space : (c : ℕ) (t : Text) → digit c ≡ true → stops space (c ∷ t) ≡ true
no_space c t h = ground (arith, h)

-- A number that is written in decimal with or without a minus, behind blanks and in front of a
-- character that is no digit, is read as its value where its digits are no more than the greatest
-- `int`.
pub cw_atoi-decimal :
    (blanks : Text) (minus : Bool) (c : ℕ) (t rest : Text)
    → all space blanks ≡ true
    → all digit (c ∷ t) ≡ true
    → stops digit rest ≡ true
    → decimal 0 (c ∷ t) ≤ int_max
    → cw_atoi (blanks ++ (written_sign minus ++ c ∷ t ++ rest)) ≡ signed minus (decimal 0 (c ∷ t))
unfolding cw_atoi
cw_atoi-decimal blanks minus c t rest b h k l =
    ap read_from (span-all space blanks (written_sign minus ++ c ∷ t ++ rest) b (starts minus))
    ∙ ap read_signed (signs minus)
    ∙ ap (λ (x : Text × Text). checked minus x.0) (span-all digit (c ∷ t) rest h k)
    ∙ checked-small minus c t l
  where
    read_signed : Bool × Text → ℤ
    read_signed x = checked x.0 ((span digit x.1).0)

    read_from : Text × Text → ℤ
    read_from x = read_signed (sign_of x.1)

    starts : (m : Bool) → stops space (written_sign m ++ c ∷ t ++ rest) ≡ true
    starts true = refl
    starts false = no_space c (t ++ rest) ((all-first digit c t h).0)

    signs : (m : Bool) → sign_of (written_sign m ++ c ∷ t ++ rest) ≡ (m, c ∷ t ++ rest)
    signs true = refl
    signs false = no_sign c (t ++ rest) ((all-first digit c t h).0)
