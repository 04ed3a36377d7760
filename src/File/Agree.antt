-- ===== src/File/Agree.antt =====
-- `cw_atoi` and `scan_int` (cw/file.py) on the same text.
use mlb_baseball.Prelude.{
  ℕ, zero, suc, ◌-◌, ◌≡◌, refl, sym, ap, ◌∙◌, Bool, true, false, ◌&&◌, ◌||◌, ◌==◌, Option, none,
  some, [], ◌∷◌, ◌++◌, length, length-append, take, ℤ, pos, negsuc, Text, if◌then◌else◌, arith,
}
use mlb_baseball.File.{
  span, space, digit, decimal, sign_of, signed, in_int, in_long, checked, cw_atoi,
}
use mlb_baseball.File.Scan.{
  scan_space, scan_sign, scan_digit, or_else, match_star, match_plus, group_end, match_group,
  scan_match, int_text, scan_int,
}

or_else-none : {A : Type 0} (o : Option A) → or_else o none ≡ o
or_else-none none = refl
or_else-none (some a) = refl

abbrev parts : Text → Text → Text × Text
parts l r = (l, r)

-- Where nothing matches behind a character that was left out, only the longest match is one.
match_star-longest :
    {A : Type 0} (test : ℕ → Bool) (after : Text → Option A) (t : Text)
    → ((c : ℕ) (s : Text) → test c ≡ true → after (c ∷ s) ≡ none)
    → match_star test after t ≡ after ((span test t).1)
unfolding match_star span
match_star-longest test after [] h = refl
match_star-longest test after (c ∷ t) h = from (test c) (h c t) (match_star-longest test after t h)
  where
    from :
        (b : Bool)
        → (b ≡ true → after (c ∷ t) ≡ none)
        → match_star test after t ≡ after ((span test t).1)
        → (if b then or_else (match_star test after t) (after (c ∷ t)) else after (c ∷ t))
          ≡ after
              ((if b then parts (c ∷ (span test t).0) ((span test t).1) else parts [] (c ∷ t)).1)
    from true k e =
        ap (or_else (match_star test after t)) (k refl) ∙ or_else-none (match_star test after t) ∙ e
    from false k e = refl

-- Where all matches behind it, the longest match is the first.
match_star-first :
    {A : Type 0} (test : ℕ → Bool) (value : Text → A) (t : Text)
    → match_star test (λ r. some (value r)) t ≡ some (value ((span test t).1))
unfolding match_star span
match_star-first test value [] = refl
match_star-first test value (c ∷ t) = from (test c) (match_star-first test value t)
  where
    from :
        (b : Bool)
        → match_star test (λ r. some (value r)) t ≡ some (value ((span test t).1))
        → (if b
            then or_else (match_star test (λ r. some (value r)) t) (some (value (c ∷ t)))
            else some (value (c ∷ t)))
          ≡ some (
              value
                ((if b then parts (c ∷ (span test t).0) ((span test t).1) else parts [] (c ∷ t)).1))
    from true e = ap (λ o. or_else o (some (value (c ∷ t)))) e
    from false e = refl

span-append : (test : ℕ → Bool) (t : Text) → (span test t).0 ++ (span test t).1 ≡ t
unfolding span
span-append test [] = refl
span-append test (c ∷ t) = from (test c) (span-append test t)
  where
    from :
        (b : Bool)
        → (span test t).0 ++ (span test t).1 ≡ t
        → (let r =
              (if b then parts (c ∷ (span test t).0) ((span test t).1) else parts [] (c ∷ t)) in
            r.0 ++ r.1)
          ≡ c ∷ t
    from true e = ap (λ (l : Text). c ∷ l) e
    from false e = refl

take_front : (n : ℕ) (l r : Text) → n ≡ length l → take n (l ++ r) ≡ l
take_front zero [] r h = refl
take_front zero (c ∷ l) r h = absurd (omega (arith, h))
take_front (suc n) [] r h = absurd (omega (arith, h))
take_front (suc n) (c ∷ l) r h = ap (λ (t : Text). c ∷ t) (take_front n l r (omega (arith, h)))

append_assoc : (l m r : Text) → (l ++ m) ++ r ≡ l ++ (m ++ r)
append_assoc [] m r = refl
append_assoc (c ∷ l) m r = ap (λ (t : Text). c ∷ t) (append_assoc l m r)

span-same :
    (test test' : ℕ → Bool) (t : Text) → ((c : ℕ) → test c ≡ test' c) → span test t ≡ span test' t
unfolding span
span-same test test' [] h = refl
span-same test test' (c ∷ t) h = rw (h c) (rw (span-same test test' t h) refl)

same_space : (c : ℕ) → scan_space c ≡ space c
same_space c = ground arith

-- No number begins with white space.
space_no_sign : (c : ℕ) → scan_space c ≡ true → scan_sign c ≡ false
space_no_sign c h = ground (arith, h)

space_no_digit : (c : ℕ) → scan_space c ≡ true → scan_digit c ≡ false
space_no_digit c h = ground (arith, h)

sign_no_digit : (c : ℕ) → scan_sign c ≡ true → scan_digit c ≡ false
sign_no_digit c h = ground (arith, h)

no_plus :
    {A : Type 0} (after : Text → Option A) (c : ℕ) (t : Text)
    → scan_digit c ≡ false
    → match_plus scan_digit after (c ∷ t) ≡ none
unfolding match_plus
no_plus after c t h = rw h refl

space_no_group : (c : ℕ) (t : Text) → scan_space c ≡ true → match_group (c ∷ t) ≡ none
unfolding match_group
space_no_group c t h = rw (space_no_sign c h) (no_plus (group_end (c ∷ t)) c t (space_no_digit c h))

scan_match-group : (t : Text) → scan_match t ≡ match_group ((span space t).1)
unfolding scan_match
scan_match-group t =
    match_star-longest scan_space match_group t space_no_group
    ∙ ap (λ (x : Text × Text). match_group x.1) (span-same scan_space space t same_space)

-- A number of `scan_int`, where it is an `int`, and -1 for everything else
abbrev pub int_of : Option (ℤ × ℕ) → ℤ
int_of none = negsuc 0
int_of (some found) = if in_int found.0 && in_long found.0 then found.0 else negsuc 0

-- What is made of a match in a text of `n` characters
abbrev conversion : ℕ → Option (Text × Text) → Option (ℤ × ℕ)
conversion n o = elim o [ none ↦ none | some found ↦ some (int_text found.0, n - length found.1) ]

-- The digits behind a beginning that gives them their sign
digits-checked :
    (n : ℕ) (minus : Bool) (front u : Text)
    → ((c : ℕ) (ds : Text)
        → scan_digit c ≡ true
        → int_text (front ++ c ∷ ds) ≡ signed minus (decimal 0 (c ∷ ds)))
    → int_of (conversion n (match_plus scan_digit (group_end (front ++ u)) u))
      ≡ checked minus ((span digit u).0)
unfolding match_plus span checked
digits-checked n minus front [] h = refl
digits-checked n minus front (c ∷ v) h = from (scan_digit c) (h c ((span digit v).0))
  where
    start : Text
    start = front ++ c ∷ v

    ds : Text
    ds = (span digit v).0

    rest : Text
    rest = (span digit v).1

    whole : start ≡ (front ++ c ∷ ds) ++ rest
    whole =
        ap (λ (t : Text). front ++ c ∷ t) (sym (span-append digit v))
        ∙ sym (append_assoc front (c ∷ ds) rest)

    cut : take (length start - length rest) start ≡ front ++ c ∷ ds
    cut =
        ap (take (length start - length rest)) whole
        ∙ take_front (length start - length rest) (front ++ c ∷ ds) rest
            (omega (arith, ap length whole, length-append (front ++ c ∷ ds) rest))

    ranged : ℤ → ℤ
    ranged z = if in_int z && in_long z then z else negsuc 0

    from :
        (b : Bool)
        → (b ≡ true → int_text (front ++ c ∷ ds) ≡ signed minus (decimal 0 (c ∷ ds)))
        → int_of (conversion n (if b then match_star scan_digit (group_end start) v else none))
          ≡ checked minus ((if b then parts (c ∷ ds) rest else parts [] (c ∷ v)).0)
    from true k =
        ap (λ o. int_of (conversion n o))
          (match_star-first scan_digit (λ r. (take (length start - length r) start, r)) v)
        ∙ ap (λ (t : Text). ranged (int_text t)) cut
        ∙ ap ranged (k refl)
    from false k = refl

unsigned : (c : ℕ) (ds : Text) → scan_digit c ≡ true → int_text (c ∷ ds) ≡ pos (decimal 0 (c ∷ ds))
unsigned c ds h = ground (arith, h)

-- The group of a text, and the sign and digits that `cw_atoi` reads at its start
group-checked :
    (n : ℕ) (s : Text)
    → int_of (conversion n (match_group s))
      ≡ checked ((sign_of s).0) ((span digit ((sign_of s).1)).0)
unfolding match_group
group-checked n [] = unfold match_plus span checked in refl
group-checked n (x ∷ w) =
    from (x == b'-') (x == b'+')
      (λ e. no_plus (group_end (x ∷ w)) x w (sign_no_digit x (ground (arith, e))))
      (λ e. digits-checked n true (x ∷ []) w (λ c ds h. ground (arith, e)))
      (λ e e'. digits-checked n false (x ∷ []) w (λ c ds h. ground (arith, e, e')))
      (digits-checked n false [] (x ∷ w) unsigned)
  where
    plus : Text → Option (Text × Text)
    plus = match_plus scan_digit (group_end (x ∷ w))

    signs : Bool → Text → Bool × Text
    signs b t = (b, t)

    read : Bool × Text → ℤ
    read r = checked r.0 ((span digit r.1).0)

    from :
        (p q : Bool)
        → (q || p ≡ true → plus (x ∷ w) ≡ none)
        → (p ≡ true → int_of (conversion n (plus w)) ≡ read (signs true w))
        → (p ≡ false → q ≡ true → int_of (conversion n (plus w)) ≡ read (signs false w))
        → int_of (conversion n (plus (x ∷ w))) ≡ read (signs false (x ∷ w))
        → int_of (conversion n (if q || p then or_else (plus w) (plus (x ∷ w)) else plus (x ∷ w)))
          ≡ read (if p then signs true w else if q then signs false w else signs false (x ∷ w))
    from true true k f g i =
        ap (λ o. int_of (conversion n (or_else (plus w) o))) (k refl)
        ∙ ap (λ o. int_of (conversion n o)) (or_else-none (plus w))
        ∙ f refl
    from true false k f g i =
        ap (λ o. int_of (conversion n (or_else (plus w) o))) (k refl)
        ∙ ap (λ o. int_of (conversion n o)) (or_else-none (plus w))
        ∙ f refl
    from false true k f g i =
        ap (λ o. int_of (conversion n (or_else (plus w) o))) (k refl)
        ∙ ap (λ o. int_of (conversion n o)) (or_else-none (plus w))
        ∙ g refl refl
    from false false k f g i = i

-- Of every text, `cw_atoi` returns the number that the regular expression of `scan_int` matches at its
-- start if it is in the range of an `int`, and -1 if it is not or if nothing matches.
pub cw_atoi-scan_int : (t : Text) → cw_atoi t ≡ int_of (scan_int t 0)
unfolding cw_atoi scan_int
cw_atoi-scan_int t = sym (
    ap (λ o. int_of (conversion (length t) o)) (scan_match-group t)
    ∙ group-checked (length t) ((span space t).1))
