-- ===== src/File/Fields.antt =====
-- A record that is written field by field, and how it is read (cw/file.py: `StrTok`; cw/game.py:
-- `_tokens`).
use mlb_baseball.Prelude.{
  ℕ, zero, suc, ◌<◌, ◌≡◌, refl, ap, ◌∙◌, Bool, true, false, ◌&&◌, ◌||◌, not, Option, none, some,
  List, [], ◌∷◌, ◌++◌, length, map, Text, ◌==◌, is_empty, if◌then◌else◌, arith,
}
use mlb_baseball.File.{
  span, StrTok, blank, line_end, after_comma, field, next_field, c_string, strtok, space,
}
use mlb_baseball.File.Spans.{all, all-append, all-weaker, stops, split, span-all, span-whole}
use mlb_baseball.Game.Tokens.{begins_blank, tokens_loop, tokens}

abbrev pub inside : ℕ → Bool
inside c = not ((c == b',') || line_end c) && not (c == 0)

-- A field that needs no quotes
abbrev pub plain : Text → Bool
plain [] = false
plain (c ∷ t) = if space c || (c == b'"') then false else all inside (c ∷ t)

abbrev pub all_plain : List Text → Bool
all_plain [] = true
all_plain (f ∷ fs) = if plain f then all_plain fs else false

-- What is written behind a field
abbrev pub more_fields : List Text → Text
more_fields [] = b'\n' ∷ []
more_fields (f ∷ fs) = b',' ∷ f ++ more_fields fs

-- The line of a record
abbrev pub written : Text → List Text → Text
written f fs = f ++ more_fields fs

-- What `StrTok` holds when these fields are left
abbrev pub left : List Text → StrTok
left [] = some []
left (f ∷ fs) = some (written f fs)

abbrev in_field : ℕ → Bool
in_field c = not ((c == b',') || line_end c)

inside-field : (c : ℕ) → inside c ≡ true → in_field c ≡ true
inside-field c h = ground (arith, h)

more_fields-stops : (fs : List Text) → stops in_field (more_fields fs) ≡ true
more_fields-stops [] = refl
more_fields-stops (f ∷ fs) = refl

more_fields-left : (fs : List Text) → after_comma (more_fields fs) ≡ left fs
more_fields-left [] = refl
more_fields-left (f ∷ fs) = refl

abbrev pub answer : Option Text → StrTok → Option Text × StrTok
answer t tok = (t, tok)

unblank : (c : ℕ) (t : Text) → (space c || (c == b'"')) ≡ false → stops blank (c ∷ t) ≡ true
unblank c t h = ground (arith, h)

unquoted : (c : ℕ) → (space c || (c == b'"')) ≡ false → (c == b'"') ≡ false
unquoted c h = ground (arith, h)

field-plain :
    (c : ℕ) (t : Text) (fs : List Text)
    → (c == b'"') ≡ false
    → all inside (c ∷ t) ≡ true
    → field (c ∷ t ++ more_fields fs) ≡ answer (some (c ∷ t)) (left fs)
unfolding field
field-plain c t fs q h = from (c == b'"') _ q
  where
    token : Text × Text
    token = span in_field (c ∷ t ++ more_fields fs)

    parts : token ≡ split (c ∷ t) (more_fields fs)
    parts =
        span-all in_field (c ∷ t) (more_fields fs)
          (all-weaker inside in_field (c ∷ t) inside-field h) (more_fields-stops fs)

    from :
        (b : Bool) (quoted : Option Text × StrTok)
        → b ≡ false
        → (if b then quoted else answer (some token.0) (after_comma token.1))
          ≡ answer (some (c ∷ t)) (left fs)
    from true quoted e = cc
    from false quoted e =
        ap (λ (x : Text × Text). answer (some x.0) (after_comma x.1)) parts
        ∙ ap (answer (some (c ∷ t))) (more_fields-left fs)

-- Behind no blank
next_field-start : (t : Text) → stops blank t ≡ true → next_field t ≡ field t
unfolding next_field
next_field-start t h = ap (λ (x : Text × Text). field x.1) (span-all blank [] t refl h)

pub plain_case :
    (c : ℕ) (t : Text)
    → plain (c ∷ t) ≡ true
    → ((space c || (c == b'"')) ≡ false) × (all inside (c ∷ t) ≡ true)
plain_case c t h = from (space c || (c == b'"')) refl h
  where
    from :
        (b : Bool)
        → (space c || (c == b'"')) ≡ b
        → (if b then false else all inside (c ∷ t)) ≡ true
        → ((space c || (c == b'"')) ≡ false) × (all inside (c ∷ t) ≡ true)
    from true e k = cc
    from false e k = (e, k)

pub next_field-plain :
    (f : Text) (fs : List Text)
    → plain f ≡ true
    → next_field (written f fs) ≡ answer (some f) (left fs)
next_field-plain [] fs h = cc
next_field-plain (c ∷ t) fs h =
    let (starts, chars) = plain_case c t h in
    next_field-start (c ∷ t ++ more_fields fs) (unblank c (t ++ more_fields fs) starts)
    ∙ field-plain c t fs (unquoted c starts) chars

-- A field that is read does not end the loop of `_tokens`.
goes_on :
    (f : Text) (stop_blank stop_space : Bool)
    → plain f ≡ true
    → ((stop_space && begins_blank f) || (stop_blank && is_empty f)) ≡ false
goes_on [] stop_blank stop_space h = cc
goes_on (c ∷ t) stop_blank stop_space h =
    let (starts, chars) = plain_case c t h in by_case stop_space stop_blank (no_blank starts)
  where
    no_blank : (space c || (c == b'"')) ≡ false → space c ≡ false
    no_blank e = from (space c) e
      where
        from : (b : Bool) → (b || (c == b'"')) ≡ false → b ≡ false
        from true k = cc
        from false k = refl

    by_case : (a b : Bool) → space c ≡ false → ((a && space c) || (b && false)) ≡ false
    by_case true true e = rw e refl
    by_case true false e = rw e refl
    by_case false true e = refl
    by_case false false e = refl

pub all_plain-first :
    (f : Text) (fs : List Text)
    → all_plain (f ∷ fs) ≡ true
    → (plain f ≡ true) × (all_plain fs ≡ true)
all_plain-first f fs h = from (plain f) refl h
  where
    from :
        (b : Bool)
        → plain f ≡ b
        → (if b then all_plain fs else false) ≡ true
        → (plain f ≡ true) × (all_plain fs ≡ true)
    from true e k = (e, k)
    from false e k = cc

-- The fields that are left are collected, and the loop ends behind them.
tokens_loop-left :
    (n : ℕ) (fs : List Text) (stop_blank stop_space : Bool)
    → length fs < n
    → all_plain fs ≡ true
    → tokens_loop n stop_blank stop_space (left fs) ≡ (map some fs, none)
unfolding tokens_loop strtok
tokens_loop-left zero fs stop_blank stop_space l h = absurd (omega (arith, l))
tokens_loop-left (suc n) [] stop_blank stop_space l h = unfold next_field span field in refl
tokens_loop-left (suc n) (f ∷ fs) stop_blank stop_space l h =
    let (first_plain, rest_plain) = all_plain-first f fs h in
    ap step (next_field-plain f fs first_plain)
    ∙ read (goes_on f stop_blank stop_space first_plain)
        (tokens_loop-left n fs stop_blank stop_space (omega (arith, l)) rest_plain)
  where
    step : Option Text × StrTok → List (Option Text) × StrTok
    step x = elim x.0 [
      | none ↦ ([], x.1)
      | some g ↦
          if (stop_space && begins_blank g) || (stop_blank && is_empty g) then ([], x.1) else (
            some g ∷ (tokens_loop n stop_blank stop_space x.1).0,
            (tokens_loop n stop_blank stop_space x.1).1,
          )
    ]

    read :
        ((stop_space && begins_blank f) || (stop_blank && is_empty f)) ≡ false
        → tokens_loop n stop_blank stop_space (left fs) ≡ (map some fs, none)
        → step (some f, left fs) ≡ (some f ∷ map some fs, none)
    read e k = rw e (ap (λ (x : List (Option Text) × StrTok). (some f ∷ x.0, x.1)) k)

abbrev nonzero : ℕ → Bool
nonzero c = not (c == 0)

inside-nonzero : (c : ℕ) → inside c ≡ true → nonzero c ≡ true
inside-nonzero c h = ground (arith, h)

plain-nonzero : (t : Text) → plain t ≡ true → all nonzero t ≡ true
plain-nonzero [] h = refl
plain-nonzero (c ∷ t) h = all-weaker inside nonzero (c ∷ t) inside-nonzero ((plain_case c t h).1)

more_fields-nonzero : (fs : List Text) → all_plain fs ≡ true → all nonzero (more_fields fs) ≡ true
more_fields-nonzero [] h = refl
more_fields-nonzero (f ∷ fs) h =
    let (first_plain, rest_plain) = all_plain-first f fs h in
    all-append nonzero f (more_fields fs) (plain-nonzero f first_plain)
      (more_fields-nonzero fs rest_plain)

-- A line of plain fields holds no NUL.
pub c_string-written :
    (f : Text) (fs : List Text)
    → plain f ≡ true
    → all_plain fs ≡ true
    → c_string (written f fs) ≡ written f fs
unfolding c_string
c_string-written f fs h k =
    ap (λ (x : Text × Text). x.0)
      (span-whole nonzero (written f fs)
        (all-append nonzero f (more_fields fs) (plain-nonzero f h) (more_fields-nonzero fs k)))

-- Of a line of at most 256 fields with commas between and a newline behind them, none of which is
-- empty, begins with white space or a quote, or holds a comma, a NUL or an end of a line, strtok
-- reads the first field, and `_tokens` then collects the others and ends, whatever it stops at.
pub tokens-written :
    (f : Text) (fs : List Text) (tok : StrTok) (stop_blank stop_space : Bool)
    → plain f ≡ true
    → all_plain fs ≡ true
    → length fs < 256
    → ((strtok (some (written f fs)) tok).0 ≡ some f)
      × (tokens stop_blank stop_space ((strtok (some (written f fs)) tok).1) ≡ (map some fs, none))
unfolding strtok tokens
tokens-written f fs tok stop_blank stop_space h k l =
    let read = ap next_field (c_string-written f fs h k) ∙ next_field-plain f fs h in
    (
      ap (λ (x : Option Text × StrTok). x.0) read,
      ap (λ (x : Option Text × StrTok). tokens_loop 256 stop_blank stop_space x.1) read
          ∙ tokens_loop-left 256 fs stop_blank stop_space l k,
    )
