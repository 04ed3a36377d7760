-- ===== src/File/Spans.antt =====
-- The longest beginning of a text whose characters pass a test (cw/file.py: the loops over `at`).
use mlb_baseball.Prelude.{ℕ, ◌≡◌, refl, ap, Bool, true, false, [], ◌∷◌, ◌++◌, Text, if◌then◌else◌}
use mlb_baseball.File.{span}

abbrev pub all : (ℕ → Bool) → Text → Bool
all test [] = true
all test (c ∷ t) = if test c then all test t else false

-- The text is empty, or its first character fails the test.
abbrev pub stops : (ℕ → Bool) → Text → Bool
stops test [] = true
stops test (c ∷ t) = if test c then false else true

abbrev pub split : Text → Text → Text × Text
split l r = (l, r)

span-stops : (test : ℕ → Bool) (t : Text) → stops test t ≡ true → span test t ≡ split [] t
unfolding span
span-stops test [] h = refl
span-stops test (c ∷ t) h = from (test c) h
  where
    from :
        (b : Bool)
        → (if b then false else true) ≡ true
        → (if b then split (c ∷ (span test t).0) ((span test t).1) else split [] (c ∷ t))
          ≡ split [] (c ∷ t)
    from true k = cc
    from false k = refl

pub all-first :
    (test : ℕ → Bool) (c : ℕ) (t : Text)
    → all test (c ∷ t) ≡ true
    → (test c ≡ true) × (all test t ≡ true)
all-first test c t h = from (test c) refl h
  where
    from :
        (b : Bool)
        → test c ≡ b
        → (if b then all test t else false) ≡ true
        → (test c ≡ true) × (all test t ≡ true)
    from true e k = (e, k)
    from false e k = cc

-- A beginning that passes the test, in front of what fails it
pub span-all :
    (test : ℕ → Bool) (l r : Text)
    → all test l ≡ true
    → stops test r ≡ true
    → span test (l ++ r) ≡ split l r
unfolding span
span-all test [] r h k = span-stops test r k
span-all test (c ∷ l) r h k =
    let (first, later) = all-first test c l h in
    rw first (ap (λ (x : Text × Text). split (c ∷ x.0) x.1) (span-all test l r later k))

-- A text that passes the test throughout
pub span-whole : (test : ℕ → Bool) (l : Text) → all test l ≡ true → span test l ≡ split l []
unfolding span
span-whole test [] h = refl
span-whole test (c ∷ l) h =
    let (first, later) = all-first test c l h in
    rw first (ap (λ (x : Text × Text). split (c ∷ x.0) x.1) (span-whole test l later))

pub all-append :
    (test : ℕ → Bool) (l r : Text)
    → all test l ≡ true
    → all test r ≡ true
    → all test (l ++ r) ≡ true
all-append test [] r h k = k
all-append test (c ∷ l) r h k =
    let (first, later) = all-first test c l h in rw first (all-append test l r later k)

-- A test that holds wherever another one does
pub all-weaker :
    (test weaker : ℕ → Bool) (l : Text)
    → ((c : ℕ) → test c ≡ true → weaker c ≡ true)
    → all test l ≡ true
    → all weaker l ≡ true
all-weaker test weaker [] w h = refl
all-weaker test weaker (c ∷ l) w h =
    let (first, later) = all-first test c l h in rw (w c first) (all-weaker test weaker l w later)
