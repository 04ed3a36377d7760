-- ===== src/File/Lines.antt =====
-- Reading a file to its end by `fgets` (cw/file.py).
use mlb_baseball.Prelude.{
  ℕ, zero, suc, ◌+◌, ◌-◌, not, ◌≤◌, ◌<◌, ◌≡◌, refl, ap, ◌∙◌, sym, Bool, true, false, ◌||◌, Option,
  none, some, List, [], ◌∷◌, ◌++◌, length, drop, leb, ◌==◌, Text, if◌then◌else◌, arith,
  length-append,
}
use mlb_baseball.File.Spans.{all}
use mlb_baseball.File.{CFile, open_file, fgets_loop, fgets}

-- What is read until `fgets` returns None, on fuel
unfoldable pub pieces : ℕ → ℕ → CFile → List Text
unfolding fgets
pieces zero size f = []
pieces (suc n) size f =
    let (piece, f') = fgets size f in elim piece [ none ↦ [] | some t ↦ t ∷ pieces n size f' ]

abbrev pub joined : List Text → Text
joined [] = []
joined (t ∷ l) = t ++ joined l

pub drop_sum : {A : Type 0} (m n k : ℕ) (l : List A) → k ≡ m + n → drop k l ≡ drop n (drop m l)
drop_sum zero n k l h = ap (λ (j : ℕ). drop j l) (omega (arith, h))
drop_sum (suc m) n zero l h = absurd (omega (arith, h))
drop_sum (suc m) zero (suc k) [] h = refl
drop_sum (suc m) (suc n) (suc k) [] h = refl
drop_sum (suc m) n (suc k) (x ∷ l) h = drop_sum m n k l (omega (arith, h))

drop_long : {A : Type 0} (n : ℕ) (l : List A) → length l ≤ n → drop n l ≡ []
drop_long zero [] h = refl
drop_long zero (x ∷ l) h = absurd (omega (arith, h))
drop_long (suc n) [] h = refl
drop_long (suc n) (x ∷ l) h = drop_long n l (omega (arith, h))

abbrev taken_of : Text × Bool → Text
taken_of r = r.0

abbrev pair : ℕ → Bool → ℕ × Bool
pair n b = (n, b)

abbrev result : Text → Bool → Text × Bool
result t b = (t, b)

-- What the loop takes is the beginning of what is left, not longer than asked for.
pub record IsTaken (n : ℕ) (t : Text) (taken : Text) : Type 0 where
  rest : taken ++ drop (length taken) t ≡ t
  bound : length taken ≤ n

fgets_loop-IsTaken : (n : ℕ) (t : Text) → IsTaken n t ((fgets_loop n t).0)
unfolding fgets_loop
fgets_loop-IsTaken zero t = record { rest = refl; bound = omega arith }
fgets_loop-IsTaken (suc n) [] = record { rest = refl; bound = omega arith }
fgets_loop-IsTaken (suc n) (c ∷ t) = from (c == 10) (fgets_loop-IsTaken n t)
  where
    from :
        (b : Bool)
        → IsTaken n t ((fgets_loop n t).0)
        → IsTaken
            (suc n)
            (c ∷ t)
            (taken_of (if b then (c ∷ [], false) else (c ∷ (fgets_loop n t).0, (fgets_loop n t).1)))
    from true later = record { rest = refl; bound = omega arith }
    from false later = record {
      rest = ap (λ (l : Text). c ∷ l) later.rest;
      bound = omega (arith, later.bound);
    }

-- Where a byte is left and one is asked for, one is taken.
pub fgets_loop-some : (n : ℕ) (t : Text) → 1 ≤ n → 1 ≤ length t → 1 ≤ length ((fgets_loop n t).0)
unfolding fgets_loop
fgets_loop-some zero t h k = absurd (omega (arith, h))
fgets_loop-some (suc n) [] h k = absurd (omega (arith, k))
fgets_loop-some (suc n) (c ∷ t) h k = from (c == 10)
  where
    from :
        (b : Bool)
        → 1
          ≤ length (
              taken_of
                (if b then (c ∷ [], false) else (c ∷ (fgets_loop n t).0, (fgets_loop n t).1)))
    from true = omega arith
    from false = omega arith

pub length-drop : {A : Type 0} (n : ℕ) (l : List A) → length (drop n l) ≡ length l - n
length-drop zero l = omega arith
length-drop (suc n) [] = omega arith
length-drop (suc n) (x ∷ l) = omega (arith, length-drop n l)

-- The pieces that are read from a position on
pieces-left :
    (n size : ℕ) (f : CFile)
    → 2 ≤ size
    → length f.bytes ≤ f.at + n
    → joined (pieces n size f) ≡ drop f.at f.bytes
unfolding pieces fgets
pieces-left zero size f h k = sym (drop_long f.at f.bytes (omega (arith, k)))
pieces-left (suc n) size f h k =
    from (leb (length f.bytes) f.at) (λ e. ground (arith, e)) (λ e. ground (arith, e))
      (λ f'. pieces-left n size f' h)
  where
    taken : Text
    taken = (fgets_loop (size - 1) (drop f.at f.bytes)).0

    got : IsTaken (size - 1) (drop f.at f.bytes) taken
    got = fgets_loop-IsTaken (size - 1) (drop f.at f.bytes)

    later : CFile
    later = record f {
      at = f.at + length taken;
      eof = f.eof || (fgets_loop (size - 1) (drop f.at f.bytes)).1;
    }

    from :
        (b : Bool)
        → (b ≡ true → length f.bytes ≤ f.at)
        → (b ≡ false → f.at < length f.bytes)
        → ((f' : CFile)
            → length f'.bytes ≤ f'.at + n
            → joined (pieces n size f') ≡ drop f'.at f'.bytes)
        → joined (
            let r : Option Text × CFile =
              if b then (none, record f { eof = true }) else (some taken, later) in
            elim r.0 [ none ↦ [] | some t ↦ t ∷ pieces n size r.1 ])
          ≡ drop f.at f.bytes
    from true l r g = sym (drop_long f.at f.bytes (l refl))
    from false l r g =
        let one =
          fgets_loop-some (size - 1) (drop f.at f.bytes) (omega (arith, h))
            (omega (arith, length-drop f.at f.bytes, r refl)) in
        ap (λ (x : Text). taken ++ x)
          (g later (omega (arith, k, one))
            ∙ drop_sum f.at (length taken) (f.at + length taken) f.bytes refl)
        ∙ got.rest

-- With a buffer of two bytes at least, the pieces that `fgets` reads from a file until it returns
-- None, in their order, are the bytes of the file; a read for each byte is enough.
pub joined-pieces :
    (bytes : Text) (size : ℕ)
    → 2 ≤ size
    → joined (pieces (length bytes) size (open_file bytes)) ≡ bytes
joined-pieces bytes size h = pieces-left (length bytes) size (open_file bytes) h (omega arith)

-- A text without newlines
abbrev pub no_newline : Text → Bool
no_newline = all (λ c. not (c == 10))

fgets_loop-line :
    (n : ℕ) (line rest : Text)
    → no_newline line ≡ true
    → length line < n
    → fgets_loop n (line ++ 10 ∷ rest) ≡ result (line ++ 10 ∷ []) false
unfolding fgets_loop
fgets_loop-line zero line rest h k = absurd (omega (arith, k))
fgets_loop-line (suc n) [] rest h k = refl
fgets_loop-line (suc n) (c ∷ line) rest h k =
    from (c == 10) h (λ e. fgets_loop-line n line rest e (omega (arith, k)))
  where
    from :
        (b : Bool)
        → (if not b then no_newline line else false) ≡ true
        → (no_newline line ≡ true
            → fgets_loop n (line ++ 10 ∷ rest) ≡ result (line ++ 10 ∷ []) false)
        → (if b
            then result (c ∷ []) false
            else result
                (c ∷ (fgets_loop n (line ++ 10 ∷ rest)).0)
                ((fgets_loop n (line ++ 10 ∷ rest)).1))
          ≡ result (c ∷ line ++ 10 ∷ []) false
    from true e g = cc
    from false e g = ap (λ (r : Text × Bool). (c ∷ r.0, r.1)) (g e)

-- At the start of a line that fits the buffer with its newline and a NUL, `fgets` returns the line
-- with its newline, stands behind it and leaves the end-of-file flag.
pub fgets-line :
    (size : ℕ) (f : CFile) (line rest : Text)
    → drop f.at f.bytes ≡ line ++ 10 ∷ rest
    → no_newline line ≡ true
    → length line + 2 ≤ size
    → fgets size f ≡ (some (line ++ 10 ∷ []), record f { at = f.at + length line + 1 })
unfolding fgets
fgets-line size f line rest e h k = from (leb (length f.bytes) f.at) (λ b. ground (arith, b))
  where
    left : length f.bytes - f.at ≡ length line + 1 + length rest
    left = omega (arith, length-drop f.at f.bytes, ap length e, length-append line (10 ∷ rest))

    looped : fgets_loop (size - 1) (drop f.at f.bytes) ≡ result (line ++ 10 ∷ []) false
    looped =
        ap (fgets_loop (size - 1)) e ∙ fgets_loop-line (size - 1) line rest h (omega (arith, k))

    read : Text × Bool → Option Text × CFile
    read r = (some r.0, record f { at = f.at + length r.0; eof = f.eof || r.1 })

    both : {x y : ℕ} {b c : Bool} → x ≡ y → b ≡ c → pair x b ≡ pair y c
    both p q = cc

    kept : (b : Bool) → b || false ≡ b
    kept true = refl
    kept false = refl

    from :
        (b : Bool)
        → (b ≡ true → length f.bytes ≤ f.at)
        → (if b
            then (none, record f { eof = true })
            else read (fgets_loop (size - 1) (drop f.at f.bytes)))
          ≡ (some (line ++ 10 ∷ []), record f { at = f.at + length line + 1 })
    from true l = absurd (omega (arith, l refl, left))
    from false l =
        ap read looped
        ∙ ap (λ (x : ℕ × Bool). (some (line ++ 10 ∷ []), record f { at = x.0; eof = x.1 }))
            (both (omega (arith, length-append line (10 ∷ []))) (kept f.eof))
