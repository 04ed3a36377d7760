-- ===== src/File/Reads.antt =====
-- The outcome of one `fgets` (cw/file.py): a piece where a byte is left, and None at the end.
use mlb_baseball.Prelude.{
  ℕ, ◌+◌, ◌-◌, ◌≤◌, ◌<◌, ◌≡◌, refl, Bool, true, false, ◌||◌, Option, none, some, length, drop, leb,
  Text, if◌then◌else◌, arith,
}
use mlb_baseball.File.{CFile, fgets_loop, fgets}
use mlb_baseball.File.Lines.{fgets_loop-some, length-drop}

-- What `fgets` takes where something is left
abbrev pub piece : ℕ → CFile → Text
piece size f = (fgets_loop (size - 1) (drop f.at f.bytes)).0

abbrev pub later : ℕ → CFile → CFile
later size f = record f {
  at = f.at + length (piece size f);
  eof = f.eof || (fgets_loop (size - 1) (drop f.at f.bytes)).1;
}

abbrev pub outcome : Option Text → CFile → Option Text × CFile
outcome t f = (t, f)

abbrev at_end : CFile → Bool
at_end f = leb (length f.bytes) f.at

pub fgets-some :
    (size : ℕ) (f : CFile)
    → f.at < length f.bytes
    → fgets size f ≡ outcome (some (piece size f)) (later size f)
unfolding fgets
fgets-some size f h = from (at_end f) (λ e. ground (arith, e))
  where
    from :
        (b : Bool)
        → (b ≡ true → length f.bytes ≤ f.at)
        → (if b
            then outcome none (record f { eof = true })
            else outcome (some (piece size f)) (later size f))
          ≡ outcome (some (piece size f)) (later size f)
    from true l = absurd (omega (arith, l refl, h))
    from false l = refl

pub fgets-none :
    (size : ℕ) (f : CFile)
    → length f.bytes ≤ f.at
    → fgets size f ≡ outcome none (record f { eof = true })
unfolding fgets
fgets-none size f h = from (at_end f) (λ e. ground (arith, e))
  where
    from :
        (b : Bool)
        → (b ≡ false → f.at < length f.bytes)
        → (if b
            then outcome none (record f { eof = true })
            else outcome (some (piece size f)) (later size f))
          ≡ outcome none (record f { eof = true })
    from true l = refl
    from false l = absurd (omega (arith, l refl, h))

pub length-piece :
    (size : ℕ) (f : CFile) → 2 ≤ size → f.at < length f.bytes → 1 ≤ length (piece size f)
length-piece size f s h =
    fgets_loop-some (size - 1) (drop f.at f.bytes) (omega (arith, s))
      (omega (arith, length-drop f.at f.bytes, h))

-- One `fgets` by cases: the end of the file, or a piece of a byte at least
pub data Read (size : ℕ) (f : CFile) : Option Text × CFile → Type 0 where
  at_the_end : Read size f (outcome none (record f { eof = true }))
  a_piece :
      f.at < length f.bytes
      → 1 ≤ length (piece size f)
      → Read size f (outcome (some (piece size f)) (later size f))

pub fgets-Read : (size : ℕ) (f : CFile) → 2 ≤ size → Read size f (fgets size f)
fgets-Read size f s = from (at_end f) (λ e. ground (arith, e)) (λ e. ground (arith, e))
  where
    from :
        (b : Bool)
        → (b ≡ true → length f.bytes ≤ f.at)
        → (b ≡ false → f.at < length f.bytes)
        → Read size f (fgets size f)
    from true l r = rw (fgets-none size f (l refl)) at_the_end
    from false l r =
        rw (fgets-some size f (r refl)) (a_piece (r refl) (length-piece size f s (r refl)))
