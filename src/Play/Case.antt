-- ===== src/Play/Case.antt =====
-- `_Parser.__init__` (cw/parse.py) and the case of the letters of a play text.
use mlb_baseball.Prelude.{
  ℕ, ◌+◌, ◌≡◌, refl, Bool, true, false, ◌&&◌, ◌||◌, [], ◌∷◌, ◌==◌, between, map, Text,
  if◌then◌else◌, arith, ap,
}
use mlb_baseball.Play.Cursor.{upper, preprocess, start}
use mlb_baseball.Play.Parse.{parse_event}

-- One character is the capital of the other in ASCII.
abbrev pub capital_of : ℕ → ℕ → Bool
capital_of c d = between b'A' b'Z' c && (d == c + 32)

-- The characters are equal, or one is the capital of the other.
abbrev pub same_letter : ℕ → ℕ → Bool
same_letter c d = (c == d) || capital_of c d || capital_of d c

-- Texts of one length whose characters differ in their case at most
abbrev pub same_letters : Text → Text → Bool
same_letters [] [] = true
same_letters [] (d ∷ t) = false
same_letters (c ∷ s) [] = false
same_letters (c ∷ s) (d ∷ t) = if same_letter c d then same_letters s t else false

upper-same_letter : (c d : ℕ) → same_letter c d ≡ true → upper c ≡ upper d
upper-same_letter c d h = ground (arith, h)

upper-same_letters : (s t : Text) → same_letters s t ≡ true → map upper s ≡ map upper t
upper-same_letters [] [] h = refl
upper-same_letters [] (d ∷ t) h = cc
upper-same_letters (c ∷ s) [] h = cc
upper-same_letters (c ∷ s) (d ∷ t) h =
    from (same_letter c d) h (upper-same_letter c d) (upper-same_letters s t)
  where
    from :
        (b : Bool)
        → (if b then same_letters s t else false) ≡ true
        → (b ≡ true → upper c ≡ upper d)
        → (same_letters s t ≡ true → map upper s ≡ map upper t)
        → map upper (c ∷ s) ≡ map upper (d ∷ t)
    from true k f g = rw (f refl) (ap (λ (l : Text). upper d ∷ l) (g k))
    from false k f g = cc

preprocess-upper : (s t : Text) → map upper s ≡ map upper t → preprocess s ≡ preprocess t
unfolding preprocess
preprocess-upper s t h = rw h refl

-- Texts of one length whose characters are equal or one the capital ASCII letter of the other parse
-- to the same data with the same verdict, or to the same exception.
pub parse_event-upper : (s t : Text) → same_letters s t ≡ true → parse_event s ≡ parse_event t
unfolding parse_event start
parse_event-upper s t h = rw (preprocess-upper s t (upper-same_letters s t h)) refl
