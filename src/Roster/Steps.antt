-- ===== src/Roster/Steps.antt =====
-- A file of whole lines, and what the loop over its lines makes of them (cw/roster.py).
use mlb_baseball.Prelude.{
  ℕ, zero, suc, ◌+◌, ◌≤◌, ◌<◌, ◌≡◌, refl, ap, ◌∙◌, Bool, true, false, some, List, [], ◌∷◌, ◌++◌,
  length, drop, not, ◌==◌, Text, if◌then◌else◌, arith, length-append,
}
use mlb_baseball.File.{CFile, open_file, fgets, StrTok}
use mlb_baseball.File.Lines.{length-drop, fgets-line, drop_sum, no_newline}
use mlb_baseball.File.Spans.{all-append, all-weaker}
use mlb_baseball.File.Fields.{
  inside, plain, plain_case, all_plain, all_plain-first, more_fields, written,
}
use mlb_baseball.Roster.Read.{roster_bufsize, lines_loop}
use mlb_baseball.File.Reads.{fgets-none}
use mlb_baseball.Roster.Rounds.{round}

-- A text of whole lines
abbrev pub text_of : List Text → Text
text_of [] = []
text_of (l ∷ ls) = l ++ 10 ∷ text_of ls

abbrev pub steps :
    {A : Type 0} → (Text → A × StrTok → A × StrTok) → List Text → A × StrTok → A × StrTok
steps step [] a = a
steps step (l ∷ ls) a = steps step ls (step (l ++ 10 ∷ []) a)

-- A line that fits the buffer
pub record IsShort (l : Text) : Type 0 where
  pub unbroken : no_newline l ≡ true
  pub bound : length l + 2 ≤ roster_bufsize

pub data AllShort : List Text → Type 0 where
  nothing : AllShort []
  line : (l : Text) (ls : List Text) → IsShort l → AllShort ls → AllShort (l ∷ ls)

drop-line : (k : ℕ) (l rest : Text) → k ≡ length l + 1 → drop k (l ++ 10 ∷ rest) ≡ rest
drop-line zero l rest h = absurd (omega (arith, h))
drop-line (suc k) [] rest h =
    let all_left : k ≡ 0 = omega (arith, h) in ap (λ (j : ℕ). drop j rest) all_left
drop-line (suc k) (c ∷ l) rest h = drop-line k l rest (omega (arith, h))

not_ended : {B : Type 0} (e : Bool) (x y : B) → e ≡ false → (if e then x else y) ≡ y
not_ended true x y h = cc
not_ended false x y h = refl

lines_loop-steps :
    {A : Type 0}
    → (n : ℕ) (step : Text → A × StrTok → A × StrTok) (f : CFile) (ls : List Text) (a : A × StrTok)
    → AllShort ls
    → drop f.at f.bytes ≡ text_of ls
    → f.eof ≡ false
    → length ls < n
    → lines_loop n step f a ≡ some ((steps step ls a).0)
unfolding lines_loop
lines_loop-steps zero step f ls a s d e h = absurd (omega (arith, h))
lines_loop-steps (suc n) step f [] a s d e h =
    not_ended f.eof (some a.0) (round n step a (fgets roster_bufsize f)) e
    ∙ ap (round n step a)
        (fgets-none roster_bufsize f (omega (arith, length-drop f.at f.bytes, ap length d)))
lines_loop-steps (suc n) step f (l ∷ ls) a (line _ _ s ss) d e h =
    not_ended f.eof (some a.0) (round n step a (fgets roster_bufsize f)) e
    ∙ ap (round n step a) (fgets-line roster_bufsize f l (text_of ls) d s.unbroken s.bound)
    ∙ lines_loop-steps n step (record f { at = f.at + length l + 1 }) ls (step (l ++ 10 ∷ []) a) ss
        (drop_sum f.at (length l + 1) (f.at + length l + 1) f.bytes (omega arith)
          ∙ ap (drop (length l + 1)) d
          ∙ drop-line (length l + 1) l (text_of ls) refl)
        e (omega (arith, h))

length-text_of : (ls : List Text) → length ls ≤ length (text_of ls)
length-text_of [] = omega arith
length-text_of (l ∷ ls) = omega (arith, length-text_of ls, length-append l (10 ∷ text_of ls))

pub lines_loop-text_of :
    {A : Type 0}
    → (step : Text → A × StrTok → A × StrTok) (ls : List Text) (a : A × StrTok) → AllShort ls
    → lines_loop (length (text_of ls) + 1) step (open_file (text_of ls)) a
      ≡ some ((steps step ls a).0)
lines_loop-text_of step ls a s =
    lines_loop-steps (length (text_of ls) + 1) step (open_file (text_of ls)) ls a s refl refl
      (omega (arith, length-text_of ls))

-- A record: its first field and the others, and its line without the newline
abbrev pub Fields : Type 0
Fields = Text × List Text

abbrev pub more_body : List Text → Text
more_body [] = []
more_body (f ∷ fs) = b',' ∷ f ++ more_body fs

abbrev pub body : Fields → Text
body (f, fs) = f ++ more_body fs

append_assoc : (l m r : Text) → (l ++ m) ++ r ≡ l ++ (m ++ r)
append_assoc [] m r = refl
append_assoc (c ∷ l) m r = ap (λ (t : Text). c ∷ t) (append_assoc l m r)

more_body-fields : (fs : List Text) → more_body fs ++ 10 ∷ [] ≡ more_fields fs
more_body-fields [] = refl
more_body-fields (f ∷ fs) =
    ap (λ (t : Text). b',' ∷ t)
      (append_assoc f (more_body fs) (10 ∷ []) ∙ ap (λ (t : Text). f ++ t) (more_body-fields fs))

pub body-written : (r : Fields) → body r ++ 10 ∷ [] ≡ written r.0 r.1
body-written (f, fs) =
    append_assoc f (more_body fs) (10 ∷ []) ∙ ap (λ (t : Text). f ++ t) (more_body-fields fs)

-- A record of plain fields that fits the buffer
pub record IsGood (r : Fields) : Type 0 where
  pub first_plain : plain r.0 ≡ true
  pub rest_plain : all_plain r.1 ≡ true
  pub fits : length (body r) + 2 ≤ roster_bufsize

plain-no_newline : (t : Text) → plain t ≡ true → no_newline t ≡ true
plain-no_newline [] h = refl
plain-no_newline (c ∷ t) h =
    all-weaker inside (λ d. not (d == 10)) (c ∷ t) (λ d k. ground (arith, k)) ((plain_case c t h).1)

more_body-no_newline : (fs : List Text) → all_plain fs ≡ true → no_newline (more_body fs) ≡ true
more_body-no_newline [] h = refl
more_body-no_newline (f ∷ fs) h =
    let (first_plain, rest_plain) = all_plain-first f fs h in
    all-append (λ d. not (d == 10)) f (more_body fs) (plain-no_newline f first_plain)
      (more_body-no_newline fs rest_plain)

pub body-IsShort : (r : Fields) → IsGood r → IsShort (body r)
body-IsShort (f, fs) g = record {
  unbroken =
      all-append (λ d. not (d == 10)) f (more_body fs) (plain-no_newline f g.first_plain)
        (more_body-no_newline fs g.rest_plain);
  bound = g.fits;
}
