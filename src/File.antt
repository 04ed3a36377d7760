-- ===== src/File.antt =====
-- cw/file.py: reading a file by lines, splitting a line into fields, and numbers. A byte is a number
-- below 256, and a text held as `latin-1` is the list of its bytes.
pub mod Lines
pub mod Reads
pub mod Spans
pub mod Numbers
pub mod Scan
pub mod Agree
pub mod Fields
mod Tests
use mlb_baseball.Prelude.{
  ℕ, zero, suc, ◌+◌, ◌-◌, ◌*◌, Bool, true, false, ◌&&◌, ◌||◌, not, Option, none, some, List, [],
  ◌∷◌, ◌++◌, length, drop, ℤ, pos, negsuc, sub_ℕ, leb_ℤ, leb, ◌==◌, between, Text, if◌then◌else◌,
}

-- `BUFSIZE`
abbrev pub bufsize : ℕ
bufsize = 1024

-- `CFile`; the position is called `pos` in the code.
pub record CFile : Type 0 where
  pub bytes : Text
  pub at : ℕ
  pub eof : Bool

-- `CFile(data)`
abbrev pub open_file : Text → CFile
open_file bytes = record { bytes = bytes; at = 0; eof = false }

-- The loop of `fgets` over the bytes that are left: what it takes, and whether it ran into the end
unfoldable pub fgets_loop : ℕ → Text → Text × Bool
fgets_loop zero t = ([], false)
fgets_loop (suc n) [] = ([], true)
fgets_loop (suc n) (c ∷ t) =
    let (taken, ended) = fgets_loop n t in if c == 10 then (c ∷ [], false) else (c ∷ taken, ended)

-- `fgets`
unfoldable pub fgets : ℕ → CFile → Option Text × CFile
unfolding fgets_loop
fgets size f =
    if leb (length f.bytes) f.at
    then (none, record f { eof = true })
    else (let (piece, ended) = fgets_loop (size - 1) (drop f.at f.bytes) in
        (some piece, record f { at = f.at + length piece; eof = f.eof || ended }))

-- `getpos` and `setpos`
abbrev pub getpos : CFile → ℕ
getpos f = f.at

unfoldable pub setpos : ℕ → CFile → CFile
setpos n f = record f { at = n; eof = false }

-- The longest beginning of a text whose characters pass a test, and the rest
unfoldable pub span : (ℕ → Bool) → Text → Text × Text
span test [] = ([], [])
span test (c ∷ t) = let (l, r) = span test t in if test c then (c ∷ l, r) else ([], c ∷ t)

-- `StrTok`: the text from `_next` on, or `none` where it is None
abbrev pub StrTok : Type 0
StrTok = Option Text

abbrev pub blank : ℕ → Bool
blank c = (c == b' ') || (c == b'\t') || (c == b'\n')

abbrev pub line_end : ℕ → Bool
line_end c = (c == b'\n') || (c == b'\r')

-- What follows a quoted field: a comma right behind the quote is skipped.
abbrev pub after_quote : Text → StrTok
after_quote [] = none
after_quote (q ∷ []) = some []
after_quote (q ∷ c ∷ t) = if c == b',' then some t else some (c ∷ t)

abbrev pub after_comma : Text → StrTok
after_comma [] = none
after_comma (c ∷ t) = some t

-- The field that a text starts with
unfoldable pub field : Text → Option Text × StrTok
unfolding span
field [] = (none, none)
field (c ∷ t) =
    let (quoted, after) = span (λ d. not ((d == b'"') || line_end d)) t in
    let (token, rest) = span (λ d. not ((d == b',') || line_end d)) (c ∷ t) in
    if c == b'"' then (some quoted, after_quote after) else (some token, after_comma rest)

-- A field, behind blanks
unfoldable pub next_field : Text → Option Text × StrTok
unfolding span field
next_field t = let (blanks, rest) = span blank t in field rest

-- A C string ends at its first NUL.
unfoldable pub c_string : Text → Text
unfolding span
c_string t = let (s, rest) = span (λ c. not (c == 0)) t in s

-- `StrTok.__call__`
unfoldable pub strtok : Option Text → StrTok → Option Text × StrTok
unfolding next_field c_string
strtok (some line) tok = next_field (c_string line)
strtok none none = (none, none)
strtok none (some t) = next_field t

abbrev pub space : ℕ → Bool
space c = (c == 32) || between 9 13 c

abbrev pub digit : ℕ → Bool
digit c = between b'0' b'9' c

-- `int(...)` of decimal digits
unfoldable pub decimal : ℕ → Text → ℕ
decimal n [] = n
decimal n (c ∷ t) = decimal (n * 10 + (c - b'0')) t

-- The sign in front of the digits, and whether it is a minus
abbrev pub sign_of : Text → Bool × Text
sign_of [] = (false, [])
sign_of (c ∷ t) = if c == b'-' then (true, t) else if c == b'+' then (false, t) else (false, c ∷ t)

abbrev pub signed : Bool → ℕ → ℤ
signed minus n = if minus then sub_ℕ 0 n else pos n

abbrev pub int_max : ℕ
int_max = 2147483647

abbrev pub in_int : ℤ → Bool
in_int n = leb_ℤ (negsuc int_max) n && leb_ℤ n (pos int_max)

abbrev pub long_max : ℕ
long_max = 9223372036854775807

abbrev pub in_long : ℤ → Bool
in_long n = leb_ℤ (negsuc long_max) n && leb_ℤ n (pos long_max)

-- The number of the digits of `cw_atoi`, -1 where there is none or it is out of range
unfoldable pub checked : Bool → Text → ℤ
unfolding decimal
checked minus [] = negsuc 0
checked minus (c ∷ t) =
    let value = signed minus (decimal 0 (c ∷ t)) in
    if in_int value && in_long value then value else negsuc 0

-- `cw_atoi`
unfoldable pub cw_atoi : Text → ℤ
unfolding span checked
cw_atoi t =
    let (blanks, rest) = span space t in
    let (minus, number) = sign_of rest in
    let (digits, after) = span digit number in checked minus digits
