-- ===== src/Play/Cursor.antt =====
-- cw/parse.py: `_Parser`, the text with its cursor and the token buffer.
-- `rest` is `s[pos:]`: the code reads `s` only from `pos` on, and for "/GDP" as a whole.
use mlb_baseball.Prelude.{
  ℕ, suc, ◌+◌, ◌-◌, Bool, ◌&&◌, ◌||◌, Option, none, some, List, [], ◌∷◌, ◌++◌, map, take, drop, set,
  replicate, length, get_or, ltb, ◌==◌, Text, codes, starts_with, contains, between, if◌then◌else◌,
}

abbrev pub nul : ℕ
nul = 0

pub record Parser : Type 0 where
  pub s : Text
  pub sym : ℕ
  pub rest : Text
  pub tok : List ℕ

-- `c.upper() if c < "\x80" else c`
abbrev pub upper : ℕ → ℕ
upper c = if between b'a' b'z' c then c - 32 else c

-- `s.find(t)`; `none` is -1.
unfoldable pub find : Text → Text → Option ℕ
unfolding starts_with
find [] t = if starts_with [] t then some 0 else none
find (c ∷ s) t =
    if starts_with (c ∷ s) t
    then some 0
    else elim (find s t) [ none ↦ none | some i ↦ some (i + 1) ]

-- `s[: i + 2] + "4" + s[i + 3 :]` for `i = s.find(t)`, if it is found
abbrev put_four : Option ℕ → Text → Text
put_four none s = s
put_four (some i) s = take (i + 2) s ++ b'4' ∷ drop (i + 3) s

-- SBH and CSH strings become SB4 and CS4.
unfoldable pub preprocess : Text → Text
unfolding find contains
preprocess text =
    let s = map upper text in
    let s' = put_four (find s (codes "SBH")) s in
    if contains s' (codes "FCSH") then s' else put_four (find s' (codes "CSH")) s'

-- `_Parser.__init__`
unfoldable pub start : Text → Parser
unfolding preprocess
start text =
    let s' = preprocess text in
    record { s = s'; sym = get_or s' 0 nul; rest = drop 1 s'; tok = replicate 64 0 }

-- The loop of `nextsym`: '#' and '!' are ignored, and the end of the text is a NUL.
unfoldable pub next_char : Text → ℕ × Text
next_char [] = (nul, [])
next_char (c ∷ r) = if (c == b'#') || (c == b'!') then next_char r else (c, r)

unfoldable pub advance_cursor : Parser → Parser
unfolding next_char
advance_cursor p = let (c, r) = next_char p.rest in record p { sym = c; rest = r }

-- `peek`: what follows, uncertainty marks included
unfoldable pub peek : Parser → ℕ
peek p = get_or p.rest 0 b' '

-- The `token` property: the buffer up to its first NUL
unfoldable pub until_nul : List ℕ → Text
until_nul [] = []
until_nul (c ∷ t) = if c == nul then [] else c ∷ until_nul t

unfoldable pub token_of : Parser → Text
unfolding until_nul
token_of p = until_nul p.tok

abbrev is_latin : Text → Bool
is_latin [] = Bool.true
is_latin (c ∷ t) = ltb c 256 && is_latin t

-- The `token` setter: the value and a NUL at the start of the buffer, which grows if they do not
-- fit. `none` is the UnicodeEncodeError of a character outside latin-1.
unfoldable pub write_token : Text → Parser → Option Parser
write_token t p =
    if is_latin t then some (record p { tok = t ++ nul ∷ drop (suc (length t)) p.tok }) else none

-- `put`; `none` is the IndexError of a write behind the buffer.
unfoldable pub write_char : ℕ → ℕ → Parser → Option Parser
write_char at c p =
    if ltb at (length p.tok) && ltb c 256 then some (record p { tok = set p.tok at c }) else none
