-- ===== src/Roster/Read.antt =====
-- cw/roster.py: `Roster.read` and `League.read`.
use mlb_baseball.Prelude.{
  ℕ, zero, suc, ◌+◌, Option, none, some, List, [], ◌∷◌, length, Text, if◌then◌else◌,
}
use mlb_baseball.File.{CFile, open_file, fgets, StrTok, strtok}
use mlb_baseball.Roster.{Roster, player_append, roster_append}

-- `ROSTER_BUFSIZE`
abbrev pub roster_bufsize : ℕ
roster_bufsize = 256

-- The loop of both readers, on fuel: what is done with each line changes an object and the tokenizer.
unfoldable pub lines_loop :
    {A : Type 0} → ℕ → (Text → A × StrTok → A × StrTok) → CFile → A × StrTok → Option A
lines_loop zero step f a = none
lines_loop {A = A} (suc n) step f a =
    let (buf, f') = fgets roster_bufsize f in
    let rest : Option A = elim buf [
      | none ↦ some a.0
      | some line ↦ lines_loop n step f' (step line a)
    ] in
    if f.eof then some a.0 else rest

-- `text[:1] or "\0"`
abbrev pub first_char : Text → ℕ
first_char [] = 0
first_char (c ∷ t) = c

abbrev pub add_player :
    Option Text → Option Text → Option Text → Option Text → Option Text → Roster → Roster
add_player (some id) (some last) (some first) (some bats) (some throws) r =
    player_append
      (record {
        player_id = id;
        last_name = last;
        first_name = first;
        bats = first_char bats;
        throws = first_char throws;
      })
      r
add_player id last first bats throws r = r

unfoldable pub player_line : Text → Roster × StrTok → Roster × StrTok
unfolding strtok player_append
player_line line (r, tok) =
    let (id, tok1) = strtok (some line) tok in
    let (last, tok2) = strtok none tok1 in
    let (first, tok3) = strtok none tok2 in
    let (bats, tok4) = strtok none tok3 in
    let (throws, tok5) = strtok none tok4 in (add_player id last first bats throws r, tok5)

-- `Roster.read`; a line takes a byte at least.
unfoldable pub roster_read : Text → Roster → Option Roster
unfolding lines_loop player_line
roster_read bytes r = lines_loop (length bytes + 1) player_line (open_file bytes) (r, none)

-- `Roster(team_id, league, city, nickname)`
abbrev pub new_roster : Text → Text → Text → Text → Roster
new_roster team league city nickname = record {
  team_id = team;
  league = league;
  city = city;
  nickname = nickname;
  year = 0;
  players = [];
}

abbrev pub add_team :
    Option Text → Option Text → Option Text → Option Text → List Roster → List Roster
add_team (some team) (some league) (some city) (some nickname) l =
    roster_append (new_roster team league city nickname) l
add_team team league city nickname l = l

unfoldable pub team_line : Text → List Roster × StrTok → List Roster × StrTok
unfolding strtok roster_append
team_line line (l, tok) =
    let (team, tok1) = strtok (some line) tok in
    let (league, tok2) = strtok none tok1 in
    let (city, tok3) = strtok none tok2 in
    let (nickname, tok4) = strtok none tok3 in (add_team team league city nickname l, tok4)

-- `League.read`
unfoldable pub league_read : Text → List Roster → Option (List Roster)
unfolding lines_loop team_line
league_read bytes l = lines_loop (length bytes + 1) team_line (open_file bytes) (l, none)
