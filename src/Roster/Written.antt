-- ===== src/Roster/Written.antt =====
-- A roster and a team file that are written record by record (cw/roster.py).
use mlb_baseball.Prelude.{◌≡◌, refl, ap, ◌∙◌, sym, true, none, some, List, [], ◌∷◌, ◌++◌, map, Text}
use mlb_baseball.File.{StrTok, next_field, strtok}
use mlb_baseball.File.Fields.{
  plain, all_plain, all_plain-first, written, left, answer, c_string-written, next_field-plain,
}
use mlb_baseball.Roster.{Player, Roster, player_append, roster_append}
use mlb_baseball.Roster.Read.{player_line, roster_read, new_roster, team_line, league_read}
use mlb_baseball.Roster.Steps.{
  text_of, steps, AllShort, lines_loop-text_of, nothing, line, Fields, body, body-written, IsGood,
  body-IsShort,
}

-- The first field of a line, and a field behind it
strtok-first :
    (f : Text) (fs : List Text) (tok : StrTok)
    → plain f ≡ true
    → all_plain fs ≡ true
    → strtok (some (written f fs)) tok ≡ answer (some f) (left fs)
unfolding strtok
strtok-first f fs tok h k = ap next_field (c_string-written f fs h k) ∙ next_field-plain f fs h

strtok-next :
    (f : Text) (fs : List Text)
    → plain f ≡ true
    → strtok none (left (f ∷ fs)) ≡ answer (some f) (left fs)
unfolding strtok
strtok-next f fs h = next_field-plain f fs h

-- The fields of a player's record
abbrev pub player_fields : Player → Fields
player_fields p = (p.player_id, p.last_name ∷ p.first_name ∷ (p.bats ∷ []) ∷ (p.throws ∷ []) ∷ [])

player_line-written :
    (p : Player) (r : Roster) (tok : StrTok)
    → IsGood (player_fields p)
    → player_line (body (player_fields p) ++ 10 ∷ []) (r, tok) ≡ (player_append p r, left [])
unfolding player_line
player_line-written p r tok g =
    let (last, more1) =
      all_plain-first p.last_name (p.first_name ∷ (p.bats ∷ []) ∷ (p.throws ∷ []) ∷ [])
        g.rest_plain in
    let (first, more2) =
      all_plain-first p.first_name ((p.bats ∷ []) ∷ (p.throws ∷ []) ∷ []) more1 in
    let (bats, more3) = all_plain-first (p.bats ∷ []) ((p.throws ∷ []) ∷ []) more2 in
    let (throws, more4) = all_plain-first (p.throws ∷ []) [] more3 in
    ap (λ (t : Text). player_line t (r, tok)) (body-written (player_fields p))
    ∙ rw
        (
          strtok-first p.player_id ((player_fields p).1) tok g.first_plain g.rest_plain,
          strtok-next p.last_name (p.first_name ∷ (p.bats ∷ []) ∷ (p.throws ∷ []) ∷ []) last,
          strtok-next p.first_name ((p.bats ∷ []) ∷ (p.throws ∷ []) ∷ []) first,
          strtok-next (p.bats ∷ []) ((p.throws ∷ []) ∷ []) bats,
          strtok-next (p.throws ∷ []) [] throws,
        )
        refl

-- The records of a file
pub data AllGood : List Fields → Type 0 where
  all_done : AllGood []
  one_more : (r : Fields) (rs : List Fields) → IsGood r → AllGood rs → AllGood (r ∷ rs)

abbrev pub file_of : List Fields → Text
file_of rs = text_of (map body rs)

AllGood-short : (rs : List Fields) → AllGood rs → AllShort (map body rs)
AllGood-short [] all_done = nothing
AllGood-short (r ∷ rs) (one_more _ _ g gs) =
    line (body r) (map body rs) (body-IsShort r g) (AllGood-short rs gs)

append_cons : {A : Type 0} (l m : List A) (x : A) → (l ++ x ∷ []) ++ m ≡ l ++ x ∷ m
append_cons [] m x = refl
append_cons (y ∷ l) m x = ap (λ (t : List _). y ∷ t) (append_cons l m x)

append_none : {A : Type 0} (l : List A) → l ++ [] ≡ l
append_none [] = refl
append_none (y ∷ l) = ap (λ (t : List _). y ∷ t) (append_none l)

abbrev with_players : Roster → List Player → Roster
with_players r l = record r { players = l }

steps-players :
    (ps : List Player) (r : Roster) (tok : StrTok)
    → AllGood (map player_fields ps)
    → (steps player_line (map body (map player_fields ps)) (r, tok)).0
      ≡ with_players r (r.players ++ ps)
unfolding player_append
steps-players [] r tok all_done = ap (with_players r) (sym (append_none r.players))
steps-players (p ∷ ps) r tok (one_more _ _ g gs) =
    ap (λ (x : Roster × StrTok). (steps player_line (map body (map player_fields ps)) x).0)
      (player_line-written p r tok g)
    ∙ steps-players ps (player_append p r) (left []) gs
    ∙ ap (with_players r) (append_cons r.players ps p)

-- Of a file with one record for each of these players, each of five plain fields on a line of at most
-- 254 bytes, `Roster.read` appends exactly these players in their order.
pub roster_read-file_of :
    (ps : List Player) (r : Roster)
    → AllGood (map player_fields ps)
    → roster_read (file_of (map player_fields ps)) r ≡ some (record r { players = r.players ++ ps })
unfolding roster_read
roster_read-file_of ps r g =
    lines_loop-text_of player_line (map body (map player_fields ps)) (r, none)
      (AllGood-short (map player_fields ps) g)
    ∙ ap some (steps-players ps r none g)

-- The fields of a team's record, and the roster that is made of it
abbrev pub team_fields : Roster → Fields
team_fields r = (r.team_id, r.league ∷ r.city ∷ r.nickname ∷ [])

abbrev pub unread : Roster → Roster
unread r = new_roster r.team_id r.league r.city r.nickname

team_line-written :
    (r : Roster) (l : List Roster) (tok : StrTok)
    → IsGood (team_fields r)
    → team_line (body (team_fields r) ++ 10 ∷ []) (l, tok) ≡ (roster_append (unread r) l, left [])
unfolding team_line
team_line-written r l tok g =
    let (league, more1) = all_plain-first r.league (r.city ∷ r.nickname ∷ []) g.rest_plain in
    let (city, more2) = all_plain-first r.city (r.nickname ∷ []) more1 in
    let (nickname, more3) = all_plain-first r.nickname [] more2 in
    ap (λ (t : Text). team_line t (l, tok)) (body-written (team_fields r))
    ∙ rw
        (
          strtok-first r.team_id ((team_fields r).1) tok g.first_plain g.rest_plain,
          strtok-next r.league (r.city ∷ r.nickname ∷ []) league,
          strtok-next r.city (r.nickname ∷ []) city,
          strtok-next r.nickname [] nickname,
        )
        refl

steps-teams :
    (rs l : List Roster) (tok : StrTok)
    → AllGood (map team_fields rs)
    → (steps team_line (map body (map team_fields rs)) (l, tok)).0 ≡ l ++ map unread rs
unfolding roster_append
steps-teams [] l tok all_done = sym (append_none l)
steps-teams (r ∷ rs) l tok (one_more _ _ g gs) =
    ap (λ (x : List Roster × StrTok). (steps team_line (map body (map team_fields rs)) x).0)
      (team_line-written r l tok g)
    ∙ steps-teams rs (roster_append (unread r) l) (left []) gs
    ∙ append_cons l (map unread rs) (unread r)

-- Of a team file with one record for each of these teams, each of four plain fields on a line of at
-- most 254 bytes, `League.read` appends a roster for each team, in their order, with the year 0 and
-- without players.
pub league_read-file_of :
    (rs l : List Roster)
    → AllGood (map team_fields rs)
    → league_read (file_of (map team_fields rs)) l ≡ some (l ++ map unread rs)
unfolding league_read
league_read-file_of rs l g =
    lines_loop-text_of team_line (map body (map team_fields rs)) (l, none)
      (AllGood-short (map team_fields rs) g)
    ∙ ap some (steps-teams rs l none g)
