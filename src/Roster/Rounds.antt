-- ===== src/Roster/Rounds.antt =====
-- The loop over the lines of a file (cw/roster.py).
use mlb_baseball.Prelude.{
  is_some, ℕ, zero, suc, ◌+◌, ◌-◌, ◌<◌, ◌≡◌, refl, Bool, true, false, Option, none, some, List,
  length, Text, if◌then◌else◌, arith,
}
use mlb_baseball.File.{CFile, open_file, fgets, StrTok}
use mlb_baseball.File.Reads.{piece, later, Read, at_the_end, a_piece, fgets-Read}
use mlb_baseball.Roster.Read.{
  roster_bufsize, lines_loop, player_line, roster_read, team_line, league_read,
}
use mlb_baseball.Roster.{Roster}

-- What the loop does with the outcome of a read
abbrev pub round :
    {A : Type 0}
    → ℕ
    → (Text → A × StrTok → A × StrTok)
    → A × StrTok
    → Option Text × CFile
    → Option A
round n step a r = elim r.0 [ none ↦ some a.0 | some line ↦ lines_loop n step r.1 (step line a) ]

lines_loop-ends :
    {A : Type 0}
    → (n : ℕ) (step : Text → A × StrTok → A × StrTok) (f : CFile) (a : A × StrTok)
    → length f.bytes - f.at < n
    → is_some (lines_loop n step f a) ≡ true
unfolding lines_loop
lines_loop-ends zero step f a h = absurd (omega (arith, h))
lines_loop-ends (suc n) step f a h =
    from f.eof (fgets roster_bufsize f) (fgets-Read roster_bufsize f (omega arith))
      (λ f' t. lines_loop-ends n step f' (step t a))
  where
    from :
        (e : Bool) (r : Option Text × CFile)
        → Read roster_bufsize f r
        → ((f' : CFile) (t : Text)
            → length f'.bytes - f'.at < n
            → is_some (lines_loop n step f' (step t a)) ≡ true)
        → is_some (if e then some a.0 else round n step a r) ≡ true
    from true r x g = refl
    from false _ at_the_end g = refl
    from false _ (a_piece l one) g =
        g (later roster_bufsize f) (piece roster_bufsize f) (omega (arith, h, l, one))

-- `Roster.read` and `League.read` end on every file: a round of their loop for each byte, and one
-- more, is enough.
pub roster_read-league_read :
    (bytes : Text) (r : Roster) (l : List Roster)
    → (is_some (roster_read bytes r) ≡ true) × (is_some (league_read bytes l) ≡ true)
unfolding roster_read league_read
roster_read-league_read bytes r l = (
  lines_loop-ends (length bytes + 1) player_line (open_file bytes) (r, none) (omega arith),
  lines_loop-ends (length bytes + 1) team_line (open_file bytes) (l, none) (omega arith),
)
