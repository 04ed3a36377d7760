-- ===== src/Box/Line/Sums.antt =====
-- What the rows of a line score add up to (cw/box.py), and what a round of the walk adds to it.
use mlb_baseball.Prelude.{
  ℕ, zero, suc, ◌+◌, ◌≡◌, refl, ap, ◌∙◌, sym, Bool, true, false, Option, none, some, List, [], ◌∷◌,
  get_elem?, arith, if◌then◌else◌, Text, codes, text_eq,
}
use mlb_baseball.Prelude.Sides.{Team, same_team, Sides, side}
use mlb_baseball.Play.Event.{EventData, runs_on_play}
use mlb_baseball.Game.Records.{Event}
use mlb_baseball.State.Record.{State}
use mlb_baseball.State.Update.{is_some}
use mlb_baseball.Iter.Record.{ok, GameIter, event, is_play}
use mlb_baseball.Iter.Step.{next}
use mlb_baseball.Iter.Rounds.{bind-eq_ok, ok-injective}
use mlb_baseball.Iter.Scores.{event_runs, more_score, next-board}
use mlb_baseball.Iter.Texts.{event-texts}
use mlb_baseball.Box.Record.{Boxscore, rows_to}
use mlb_baseball.Box.Find.{modify}
use mlb_baseball.Box.Substitute.{add_substitutes}
use mlb_baseball.Box.Iterate.{opened, more_runs, change_half, event_stats, box_round}
use mlb_baseball.Box.Balance.Totals.{total, total-modify, total-modify_same}
use mlb_baseball.Box.Balance.Tally.{Rows}
use mlb_baseball.Box.Balance.Line.{opened_line, scored_line, line_after}
use mlb_baseball.Box.Ends.{add_substitutes-StaysThere}

-- The runs of a side's half of an inning, none where it has not batted
abbrev pub runs_of : Option ℕ → ℕ
runs_of none = 0
runs_of (some n) = n

abbrev pub half_runs : Team → Sides (Option ℕ) → ℕ
half_runs t row = runs_of (side row t)

-- The runs of a side over all the innings
unfoldable pub line_total : Team → Rows → ℕ
line_total t line = total (half_runs t) line

-- What a side that bats adds to the side `t`
abbrev pub adds : Team → Team → ℕ → ℕ
adds u t n = if same_team u t then n else 0

pub side-more_score :
    (u t : Team) (n : ℕ) (xs : Sides ℕ) → side (more_score u n xs) t ≡ side xs t + adds u t n
side-more_score Team.visitors Team.visitors n xs = refl
side-more_score Team.visitors Team.home n xs = omega arith
side-more_score Team.home Team.visitors n xs = omega arith
side-more_score Team.home Team.home n xs = refl

rows_to-total :
    (t : Team) (i : ℕ) (line : Rows)
    → total (half_runs t) (rows_to i line) ≡ total (half_runs t) line
unfolding rows_to
rows_to-total Team.visitors zero [] = refl
rows_to-total Team.home zero [] = refl
rows_to-total t zero (row ∷ line) = refl
rows_to-total Team.visitors (suc i) [] = omega (arith, rows_to-total Team.visitors i [])
rows_to-total Team.home (suc i) [] = omega (arith, rows_to-total Team.home i [])
rows_to-total t (suc i) (row ∷ line) = omega (arith, rows_to-total t i line)

rows_to-row : (i : ℕ) (line : Rows) → is_some (get_elem? (rows_to i line) i) ≡ true
unfolding rows_to
rows_to-row zero [] = refl
rows_to-row zero (row ∷ line) = refl
rows_to-row (suc i) [] = rows_to-row i []
rows_to-row (suc i) (row ∷ line) = rows_to-row i line

opened-runs :
    (u t : Team) (row : Sides (Option ℕ)) → half_runs t (change_half u opened row) ≡ half_runs t row
opened-runs Team.visitors Team.visitors row = of_half row.away_side
  where
    of_half : (o : Option ℕ) → runs_of (opened o) ≡ runs_of o
    of_half none = refl
    of_half (some n) = refl
opened-runs Team.visitors Team.home row = refl
opened-runs Team.home Team.visitors row = refl
opened-runs Team.home Team.home row = of_half row.home_side
  where
    of_half : (o : Option ℕ) → runs_of (opened o) ≡ runs_of o
    of_half none = refl
    of_half (some n) = refl

scored-runs :
    (u t : Team) (n : ℕ) (row : Sides (Option ℕ))
    → half_runs t (change_half u (more_runs n) (change_half u opened row))
      ≡ half_runs t row + adds u t n
scored-runs Team.visitors Team.visitors n row = of_half row.away_side
  where
    of_half : (o : Option ℕ) → runs_of (more_runs n (opened o)) ≡ runs_of o + n
    of_half none = refl
    of_half (some m) = refl
scored-runs Team.visitors Team.home n row = omega arith
scored-runs Team.home Team.visitors n row = omega arith
scored-runs Team.home Team.home n row = of_half row.home_side
  where
    of_half : (o : Option ℕ) → runs_of (more_runs n (opened o)) ≡ runs_of o + n
    of_half none = refl
    of_half (some m) = refl

modify_twice :
    {A : Type 0} (i : ℕ) (f g : A → A) (l : List A)
    → modify i g (modify i f l) ≡ modify i (λ x. g (f x)) l
modify_twice i f g [] = refl
modify_twice zero f g (x ∷ l) = refl
modify_twice (suc i) f g (x ∷ l) = ap (λ m. x ∷ m) (modify_twice i f g l)

opened_line-total :
    (t : Team) (s : State) (line : Rows) → line_total t (opened_line s line) ≡ line_total t line
unfolding line_total
opened_line-total t s line =
    total-modify_same (half_runs t) (change_half s.batting_team opened)
      (opened-runs s.batting_team t) (rows_to s.inning line) s.inning
    ∙ rows_to-total t s.inning line

scored_line-total :
    (t : Team) (s : State) (n : ℕ) (line : Rows)
    → line_total t (scored_line s n (opened_line s line))
      ≡ line_total t line + adds s.batting_team t n
unfolding line_total
scored_line-total t s n line =
    let u = s.batting_team in
    let i = s.inning in
    let twice =
      ap (total (half_runs t))
        (modify_twice i (change_half u opened) (change_half u (more_runs n)) (rows_to i line)) in
    let more =
      total-modify (half_runs t) (λ row. change_half u (more_runs n) (change_half u opened row))
        (adds u t n) (scored-runs u t n) (rows_to i line) i (rows_to-row i line) in
    omega (arith, twice, more, rows_to-total t i line)

adds_none : (u t : Team) → adds u t 0 ≡ 0
adds_none Team.visitors Team.visitors = refl
adds_none Team.visitors Team.home = refl
adds_none Team.home Team.visitors = refl
adds_none Team.home Team.home = refl

-- What an event adds to the line score
pub line_after-total :
    (t : Team) (ev : Event) (s : State) (d : EventData) (line : Rows)
    → line_total t (line_after ev s d line)
      ≡ line_total t line + adds s.batting_team t (event_runs ev d)
line_after-total t ev s d line = from (is_play ev)
  where
    from :
        (c : Bool)
        → line_total t
            (if c then scored_line s (runs_on_play d) (opened_line s line) else opened_line s line)
          ≡ line_total t line + adds s.batting_team t (if c then runs_on_play d else 0)
    from true = scored_line-total t s (runs_on_play d) line
    from false = omega (arith, opened_line-total t s line, adds_none s.batting_team t)

-- An event of the same text has the same runs.
text_runs :
    (ev ev' : Event) (d : EventData)
    → ev'.event_text ≡ ev.event_text
    → event_runs ev' d ≡ event_runs ev d
text_runs ev ev' d h =
    ap
      (λ (t : Text). if (if text_eq t (codes "NP") then false else true) then runs_on_play d else 0)
      h

-- What a round adds to the score board
pub box_round-score :
    (t : Team) (ev : Event) (box : Boxscore) (gi : GameIter) (r : Boxscore × GameIter)
    → event gi ≡ some ev
    → box_round ev box gi ≡ ok r
    → side r.1.state.score t
      ≡ side gi.state.score t + adds gi.state.batting_team t (event_runs ev gi.play)
unfolding box_round
box_round-score t ev box gi r e h =
    let (box₁, p, q) = bind-eq_ok (event_stats ev gi.state gi.play box) _ h in
    let (mid, p', q') = bind-eq_ok (add_substitutes ev.subs gi.state box₁ gi) _ q in
    let (gi', p'', q'') = bind-eq_ok (next mid.1) _ q' in
    let m = (add_substitutes-StaysThere ev.subs gi.state).run box₁ gi mid p' in
    let at_index : get_elem? gi.game.events mid.1.index ≡ some ev =
      ap (get_elem? gi.game.events) m.index ∙ e in
    let (ev', f, k) = event-texts gi.game.events mid.1.game.events mid.1.index ev m.game at_index in
    ap (λ (x : Boxscore × GameIter). side x.1.state.score t) (sym (ok-injective q''))
    ∙ ap (λ (x : Sides ℕ). side x t) (next-board mid.1 ev' f p'')
    ∙ side-more_score mid.1.state.batting_team t (event_runs ev' mid.1.play) mid.1.state.score
    ∙ ap (λ (x : State). side x.score t + adds x.batting_team t (event_runs ev' mid.1.play)) m.state
    ∙ ap
        (λ (d : EventData). side gi.state.score t + adds gi.state.batting_team t (event_runs ev' d))
        m.play
    ∙ ap (λ (n : ℕ). side gi.state.score t + adds gi.state.batting_team t n)
        (text_runs ev ev' gi.play k)
