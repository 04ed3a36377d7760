-- ===== src/Box/Line/Start.antt =====
-- The line score and the score board before the first play and behind the last (cw/box.py).
use mlb_baseball.Prelude.{
  ℕ, zero, suc, ◌+◌, ◌≡◌, refl, ap, ◌∙◌, sym, Bool, true, false, Option, none, some, List, [], ◌∷◌,
  ◌==◌, if◌then◌else◌, Text, codes, text_eq, arith, pos,
}
use mathlib.Core.Path.{subst}
use mlb_baseball.Prelude.Sides.{Team, Sides, both_sides, put_side}
use mlb_baseball.Play.Event.{empty_event}
use mlb_baseball.Play.Parse.{parse_event}
use mlb_baseball.Game.Records.{Appearance, Event, Game}
use mlb_baseball.Game.Container.{info_lookup, starter_find}
use mlb_baseball.State.Record.{State, new_state}
use mlb_baseball.State.Scores.{same, into_score}
use mlb_baseball.Iter.Record.{
  ok, fault, Fault, ◌>>=◌, in_range, GameIter, event, is_play, parse_result, set_starter,
  lineup_setup, load_first, reset_state, new_iter, short_date,
}
use mlb_baseball.Iter.Rounds.{bind-eq_ok, ok-injective, either_way}
use mlb_baseball.Iter.Scores.{in_range-ok}
use mlb_baseball.Box.Record.{Stat, Boxscore, assign}
use mlb_baseball.Box.Find.{
  Place, PitcherPlace, deref, change_player, change_pitcher, find_pitcher, find_player,
}
use mlb_baseball.Box.Substitute.{put_chain}
use mlb_baseball.Box.Starters.{
  starter, starting_pitcher, enter_starter, enter_slot, enter_slots, enter_starters,
}
use mlb_baseball.Box.Iterate.{decide, game_winning, decisions}
use mlb_baseball.Box.Balance.Rules.{Leads, Leads-ok, Leads-then, Leads-deref}
use mlb_baseball.Box.Balance.Tally.{Rows}

-- A box score that shows a line score and a score
pub record IsShown (line : Rows) (score : Sides ℕ) (box : Boxscore) : Type 0 where
  pub rows : box.linescore ≡ line
  pub board : box.score ≡ score

module _ {line : Rows} {score : Sides ℕ} where
  enter_starter-IsShown :
      (i : ℕ) (t : Team) (date : Text) (a : Appearance) (box : Boxscore)
      → IsShown line score box
      → IsShown line score (enter_starter i t date a box)
  unfolding enter_starter
  enter_starter-IsShown i t date a box b = from (a.pos == 1)
    where
      box₁ : Boxscore
      box₁ = put_chain i t (starter a date ∷ []) box

      from :
          (c : Bool)
          → IsShown line score (
              if c
              then record box₁ { pitchers = put_side box₁.pitchers t (starting_pitcher a ∷ []) }
              else box₁)
      from true = record { rows = b.rows; board = b.board }
      from false = record { rows = b.rows; board = b.board }

  enter_slot-IsShown :
      (g : Game) (t : Team) (i : ℕ)
      → Leads (IsShown line score) (IsShown line score) (enter_slot g t i)
  unfolding enter_slot
  enter_slot-IsShown g t i = record {
    run = λ box box' b h. from (starter_find t i g.starters) box box' b h;
  }
    where
      entering :
          (a : Appearance)
          → Leads (IsShown line score) (IsShown line score) (
              deref
                (info_lookup (codes "date") g)
                (λ date box₁. ok (enter_starter i t date a box₁)))
      entering a = Leads-deref (info_lookup (codes "date") g) (λ date. record {
        run = λ box box' b h.
            subst (IsShown line score) (ok-injective h) (enter_starter-IsShown i t date a box b);
      })

      from :
          (o : Option Appearance) (box box' : Boxscore)
          → IsShown line score box
          → elim o [
            | none ↦ ok box
            | some a ↦
                deref
                  (info_lookup (codes "date") g)
                  (λ date box₁. ok (enter_starter i t date a box₁))
                  box
          ]
            ≡ ok box'
          → IsShown line score box'
      from none box box' b h = subst (IsShown line score) (ok-injective h) b
      from (some a) box box' b h = (entering a).run box box' b h

  enter_slots-IsShown :
      (g : Game) (t : Team) (n i : ℕ)
      → Leads (IsShown line score) (IsShown line score) (enter_slots g t n i)
  unfolding enter_slots
  enter_slots-IsShown g t zero i = Leads-ok
  enter_slots-IsShown g t (suc n) i =
      Leads-then (enter_slot-IsShown g t i) (enter_slots-IsShown g t n (i + 1))

  -- The starters keep the line score.
  pub enter_starters-IsShown :
      (g : Game) → Leads (IsShown line score) (IsShown line score) (enter_starters g)
  unfolding enter_starters
  enter_starters-IsShown g =
      Leads-then (enter_slots-IsShown g Team.visitors 10 0) (enter_slots-IsShown g Team.home 10 0)

  decide-IsShown :
      (label : Text) (c : Stat) (g : Game) (box : Boxscore)
      → IsShown line score box
      → IsShown line score (decide label c g box)
  unfolding decide
  decide-IsShown label c g box b = from (find_pitcher (info_lookup label g) box)
    where
      from :
          (o : Option PitcherPlace)
          → IsShown line score (elim o [
            | none ↦ box
            | some w ↦ change_pitcher w (λ p. record p { pitching = assign c 1 p.pitching }) box
          ])
      from none = b
      from (some w) = record {
        rows = unfold change_pitcher in b.rows;
        board = unfold change_pitcher in b.board;
      }

  game_winning-IsShown :
      (g : Game) (box : Boxscore) → IsShown line score box → IsShown line score (game_winning g box)
  unfolding game_winning
  game_winning-IsShown g box b = from (find_player (info_lookup (codes "gwrbi") g) true box)
    where
      from :
          (o : Option Place)
          → IsShown line score
              (elim o [ none ↦ box | some w ↦ change_player w (λ p. record p { gw = pos 1 }) box ])
      from none = b
      from (some w) = record {
        rows = unfold change_player in b.rows;
        board = unfold change_player in b.board;
      }

  -- The decisions keep the line score and the score.
  pub decisions-IsShown :
      (g : Game) (box : Boxscore) → IsShown line score box → IsShown line score (decisions g box)
  unfolding decisions
  decisions-IsShown g box b = game_winning-IsShown g _ (
      decide-IsShown (codes "save") Stat.sv g _ (
        decide-IsShown (codes "lp") Stat.lost g _
          (decide-IsShown (codes "wp") Stat.won g _ (record { rows = b.rows; board = b.board }))))

set_starter-score :
    (a : Appearance) (s : State) {s' : State} → set_starter a s ≡ some s' → s'.score ≡ s.score
unfolding set_starter
set_starter-score a s h = ground arith

lineup_setup-score :
    (l : List Appearance) (s : State) {s' : State} → lineup_setup l s ≡ some s' → s'.score ≡ s.score
unfolding lineup_setup
lineup_setup-score [] s {s'} h = (into_score s s s' (same s) h).score
lineup_setup-score (a ∷ l) s {s'} h =
    from (set_starter a s) refl h (λ s₁. lineup_setup-score l s₁ {s' = s'})
  where
    from :
        (o : Option State)
        → set_starter a s ≡ o
        → elim o [ none ↦ none | some s₁ ↦ lineup_setup l s₁ ] ≡ some s'
        → ((s₁ : State) → lineup_setup l s₁ ≡ some s' → s'.score ≡ s₁.score)
        → s'.score ≡ s.score
    from none e k f = cc
    from (some s₁) e k f = f s₁ k ∙ set_starter-score a s e

reset_state-score : (g : Game) {s : State} → reset_state g ≡ ok s → s.score ≡ both_sides 0
unfolding reset_state
reset_state-score g {s} h = from (info_lookup (codes "date") g) h
  where
    from :
        (o : Option Text)
        → elim o [
          | none ↦ fault Fault.value_error
          | some date ↦
              in_range (lineup_setup g.starters (record new_state { date = short_date date }))
              >>= λ x. ok (record x {
                batting_team = elim (info_lookup (codes "htbf") g) [
                  | none ↦ Team.visitors
                  | some v ↦ if text_eq v (codes "true") then Team.home else Team.visitors
                ];
              })
        ]
          ≡ ok s
        → s.score ≡ both_sides 0
    from none k = cc
    from (some date) k =
        let begin : State = record new_state { date = short_date date } in
        let (x, p, q) = bind-eq_ok (in_range (lineup_setup g.starters begin)) _ k in
        ap (λ (y : State). y.score) (sym (ok-injective q))
        ∙ lineup_setup-score g.starters begin (in_range-ok (lineup_setup g.starters begin) p)

load_first-score :
    (o : Option Event) (gi : GameIter) {gi' : GameIter}
    → load_first o gi ≡ ok gi'
    → gi'.state.score ≡ gi.state.score
unfolding load_first
load_first-score none gi h = ap (λ (x : GameIter). x.state.score) (sym (ok-injective h))
load_first-score (some ev) gi h =
    either_way (is_play ev) _ _
      (λ r.
        (let (d, p, q) = bind-eq_ok (parse_result (parse_event ev.event_text)) _ r in
          ap (λ (x : GameIter). x.state.score) (sym (ok-injective q))))
      (λ r. ap (λ (x : GameIter). x.state.score) (sym (ok-injective r))) h

-- A game starts without a run.
pub new_iter-score : (g : Game) {gi : GameIter} → new_iter g ≡ ok gi → gi.state.score ≡ both_sides 0
unfolding new_iter
new_iter-score g {gi} h =
    let (s, p, q) = bind-eq_ok (reset_state g) _ h in
    let begin : GameIter = record {
      game = g;
      index = 0;
      state = s;
      play = empty_event;
      parse_ok = true;
    } in
    load_first-score (event begin) begin q ∙ reset_state-score g p
