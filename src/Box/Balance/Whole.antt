-- ===== src/Box/Balance/Whole.antt =====
-- The tallies of a whole box score (cw/box.py: `iterate_game`, `box_create`).
use mlb_baseball.Prelude.{
  some-injective, ℕ, zero, suc, ◌≡◌, refl, Bool, true, false, Option, none, some, List, [], ◌∷◌,
  ◌==◌, if◌then◌else◌, arith, length, Text, codes, pos,
}
use mathlib.Core.Path.{subst}
use mlb_baseball.Game.Records.{Event, Game}
use mlb_baseball.Game.Container.{info_lookup}
use mlb_baseball.Iter.Record.{Result, ok, fault, GameIter, event, new_iter}
use mlb_baseball.Iter.Step.{next}
use mlb_baseball.Iter.Rounds.{bind-eq_ok, ok-injective}
use mlb_baseball.Box.Record.{Stat, BoxPitcher, Boxscore, new_box, assign}
use mlb_baseball.Box.Find.{
  Place, PitcherPlace, change_player, change_pitcher, find_pitcher, find_player,
}
use mlb_baseball.Box.Substitute.{add_substitutes}
use mlb_baseball.Box.Starters.{enter_starters}
use mlb_baseball.Box.Iterate.{
  Walk, event_stats, box_round, lead_after, box_loop, walk_game, take_totals, iterate_game,
  finish_pitchers, decide, game_winning, decisions, played_box, box_create,
}
use mlb_baseball.Box.Balance.Totals.{total, batting_total, pitching_total}
use mlb_baseball.Box.Balance.Changes.{shared_code, is_shared, is_listed}
use mlb_baseball.Box.Balance.Tally.{IsHeld, IsTallied}
use mlb_baseball.Box.Balance.Entries.{assign_other, same_totals-IsTallied}
use mlb_baseball.Box.Balance.Relief.{
  tallied_held, change_pitcher-IsTallied, change_player-IsTallied,
}
use mlb_baseball.Box.Balance.Line.{line_after, event_stats-Leads}
use mlb_baseball.Box.Balance.Subs.{add_substitutes-IsHeld}
use mlb_baseball.Box.Balance.Starting.{enter_starters-IsTallied}

-- A round keeps the tallies, and leaves the line score of its event.
pub box_round-IsHeld :
    (ev : Event) (box : Boxscore) (gi : GameIter) (r : Boxscore × GameIter)
    → IsTallied box
    → box_round ev box gi ≡ ok r
    → IsHeld (line_after ev gi.state gi.play box.linescore) none none r.0
unfolding box_round
box_round-IsHeld ev box gi r t h =
    let (box₁, p, q) = bind-eq_ok (event_stats ev gi.state gi.play box) _ h in
    let (mid, p', q') = bind-eq_ok (add_substitutes ev.subs gi.state box₁ gi) _ q in
    let (gi', p'', q'') = bind-eq_ok (next mid.1) _ q' in
    let line = line_after ev gi.state gi.play box.linescore in
    let k = (event_stats-Leads ev gi.state gi.play).run box box₁ (tallied_held t) p in
    subst (λ (x : Boxscore × GameIter). IsHeld line none none x.0) (ok-injective q'')
      (add_substitutes-IsHeld ev.subs gi.state box₁ gi mid k p')

pub box_loop-IsTallied :
    (n : ℕ) (w : Walk) {w' : Walk} → IsTallied w.box → box_loop n w ≡ ok w' → IsTallied w'.box
unfolding box_loop
box_loop-IsTallied zero w t h = subst (λ (x : Walk). IsTallied x.box) (ok-injective h) t
box_loop-IsTallied (suc n) w {w'} t h = from (event w.gi) (λ v. box_loop-IsTallied n v {w' = w'}) h
  where
    round :
        (ev : Event) (o : Result (Boxscore × GameIter))
        → box_round ev w.box w.gi ≡ o
        → ((v : Walk) → IsTallied v.box → box_loop n v ≡ ok w' → IsTallied w'.box)
        → elim o [
          | fault x ↦ fault x
          | ok r ↦
              box_loop n
                (record { box = r.0; gi = r.1; lead_change = lead_after ev w.gi w.lead_change })
        ]
          ≡ ok w'
        → IsTallied w'.box
    round ev (fault x) e f k = cc
    round ev (ok r) e f k = f _ (let held = box_round-IsHeld ev w.box w.gi r t e in held.tallied) k

    from :
        (o : Option Event)
        → ((v : Walk) → IsTallied v.box → box_loop n v ≡ ok w' → IsTallied w'.box)
        → elim o [
          | none ↦ ok w
          | some ev ↦ elim (box_round ev w.box w.gi) [
            | fault x ↦ fault x
            | ok r ↦
                box_loop n
                  (record { box = r.0; gi = r.1; lead_change = lead_after ev w.gi w.lead_change })
          ]
        ]
          ≡ ok w'
        → IsTallied w'.box
    from none f k = subst (λ (x : Walk). IsTallied x.box) (ok-injective k) t
    from (some ev) f k = round ev (box_round ev w.box w.gi) refl f k

finished_pitching :
    (q : Stat) (l : List BoxPitcher)
    → is_shared q ≡ true
    → total (λ p. p.pitching q) (finish_pitchers l) ≡ total (λ p. p.pitching q) l
unfolding finish_pitchers is_shared
finished_pitching q [] h = refl
finished_pitching q (p ∷ []) h =
    let done = assign_other shared_code Stat.cg q 1 p.pitching refl h in
    let c = assign Stat.cg 1 p.pitching in
    from (c Stat.r == 0) c (assign_other shared_code Stat.sho q 1 c refl h) done
  where
    from :
        (b : Bool) (c : Stat → ℕ)
        → assign Stat.sho 1 c q ≡ c q
        → c q ≡ p.pitching q
        → total
            (λ x. x.pitching q)
            ((if b then record p { pitching = assign Stat.sho 1 c } else record p { pitching = c })
              ∷ [])
          ≡ total (λ x. x.pitching q) (p ∷ [])
    from true c e k = omega (arith, e, k)
    from false c e k = omega (arith, k)
finished_pitching q (p ∷ p' ∷ l) h =
    omega (arith, assign_other shared_code Stat.gf q 1 p.pitching refl h)

finished-IsTallied :
    (box : Boxscore)
    → IsTallied box
    → IsTallied (record box {
      pitchers = record {
        away_side = finish_pitchers box.pitchers.away_side;
        home_side = finish_pitchers box.pitchers.home_side;
      };
    })
finished-IsTallied box t =
    same_totals-IsTallied box _ (λ q h. unfold batting_total in refl)
      (λ q h.
        unfold pitching_total in
        omega (
          arith,
          finished_pitching q box.pitchers.away_side h,
          finished_pitching q box.pitchers.home_side h,
        ))
      (λ q. refl) (λ u. refl) t

decide-IsTallied :
    (label : Text) (c : Stat) (g : Game) (box : Boxscore)
    → is_shared c ≡ false
    → IsTallied box
    → IsTallied (decide label c g box)
unfolding decide is_shared
decide-IsTallied label c g box h t = from (find_pitcher (info_lookup label g) box)
  where
    from :
        (o : Option PitcherPlace)
        → IsTallied (elim o [
          | none ↦ box
          | some w ↦ change_pitcher w (λ p. record p { pitching = assign c 1 p.pitching }) box
        ])
    from none = t
    from (some w) =
        change_pitcher-IsTallied w (λ p. record p { pitching = assign c 1 p.pitching }) box
          (λ p q k. assign_other shared_code c q 1 p.pitching h k) t

game_winning-IsTallied :
    (g : Game) (box : Boxscore) → IsTallied box → IsTallied (game_winning g box)
unfolding game_winning
game_winning-IsTallied g box t = from (find_player (info_lookup (codes "gwrbi") g) true box)
  where
    from :
        (o : Option Place)
        → IsTallied
            (elim o [ none ↦ box | some w ↦ change_player w (λ p. record p { gw = pos 1 }) box ])
    from none = t
    from (some w) = change_player-IsTallied w (λ p. record p { gw = pos 1 }) box (λ p q. refl) t

decisions-IsTallied : (g : Game) (box : Boxscore) → IsTallied box → IsTallied (decisions g box)
unfolding decisions is_shared
decisions-IsTallied g box t = game_winning-IsTallied g _ (
    decide-IsTallied (codes "save") Stat.sv g _ refl (
      decide-IsTallied (codes "lp") Stat.lost g _ refl
        (decide-IsTallied (codes "wp") Stat.won g _ refl (finished-IsTallied box t))))

take_totals-IsTallied :
    (w : Walk) → IsTallied w.box → IsTallied (take_totals w.gi.state w.lead_change w.box)
unfolding take_totals
take_totals-IsTallied w t =
    same_totals-IsTallied w.box _ (λ q h. unfold batting_total in refl)
      (λ q h. unfold pitching_total in refl) (λ q. refl) (λ u. refl) t

-- A box score that is made is that of a game with events.
pub box_create-played_box :
    (g : Game) {o : Result Boxscore} → box_create g ≡ some o → played_box g ≡ o
unfolding box_create
box_create-played_box g {o} h = from g.events h
  where
    from :
        (l : List Event)
        → elim l [ [] ↦ none | ev ∷ evs ↦ some (played_box g) ] ≡ some o
        → played_box g ≡ o
    from [] e = cc
    from (ev ∷ evs) e = some-injective e

played_box-IsTallied : (g : Game) {box : Boxscore} → played_box g ≡ ok box → IsTallied box
unfolding played_box iterate_game walk_game
played_box-IsTallied g {box} h =
    let (start, p, q) = bind-eq_ok (enter_starters g new_box) _ h in
    let (played, p', q') = bind-eq_ok (iterate_game g start) _ q in
    let (w, r, r') = bind-eq_ok (walk_game g start) _ p' in
    let (gi, u, u') = bind-eq_ok (new_iter g) _ r in
    subst IsTallied (ok-injective q') (
      decisions-IsTallied g played (
        subst IsTallied (ok-injective r') (
          take_totals-IsTallied w
            (box_loop-IsTallied (length g.events) _ (enter_starters-IsTallied g p) u'))))

-- Where a box score is made of a game with events, each counter that batters and pitchers share, among them
-- plate appearances, at bats, hits, walks, strikeouts, runs and pitches, comes to the same total over
-- all the players as over all the pitchers.
pub box_create-shared :
    (g : Game) {box : Boxscore} (q : Stat)
    → box_create g ≡ some (ok box)
    → is_shared q ≡ true
    → batting_total q box ≡ pitching_total q box
box_create-shared g q h k = (played_box-IsTallied g (box_create-played_box g h)).shared q k

-- Where a box score is made of a game with events, the lists of doubles, triples, home runs, intentional walks,
-- hit batters, sacrifices, stolen bases and runners caught stealing have as many events as the
-- players' counters of the same name add up to.
pub box_create-listed :
    (g : Game) {box : Boxscore} (q : Stat)
    → box_create g ≡ some (ok box)
    → is_listed q ≡ true
    → length (box.notable q) ≡ batting_total q box
box_create-listed g q h k = (played_box-IsTallied g (box_create-played_box g h)).listed q k
