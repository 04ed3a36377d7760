-- ===== src/State/Tests.antt =====
-- Plays of cw/gameiter.py on small states.
use mlb_baseball.Prelude.{
  length, none, ◌+◌, ◌≤◌, ◌<◌, ◌≡◌, refl, true, false, Option, some, [], Text, codes, pos, ◌+ℤ◌,
  arith,
}
use mlb_baseball.Prelude.Sides.{side, Team, put_side}
use mlb_baseball.Play.Bases.{Base, Bases, batter, first, second, third, on, put_on, one_if, number}
use mlb_baseball.Play.Event.{
  Ev, EventData, empty_event, is_batter, outs_on_play, runs_on_play, runner_put_out, is_ev,
  ev_between,
}
use mlb_baseball.State.Record.{Runner, State, new_state, no_runner}
use mlb_baseball.State.Advance.{process_advance}
use mlb_baseball.State.Update.{update, substitute, is_some, pitcher_slot}
use mlb_baseball.State.Queries.{left_on_base}
use mlb_baseball.State.Runners.Names.{names}
use mlb_baseball.State.Runners.Simultaneous.{IsLegal, arrival, process_advance-arrival}
use mlb_baseball.State.Runners.Conservation.{
  OutsArePresent, on_bases, batter_enters, process_advance_conserves,
}
use mlb_baseball.State.Runners.Rest.{SameRest, process_advance_rest}
use mlb_baseball.State.Runners.Retreat.{process_advance_retreats}
use mlb_baseball.State.Balance.{update-left_on_base}
use mlb_baseball.State.Batting.{InOrder, next_batter-update, update-InOrder}
use mlb_baseball.State.Lineups.{IsComplete, substitute-IsComplete}
use mlb_baseball.State.Scores.{SameScore, update-score, substitute-score}

-- A runner by his name
abbrev named : Text → Runner
named t = record no_runner { runner = t }

-- Runners on first and third
abbrev corners : State
corners = record new_state {
  runners = record {
    at_batter = no_runner;
    at_first = named (codes "ann");
    at_second = no_runner;
    at_third = named (codes "cy");
  };
}

-- "64(1)/FO.3-H;B-1": the runner from first is out, the one from third scores, the batter is on first.
abbrev force_play : EventData
force_play = record empty_event {
  event_type = Ev.generic_out;
  advance = record { at_batter = 1; at_first = 0; at_second = 0; at_third = 4 };
  play = record { at_batter = []; at_first = codes "64"; at_second = []; at_third = [] };
}

abbrev before : Bases Text
before = put_on (names corners) batter (codes "bob")

force_play-IsLegal : IsLegal force_play before
unfolding runner_put_out
force_play-IsLegal = record {
  out_stays = out;
  empty_stays = empty;
  others_go = go;
  keep_order = order;
  one_retreat = ground arith;
}
  where
    out : (b : Base) → runner_put_out force_play b ≡ true → on force_play.advance b ≡ 0
    out batter h = cc
    out first h = refl
    out second h = refl
    out third h = cc

    empty : (b : Base) → on before b ≡ [] → on force_play.advance b ≡ 0
    empty batter h = cc
    empty first h = refl
    empty second h = refl
    empty third h = cc

    go :
        (b : Base)
        → 1 ≤ number b
        → runner_put_out force_play b ≡ false
        → on force_play.advance b ≡ 0
        → on before b ≡ []
    go batter k h e = absurd (omega arith)
    go first k h e = cc
    go second k h e = refl
    go third k h e = absurd (omega (arith, e))

    order :
        (a b : Base)
        → number a < number b
        → 1 ≤ on force_play.advance a
        → 1 ≤ on force_play.advance b
        → on force_play.advance b ≤ 3
        → on force_play.advance a < on force_play.advance b
    order batter first l p q r = absurd (omega (arith, q))
    order batter second l p q r = absurd (omega (arith, q))
    order batter third l p q r = absurd (omega (arith, r))
    order batter batter l p q r = absurd (omega (arith, l))
    order first b l p q r = absurd (omega (arith, p))
    order second b l p q r = absurd (omega (arith, p))
    order third batter l p q r = absurd (omega (arith, l))
    order third first l p q r = absurd (omega (arith, l))
    order third second l p q r = absurd (omega (arith, l))
    order third third l p q r = absurd (omega (arith, l))

process_advance-arrival_example :
    let after = names (process_advance (codes "bob") force_play corners) in
    (after.at_first ≡ arrival force_play before first)
    × (after.at_second ≡ arrival force_play before second)
    × (after.at_third ≡ arrival force_play before third)
process_advance-arrival_example =
    process_advance-arrival (codes "bob") force_play corners force_play-IsLegal

force_play-OutsArePresent : OutsArePresent force_play before
unfolding runner_put_out
force_play-OutsArePresent batter h = cc
force_play-OutsArePresent first h = λ e. cc
force_play-OutsArePresent second h = cc
force_play-OutsArePresent third h = cc

process_advance_conserves_example :
    on_bases (process_advance (codes "bob") force_play corners)
      + outs_on_play force_play
      + runs_on_play force_play
    ≡ on_bases corners + batter_enters force_play
process_advance_conserves_example =
    process_advance_conserves (codes "bob") force_play corners force_play-IsLegal
      force_play-OutsArePresent

batter_counts : batter_enters force_play ≡ one_if (is_batter force_play)
unfolding is_batter is_ev ev_between runner_put_out
batter_counts = refl

update-left_on_base_example :
    left_on_base Team.visitors (update (codes "bob") force_play corners) +ℤ pos (on_bases corners)
    ≡ left_on_base Team.visitors corners +ℤ pos (on_bases (update (codes "bob") force_play corners))
update-left_on_base_example =
    update-left_on_base (codes "bob") force_play corners force_play-IsLegal
      force_play-OutsArePresent batter_counts

process_advance_rest_example : SameRest corners (process_advance (codes "bob") force_play corners)
process_advance_rest_example = process_advance_rest (codes "bob") force_play corners

-- Runners on second and third who both go back
abbrev deep : State
deep = record new_state {
  runners = record {
    at_batter = no_runner;
    at_first = no_runner;
    at_second = named (codes "ann");
    at_third = named (codes "cy");
  };
}

abbrev going_back : EventData
going_back = record empty_event {
  event_type = Ev.other_advance;
  advance = record { at_batter = 0; at_first = 0; at_second = 1; at_third = 2 };
}

nobody_out : (b : Base) → runner_put_out going_back b ≡ false
unfolding runner_put_out
nobody_out batter = refl
nobody_out first = refl
nobody_out second = refl
nobody_out third = refl

process_advance_retreats_example :
    let after = names (process_advance (codes "bob") going_back deep) in
    (after.at_first ≡ codes "cy") × (after.at_second ≡ []) × (after.at_third ≡ [])
process_advance_retreats_example =
    process_advance_retreats (codes "bob") going_back deep refl refl refl refl (nobody_out third)
      (nobody_out second)

-- The ninth batter is at bat.
abbrev ninth_bats : State
ninth_bats = record corners { next_batter = record { away_side = 9; home_side = 1 } }

next_batter-update_example :
    (update (codes "bob") force_play ninth_bats).next_batter
    ≡ record { away_side = 1; home_side = 1 }
unfolding is_batter is_ev
next_batter-update_example = next_batter-update (codes "bob") force_play ninth_bats (record {
  away_low = omega arith;
  away_high = omega arith;
  home_low = omega arith;
  home_high = omega arith;
})

update-InOrder_example : InOrder (update (codes "bob") force_play corners).next_batter
update-InOrder_example = update-InOrder (codes "bob") force_play corners (record {
  away_low = omega arith;
  away_high = omega arith;
  home_low = omega arith;
  home_high = omega arith;
})

update-score_example :
    (update (codes "bob") force_play corners).score
    ≡ put_side corners.score Team.visitors (0 + runs_on_play force_play)
update-score_example = update-score (codes "bob") force_play corners

-- A pinch-hitter in the third slot
abbrev or_same : State → Option State → State
or_same s none = s
or_same s (some s') = s'

pinch_hit : State
unfolding substitute
pinch_hit =
    or_same corners
      (substitute (codes "bob") (codes "12") (codes "dan") (codes "Dan") Team.visitors 3 11 corners)

pinch_hit-eq :
    substitute (codes "bob") (codes "12") (codes "dan") (codes "Dan") Team.visitors 3 11 corners
    ≡ some pinch_hit
unfolding substitute pinch_hit
pinch_hit-eq = refl

substitute-score_example : SameScore corners pinch_hit
substitute-score_example =
    substitute-score (codes "bob") (codes "12") (codes "dan") (codes "Dan") Team.visitors 3 11
      corners pinch_hit-eq

corners-IsComplete : IsComplete corners
corners-IsComplete = record {
  rows = ten_rows;
  posts = ten_posts;
  hitter = no_hitter;
  pitcher = no_pitcher;
}
  where
    ten_rows : (t : Team) → length (side corners.lineups t) ≡ 10
    ten_rows Team.visitors = refl
    ten_rows Team.home = refl

    ten_posts : (t : Team) → length (side corners.fielders t) ≡ 10
    ten_posts Team.visitors = refl
    ten_posts Team.home = refl

    no_hitter : (t : Team) → side corners.dh_slot t ≤ 9
    no_hitter Team.visitors = omega arith
    no_hitter Team.home = omega arith

    no_pitcher : (t : Team) → 1 ≤ side corners.dh_slot t → is_some (pitcher_slot corners t) ≡ true
    no_pitcher Team.visitors l = absurd (omega (arith, l))
    no_pitcher Team.home l = absurd (omega (arith, l))

substitute-IsComplete_example : IsComplete pinch_hit
substitute-IsComplete_example =
    substitute-IsComplete (codes "bob") (codes "12") (codes "dan") (codes "Dan") Team.visitors 3 11
      corners corners-IsComplete pinch_hit-eq
