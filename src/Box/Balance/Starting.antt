-- ===== src/Box/Balance/Starting.antt =====
-- `enter_starters` (cw/box.py) and the tallies: nothing is counted before the first play.
use mlb_baseball.Prelude.{
  ℕ, zero, suc, ◌+◌, ◌≤◌, ◌≡◌, refl, ◌∙◌, sym, Bool, true, false, Option, none, some, [], ◌∷◌, ◌==◌,
  if◌then◌else◌, arith, length, Text, codes,
}
use mathlib.Core.Path.{subst}
use mlb_baseball.Prelude.Sides.{Team, side, put_side}
use mlb_baseball.Game.Records.{Appearance, Game}
use mlb_baseball.Game.Container.{info_lookup, starter_find}
use mlb_baseball.Iter.Record.{ok}
use mlb_baseball.Iter.Rounds.{ok-injective}
use mlb_baseball.Box.Record.{Stat, stat_code, Boxscore, new_box, assign, no_counts}
use mlb_baseball.Box.Find.{deref}
use mlb_baseball.Box.Substitute.{put_chain}
use mlb_baseball.Box.Starters.{
  starter, starting_pitcher, enter_starter, enter_slot, enter_slots, enter_starters,
}
use mlb_baseball.Box.Balance.Totals.{total, sides_total, batting_total, pitching_total}
use mlb_baseball.Box.Balance.Changes.{
  shared_code, counted_code, is_shared, is_counted, shared-IsCounted, listed-IsCounted,
}
use mlb_baseball.Box.Balance.Tally.{IsTallied}
use mlb_baseball.Box.Balance.Rules.{Leads, Leads-ok, Leads-then, Leads-deref}
use mlb_baseball.Box.Balance.Entries.{assign_other, put_chain-rows, batting_total-put_chain}

-- A box score in which nothing is counted yet
record IsBlank (box : Boxscore) : Type 0 where
  batting : (q : Stat) → is_counted q ≡ true → batting_total q box ≡ 0
  pitching : (q : Stat) → is_shared q ≡ true → pitching_total q box ≡ 0
  notable : (q : Stat) → length (box.notable q) ≡ 0
  rows : (t : Team) → length (side box.slots t) ≡ 10

blank-IsTallied : (box : Boxscore) → IsBlank box → IsTallied box
blank-IsTallied box b = record {
  shared = λ q h. b.batting q (shared-IsCounted q h) ∙ sym (b.pitching q h);
  listed = λ q h. b.notable q ∙ sym (b.batting q (listed-IsCounted q h));
  rows = b.rows;
}

new_box-IsBlank : IsBlank new_box
unfolding batting_total pitching_total
new_box-IsBlank = record {
  batting = λ q h. refl;
  pitching = λ q h. refl;
  notable = λ q. refl;
  rows = new_rows;
}
  where
    new_rows : (t : Team) → length (side new_box.slots t) ≡ 10
    new_rows Team.visitors = refl
    new_rows Team.home = refl

starter_chain-IsBlank :
    (i : ℕ) (t : Team) (a : Appearance) (date : Text) (box : Boxscore)
    → i ≤ 9
    → IsBlank box
    → IsBlank (put_chain i t (starter a date ∷ []) box)
starter_chain-IsBlank i t a date box l b = record {
  batting = λ q h.
      (let none_yet : (starter a date).batting q ≡ 0 =
          unfold starter in
          assign_other counted_code Stat.g q 1 no_counts (unfold stat_code in refl)
            (unfold is_counted in h) in
        omega (
          arith,
          batting_total-put_chain q i t (starter a date ∷ []) box (omega (arith, l, b.rows t)),
          b.batting q h,
          none_yet,
        ));
  pitching = λ q h. unfold pitching_total in b.pitching q h;
  notable = b.notable;
  rows = λ u. put_chain-rows i t (starter a date ∷ []) box u ∙ b.rows u;
}

starting_pitcher-none :
    (a : Appearance) (q : Stat) → is_shared q ≡ true → (starting_pitcher a).pitching q ≡ 0
unfolding starting_pitcher is_shared
starting_pitcher-none a q h =
    assign_other shared_code Stat.gs q 1 (assign Stat.g 1 no_counts) refl h
    ∙ assign_other shared_code Stat.g q 1 no_counts refl h

starting_pitcher-IsBlank :
    (t : Team) (a : Appearance) (box : Boxscore)
    → IsBlank box
    → IsBlank (record box { pitchers = put_side box.pitchers t (starting_pitcher a ∷ []) })
starting_pitcher-IsBlank t a box b = record {
  batting = λ q h. unfold batting_total in b.batting q h;
  pitching = λ q h.
      unfold pitching_total in
      by_team t q (starting_pitcher-none a q h) (unfold pitching_total in b.pitching q h);
  notable = b.notable;
  rows = b.rows;
}
  where
    by_team :
        (u : Team) (q : Stat)
        → (starting_pitcher a).pitching q ≡ 0
        → sides_total (total (λ x. x.pitching q)) box.pitchers ≡ 0
        → sides_total
            (total (λ x. x.pitching q))
            (put_side box.pitchers u (starting_pitcher a ∷ []))
          ≡ 0
    by_team Team.visitors q e k = omega (arith, e, k)
    by_team Team.home q e k = omega (arith, e, k)

enter_starter-IsBlank :
    (i : ℕ) (t : Team) (date : Text) (a : Appearance) (box : Boxscore)
    → i ≤ 9
    → IsBlank box
    → IsBlank (enter_starter i t date a box)
unfolding enter_starter
enter_starter-IsBlank i t date a box l b = from (a.pos == 1)
  where
    box₁ : Boxscore
    box₁ = put_chain i t (starter a date ∷ []) box

    from :
        (c : Bool)
        → IsBlank (
            if c
            then record box₁ { pitchers = put_side box₁.pitchers t (starting_pitcher a ∷ []) }
            else box₁)
    from true = starting_pitcher-IsBlank t a box₁ (starter_chain-IsBlank i t a date box l b)
    from false = starter_chain-IsBlank i t a date box l b

enter_slot-IsBlank :
    (g : Game) (t : Team) (i : ℕ) → i ≤ 9 → Leads IsBlank IsBlank (enter_slot g t i)
unfolding enter_slot
enter_slot-IsBlank g t i l = record {
  run = λ box box' b h. from (starter_find t i g.starters) box box' b h;
}
  where
    entering :
        (a : Appearance)
        → Leads IsBlank IsBlank
            (deref (info_lookup (codes "date") g) (λ date box₁. ok (enter_starter i t date a box₁)))
    entering a = Leads-deref (info_lookup (codes "date") g) (λ date. record {
      run =
          λ box box' b h. subst IsBlank (ok-injective h) (enter_starter-IsBlank i t date a box l b);
    })

    from :
        (o : Option Appearance) (box box' : Boxscore)
        → IsBlank box
        → elim o [
          | none ↦ ok box
          | some a ↦
              deref
                (info_lookup (codes "date") g)
                (λ date box₁. ok (enter_starter i t date a box₁))
                box
        ]
          ≡ ok box'
        → IsBlank box'
    from none box box' b h = subst IsBlank (ok-injective h) b
    from (some a) box box' b h = (entering a).run box box' b h

enter_slots-IsBlank :
    (g : Game) (t : Team) (n i : ℕ) → n + i ≤ 10 → Leads IsBlank IsBlank (enter_slots g t n i)
unfolding enter_slots
enter_slots-IsBlank g t zero i l = Leads-ok
enter_slots-IsBlank g t (suc n) i l =
    Leads-then (enter_slot-IsBlank g t i (omega (arith, l)))
      (enter_slots-IsBlank g t n (i + 1) (omega (arith, l)))

pub enter_starters-IsTallied :
    (g : Game) {box : Boxscore} → enter_starters g new_box ≡ ok box → IsTallied box
unfolding enter_starters
enter_starters-IsTallied g {box} h =
    let both =
      Leads-then (enter_slots-IsBlank g Team.visitors 10 0 (omega arith))
        (enter_slots-IsBlank g Team.home 10 0 (omega arith)) in
    blank-IsTallied box (both.run new_box box new_box-IsBlank h)
