-- ===== src/Box/Balance/Tally.antt =====
-- The tallies of a box score (cw/box.py): what batters and pitchers share, and the listed events.
use mlb_baseball.Prelude.{
  List, ℕ, ◌+◌, ◌≡◌, refl, ◌∙◌, Bool, true, false, Option, none, some, length, arith,
}
use mathlib.Core.Path.{subst}
use mlb_baseball.Prelude.Sides.{Team, Sides, side}
use mlb_baseball.State.Update.{is_some}
use mlb_baseball.Iter.Record.{ok}
use mlb_baseball.Iter.Rounds.{ok-injective}
use mlb_baseball.Box.Record.{Stat, BoxEvent, Boxscore, add_event}
use mlb_baseball.Box.Find.{
  ◌then◌, Place, PitcherPlace, player_at, pitcher_at, change_player, more_batting, more_pitching,
  count_batting, count_pitching, note,
}
use mlb_baseball.Box.Pitches.{count_both}
use mlb_baseball.Box.Batter.{count_noted}
use mlb_baseball.Box.Balance.Totals.{batting_total, pitching_total, gain, add-gain}
use mlb_baseball.Box.Balance.Changes.{
  shared_code, listed_code, counted_code, is_shared, is_listed, is_counted, shared-IsCounted,
  listed-IsCounted, Gains, nothing, IsChanged, both_changes, player-IsChanged, player-kept,
  pitcher-IsChanged, pitcher-kept, event-IsChanged, same-IsChanged, gain_none,
}
use mlb_baseball.Box.Balance.Rules.{Leads}

-- The rows of a line score
abbrev pub Rows : Type 0
Rows = List (Sides (Option ℕ))

-- The players' counters and the pitchers' agree, and so do the lists of events and the counters of
-- their names; each side has ten slots.
pub record IsTallied (box : Boxscore) : Type 0 where
  pub shared : (q : Stat) → is_shared q ≡ true → batting_total q box ≡ pitching_total q box
  pub listed : (q : Stat) → is_listed q ≡ true → length (box.notable q) ≡ batting_total q box
  pub rows : (t : Team) → length (side box.slots t) ≡ 10

abbrev pub has_player : Option Place → Boxscore → Bool
has_player none box = true
has_player (some w) box = is_some (player_at w box)

abbrev pub has_pitcher : Option PitcherPlace → Boxscore → Bool
has_pitcher none box = true
has_pitcher (some w) box = is_some (pitcher_at w box)

-- A tallied box score that shows the line score, with the player and the pitcher that a play is charged to
pub record IsHeld (line : Rows) (who : Option Place) (res : Option PitcherPlace) (box : Boxscore)
    : Type 0 where
  pub tallied : IsTallied box
  pub shown : box.linescore ≡ line
  pub player : has_player who box ≡ true
  pub pitcher : has_pitcher res box ≡ true

-- What is gained keeps the tallies.
pub record IsBalanced (b p e : Gains) : Type 0 where
  pub shared : (q : Stat) → is_shared q ≡ true → b q ≡ p q
  pub listed : (q : Stat) → is_listed q ≡ true → e q ≡ b q

changed-IsTallied :
    {b p e : Gains} {box box' : Boxscore}
    → IsChanged b p e box box'
    → IsBalanced b p e
    → IsTallied box
    → IsTallied box'
changed-IsTallied c d t = record {
  shared = λ q h.
      omega (arith, c.batting q (shared-IsCounted q h), c.pitching q h, d.shared q h, t.shared q h);
  listed = λ q h.
      omega (arith, c.batting q (listed-IsCounted q h), c.notable q h, d.listed q h, t.listed q h);
  rows = λ s. c.rows s ∙ t.rows s;
}

module _ {line : Rows} {who : Option Place} {res : Option PitcherPlace} where
  pub changed-IsHeld :
      {b p e : Gains} {box box' : Boxscore}
      → IsChanged b p e box box'
      → IsBalanced b p e
      → IsHeld line who res box
      → IsHeld line who res box'
  changed-IsHeld {box = box} {box' = box'} c d t = record {
    tallied = changed-IsTallied c d t.tallied;
    shown = c.line ∙ t.shown;
    player = player_kept who c.players t.player;
    pitcher = pitcher_kept res c.pitchers t.pitcher;
  }
    where
      player_kept :
          (o : Option Place)
          → ((w : Place) → is_some (player_at w box') ≡ is_some (player_at w box))
          → has_player o box ≡ true
          → has_player o box' ≡ true
      player_kept none f h = refl
      player_kept (some w) f h = f w ∙ h

      pitcher_kept :
          (o : Option PitcherPlace)
          → ((w : PitcherPlace) → is_some (pitcher_at w box') ≡ is_some (pitcher_at w box))
          → has_pitcher o box ≡ true
          → has_pitcher o box' ≡ true
      pitcher_kept none f h = refl
      pitcher_kept (some w) f h = f w ∙ h

  -- A step that changes none of the counters
  pub neutral-IsHeld :
      {box box' : Boxscore}
      → IsChanged nothing nothing nothing box box'
      → IsHeld line who res box
      → IsHeld line who res box'
  neutral-IsHeld c t = changed-IsHeld c (record { shared = λ q h. refl; listed = λ q h. refl }) t

  -- A counter of batting alone
  pub Leads-count_batting :
      (s : Stat) (n : ℕ) (w : Place)
      → is_counted s ≡ false
      → Leads (IsHeld line who res) (IsHeld line who res) (count_batting s n w)
  unfolding count_batting is_counted
  Leads-count_batting s n w k = record {
    run = λ box box' t h.
        (subst (IsHeld line who res) (ok-injective h) (
          neutral-IsHeld
            (player-kept w (more_batting s n) box
              (λ p q l. omega (arith, add-gain s n p.batting q, gain_none counted_code s q n k l)))
            t));
  }

  -- A counter of pitching alone
  pub Leads-count_pitching :
      (s : Stat) (n : ℕ) (w : PitcherPlace)
      → is_shared s ≡ false
      → Leads (IsHeld line who res) (IsHeld line who res) (count_pitching s n w)
  unfolding count_pitching is_shared
  Leads-count_pitching s n w k = record {
    run = λ box box' t h.
        (subst (IsHeld line who res) (ok-injective h) (
          neutral-IsHeld
            (pitcher-kept w (more_pitching s n) box
              (λ p q l. omega (arith, add-gain s n p.pitching q, gain_none shared_code s q n k l)))
            t));
  }

  -- An event of a list whose name is no counter of batting
  pub Leads-note :
      (s : Stat) (ev : BoxEvent)
      → is_listed s ≡ false
      → Leads (IsHeld line who res) (IsHeld line who res) (note s ev)
  unfolding note is_listed
  Leads-note s ev k = record {
    run = λ box box' t h.
        (subst (IsHeld line who res) (ok-injective h) (
          changed-IsHeld (event-IsChanged s ev box)
            (record { shared = λ q l. refl; listed = λ q l. gain_none listed_code s q 1 k l }) t));
  }

module _ {line : Rows} {who : Option Place} {res : Option PitcherPlace} where
  -- An action that returns a box score with the same entries
  pub Leads-other :
      (f : Boxscore → Boxscore)
      → ((box : Boxscore) → (f box).slots ≡ box.slots)
      → ((box : Boxscore) → (f box).pitchers ≡ box.pitchers)
      → ((box : Boxscore) → (f box).notable ≡ box.notable)
      → ((box : Boxscore) → (f box).linescore ≡ box.linescore)
      → Leads (IsHeld line who res) (IsHeld line who res) (λ box. ok (f box))
  Leads-other f g h k l = record {
    run = λ box box' t e.
        subst (IsHeld line who res) (ok-injective e)
          (neutral-IsHeld (same-IsChanged (g box) (h box) (k box) (l box)) t);
  }

-- The same with a batter and a pitcher at hand
abbrev pub IsFound : Rows → Place → PitcherPlace → Boxscore → Type 0
IsFound line who res = IsHeld line (some who) (some res)

module _ (who : Place) (res : PitcherPlace) where
  both-IsChanged :
      (s : Stat) (n : ℕ) (box box' : Boxscore)
      → is_some (player_at who box) ≡ true
      → is_some (pitcher_at res box) ≡ true
      → count_both s n who res box ≡ ok box'
      → IsChanged (λ q. gain s n q + 0) (λ q. 0 + gain s n q) (λ q. 0 + 0) box box'
  unfolding count_both count_batting count_pitching
  both-IsChanged s n box box' there there' h =
      let mid = change_player who (more_batting s n) box in
      let c =
        player-IsChanged who (more_batting s n) (gain s n) box (λ p q. add-gain s n p.batting q)
          there in
      let d =
        pitcher-IsChanged res (more_pitching s n) (gain s n) mid (λ p q. add-gain s n p.pitching q)
          (c.pitchers res ∙ there') in
      subst (IsChanged (λ q. gain s n q + 0) (λ q. 0 + gain s n q) (λ q. 0 + 0) box)
        (ok-injective h) (both_changes c d)

module _ {line : Rows} {who : Place} {res : PitcherPlace} where
  -- A counter of the batter and of the pitcher
  pub Leads-count_both :
      (s : Stat) (n : ℕ)
      → is_listed s ≡ false
      → Leads (IsFound line who res) (IsFound line who res) (count_both s n who res)
  unfolding is_listed
  Leads-count_both s n k = record {
    run = λ box box' t h.
        changed-IsHeld (both-IsChanged who res s n box box' t.player t.pitcher h)
          (record {
            shared = λ q l. omega arith;
            listed = λ q l. omega (arith, gain_none listed_code s q n k l);
          })
          t;
  }

  -- The same with an event of the counter's name
  pub Leads-count_noted :
      (s : Stat) (ev : BoxEvent)
      → Leads (IsFound line who res) (IsFound line who res) (count_noted s ev who res)
  unfolding count_noted note
  Leads-count_noted s ev = record {
    run = λ box box' t h.
        (let c = event-IsChanged s ev box in
          changed-IsHeld
            (both_changes c (
              both-IsChanged who res s 1 (add_event s ev box) box' (c.players who ∙ t.player)
                (c.pitchers res ∙ t.pitcher) h))
            (record { shared = λ q l. omega arith; listed = λ q l. omega arith }) t);
  }

-- An event of a runner and its counter
pub Leads-note_batting :
    {line : Rows}
    → {who : Place} {res : Option PitcherPlace} (s : Stat) (ev : BoxEvent) → is_shared s ≡ false
    → Leads
        (IsHeld line (some who) res)
        (IsHeld line (some who) res)
        (note s ev then count_batting s 1 who)
unfolding note count_batting is_shared
Leads-note_batting {line} {who} {res} s ev k = record {
  run = λ box box' t h.
      (let c = event-IsChanged s ev box in
        let d =
          player-IsChanged who (more_batting s 1) (gain s 1) (add_event s ev box)
            (λ p q. add-gain s 1 p.batting q) (c.players who ∙ t.player) in
        subst (IsHeld line (some who) res) (ok-injective h) (
          changed-IsHeld (both_changes c d)
            (record {
              shared = λ q l. omega (arith, gain_none shared_code s q 1 k l);
              listed = λ q l. omega arith;
            })
            t));
}
