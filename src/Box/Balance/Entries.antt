-- ===== src/Box/Balance/Entries.antt =====
-- `add_substitute` and `enter_starters` (cw/box.py) and the tallies.
use mlb_baseball.Prelude.{
  ℕ, zero, suc, ◌+◌, ◌≤◌, ◌<◌, ◌≡◌, refl, ap, ◌∙◌, sym, Bool, true, false, ◌&&◌, List, [], ◌∷◌,
  ◌==◌, get_or, set, length, length-set, if◌then◌else◌, arith, not, text_eq,
}
use mlb_baseball.Prelude.Sides.{Team, side, put_side}
use mlb_baseball.Game.Records.{Appearance}
use mlb_baseball.State.Record.{State}
use mlb_baseball.Box.Record.{
  Stat, stat_code, same_stat, Counts, BoxPlayer, Boxscore, assign, no_counts,
}
use mlb_baseball.Box.Substitute.{chain, put_chain, entered, entered_for, move_pitcher, join, enter}
use mlb_baseball.Box.Balance.Totals.{total, sides_total, batting_total, pitching_total}
use mlb_baseball.Box.Balance.Changes.{
  counted_code, is_shared, is_counted, shared-IsCounted, listed-IsCounted,
}
use mlb_baseball.Box.Balance.Tally.{IsTallied}

-- A new chain of a slot, by the weights of the entries
total-set :
    {A : Type 0} (w : List A → ℕ) (ls : List (List A)) (i : ℕ) (c : List A)
    → i < length ls
    → total w (set ls i c) + w (get_or ls i []) ≡ total w ls + w c
total-set w [] i c h = absurd (omega (arith, h))
total-set w (l ∷ ls) zero c h = omega arith
total-set w (l ∷ ls) (suc i) c h = omega (arith, total-set w ls i c (omega (arith, h)))

get_or-set_other :
    {A : Type 0} (ls : List A) (i j : ℕ) (c d : A)
    → (i == j) ≡ false
    → get_or (set ls i c) j d ≡ get_or ls j d
get_or-set_other [] i j c d h = refl
get_or-set_other (x ∷ ls) zero zero c d h = cc
get_or-set_other (x ∷ ls) zero (suc j) c d h = refl
get_or-set_other (x ∷ ls) (suc i) zero c d h = refl
get_or-set_other (x ∷ ls) (suc i) (suc j) c d h = get_or-set_other ls i j c d (ground (arith, h))

-- What the entries of a slot add to a counter
abbrev weight : Stat → List BoxPlayer → ℕ
weight q = total (λ p. p.batting q)

-- The slots of a side, the others' and the pitchers kept
pub put_chain-rows :
    (i : ℕ) (t : Team) (c : List BoxPlayer) (box : Boxscore) (u : Team)
    → length (side (put_chain i t c box).slots u) ≡ length (side box.slots u)
put_chain-rows i t c box u = by_team t u
  where
    by_team :
        (t u : Team)
        → length (side (put_side box.slots t (set (side box.slots t) i c)) u)
          ≡ length (side box.slots u)
    by_team Team.visitors Team.visitors = length-set box.slots.away_side i c
    by_team Team.visitors Team.home = refl
    by_team Team.home Team.visitors = refl
    by_team Team.home Team.home = length-set box.slots.home_side i c

pub batting_total-put_chain :
    (q : Stat) (i : ℕ) (t : Team) (c : List BoxPlayer) (box : Boxscore)
    → i < length (side box.slots t)
    → batting_total q (put_chain i t c box) + weight q (chain i t box)
      ≡ batting_total q box + weight q c
unfolding batting_total
batting_total-put_chain q i t c box h = by_team t h
  where
    by_team :
        (t : Team)
        → i < length (side box.slots t)
        → sides_total (total (weight q)) (put_side box.slots t (set (side box.slots t) i c))
            + weight q (get_or (side box.slots t) i [])
          ≡ sides_total (total (weight q)) box.slots + weight q c
    by_team Team.visitors k = omega (arith, total-set (weight q) box.slots.away_side i c k)
    by_team Team.home k = omega (arith, total-set (weight q) box.slots.home_side i c k)

-- Box scores with the same totals
pub same_totals-IsTallied :
    (box box' : Boxscore)
    → ((q : Stat) → is_counted q ≡ true → batting_total q box' ≡ batting_total q box)
    → ((q : Stat) → is_shared q ≡ true → pitching_total q box' ≡ pitching_total q box)
    → ((q : Stat) → box'.notable q ≡ box.notable q)
    → ((t : Team) → length (side box'.slots t) ≡ length (side box.slots t))
    → IsTallied box
    → IsTallied box'
same_totals-IsTallied box box' b p e r t = record {
  shared = λ q h. b q (shared-IsCounted q h) ∙ t.shared q h ∙ sym (p q h);
  listed = λ q h. ap length (e q) ∙ t.listed q h ∙ sym (b q (listed-IsCounted q h));
  rows = λ u. r u ∙ t.rows u;
}

-- Counters that are given another value, of none of the kind
pub assign_other :
    (kind : ℕ → Bool) (s q : Stat) (n : ℕ) (c : Counts)
    → kind (stat_code s) ≡ false
    → kind (stat_code q) ≡ true
    → assign s n c q ≡ c q
unfolding assign same_stat
assign_other kind s q n c h k = from (stat_code s == stat_code q) refl
  where
    from : (b : Bool) → (stat_code s == stat_code q) ≡ b → (if b then n else c q) ≡ c q
    from false e = refl
    from true e = (let r : stat_code s ≡ stat_code q = ground arith in cc)

entered-none :
    (sub : Appearance) (s : State) (q : Stat) → is_counted q ≡ true → (entered sub s).batting q ≡ 0
unfolding entered is_counted
entered-none sub s q h = assign_other counted_code Stat.g q 1 no_counts refl h

entered_for-none :
    (sub : Appearance) (s : State) (q : Stat)
    → is_counted q ≡ true
    → (entered_for sub s).batting q ≡ 0
unfolding entered_for
entered_for-none sub s q h =
    by_position (sub.pos == 11) (sub.pos == 12) (entered sub s) (entered-none sub s q h)
  where
    by_position :
        (b c : Bool) (p : BoxPlayer)
        → p.batting q ≡ 0
        → (if b
              then record p { ph_inn = s.inning }
              else if c
              then record p { pr_inn = s.inning }
              else p).batting
            q
          ≡ 0
    by_position true c p k = k
    by_position false true p k = k
    by_position false false p k = k

-- A chain of the same weight
put_chain-IsTallied :
    (i : ℕ) (t : Team) (c : List BoxPlayer) (box : Boxscore)
    → i ≤ 9
    → ((q : Stat) → is_counted q ≡ true → weight q c ≡ weight q (chain i t box))
    → IsTallied box
    → IsTallied (put_chain i t c box)
put_chain-IsTallied i t c box l w k =
    same_totals-IsTallied box (put_chain i t c box)
      (λ q h.
        omega (arith, batting_total-put_chain q i t c box (omega (arith, l, k.rows t)), w q h))
      (λ q h. unfold pitching_total in refl) (λ q. refl) (put_chain-rows i t c box) k

join-IsTallied :
    (sub : Appearance) (s : State) (current : BoxPlayer) (box : Boxscore)
    → sub.slot ≤ 9
    → IsTallied box
    → IsTallied (join sub s current box)
unfolding join
join-IsTallied sub s current box l k = from (text_eq sub.player_id current.player_id)
  where
    from :
        (c : Bool)
        → IsTallied (
            if c
            then box
            else put_chain sub.slot sub.team (entered_for sub s ∷ chain sub.slot sub.team box) box)
    from true = k
    from false =
        put_chain-IsTallied sub.slot sub.team _ box l
          (λ q h. omega (arith, entered_for-none sub s q h)) k

chain-put_other :
    (i j : ℕ) (t : Team) (c : List BoxPlayer) (box : Boxscore)
    → (i == j) ≡ false
    → chain j t (put_chain i t c box) ≡ chain j t box
chain-put_other i j Team.visitors c box h = get_or-set_other box.slots.away_side i j c [] h
chain-put_other i j Team.home c box h = get_or-set_other box.slots.home_side i j c [] h

move_pitcher-IsTallied :
    (sub : Appearance) (p : BoxPlayer) (before : List BoxPlayer) (box : Boxscore)
    → sub.slot ≤ 9
    → (0 == sub.slot) ≡ false
    → chain 0 sub.team box ≡ p ∷ before
    → IsTallied box
    → IsTallied (move_pitcher sub p before box)
unfolding move_pitcher
move_pitcher-IsTallied sub p before box l n e k =
    let t = sub.team in
    let mid = put_chain 0 t before box in
    let all = p ∷ chain sub.slot t box in
    let other = chain-put_other 0 sub.slot t before box n in
    same_totals-IsTallied box (put_chain sub.slot t all mid)
      (λ q h.
        (let first_step = batting_total-put_chain q 0 t before box (omega (arith, k.rows t)) in
          let second_step =
            batting_total-put_chain q sub.slot t all mid
              (omega (arith, l, k.rows t, put_chain-rows 0 t before box t)) in
          omega (arith, first_step, second_step, ap (weight q) e, ap (weight q) other)))
      (λ q h. unfold pitching_total in refl) (λ q. refl)
      (λ u. put_chain-rows sub.slot t all mid u ∙ put_chain-rows 0 t before box u) k

-- The entry of a substitute keeps the tallies.
pub enter-IsTallied :
    (sub : Appearance) (s : State) (c slot0 : List BoxPlayer) (box : Boxscore)
    → sub.slot ≤ 9
    → chain sub.slot sub.team box ≡ c
    → chain 0 sub.team box ≡ slot0
    → IsTallied box
    → IsTallied (enter sub s c slot0 box)
unfolding enter
enter-IsTallied sub s [] slot0 box l e e₀ k =
    put_chain-IsTallied sub.slot sub.team (entered sub s ∷ []) box l
      (λ q h. omega (arith, entered-none sub s q h, ap (weight q) e)) k
enter-IsTallied sub s (cur ∷ c) [] box l e e₀ k = join-IsTallied sub s cur box l k
enter-IsTallied sub s (cur ∷ c) (p ∷ before) box l e e₀ k =
    from (sub.slot == 0) (text_eq p.player_id sub.player_id) refl
  where
    from :
        (b d : Bool)
        → (sub.slot == 0) ≡ b
        → IsTallied (if not b && d then move_pitcher sub p before box else join sub s cur box)
    from true d h = join-IsTallied sub s cur box l k
    from false false h = join-IsTallied sub s cur box l k
    from false true h = move_pitcher-IsTallied sub p before box l (ground (arith, h)) e₀ k

-- The entry of a substitute keeps the line score.
pub enter-line :
    (sub : Appearance) (s : State) (c slot0 : List BoxPlayer) (box : Boxscore)
    → (enter sub s c slot0 box).linescore ≡ box.linescore
unfolding enter move_pitcher join
enter-line sub s [] slot0 box = refl
enter-line sub s (cur ∷ c) [] box = joined (text_eq sub.player_id cur.player_id)
  where
    joined :
        (b : Bool)
        → (if b
            then box
            else put_chain sub.slot sub.team
                (entered_for sub s ∷ chain sub.slot sub.team box)
                box).linescore
          ≡ box.linescore
    joined true = refl
    joined false = refl
enter-line sub s (cur ∷ c) (p ∷ before) box = ground arith
