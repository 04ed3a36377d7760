-- ===== src/Box/Record.antt =====
-- cw/box.py: the entries of a box score. The counters of `BoxBatting` and `BoxPitching` are kept by
-- their names, and what the code calls `bf`, `hb` of a pitcher stands under the batter's names `pa`,
-- `hp`, which are counted with it. `next` is not kept: it is the entry before in its chain.
use mlb_baseball.Prelude.{
  ℕ, zero, suc, ◌+◌, Bool, false, Option, none, List, [], ◌∷◌, ◌++◌, ℤ, pos, negsuc, replicate,
  ◌==◌, Text, if◌then◌else◌,
}
use mlb_baseball.Prelude.Sides.{Team, Sides, both_sides}

-- The names of the counters: first those that a batter and his pitcher share, then steals, then those
-- of batting or of pitching alone, and the names of the other lists of events
pub data Stat : Type 0 where
  pa ab r h bb so gdp xi hrslam pitches strikes : Stat
  b2 b3 hr ibb hp sh sf sb cs : Stat
  g bi bi2out lisp movedup : Stat
  gs cg sho gf outs er bk wp pk won lost sv inr inrs xb xbinn gb fb : Stat
  po err pb dp tp : Stat

unfoldable pub stat_code : Stat → ℕ
stat_code Stat.pa = 0
stat_code Stat.ab = 1
stat_code Stat.r = 2
stat_code Stat.h = 3
stat_code Stat.bb = 4
stat_code Stat.so = 5
stat_code Stat.gdp = 6
stat_code Stat.xi = 7
stat_code Stat.hrslam = 8
stat_code Stat.pitches = 9
stat_code Stat.strikes = 10
stat_code Stat.b2 = 11
stat_code Stat.b3 = 12
stat_code Stat.hr = 13
stat_code Stat.ibb = 14
stat_code Stat.hp = 15
stat_code Stat.sh = 16
stat_code Stat.sf = 17
stat_code Stat.sb = 18
stat_code Stat.cs = 19
stat_code Stat.g = 20
stat_code Stat.bi = 21
stat_code Stat.bi2out = 22
stat_code Stat.lisp = 23
stat_code Stat.movedup = 24
stat_code Stat.gs = 25
stat_code Stat.cg = 26
stat_code Stat.sho = 27
stat_code Stat.gf = 28
stat_code Stat.outs = 29
stat_code Stat.er = 30
stat_code Stat.bk = 31
stat_code Stat.wp = 32
stat_code Stat.pk = 33
stat_code Stat.won = 34
stat_code Stat.lost = 35
stat_code Stat.sv = 36
stat_code Stat.inr = 37
stat_code Stat.inrs = 38
stat_code Stat.xb = 39
stat_code Stat.xbinn = 40
stat_code Stat.gb = 41
stat_code Stat.fb = 42
stat_code Stat.po = 43
stat_code Stat.err = 44
stat_code Stat.pb = 45
stat_code Stat.dp = 46
stat_code Stat.tp = 47

unfoldable pub same_stat : Stat → Stat → Bool
unfolding stat_code
same_stat a b = stat_code a == stat_code b

abbrev pub Counts : Type 0
Counts = Stat → ℕ

abbrev pub no_counts : Counts
no_counts s = 0

-- `counts.s += n`
unfoldable pub add : Stat → ℕ → Counts → Counts
unfolding same_stat
add s n c q = if same_stat s q then c q + n else c q

-- `counts.s = n`
unfoldable pub assign : Stat → ℕ → Counts → Counts
unfolding same_stat
assign s n c q = if same_stat s q then n else c q

-- `BoxFielding`
pub record Fielding : Type 0 where
  pub played : Bool
  pub outs : ℕ
  pub bip : ℕ
  pub bf : ℕ
  pub po : ℕ
  pub a : ℕ
  pub e : ℕ
  pub dp : ℕ
  pub tp : ℕ
  pub pb : ℕ
  pub xi : ℕ

abbrev pub no_fielding : Fielding
no_fielding = record {
  played = false;
  outs = 0;
  bip = 0;
  bf = 0;
  po = 0;
  a = 0;
  e = 0;
  dp = 0;
  tp = 0;
  pb = 0;
  xi = 0;
}

-- `BoxPlayer`, without its links; the first `num_positions` of `positions` are the list.
pub record BoxPlayer : Type 0 where
  pub player_id : Text
  pub name : Text
  pub date : Text
  pub batting : Counts
  pub gw : ℤ
  pub ph_inn : ℕ
  pub pr_inn : ℕ
  pub start_position : ℤ
  pub positions : List ℕ
  pub fielding : List (Option Fielding)

abbrev pub new_player : Text → Text → BoxPlayer
new_player id name = record {
  player_id = id;
  name = name;
  date = [];
  batting = no_counts;
  gw = negsuc 0;
  ph_inn = 0;
  pr_inn = 0;
  start_position = negsuc 0;
  positions = [];
  fielding = replicate 10 none;
}

-- `BoxPitcher`, without its links
pub record BoxPitcher : Type 0 where
  pub player_id : Text
  pub name : Text
  pub pitching : Counts

abbrev pub new_pitcher : Text → Text → BoxPitcher
new_pitcher id name = record { player_id = id; name = name; pitching = no_counts }

-- `BoxEvent`; the players that are set, in the order of their places
pub record BoxEvent : Type 0 where
  pub players : List Text
  pub inning : ℕ
  pub half_inning : Team
  pub runners : ℤ
  pub pickoff : ℤ
  pub outs : ℤ
  pub location : Text

abbrev pub box_event : ℕ → Team → List Text → BoxEvent
box_event inning half players = record {
  players = players;
  inning = inning;
  half_inning = half;
  runners = negsuc 0;
  pickoff = negsuc 0;
  outs = negsuc 0;
  location = [];
}

-- `Boxscore`: a slot holds its current entry first and those before it behind; the row of an inning
-- has `none` for the -1 of a side that has not batted; `notable` has the sixteen lists of events.
pub record Boxscore : Type 0 where
  pub slots : Sides (List (List BoxPlayer))
  pub pitchers : Sides (List BoxPitcher)
  pub linescore : List (Sides (Option ℕ))
  pub score : Sides ℕ
  pub hits : Sides ℕ
  pub errors : Sides ℕ
  pub dp : Sides ℕ
  pub tp : Sides ℕ
  pub lob : Sides ℤ
  pub er : Sides ℕ
  pub risp_ab : Sides ℕ
  pub risp_h : Sides ℕ
  pub outs_at_end : ℕ
  pub walk_off : Bool
  pub notable : Stat → List BoxEvent

abbrev pub new_box : Boxscore
new_box = record {
  slots = both_sides (replicate 10 []);
  pitchers = both_sides [];
  linescore = replicate 50 (both_sides none);
  score = both_sides 0;
  hits = both_sides 0;
  errors = both_sides 0;
  dp = both_sides 0;
  tp = both_sides 0;
  lob = both_sides (pos 0);
  er = both_sides 0;
  risp_ab = both_sides 0;
  risp_h = both_sides 0;
  outs_at_end = 0;
  walk_off = false;
  notable = λ s. [];
}

-- `add_event`, with the event as the caller completes it
unfoldable pub add_event : Stat → BoxEvent → Boxscore → Boxscore
unfolding same_stat
add_event s ev box = record box {
  notable = λ q. if same_stat s q then box.notable q ++ ev ∷ [] else box.notable q;
}

-- `_inning_row`: the rows up to the inning's, made where there are none
unfoldable pub rows_to : ℕ → List (Sides (Option ℕ)) → List (Sides (Option ℕ))
rows_to zero [] = both_sides none ∷ []
rows_to zero (row ∷ l) = row ∷ l
rows_to (suc n) [] = both_sides none ∷ rows_to n []
rows_to (suc n) (row ∷ l) = row ∷ rows_to n l
