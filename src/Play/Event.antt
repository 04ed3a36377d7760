-- ===== src/Play/Event.antt =====
-- cw/parse.py: the event codes, `EventData` and the predicates on it.
-- A 0/1 flag is a `Bool`. Counters that the code may decrement, `rbi_flag` and `fielded_by` are
-- signed; arrays keep the lengths that the source gives them.
use mlb_baseball.Prelude.{
  ℕ, Bool, false, not, ◌&&◌, ◌||◌, List, [], ◌∷◌, replicate, ℤ, pos, leb, ◌==◌, Text, codes,
  is_empty, has_char, between, take, if◌then◌else◌, leb_ℤ,
}
use mlb_baseball.Play.Bases.{Base, Bases, all_bases, on, put_on, count_bases}

-- `class Ev`
pub data Ev : Type 0 where
  unknown no_event generic_out strikeout stolen_base indifference caught_stealing pickoff_error : Ev
  pickoff wild_pitch passed_ball balk other_advance foul_error walk intentional_walk : Ev
  hit_by_pitch interference error fielders_choice single double triple home_run missing_play : Ev

unfoldable pub ev_code : Ev → ℕ
ev_code Ev.unknown = 0
ev_code Ev.no_event = 1
ev_code Ev.generic_out = 2
ev_code Ev.strikeout = 3
ev_code Ev.stolen_base = 4
ev_code Ev.indifference = 5
ev_code Ev.caught_stealing = 6
ev_code Ev.pickoff_error = 7
ev_code Ev.pickoff = 8
ev_code Ev.wild_pitch = 9
ev_code Ev.passed_ball = 10
ev_code Ev.balk = 11
ev_code Ev.other_advance = 12
ev_code Ev.foul_error = 13
ev_code Ev.walk = 14
ev_code Ev.intentional_walk = 15
ev_code Ev.hit_by_pitch = 16
ev_code Ev.interference = 17
ev_code Ev.error = 18
ev_code Ev.fielders_choice = 19
ev_code Ev.single = 20
ev_code Ev.double = 21
ev_code Ev.triple = 22
ev_code Ev.home_run = 23
ev_code Ev.missing_play = 24

-- `a == b` and `lo <= a <= hi` on an `IntEnum`
unfoldable pub is_ev : Ev → Ev → Bool
unfolding ev_code
is_ev a b = ev_code a == ev_code b

unfoldable pub ev_between : Ev → Ev → Ev → Bool
unfolding ev_code
ev_between lo hi a = between (ev_code lo) (ev_code hi) (ev_code a)

pub record EventData : Type 0 where
  pub event_type : Ev
  pub advance : Bases ℕ
  pub rbi_flag : Bases ℤ
  pub fc_flag : Bases Bool
  pub muff_flag : Bases Bool
  pub play : Bases Text
  pub sh_flag : Bool
  pub sf_flag : Bool
  pub dp_flag : Bool
  pub gdp_flag : Bool
  pub tp_flag : Bool
  pub wp_flag : Bool
  pub pb_flag : Bool
  pub foul_flag : Bool
  pub bunt_flag : Bool
  pub force_flag : Bool
  pub sb_flag : Bases Bool
  pub cs_flag : Bases Bool
  pub po_flag : Bases Bool
  pub fielded_by : ℤ
  pub num_putouts : ℤ
  pub num_assists : ℕ
  pub num_errors : ℕ
  pub num_touches : ℤ
  pub putouts : List ℕ
  pub assists : List ℕ
  pub errors : List ℕ
  pub touches : List ℕ
  pub error_types : List ℕ
  pub batted_ball_type : ℕ
  pub hit_location : Text

-- `_PUTOUTS, _ASSISTS, _ERRORS, _TOUCHES`
abbrev pub max_credits : ℕ
max_credits = 32

abbrev pub max_touches : ℕ
max_touches = 64

-- `EventData()`
abbrev pub empty_event : EventData
empty_event = record {
  event_type = Ev.unknown;
  advance = all_bases 0;
  rbi_flag = all_bases (pos 0);
  fc_flag = all_bases false;
  muff_flag = all_bases false;
  play = all_bases [];
  sh_flag = false;
  sf_flag = false;
  dp_flag = false;
  gdp_flag = false;
  tp_flag = false;
  wp_flag = false;
  pb_flag = false;
  foul_flag = false;
  bunt_flag = false;
  force_flag = false;
  sb_flag = all_bases false;
  cs_flag = all_bases false;
  po_flag = all_bases false;
  fielded_by = pos 0;
  num_putouts = pos 0;
  num_assists = 0;
  num_errors = 0;
  num_touches = pos 0;
  putouts = replicate max_credits 0;
  assists = replicate max_credits 0;
  errors = replicate max_credits 0;
  touches = replicate max_touches 0;
  error_types = replicate max_credits b'N';
  batted_ball_type = b' ';
  hit_location = [];
}

unfoldable pub is_batter : EventData → Bool
unfolding is_ev ev_between
is_batter e =
    is_ev e.event_type Ev.generic_out
    || is_ev e.event_type Ev.strikeout
    || ev_between Ev.walk Ev.home_run e.event_type

unfoldable pub is_official_ab : EventData → Bool
unfolding is_batter
is_official_ab e =
    if not (is_batter e)
    then false
    else if e.sh_flag || e.sf_flag
    then false
    else not (
        is_ev e.event_type Ev.walk
        || is_ev e.event_type Ev.intentional_walk
        || is_ev e.event_type Ev.hit_by_pitch
        || is_ev e.event_type Ev.interference)

unfoldable pub runner_put_out : EventData → Base → Bool
unfolding has_char
runner_put_out e b = not (is_empty (on e.play b)) && not (has_char b'E' (on e.play b))

unfoldable pub outs_on_play : EventData → ℕ
outs_on_play e = count_bases (runner_put_out e)

unfoldable pub runs_on_play : EventData → ℕ
runs_on_play e = count_bases (λ b. leb 4 (on e.advance b))

unfoldable pub rbi_on_play : EventData → ℕ
rbi_on_play e = count_bases (λ b. leb_ℤ (pos 1) (on e.rbi_flag b))

-- `_set_play`: `CW_STRLCPY` into `char[20]`
abbrev pub set_play : Base → Text → EventData → EventData
set_play b t e = record e { play = put_on e.play b (take 19 t) }

abbrev pub is_digit : ℕ → Bool
is_digit c = between b'0' b'9' c

abbrev pub is_fielder : ℕ → Bool
is_fielder c = between b'1' b'9' c || (c == b'?')

abbrev pub is_alpha : ℕ → Bool
is_alpha c = between b'A' b'Z' c || between b'a' b'z' c

abbrev pub throws : List Text
throws = codes "TH" ∷ codes "TH1" ∷ codes "TH2" ∷ codes "TH3" ∷ codes "THH" ∷ []
