-- ===== src/Play/Tests.antt =====
-- Play texts of cw/parse.py run through the model.
use mlb_baseball.Prelude.{◌+◌, ◌≤◌, ◌≡◌, refl, Bool, true, false, negsuc, Text, codes, []}
use mlb_baseball.Play.Bases.{first}
use mlb_baseball.Play.Event.{EventData, empty_event, outs_on_play, runs_on_play}
use mlb_baseball.Play.Parse.{Parsed, parsed, failed, parse_event}
use mlb_baseball.Play.Case.{parse_event-upper}
use mlb_baseball.Play.Run.{run_text}
use mlb_baseball.Play.Settled.{IsSettled}
use mlb_baseball.Play.Settled.Success.{parse_event-IsSettled}
use mlb_baseball.Play.Settled.Bounds.{outs_on_play-runs_on_play}
use mlb_baseball.Play.Progress.Total.{Finishes, parse_event-Finishes}

abbrev parsed_data : Parsed → EventData
parsed_data (parsed e b) = e
parsed_data (failed x) = empty_event

-- A double play with two runners who move up
abbrev double_play : Text
double_play = codes "64(1)3/GDP/G6.2-3;3-H"

double_play_data : EventData
unfolding run_text
double_play_data = parsed_data (parse_event double_play)

double_play_parses : parse_event double_play ≡ parsed double_play_data true
unfolding run_text double_play_data
double_play_parses = refl

double_play_advance :
    double_play_data.advance ≡ record { at_batter = 0; at_first = 0; at_second = 3; at_third = 4 }
unfolding run_text double_play_data
double_play_advance = refl

double_play_outs : outs_on_play double_play_data ≡ 2
unfolding run_text double_play_data outs_on_play
double_play_outs = refl

-- A play that is cut short does not parse.
abbrev verdict : Parsed → Bool
verdict (parsed e b) = b
verdict (failed x) = false

half_advance : verdict (parse_event (codes "S8.1-")) ≡ false
unfolding run_text
half_advance = refl

-- The empty text parses as an out, of which no fielder is known.
no_text : verdict (parse_event []) ≡ true
unfolding run_text
no_text = refl

no_text_fielder : (parsed_data (parse_event [])).fielded_by ≡ negsuc 47
unfolding run_text
no_text_fielder = refl

parse_event-IsSettled_example : IsSettled first double_play_data
parse_event-IsSettled_example =
    parse_event-IsSettled double_play double_play_data double_play_parses first

outs_on_play-runs_on_play_example :
    outs_on_play double_play_data + runs_on_play double_play_data ≤ 4
outs_on_play-runs_on_play_example =
    outs_on_play-runs_on_play double_play double_play_data double_play_parses

parse_event-Finishes_example : Finishes (parse_event double_play)
parse_event-Finishes_example = parse_event-Finishes double_play

parse_event-upper_example : parse_event (codes "64(1)3/gdp/g6.2-3;3-h") ≡ parse_event double_play
parse_event-upper_example = parse_event-upper (codes "64(1)3/gdp/g6.2-3;3-h") double_play refl
