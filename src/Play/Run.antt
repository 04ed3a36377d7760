-- ===== src/Play/Run.antt =====
-- The parser of cw/parse.py, open for running it on a text.
use mlb_baseball.Prelude.{
  Text, get_item, set_item, text_eq, has_char, starts_with, contains, one_of,
}
use mlb_baseball.Play.Event.{
  ev_code, is_ev, ev_between, is_batter, is_official_ab, runner_put_out, outs_on_play, runs_on_play,
  rbi_on_play,
}
use mlb_baseball.Play.Cursor.{
  find, preprocess, start, next_char, advance_cursor, peek, until_nul, token_of, write_token,
  write_char,
}
use mlb_baseball.Play.Monad.{
  pure, raise, ◌>>=◌, symbol, read_parser, nextsym, token, set_token, put, read_event, change,
  try_change, try_read,
}
use mlb_baseball.Play.Arrays.{
  add_error, add_untyped_error, set_error_type, set_last_error_type, soften_error, add_assist,
  add_putout, add_touch, touch, drop_first_putout, shift_down, drop_batter_putout,
}
use mlb_baseball.Play.Credit.{
  fuel, primary_step, primary_loop, primary_event, fielders_step, fielders_loop, hit_fielder,
  dedupe_from, dedupe_assists, credit_muff, credit_putout, credit_step, credit_loop, credit_error,
  fielding_credit, flag_step, flag_loop, flag,
}
use mlb_baseball.Play.Location.{is_location, location, hit_description, trajectory_or_location}
use mlb_baseball.Play.Flags.{
  later_flag, apply_flag, flag_text_step, flag_text_loop, flags_step, flags_loop, all_flags,
}
use mlb_baseball.Play.Advance.{
  mark_muff, drop_strikeout_putout, charge_advance_error, skip_step, skip_loop, close_paren,
  advance_flag, word_modifier, modifier_step, modifier_loop, advance_modifier, modifiers_step,
  modifiers_loop, safe_advance, out_advance, runner_advance, advancement_step, advancement_loop,
  advancement,
}
use mlb_baseball.Play.Steals.{
  slashes_step, slashes_loop, slashes, mark_steal, unearned_steal, steal_base, second_steal,
  cs_error_credit, cs_safe, cs_unearned, cs_credit, cs_step, cs_loop, soften_rounds, steal_step,
  steal_loop, stolen_base, caught_stealing,
}
use mlb_baseball.Play.Pickoffs.{pickoff_caught_stealing, pickoff_error, pickoff_credit, pickoff}
use mlb_baseball.Play.Handlers.{
  closing_flags, skip_char, balk, safe_on_error, fielders_choice, foul_error, out_base, out_at,
  out_batter, or_raise, outs_step, outs_loop, finish_outs, generic_out, hit_by_pitch,
  interference_flag, interference,
}
use mlb_baseball.Play.Others.{
  indifference, advance_note, other_advance, passed_ball, wild_pitch, base_hit, digits_step,
  digits_loop, ground_rule_double, forgiving, plus_event, plus_tail, throw_flag, strikeout_flag,
  strikeout_credit, strikeout, walk_flag, walk,
}
use mlb_baseball.Play.Sanity.{
  default_advance, advance_hitter, reached_on_strikeout, clear_walk_rbi, soften_from,
  error_defaults, clear_from, clear_credits, settle_runner, settle_base, settle_bases,
  default_trajectory, sanity_check,
}
use mlb_baseball.Play.Table.{lookup_primary}
use mlb_baseball.Play.Parse.{
  run_handler, start_primary, parse_primary, parse_tail, parse_action, parse_event,
}
use mlb_baseball.Play.Parse.{Parsed}

-- `parse_event` again: what this unfolds, a test unfolds by its name.
unfoldable pub run_text : Text → Parsed
unfolding get_item set_item text_eq has_char starts_with contains one_of ev_code is_ev ev_between
    is_batter is_official_ab runner_put_out outs_on_play runs_on_play rbi_on_play find preprocess
    start next_char advance_cursor peek until_nul token_of write_token write_char pure raise ◌>>=◌
    symbol read_parser nextsym token set_token put read_event change try_change try_read add_error
    add_untyped_error set_error_type set_last_error_type soften_error add_assist add_putout
    add_touch touch drop_first_putout shift_down drop_batter_putout fuel primary_step primary_loop
    primary_event fielders_step fielders_loop hit_fielder dedupe_from dedupe_assists credit_muff
    credit_putout credit_step credit_loop credit_error fielding_credit flag_step flag_loop flag
    is_location location hit_description trajectory_or_location later_flag apply_flag flag_text_step
    flag_text_loop flags_step flags_loop all_flags mark_muff drop_strikeout_putout
    charge_advance_error skip_step skip_loop close_paren advance_flag word_modifier modifier_step
    modifier_loop advance_modifier modifiers_step modifiers_loop safe_advance out_advance
    runner_advance advancement_step advancement_loop advancement slashes_step slashes_loop slashes
    mark_steal unearned_steal steal_base second_steal cs_error_credit cs_safe cs_unearned cs_credit
    cs_step cs_loop soften_rounds steal_step steal_loop stolen_base caught_stealing
    pickoff_caught_stealing pickoff_error pickoff_credit pickoff closing_flags skip_char balk
    safe_on_error fielders_choice foul_error out_base out_at out_batter or_raise outs_step outs_loop
    finish_outs generic_out hit_by_pitch interference_flag interference indifference advance_note
    other_advance passed_ball wild_pitch base_hit digits_step digits_loop ground_rule_double
    forgiving plus_event plus_tail throw_flag strikeout_flag strikeout_credit strikeout walk_flag
    walk default_advance advance_hitter reached_on_strikeout clear_walk_rbi soften_from
    error_defaults clear_from clear_credits settle_runner settle_base settle_bases
    default_trajectory sanity_check lookup_primary run_handler start_primary parse_primary
    parse_tail parse_action parse_event
run_text text = parse_event text
