-- ===== src/Play/Table.antt =====
-- cw/parse.py: the table of primary events.
use mlb_baseball.Prelude.{Option, none, some, List, [], ◌∷◌, Text, codes, text_eq, if◌then◌else◌}
use mlb_baseball.Play.Event.{Ev}

pub data Handler : Type 0 where
  balk interference caught_stealing base_hit ground_rule_double indifference : Handler
  safe_on_error fielders_choice foul_error hit_by_pitch walk strikeout other_advance : Handler
  passed_ball pickoff pickoff_caught_stealing pickoff_stolen_base stolen_base wild_pitch : Handler

-- `_PRIMARY`
abbrev pub primary_table : List (Text × Ev × Handler)
primary_table =
    (codes "BK", Ev.balk, Handler.balk)
    ∷ (codes "C", Ev.interference, Handler.interference)
    ∷ (codes "CS", Ev.caught_stealing, Handler.caught_stealing)
    ∷ (codes "D", Ev.double, Handler.base_hit)
    ∷ (codes "DGR", Ev.double, Handler.ground_rule_double)
    ∷ (codes "DI", Ev.indifference, Handler.indifference)
    ∷ (codes "E", Ev.error, Handler.safe_on_error)
    ∷ (codes "FC", Ev.fielders_choice, Handler.fielders_choice)
    ∷ (codes "FLE", Ev.foul_error, Handler.foul_error)
    ∷ (codes "H", Ev.home_run, Handler.base_hit)
    ∷ (codes "HP", Ev.hit_by_pitch, Handler.hit_by_pitch)
    ∷ (codes "HR", Ev.home_run, Handler.base_hit)
    ∷ (codes "I", Ev.intentional_walk, Handler.walk)
    ∷ (codes "IW", Ev.intentional_walk, Handler.walk)
    ∷ (codes "K", Ev.strikeout, Handler.strikeout)
    ∷ (codes "OA", Ev.other_advance, Handler.other_advance)
    ∷ (codes "PB", Ev.passed_ball, Handler.passed_ball)
    ∷ (codes "PO", Ev.pickoff, Handler.pickoff)
    ∷ (codes "POCS", Ev.pickoff, Handler.pickoff_caught_stealing)
    ∷ (codes "POSB", Ev.stolen_base, Handler.pickoff_stolen_base)
    ∷ (codes "S", Ev.single, Handler.base_hit)
    ∷ (codes "SB", Ev.stolen_base, Handler.stolen_base)
    ∷ (codes "T", Ev.triple, Handler.base_hit)
    ∷ (codes "W", Ev.walk, Handler.walk)
    ∷ (codes "WP", Ev.wild_pitch, Handler.wild_pitch)
    ∷ []

unfoldable pub lookup_primary : Text → List (Text × Ev × Handler) → Option (Ev × Handler)
unfolding text_eq
lookup_primary t [] = none
lookup_primary t ((name, ev, h) ∷ rest) =
    if text_eq t name then some (ev, h) else lookup_primary t rest
