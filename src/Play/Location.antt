-- ===== src/Play/Location.antt =====
-- cw/parse.py: hit locations and trajectories.
use mlb_baseball.Prelude.{
  ℕ, Bool, true, false, List, [], ◌∷◌, ◌==◌, Text, codes, has_char, one_of, if◌then◌else◌, drop,
  get_or, last?, Option, some, none,
}
use mlb_baseball.Play.Event.{EventData}

-- `_LOCATIONS`
locations : List Text
locations =
    codes "1"
    ∷ codes "13"
    ∷ codes "15"
    ∷ codes "1S"
    ∷ codes "2"
    ∷ codes "2F"
    ∷ codes "23"
    ∷ codes "23F"
    ∷ codes "25"
    ∷ codes "25F"
    ∷ codes "3SF"
    ∷ codes "3F"
    ∷ codes "3DF"
    ∷ codes "3S"
    ∷ codes "3"
    ∷ codes "3D"
    ∷ codes "34S"
    ∷ codes "34"
    ∷ codes "34D"
    ∷ codes "4S"
    ∷ codes "4"
    ∷ codes "4D"
    ∷ codes "4MS"
    ∷ codes "4M"
    ∷ codes "4MD"
    ∷ codes "6MS"
    ∷ codes "6M"
    ∷ codes "6MD"
    ∷ codes "6S"
    ∷ codes "6"
    ∷ codes "6D"
    ∷ codes "56S"
    ∷ codes "56"
    ∷ codes "56D"
    ∷ codes "5S"
    ∷ codes "5"
    ∷ codes "5D"
    ∷ codes "5SF"
    ∷ codes "5F"
    ∷ codes "5DF"
    ∷ codes "7LSF"
    ∷ codes "7LS"
    ∷ codes "7S"
    ∷ codes "78S"
    ∷ codes "8S"
    ∷ codes "89S"
    ∷ codes "9S"
    ∷ codes "9LS"
    ∷ codes "9LSF"
    ∷ codes "7LF"
    ∷ codes "7L"
    ∷ codes "7"
    ∷ codes "78"
    ∷ codes "8"
    ∷ codes "89"
    ∷ codes "9"
    ∷ codes "9L"
    ∷ codes "9LF"
    ∷ codes "7LDF"
    ∷ codes "7LD"
    ∷ codes "7D"
    ∷ codes "78D"
    ∷ codes "8D"
    ∷ codes "89D"
    ∷ codes "9D"
    ∷ codes "9LD"
    ∷ codes "9LDF"
    ∷ codes "78XD"
    ∷ codes "8XD"
    ∷ codes "89XD"
    ∷ codes "13S"
    ∷ codes "15S"
    ∷ codes "2LF"
    ∷ codes "2RF"
    ∷ codes "2L"
    ∷ codes "2R"
    ∷ codes "3L"
    ∷ codes "46"
    ∷ codes "5L"
    ∷ codes "7LDW"
    ∷ codes "7DW"
    ∷ codes "78XDW"
    ∷ codes "8XDW"
    ∷ codes "89XDW"
    ∷ codes "9DW"
    ∷ codes "9LDW"
    ∷ codes "7LMF"
    ∷ codes "7LM"
    ∷ codes "7M"
    ∷ codes "78M"
    ∷ codes "8LM"
    ∷ codes "8M"
    ∷ codes "8RM"
    ∷ codes "89M"
    ∷ codes "9M"
    ∷ codes "9LM"
    ∷ codes "9LMF"
    ∷ codes "8LS"
    ∷ codes "8RS"
    ∷ codes "8LD"
    ∷ codes "8RD"
    ∷ codes "8LXD"
    ∷ codes "8RXD"
    ∷ codes "8LXDW"
    ∷ codes "8RXDW"
    ∷ []

unfoldable pub is_location : Text → Bool
unfolding locations one_of
is_location loc = one_of loc locations

-- `loc[-1] == "F"`; a known location has a last character.
abbrev ends_foul : Option ℕ → Bool
ends_foul none = false
ends_foul (some c) = c == b'F'

-- `_location`: the event after it, and whether `loc` is known
unfoldable pub location : Text → Bool → EventData → EventData × Bool
location loc bunt e =
    if is_location loc
    then (
      record e {
        hit_location = loc;
        foul_flag = if ends_foul (last? loc) then true else e.foul_flag;
        bunt_flag = if bunt then true else e.bunt_flag;
      },
      true,
    )
    else (e, false)

abbrev with_trajectory : ℕ → EventData × Bool → EventData
with_trajectory traj (e, known) = if known then record e { batted_ball_type = traj } else e

-- A trajectory and a location, or a location alone, read from a flag without its slash. The tail
-- of `_interference` is the same code; `_trajectory_or_location` reads it behind the slash.
unfoldable pub hit_description : Text → EventData → EventData
unfolding location has_char
hit_description t e =
    let bunt = get_or t 0 0 == b'B' in
    let traj = if bunt then get_or t 1 0 else get_or t 0 0 in
    if has_char traj (codes "GFPL")
    then with_trajectory traj (location (if bunt then drop 2 t else drop 1 t) bunt e)
    else (location (if bunt then drop 1 t else t) bunt e).0

-- `_trajectory_or_location`; `flag` has its slash
unfoldable pub trajectory_or_location : EventData → Text → EventData
unfolding hit_description
trajectory_or_location e flag = hit_description (drop 1 flag) e
