-- ===== src/File/Tests.antt =====
-- Short texts that cw/file.py reads.
use mlb_baseball.Prelude.{
  ◌≡◌, refl, true, false, none, some, List, [], ◌∷◌, ◌++◌, Text, codes, map, length, negsuc, pos,
  arith,
}
use mlb_baseball.File.{open_file, strtok, decimal, cw_atoi}
use mlb_baseball.File.Lines.{joined, pieces, joined-pieces}
use mlb_baseball.File.Numbers.{cw_atoi-decimal}
use mlb_baseball.File.Scan.{scan_int, match_star, match_plus, match_group, scan_match}
use mlb_baseball.File.Agree.{cw_atoi-scan_int}
use mlb_baseball.File.Fields.{written, tokens-written}
use mlb_baseball.Game.Tokens.{tokens}

-- Two lines, the second without its newline
abbrev two_lines : Text
two_lines = codes "id,A" ++ 10 ∷ codes "com"

joined-pieces_example : joined (pieces (length two_lines) 4 (open_file two_lines)) ≡ two_lines
joined-pieces_example = joined-pieces two_lines 4 (omega arith)

cw_atoi-decimal_example : cw_atoi (codes "  -120.5") ≡ negsuc 119
unfolding decimal
cw_atoi-decimal_example =
    cw_atoi-decimal (codes "  ") true b'1' (codes "20") (codes ".5") refl refl refl (omega arith)

cw_atoi-scan_int_example : cw_atoi (codes "+9x") ≡ pos 9
unfolding scan_int match_star match_plus match_group scan_match decimal
cw_atoi-scan_int_example = cw_atoi-scan_int (codes "+9x")

abbrev fields : List Text
fields = codes "1" ∷ codes "0" ∷ codes "S8/G" ∷ []

tokens-written_example :
    ((strtok (some (written (codes "play") fields)) none).0 ≡ some (codes "play"))
    × (tokens true false ((strtok (some (written (codes "play") fields)) none).1)
        ≡ (map some fields, none))
tokens-written_example =
    tokens-written (codes "play") fields none true false refl refl (omega arith)
