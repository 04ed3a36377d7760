-- ===== src/Game/Tokens.antt =====
-- cw/game.py: the fields of a record, as `read_game` collects them.
use mlb_baseball.Prelude.{
  ℕ, zero, suc, Bool, false, ◌&&◌, ◌||◌, Option, none, some, List, [], ◌∷◌, Text, is_empty,
  if◌then◌else◌,
}
use mlb_baseball.File.{StrTok, space, strtok}

-- `t[:1] in (" ", "\t", ...)`
abbrev pub begins_blank : Text → Bool
begins_blank [] = false
begins_blank (c ∷ t) = space c

-- The loop of `_tokens`, of a number of rounds; the None at the end tells that none has ended it.
unfoldable pub tokens_loop : ℕ → Bool → Bool → StrTok → List (Option Text) × StrTok
unfolding strtok
tokens_loop zero stop_blank stop_space tok = (none ∷ [], tok)
tokens_loop (suc n) stop_blank stop_space tok =
    let (t, tok') = strtok none tok in
    let rest = tokens_loop n stop_blank stop_space tok' in
    elim t [
      | none ↦ ([], tok')
      | some f ↦
          if (stop_space && begins_blank f) || (stop_blank && is_empty f)
          then ([], tok')
          else (some f ∷ rest.0, rest.1)
    ]

-- `_tokens`
unfoldable pub tokens : Bool → Bool → StrTok → List (Option Text) × StrTok
unfolding tokens_loop
tokens stop_blank stop_space tok = tokens_loop 256 stop_blank stop_space tok
