-- ===== src/Iter/Comments.antt =====
-- `_process_comments` (cw/gameiter.py): what is left of a comment that was processed.
use mlb_baseball.Prelude.{◌≡◌, refl, List, [], ◌∷◌, Text, codes, starts_with, Bool-cases, inl, inr}
use mlb_baseball.Game.Records.{Comment}
use mlb_baseball.Iter.Step.{process_comment, process_comments}

process_comment_again :
    (c : Comment) (d d' : Text)
    → process_comment (process_comment c d).0 d' ≡ ((process_comment c d).0, d')
unfolding process_comment starts_with
process_comment_again c d d' = elim (Bool-cases (starts_with c.text (codes "suspended,"))) [
  | inl e ↦ rw e refl
  | inr e ↦ rw e (rw e refl)
]

-- Comments that were processed once, with any date, are left as they are by a second processing,
-- which keeps the date it is given.
pub process_comments_again :
    (l : List Comment) (d d' : Text)
    → process_comments (process_comments l d).0 d' ≡ ((process_comments l d).0, d')
unfolding process_comments
process_comments_again [] d d' = refl
process_comments_again (c ∷ l) d d' =
    rw (process_comment_again c d d')
      (rw (process_comments_again l (process_comment c d).1 d') refl)
