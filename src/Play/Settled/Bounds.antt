-- ===== src/Play/Settled/Bounds.antt =====
-- The outs and the runs of a play that parsed (cw/parse.py).
use mlb_baseball.Prelude.{ℕ, ◌+◌, ◌≤◌, ◌≡◌, Bool, true, Text, leb, arith}
use mlb_baseball.Play.Bases.{Base, batter, first, second, third, on, one_if}
use mlb_baseball.Play.Event.{EventData, runner_put_out, outs_on_play, runs_on_play}
use mlb_baseball.Play.Parse.{parsed, parse_event}
use mlb_baseball.Play.Settled.Success.{parse_event-IsSettled}

out_or_run : (o : Bool) (n : ℕ) → (o ≡ true → n ≡ 0) → one_if o + one_if (leb 4 n) ≤ 1
out_or_run o n h = ground arith

-- Of a text that parses, the outs and the runs of the play are four at most together.
pub outs_on_play-runs_on_play :
    (text : Text) (e : EventData)
    → parse_event text ≡ parsed e true
    → outs_on_play e + runs_on_play e ≤ 4
unfolding outs_on_play runs_on_play
outs_on_play-runs_on_play text e p =
    let at = λ (b : Base).
      out_or_run (runner_put_out e b) (on e.advance b)
        (parse_event-IsSettled text e p b).out_stays in
    omega (arith, at batter, at first, at second, at third)
