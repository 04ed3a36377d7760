-- ===== src/Play/Settled/Success.antt =====
-- `parse_event` (cw/parse.py): what is known of the event where it returns 1.
use mlb_baseball.Prelude.{
  ◌≡◌, refl, sym, ap, Bool, true, false, not, Option, none, some, Text, codes, has_char,
  if◌then◌else◌, ◌==◌,
}
use mlb_baseball.Play.Bases.{Base}
use mlb_baseball.Play.Event.{EventData}
use mlb_baseball.Play.Cursor.{nul}
use mlb_baseball.Play.Advance.{advancement}
use mlb_baseball.Play.Monad.{
  Action, Run, Outcome, ok, raised, pure, ◌>>=◌, ◌>>◌, ◌&>◌, when, try_change, symbol, nextsym,
  stored,
}
use mlb_baseball.Play.Sanity.{sanity_check}
use mlb_baseball.Play.Parse.{
  parse_tail, parse_primary, parse_action, Parsed, parsed, failed, result, start_run, parse_event,
}
use mlb_baseball.Play.Settled.{IsSettled, sanity_check-IsSettled}

-- What an action leaves where it returns 1
OnSuccess : Outcome Bool → Type 0
OnSuccess (ok true r) = (b : Base) → IsSettled b r.event
OnSuccess (ok false r) = Unit
OnSuccess (raised x) = Unit

after-bind :
    {A : Type 0} (o : Outcome A) (f : A → Action Bool)
    → ((a : A) (r : Run) → OnSuccess (f a r))
    → OnSuccess (elim o [ ok a r ↦ f a r | raised x ↦ raised x ])
unfolding OnSuccess
after-bind (ok a r) f h = h a r
after-bind (raised x) f h = tt

-- Only the last action of a sequence counts.
success-bind :
    {A : Type 0} (m : Action A) (f : A → Action Bool)
    → ((a : A) (r : Run) → OnSuccess (f a r))
    → (r : Run) → OnSuccess ((m >>= f) r)
unfolding ◌>>=◌
success-bind m f h r = after-bind (m r) f h

success-if :
    (t : Bool) (m n : Action Bool) (r : Run)
    → OnSuccess (m r)
    → OnSuccess (n r)
    → OnSuccess ((if t then m else n) r)
success-if true m n r hm hn = hm
success-if false m n r hm hn = hn

success-fail : (r : Run) → OnSuccess (pure false r)
unfolding OnSuccess pure
success-fail r = tt

success-and :
    (m k : Action Bool) → ((r : Run) → OnSuccess (k r)) → (r : Run) → OnSuccess ((m &> k) r)
success-and m k h r =
    success-bind m (λ fine. if fine then k else pure false)
      (λ fine s. success-if fine k (pure false) s (h s) (success-fail s)) r

stored-success :
    (o : Option EventData) (r : Run)
    → ((e' : EventData) → o ≡ some e' → (b : Base) → IsSettled b e')
    → OnSuccess ((stored o >> pure true) r)
unfolding ◌>>=◌ OnSuccess pure
stored-success none r h = tt
stored-success (some e') r h = h e' refl

success-sanity : (r : Run) → OnSuccess ((try_change sanity_check >> pure true) r)
unfolding ◌>>=◌ try_change
success-sanity r =
    unfold ◌>>=◌ in
    stored-success (sanity_check r.event) r (λ e' p b. sanity_check-IsSettled b r.event p)

parse_tail-success : (r : Run) → OnSuccess (parse_tail r)
unfolding parse_tail
parse_tail-success = success-bind symbol _ (λ c.
    success-and (if c == b'.' then advancement else pure true) _ (
      success-bind symbol _ (λ d. success-bind (when (has_char d (codes "+-#")) nextsym) _ (λ u.
        success-bind symbol _ (λ k s.
          success-if (not (k == nul)) (pure false) _ s (success-fail s) (success-sanity s))))))

parse_action-success : (r : Run) → OnSuccess (parse_action r)
unfolding parse_action
parse_action-success = success-and parse_primary parse_tail parse_tail-success

result-success :
    (o : Outcome Bool) {e : EventData}
    → OnSuccess o
    → result o ≡ parsed e true
    → (b : Base) → IsSettled b e
unfolding OnSuccess
result-success (ok true r) h p b = rw (sym (ap event_of p)) (h b)
  where
    event_of : Parsed → EventData
    event_of (parsed e t) = e
    event_of (failed x) = r.event
result-success (ok false r) h p b = cc
result-success (raised x) h p b = cc

-- Of a text that parses, the data are settled at every base: a runner put out on the play has no
-- advance, and no RBI flag is left at the mark -1.
pub parse_event-IsSettled :
    (text : Text) (e : EventData) → parse_event text ≡ parsed e true → (b : Base) → IsSettled b e
unfolding parse_event
parse_event-IsSettled text e p b =
    result-success (parse_action (start_run text)) (parse_action-success (start_run text)) p b
