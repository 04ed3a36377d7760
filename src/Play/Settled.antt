-- ===== src/Play/Settled.antt =====
-- What `_sanity_check` leaves of a play that parsed.
pub mod Success
pub mod Bounds
use mlb_baseball.Prelude.{
  ℕ, zero, suc, ◌+◌, ◌≡◌, ◌≢◌, refl, sym, ap, ◌∙◌, Bool, true, false, ◌||◌, ◌&&◌, not, Option, none,
  some, List, [], ◌∷◌, ℤ, pos, negsuc, pos_part, eq_ℤ, eq_ℤ-refl, Text, codes, contains, has_char,
  is_empty, leb, one_of, if◌then◌else◌, arith, Bool-cases, inl, inr,
}
use mlb_baseball.Play.Bases.{Base, Bases, batter, first, second, third, on, put_on, one_if}
use mlb_baseball.Play.Event.{EventData, runner_put_out, outs_on_play, runs_on_play}
use mlb_baseball.Play.Monad.{
  Action, Run, Outcome, ok, raised, pure, ◌>>=◌, ◌>>◌, ◌&>◌, when, try_change, symbol,
}
use mlb_baseball.Play.Arrays.{◌>>=◌ as bind}
use mlb_baseball.Play.Sanity.{
  clear_from, clear_credits, settle_runner, settle_base, settle_bases, default_trajectory,
  sanity_check, advance_hitter, reached_on_strikeout, clear_walk_rbi, error_defaults,
}
use mlb_baseball.Play.Parse.{
  parse_tail, parse_primary, parse_action, Parsed, parsed, failed, result, start_run, parse_event,
}

-- The runner of a base is not both out and safe, and no mark "no RBI" is left.
pub record IsSettled (b : Base) (e : EventData) : Type 0 where
  pub out_stays : runner_put_out e b ≡ true → on e.advance b ≡ 0
  pub no_mark : on e.rbi_flag b ≢ negsuc 0

-- The fields that the loop over the bases is about
pub record SameMoves (e e' : EventData) : Type 0 where
  pub moves : e'.advance ≡ e.advance
  pub rbis : e'.rbi_flag ≡ e.rbi_flag
  pub plays : e'.play ≡ e.play

clear_credits-moves :
    (e : EventData) (o o' : Option (List ℕ)) {e' : EventData}
    → bind o (λ p.
      bind o'
        (λ a. some (record e { putouts = p; assists = a; num_putouts = pos 0; num_assists = 0 })))
      ≡ some e'
    → SameMoves e e'
clear_credits-moves e none o' h = cc
clear_credits-moves e (some p) none h = cc
clear_credits-moves e (some p) (some a) h = record {
  moves = ground arith;
  rbis = ground arith;
  plays = ground arith;
}

settle_base-moves :
    (b : Base) (e : EventData) {e' : EventData}
    → settle_base b e ≡ some e'
    → SameMoves (settle_runner b e) e'
unfolding settle_base
settle_base-moves b e {e'} h = elim (Bool-cases (contains (on e.play b) (codes "99"))) [
  | inl c ↦
      clear_credits-moves (settle_runner b e) _ _ {e' = e'} (unfold clear_credits in (rw c at h))
  | inr c ↦
      (let p : some (settle_runner b e) ≡ some e' = rw c at h in
        record { moves = ground arith; rbis = ground arith; plays = ground arith })
]

IsSettled-moves : (b : Base) (e e' : EventData) → SameMoves e e' → IsSettled b e → IsSettled b e'
unfolding runner_put_out
IsSettled-moves b e e' m h = record {
  out_stays = rw (m.moves, m.plays) h.out_stays;
  no_mark = rw m.rbis h.no_mark;
}

marked : (z : ℤ) → eq_ℤ z (negsuc 0) ≡ false → z ≢ negsuc 0
marked z h e = cc (h, ap (λ (x : ℤ). eq_ℤ x (negsuc 0)) e)

settle_runner_self : (b : Base) (e : EventData) → IsSettled b (settle_runner b e)
unfolding settle_runner runner_put_out
settle_runner_self batter e = record {
  out_stays = ground arith;
  no_mark = ground (arith, marked e.rbi_flag.at_batter);
}
settle_runner_self first e = record {
  out_stays = ground arith;
  no_mark = ground (arith, marked e.rbi_flag.at_first);
}
settle_runner_self second e = record {
  out_stays = ground arith;
  no_mark = ground (arith, marked e.rbi_flag.at_second);
}
settle_runner_self third e = record {
  out_stays = ground arith;
  no_mark = ground (arith, marked e.rbi_flag.at_third);
}

-- The pass over one base keeps what the others have.
settle_runner-keeps : (b c : Base) (e : EventData) → IsSettled c e → IsSettled c (settle_runner b e)
unfolding settle_runner runner_put_out
settle_runner-keeps batter batter e h = settle_runner_self batter e
settle_runner-keeps batter c e h = record {
  out_stays = ground (arith, h.out_stays);
  no_mark = ground (arith, h.no_mark);
}
settle_runner-keeps first first e h = settle_runner_self first e
settle_runner-keeps first c e h = record {
  out_stays = ground (arith, h.out_stays);
  no_mark = ground (arith, h.no_mark);
}
settle_runner-keeps second second e h = settle_runner_self second e
settle_runner-keeps second c e h = record {
  out_stays = ground (arith, h.out_stays);
  no_mark = ground (arith, h.no_mark);
}
settle_runner-keeps third third e h = settle_runner_self third e
settle_runner-keeps third c e h = record {
  out_stays = ground (arith, h.out_stays);
  no_mark = ground (arith, h.no_mark);
}

settle_base_self :
    (b : Base) (e : EventData) {e' : EventData} → settle_base b e ≡ some e' → IsSettled b e'
settle_base_self b e {e'} h =
    IsSettled-moves b (settle_runner b e) e' (settle_base-moves b e h) (settle_runner_self b e)

settle_base-keeps :
    (b c : Base) (e : EventData) {e' : EventData}
    → settle_base b e ≡ some e'
    → IsSettled c e
    → IsSettled c e'
settle_base-keeps b c e {e'} h k =
    IsSettled-moves c (settle_runner b e) e' (settle_base-moves b e h) (settle_runner-keeps b c e k)

bind-eq_some :
    {A B : Type 0} (o : Option A) (f : A → Option B) {b : B}
    → bind o f ≡ some b
    → (a : A) × (o ≡ some a) × (f a ≡ some b)
bind-eq_some none f h = cc
bind-eq_some (some a) f h = (a, refl, h)

settle_bases-IsSettled :
    (b : Base) (e : EventData) {e' : EventData} → settle_bases e ≡ some e' → IsSettled b e'
unfolding settle_bases
settle_bases-IsSettled b e {e'} h =
    let (e₀, p₀, q₀) = bind-eq_some (settle_base batter e) _ h in
    let (e₁, p₁, q₁) = bind-eq_some (settle_base first e₀) _ q₀ in
    let (e₂, p₂, q₂) = bind-eq_some (settle_base second e₁) _ q₁ in last b e₀ e₁ e₂ p₀ p₁ p₂ q₂
  where
    last :
        (c : Base) (x₀ x₁ x₂ : EventData)
        → settle_base batter e ≡ some x₀
        → settle_base first x₀ ≡ some x₁
        → settle_base second x₁ ≡ some x₂
        → settle_base third x₂ ≡ some e'
        → IsSettled c e'
    last batter x₀ x₁ x₂ a b c d = settle_base-keeps third batter x₂ d (
        settle_base-keeps second batter x₁ c
          (settle_base-keeps first batter x₀ b (settle_base_self batter e a)))
    last first x₀ x₁ x₂ a b c d =
        settle_base-keeps third first x₂ d
          (settle_base-keeps second first x₁ c (settle_base_self first x₀ b))
    last second x₀ x₁ x₂ a b c d =
        settle_base-keeps third second x₂ d (settle_base_self second x₁ c)
    last third x₀ x₁ x₂ a b c d = settle_base_self third x₂ d

default_trajectory-moves :
    (e : EventData) {e' : EventData} → some (default_trajectory e) ≡ some e' → SameMoves e e'
unfolding default_trajectory
default_trajectory-moves e h = record {
  moves = ground arith;
  rbis = ground arith;
  plays = ground arith;
}

sanity_check-IsSettled :
    (b : Base) (e : EventData) {e' : EventData} → sanity_check e ≡ some e' → IsSettled b e'
unfolding sanity_check
sanity_check-IsSettled b e {e'} h =
    let (e₁, p₁, q₁) = bind-eq_some (reached_on_strikeout (advance_hitter e)) _ h in
    let (e₂, p₂, q₂) = bind-eq_some (error_defaults (clear_walk_rbi e₁)) _ q₁ in
    let (e₃, p₃, q₃) = bind-eq_some (settle_bases e₂) _ q₂ in
    IsSettled-moves b e₃ e' (default_trajectory-moves e₃ q₃) (settle_bases-IsSettled b e₂ p₃)
