-- ===== src/Iter/Settle.antt =====
-- What `settle` makes of the parsed data (cw/gameiter.py: `next`).
use mlb_baseball.Prelude.{
  ℕ, ◌≡◌, ◌≢◌, refl, ap, ◌∙◌, Bool, true, false, ◌&&◌, not, ◌==◌, ℤ, pos, if◌then◌else◌, eq_ℤ,
  Bool-cases, inl, inr,
}
use mlb_baseball.Play.Bases.{Base, Bases, batter, first, second, third, number, on, put_on}
use mlb_baseball.Play.Event.{EventData, runner_put_out}
use mlb_baseball.State.Record.{State, base_occupied}
use mlb_baseball.Iter.Step.{stay, stay_all, correct_rbi, plain_rbi, settle}

-- Where a runner of whom the play may say nothing goes
abbrev pub stands : State → EventData → Base → ℕ
stands s d b =
    if (on d.advance b == 0) && base_occupied s b && not (runner_put_out d b)
    then number b
    else on d.advance b

plain_rbi-advance : (d : EventData) (b : Base) → (plain_rbi d b).advance ≡ d.advance
plain_rbi-advance d b = elim (Bool-cases (eq_ℤ (on d.rbi_flag b) (pos 2))) [
  | inl e ↦ rw e refl
  | inr e ↦ rw e refl
]

correct_rbi-advance : (s : State) (d : EventData) → (correct_rbi s d).advance ≡ d.advance
unfolding correct_rbi
correct_rbi-advance s d = corrected _
  where
    corrected :
        (c : Bool)
        → (if c then record d { rbi_flag = put_on d.rbi_flag third (pos 0) } else d).advance
          ≡ d.advance
    corrected true = refl
    corrected false = refl

settle-moves : (s : State) (d : EventData) → (settle s d).advance ≡ (stay_all s d).advance
unfolding settle
settle-moves s d =
    let c = correct_rbi s (stay_all s d) in
    let c₀ = plain_rbi c batter in
    let c₁ = plain_rbi c₀ first in
    plain_rbi-advance (plain_rbi c₁ second) third
    ∙ plain_rbi-advance c₁ second
    ∙ plain_rbi-advance c₀ first
    ∙ plain_rbi-advance c batter
    ∙ correct_rbi-advance s (stay_all s d)

stayed_at :
    (b : Base) (d : EventData) (c : Bool)
    → (if c then record d { advance = put_on d.advance b (number b) } else d)
      ≡ record d { advance = put_on d.advance b (if c then number b else on d.advance b) }
stayed_at batter d true = refl
stayed_at first d true = refl
stayed_at second d true = refl
stayed_at third d true = refl
stayed_at batter d false = refl
stayed_at first d false = refl
stayed_at second d false = refl
stayed_at third d false = refl

stay-first :
    (s : State) (d : EventData)
    → stay first s d ≡ record d { advance = put_on d.advance first (stands s d first) }
unfolding stay
stay-first s d = stayed_at first d _

stay-second :
    (s : State) (d : EventData)
    → stay second s d ≡ record d { advance = put_on d.advance second (stands s d second) }
unfolding stay
stay-second s d = stayed_at second d _

stay-third :
    (s : State) (d : EventData)
    → stay third s d ≡ record d { advance = put_on d.advance third (stands s d third) }
unfolding stay
stay-third s d = stayed_at third d _

stay_all-advance :
    (s : State) (d : EventData)
    → (stay_all s d).advance ≡ record d.advance {
      at_first = stands s d first;
      at_second = stands s d second;
      at_third = stands s d third;
    }
unfolding stay_all runner_put_out
stay_all-advance s d =
    let d₁ : EventData = record d { advance = put_on d.advance first (stands s d first) } in
    let d₂ : EventData = record d₁ { advance = put_on d₁.advance second (stands s d₁ second) } in
    ap (λ (x : EventData). x.advance)
      (ap (stay third s) (ap (stay second s) (stay-first s d) ∙ stay-second s d₁) ∙ stay-third s d₂)

-- The advances of the bases behind `settle`
pub settle-advance :
    (s : State) (d : EventData)
    → (settle s d).advance ≡ record d.advance {
      at_first = stands s d first;
      at_second = stands s d second;
      at_third = stands s d third;
    }
settle-advance s d = settle-moves s d ∙ stay_all-advance s d

-- A flag without the mark of an explicit RBI
abbrev plain_flag : ℤ → ℤ
plain_flag z = if eq_ℤ z (pos 2) then pos 1 else z

plain_flag-lem : (z : ℤ) → plain_flag z ≢ pos 2
plain_flag-lem z = elim (Bool-cases (eq_ℤ z (pos 2))) [
  | inl e ↦ rw e (λ p. cc (ap (λ (x : ℤ). eq_ℤ x (pos 2)) p))
  | inr e ↦ rw e (λ p. cc (e, p))
]

plain_rbi-flags :
    (d : EventData) (b : Base)
    → (plain_rbi d b).rbi_flag ≡ put_on d.rbi_flag b (plain_flag (on d.rbi_flag b))
plain_rbi-flags d batter = elim (Bool-cases (eq_ℤ d.rbi_flag.at_batter (pos 2))) [
  | inl e ↦ rw e refl
  | inr e ↦ rw e refl
]
plain_rbi-flags d first = elim (Bool-cases (eq_ℤ d.rbi_flag.at_first (pos 2))) [
  | inl e ↦ rw e refl
  | inr e ↦ rw e refl
]
plain_rbi-flags d second = elim (Bool-cases (eq_ℤ d.rbi_flag.at_second (pos 2))) [
  | inl e ↦ rw e refl
  | inr e ↦ rw e refl
]
plain_rbi-flags d third = elim (Bool-cases (eq_ℤ d.rbi_flag.at_third (pos 2))) [
  | inl e ↦ rw e refl
  | inr e ↦ rw e refl
]

abbrev plain_flags : Bases ℤ → Bases ℤ
plain_flags f = record {
  at_batter = plain_flag f.at_batter;
  at_first = plain_flag f.at_first;
  at_second = plain_flag f.at_second;
  at_third = plain_flag f.at_third;
}

settle-flags :
    (s : State) (d : EventData)
    → (settle s d).rbi_flag ≡ plain_flags (correct_rbi s (stay_all s d)).rbi_flag
unfolding settle
settle-flags s d =
    let c = correct_rbi s (stay_all s d) in
    let c₀ = plain_rbi c batter in
    let c₁ = plain_rbi c₀ first in
    plain_rbi-flags (plain_rbi c₁ second) third
    ∙ ap (third_plain) (
        plain_rbi-flags c₁ second
        ∙ ap second_plain (plain_rbi-flags c₀ first ∙ ap first_plain (plain_rbi-flags c batter)))
  where
    third_plain : Bases ℤ → Bases ℤ
    third_plain f = record f { at_third = plain_flag f.at_third }

    second_plain : Bases ℤ → Bases ℤ
    second_plain f = record f { at_second = plain_flag f.at_second }

    first_plain : Bases ℤ → Bases ℤ
    first_plain f = record f { at_first = plain_flag f.at_first }

plain_flags-lem : (f : Bases ℤ) (b : Base) → on (plain_flags f) b ≢ pos 2
plain_flags-lem f batter = plain_flag-lem f.at_batter
plain_flags-lem f first = plain_flag-lem f.at_first
plain_flags-lem f second = plain_flag-lem f.at_second
plain_flags-lem f third = plain_flag-lem f.at_third

pub settle-rbi_flag : (s : State) (d : EventData) (b : Base) → on (settle s d).rbi_flag b ≢ pos 2
settle-rbi_flag s d b =
    rw (settle-flags s d) (plain_flags-lem (correct_rbi s (stay_all s d)).rbi_flag b)
