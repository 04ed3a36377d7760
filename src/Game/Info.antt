-- ===== src/Game/Info.antt =====
-- `info_set` and `info_lookup` (cw/game.py).
use mlb_baseball.Prelude.{
  ℕ, ◌+◌, ◌≤◌, ◌≡◌, refl, sym, ◌∙◌, true, false, Option, none, some, List, [], ◌∷◌, ◌++◌, Text,
  text_eq, text_eq_iff, if◌then◌else◌, arith, Bool-cases, Option-cases, inl, inr,
}
use mlb_baseball.Game.Records.{Game}
use mlb_baseball.Game.Container.{info_append, replace_first, info_set, last_value, info_lookup}

-- How many records have the label
abbrev pub records : Text → List (Text × Text) → ℕ
records label [] = 0
records label ((key, value) ∷ l) = (if text_eq key label then 1 else 0) + records label l

same_text : (s : Text) → text_eq s s ≡ true
same_text s = (text_eq_iff s s).1 refl

last_value-append :
    (label value : Text) (l : List (Text × Text))
    → last_value label (l ++ (label, value) ∷ []) ≡ some value
unfolding last_value
last_value-append label value [] = rw (same_text label) refl
last_value-append label value ((key, old) ∷ l) = rw (last_value-append label value l) refl

absent : (label : Text) (l : List (Text × Text)) → records label l ≡ 0 → last_value label l ≡ none
unfolding last_value
absent label [] h = refl
absent label ((key, value) ∷ l) h = ground (arith, absent label l)

-- The records that `info_set` leaves
abbrev put_record :
    Text → Text → List (Text × Text) → Option (List (Text × Text)) → List (Text × Text)
put_record label value l none = l ++ (label, value) ∷ []
put_record label value l (some l') = l'

info_set-info :
    (label value : Text) (g : Game)
    → (info_set label value g).info
      ≡ put_record label value g.info (replace_first label value g.info)
unfolding info_set info_append
info_set-info label value g = elim (Option-cases (replace_first label value g.info)) [
  | inl e ↦ rw (info_set, e) refl
  | inr (l, e) ↦ rw (info_set, e) refl
]

abbrev set_in : Text → Text → List (Text × Text) → List (Text × Text)
set_in label value l = put_record label value l (replace_first label value l)

set_in-step :
    (label value key old : Text) (l : List (Text × Text))
    → set_in label value ((key, old) ∷ l)
      ≡ (if text_eq key label then (key, value) ∷ l else (key, old) ∷ set_in label value l)
unfolding replace_first
set_in-step label value key old l = elim (Bool-cases (text_eq key label)) [
  | inl e ↦ rw e refl
  | inr e ↦ elim (Option-cases (replace_first label value l)) [
    | inl q ↦ rw e (rw q refl)
    | inr (l', q) ↦ rw e (rw q refl)
  ]
]

found :
    (label value : Text) (l : List (Text × Text))
    → records label l ≤ 1
    → last_value label (set_in label value l) ≡ some value
unfolding last_value replace_first
found label value [] h = rw (same_text label) refl
found label value ((key, old) ∷ l) h =
    let ih = found label value l in
    rw (set_in-step label value key old l) (elim (Bool-cases (text_eq key label)) [
      | inl e ↦
          (let k : records label l ≡ 0 = ground arith in rw e (rw (absent label l k) (rw e refl)))
      | inr e ↦
          (let k : last_value label (set_in label value l) ≡ some value = ih (ground arith) in
            rw e (rw (last_value, k) refl))
    ])

set_key :
    (key label other : Text)
    → text_eq key label ≡ true
    → text_eq label other ≡ false
    → text_eq key other ≡ false
set_key key label other e h = rw ((text_eq_iff key label).0 e) h

skipped :
    (key value other : Text) (l : List (Text × Text))
    → text_eq key other ≡ false
    → last_value other ((key, value) ∷ l) ≡ last_value other l
unfolding last_value
skipped key value other l h = ground arith

unfound :
    (label value other : Text) (l : List (Text × Text))
    → text_eq label other ≡ false
    → last_value other (set_in label value l) ≡ last_value other l
unfolding last_value replace_first
unfound label value other [] h = rw h refl
unfound label value other ((key, old) ∷ l) h =
    let ih = unfound label value other l h in
    rw (set_in-step label value key old l) (elim (Bool-cases (text_eq key label)) [
      | inl e ↦
          (let k = set_key key label other e h in
            rw e (skipped key value other l k ∙ sym (skipped key old other l k)))
      | inr e ↦ rw e (rw (last_value, ih) refl)
    ])

-- Where at most one record has the label, `info_lookup` finds what `info_set` has set.
pub info_lookup-info_set :
    (label value : Text) (g : Game)
    → records label g.info ≤ 1
    → info_lookup label (info_set label value g) ≡ some value
unfolding info_lookup
info_lookup-info_set label value g h = rw (info_set-info label value g) (found label value g.info h)

-- `info_set` changes what `info_lookup` finds under no other label.
pub info_lookup-info_set_other :
    (label value other : Text) (g : Game)
    → text_eq label other ≡ false
    → info_lookup other (info_set label value g) ≡ info_lookup other g
unfolding info_lookup
info_lookup-info_set_other label value other g h =
    rw (info_set-info label value g) (unfound label value other g.info h)
