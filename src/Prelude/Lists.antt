-- ===== src/Prelude/Lists.antt =====
-- Lists measured and indexed by native numbers, under the library's names, and Python's indexing.
use Prim.Native.Nat.{ℕ, zero, suc, ◌+◌, ◌-◌, ◌≤◌}
use mathlib.Core.Path.{◌≡◌, refl, ap}
use mathlib.Core.List.{List, [], ◌∷◌, ◌++◌}
use mathlib.Core.Bool.{Bool, true, false}
use mathlib.Core.Option.{Option, none, some}
use native.Mathlib.Omega.{arith}
use mlb_baseball.Prelude.Tests.{ltb, if◌then◌else◌}
use mlb_baseball.Prelude.Int.{ℤ, pos, negsuc}

module _ {ℓ} {A : Type ℓ} where
  abbrev pub length : List A → ℕ
  length [] = 0
  length (x ∷ xs) = suc (length xs)

  abbrev pub get_elem? : List A → ℕ → Option A
  get_elem? [] i = none
  get_elem? (x ∷ xs) zero = some x
  get_elem? (x ∷ xs) (suc i) = get_elem? xs i

  abbrev pub get_or : List A → ℕ → A → A
  get_or [] i d = d
  get_or (x ∷ xs) zero d = x
  get_or (x ∷ xs) (suc i) d = get_or xs i d

  -- A write out of bounds changes nothing.
  abbrev pub set : List A → ℕ → A → List A
  set [] i v = []
  set (x ∷ xs) zero v = v ∷ xs
  set (x ∷ xs) (suc i) v = x ∷ set xs i v

  abbrev pub take : ℕ → List A → List A
  take zero xs = []
  take (suc n) [] = []
  take (suc n) (x ∷ xs) = x ∷ take n xs

  abbrev pub drop : ℕ → List A → List A
  drop zero xs = xs
  drop (suc n) [] = []
  drop (suc n) (x ∷ xs) = drop n xs

  abbrev pub replicate : ℕ → A → List A
  replicate zero a = []
  replicate (suc n) a = a ∷ replicate n a

  abbrev pub last? : List A → Option A
  last? [] = none
  last? (x ∷ []) = some x
  last? (x ∷ y ∷ ys) = last? (y ∷ ys)

  some_item : A → Option A → A
  some_item d none = d
  some_item d (some a) = a

  pub some-injective : {a b : A} → some a ≡ some b → a ≡ b
  unfolding some_item
  some-injective {a} {b} p = ap (some_item a) p

  pub length-append : (xs ys : List A) → length (xs ++ ys) ≡ length xs + length ys
  length-append [] ys = omega arith
  length-append (x ∷ xs) ys = omega (arith, length-append xs ys)

  pub length-set : (xs : List A) (i : ℕ) (v : A) → length (set xs i v) ≡ length xs
  length-set [] i v = refl
  length-set (x ∷ xs) zero v = refl
  length-set (x ∷ xs) (suc i) v = ap suc (length-set xs i v)

  pub length-drop-le : (n : ℕ) (xs : List A) → length (drop n xs) ≤ length xs
  length-drop-le zero xs = omega arith
  length-drop-le (suc n) [] = omega arith
  length-drop-le (suc n) (x ∷ xs) = omega (arith, length-drop-le n xs)

-- The position that the index `i` of Python names in a list of `n` items; `none` is an IndexError.
abbrev pub position : ℕ → ℤ → Option ℕ
position n (pos i) = if ltb i n then some i else none
position n (negsuc i) = if ltb i n then some (n - suc i) else none

module _ {ℓ} {A : Type ℓ} where
  get_at : List A → Option ℕ → Option A
  get_at xs none = none
  get_at xs (some i) = get_elem? xs i

  set_at : List A → Option ℕ → A → Option (List A)
  set_at xs none v = none
  set_at xs (some i) v = some (set xs i v)

  -- `xs[i]`
  unfoldable pub get_item : List A → ℤ → Option A
  unfolding get_at
  get_item xs i = get_at xs (position (length xs) i)

  -- `xs[i] = v`
  unfoldable pub set_item : List A → ℤ → A → Option (List A)
  unfolding set_at
  set_item xs i v = set_at xs (position (length xs) i) v

  length-set_at :
      (xs : List A) (o : Option ℕ) (v : A) {ys : List A}
      → set_at xs o v ≡ some ys
      → length ys ≡ length xs
  unfolding set_at
  length-set_at xs none v h = cc
  length-set_at xs (some i) v h = ground (arith, length-set xs i v)

  -- A write keeps the length.
  pub length-set_item :
      (xs : List A) (i : ℤ) (v : A) {ys : List A}
      → set_item xs i v ≡ some ys
      → length ys ≡ length xs
  unfolding set_item
  length-set_item xs i v h = length-set_at xs (position (length xs) i) v h

abbrev pub is_some : {A : Type 0} → Option A → Bool
is_some none = false
is_some (some x) = true
