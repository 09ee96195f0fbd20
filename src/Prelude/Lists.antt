-- ===== src/Prelude/Lists.antt =====
-- Lists measured by native numbers, and sets of numbers as `std::set` keeps them.
use Prim.Native.Nat.{ℕ, zero, suc, ◌+◌}
use mathlib.Core.Path.{◌≡◌, refl}
use mathlib.Core.Bool.{Bool, false, not, ◌||◌, ◌&&◌}
use mathlib.Core.List.{List, [], ◌∷◌, ◌++◌}
use mathlib.Core.Option.{Option, none, some}
use native.Mathlib.Omega.{arith}
use hardware_simulator.Prelude.Tests.{ltb, ◌==◌, if◌then◌else◌}

module _ {ℓ} {A : Type ℓ} where
  abbrev pub length : List A → ℕ
  length [] = 0
  length (x ∷ xs) = suc (length xs)

  abbrev pub get_elem? : List A → ℕ → Option A
  get_elem? [] i = none
  get_elem? (x ∷ xs) zero = some x
  get_elem? (x ∷ xs) (suc i) = get_elem? xs i

  -- A write out of bounds changes nothing.
  abbrev pub set : List A → ℕ → A → List A
  set [] i v = []
  set (x ∷ xs) zero v = v ∷ xs
  set (x ∷ xs) (suc i) v = x ∷ set xs i v

  abbrev pub take : ℕ → List A → List A
  take zero xs = []
  take (suc n) [] = []
  take (suc n) (x ∷ xs) = x ∷ take n xs

  abbrev pub drop : ℕ → List A → List A
  drop zero xs = xs
  drop (suc n) [] = []
  drop (suc n) (x ∷ xs) = drop n xs

  pub length-append : (xs ys : List A) → length (xs ++ ys) ≡ length xs + length ys
  length-append [] ys = omega arith
  length-append (x ∷ xs) ys = omega (arith, length-append xs ys)

  pub length-set : (xs : List A) (i : ℕ) (v : A) → length (set xs i v) ≡ length xs
  length-set [] i v = refl
  length-set (x ∷ xs) zero v = refl
  length-set (x ∷ xs) (suc i) v = omega (arith, length-set xs i v)

-- A predicate of every entry.
abbrev pub All {ℓ κ} : {A : Type ℓ} → (A → Type κ) → List A → Type κ
All P [] = Unit
All P (x ∷ xs) = P x × All P xs

pub All-append {ℓ κ} :
    {A : Type ℓ} (P : A → Type κ) (xs ys : List A) → All P xs → All P ys → All P (xs ++ ys)
All-append P [] ys h k = k
All-append P (x ∷ xs) ys h k = (h.0, All-append P xs ys h.1 k)

-- `std::set<int>`: an ascending list without repetitions.
abbrev pub contains : ℕ → List ℕ → Bool
contains k [] = false
contains k (x ∷ xs) = x == k || contains k xs

abbrev pub set_insert : ℕ → List ℕ → List ℕ
set_insert k [] = k ∷ []
set_insert k (x ∷ xs) =
    let rest = set_insert k xs in
    if ltb k x then k ∷ x ∷ xs else if x == k then x ∷ xs else x ∷ rest

abbrev pub set_erase : ℕ → List ℕ → List ℕ
set_erase k [] = []
set_erase k (x ∷ xs) = let rest = set_erase k xs in if x == k then rest else x ∷ rest

pub contains-set_insert :
    (j k : ℕ) (xs : List ℕ) → contains j (set_insert k xs) ≡ (k == j || contains j xs)
contains-set_insert j k [] = refl
contains-set_insert j k (x ∷ xs) = ground (arith, contains-set_insert j k xs)

pub contains-set_erase :
    (j k : ℕ) (xs : List ℕ) → contains j (set_erase k xs) ≡ (not (k == j) && contains j xs)
contains-set_erase j k [] = ground arith
contains-set_erase j k (x ∷ xs) = ground (arith, contains-set_erase j k xs)
