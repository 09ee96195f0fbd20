-- ===== src/Linux/Integral.antt =====
-- Doubles that are whole numbers, without and with one that is not a number, at which the hypotheses on
-- doubles hold; for the tests.
use hardware_simulator.Prelude.{
  suc, ◌-◌, ◌*◌, ◌^◌, ◌≡◌, refl, sym, ap, ◌∙◌, ◌⊎◌, inl, inr, Bool, true, false, Option, none, some,
  arith, if◌then◌else◌, is_some, Option-cases,
}
use hardware_simulator.Prelude.Int.{ℤ, pos, negsuc, ◌+ℤ◌, neg, ◌≤ℤ◌, ltb_ℤ, eqb_ℤ, min_ℤ, max_ℤ}
use hardware_simulator.Linux.Values.{Doubles}
use hardware_simulator.Linux.Mouse.Target.{DoublesLaws}

abbrev pub times : ℤ → ℤ → ℤ
times (pos a) (pos b) = pos (a * b)
times (pos a) (negsuc b) = neg (pos (a * suc b))
times (negsuc a) (pos b) = neg (pos (suc a * b))
times (negsuc a) (negsuc b) = pos (suc a * suc b)

abbrev pub whole : Doubles
whole = record {
  D = ℤ;
  of_int = λ z. z;
  is_finite = λ x. true;
  zero_d = pos 0;
  one_d = pos 1;
  min_d = min_ℤ;
  max_d = max_ℤ;
  clamp_d = λ x lo hi. if ltb_ℤ x lo then lo else if ltb_ℤ hi x then hi else x;
  add_d = ◌+ℤ◌;
  mul_d = times;
  is_zero = λ x. eqb_ℤ x (pos 0);
  round = λ x. x;
}

-- `std::min`, `std::max` and `std::clamp` as their comparisons make them, which are false of what is not
-- a number.
abbrev less : Option ℤ → Option ℤ → Bool
less (some a) (some b) = ltb_ℤ a b
less _ _ = false

abbrev lift : (ℤ → ℤ → ℤ) → Option ℤ → Option ℤ → Option ℤ
lift f (some a) (some b) = some (f a b)
lift f _ _ = none

-- What is not a number is rounded to the least `int`.
abbrev rounded : Option ℤ → ℤ
rounded none = negsuc (2 ^ 31 - 1)
rounded (some a) = a

abbrev pub with_nan : Doubles
with_nan = record {
  D = Option ℤ;
  of_int = λ z. some z;
  is_finite = is_some;
  zero_d = some (pos 0);
  one_d = some (pos 1);
  min_d = λ a b. if less b a then b else a;
  max_d = λ a b. if less a b then b else a;
  clamp_d = λ x lo hi. if less x lo then lo else if less hi x then hi else x;
  add_d = lift ◌+ℤ◌;
  mul_d = lift times;
  is_zero = λ x. elim x [ none ↦ false | some a ↦ eqb_ℤ a (pos 0) ];
  round = rounded;
}

abbrev unit_of : Option ℤ → Option ℤ
unit_of x = with_nan.max_d (some (pos 0)) (with_nan.min_d (some (pos 1)) x)

unit_of_cases : (x : Option ℤ) → (unit_of x ≡ some (pos 0)) ⊎ (unit_of x ≡ some (pos 1))
unit_of_cases none = inr refl
unit_of_cases (some a) = ground arith

clamped_between :
    (a lo hi : ℤ)
    → lo ≤ℤ hi
    → let r = rounded (with_nan.clamp_d (some a) (some lo) (some hi)) in (lo ≤ℤ r) × (r ≤ℤ hi)
clamped_between a lo hi h = ground arith

-- The laws say nothing of the rounding of what is not a number, which is out of range here.
pub with_nan_laws : DoublesLaws with_nan
with_nan_laws = record {
  round_scaled = λ x n small. elim (unit_of_cases x) [
    | inl e ↦ rw (e) (omega arith)
    | inr e ↦ rw (e) (omega arith)
  ];
  finite_signed = λ x invert e. elim (Option-cases x) [
    | inl z ↦ let w : false ≡ true = sym (ap is_some z) ∙ e in absurd (cc)
    | inr (a, z) ↦ rw (z) refl
  ];
  round_clamped = λ x lo hi e l h u. elim (Option-cases x) [
    | inl z ↦ let w : false ≡ true = sym (ap is_some z) ∙ e in absurd (cc)
    | inr (a, z) ↦ rw (z) (clamped_between a lo hi h)
  ];
}
