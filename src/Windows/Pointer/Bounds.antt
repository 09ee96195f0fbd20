-- ===== src/Windows/Pointer/Bounds.antt =====
-- The places that Windows is given lie on the monitor, and in the range of absolute coordinates.
use hardware_simulator.Prelude.{
  ℕ, zero, suc, ◌+◌, ◌*◌, ◌^◌, ◌≤◌, ◌<◌, ◌≡◌, refl, sym, ◌∙◌, inl, inr, Bool, true, false, not,
  ◌||◌, Option, none, some, List, [], ◌∷◌, arith, Bool-cases, Option-cases, ◌>>=◌, if_cases,
  if_true, if_false, All,
}
use hardware_simulator.Prelude.Int.{
  ℤ, pos, negsuc, ◌+ℤ◌, ◌-ℤ◌, ◌≤ℤ◌, ◌<ℤ◌, eqb_ℤ, max_ℤ, +ℤ_parts, -ℤ_parts,
}
use mathlib.Core.Path.{subst}
use hardware_simulator.Linux.Values.{Doubles}
use hardware_simulator.Windows.Pointer.{
  Point, Rect, MonitorInfo, Metrics, is_empty_rect, offset_in, normalized_point_on_monitor,
  adjust_to_screen, adjust_to_virtual_desktop_pixels, to_absolute, adjust_to_virtual_desktop,
  monitor_rect_for_screen_id,
}

-- What the code relies on of doubles: `std::clamp` brings a finite fraction into [0, 1], which then takes
-- an `int` `n` to a rounded value between 0 and `n`. Of a fraction that is not finite nothing is said.
pub record ClampLaws (d : Doubles) : Type 0 where
  pub round_clamped_factor :
      (x : d.D) (n : ℕ)
      → d.is_finite x ≡ true
      → n < 2 ^ 31
      → let r = d.round (d.mul_d (d.clamp_d x d.zero_d d.one_d) (d.of_int (pos n))) in
        (pos 0 ≤ℤ r) × (r ≤ℤ pos n)

-- MulDiv rounds the quotient to the nearest integer, here for numbers that are not negative: where they
-- and the quotient fit an `int`.
pub record MulDivLaws (m : Metrics) : Type 0 where
  pub nearest :
      (a b c : ℕ)
      → 0 < c
      → a < 2 ^ 31
      → b < 2 ^ 31
      → c < 2 ^ 31
      → 2 * (a * b) + c < 2 * (c * 2 ^ 31)
      → (q : ℕ) × (m.mul_div (pos a) (pos b) (pos c) ≡ pos q) × (2 * (c * q) ≤ 2 * (a * b) + c)

abbrev pub On : Rect → Point → Type 0
On r p = ((r.left ≤ℤ p.x) × (p.x <ℤ r.right)) × ((r.top ≤ℤ p.y) × (p.y <ℤ r.bottom))

-- Every point that is answered has the property.
abbrev pub Answers : (Point → Type 0) → Option Point → Type 0
Answers P none = Unit
Answers P (some p) = P p

suc-minus_one : (n : ℕ) → pos (suc n) -ℤ pos 1 ≡ pos n
unfolding ◌-ℤ◌
suc-minus_one n = ground arith

offset_in_range :
    (d : Doubles) (laws : ClampLaws d) (size : ℤ) (x : d.D)
    → d.is_finite x ≡ true
    → pos 1 ≤ℤ size
    → size <ℤ pos (2 ^ 31)
    → (pos 0 ≤ℤ offset_in d size x) × (offset_in d size x <ℤ size)
offset_in_range d laws (pos zero) x f h u = absurd (omega (arith, h))
offset_in_range d laws (pos (suc n)) x f h u =
    rw (offset_in, suc-minus_one n)
      (
        omega (arith, laws.round_clamped_factor x n f (omega (arith, u))),
        omega (arith, laws.round_clamped_factor x n f (omega (arith, u))),
      )
offset_in_range d laws (negsuc n) x f h u = absurd (omega (arith, h))

not_empty :
    (r : Rect) (b c : Bool)
    → (not b || not c || is_empty_rect r) ≡ false
    → ((b ≡ true) × (c ≡ true)) × ((r.left <ℤ r.right) × (r.top <ℤ r.bottom))
not_empty r true true e = ((refl, refl), ground (arith, e))
not_empty r true false e = absurd (cc)
not_empty r false c e = absurd (cc)

-- A fraction's offset from one edge stays before the other.
inside :
    (d : Doubles) (laws : ClampLaws d) (lo hi : ℤ) (x : d.D)
    → d.is_finite x ≡ true
    → lo <ℤ hi
    → hi -ℤ lo <ℤ pos (2 ^ 31)
    → (lo ≤ℤ lo +ℤ offset_in d (hi -ℤ lo) x) × (lo +ℤ offset_in d (hi -ℤ lo) x <ℤ hi)
inside d laws lo hi x f h u =
    let o = offset_in_range d laws (hi -ℤ lo) x f (omega (arith, h, -ℤ_parts hi lo)) u in
    (
      omega (arith, o, +ℤ_parts lo (offset_in d (hi -ℤ lo) x), -ℤ_parts hi lo),
      omega (arith, o, +ℤ_parts lo (offset_in d (hi -ℤ lo) x), -ℤ_parts hi lo),
    )

-- The sizes of a rectangle fit an `int`.
abbrev pub IsShort : Rect → Type 0
IsShort r = (r.right -ℤ r.left <ℤ pos (2 ^ 31)) × (r.bottom -ℤ r.top <ℤ pos (2 ^ 31))

-- A point that is answered lies on the monitor.
pub normalized_point_on_monitor-On :
    (d : Doubles) (laws : ClampLaws d) (r : Rect) (x y : d.D)
    → IsShort r
    → Answers (On r) (normalized_point_on_monitor d r x y)
unfolding normalized_point_on_monitor
normalized_point_on_monitor-On d laws r x y short =
    if_cases (Answers (On r)) (not (d.is_finite x) || not (d.is_finite y) || is_empty_rect r) none _
      (λ e. tt)
      (λ e.
        let (finite, full) = not_empty r (d.is_finite x) (d.is_finite y) e in
        (
          inside d laws r.left r.right x finite.0 full.0 short.0,
          inside d laws r.top r.bottom y finite.1 full.1 short.1,
        ))

quotient_le : (a b c q : ℕ) → 0 < c → a ≤ c → 2 * (c * q) ≤ 2 * (a * b) + c → q ≤ b
quotient_le a b c q h le n = grind arith

-- The quotient of MulDiv by a number that the first factor does not pass is at most the second factor.
mul_div_le :
    (m : Metrics) (laws : MulDivLaws m) (a c : ℕ)
    → 0 < c
    → c < 2 ^ 31
    → a ≤ c
    → (pos 0 ≤ℤ m.mul_div (pos a) (pos 65535) (pos c))
      × (m.mul_div (pos a) (pos 65535) (pos c) ≤ℤ pos 65535)
mul_div_le m laws a c h small le =
    let near =
      laws.nearest a 65535 c h (omega (arith, small, le)) (omega arith) small
        (omega (arith, h, le)) in
    rw (near.1) (omega arith, omega (arith, quotient_le a 65535 c near.0 h le near.2))

-- The divisor that `to_absolute` uses.
abbrev span : ℤ → ℤ
span size = max_ℤ (pos 1) (max_ℤ (pos 1) size -ℤ pos 1)

span_pos :
    (size : ℤ)
    → size <ℤ pos (2 ^ 31)
    → (c : ℕ) × (span size ≡ pos c) × (0 < c) × (size ≤ℤ pos (suc c)) × (c < 2 ^ 31)
unfolding max_ℤ ◌-ℤ◌
span_pos (pos zero) u = (1, refl, omega arith, omega arith, omega arith)
span_pos (pos (suc zero)) u = (1, refl, omega arith, omega arith, omega arith)
span_pos (pos (suc (suc n))) u = (suc n, ground arith, omega arith, omega arith, omega (arith, u))
span_pos (negsuc n) u = (1, ground arith, omega arith, omega arith, omega arith)

abbrev pub IsAbsolute : ℤ → Type 0
IsAbsolute v = (pos 0 ≤ℤ v) × (v ≤ℤ pos 65535)

to_absolute-IsAbsolute :
    (m : Metrics) (laws : MulDivLaws m) (v size : ℤ)
    → size <ℤ pos (2 ^ 31)
    → pos 0 ≤ℤ v
    → v <ℤ size
    → IsAbsolute (to_absolute m v size)
unfolding to_absolute
to_absolute-IsAbsolute m laws (pos a) size u h l =
    let c = span_pos size u in
    rw (to_absolute, c.1) (mul_div_le m laws a c.0 c.2 c.4 (omega (arith, l, c.3)))
to_absolute-IsAbsolute m laws (negsuc a) size u h l = absurd (omega (arith, h))

-- The virtual desktop encloses the monitor.
abbrev pub Encloses : Metrics → Rect → Type 0
Encloses m r =
    ((m.origin.x ≤ℤ r.left) × (r.right ≤ℤ m.origin.x +ℤ m.virtual_width))
    × ((m.origin.y ≤ℤ r.top) × (r.bottom ≤ℤ m.origin.y +ℤ m.virtual_height))

-- The sizes of the virtual desktop fit an `int`.
abbrev pub HasIntSize : Metrics → Type 0
HasIntSize m = (m.virtual_width <ℤ pos (2 ^ 31)) × (m.virtual_height <ℤ pos (2 ^ 31))

Encloses-IsShort : (m : Metrics) (r : Rect) → HasIntSize m → Encloses m r → IsShort r
Encloses-IsShort m r s e = (
  omega (arith, s, e, -ℤ_parts r.right r.left, +ℤ_parts m.origin.x m.virtual_width),
  omega (arith, s, e, -ℤ_parts r.bottom r.top, +ℤ_parts m.origin.y m.virtual_height),
)

relative_in :
    (o p lo hi w : ℤ)
    → (o ≤ℤ lo) × (hi ≤ℤ o +ℤ w)
    → (lo ≤ℤ p) × (p <ℤ hi)
    → (pos 0 ≤ℤ p -ℤ o) × (p -ℤ o <ℤ w)
relative_in o p lo hi w e i =
    (omega (arith, e, i, -ℤ_parts p o), omega (arith, e, i, -ℤ_parts p o, +ℤ_parts o w))

-- What the place in a monitor becomes.
abbrev absolute : Metrics → Point → Point
absolute m p = record {
  x = to_absolute m (p.x -ℤ m.origin.x) m.virtual_width;
  y = to_absolute m (p.y -ℤ m.origin.y) m.virtual_height;
}

absolute_of :
    (m : Metrics) (nearest : MulDivLaws m) (r : Rect) (o : Option Point)
    → HasIntSize m
    → Encloses m r
    → Answers (On r) o
    → Answers (λ p. IsAbsolute p.x × IsAbsolute p.y) (o >>= λ p. some (absolute m p))
absolute_of m nearest r none s e h = tt
absolute_of m nearest r (some p) s e h =
    let i = relative_in m.origin.x p.x r.left r.right m.virtual_width e.0 h.0 in
    let j = relative_in m.origin.y p.y r.top r.bottom m.virtual_height e.1 h.1 in
    (
      to_absolute-IsAbsolute m nearest _ m.virtual_width s.0 i.0 i.1,
      to_absolute-IsAbsolute m nearest _ m.virtual_height s.1 j.0 j.1,
    )

-- The three conversions are one.
composed :
    (d : Doubles) (m : Metrics) (monitors : List MonitorInfo) (id : ℤ) (x y : d.D)
    → adjust_to_virtual_desktop d m monitors id x y
      ≡ (adjust_to_screen d monitors id x y >>= λ p. some (absolute m p))
unfolding adjust_to_virtual_desktop adjust_to_virtual_desktop_pixels
composed d m monitors id x y = elim (Option-cases (adjust_to_screen d monitors id x y)) [
  | inl e ↦ rw e refl
  | inr (p, e) ↦ rw e refl
]

found-Encloses :
    (m : Metrics) (monitors : List MonitorInfo) (id : ℤ) (r : Rect)
    → All (λ i. Encloses m i.rect) monitors
    → monitor_rect_for_screen_id monitors id ≡ some r
    → Encloses m r
unfolding monitor_rect_for_screen_id
found-Encloses m [] id r h e = absurd (cc)
found-Encloses m (i ∷ is) id r h e = elim (Bool-cases (eqb_ℤ i.screen_id id)) [
  | inl t ↦
      let at : some i.rect ≡ some r = sym (if_true _ (some i.rect) _ t) ∙ e in
      subst (Encloses m) (cc at) (h.0)
  | inr f ↦ found-Encloses m is id r h.1 (sym (if_false _ (some i.rect) _ f) ∙ e)
]

-- The point that the mouse is moved to is in the range of absolute coordinates, where the virtual
-- desktop, its sizes those of an `int`, encloses every monitor.
pub adjust_to_virtual_desktop-IsAbsolute :
    (d : Doubles) (laws : ClampLaws d) (m : Metrics) (nearest : MulDivLaws m)
    (monitors : List MonitorInfo) (id : ℤ) (x y : d.D)
    → HasIntSize m
    → All (λ i. Encloses m i.rect) monitors
    → Answers (λ p. IsAbsolute p.x × IsAbsolute p.y) (adjust_to_virtual_desktop d m monitors id x y)
unfolding adjust_to_screen
adjust_to_virtual_desktop-IsAbsolute d laws m nearest monitors id x y sizes h =
    elim (Option-cases (monitor_rect_for_screen_id monitors id)) [
      | inl e ↦ rw (composed, adjust_to_screen, e) tt
      | inr (r, e) ↦
          rw (composed, adjust_to_screen, e)
            (absolute_of m nearest r _ sizes (found-Encloses m monitors id r h e) (
              normalized_point_on_monitor-On d laws r x y
                (Encloses-IsShort m r sizes (found-Encloses m monitors id r h e))))
    ]
