-- ===== src/Linux/Mouse/Target.antt =====
-- What the mouse calls hand to the device is in range, provided that doubles behave.
pub mod Runs
use hardware_simulator.Prelude.{
  ℕ, zero, suc, ◌^◌, ◌<◌, ◌≡◌, refl, Bool, true, false, not, arith, if◌then◌else◌, if_cases, All,
}
use hardware_simulator.Prelude.Int.{ℤ, pos, negsuc, ◌+ℤ◌, ◌-ℤ◌, neg, ◌≤ℤ◌, ◌<ℤ◌, +ℤ_parts, -ℤ_parts}
use hardware_simulator.Linux.Values.{
  Doubles, Args, Response, success_null, error, uinput_unavailable,
}
use hardware_simulator.Linux.Monitors.{MonitorBounds, XServer, get_monitors, get_root_bounds}
use hardware_simulator.Linux.Mouse.{
  MouseMode, relative, absolute, button_up, MouseButton, MouseOp, horizontal_scroll,
  vertical_scroll, MouseState, MouseEnv, nth_monitor, find_button, mouse_button_to_inputtino,
  get_mouse, with_mouse, move_on_screen, motion_args, button_args, move_relative, move_absolute,
  change_button, button_or_unsupported, call_device, perform_mouse_move_relative,
  perform_mouse_move_absolute, perform_mouse_button,
}
use hardware_simulator.Linux.Mouse.Calls.{
  MouseCall, mouse_move_r, mouse_move_a, mouse_press, mouse_scroll, clear_buttons, release_buttons,
  scroll_args, scroll_both, scroll_if_moved, logical_scroll_to_linux_wheel, perform_mouse_scroll,
  release_if_there, clear_buttons_of, clear_all_pressed_mouse_buttons, run_mouse_call, run_mouse,
}
use mathlib.Core.Path.{subst}
use hardware_simulator.Linux.Mouse.Rule.{Keeps, run_mouse_keeps}
use hardware_simulator.Linux.Mouse.{press, release, move, move_abs, set_mouse_mode, target}
use hardware_simulator.Linux.Mouse.Calls.{max_linux_wheel_distance}
use hardware_simulator.Linux.Monitors.Enclosure.{Encloses, get_root_bounds-Encloses}

-- What the code relies on of doubles, for numbers of an `int`. `std::min(1.0, x)` is a number also where
-- `x` is none, so a factor that is brought into [0, 1] by `std::min` and `std::max` takes `n` to a
-- rounded value between 0 and `n`. A distance that is finite stays so when its sign is changed, and one
-- that `std::clamp` has brought between two integers is rounded between them; of one that is not finite
-- nothing is said.
pub record DoublesLaws (d : Doubles) : Type 0 where
  pub round_scaled :
      (x : d.D) (n : ℕ)
      → n < 2 ^ 31
      → let r = d.round (d.mul_d (d.max_d d.zero_d (d.min_d d.one_d x)) (d.of_int (pos n))) in
        (pos 0 ≤ℤ r) × (r ≤ℤ pos n)
  pub finite_signed :
      (x : d.D) (invert : Bool)
      → d.is_finite x ≡ true
      → d.is_finite (d.mul_d x (d.of_int (if invert then negsuc 0 else pos 1))) ≡ true
  pub round_clamped :
      (x : d.D) (lo hi : ℤ)
      → d.is_finite x ≡ true
      → neg (pos (2 ^ 31)) ≤ℤ lo
      → lo ≤ℤ hi
      → hi <ℤ pos (2 ^ 31)
      → let r = d.round (d.clamp_d x (d.of_int lo) (d.of_int hi)) in (lo ≤ℤ r) × (r ≤ℤ hi)

-- A position lies in the area that it is sent with; a wheel distance is at most 100 notches.
abbrev pub InRange : MouseOp → Type 0
InRange (move_abs x y w h) = ((pos 0 ≤ℤ x) × (x <ℤ w)) × ((pos 0 ≤ℤ y) × (y <ℤ h))
InRange (vertical_scroll d) = (neg max_linux_wheel_distance ≤ℤ d) × (d ≤ℤ max_linux_wheel_distance)
InRange (horizontal_scroll d) =
    (neg max_linux_wheel_distance ≤ℤ d) × (d ≤ℤ max_linux_wheel_distance)
InRange (move x y) = Unit {0}
InRange (press b) = Unit {0}
InRange (release b) = Unit {0}

-- The log is in range, and so is the position that a change of mode sends again.
pub record Ranged (s : MouseState) : Type 0 where
  pub log : All InRange s.device
  pub last : InRange (move_abs s.last_abs_x s.last_abs_y s.last_abs_width s.last_abs_height)

-- A size that is an `int`, and not empty.
abbrev pub IsSize : ℤ → Type 0
IsSize z = (pos 1 ≤ℤ z) × (z <ℤ pos (2 ^ 31))

-- XRandR reports monitors that are not empty.
abbrev pub IsSolid : MonitorBounds → Type 0
IsSolid m = IsSize m.width × IsSize m.height

not-false : (b : Bool) → not b ≡ false → b ≡ true
not-false true e = refl
not-false false e = absurd (cc)

pub wheel_range :
    (d : Doubles) (laws : DoublesLaws d) (x : d.D) (invert : Bool)
    → let r = logical_scroll_to_linux_wheel d x invert in
      (neg max_linux_wheel_distance ≤ℤ r) × (r ≤ℤ max_linux_wheel_distance)
unfolding logical_scroll_to_linux_wheel
wheel_range d laws x invert =
    if_cases (λ r. (neg max_linux_wheel_distance ≤ℤ r) × (r ≤ℤ max_linux_wheel_distance))
      (not (d.is_finite x)) (pos 0) _ (λ e. omega arith)
      (λ e.
        laws.round_clamped _ (neg max_linux_wheel_distance) max_linux_wheel_distance
          (laws.finite_signed x invert (not-false (d.is_finite x) e)) (omega arith) (omega arith)
          (omega arith))

suc-minus_one : (n : ℕ) → pos (suc n) -ℤ pos 1 ≡ pos n
unfolding ◌-ℤ◌
suc-minus_one n = ground arith

pub target_range :
    (env : MouseEnv) (laws : DoublesLaws env.doubles) (start root size wide : ℤ) (x : env.doubles.D)
    → IsSize size
    → root ≤ℤ start
    → start +ℤ size ≤ℤ root +ℤ wide
    → (pos 0 ≤ℤ target env start root x size) × (target env start root x size <ℤ wide)
target_range env laws start root (pos zero) wide x h l r = absurd (omega (arith, h))
target_range env laws start root (pos (suc n)) wide x h l r =
    let d = env.doubles in
    let p = d.round (d.mul_d (d.max_d d.zero_d (d.min_d d.one_d x)) (d.of_int (pos n))) in
    rw (suc-minus_one n) (
      omega (
        arith,
        laws.round_scaled x n (omega (arith, h)),
        +ℤ_parts (start -ℤ root) p,
        -ℤ_parts start root,
        +ℤ_parts start (pos (suc n)),
        +ℤ_parts root wide,
      ),
      omega (
        arith,
        laws.round_scaled x n (omega (arith, h)),
        +ℤ_parts (start -ℤ root) p,
        -ℤ_parts start root,
        +ℤ_parts start (pos (suc n)),
        +ℤ_parts root wide,
      ),
    )
target_range env laws start root (negsuc n) wide x h l r = absurd (omega (arith, h))
