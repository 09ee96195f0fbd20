-- ===== src/Linux/Wheel.antt =====
-- linux/linux_mouse.cc: high-resolution scrolling with detents for the programs that know no other.
--
-- The mouse has a relative and an absolute uinput device (inputtino); either may be missing. The
-- results of the writes are not read by the code, so the model keeps what was written, newest first.
pub mod Balance
mod Tests
use hardware_simulator.Prelude.{
  ℕ, Bool, true, false, not, ◌&&◌, List, [], ◌∷◌, if◌then◌else◌, bool_eq,
}
use hardware_simulator.Prelude.Int.{ℤ, pos, ◌+ℤ◌, eqb_ℤ, quot_ℤ, rem_ℤ}
use hardware_simulator.Linux.Uinput.{UinputEvent, ev_rel, syn_report}

-- The two axes, and the two modes by the `absolute` flag of the mouse.
pub record LinuxMouse : Type 0 where
  pub absolute : Bool
  pub mouse_abs : Bool
  pub mouse_rel : Bool
  -- `remainder_[mode][vertical ? 0 : 1]`
  pub remainder : Bool → Bool → ℤ
  pub written : List (Bool × UinputEvent)

abbrev pub new_mouse : Bool → Bool → LinuxMouse
new_mouse a r = record {
  absolute = false;
  mouse_abs = a;
  mouse_rel = r;
  remainder = λ m v. pos 0;
  written = [];
}

abbrev pub rel_hwheel : ℕ
rel_hwheel = 6

abbrev pub rel_wheel : ℕ
rel_wheel = 8

abbrev pub rel_wheel_hi_res : ℕ
rel_wheel_hi_res = 11

abbrev pub rel_hwheel_hi_res : ℕ
rel_hwheel_hi_res = 12

abbrev pub wheel : Bool → ℕ
wheel vertical = if vertical then rel_wheel else rel_hwheel

abbrev pub hi_res : Bool → ℕ
hi_res vertical = if vertical then rel_wheel_hi_res else rel_hwheel_hi_res

abbrev set_remainder : LinuxMouse → Bool → ℤ → Bool → Bool → ℤ
set_remainder m vertical r mode axis =
    if bool_eq mode m.absolute && bool_eq axis vertical then r else m.remainder mode axis

unfoldable pub scroll : LinuxMouse → ℤ → Bool → LinuxMouse
scroll m distance vertical =
    if not (if m.absolute then m.mouse_abs else m.mouse_rel)
    then m
    else let total = m.remainder m.absolute vertical +ℤ distance in
      let detents = quot_ℤ total 120 in
      let mode = m.absolute in
      let rest =
        (mode, ev_rel (hi_res vertical) distance)
        ∷ (if eqb_ℤ detents (pos 0)
            then m.written
            else (mode, ev_rel (wheel vertical) detents) ∷ m.written) in
      record m {
        remainder = set_remainder m vertical (rem_ℤ total 120);
        written = (mode, syn_report) ∷ rest;
      }

unfoldable pub vertical_scroll : LinuxMouse → ℤ → LinuxMouse
unfolding scroll
vertical_scroll m distance = scroll m distance true

unfoldable pub horizontal_scroll : LinuxMouse → ℤ → LinuxMouse
unfolding scroll
horizontal_scroll m distance = scroll m distance false

-- A client scrolls, and moves between scrolls set the `absolute` flag.
pub data WheelCall : Type 0 where
  scroll_vertically : ℤ → WheelCall
  scroll_horizontally : ℤ → WheelCall
  switch_mode : Bool → WheelCall

unfoldable pub run_wheel : LinuxMouse → List WheelCall → LinuxMouse
unfolding vertical_scroll horizontal_scroll
run_wheel m [] = m
run_wheel m (scroll_vertically d ∷ cs) = run_wheel (vertical_scroll m d) cs
run_wheel m (scroll_horizontally d ∷ cs) = run_wheel (horizontal_scroll m d) cs
run_wheel m (switch_mode a ∷ cs) = run_wheel (record m { absolute = a }) cs
