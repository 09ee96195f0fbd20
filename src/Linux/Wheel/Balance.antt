-- ===== src/Linux/Wheel/Balance.antt =====
-- The detents account for the whole distance, up to less than one detent on each axis and device.
use hardware_simulator.Prelude.{
  ℕ, ◌+◌, ◌*◌, ◌<◌, ◌≡◌, ap, Bool, true, false, ◌&&◌, List, [], ◌∷◌, arith, ◌==◌, if◌then◌else◌,
  bool_eq,
}
use hardware_simulator.Prelude.Int.{
  ℤ, pos, negsuc, pos_part, neg_part, ◌+ℤ◌, eqb_ℤ, quot_ℤ, rem_ℤ, +ℤ_parts,
}
use hardware_simulator.Linux.Uinput.{UinputEvent, ev_key, ev_rel, syn_report}
use hardware_simulator.Linux.Wheel.{
  LinuxMouse, WheelCall, scroll_vertically, scroll_horizontally, switch_mode, wheel, hi_res, scroll,
  run_wheel,
}

-- The distance that a device has been told to travel along an axis.
abbrev pub travelled : Bool → ℕ → List (Bool × UinputEvent) → ℤ
travelled mode code [] = pos 0
travelled mode code ((m, ev_rel a d) ∷ es) =
    let rest = travelled mode code es in if bool_eq mode m && a == code then rest +ℤ d else rest
travelled mode code ((m, ev_key a d) ∷ es) = travelled mode code es
travelled mode code ((m, syn_report) ∷ es) = travelled mode code es

-- `t` is 120 detents of `d` and a rest of `r`, and the rest is less than a detent.
abbrev pub IsSplit : ℤ → ℤ → ℤ → Type 0
IsSplit t d r =
    (pos_part t + 120 * neg_part d + neg_part r ≡ neg_part t + 120 * pos_part d + pos_part r)
    × (pos_part r < 120)
    × (neg_part r < 120)

abbrev pub IsBalanced : LinuxMouse → Type 0
IsBalanced m =
    (mode vertical : Bool)
    → IsSplit (travelled mode (hi_res vertical) m.written)
        (travelled mode (wheel vertical) m.written) (m.remainder mode vertical)

quot_rem : (t : ℤ) → IsSplit t (quot_ℤ t 120) (rem_ℤ t 120)
quot_rem (pos n) = omega arith
quot_rem (negsuc n) = ground arith

quot_zero : (t : ℤ) → eqb_ℤ (quot_ℤ t 120) (pos 0) ≡ true → quot_ℤ t 120 ≡ pos 0
quot_zero t h = ground arith

-- One more distance `e` is split anew together with the old rest.
IsSplit-more :
    (t d r e : ℤ) → IsSplit t d r → IsSplit (t +ℤ e) (d +ℤ quot_ℤ (r +ℤ e) 120) (rem_ℤ (r +ℤ e) 120)
IsSplit-more t d r e h =
    let q = quot_rem (r +ℤ e) in
    (omega (arith, +ℤ_parts t e, +ℤ_parts d (quot_ℤ (r +ℤ e) 120), +ℤ_parts r e), q.1, q.2)

IsSplit-whole :
    (t d r e : ℤ)
    → IsSplit t d r
    → eqb_ℤ (quot_ℤ (r +ℤ e) 120) (pos 0) ≡ true
    → IsSplit (t +ℤ e) d (rem_ℤ (r +ℤ e) 120)
IsSplit-whole t d r e h z =
    let q = quot_rem (r +ℤ e) in
    let w = quot_zero (r +ℤ e) z in
    (omega (arith, +ℤ_parts t e, +ℤ_parts r e, ap pos_part w, ap neg_part w), q.1, q.2)

scroll-IsBalanced : (m : LinuxMouse) (e : ℤ) (v : Bool) → IsBalanced m → IsBalanced (scroll m e v)
unfolding scroll
scroll-IsBalanced m e v h mode axis = ground (
  arith,
  h mode axis,
  IsSplit-more (travelled mode (hi_res axis) m.written) (travelled mode (wheel axis) m.written)
      (m.remainder mode axis) e,
  IsSplit-whole (travelled mode (hi_res axis) m.written) (travelled mode (wheel axis) m.written)
      (m.remainder mode axis) e,
)

-- After any calls from a new mouse, on each device and axis, the high-resolution distance is 120 times
-- the detents plus the remainder, which is less than a detent either way.
pub run_wheel-IsBalanced :
    (m : LinuxMouse) (cs : List WheelCall) → IsBalanced m → IsBalanced (run_wheel m cs)
unfolding run_wheel
run_wheel-IsBalanced m [] h = h
run_wheel-IsBalanced m (scroll_vertically d ∷ cs) h =
    run_wheel-IsBalanced (scroll m d true) cs (scroll-IsBalanced m d true h)
run_wheel-IsBalanced m (scroll_horizontally d ∷ cs) h =
    run_wheel-IsBalanced (scroll m d false) cs (scroll-IsBalanced m d false h)
run_wheel-IsBalanced m (switch_mode a ∷ cs) h =
    run_wheel-IsBalanced (record m { absolute = a }) cs h
