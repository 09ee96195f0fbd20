-- ===== src/Linux/Mouse/Target/Runs.antt =====
-- Every mouse call keeps the log of the device in range.
use hardware_simulator.Prelude.{
  ℕ, zero, suc, ◌≡◌, inl, inr, Bool, true, false, some, List, [], ◌∷◌, Option-cases, if_both,
  get_elem?, All,
}
use hardware_simulator.Prelude.Int.{ℤ, pos, negsuc, eqb_ℤ}
use hardware_simulator.Linux.Monitors.{MonitorBounds, XServer, get_monitors, get_root_bounds}
use hardware_simulator.Linux.Mouse.{
  MouseMode, relative, absolute, button_up, MouseButton, horizontal_scroll, vertical_scroll,
  MouseState, MouseEnv, nth_monitor, find_button, move_on_screen, move_relative, change_button,
  call_device,
}
use hardware_simulator.Linux.Mouse.Calls.{
  MouseCall, release_buttons, scroll_both, scroll_if_moved, logical_scroll_to_linux_wheel,
  run_mouse,
}
use mathlib.Core.Path.{subst}
use hardware_simulator.Linux.Mouse.Rule.{Keeps, run_mouse_keeps}
use hardware_simulator.Linux.Mouse.{release, set_mouse_mode}
use hardware_simulator.Linux.Monitors.Enclosure.{Encloses, get_root_bounds-Encloses}
use hardware_simulator.Linux.Mouse.Target.{
  DoublesLaws, InRange, Ranged, IsSolid, wheel_range, target_range,
}

get_elem?-All {ℓ} :
    (P : MonitorBounds → Type ℓ) (ms : List MonitorBounds) (i : ℕ) (m : MonitorBounds)
    → All P ms
    → get_elem? ms i ≡ some m
    → P m
get_elem?-All P [] i m h e = absurd (cc)
get_elem?-All P (n ∷ ms) zero m h e = let same : n ≡ m = cc in subst P same h.0
get_elem?-All P (n ∷ ms) (suc i) m h e = get_elem?-All P ms i m h.1 e

nth_monitor-All {ℓ} :
    (env : MouseEnv) (P : MonitorBounds → Type ℓ) (ms : List MonitorBounds) (i : ℤ)
    (m : MonitorBounds)
    → All P ms
    → nth_monitor env ms i ≡ some m
    → P m
nth_monitor-All env P ms (pos i) m h e = get_elem?-All P ms i m h e
nth_monitor-All env P ms (negsuc i) m h e = absurd (cc)

set_mouse_mode-Ranged : (m : MouseMode) (s : MouseState) → Ranged s → Ranged (set_mouse_mode m s)
unfolding set_mouse_mode
set_mouse_mode-Ranged relative s h = record { log = (tt, h.log); last = h.last }
set_mouse_mode-Ranged absolute s h = record { log = (h.last, h.log); last = h.last }

release_buttons-Ranged :
    (ps : List (MouseButton × MouseMode)) (s : MouseState)
    → Ranged s
    → Ranged (release_buttons ps s)
unfolding release_buttons
release_buttons-Ranged [] s h = h
release_buttons-Ranged ((b, m) ∷ ps) s h =
    let k = set_mouse_mode-Ranged m s h in
    release_buttons-Ranged ps (call_device (release b) (set_mouse_mode m s))
      (record { log = (tt, k.log); last = k.last })

button_up-Ranged :
    (env : MouseEnv) (b : MouseButton) (s : MouseState) → Ranged s → Ranged (button_up env s b)
button_up-Ranged env b s h = elim (Option-cases (find_button b s.pressed)) [
  | inl e ↦ rw (e, button_up) (record { log = (tt, h.log); last = h.last })
  | inr (m, e) ↦
      let k = set_mouse_mode-Ranged m s h in
      rw (e, button_up) (record { log = (tt, k.log); last = k.last })
]

change_button-Ranged :
    (env : MouseEnv) (b : MouseButton) (down : Bool) (s : MouseState)
    → Ranged s
    → Ranged (change_button env b down s).0
unfolding change_button
change_button-Ranged env b true s h = record { log = (tt, h.log); last = h.last }
change_button-Ranged env b false s h = button_up-Ranged env b s h

module _ (env : MouseEnv) (laws : DoublesLaws env.doubles) where
  wheels-Ranged :
      (dx dy : env.doubles.D) (s : MouseState) → Ranged s → Ranged (scroll_both env dx dy s).0
  unfolding scroll_both
  wheels-Ranged dx dy s h =
      let v = logical_scroll_to_linux_wheel env.doubles dy true in
      let w = logical_scroll_to_linux_wheel env.doubles dx false in
      let u = scroll_if_moved env vertical_scroll v s in
      let k : Ranged u =
        if_both Ranged (eqb_ℤ v (pos 0)) s (call_device (vertical_scroll v) s) h
          (record { log = (wheel_range env.doubles laws dy true, h.log); last = h.last }) in
      if_both Ranged (eqb_ℤ w (pos 0)) u (call_device (horizontal_scroll w) u) k
        (record { log = (wheel_range env.doubles laws dx false, k.log); last = k.last })

  absolute-Ranged :
      (m : MonitorBounds) (root : MonitorBounds) (x y : env.doubles.D) (s : MouseState)
      → IsSolid m
      → Encloses root m
      → Ranged s
      → Ranged (move_on_screen env (some m) root x y s).0
  unfolding move_on_screen
  absolute-Ranged m root x y s solid inside h =
      let across =
        target_range env laws m.x root.x m.width root.width x solid.0 inside.from_left
          inside.to_right in
      let down =
        target_range env laws m.y root.y m.height root.height y solid.1 inside.from_top
          inside.to_bottom in
      record { log = ((across, down), h.log); last = (across, down) }

  Ranged-Keeps :
      ((display : XServer) → env.x_server ≡ some display → All IsSolid (get_monitors display))
      → Keeps env Ranged
  unfolding move_relative
  Ranged-Keeps solid = record {
    creation = λ s c n h. record { log = h.log; last = h.last };
    relative_move = λ x y s h. record { log = (tt, h.log); last = h.last };
    absolute_move = λ display m i x y s there e h.
        absolute-Ranged m (get_root_bounds (get_monitors display)) x y s
          (nth_monitor-All env IsSolid (get_monitors display) i m (solid display there) e)
          (nth_monitor-All env _ (get_monitors display) i m
            (get_root_bounds-Encloses (get_monitors display)) e)
          h;
    button = change_button-Ranged env;
    wheels = wheels-Ranged;
    releases = λ ps s h.
        release_buttons-Ranged ps (record s { pressed = [] })
          (record { log = h.log; last = h.last });
  }

  -- On monitors that are not empty, their sizes those of an `int`, any calls keep the log in range: each
  -- absolute position lies inside the area it is sent with, also the one sent again at a release, and no
  -- wheel distance passes 100 notches, whether the argument is finite or not.
  pub run_mouse-InRange :
      ((display : XServer) → env.x_server ≡ some display → All IsSolid (get_monitors display))
      → (s : MouseState) (cs : List (MouseCall env.doubles.D)) → Ranged s
      → All InRange (run_mouse env s cs).device
  run_mouse-InRange solid s cs h = (run_mouse_keeps env Ranged (Ranged-Keeps solid) s cs h).log
