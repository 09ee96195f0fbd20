-- ===== src/Linux/Mouse/Pairing/Runs.antt =====
-- Every mouse call keeps the pairing of presses and releases.
use hardware_simulator.Prelude.{
  ◌≡◌, refl, sym, ◌∙◌, ◌↔◌, Bool, true, false, some, List, [], if_both,
}
use hardware_simulator.Prelude.Int.{ℤ, pos, eqb_ℤ}
use hardware_simulator.Linux.Mouse.{
  MouseMode, MouseButton, MouseOp, horizontal_scroll, vertical_scroll, MouseState, MouseEnv,
  find_button, move_on_screen, move_relative, change_button, call_device,
}
use hardware_simulator.Linux.Mouse.Calls.{
  MouseCall, scroll_both, scroll_if_moved, logical_scroll_to_linux_wheel, run_mouse,
}
use hardware_simulator.Linux.Mouse.Rule.{Keeps, run_mouse_keeps}
use hardware_simulator.Linux.Mouse.Pairing.Down.{
  is_down_on, IsFresh, newest-is_down_on, is_down_on-newest,
}
use hardware_simulator.Linux.Mouse.Pairing.{
  Inv, IsPaired, button_down-Inv, button_up-Inv, release_buttons-Inv,
}

change_button-Inv :
    (env : MouseEnv) (b : MouseButton) (down : Bool) (t : MouseState)
    → Inv t
    → Inv (change_button env b down t).0
unfolding change_button
change_button-Inv env b true t h = button_down-Inv env t b h
change_button-Inv env b false t h = button_up-Inv env t b h

scroll_if_moved-Inv :
    (env : MouseEnv) (op : ℤ → MouseOp) (d : ℤ) (s : MouseState)
    → Inv (call_device (op d) s)
    → Inv s
    → Inv (scroll_if_moved env op d s)
scroll_if_moved-Inv env op d s k h = if_both Inv (eqb_ℤ d (pos 0)) s (call_device (op d) s) h k

scroll_both-Inv :
    (env : MouseEnv) (dx dy : env.doubles.D) (t : MouseState)
    → Inv t
    → Inv (scroll_both env dx dy t).0
unfolding scroll_both
scroll_both-Inv env dx dy t h =
    let v = logical_scroll_to_linux_wheel env.doubles dy true in
    let u = scroll_if_moved env vertical_scroll v t in
    let k : Inv u =
      scroll_if_moved-Inv env vertical_scroll v t
        (record { mode = h.mode; holds = h.holds; paired = h.paired; ordered = h.ordered }) h in
    scroll_if_moved-Inv env horizontal_scroll (logical_scroll_to_linux_wheel env.doubles dx false) u
      (record { mode = k.mode; holds = k.holds; paired = k.paired; ordered = k.ordered }) k

Inv-Keeps : (env : MouseEnv) → Keeps env Inv
unfolding move_relative move_on_screen
Inv-Keeps env = record {
  creation =
      λ s c n h. record { mode = h.mode; holds = h.holds; paired = h.paired; ordered = h.ordered };
  relative_move =
      λ x y s h. record { mode = refl; holds = h.holds; paired = h.paired; ordered = h.ordered };
  absolute_move = λ display m i x y s there e h. record {
    mode = refl;
    holds = h.holds;
    paired = h.paired;
    ordered = h.ordered;
  };
  button = change_button-Inv env;
  wheels = scroll_both-Inv env;
  releases = λ ps s h. release_buttons-Inv 0 ps (record s { pressed = [] }) h.ordered refl h;
}

-- After any calls, from any state that satisfies the invariant, each release of a button that was pressed
-- since its last release went to the device of its newest press, and a button that the plugin's map holds
-- is down on the device of its mode.
pub run_mouse-IsPaired :
    (env : MouseEnv) (s : MouseState) (cs : List (MouseCall env.doubles.D))
    → Inv s
    → IsPaired (run_mouse env s cs).device
      × ((b : MouseButton) (m : MouseMode)
          → find_button b (run_mouse env s cs).pressed ≡ some m
          → is_down_on m b (run_mouse env s cs).device ≡ true)
run_mouse-IsPaired env s cs h =
    let k = run_mouse_keeps env Inv (Inv-Keeps env) s cs h in
    (k.paired, λ b m e. newest-is_down_on m b (run_mouse env s cs).device (sym (k.holds b) ∙ e))

-- After any calls, from any state that satisfies the invariant, if no button was pressed in one mode while
-- its newest press, not released, was in the other, a button is down on a device exactly if the plugin's
-- map holds it in the mode of that device.
pub run_mouse-is_down_on :
    (env : MouseEnv) (s : MouseState) (cs : List (MouseCall env.doubles.D))
    → Inv s
    → IsFresh (run_mouse env s cs).device
    → (b : MouseButton) (m : MouseMode)
    → (is_down_on m b (run_mouse env s cs).device ≡ true)
      ↔ (find_button b (run_mouse env s cs).pressed ≡ some m)
run_mouse-is_down_on env s cs h f b m =
    let k = run_mouse_keeps env Inv (Inv-Keeps env) s cs h in
    let t = run_mouse env s cs in
    (
      λ e. k.holds b ∙ is_down_on-newest m b t.device k.paired f e,
      λ e. newest-is_down_on m b t.device (sym (k.holds b) ∙ e),
    )
