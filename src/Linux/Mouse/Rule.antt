-- ===== src/Linux/Mouse/Rule.antt =====
-- The rule for invariants of the mouse: what every step on the device keeps, every call keeps.
use hardware_simulator.Prelude.{
  ℕ, ◌≡◌, refl, inl, inr, Bool, true, false, Option, none, some, List, [], ◌∷◌, Option-cases,
  if_both,
}
use hardware_simulator.Prelude.Int.{ℤ}
use hardware_simulator.Linux.Values.{Args, Response, error, uinput_unavailable}
use hardware_simulator.Linux.Monitors.{MonitorBounds, XServer, get_monitors, get_root_bounds}
use hardware_simulator.Linux.Mouse.{
  MouseMode, MouseButton, MouseState, MouseEnv, nth_monitor, mouse_button_to_inputtino, get_mouse,
  with_mouse, move_on_screen, motion_args, button_args, move_relative, move_absolute, change_button,
  button_or_unsupported, perform_mouse_move_relative, perform_mouse_move_absolute,
  perform_mouse_button,
}
use hardware_simulator.Linux.Mouse.Calls.{
  MouseCall, mouse_move_r, mouse_move_a, mouse_press, mouse_scroll, clear_buttons, release_buttons,
  scroll_args, scroll_both, perform_mouse_scroll, release_if_there, clear_buttons_of,
  clear_all_pressed_mouse_buttons, run_mouse_call, run_mouse,
}

-- The steps that a call is made of.
pub record Keeps {ℓ} (env : MouseEnv) (P : MouseState → Type ℓ) : Type ℓ where
  pub creation :
      (s : MouseState) (c : Bool) (n : ℕ) → P s → P (record s { created = c; attempts = n })
  pub relative_move : (x y : env.doubles.D) (s : MouseState) → P s → P (move_relative env x y s).0
  pub absolute_move :
      (display : XServer) (m : MonitorBounds) (i : ℤ) (x y : env.doubles.D) (s : MouseState)
      → env.x_server ≡ some display
      → nth_monitor env (get_monitors display) i ≡ some m
      → P s
      → P (move_on_screen env (some m) (get_root_bounds (get_monitors display)) x y s).0
  pub button :
      (b : MouseButton) (down : Bool) (s : MouseState) → P s → P (change_button env b down s).0
  pub wheels : (dx dy : env.doubles.D) (s : MouseState) → P s → P (scroll_both env dx dy s).0
  pub releases :
      (ps : List (MouseButton × MouseMode)) (s : MouseState)
      → P (record s { pressed = ps })
      → P (release_buttons ps (record s { pressed = [] }))

module _ {ℓ} (env : MouseEnv) (P : MouseState → Type ℓ) (keeps : Keeps env P) where
  get_mouse_keeps : (s : MouseState) → P s → P (get_mouse env s).0
  unfolding get_mouse
  get_mouse_keeps s h =
      if_both (λ (r : MouseState × Bool). P r.0) s.created (s, true) _ h (keeps.creation s _ _ h)

  with_mouse_keeps :
      (s : MouseState) (body : MouseState → MouseState × Response)
      → ((t : MouseState) → P t → P (body t).0)
      → P s
      → P (with_mouse env s body).0
  unfolding with_mouse
  with_mouse_keeps s body keep h =
      let t = (get_mouse env s).0 in
      if_both (λ (r : MouseState × Response). P r.0) (get_mouse env s).1 (body t)
        (t, error uinput_unavailable) (keep t (get_mouse_keeps s h)) (get_mouse_keeps s h)

  move_relative_keeps :
      (s : MouseState) (args : Args env.doubles.D)
      → P s
      → P (perform_mouse_move_relative env s args).0
  unfolding perform_mouse_move_relative
  move_relative_keeps s args h = elim (Option-cases (motion_args env args)) [
    | inl e ↦ rw (perform_mouse_move_relative, e) h
    | inr ((x, y, screen), e) ↦
        rw (perform_mouse_move_relative, e)
          (with_mouse_keeps s (move_relative env x y) (keeps.relative_move x y) h)
  ]

  move_absolute_body :
      (display : Option XServer) (x y : env.doubles.D) (screen : ℤ) (t : MouseState)
      → env.x_server ≡ display
      → P t
      → P (move_absolute env display x y screen t).0
  unfolding move_absolute
  move_absolute_body none x y screen t there h = h
  move_absolute_body (some display) x y screen t there h =
      elim (Option-cases (nth_monitor env (get_monitors display) screen)) [
        | inl e ↦ rw (e, move_on_screen) h
        | inr (m, e) ↦ rw (e) (keeps.absolute_move display m screen x y t there e h)
      ]

  move_absolute_keeps :
      (s : MouseState) (args : Args env.doubles.D)
      → P s
      → P (perform_mouse_move_absolute env s args).0
  unfolding perform_mouse_move_absolute
  move_absolute_keeps s args h = elim (Option-cases (motion_args env args)) [
    | inl e ↦ rw (perform_mouse_move_absolute, e) h
    | inr ((x, y, screen), e) ↦
        rw (perform_mouse_move_absolute, e)
          (with_mouse_keeps s (move_absolute env env.x_server x y screen)
            (λ t k. move_absolute_body env.x_server x y screen t refl k) h)
  ]

  button_body :
      (b : Option MouseButton) (down : Bool) (s : MouseState)
      → P s
      → P (button_or_unsupported env b down s).0
  unfolding button_or_unsupported
  button_body none down s h = h
  button_body (some b) down s h =
      with_mouse_keeps s (change_button env b down) (keeps.button b down) h

  button_keeps :
      (s : MouseState) (args : Args env.doubles.D) → P s → P (perform_mouse_button env s args).0
  unfolding perform_mouse_button
  button_keeps s args h = elim (Option-cases (button_args env args)) [
    | inl e ↦ rw (perform_mouse_button, e) h
    | inr ((id, down), e) ↦
        rw (perform_mouse_button, e) (button_body (mouse_button_to_inputtino id) down s h)
  ]

  scroll_keeps :
      (s : MouseState) (args : Args env.doubles.D) → P s → P (perform_mouse_scroll env s args).0
  unfolding perform_mouse_scroll
  scroll_keeps s args h = elim (Option-cases (scroll_args env args)) [
    | inl e ↦ rw (perform_mouse_scroll, e) h
    | inr ((dx, dy), e) ↦
        rw (perform_mouse_scroll, e)
          (with_mouse_keeps s (scroll_both env dx dy) (keeps.wheels dx dy) h)
  ]

  release_keeps :
      (ps : List (MouseButton × MouseMode)) (t : MouseState) (there : Bool)
      → P (record t { pressed = ps })
      → P (release_if_there env ps (t, there)).0
  unfolding release_if_there
  release_keeps ps t false h = h
  release_keeps ps t true h = keeps.releases ps t h

  clear_keeps :
      (ps : List (MouseButton × MouseMode)) (s : MouseState)
      → P (record s { pressed = ps })
      → P (clear_buttons_of env ps (record s { pressed = [] })).0
  unfolding clear_buttons_of
  clear_keeps [] s h = h
  clear_keeps (p ∷ ps) s h =
      release_keeps (p ∷ ps) (get_mouse env (record s { pressed = [] })).0 _ (
        unfold get_mouse in
        if_both (λ (r : MouseState × Bool). P (record (r.0) { pressed = p ∷ ps })) s.created
          (record s { pressed = [] }, true) _ h
          (keeps.creation (record s { pressed = p ∷ ps }) _ _ h))

  run_mouse_call_keeps :
      (s : MouseState) (c : MouseCall env.doubles.D) → P s → P (run_mouse_call env s c)
  unfolding run_mouse_call
  run_mouse_call_keeps s (mouse_move_r args) h = move_relative_keeps s args h
  run_mouse_call_keeps s (mouse_move_a args) h = move_absolute_keeps s args h
  run_mouse_call_keeps s (mouse_press args) h = button_keeps s args h
  run_mouse_call_keeps s (mouse_scroll args) h = scroll_keeps s args h
  run_mouse_call_keeps s clear_buttons h =
      unfold clear_all_pressed_mouse_buttons in clear_keeps s.pressed s h

  -- The rule.
  pub run_mouse_keeps :
      (s : MouseState) (cs : List (MouseCall env.doubles.D)) → P s → P (run_mouse env s cs)
  unfolding run_mouse
  run_mouse_keeps s [] h = h
  run_mouse_keeps s (c ∷ cs) h =
      run_mouse_keeps (run_mouse_call env s c) cs (run_mouse_call_keeps s c h)
