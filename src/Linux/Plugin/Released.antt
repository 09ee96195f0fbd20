-- ===== src/Linux/Plugin/Released.antt =====
-- A call that releases everything, and says so, has.
use hardware_simulator.Prelude.{
  ℕ, ◌≡◌, refl, sym, ap, ◌∙◌, ◌≢◌, ◌↔◌, ◌⊎◌, inl, inr, Bool, true, false, Option, none, some, List,
  [], ◌∷◌, Bool-cases, if_both, contains,
}
use hardware_simulator.Prelude.Int.{is_negative}
use hardware_simulator.Linux.Values.{Response, success_null, error, uinput_unavailable}
use hardware_simulator.Linux.Uinput.{key_down}
use hardware_simulator.Linux.Keyboard.{Evdev, clear, clear_all, run, run_command}
use hardware_simulator.Linux.Keyboard.Mirror.{Mirrors, run-Mirrors}
use hardware_simulator.Linux.Mouse.Pairing.{Inv}
use hardware_simulator.Linux.Mouse.Pairing.Down.{is_down_on, IsFresh}
use hardware_simulator.Linux.Mouse.Pairing.Runs.{run_mouse-is_down_on}
use hardware_simulator.Linux.Keyboard.Outcomes.{clear_releases}
use hardware_simulator.Linux.Mouse.{
  MouseMode, MouseButton, MouseState, MouseEnv, find_button, get_mouse, set_mouse_mode, call_device,
  release, absolute, relative,
}
use hardware_simulator.Linux.Mouse.Calls.{
  clear_buttons, run_mouse, run_mouse_call, release_buttons, release_if_there, clear_buttons_of,
  clear_all_pressed_mouse_buttons,
}
use hardware_simulator.Linux.Plugin.{Devices, release_answer, clear_all_pressed_events}

release_buttons_pressed :
    (ps : List (MouseButton × MouseMode)) (s : MouseState)
    → (release_buttons ps s).pressed ≡ s.pressed
unfolding release_buttons set_mouse_mode
release_buttons_pressed [] s = refl
release_buttons_pressed ((b, absolute) ∷ ps) s =
    release_buttons_pressed ps (call_device (release b) (set_mouse_mode absolute s))
release_buttons_pressed ((b, relative) ∷ ps) s =
    release_buttons_pressed ps (call_device (release b) (set_mouse_mode relative s))

-- What the release of buttons answers.
Settles : MouseState × Option Response → Type 0
Settles x = (x.1 ≡ some (error uinput_unavailable)) ⊎ ((x.1 ≡ none) × (x.0.pressed ≡ []))

release_if_there-Settles :
    (env : MouseEnv) (ps : List (MouseButton × MouseMode)) (x : MouseState × Bool)
    → Settles (release_if_there env ps x)
unfolding release_if_there Settles
release_if_there-Settles env ps (t, true) =
    inr (refl, release_buttons_pressed ps (record t { pressed = [] }))
release_if_there-Settles env ps (t, false) = inl refl

clear_buttons_of-Settles :
    (env : MouseEnv) (ps : List (MouseButton × MouseMode)) (s : MouseState)
    → s.pressed ≡ []
    → Settles (clear_buttons_of env ps s)
unfolding clear_buttons_of Settles
clear_buttons_of-Settles env [] s e = inr (refl, e)
clear_buttons_of-Settles env (p ∷ ps) s e = release_if_there-Settles env (p ∷ ps) (get_mouse env s)

no_error :
    (o : Option Response) (failed : Bool)
    → release_answer o failed ≡ success_null
    → o ≢ some (error uinput_unavailable)
no_error none failed e z = absurd (cc)
no_error (some r) failed e z = absurd (cc)

no_failure :
    (o : Option Response) (failed : Bool)
    → release_answer o failed ≡ success_null
    → o ≡ none
    → failed ≡ false
no_failure none true e z = absurd (cc)
no_failure none false e z = refl
no_failure (some r) failed e z = absurd (cc)

set_mouse_mode-IsFresh :
    (m : MouseMode) (s : MouseState) → IsFresh s.device → IsFresh (set_mouse_mode m s).device
unfolding set_mouse_mode
set_mouse_mode-IsFresh absolute s f = f
set_mouse_mode-IsFresh relative s f = f

release_buttons-IsFresh :
    (ps : List (MouseButton × MouseMode)) (s : MouseState)
    → IsFresh s.device
    → IsFresh (release_buttons ps s).device
unfolding release_buttons
release_buttons-IsFresh [] s f = f
release_buttons-IsFresh ((b, m) ∷ ps) s f =
    release_buttons-IsFresh ps (call_device (release b) (set_mouse_mode m s))
      (set_mouse_mode-IsFresh m s f)

release_if_there-IsFresh :
    (env : MouseEnv) (ps : List (MouseButton × MouseMode)) (x : MouseState × Bool)
    → IsFresh x.0.device
    → IsFresh (release_if_there env ps x).0.device
unfolding release_if_there
release_if_there-IsFresh env ps (t, true) f =
    release_buttons-IsFresh ps (record t { pressed = [] }) f
release_if_there-IsFresh env ps (t, false) f = f

clear_buttons_of-IsFresh :
    (env : MouseEnv) (ps : List (MouseButton × MouseMode)) (s : MouseState)
    → IsFresh s.device
    → IsFresh (clear_buttons_of env ps s).0.device
unfolding clear_buttons_of get_mouse
clear_buttons_of-IsFresh env [] s f = f
clear_buttons_of-IsFresh env (p ∷ ps) s f =
    release_if_there-IsFresh env (p ∷ ps) (get_mouse env s)
      (if_both (λ (x : MouseState × Bool). IsFresh x.0.device) s.created (s, true) _ f f)

-- A log of which the map holds nothing has no button down.
none_down :
    (t : MouseState) (b : MouseButton) (m : MouseMode)
    → t.pressed ≡ []
    → (is_down_on m b t.device ≡ true) ↔ (find_button b t.pressed ≡ some m)
    → is_down_on m b t.device ≡ false
none_down t b m e h = elim (Bool-cases (is_down_on m b t.device)) [
  | inr up ↦ up
  | inl down ↦ let z : none ≡ some m = sym (ap (find_button b) e) ∙ h.0 down in absurd (cc)
]

-- Nothing is down on either device of the mouse, or at the keyboard's in the kernel's view.
abbrev pub IsReleased : Devices → Type 0
IsReleased d =
    ((b : MouseButton) (m : MouseMode) → is_down_on m b d.mouse.device ≡ false)
    × ((c : ℕ) → key_down c d.system.uinput.accepted ≡ false)

-- When `clear_all_pressed_events` answers success, no button is down on either device of the mouse and no
-- key is down in the kernel, if before the plugin's map of buttons and its set of keys were those of the
-- devices, and no button had been pressed in one mode while its newest press, not released, was in the
-- other.
pub clear_all_pressed_events_releases :
    (keys : Evdev) (env : MouseEnv) (d : Devices)
    → Inv d.mouse
    → IsFresh d.mouse.device
    → Mirrors d.system
    → (clear_all_pressed_events keys env d).1 ≡ success_null
    → IsReleased (clear_all_pressed_events keys env d).0
unfolding clear_all_pressed_events clear_all_pressed_mouse_buttons Settles run_mouse run_mouse_call
    run run_command
clear_all_pressed_events_releases keys env d inv fresh mirrors e =
    let m = clear_all_pressed_mouse_buttons env d.mouse in
    let failed = is_negative (clear keys d.system).1 in
    let kept =
      clear_buttons_of-IsFresh env d.mouse.pressed (record (d.mouse) { pressed = [] }) fresh in
    let exact = run_mouse-is_down_on env d.mouse (clear_buttons ∷ []) inv kept in
    let same = run-Mirrors keys d.system (clear_all ∷ []) mirrors in
    elim (clear_buttons_of-Settles env d.mouse.pressed (record (d.mouse) { pressed = [] }) refl) [
      | inl z ↦ absurd (no_error m.1 failed e z)
      | inr (z, p) ↦ (
        λ b n. none_down m.0 b n p (exact b n),
        λ c.
            sym (same c)
            ∙ ap (contains c) (clear_releases keys d.system (no_failure m.1 failed e z)),
      )
    ]
