-- ===== src/Linux/Mouse/Pairing.antt =====
-- A button is released on the device on which it was pressed.
--
-- inputtino sends a button to the device of the last motion, the relative one or the absolute one. The
-- mode of a log of calls is that of its newest motion.
pub mod Down
pub mod Runs
use hardware_simulator.Prelude.{
  ℕ, ◌≤◌, ◌<◌, ◌≡◌, refl, sym, ◌∙◌, ◌⊎◌, inl, inr, Option, none, some, List, [], ◌∷◌, arith, ◌==◌,
  if◌then◌else◌, Option-cases,
}
use hardware_simulator.Linux.Values.{Args, get_int_arg, get_bool_arg, get_double_arg}
use hardware_simulator.Linux.Monitors.{get_monitors, get_root_bounds}
use hardware_simulator.Linux.Mouse.{
  MouseMode, relative, absolute, MouseButton, rank, left, MouseOp, move, move_abs, press, release,
  vertical_scroll, horizontal_scroll, MouseState, new_state, MouseEnv, find_button, insert_button,
  erase_button, call_device, set_mouse_mode, mouse_button_to_inputtino, get_mouse, button_down,
  button_up, perform_mouse_move_relative, perform_mouse_move_absolute, perform_mouse_button,
}
use hardware_simulator.Linux.Mouse.Calls.{
  MouseCall, mouse_move_r, mouse_move_a, mouse_press, mouse_scroll, clear_buttons, release_buttons,
  logical_scroll_to_linux_wheel, perform_mouse_scroll, clear_all_pressed_mouse_buttons,
  run_mouse_call, run_mouse,
}

abbrev pub mode_of : List MouseOp → MouseMode
mode_of [] = relative
mode_of (move x y ∷ ops) = relative
mode_of (move_abs x y w h ∷ ops) = absolute
mode_of (press b ∷ ops) = mode_of ops
mode_of (release b ∷ ops) = mode_of ops
mode_of (vertical_scroll d ∷ ops) = mode_of ops
mode_of (horizontal_scroll d ∷ ops) = mode_of ops

-- The mode at the newest press of a button since its last release.
abbrev pub newest : MouseButton → List MouseOp → Option MouseMode
newest b [] = none
newest b (press c ∷ ops) = if rank c == rank b then some (mode_of ops) else newest b ops
newest b (release c ∷ ops) = if rank c == rank b then none else newest b ops
newest b (move x y ∷ ops) = newest b ops
newest b (move_abs x y w h ∷ ops) = newest b ops
newest b (vertical_scroll d ∷ ops) = newest b ops
newest b (horizontal_scroll d ∷ ops) = newest b ops

-- Each release of a button that was pressed since its last release goes to the device of its newest
-- press.
abbrev pub IsPaired : List MouseOp → Type 0
IsPaired [] = Unit {0}
IsPaired (release b ∷ ops) =
    ((newest b ops ≡ none) ⊎ (newest b ops ≡ some (mode_of ops))) × IsPaired ops
IsPaired (press b ∷ ops) = IsPaired ops
IsPaired (move x y ∷ ops) = IsPaired ops
IsPaired (move_abs x y w h ∷ ops) = IsPaired ops
IsPaired (vertical_scroll d ∷ ops) = IsPaired ops
IsPaired (horizontal_scroll d ∷ ops) = IsPaired ops

-- The order in which the map keeps its buttons, all of rank above `n`.
abbrev pub Ascending : ℕ → List (MouseButton × MouseMode) → Type 0
Ascending n [] = Unit {0}
Ascending n ((b, m) ∷ ps) = (n < rank b) × Ascending (rank b) ps

-- What holds between two calls.
pub record Inv (s : MouseState) : Type 0 where
  pub mode : s.current_mode ≡ mode_of s.device
  pub holds : (b : MouseButton) → find_button b s.pressed ≡ newest b s.device
  pub paired : IsPaired s.device
  pub ordered : Ascending 0 s.pressed

rank_pos : (b : MouseButton) → 0 < rank b
unfolding rank
rank_pos left = omega arith
rank_pos _ = omega arith

Ascending-mono :
    (k n : ℕ) (ps : List (MouseButton × MouseMode)) → k ≤ n → Ascending n ps → Ascending k ps
Ascending-mono k n [] h a = tt
Ascending-mono k n ((b, m) ∷ ps) h a = (omega arith, a.1)

insert-Ascending :
    (n : ℕ) (b : MouseButton) (m : MouseMode) (ps : List (MouseButton × MouseMode))
    → n < rank b
    → Ascending n ps
    → Ascending n (insert_button b m ps)
insert-Ascending n b m [] h a = (h, tt)
insert-Ascending n b m ((c, k) ∷ ps) h a =
    ground (arith, insert-Ascending (rank c) b m ps, Ascending-mono (rank b) (rank c) ps, a.0, a.1)

erase-Ascending :
    (n : ℕ) (b : MouseButton) (ps : List (MouseButton × MouseMode))
    → Ascending n ps
    → Ascending n (erase_button b ps)
erase-Ascending n b [] a = tt
erase-Ascending n b ((c, k) ∷ ps) a =
    ground
      (arith, erase-Ascending (rank c) b ps, erase-Ascending n b ps, Ascending-mono n (rank c) ps)

find_above :
    (n : ℕ) (b : MouseButton) (ps : List (MouseButton × MouseMode))
    → Ascending n ps
    → rank b ≤ n
    → find_button b ps ≡ none
find_above n b [] a h = refl
find_above n b ((c, k) ∷ ps) a h = ground (arith, find_above (rank c) b ps a.1)

find_rank :
    (b c : MouseButton) (ps : List (MouseButton × MouseMode))
    → rank b ≡ rank c
    → find_button b ps ≡ find_button c ps
find_rank b c [] e = refl
find_rank b c ((d, k) ∷ ps) e = ground (arith, find_rank b c ps e)

find-insert :
    (b c : MouseButton) (m : MouseMode) (ps : List (MouseButton × MouseMode))
    → find_button b (insert_button c m ps) ≡ (if rank c == rank b then some m else find_button b ps)
find-insert b c m [] = refl
find-insert b c m ((d, n) ∷ ps) = ground (arith, find-insert b c m ps)

find-erase :
    (b c : MouseButton) (ps : List (MouseButton × MouseMode))
    → find_button b (erase_button c ps) ≡ (if rank c == rank b then none else find_button b ps)
find-erase b c [] = ground arith
find-erase b c ((d, n) ∷ ps) = ground (arith, find-erase b c ps)

pub button_down-Inv :
    (env : MouseEnv) (s : MouseState) (b : MouseButton) → Inv s → Inv (button_down env s b)
button_down-Inv env s b h = record {
  mode = h.mode;
  holds = λ c. ground (arith, find-insert c b s.current_mode s.pressed, h.mode, h.holds c);
  paired = h.paired;
  ordered = insert-Ascending 0 b s.current_mode s.pressed (rank_pos b) h.ordered;
}

-- The release of a button whose newest press was in mode `m`, the mode being set first.
release_in_mode :
    (s : MouseState) (b : MouseButton) (m : MouseMode) (ps : List (MouseButton × MouseMode))
    → newest b s.device ≡ some m
    → ((c : MouseButton)
        → find_button c ps ≡ (if rank b == rank c then none else newest c s.device))
    → IsPaired s.device
    → Ascending 0 ps
    → Inv (call_device (release b) (record (set_mouse_mode m s) { pressed = ps }))
unfolding set_mouse_mode
release_in_mode s b relative ps e f p o = record {
  mode = refl;
  holds = λ c. ground (arith, f c);
  paired = (inr e, p);
  ordered = o;
}
release_in_mode s b absolute ps e f p o = record {
  mode = refl;
  holds = λ c. ground (arith, f c);
  paired = (inr e, p);
  ordered = o;
}

set_mouse_mode_pressed : (m : MouseMode) (s : MouseState) → (set_mouse_mode m s).pressed ≡ s.pressed
unfolding set_mouse_mode
set_mouse_mode_pressed relative s = refl
set_mouse_mode_pressed absolute s = refl

pub button_up-Inv :
    (env : MouseEnv) (s : MouseState) (b : MouseButton) → Inv s → Inv (button_up env s b)
button_up-Inv env s b h = elim (Option-cases (find_button b s.pressed)) [
  | inl e ↦
      rw (e, button_up)
        (record {
          mode = h.mode;
          holds = λ c. ground (arith, find_rank b c s.pressed, h.holds c);
          paired = (inl (sym (h.holds b) ∙ e), h.paired);
          ordered = h.ordered;
        })
  | inr (m, e) ↦
      rw (e, button_up, set_mouse_mode_pressed m s)
        (release_in_mode s b m (erase_button b s.pressed) (sym (h.holds b) ∙ e)
          (λ c. ground (arith, find-erase c b s.pressed, h.holds c)) h.paired
          (erase-Ascending 0 b s.pressed h.ordered))
]

-- The loop that releases every button of `ps`, the map of the state being empty.
pub release_buttons-Inv :
    (n : ℕ) (ps : List (MouseButton × MouseMode)) (s : MouseState)
    → Ascending n ps
    → s.pressed ≡ []
    → Inv (record s { pressed = ps })
    → Inv (release_buttons ps s)
unfolding release_buttons
release_buttons-Inv n [] s a e h = record {
  mode = h.mode;
  holds = λ c. rw e (h.holds c);
  paired = h.paired;
  ordered = rw e tt;
}
release_buttons-Inv n ((b, m) ∷ ps) s a e h =
    release_buttons-Inv (rank b) ps (call_device (release b) (set_mouse_mode m s)) a.1
      (set_mouse_mode_pressed m s ∙ e)
      (release_in_mode s b m ps (ground (arith, h.holds b))
        (λ c. ground (arith, h.holds c, find_above (rank b) c ps a.1)) h.paired
        (Ascending-mono 0 (rank b) ps (omega arith) a.1))
