-- ===== src/Windows/Blocker/Tests.antt =====
-- The plugin's window in front, with a child of it.
use hardware_simulator.Prelude.{
  ℕ, ◌<◌, ◌≡◌, refl, ◌≢◌, ◌↔◌, Bool, true, false, List, [], ◌∷◌, ◌++◌, arith, ◌==◌, if◌then◌else◌,
  if_false,
}
use hardware_simulator.Windows.Blocker.{
  hooked, ime_off, changed, Blocker, new_blocker, Desktop, get_main_window, start_blocking,
  start_for, stop_blocking, walk, is_target_window_active, should_block_key, vk_tab, vk_lwin,
  note_key, keyboard_hook_proc, Event, start, stop, set_callback, key, step, run,
}
use hardware_simulator.Windows.Blocker.Reports.{
  IsAlternating, IsFaithful, run-IsFaithful, IsTold, run-IsTold,
}
use hardware_simulator.Windows.Blocker.Ancestors.{Reaches, IsTree, is_target_window_active_iff}

abbrev depth_of : ℕ → ℕ
depth_of w = if w == 12 then 1 else 0

abbrev parent_of : ℕ → ℕ
parent_of w = if w == 12 then 10 else 0

-- The window 10 has the child 12, which is in front.
abbrev desk : Desktop
desk = record {
  windows =
      record { handle = 10; is_own = true; visible = true; has_parent = false; titled = true } ∷ [];
  foreground = 12;
  parent = parent_of;
  depth = depth_of;
  menu_down = true;
  control_down = false;
  hook_made = true;
}

abbrev released : Desktop
released = record desk { menu_down = false }

abbrev events : List Event
events =
    start desk 0 true
    ∷ key desk vk_tab true
    ∷ key desk vk_tab true
    ∷ key desk vk_lwin true
    ∷ key released vk_tab false
    ∷ key desk vk_tab true
    ∷ []

-- Alt goes up before Tab: the release of Tab is not told, nor is the next press with Alt.
lost_release :
    (run events new_blocker).log
    ≡ changed vk_lwin true true ∷ changed vk_tab true true ∷ hooked ∷ ime_off 10 ∷ []
unfolding run step start_blocking start_for get_main_window keyboard_hook_proc
    is_target_window_active walk should_block_key note_key
lost_release = refl

run-IsFaithful_example : IsFaithful (run (events ++ stop ∷ []) new_blocker)
run-IsFaithful_example =
    run-IsFaithful (events ++ stop ∷ []) new_blocker
      (record { states = λ k. refl; alternating = _; hook_count = omega arith })

desk-IsTree : IsTree desk
desk-IsTree w n p = tree w (w == 12) refl n p
  where
    tree :
        (w : ℕ) (b : Bool)
        → (w == 12) ≡ b
        → w ≢ 0
        → parent_of w ≢ 0
        → depth_of (parent_of w) < depth_of w
    tree w true e n p = rw (e) (omega arith)
    tree w false e n p = absurd (p (if_false (w == 12) _ _ e))

abbrev watching : Blocker
watching = record new_blocker { hook = true; target_window = 10 }

is_target_window_active_iff_example :
    (is_target_window_active desk watching ≡ true) ↔ Reaches desk.parent 10 12
is_target_window_active_iff_example = is_target_window_active_iff desk watching desk-IsTree

-- The hook is refused for a window whose input method is taken away first, and stays so.
refused_start :
    (stop_blocking (start_blocking (record desk { hook_made = false }) 10 true new_blocker).1).log
    ≡ ime_off 10 ∷ []
unfolding start_blocking start_for stop_blocking
refused_start = refl

-- With the callback taken away between, a callback is told of two presses of Tab and of no release.
two_presses :
    (run
      (start desk 0 true
        ∷ key desk vk_tab true
        ∷ set_callback false
        ∷ key desk vk_tab false
        ∷ set_callback true
        ∷ key desk vk_tab true
        ∷ [])
      new_blocker).log
    ≡ changed vk_tab true true
      ∷ changed vk_tab false false
      ∷ changed vk_tab true true
      ∷ hooked
      ∷ ime_off 10
      ∷ []
unfolding run step start_blocking start_for get_main_window keyboard_hook_proc
    is_target_window_active walk should_block_key note_key
two_presses = refl

run-IsTold_example :
    IsTold (run events new_blocker).log × IsAlternating (run events new_blocker).log
run-IsTold_example =
    run-IsTold events new_blocker (refl, (tt, (tt, (tt, (tt, (tt, tt)))))) (λ e. absurd (cc), tt)
      (record { states = λ k. refl; alternating = _; hook_count = omega arith })
