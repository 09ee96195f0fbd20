-- ===== src/Windows/Editing/Tests.antt =====
-- Inspections, the worker and the queue on concrete answers.
use hardware_simulator.Prelude.{◌≡◌, refl, inl, true, false, none, some, List, [], ◌∷◌, map, arith}
use hardware_simulator.Prelude.Int.{pos, ◌+ℤ◌, ◌-ℤ◌}
use hardware_simulator.Windows.Pointer.{Point}
use hardware_simulator.Windows.Editing.{
  Element, is_windows_text_input_candidate, rect_contains_point_with_tolerance, traits_of,
  is_windows_text_input_element_eligible, try_match_text_input_element_chain, InspectionRequest,
  WindowsTextInputDecision, Scene, decide, inspect,
}
use hardware_simulator.Windows.Editing.Matching.{
  candidates, first_eligible, decision_on, inspect_decides,
}
use hardware_simulator.Windows.Editing.Worker.{
  signalled, timeout, started, inspect_after_remote_pointer_up, wait_step, inspect_step,
}
use hardware_simulator.Windows.Editing.Worker.Order.{Op, ask, wait, look, step, run, IsInOrder}
use hardware_simulator.Windows.Editing.Worker.Runs.{run-IsInOrder}
use hardware_simulator.Windows.Editing.Queue
use hardware_simulator.Windows.Editing.Queue.Posted

abbrev click : Point
click = record { x = pos 50; y = pos 20 }

abbrev edit_box : Element
edit_box = record {
  enabled = true;
  keyboard_focusable = true;
  control_type = 50004;
  bounds = record { left = pos 55; top = pos 10; right = pos 90; bottom = pos 30 };
  text_available = some true;
  value_available = some true;
  text_edit_available = none;
  value_read_only = some false;
  is_password = some true;
  caret = none;
  process_name = [];
}

abbrev pane : Element
pane = record edit_box { control_type = 50033; value_available = none; text_available = none }

abbrev scene : Scene
scene = record { has_cache = true; at_point = some (pane ∷ []); focused = some (edit_box ∷ []) }

abbrev request : InspectionRequest
request = record { point = click; sequence = 1; edit_focus_request_id = some (pos 4) }

inspected :
    inspect scene request ≡ record { active = true; secure = some true; request_id = some (pos 4) }
unfolding inspect try_match_text_input_element_chain is_windows_text_input_element_eligible
    is_windows_text_input_candidate rect_contains_point_with_tolerance traits_of ◌+ℤ◌ ◌-ℤ◌
inspected = refl

inspect_decides_example :
    inspect scene request ≡ decision_on request (first_eligible click (candidates scene))
inspect_decides_example = inspect_decides scene request

abbrev clicks : List Op
clicks =
    ask (some (pos 3)) (some click) none
    ∷ wait signalled
    ∷ ask (some (pos 4)) none (some click)
    ∷ wait signalled
    ∷ wait timeout
    ∷ look scene
    ∷ look scene
    ∷ look scene
    ∷ []

run-IsInOrder_example : IsInOrder (run clicks (started true))
unfolding started
run-IsInOrder_example = run-IsInOrder clicks (started true) (omega arith) (0, omega arith, tt, tt)

last_click_told :
    map
      (λ (x : InspectionRequest × WindowsTextInputDecision). x.0.sequence)
      (run clicks (started true)).decisions
    ≡ 2 ∷ []
unfolding run step inspect_after_remote_pointer_up wait_step inspect_step started
last_click_told = refl

abbrev ready : Queue.StartAnswers
ready = record { has_registrar = true; found_window = 7; registered_message = 50000; starts = true }

abbrev active : WindowsTextInputDecision
active = decide request (some none)

abbrev queued : List Posted.Call
queued = Posted.start false ready ∷ Posted.decision true active ∷ Posted.decision true active ∷ []

run-IsQueued_example : Posted.IsQueued (Posted.run queued (Queue.no_queue true))
run-IsQueued_example =
    Posted.run-IsQueued queued (Queue.no_queue true) (inl (refl, refl, (refl, refl, refl)))

told_once :
    (Posted.run
      (Posted.start false ready
        ∷ Posted.decision true active
        ∷ Posted.decision true active
        ∷ Posted.message
        ∷ [])
      (Queue.no_queue true)).told
    ≡ active ∷ []
unfolding Posted.run Posted.step Queue.start_windows_editing_event_monitor Queue.start_fresh
    Queue.queue_windows_text_input_decision Queue.on_message
told_once = refl
