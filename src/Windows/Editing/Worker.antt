-- ===== src/Windows/Editing/Worker.antt =====
-- windows/windows_editing_event_monitor.cc: the worker's state, its thread, and the calls of the monitor.
--
-- One record is one WorkerState with its thread, in steps between two waits or releases of a mutex. The
-- calls of the monitor on it are the parts of Stop, one for each mutex or event, so that the thread may
-- step between them. They and the calls for an inspection come from one thread.
pub mod Order
pub mod Runs
use hardware_simulator.Prelude.{
  ℕ, suc, ◌%◌, ◌^◌, Bool, true, false, not, Option, none, some, List, [], ◌∷◌, ltb, if◌then◌else◌,
}
use hardware_simulator.Prelude.Int.{ℤ}
use hardware_simulator.Windows.Pointer.{Point}
use hardware_simulator.Windows.Editing.{InspectionRequest, WindowsTextInputDecision, Scene, inspect}

-- Where the thread is: at the first wait, at the wait for the focus to settle, with a request taken, with
-- the decision made, past the test for a later request, and at its end.
pub data Phase : Type 0 where
  waiting settling : Phase
  inspecting : InspectionRequest → Phase
  decided : InspectionRequest → WindowsTextInputDecision → Phase
  announcing : InspectionRequest → WindowsTextInputDecision → Phase
  ended : Phase

-- `decisions` is what the callback was given, each with its request, the last first.
pub record WorkerState : Type 0 where
  pub has_callback : Bool
  pub running : Bool
  pub stop_event : Bool
  pub request_event : Bool
  pub finished_event : Bool
  pub pending_request : Option InspectionRequest
  pub next_sequence : ℕ
  pub phase : Phase
  pub decisions : List (InspectionRequest × WindowsTextInputDecision)

-- The state that Start makes, once the thread has told whether COM and UI Automation are ready.
unfoldable pub started : Bool → WorkerState
started ready = record {
  has_callback = true;
  running = ready;
  stop_event = false;
  request_event = false;
  finished_event = not ready;
  pending_request = none;
  next_sequence = 0;
  phase = if ready then waiting else ended;
  decisions = [];
}

-- The point of a call, or the cursor's where it has none and Windows tells it.
abbrev pub inspection_point : Option Point → Option Point → Option Point
inspection_point (some p) cursor = some p
inspection_point none cursor = cursor

unfoldable pub inspect_after_remote_pointer_up :
    Option ℤ → Option Point → Option Point → WorkerState → WorkerState
inspect_after_remote_pointer_up id given cursor s =
    if not s.running then s else elim (inspection_point given cursor) [
      | none ↦ s
      | some p ↦
          let n = suc s.next_sequence % 2 ^ 64 in
          record s {
            next_sequence = n;
            pending_request = some (record { point = p; sequence = n; edit_focus_request_id = id });
            request_event = true;
          }
    ]

-- What a wait ends with; the wait on the two events takes the stop first.
pub data WaitResult : Type 0 where
  signalled timeout failed : WaitResult

-- The end of WorkerMain.
abbrev pub finish_worker : WorkerState → WorkerState
finish_worker s = record s { running = false; finished_event = true; phase = ended }

abbrev pub take_request : Option InspectionRequest → WorkerState → WorkerState
take_request none s = record s { phase = waiting }
take_request (some r) s = record s { pending_request = none; phase = inspecting r }

abbrev pub is_superseded : InspectionRequest → Option InspectionRequest → Bool
is_superseded r none = false
is_superseded r (some later) = ltb r.sequence later.sequence

-- The event of a request resets itself when it ends a wait.
abbrev pub woken : WorkerState → WorkerState
woken s = if s.request_event then record s { request_event = false; phase = settling } else s

-- Both waits; the first has no timeout, and one that is signalled while no event is set goes on.
unfoldable pub wait_step : WaitResult → WorkerState → WorkerState
wait_step result s = elim s.phase [
  | waiting ↦ elim result [
    | signalled ↦ if s.stop_event then finish_worker s else woken s
    | timeout ↦ s
    | failed ↦ finish_worker s
  ]
  | settling ↦ elim result [
    | signalled ↦ if s.stop_event then finish_worker s else woken s
    | timeout ↦ take_request s.pending_request s
    | failed ↦ finish_worker s
  ]
  | inspecting r ↦ s
  | decided r d ↦ s
  | announcing r d ↦ s
  | ended ↦ s
]

-- The steps of an inspection: UI Automation, the test under one mutex, and the callback under the other.
unfoldable pub inspect_step : Scene → WorkerState → WorkerState
inspect_step sc s = elim s.phase [
  | waiting ↦ s
  | settling ↦ s
  | inspecting r ↦ record s { phase = decided r (inspect sc r) }
  | decided r d ↦ record s {
    phase = if is_superseded r s.pending_request then waiting else announcing r d;
  }
  | announcing r d ↦ record s {
    phase = waiting;
    decisions = if s.has_callback then (r, d) ∷ s.decisions else s.decisions;
  }
  | ended ↦ s
]

-- The parts of Stop, in its order.
abbrev pub stop_running : WorkerState → WorkerState
stop_running s = record s { running = false }

abbrev pub drop_callback : WorkerState → WorkerState
drop_callback s = record s { has_callback = false }

abbrev pub drop_request : WorkerState → WorkerState
drop_request s = record s { pending_request = none }

abbrev pub set_stop : WorkerState → WorkerState
set_stop s = record s { stop_event = true }

-- Stop with no step of the thread between its parts.
unfoldable pub stop : WorkerState → WorkerState
stop s = set_stop (drop_request (drop_callback (stop_running s)))
