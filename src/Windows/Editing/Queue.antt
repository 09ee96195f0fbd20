-- ===== src/Windows/Editing/Queue.antt =====
-- windows/hardware_simulator_plugin.cpp: decisions on their way from the worker to the window's thread.
pub mod Posted
use hardware_simulator.Prelude.{
  ℕ, zero, suc, Bool, true, false, not, ◌&&◌, ◌||◌, Option, none, some, List, [], ◌∷◌, ◌==◌,
  if◌then◌else◌,
}
use hardware_simulator.Windows.Editing.{WindowsTextInputDecision}

-- The members, the messages of this plugin that wait in the window's queue, and what Dart was told, the
-- last first. The calls from the worker hold the mutex; the others are the window's thread.
pub record DecisionQueue : Type 0 where
  pub window : ℕ
  pub message_id : ℕ
  pub delegate : Bool
  pub monitor : Bool
  pub pending : Option WindowsTextInputDecision
  pub message_posted : Bool
  pub waiting_messages : ℕ
  pub has_channel : Bool
  pub told : List WindowsTextInputDecision

abbrev pub no_queue : Bool → DecisionQueue
no_queue channel = record {
  window = 0;
  message_id = 0;
  delegate = false;
  monitor = false;
  pending = none;
  message_posted = false;
  waiting_messages = 0;
  has_channel = channel;
  told = [];
}

-- What StartWindowsEditingEventMonitor is answered: whether there is a registrar, the window, the number
-- of the message, and whether the monitor starts.
pub record StartAnswers : Type 0 where
  pub has_registrar : Bool
  pub found_window : ℕ
  pub registered_message : ℕ
  pub starts : Bool

-- The monitor is gone before the queue is cleared, and the messages that wait are taken away.
unfoldable pub stop_windows_editing_event_monitor : DecisionQueue → DecisionQueue
stop_windows_editing_event_monitor q = record q {
  monitor = false;
  pending = none;
  message_posted = false;
  waiting_messages =
      if not (q.window == 0) && not (q.message_id == 0) then 0 else q.waiting_messages;
  delegate = false;
  window = 0;
  message_id = 0;
}

-- After a monitor that does not run, if there is one, has been stopped.
unfoldable pub start_fresh : StartAnswers → DecisionQueue → Bool × DecisionQueue
unfolding stop_windows_editing_event_monitor
start_fresh a q =
    let found = record q { window = a.found_window; message_id = a.registered_message } in
    let ready = record found { delegate = true; monitor = true } in
    if not a.has_registrar
    then (false, q)
    else if a.found_window == 0 || a.registered_message == 0
    then (false, stop_windows_editing_event_monitor found)
    else if not a.starts
    then (false, stop_windows_editing_event_monitor ready)
    else (true, ready)

-- With whether the monitor that there is runs.
unfoldable pub start_windows_editing_event_monitor :
    Bool → StartAnswers → DecisionQueue → Bool × DecisionQueue
unfolding start_fresh stop_windows_editing_event_monitor
start_windows_editing_event_monitor runs a q =
    if q.monitor && runs
    then (true, q)
    else if q.monitor || q.delegate
    then start_fresh a (stop_windows_editing_event_monitor q)
    else start_fresh a q

-- From the worker, with whether Windows posts the message.
unfoldable pub queue_windows_text_input_decision :
    Bool → WindowsTextInputDecision → DecisionQueue → DecisionQueue
queue_windows_text_input_decision posts d q =
    if q.message_posted
    then record q { pending = some d }
    else if posts
    then record q {
      pending = some d;
      message_posted = true;
      waiting_messages = suc q.waiting_messages;
    }
    else record q { pending = none; message_posted = false }

abbrev pub send_windows_text_input_decision :
    Option WindowsTextInputDecision → DecisionQueue → DecisionQueue
send_windows_text_input_decision none q = q
send_windows_text_input_decision (some d) q =
    if q.has_channel then record q { told = d ∷ q.told } else q

-- The next message, if one waits, reaches the delegate, if there is one.
abbrev pub take_message : ℕ → DecisionQueue → DecisionQueue
take_message zero q = q
take_message (suc n) q =
    if q.delegate
    then send_windows_text_input_decision q.pending
        (record q { waiting_messages = n; pending = none; message_posted = false })
    else record q { waiting_messages = n }

unfoldable pub on_message : DecisionQueue → DecisionQueue
on_message q = take_message q.waiting_messages q
