-- ===== src/Windows/Editing/Queue/Posted.antt =====
-- A decision waits only while its message does.
use hardware_simulator.Prelude.{
  suc, ◌≡◌, refl, sym, ap, ◌∙◌, ◌⊎◌, inl, inr, Bool, true, false, not, ◌&&◌, ◌||◌, Option, none,
  some, List, [], ◌∷◌, ◌==◌, if◌then◌else◌, if_both, if_cases, if_true, if_false,
}
use mathlib.Core.Path.{subst}
use hardware_simulator.Windows.Editing.{WindowsTextInputDecision}
use hardware_simulator.Windows.Editing.Queue.{
  DecisionQueue, StartAnswers, stop_windows_editing_event_monitor, start_fresh,
  start_windows_editing_event_monitor, queue_windows_text_input_decision,
  send_windows_text_input_decision, take_message, on_message,
}

-- What is called; a decision comes only from a monitor that there is.
pub data Call : Type 0 where
  start : Bool → StartAnswers → Call
  stop_monitor : Call
  decision : Bool → WindowsTextInputDecision → Call
  message : Call

unfoldable pub step : Call → DecisionQueue → DecisionQueue
unfolding start_windows_editing_event_monitor stop_windows_editing_event_monitor
    queue_windows_text_input_decision on_message
step (start runs a) q = (start_windows_editing_event_monitor runs a q).1
step stop_monitor q = stop_windows_editing_event_monitor q
step (decision posts d) q = if q.monitor then queue_windows_text_input_decision posts d q else q
step message q = on_message q

unfoldable pub run : List Call → DecisionQueue → DecisionQueue
unfolding step
run [] q = q
run (c ∷ cs) q = run cs (step c q)

-- No message and no decision wait.
abbrev pub IsEmpty : DecisionQueue → Type 0
IsEmpty q = (q.pending ≡ none) × (q.message_posted ≡ false) × (q.waiting_messages ≡ 0)

-- One message waits, and a decision for it.
abbrev pub IsPosted : DecisionQueue → Type 0
IsPosted q =
    ((d : WindowsTextInputDecision) × (q.pending ≡ some d))
    × (q.message_posted ≡ true)
    × (q.waiting_messages ≡ 1)

-- With a monitor the messages have a window, a number and a delegate; without one nothing waits.
abbrev pub IsMonitoring : DecisionQueue → Type 0
IsMonitoring q =
    (q.monitor ≡ true)
    × (q.delegate ≡ true)
    × ((q.window == 0) ≡ false)
    × ((q.message_id == 0) ≡ false)

abbrev pub IsOff : DecisionQueue → Type 0
IsOff q = (q.monitor ≡ false) × (q.delegate ≡ false) × IsEmpty q

abbrev pub IsQueued : DecisionQueue → Type 0
IsQueued q = IsOff q ⊎ (IsMonitoring q × (IsEmpty q ⊎ IsPosted q))

-- Nothing waits after a stop: with no window or no number nothing waited before.
stop-IsOff :
    (q : DecisionQueue)
    → (q.waiting_messages ≡ 0) ⊎ IsMonitoring q
    → IsOff (stop_windows_editing_event_monitor q)
unfolding stop_windows_editing_event_monitor
stop-IsOff q (inl e) = (
  refl,
  refl,
  (
    refl,
    refl,
    if_both (λ n. n ≡ 0) (not (q.window == 0) && not (q.message_id == 0)) 0 q.waiting_messages refl
        e,
  ),
)
stop-IsOff q (inr (m, d, w, i)) =
    let both : (not (q.window == 0) && not (q.message_id == 0)) ≡ true = rw (w, i) refl in
    (
      refl,
      refl,
      (
        refl,
        refl,
        if_true (not (q.window == 0) && not (q.message_id == 0)) 0 q.waiting_messages both,
      ),
    )

waits_or_monitors : (q : DecisionQueue) → IsQueued q → (q.waiting_messages ≡ 0) ⊎ IsMonitoring q
waits_or_monitors q (inl h) = inl h.2.2
waits_or_monitors q (inr h) = inr h.0

false_or : (a b : Bool) → (a || b) ≡ false → (a ≡ false) × (b ≡ false)
false_or false b h = (refl, h)
false_or true b h = absurd (cc)

start_fresh-IsQueued :
    (a : StartAnswers) (q : DecisionQueue) → IsOff q → IsQueued (start_fresh a q).1
unfolding start_fresh
start_fresh-IsQueued a q h =
    let P : Bool × DecisionQueue → Type 0 = λ (r : Bool × DecisionQueue). IsQueued r.1 in
    let found : DecisionQueue = record q {
      window = a.found_window;
      message_id = a.registered_message;
    } in
    let ready : DecisionQueue = record found { delegate = true; monitor = true } in
    let third : Bool × DecisionQueue =
      if not a.starts then (false, stop_windows_editing_event_monitor ready) else (true, ready) in
    let none_found = a.found_window == 0 || a.registered_message == 0 in
    let second : Bool × DecisionQueue =
      if none_found then (false, stop_windows_editing_event_monitor found) else third in
    if_both P (not a.has_registrar) (false, q) second (inl h)
      (if_cases P none_found (false, stop_windows_editing_event_monitor found) third
        (λ e. inl (stop-IsOff found (inl h.2.2)))
        (λ e.
          let k = false_or (a.found_window == 0) (a.registered_message == 0) e in
          if_both P (not a.starts) (false, stop_windows_editing_event_monitor ready) (true, ready)
            (inl (stop-IsOff ready (inl h.2.2))) (inr ((refl, refl, k.0, k.1), inl h.2))))

start-IsQueued :
    (runs : Bool) (a : StartAnswers) (q : DecisionQueue)
    → IsQueued q
    → IsQueued (start_windows_editing_event_monitor runs a q).1
unfolding start_windows_editing_event_monitor
start-IsQueued runs a q h =
    let P : Bool × DecisionQueue → Type 0 = λ (r : Bool × DecisionQueue). IsQueued r.1 in
    let stopped : DecisionQueue = stop_windows_editing_event_monitor q in
    if_both P (q.monitor && runs) (true, q)
      (if q.monitor || q.delegate then start_fresh a stopped else start_fresh a q) h
      (if_cases P (q.monitor || q.delegate) (start_fresh a stopped) (start_fresh a q)
        (λ e. start_fresh-IsQueued a stopped (stop-IsOff q (waits_or_monitors q h)))
        (λ e. elim h [
          | inl off ↦ start_fresh-IsQueued a q off
          | inr on ↦ absurd (let n = (false_or q.monitor q.delegate e).0 in let m = on.0.0 in cc)
        ]))

decision-IsQueued :
    (posts : Bool) (d : WindowsTextInputDecision) (q : DecisionQueue)
    → IsQueued q
    → IsQueued (if q.monitor then queue_windows_text_input_decision posts d q else q)
unfolding queue_windows_text_input_decision
decision-IsQueued posts d q (inl h) = subst IsQueued (sym (if_false q.monitor _ q h.0)) (inl h)
decision-IsQueued posts d q (inr (m, inr p)) =
    subst IsQueued
      (sym (
        if_true q.monitor _ q m.0 ∙ if_true q.message_posted (record q { pending = some d }) _ p.1))
      (inr (m, inr ((d, refl), p.1, p.2)))
decision-IsQueued posts d q (inr (m, inl e)) =
    subst IsQueued
      (sym (
        if_true q.monitor _ q m.0
        ∙ if_false q.message_posted (record q { pending = some d }) _ e.1))
      (if_both IsQueued posts
        (record q {
          pending = some d;
          message_posted = true;
          waiting_messages = suc q.waiting_messages;
        })
        (record q { pending = none; message_posted = false })
        (inr (m, inr ((d, refl), refl, ap suc e.2))) (inr (m, inl (refl, refl, e.2))))

told-IsQueued :
    (o : Option WindowsTextInputDecision) (q : DecisionQueue)
    → IsQueued q
    → IsQueued (send_windows_text_input_decision o q)
told-IsQueued none q h = h
told-IsQueued (some d) q h = if_both IsQueued q.has_channel (record q { told = d ∷ q.told }) q h h

on_message-IsQueued : (q : DecisionQueue) → IsQueued q → IsQueued (on_message q)
unfolding on_message
on_message-IsQueued q (inl h) = subst (λ n. IsQueued (take_message n q)) (sym h.2.2) (inl h)
on_message-IsQueued q (inr (m, inl e)) =
    subst (λ n. IsQueued (take_message n q)) (sym e.2) (inr (m, inl e))
on_message-IsQueued q (inr (m, inr p)) =
    let t : DecisionQueue = record q {
      waiting_messages = 0;
      pending = none;
      message_posted = false;
    } in
    let k : IsQueued (send_windows_text_input_decision q.pending t) =
      told-IsQueued q.pending t (inr (m, inl (refl, refl, refl))) in
    subst (λ n. IsQueued (take_message n q)) (sym p.2)
      (subst IsQueued
        (sym (
          if_true q.delegate (send_windows_text_input_decision q.pending t)
            (record q { waiting_messages = 0 }) m.1))
        k)

step-IsQueued : (c : Call) (q : DecisionQueue) → IsQueued q → IsQueued (step c q)
unfolding step
step-IsQueued (start runs a) q h = start-IsQueued runs a q h
step-IsQueued stop_monitor q h = inl (stop-IsOff q (waits_or_monitors q h))
step-IsQueued (decision posts d) q h = decision-IsQueued posts d q h
step-IsQueued message q h = on_message-IsQueued q h

-- From a state in which it holds, after any calls, decisions and messages: with a monitor either nothing
-- waits or one message waits with a decision to tell, whatever number of decisions came before it; without
-- a monitor nothing waits.
pub run-IsQueued : (cs : List Call) (q : DecisionQueue) → IsQueued q → IsQueued (run cs q)
unfolding run
run-IsQueued [] q h = h
run-IsQueued (c ∷ cs) q h = run-IsQueued cs (step c q) (step-IsQueued c q h)
