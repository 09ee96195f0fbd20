-- ===== src/Windows/Service/Delivery/Stopping.antt =====
-- `Close` ends the thread, and every run keeps the flags, the phases and the handles together.
use hardware_simulator.Prelude.{
  ◌≡◌, refl, sym, ap, ◌∙◌, ◌≢◌, ◌⊎◌, inl, inr, Bool, true, false, not, ◌||◌, List, [], ◌∷◌, is_some,
  Bool-cases, Option-cases, if_both, if_cases,
}
use hardware_simulator.Windows.Service.{
  Packet, Phase, not_started, at_head, connecting, finished, writing, Client, interrupt,
  set_service_available, enqueue, close_pipe, drop_input, head_step, Answer, connected_step,
  written_step, resume, loop_step, close_begin, join_from, joined, close, Step, available, send,
  loop, closing, step, run,
}
use hardware_simulator.Windows.Service.Delivery.Handles.{
  IsSound, quiet-IsSound, is_running, is_writing, may_hold, may_accept,
}
use hardware_simulator.Windows.Service.Delivery.Loop.{start-IsSound, loop_step-IsSound}

-- The phases from which a thread that is to stop is over in one step.
abbrev IsEnding : Phase → Type 0
IsEnding p = (p ≡ not_started) ⊎ ((p ≡ at_head) ⊎ (p ≡ finished))

close_pipe_phase : (c : Client) → (close_pipe c).phase ≡ c.phase
close_pipe_phase c = elim (Option-cases c.input_pipe) [
  | inl e ↦ rw (close_pipe, e) refl
  | inr (p, e) ↦ rw (close_pipe, e) refl
]

close_pipe_stop : (c : Client) → (close_pipe c).stop_requested ≡ c.stop_requested
close_pipe_stop c = elim (Option-cases c.input_pipe) [
  | inl e ↦ rw (close_pipe, e) refl
  | inr (p, e) ↦ rw (close_pipe, e) refl
]

joined_over :
    (c : Client) → (c.phase ≡ not_started) ⊎ (c.phase ≡ finished) → (joined c).phase ≡ not_started
joined_over c (inl e) = ap (λ p. (join_from p c).phase) e ∙ e
joined_over c (inr e) = ap (λ p. (join_from p c).phase) e

head_step_ends : (c : Client) → c.stop_requested ≡ true → (head_step c).phase ≡ finished
unfolding head_step
head_step_ends c s =
    if_cases (λ (x : Client). x.phase ≡ finished) c.stop_requested _ _
      (λ e. close_pipe_phase (drop_input (record c { phase = finished })))
      (λ e. let z : true ≡ false = sym s ∙ e in absurd (cc))

second_step :
    (b : Answer) (c : Client)
    → c.stop_requested ≡ true
    → IsEnding c.phase
    → (joined (loop_step b c)).phase ≡ not_started
unfolding loop_step resume
second_step b c s (inl e) =
    let t : loop_step b c ≡ c = ap (λ p. resume p b c) e in
    ap (λ x. (joined x).phase) t ∙ joined_over c (inl e)
second_step b c s (inr (inl e)) =
    let t : loop_step b c ≡ head_step c = ap (λ p. resume p b c) e in
    ap (λ x. (joined x).phase) t ∙ joined_over (head_step c) (inr (head_step_ends c s))
second_step b c s (inr (inr e)) =
    let t : loop_step b c ≡ c = ap (λ p. resume p b c) e in
    ap (λ x. (joined x).phase) t ∙ joined_over c (inr e)

IsStopping : Client → Type 0
IsStopping c = (c.stop_requested ≡ true) × IsEnding c.phase

first_step :
    (p : Phase) (a : Answer) (c : Client)
    → c.phase ≡ p
    → c.stop_requested ≡ true
    → IsStopping (resume p a c)
unfolding resume head_step connected_step written_step IsStopping
first_step not_started a c e s = (s, inl e)
first_step at_head a c e s =
    if_cases IsStopping c.stop_requested _ _
      (λ z. (
        close_pipe_stop (drop_input (record c { phase = finished })) ∙ s,
        inr (inr (close_pipe_phase (drop_input (record c { phase = finished })))),
      ))
      (λ z. let y : true ≡ false = sym s ∙ z in absurd (cc))
first_step connecting a c e s =
    if_both IsStopping (c.stop_requested || not c.service_available || c.reset_requested) _ _
      (s, inr (inl refl)) (s, inr (inl refl))
first_step (writing p) a c e s =
    let t = drop_input (record c { phase = at_head; failure_reported = true }) in
    if_both IsStopping a.written _ _ (s, inr (inl refl))
      (close_pipe_stop t ∙ s, inr (inl (close_pipe_phase t)))
first_step finished a c e s = (s, inr (inr e))

-- `Close` ends with no thread, whatever the thread was doing and whatever Windows answers to it.
pub close_stops : (a b : Answer) (c : Client) → (close a b c).phase ≡ not_started
unfolding close loop_step IsStopping
close_stops a b c =
    let t = close_begin c in
    let s : t.stop_requested ≡ true =
      if_both (λ (x : Client). x.stop_requested ≡ true) c.interrupt_event _ _ refl refl in
    let f = first_step t.phase a t refl s in second_step b (loop_step a t) f.0 f.1

writing_runs : (p : Phase) → is_writing p ≡ true → is_running p ≡ true
writing_runs (writing p) e = refl
writing_runs not_started e = absurd (cc)
writing_runs at_head e = absurd (cc)
writing_runs connecting e = absurd (cc)
writing_runs finished e = absurd (cc)

-- In a phase in which nothing can be accepted, nothing is connected.
idle_off : (c : Client) → IsSound c → may_accept c.phase ≡ false → c.input_connected ≡ false
idle_off c h e = elim (Bool-cases c.input_connected) [
  | inl y ↦ let z : true ≡ false = sym (h.accepting y) ∙ e in absurd (cc)
  | inr y ↦ y
]

-- Flags that disconnect, with the interrupt.
cut-IsSound :
    (stop serve reset : Bool) (c : Client)
    → IsSound c
    → IsSound (
        interrupt (record c {
          stop_requested = stop;
          service_available = serve;
          reset_requested = reset;
          input_connected = false;
          input_queue = [];
        }))
cut-IsSound stop serve reset c h =
    let t = record c {
      stop_requested = stop;
      service_available = serve;
      reset_requested = reset;
      input_connected = false;
      input_queue = [];
    } in
    if_cases IsSound c.interrupt_event (record t { interrupted = true }) t
      (λ e.
        quiet-IsSound (record t { interrupted = true }) refl refl h.held h.balance h.event
          (λ y z. refl))
      (λ e.
        quiet-IsSound t refl refl h.held h.balance h.event
          (λ y. let z : true ≡ false = sym (h.event (writing_runs c.phase y)) ∙ e in absurd (cc)))

join-IsSound : (p : Phase) (c : Client) → c.phase ≡ p → IsSound c → IsSound (join_from p c)
join-IsSound not_started c e h =
    quiet-IsSound (record c { interrupt_event = false }) (idle_off c h (ap may_accept e))
      (h.quiet (idle_off c h (ap may_accept e))) h.held h.balance
      (λ y. let z : false ≡ true = sym (ap is_running e) ∙ y in absurd (cc))
      (λ y. let z : false ≡ true = sym (ap is_writing e) ∙ y in absurd (cc))
join-IsSound at_head c e h = h
join-IsSound connecting c e h = h
join-IsSound (writing p) c e h = h
join-IsSound finished c e h =
    quiet-IsSound (record c { phase = not_started; interrupt_event = false })
      (idle_off c h (ap may_accept e)) (h.quiet (idle_off c h (ap may_accept e)))
      (sym (ap (λ p. may_hold p (is_some c.input_pipe)) e) ∙ h.held) h.balance (λ y. absurd (cc))
      (λ y. absurd (cc))

close-IsSound : (a b : Answer) (c : Client) → IsSound c → IsSound (close a b c)
unfolding close
close-IsSound a b c h =
    let t = close_begin c in
    let u = loop_step b (loop_step a t) in
    join-IsSound u.phase u refl (
      loop_step-IsSound b (loop_step a t)
        (loop_step-IsSound a t (cut-IsSound true false c.reset_requested c h)))

enqueue-IsSound : (p : Packet) (c : Client) → IsSound c → IsSound (enqueue p c).1
unfolding enqueue
enqueue-IsSound p c h =
    if_cases (λ (x : Bool × Client). IsSound x.1) (not c.input_connected) _ _ (λ e. h)
      (λ e. record {
        quiet = λ y. absurd (disconnected c.input_connected y e);
        available = h.available;
        not_stopped = h.not_stopped;
        not_reset = h.not_reset;
        piped = h.piped;
        accepting = h.accepting;
        held = h.held;
        balance = h.balance;
        event = h.event;
        woken = h.woken;
      })
  where
    disconnected : (b : Bool) → b ≡ false → not b ≢ false
    disconnected true y e = cc
    disconnected false y e = cc

step-IsSound : (s : Step) (c : Client) → IsSound c → IsSound (step s c)
unfolding step set_service_available
step-IsSound (available b w) c h =
    if_both IsSound b _ _
      (start-IsSound w (record c { service_available = true })
        (record {
          quiet = h.quiet;
          available = λ y. refl;
          not_stopped = h.not_stopped;
          not_reset = h.not_reset;
          piped = h.piped;
          accepting = h.accepting;
          held = h.held;
          balance = h.balance;
          event = h.event;
          woken = h.woken;
        }))
      (cut-IsSound c.stop_requested false true c h)
step-IsSound (send p) c h = enqueue-IsSound p c h
step-IsSound (loop a) c h = loop_step-IsSound a c h
step-IsSound (closing a b) c h = close-IsSound a b c h

-- From a state in which it holds, after any calls and any steps of the thread: the queue is empty unless
-- input is connected; input is connected only while the service is available, nothing asks to stop or to
-- reset, and the thread is there with a pipe; every pipe that the thread has opened is closed or is the
-- one it has; and a write that a stop or a reset finds in progress has been interrupted.
pub run-IsSound : (ss : List Step) (c : Client) → IsSound c → IsSound (run ss c)
unfolding run
run-IsSound [] c h = h
run-IsSound (s ∷ ss) c h = run-IsSound ss (step s c) (step-IsSound s c h)
