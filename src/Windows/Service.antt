-- ===== src/Windows/Service.antt =====
-- windows/desktop_service_input_client.h and .cpp: the input queue of the desktop service's client and
-- the thread that writes it to the pipe.
--
-- The thread holds the mutex but for a connection and a write, so it goes in steps from one release of
-- the mutex to the next; a wait only delays the next step. What Windows answers is an argument. The
-- build without CLOUDPLAYPLUS_DIRECT_INPUT is modelled.
pub mod Bytes
pub mod Messages
pub mod Control
pub mod Delivery
pub mod Replies
pub mod Configs
mod Tests
use hardware_simulator.Prelude.{
  ℕ, ◌+◌, Bool, true, false, not, ◌||◌, Option, none, some, List, [], ◌∷◌, ◌++◌, if◌then◌else◌,
  is_some,
}

abbrev pub Packet : Type 0
Packet = List ℕ

-- Where the thread is: none runs, at the head of its loop, in `TryConnect`, in `WriteMessage`, or over
-- but not joined.
pub data Phase : Type 0 where
  not_started at_head connecting finished : Phase
  writing : Packet → Phase

-- The client with the locals of its thread. A pipe is its handle. The last four fields are a record of
-- what has happened: the packets accepted and those handed to `WriteMessage`, the latest first, and the
-- pipes that the thread has opened and closed.
pub record Client : Type 0 where
  pub service_available : Bool
  pub stop_requested : Bool
  pub reset_requested : Bool
  pub input_connected : Bool
  pub input_queue : List Packet
  pub interrupt_event : Bool
  pub interrupted : Bool
  pub phase : Phase
  pub input_pipe : Option ℕ
  pub failure_reported : Bool
  pub accepted : List Packet
  pub attempted : List Packet
  pub opened : ℕ
  pub closed : ℕ

abbrev pub new_client : Client
new_client = record {
  service_available = false;
  stop_requested = false;
  reset_requested = false;
  input_connected = false;
  input_queue = [];
  interrupt_event = false;
  interrupted = false;
  phase = not_started;
  input_pipe = none;
  failure_reported = false;
  accepted = [];
  attempted = [];
  opened = 0;
  closed = 0;
}

-- What Windows answers to the start of the thread: the two events and the thread itself.
pub record Starting : Type 0 where
  pub interrupt_made : Bool
  pub write_made : Bool
  pub thread_made : Bool

abbrev pub joinable : Client → Bool
joinable c = elim c.phase [ not_started ↦ false | _ ↦ true ]

unfoldable pub start_input_thread : Starting → Client → Bool × Client
start_input_thread w c =
    if joinable c
    then (true, c)
    else if not w.interrupt_made
    then (false, record c { interrupt_event = false })
    else if not w.write_made
    then (false, record c { interrupt_event = false })
    else if not w.thread_made
    then (false, record c { interrupt_event = false; stop_requested = false })
    else (
      true,
      record c {
        interrupt_event = true;
        interrupted = false;
        stop_requested = false;
        phase = at_head;
        input_pipe = none;
        failure_reported = false;
      },
    )

-- `SetEvent` on the interrupt event, when there is one.
abbrev pub interrupt : Client → Client
interrupt c = if c.interrupt_event then record c { interrupted = true } else c

unfoldable pub set_service_available : Bool → Starting → Client → Client
unfolding start_input_thread
set_service_available available w c =
    if available
    then (start_input_thread w (record c { service_available = true })).1
    else interrupt (record c {
      service_available = false;
      reset_requested = true;
      input_connected = false;
      input_queue = [];
    })

unfoldable pub enqueue : Packet → Client → Bool × Client
enqueue p c =
    if not c.input_connected
    then (false, c)
    else (true, record c { input_queue = c.input_queue ++ p ∷ []; accepted = p ∷ c.accepted })

-- `CloseHandle` on the thread's pipe, when there is one.
abbrev pub close_pipe : Client → Client
close_pipe c = elim c.input_pipe [
  | none ↦ c
  | some h ↦ record c { input_pipe = none; closed = c.closed + 1 }
]

abbrev pub drop_input : Client → Client
drop_input c = record c { input_connected = false; input_queue = [] }

-- From the head of the loop; the queue's first packet goes to `WriteMessage`.
unfoldable pub write_next : List Packet → Client → Client
write_next [] c = c
write_next (p ∷ ps) c = record c {
  input_queue = ps;
  phase = writing p;
  attempted = p ∷ c.attempted;
}

unfoldable pub head_step : Client → Client
unfolding write_next
head_step c =
    if c.stop_requested
    then close_pipe (drop_input (record c { phase = finished }))
    else if not c.service_available || c.reset_requested
    then close_pipe (drop_input (record c { interrupted = false; reset_requested = false }))
    else if not (is_some c.input_pipe)
    then record c { phase = connecting }
    else write_next c.input_queue c

-- What the thread got from Windows: the pipe of `TryConnect`, and whether `WriteMessage` succeeded.
pub record Answer : Type 0 where
  pub pipe : Option ℕ
  pub written : Bool

-- After `TryConnect`.
unfoldable pub connected_step : Option ℕ → Client → Client
connected_step pipe c =
    let t = record c {
      phase = at_head;
      input_pipe = pipe;
      opened = if is_some pipe then c.opened + 1 else c.opened;
    } in
    if c.stop_requested || not c.service_available || c.reset_requested
    then t
    else record t { input_connected = is_some pipe }

-- After `WriteMessage`.
unfoldable pub written_step : Bool → Client → Client
written_step ok c =
    if ok
    then record c { phase = at_head; failure_reported = false }
    else close_pipe (drop_input (record c { phase = at_head; failure_reported = true }))

unfoldable pub resume : Phase → Answer → Client → Client
unfolding head_step connected_step written_step
resume not_started a c = c
resume at_head a c = head_step c
resume connecting a c = connected_step a.pipe c
resume (writing p) a c = written_step a.written c
resume finished a c = c

unfoldable pub loop_step : Answer → Client → Client
unfolding resume
loop_step a c = resume c.phase a c

-- `Close` up to the join: the flags, and the interrupt.
abbrev pub close_begin : Client → Client
close_begin c = interrupt (record c {
  stop_requested = true;
  service_available = false;
  input_connected = false;
  input_queue = [];
})

abbrev pub join_from : Phase → Client → Client
join_from not_started c = record c { interrupt_event = false }
join_from finished c = record c { phase = not_started; interrupt_event = false }
join_from _ c = c

abbrev pub joined : Client → Client
joined c = join_from c.phase c

-- `Close` waits for the thread, which takes two more steps at most; the answers to them are given.
unfoldable pub close : Answer → Answer → Client → Client
unfolding loop_step
close a b c = joined (loop_step b (loop_step a (close_begin c)))

-- The calls of the client's users and the steps of its thread, in any order.
pub data Step : Type 0 where
  available : Bool → Starting → Step
  send : Packet → Step
  loop : Answer → Step
  closing : Answer → Answer → Step

unfoldable pub step : Step → Client → Client
step (available b w) c = set_service_available b w c
step (send p) c = (enqueue p c).1
step (loop a) c = loop_step a c
step (closing a b) c = close a b c

unfoldable pub run : List Step → Client → Client
run [] c = c
run (s ∷ ss) c = run ss (step s c)
