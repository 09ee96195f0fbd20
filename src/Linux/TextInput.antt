-- ===== src/Linux/TextInput.antt =====
-- linux/linux_text_input.cc: committed text through IBus, the state and the transaction of the backend.
--
-- IBus and D-Bus are not part of the repository. A name or an object path is a number, 0 the empty one.
-- A completion is the number of the call that it answers. The replies that a D-Bus call waits for are
-- data, each with what its closure holds.
pub mod Calls
pub mod Transactions
pub mod Answers
pub mod Finishing
mod Tests
use hardware_simulator.Prelude.{
  ℕ, ◌+◌, ◌%◌, ◌^◌, Bool, true, false, not, ◌&&◌, ◌||◌, Option, none, some, List, [], ◌∷◌, ◌==◌,
  if◌then◌else◌, is_some,
}

-- What a restoration reports to, when it is over: a prepared call, nobody, or a finished call that may
-- still succeed.
pub data After : Type 0 where
  refuse_prepare : ℕ → After
  nobody : After
  finish_done : ℕ → Bool → After

-- The D-Bus calls in flight.
pub data Waiting : Type 0 where
  register : Waiting
  first_context first_engine select_engine second_context : ℕ → Waiting
  restore_engine restore_select : After → Waiting

-- A reply is null, or carries a path, an engine's name, or nothing.
pub data Reply : Type 0 where
  no_reply : Reply
  path_reply name_reply : ℕ → Reply
  empty_reply : Reply

pub data Effect : Type 0 where
  asked : ℕ → Effect
  answered : ℕ → ℕ → Effect
  backspace_down backspace_up : Effect
  commit : List ℕ → Effect

pub record Backend : Type 0 where
  pub bus : Bool
  pub bus_connected : Bool
  pub connection_open : Bool
  pub engine : Option ℕ
  pub engine_id : ℕ
  pub name : ℕ
  pub previous : ℕ
  pub context : ℕ
  pub ready : Bool
  pub initializing : Bool
  pub busy : Bool
  pub focused : Bool
  pub next_token : ℕ
  pub token : ℕ
  pub focus_revision : ℕ
  pub prepared_focus : ℕ
  pub expiry : Bool
  pub waiters : List ℕ
  pub in_flight : List Waiting
  pub log : List Effect

abbrev pub new_backend : Backend
new_backend = record {
  bus = false;
  bus_connected = false;
  connection_open = false;
  engine = none;
  engine_id = 0;
  name = 0;
  previous = 0;
  context = 0;
  ready = false;
  initializing = false;
  busy = false;
  focused = false;
  next_token = 0;
  token = 0;
  focus_revision = 0;
  prepared_focus = 0;
  expiry = false;
  waiters = [];
  in_flight = [];
  log = [];
}

abbrev pub wrap64 : ℕ → ℕ
wrap64 n = n % 2 ^ 64

abbrev pub is_reply : Reply → Bool
is_reply no_reply = false
is_reply _ = true

-- The number of a Boolean answer.
abbrev pub of_bool : Bool → ℕ
of_bool b = if b then 1 else 0

abbrev pub say : ℕ → ℕ → Backend → Backend
say id value s = record s { log = answered id value ∷ s.log }

-- `call`: with no open connection the closure runs at once, on null.
abbrev pub call : Waiting → (Backend → Backend) → Backend → Backend
call w on_null s =
    if s.bus && s.connection_open then record s { in_flight = w ∷ s.in_flight } else on_null s

-- What the closures of `restore` are given.
unfoldable pub after : After → Bool → Backend → Backend
after (refuse_prepare id) restored s = say id 0 s
after nobody restored s = s
after (finish_done id fit) restored s = say id (of_bool (fit && restored)) s

unfoldable pub on_restore_select : After → Reply → Backend → Backend
unfolding after
on_restore_select k r s =
    after k (is_reply r) (record s { busy = false; ready = s.ready && is_reply r })

-- `get_engine` hands on the name in the reply, or the empty one.
abbrev pub engine_name : Reply → ℕ
engine_name (name_reply n) = n
engine_name _ = 0

unfoldable pub on_restore_engine : After → Reply → Backend → Backend
unfolding on_restore_select after
on_restore_engine k r s =
    if not (engine_name r == s.name)
    then after k (not (engine_name r == 0))
        (record s { busy = false; ready = s.ready && not (engine_name r == 0) })
    else call (restore_select k) (on_restore_select k no_reply) s

unfoldable pub restore : After → Backend → Backend
unfolding on_restore_engine
restore k s = call (restore_engine k) (on_restore_engine k no_reply) s

abbrev pub reply_path : Reply → Option ℕ
reply_path (path_reply p) = some p
reply_path _ = none

abbrev pub is_context : Option ℕ → ℕ → Bool
is_context none c = false
is_context (some p) c = c == p

unfoldable pub on_second_context : ℕ → Reply → Backend → Backend
unfolding restore
on_second_context id r s =
    if not (is_context (reply_path r) s.context) || not (is_some s.engine) || not s.focused
    then restore (refuse_prepare id) s
    else say id (wrap64 (s.next_token + 1)) (record s {
      next_token = wrap64 (s.next_token + 1);
      token = wrap64 (s.next_token + 1);
      prepared_focus = s.focus_revision;
      expiry = true;
    })

unfoldable pub on_select_engine : ℕ → Reply → Backend → Backend
unfolding restore on_second_context
on_select_engine id r s =
    if not (is_reply r)
    then restore (refuse_prepare id) s
    else call (second_context id) (on_second_context id no_reply) s

unfoldable pub on_first_engine : ℕ → Reply → Backend → Backend
unfolding on_select_engine
on_first_engine id r s =
    if engine_name r == 0 || engine_name r == s.name
    then say id 0 (record s { busy = false })
    else call (select_engine id) (on_select_engine id no_reply)
        (record s { previous = engine_name r })

-- The context that IBus keeps for itself.
abbrev pub reserved_context : ℕ
reserved_context = 1

unfoldable pub on_first_context : ℕ → Reply → Backend → Backend
unfolding on_first_engine
on_first_context id r s = elim (reply_path r) [
  | none ↦ say id 0 (record s { busy = false })
  | some p ↦
      if p == reserved_context
      then say id 0 (record s { busy = false })
      else call (first_engine id) (on_first_engine id no_reply) (record s { context = p })
]
