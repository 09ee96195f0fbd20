-- ===== src/Linux/TextInput/Calls.antt =====
-- linux/linux_text_input.cc: the calls of the backend, its signals, and the replies of D-Bus.
use hardware_simulator.Prelude.{
  ℕ, zero, suc, ◌+◌, Bool, true, false, not, ◌&&◌, ◌||◌, none, some, List, [], ◌∷◌, ◌++◌, ltb, ◌==◌,
  if◌then◌else◌, is_some, length, get_elem?,
}
use hardware_simulator.Prelude.Int.{ℤ, pos, pos_part, leb_ℤ}
use hardware_simulator.Linux.TextInput.{
  nobody, finish_done, Waiting, register, first_context, first_engine, select_engine,
  second_context, restore_engine, restore_select, Reply, no_reply, Effect, asked, answered,
  backspace_down, backspace_up, commit, Backend, wrap64, is_reply, of_bool, say, call,
  on_restore_select, on_restore_engine, restore, on_second_context, on_select_engine,
  on_first_engine, on_first_context,
}

-- `valid_text`; `utf8` is `g_utf8_validate`.
abbrev pub no_control : List ℕ → Bool
no_control [] = true
no_control (c ∷ cs) = not (ltb c 0x20 || c == 0x7f) && no_control cs

unfoldable pub valid_text : (List ℕ → Bool) → List ℕ → Bool
valid_text utf8 text = not (ltb 4096 (length text)) && utf8 text && no_control text

-- `initialized` answers everyone who waits, in the order of their calls.
unfoldable pub answer_all : ℕ → List ℕ → List Effect → List Effect
answer_all value [] l = l
answer_all value (id ∷ ids) l = answer_all value ids (answered id value ∷ l)

unfoldable pub initialized : Bool → Backend → Backend
unfolding answer_all
initialized ok s = record s {
  ready = ok;
  initializing = false;
  waiters = [];
  log = answer_all (of_bool ok) s.waiters s.log;
}

-- What the world answers to a connection: whether the new bus is connected, with an open connection,
-- and the process's name.
pub record Connecting : Type 0 where
  pub connects : Bool
  pub opens : Bool
  pub own_name : ℕ

unfoldable pub connect : Connecting → Backend → Backend
unfolding initialized
connect c s =
    let t = record s {
      initializing = true;
      ready = false;
      engine = none;
      focused = false;
      bus = true;
      bus_connected = c.connects;
      connection_open = c.opens;
    } in
    if not c.connects
    then initialized false t
    else call register (initialized false) (record t { name = c.own_name })

unfoldable pub available : Connecting → ℕ → Backend → Backend
unfolding connect
available c id s =
    let t = record s { log = asked id ∷ s.log } in
    if not s.initializing && s.ready && s.bus && s.bus_connected
    then say id 1 t
    else if s.busy
    then say id 0 t
    else let u = record t { waiters = s.waiters ++ id ∷ [] } in
      if s.initializing then u else connect c u

unfoldable pub prepare : ℕ → Backend → Backend
unfolding on_first_context
prepare id s =
    let t = record s { log = asked id ∷ s.log } in
    if not s.ready || s.busy || not s.bus_connected
    then say id 0 t
    else call (first_context id) (on_first_context id no_reply) (record t { busy = true })

-- The loop that forwards backspaces.
unfoldable pub backspace_keys : ℕ → List Effect → List Effect
backspace_keys zero l = l
backspace_keys (suc n) l = backspace_keys n (backspace_up ∷ backspace_down ∷ l)

abbrev pub commit_text : List ℕ → List Effect → List Effect
commit_text [] l = l
commit_text (c ∷ cs) l = commit (c ∷ cs) ∷ l

unfoldable pub finish : (List ℕ → Bool) → ℕ → ℕ → ℤ → List ℕ → Backend → Backend
unfolding valid_text backspace_keys restore
finish utf8 id token backspaces text s =
    let t = record s { log = asked id ∷ s.log } in
    if token == 0 || not (token == s.token)
    then say id 0 t
    else let valid =
        valid_text utf8 text && leb_ℤ (pos 0) backspaces && leb_ℤ backspaces (pos 4096) in
      let active =
        is_some s.engine && s.focused && s.prepared_focus == s.focus_revision && s.bus_connected in
      restore (finish_done id (valid && active)) (record t {
        token = 0;
        expiry = false;
        log =
            if valid && active
            then commit_text text (backspace_keys (pos_part backspaces) t.log)
            else t.log;
      })

-- The timer of a prepared transaction.
unfoldable pub expire : Backend → Backend
unfolding restore
expire s = restore nobody (record s { expiry = false; token = 0 })

-- `create_engine` for a name that is the backend's.
unfoldable pub create_engine : ℕ → Backend → Backend
create_engine n s =
    if n == s.name
    then record s { engine_id = s.engine_id + 1; engine = some (s.engine_id + 1); focused = false }
    else s

abbrev pub is_engine : ℕ → Backend → Bool
is_engine e s = elim s.engine [ none ↦ false | some f ↦ f == e ]

unfoldable pub focus_in : ℕ → Backend → Backend
unfolding restore
focus_in e s =
    if not (is_engine e s)
    then s
    else let t = record s { focused = true; focus_revision = wrap64 (s.focus_revision + 1) } in
      if not s.busy && not (s.previous == 0) then restore nobody (record t { busy = true }) else t

-- `focus-out` and `disable` have one body.
unfoldable pub focus_out : ℕ → Backend → Backend
focus_out e s =
    if not (is_engine e s)
    then s
    else record s { focused = false; focus_revision = wrap64 (s.focus_revision + 1) }

unfoldable pub engine_destroyed : ℕ → Backend → Backend
engine_destroyed e s = if is_engine e s then record s { engine = none; focused = false } else s

-- The closure of a call in flight, run on its reply.
unfoldable pub dispatch : Waiting → Reply → Backend → Backend
unfolding initialized on_first_context on_first_engine on_select_engine on_second_context
dispatch register r s = initialized (is_reply r) s
dispatch (first_context id) r s = on_first_context id r s
dispatch (first_engine id) r s = on_first_engine id r s
dispatch (select_engine id) r s = on_select_engine id r s
dispatch (second_context id) r s = on_second_context id r s
dispatch (restore_engine k) r s = on_restore_engine k r s
dispatch (restore_select k) r s = on_restore_select k r s

pub data Event : Type 0 where
  available_call : Connecting → ℕ → Event
  prepare_call : ℕ → Event
  finish_call : ℕ → ℕ → ℤ → List ℕ → Event
  replied : ℕ → Reply → Event
  expired : Event
  engine_wanted engine_focus_in engine_focus_out engine_gone : ℕ → Event
  disconnected connection_closed : Event

abbrev pub remove_at {ℓ} : {A : Type ℓ} → ℕ → List A → List A
remove_at n [] = []
remove_at zero (x ∷ xs) = xs
remove_at (suc n) (x ∷ xs) = x ∷ remove_at n xs

-- The reply to the n-th call in flight; one that is not there changes nothing.
unfoldable pub reply_to : ℕ → Reply → Backend → Backend
unfolding dispatch
reply_to n r s = elim (get_elem? s.in_flight n) [
  | none ↦ s
  | some w ↦ dispatch w r (record s { in_flight = remove_at n s.in_flight })
]

module _ (utf8 : List ℕ → Bool) where
  unfoldable pub step : Event → Backend → Backend
  step (available_call c id) s = available c id s
  step (prepare_call id) s = prepare id s
  step (finish_call id token backspaces text) s = finish utf8 id token backspaces text s
  step (replied n r) s = reply_to n r s
  step expired s = if s.expiry then expire s else s
  step (engine_wanted n) s = create_engine n s
  step (engine_focus_in e) s = focus_in e s
  step (engine_focus_out e) s = focus_out e s
  step (engine_gone e) s = engine_destroyed e s
  step disconnected s = record s { ready = false; bus_connected = false }
  step connection_closed s = record s { connection_open = false }

  unfoldable pub run : List Event → Backend → Backend
  run [] s = s
  run (e ∷ es) s = run es (step e s)
