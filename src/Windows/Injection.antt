-- ===== src/Windows/Injection.antt =====
-- windows/hardware_simulator_plugin.cpp: how an event reaches Windows. The desktop service is offered it
-- first, then Windows itself, and after a refusal a loop tries again while the input desktop changes.
--
-- What Windows answers is a function of how many questions it has been asked. The loop runs in a thread
-- that the caller waits for, so it is part of the call, and its last known desktop starts as null.
pub mod Keys
pub mod Pointers
pub mod Delivered
mod Tests
use hardware_simulator.Prelude.{
  ℕ, zero, suc, Bool, true, false, not, ◌&&◌, List, [], ◌∷◌, ◌==◌, if◌then◌else◌,
}
use hardware_simulator.Windows.Service.{Client, new_client}
use hardware_simulator.Windows.Service.Messages.{
  Input, Pointer, send_input_message, send_touch_input, send_pen_input,
}

-- An event that is sent: an `INPUT`, the touch contacts that are in use, or the pen.
pub data Event : Type 0 where
  input : Input → Event
  contacts : List Pointer → Event
  stylus : Pointer → Event

-- Who took an event.
pub data Taken : Type 0 where
  by_service by_windows : Event → Taken

-- Windows: the answers of SendInput, InjectSyntheticPointerInput and CreateSyntheticPointerDevice, the
-- functions that user32 has, the input desktop's handle, the map of keys, and the fuel of the loop.
pub record Outside : Type 0 where
  pub send_input_accepts : ℕ → Bool
  pub inject_accepts : ℕ → Bool
  pub device_made : ℕ → Bool
  pub has_create : Bool
  pub has_inject : Bool
  pub has_destroy : Bool
  pub input_desktop : ℕ → ℕ
  pub map_virtual_key : ℕ → ℕ
  pub patience : ℕ

-- The globals that sending uses; `taken` has the latest event first.
pub record Sender : Type 0 where
  pub client : Client
  pub asked : ℕ
  pub fn_create : Bool
  pub fn_inject : Bool
  pub fn_destroy : Bool
  pub touch_device : Bool
  pub pen_device : Bool
  pub taken : List Taken

abbrev pub new_sender : Client → Sender
new_sender client = record {
  client = client;
  asked = 0;
  fn_create = false;
  fn_inject = false;
  fn_destroy = false;
  touch_device = false;
  pen_device = false;
  taken = [];
}

-- The second step runs where the first has failed, or where it has not.
abbrev pub or_else : Bool × Sender → (Sender → Bool × Sender) → Bool × Sender
or_else (true, s) next = (true, s)
or_else (false, s) next = next s

abbrev pub and_then : Bool × Sender → (Sender → Bool × Sender) → Bool × Sender
and_then (true, s) next = next s
and_then (false, s) next = (false, s)

abbrev pub service_takes : Event → Client → Bool × Client
service_takes (input i) c = send_input_message i c
service_takes (contacts ps) c = send_touch_input ps c
service_takes (stylus p) c = send_pen_input p c

unfoldable pub offer_service : Event → Sender → Bool × Sender
offer_service e s =
    let (ok, c) = service_takes e s.client in
    (ok, record s { client = c; taken = if ok then by_service e ∷ s.taken else s.taken })

-- Windows' answer to an event.
unfoldable pub give_windows : (ℕ → Bool) → Event → Sender → Bool × Sender
give_windows accepts e s = (
  accepts s.asked,
  record s {
    asked = suc s.asked;
    taken = if accepts s.asked then by_windows e ∷ s.taken else s.taken;
  },
)

module _ (out : Outside) where
  unfoldable pub init_touch_api : Sender → Sender
  init_touch_api s = record s {
    fn_create = out.has_create;
    fn_inject = out.has_inject;
    fn_destroy = out.has_destroy;
  }

  -- `if (!fnCreateSyntheticPointerDevice) initTouchAPI()`.
  abbrev pub load_api : Sender → Sender
  load_api s = if s.fn_create then s else init_touch_api s

  unfoldable pub create_touch_device : Sender → Bool × Sender
  unfolding init_touch_api
  create_touch_device s =
      let t = load_api s in
      if not t.fn_create then (false, t) else (
        out.device_made t.asked,
        record t { touch_device = out.device_made t.asked; asked = suc t.asked },
      )

  unfoldable pub create_pen_device : Sender → Bool × Sender
  unfolding init_touch_api
  create_pen_device s =
      let t = load_api s in
      if not t.fn_create then (false, t) else (
        out.device_made t.asked,
        record t { pen_device = out.device_made t.asked; asked = suc t.asked },
      )

  abbrev pub inject : Event → Sender → Bool × Sender
  inject e s = if not s.fn_inject then (false, s) else give_windows out.inject_accepts e s

  unfoldable pub send_touch : List Pointer → Sender → Bool × Sender
  unfolding create_touch_device offer_service give_windows
  send_touch ps s = or_else (offer_service (contacts ps) s) λ t.
      and_then (if t.touch_device then (true, t) else create_touch_device t) (inject (contacts ps))

  unfoldable pub send_pen : Pointer → Sender → Bool × Sender
  unfolding create_pen_device offer_service give_windows
  send_pen p s =
      or_else (offer_service (stylus p) s)
        λ t. and_then (if t.pen_device then (true, t) else create_pen_device t) (inject (stylus p))

  -- What the loop tries: an `INPUT` goes to Windows only.
  abbrev pub attempt : Event → Sender → Bool × Sender
  attempt (input i) s = give_windows out.send_input_accepts (input i) s
  attempt (contacts ps) s = send_touch ps s
  attempt (stylus p) s = send_pen p s

  -- The loop, with whether it has ended.
  unfoldable pub retry : ℕ → Event → ℕ → Sender → Bool × Sender
  unfolding send_touch send_pen give_windows
  retry zero e last s = (false, s)
  retry (suc fuel) e last s = or_else (attempt e s) λ t.
      let h = out.input_desktop t.asked in
      let u = record t { asked = suc t.asked } in
      let again = retry fuel e h u in if h == last then (true, u) else again

  abbrev pub first_attempt : Event → Sender → Bool × Sender
  first_attempt (input i) s = or_else (offer_service (input i) s) (attempt (input i))
  first_attempt (contacts ps) s = send_touch ps s
  first_attempt (stylus p) s = send_pen p s

  -- `send_input`, `send_touch_input` and `send_pen_input`.
  unfoldable pub send : Event → Sender → Sender
  unfolding retry offer_service send_touch send_pen give_windows
  send e s = (or_else (first_attempt e s) (retry out.patience e 0)).1

unfoldable pub destroy_touch_device : Sender → Sender
destroy_touch_device s =
    if s.touch_device && s.fn_destroy then record s { touch_device = false } else s

unfoldable pub destroy_pen_device : Sender → Sender
destroy_pen_device s = if s.pen_device && s.fn_destroy then record s { pen_device = false } else s
