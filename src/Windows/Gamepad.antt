-- ===== src/Windows/Gamepad.antt =====
-- windows/rumble_callback_registry.h and windows/gamecontroller_manager.cc: the virtual gamepads and the
-- rumble callbacks.
--
-- ViGEm is not part of the repository. A pad, a window and a message are numbers, 0 the null one; what
-- the driver answers is an argument, and what it is asked is a log. A map and an array of four are
-- functions. The mutex of the registry makes each of its calls one step.
pub mod Calls
pub mod Cookies
pub mod Slots
mod Tests
use hardware_simulator.Prelude.{
  ℕ, zero, suc, ◌+◌, ◌-◌, ◌*◌, ◌^◌, Bool, true, false, not, ◌&&◌, ◌||◌, Option, none, some, List,
  [], ◌∷◌, ◌==◌, if◌then◌else◌,
}
use hardware_simulator.Prelude.Int.{ℤ, pos, negsuc, pos_part, leb_ℤ}

pub record RumbleCallbackData : Type 0 where
  pub window : ℕ
  pub message : ℕ
  pub callback_token : ℕ
  pub controller_id : ℕ

pub record Registry : Type 0 where
  pub next : ℕ
  pub entries : ℕ → Option RumbleCallbackData

abbrev pub uintptr_max : ℕ
uintptr_max = 2 ^ 64 - 1

abbrev pub put {ℓ} : {A : Type ℓ} → ℕ → A → (ℕ → A) → ℕ → A
put k x f i = if i == k then x else f i

-- A map's `emplace` keeps an entry that is there.
abbrev pub emplace : RumbleCallbackData → Option RumbleCallbackData → Option RumbleCallbackData
emplace info none = some info
emplace info (some d) = some d

unfoldable pub register_callback : RumbleCallbackData → Registry → Registry
register_callback info r = if r.next == uintptr_max then r else record {
  next = r.next + 1;
  entries = put (r.next + 1) (emplace info (r.entries (r.next + 1))) r.entries;
}

-- The cookie that `Register` returns.
abbrev pub new_cookie : Registry → ℕ
new_cookie r = if r.next == uintptr_max then 0 else r.next + 1

abbrev pub lookup : ℕ → Registry → Option RumbleCallbackData
lookup cookie r = r.entries cookie

unfoldable pub remove_callback : ℕ → Registry → Registry
remove_callback cookie r = record r { entries = put cookie none r.entries }

pub record RumbleContext : Type 0 where
  pub info : RumbleCallbackData
  pub registered : Bool
  pub cookie : ℕ

pub data Request : Type 0 where
  client_made client_connected : Bool → Request
  added : ℕ → Request
  removed : ℕ → Request
  freed : ℕ → Request
  notify : ℕ → ℕ → Request
  unnotify : ℕ → Request
  posted : ℕ → ℕ → ℕ → ℕ → Request

-- `GameControllerManager` with `rumble_contexts` and the registry; `controllers i` is 0 for a slot
-- that is free.
pub record Manager : Type 0 where
  pub initialized : Bool
  pub controllers : ℕ → ℕ
  pub contexts : ℕ → RumbleContext
  pub registry : Registry
  pub log : List Request

abbrev pub no_data : RumbleCallbackData
no_data = record { window = 0; message = 0; callback_token = 0; controller_id = 0 }

abbrev pub new_manager : Manager
new_manager = record {
  initialized = false;
  controllers = λ i. 0;
  contexts = λ i. record { info = no_data; registered = false; cookie = 0 };
  registry = record { next = 0; entries = λ c. none };
  log = [];
}

-- `UnregisterRumble` on the context of a slot.
unfoldable pub unregister_rumble : ℕ → Manager → Manager
unfolding remove_callback
unregister_rumble i m =
    let c = m.contexts i in
    record m {
      contexts = put i (record c { registered = false; cookie = 0 }) m.contexts;
      registry = remove_callback c.cookie m.registry;
      log = if c.registered then unnotify (m.controllers i) ∷ m.log else m.log;
    }

-- `SubscribeRumble` after its guard, with the answer of the driver.
unfoldable pub subscribe_fresh : ℕ → RumbleCallbackData → Bool → Manager → Bool × Manager
unfolding register_callback remove_callback
subscribe_fresh i info driver_accepts m =
    let cookie = new_cookie m.registry in
    let r = register_callback info m.registry in
    if cookie == 0 then (false, record m { registry = r }) else (
      driver_accepts,
      record m {
        contexts =
            put i
              (record {
                info = info;
                registered = driver_accepts;
                cookie = if driver_accepts then cookie else 0;
              })
              m.contexts;
        registry = if driver_accepts then r else remove_callback cookie r;
        log = notify (m.controllers i) cookie ∷ m.log;
      },
    )

abbrev pub in_slots : ℤ → Bool
in_slots id = leb_ℤ (pos 1) id && leb_ℤ id (pos 4)

-- The index of an id from 1 to 4.
abbrev pub slot : ℤ → ℕ
slot id = pos_part id - 1

abbrev pub may_subscribe : ℤ → ℕ → ℕ → Manager → Bool
may_subscribe id window message m =
    in_slots id && not (m.controllers (slot id) == 0) && not (window == 0) && not (message == 0)

unfoldable pub subscribe_rumble : ℤ → ℕ → ℕ → ℕ → Bool → Manager → Bool × Manager
unfolding unregister_rumble subscribe_fresh
subscribe_rumble id token window message driver_accepts m =
    if not (may_subscribe id window message m)
    then (false, m)
    else subscribe_fresh (slot id)
        (record {
          window = window;
          message = message;
          callback_token = token;
          controller_id = slot id + 1;
        })
        driver_accepts (unregister_rumble (slot id) m)

unfoldable pub stop_one : ℕ → Manager → Manager
unfolding unregister_rumble
stop_one i m =
    if not (m.controllers i == 0) && (m.contexts i).registered then unregister_rumble i m else m

unfoldable pub stop_rumble_notifications : Manager → Manager
unfolding stop_one
stop_rumble_notifications m = stop_one 3 (stop_one 2 (stop_one 1 (stop_one 0 m)))

-- The answers of ViGEm to the creation of a pad.
pub record Creation : Type 0 where
  pub client : Bool
  pub connects : Bool
  pub pad : ℕ
  pub accepts : Bool

-- `InitializeVigem`, with what it returns as whether it succeeds.
unfoldable pub initialize_vigem : Creation → Manager → Manager
initialize_vigem c m =
    if not c.client
    then record m { log = client_made false ∷ m.log }
    else if not c.connects
    then record m { log = client_connected false ∷ client_made true ∷ m.log }
    else record m { initialized = true; log = client_connected true ∷ client_made true ∷ m.log }

-- The loop over the slots from `i`; `left` are the slots left. The answer is the id, or -1.
unfoldable pub create_in : ℕ → ℕ → Creation → Manager → ℤ × Manager
create_in zero i c m = (negsuc 0, m)
create_in (suc left) i c m =
    let rest = create_in left (i + 1) c m in
    if m.controllers i == 0
    then (
      if c.accepts then pos (i + 1) else negsuc 0,
      record m { controllers = put i c.pad m.controllers; log = added c.pad ∷ m.log },
    )
    else rest

unfoldable pub create_game_controller : Creation → Manager → ℤ × Manager
unfolding create_in initialize_vigem
create_game_controller c m =
    if m.initialized
    then create_in 4 0 c m
    else let n = initialize_vigem c m in if n.initialized then create_in 4 0 c n else (negsuc 0, n)

-- `RemoveGameController` at a slot that is taken; the subscription is tried again when ViGEm refuses.
unfoldable pub remove_taken : ℤ → Bool → Bool → Manager → Bool × Manager
unfolding unregister_rumble subscribe_rumble
remove_taken id accepts resubscribes m =
    let i = slot id in
    let c = m.contexts i in
    let n = if c.registered then unregister_rumble i m else m in
    let asked = record n { log = removed (m.controllers i) ∷ n.log } in
    if not accepts
    then (
      false,
      if c.registered
          then (subscribe_rumble id c.info.callback_token c.info.window c.info.message resubscribes
              asked).1
          else asked,
    )
    else (
      true,
      record asked {
        controllers = put i 0 m.controllers;
        log = freed (m.controllers i) ∷ asked.log;
      },
    )

unfoldable pub remove_game_controller : ℤ → Bool → Bool → Manager → Bool × Manager
unfolding remove_taken
remove_game_controller id accepts resubscribes m =
    if not (in_slots id) || m.controllers (slot id) == 0
    then (false, m)
    else remove_taken id accepts resubscribes m

-- `ResolveRumble`: the id and the token.
unfoldable pub resolve_rumble : ℕ → Manager → Option (ℕ × ℕ)
resolve_rumble cookie m = elim (lookup cookie m.registry) [
  | none ↦ none
  | some d ↦ some (d.controller_id, d.callback_token)
]

-- `OnRumble`, on the motors' bytes.
unfoldable pub on_rumble : ℕ → ℕ → ℕ → Manager → Manager
on_rumble cookie large small m = elim (lookup cookie m.registry) [
  | none ↦ m
  | some d ↦ record m { log = posted d.window d.message cookie (large * 2 ^ 8 + small) ∷ m.log }
]
