-- ===== src/Linux/Capture.antt =====
-- linux/linux_pointer_capture.cc: the capture of the pointer by the viewer's window, its state and the
-- steps that all its operations share.
--
-- GTK, X11 and Wayland are not part of the repository. A handle is present or absent; what the code
-- asks of them comes as arguments of a call, and what it does to them is logged, newest first.
pub mod Lock
pub mod Raw
pub mod Reseed
pub mod Events
pub mod Safety
mod Tests
use hardware_simulator.Prelude.{
  ℕ, Bool, true, false, not, ◌&&◌, ◌||◌, List, [], ◌∷◌, ◌==◌, if◌then◌else◌,
}
use hardware_simulator.Prelude.Int.{ℤ, pos}
use hardware_simulator.Linux.Values.{Doubles}

pub data Reason : Type 0 where
  disposed released unsupported focus_lost unmapped destroyed connection_lost : Reason
  replaced failed system_unlocked timed_out invalid_sender locked_reason : Reason

-- `notify g locked reason` and `motion g dx dy` are the two callbacks.
pub data Effect (D : Type 0) : Type 0 where
  notify : ℤ → Bool → Reason → Effect D
  motion : ℤ → D → D → Effect D
  blank_cursor restore_cursor grab ungrab : Effect D
  create_lock destroy_lock create_relative destroy_relative : Effect D
  open_raw close_raw add_watch remove_watch start_timer remove_timer : Effect D
  position_hint : D → D → Effect D
  warp : ℤ → ℤ → Effect D

-- `struct Impl`. `window_destroyed` is what `gdk_window_is_destroyed(window)` says.
pub record Impl (D : Type 0) : Type 0 where
  pub view : Bool
  pub top : Bool
  pub generation : ℤ
  pub requested : Bool
  pub active : Bool
  pub timeout : Bool
  pub window : Bool
  pub window_destroyed : Bool
  pub raw_display : Bool
  pub raw_source : Bool
  pub relative_devices : List (ℕ × Bool)
  pub grabbed : Bool
  pub cursor_hidden : Bool
  pub registry : Bool
  pub constraints : Bool
  pub relative_manager : Bool
  pub locked : Bool
  pub relative : Bool
  pub constraints_name : ℕ
  pub relative_name : ℕ
  pub log : List (Effect D)

abbrev pub new_impl : (D : Type 0) → Impl D
new_impl D = record {
  view = true;
  top = false;
  generation = pos 0;
  requested = false;
  active = false;
  timeout = false;
  window = false;
  window_destroyed = false;
  raw_display = false;
  raw_source = false;
  relative_devices = [];
  grabbed = false;
  cursor_hidden = false;
  registry = false;
  constraints = false;
  relative_manager = false;
  locked = false;
  relative = false;
  constraints_name = 0;
  relative_name = 0;
  log = [];
}

module _ {D : Type 0} where
  abbrev pub emit_if : Bool → Effect D → List (Effect D) → List (Effect D)
  emit_if b e l = if b then e ∷ l else l

  unfoldable pub hide : Impl D → Impl D
  hide s =
      if s.cursor_hidden then s else record s { cursor_hidden = true; log = blank_cursor ∷ s.log }

  unfoldable pub confirm : Impl D → Impl D
  confirm s =
      if not s.requested || s.active
      then s
      else let t = hide (record s { active = true }) in
        record t {
          timeout = false;
          log = notify t.generation true locked_reason ∷ emit_if t.timeout remove_timer t.log;
        }

  -- The resources are given back in the order of the source, and the callback comes last.
  unfoldable pub release : Reason → Impl D → Impl D
  release reason s =
      let timers = emit_if s.timeout remove_timer s.log in
      let locks = emit_if s.relative destroy_relative (emit_if s.locked destroy_lock timers) in
      let grabs = emit_if (s.grabbed && s.window) ungrab locks in
      let raws = emit_if s.raw_display close_raw (emit_if s.raw_source remove_watch grabs) in
      let cursors =
        emit_if (s.window && s.cursor_hidden && not s.window_destroyed) restore_cursor raws in
      record s {
        requested = false;
        active = false;
        relative_devices = [];
        timeout = false;
        locked = false;
        relative = false;
        grabbed = s.grabbed && not s.window;
        raw_source = false;
        raw_display = false;
        cursor_hidden = s.cursor_hidden && not s.window;
        window = false;
        log = emit_if s.requested (notify s.generation false reason) cursors;
      }

-- What a registry event announces.
pub data Global : Type 0 where
  pointer_constraints relative_pointer_manager other_global : Global

pub data RegistryEvent : Type 0 where
  global_added : ℕ → Global → RegistryEvent
  global_removed : ℕ → RegistryEvent

module _ {D : Type 0} where
  unfoldable pub global : ℕ → Global → Impl D → Impl D
  global name pointer_constraints s = record s { constraints = true; constraints_name = name }
  global name relative_pointer_manager s = record s {
    relative_manager = true;
    relative_name = name;
  }
  global name other_global s = s

  unfoldable pub removed : ℕ → Impl D → Impl D
  removed name s =
      if name == s.constraints_name || name == s.relative_name
      then (let t = release unsupported s in
          record t {
            constraints = t.constraints && not (name == t.constraints_name);
            relative_manager = t.relative_manager && not (name == t.relative_name);
          })
      else s

  unfoldable pub registry_event : RegistryEvent → Impl D → Impl D
  registry_event (global_added name g) s = global name g s
  registry_event (global_removed name) s = removed name s

  unfoldable pub registry_events : List RegistryEvent → Impl D → Impl D
  registry_events [] s = s
  registry_events (e ∷ es) s = registry_events es (registry_event e s)

-- The display server of the view: X11, with whether XInput 2.1 is there, Wayland, with the events and
-- the success of a roundtrip, or another.
pub data Display : Type 0 where
  x11 : Bool → Display
  wayland : List RegistryEvent → Bool → Display
  other_display : Display

module _ {D : Type 0} where
  abbrev pub bound_globals : Impl D → Impl D × Bool
  bound_globals s = (s, s.constraints && s.relative_manager)

  unfoldable pub supported : Display → Impl D → Impl D × Bool
  supported (x11 available) s = (s, s.view && available)
  supported other_display s = (s, false)
  supported (wayland events ok) s =
      if not s.view
      then (s, false)
      else if s.registry
      then bound_globals s
      else let t = registry_events events (record s { registry = true }) in
        if ok then bound_globals t else (t, false)
