-- ===== src/Linux/Capture/Events.antt =====
-- linux/linux_pointer_capture.cc: whatever may happen to a capture, in any order.
use hardware_simulator.Prelude.{ℕ, Bool, true, false, ◌&&◌, List, [], ◌∷◌, if◌then◌else◌}
use hardware_simulator.Prelude.Int.{ℤ}
use hardware_simulator.Linux.Values.{Doubles}
use hardware_simulator.Linux.Capture.{
  Impl, Reason, focus_lost, unmapped, destroyed, system_unlocked, timed_out, disposed, motion,
  RegistryEvent, Display, confirm, release, registry_event, supported,
}
use hardware_simulator.Linux.Capture.Lock.{Desktop, lock}
use hardware_simulator.Linux.Capture.Raw.{DeviceClass, Pending, read_raw}
use hardware_simulator.Linux.Capture.Reseed.{
  Surface, unlock, unlock_generation, unlock_and_reseed_generation,
}

-- The calls of the plugin, the signals of the window, and the callbacks of X11 and Wayland.
pub data Event (d : Doubles) : Type 0 where
  asked_support : Display → Event d
  lock_call : ℤ → Desktop → Event d
  unlock_call : Reason → Event d
  unlock_generation_call : ℤ → Event d
  reseed_call : ℤ → Surface d → d.D → d.D → Event d
  lost_focus unmapped_window destroyed_window view_gone window_gone : Event d
  lock_confirmed lock_refused lock_timed_out : Event d
  relative_motion : d.D → d.D → Event d
  raw_ready : Bool → List (Pending d.D) → (ℕ → List (List DeviceClass)) → Event d
  registry_changed : RegistryEvent → Event d

module _ (d : Doubles) where
  -- A callback comes only while its source exists: the locked pointer for confirmation and refusal, the
  -- relative pointer for motion, the timer, the watch of the raw connection, the connected signals.
  unfoldable pub step : Event d → Impl d.D → Impl d.D
  step (asked_support display) s = (supported display s).0
  step (lock_call id desktop) s = (lock id desktop s).0
  step (unlock_call reason) s = unlock d reason s
  step (unlock_generation_call g) s = unlock_generation d g s
  step (reseed_call g w x y) s = unlock_and_reseed_generation d g w x y s
  step lost_focus s = if s.top then release focus_lost s else s
  step unmapped_window s = if s.top then release unmapped s else s
  step destroyed_window s = if s.top then record (release destroyed s) { top = false } else s
  step view_gone s = record s { view = false }
  step window_gone s = record s { window_destroyed = true }
  step lock_confirmed s = if s.locked then confirm s else s
  step lock_refused s = if s.locked then release system_unlocked s else s
  step lock_timed_out s = if s.timeout then release timed_out (record s { timeout = false }) else s
  step (relative_motion dx dy) s =
      if s.relative && s.active then record s { log = motion s.generation dx dy ∷ s.log } else s
  step (raw_ready lost es query) s = if s.raw_source then read_raw d query lost es s else s
  step (registry_changed e) s = if s.registry then registry_event e s else s

  unfoldable pub run : List (Event d) → Impl d.D → Impl d.D
  run [] s = s
  run (e ∷ es) s = run es (step e s)

  -- The destructor releases what is still held.
  unfoldable pub dispose : Impl d.D → Impl d.D
  dispose s = record (release disposed s) {
    top = false;
    registry = false;
    constraints = false;
    relative_manager = false;
  }
