-- ===== src/Linux/Capture/Lock.antt =====
-- linux/linux_pointer_capture.cc: `lock`, and the signals that it arranges for.
use hardware_simulator.Prelude.{Bool, true, false, not, ◌||◌, ◌∷◌, if◌then◌else◌}
use hardware_simulator.Prelude.Int.{ℤ}
use hardware_simulator.Linux.Capture.{
  Impl, grab, create_lock, create_relative, open_raw, add_watch, start_timer, replaced, failed,
  Display, x11, wayland, other_display, hide, confirm, release, supported,
}

-- What `lock` asks of the desktop: the window first, then X11 or Wayland.
pub record Desktop : Type 0 where
  pub display : Display
  pub mapped : Bool
  pub top_is_window : Bool
  pub window_active : Bool
  pub has_window : Bool
  pub raw_opens : Bool
  pub xinput_ok : Bool
  pub grab_ok : Bool
  pub has_pointer : Bool
  pub has_surface : Bool

-- The string that `lock` returns; `granted` is the empty one.
pub data LockResult : Type 0 where
  granted not_supported not_focused not_realized : LockResult
  xinput_failed pointer_owned wayland_unavailable : LockResult

module _ {D : Type 0} where
  -- `watch_window` connects the signals of the toplevel once.
  abbrev pub watch_window : Impl D → Impl D
  watch_window s = record s { top = true }

  unfoldable pub lock_x11 : Desktop → Impl D → Impl D × LockResult
  lock_x11 d s =
      let opened = record s {
        raw_display = d.raw_opens;
        log = if d.raw_opens then open_raw ∷ s.log else s.log;
      } in
      if not d.raw_opens || not d.xinput_ok
      then (release failed opened, xinput_failed)
      else let hidden = hide opened in
        if not d.grab_ok then (release failed hidden, pointer_owned) else (
          confirm (record hidden {
            grabbed = true;
            raw_source = true;
            log = add_watch ∷ grab ∷ hidden.log;
          }),
          granted,
        )

  unfoldable pub lock_wayland : Desktop → Impl D → Impl D × LockResult
  lock_wayland d s =
      if not d.has_pointer || not d.has_surface then (release failed s, wayland_unavailable) else (
        record s {
          relative = true;
          locked = true;
          timeout = true;
          log = start_timer ∷ create_lock ∷ create_relative ∷ s.log;
        },
        granted,
      )

  abbrev pub lock_on : Display → Desktop → Impl D → Impl D × LockResult
  lock_on (x11 available) d s = lock_x11 d s
  lock_on (wayland es ok) d s = lock_wayland d s
  lock_on other_display d s = lock_wayland d s

  unfoldable pub request : ℤ → Desktop → Impl D → Impl D × LockResult
  request id d s =
      if not d.mapped || not d.top_is_window || not d.window_active
      then (s, not_focused)
      else if not d.has_window
      then (s, not_realized)
      else lock_on d.display d
          (record s { window = true; window_destroyed = false; generation = id; requested = true })

  unfoldable pub lock : ℤ → Desktop → Impl D → Impl D × LockResult
  lock id d s =
      let (t, able) = supported d.display (release replaced s) in
      if not able then (t, not_supported) else request id d (watch_window t)
