-- ===== src/Linux/Immersive.antt =====
-- linux/linux_immersive_input.cc: the keyboard capture that keeps shortcuts from the desktop.
--
-- GTK, X11 and Wayland are parameters: what they answer is a `World`, and what they are asked is a log.
-- A handle is whether it is there. A roundtrip of Wayland delivers signals, which can call `set_enabled`
-- again while a first call is preparing.
pub mod Holding
pub mod Reentry
mod Tests
use hardware_simulator.Prelude.{
  ℕ, Bool, true, false, not, ◌&&◌, ◌||◌, List, [], ◌∷◌, ◌==◌, if◌then◌else◌,
}

pub data Effect : Type 0 where
  grab ungrab inhibit destroy_inhibitor add_watch remove_watch destroy_manager : Effect

pub record Impl : Type 0 where
  pub view : Bool
  pub top : Bool
  pub window : Bool
  pub grabbed : Bool
  pub wanted : Bool
  pub preparing : Bool
  pub focus_watch : Bool
  pub registry : Bool
  pub manager : Bool
  pub inhibitor : Bool
  pub manager_name : ℕ
  pub log : List Effect

abbrev pub new_impl : Impl
new_impl = record {
  view = true;
  top = false;
  window = false;
  grabbed = false;
  wanted = false;
  preparing = false;
  focus_watch = false;
  registry = false;
  manager = false;
  inhibitor = false;
  manager_name = 0;
  log = [];
}

-- The signals of GTK and of the registry; `top_gone` and `view_gone` clear the weak pointers.
pub data Signal : Type 0 where
  focus_changed : Bool → Signal
  unmapped destroyed top_gone view_gone : Signal
  global : Bool → ℕ → Signal
  removed : ℕ → Signal

pub data Display : Type 0 where
  x11 wayland other_display : Display

-- What a call of `set_enabled` finds; the fields from `signals` on are those of the roundtrip and after
-- it.
pub record World : Type 0 where
  pub top_is_window : Bool
  pub mapped : Bool
  pub active : Bool
  pub native_window : Bool
  pub display : Display
  pub grab_ok : Bool
  pub signals : List Signal
  pub roundtrip_ok : Bool
  pub seat : Bool
  pub surface : Bool
  pub window_destroyed : Bool
  pub still_mapped : Bool
  pub still_active : Bool

abbrev pub emit_if : Bool → Effect → List Effect → List Effect
emit_if b e l = if b then e ∷ l else l

unfoldable pub release : Impl → Impl
release s = record s {
  focus_watch = false;
  inhibitor = false;
  grabbed = s.grabbed && not s.window;
  window = false;
  log =
      emit_if (s.grabbed && s.window) ungrab
        (emit_if s.inhibitor destroy_inhibitor (emit_if s.focus_watch remove_watch s.log));
}

-- `set_enabled` up to its preparation, which is the first argument.
unfoldable pub set_enabled_with : (Impl → Bool × Impl) → Bool → Impl → Bool × Impl
unfolding release
set_enabled_with prepare enabled s =
    let t = record s { wanted = enabled } in
    if not enabled then (true, release t) else if s.preparing then (true, t) else prepare t

-- The handler of a signal; GTK's are connected once there is a `top`.
unfoldable pub signal : (Impl → Bool × Impl) → Signal → Impl → Impl
unfolding set_enabled_with release
signal prepare (focus_changed active) s =
    if not s.top
    then s
    else if not active
    then release s
    else if s.wanted
    then (set_enabled_with prepare true s).1
    else s
signal prepare unmapped s = if not s.top then s else (set_enabled_with prepare false s).1
signal prepare destroyed s = if not s.top then s else (set_enabled_with prepare false s).1
signal prepare top_gone s = record s { top = false }
signal prepare view_gone s = record s { view = false }
signal prepare (global is_manager name) s =
    if is_manager then record s { manager = true; manager_name = name } else s
signal prepare (removed name) s =
    if not (name == s.manager_name)
    then s
    else let t = release s in
      record t { manager = false; manager_name = 0; log = emit_if t.manager destroy_manager t.log }

unfoldable pub signals : (Impl → Bool × Impl) → List Signal → Impl → Impl
unfolding signal
signals prepare [] s = s
signals prepare (x ∷ xs) s = signals prepare xs (signal prepare x s)

abbrev pub refuse : Impl → Bool × Impl
refuse s = (false, record s { wanted = false })

-- The last lines of `set_enabled`.
unfoldable pub captured : Impl → Bool × Impl
captured s = (
  true,
  record s {
    window = true;
    focus_watch = s.grabbed || s.focus_watch;
    log = emit_if s.grabbed add_watch s.log;
  },
)

unfoldable pub capture_x11 : World → Impl → Bool × Impl
unfolding captured
capture_x11 w s =
    if not w.grab_ok then refuse s else captured (record s { grabbed = true; log = grab ∷ s.log })

-- After the roundtrip everything is looked at again.
unfoldable pub inhibit_shortcuts : World → Impl → Bool × Impl
unfolding captured
inhibit_shortcuts w s =
    if not s.wanted
      || not s.manager
      || not w.seat
      || not w.surface
      || not s.top
      || not s.view
      || w.window_destroyed
      || not w.still_mapped
    then refuse s
    else if not w.still_active
    then (true, s)
    else captured (record s { inhibitor = true; log = inhibit ∷ s.log })

-- The registry is made once; its roundtrip delivers signals, a nested call of which does not prepare.
unfoldable pub capture_wayland : World → Impl → Bool × Impl
unfolding signals inhibit_shortcuts
capture_wayland w s =
    if s.registry
    then inhibit_shortcuts w s
    else let t = signals (λ u. (true, u)) w.signals (record s { registry = true }) in
      if not w.roundtrip_ok then refuse t else inhibit_shortcuts w t

unfoldable pub capture : Display → World → Impl → Bool × Impl
unfolding capture_x11 capture_wayland
capture x11 w s = capture_x11 w s
capture wayland w s = capture_wayland w s
capture other_display w s = refuse s

-- `watch_window`.
abbrev pub watch_window : World → Impl → Impl
watch_window w s = record s { top = s.top || s.view && w.top_is_window }

unfoldable pub prepare_body : World → Impl → Bool × Impl
unfolding capture release
prepare_body w s =
    if not s.view
    then refuse s
    else let t = watch_window w s in
      if not t.top || not w.mapped
      then (false, release (record t { wanted = false }))
      else if not w.active
      then (true, release t)
      else if t.window
      then (true, t)
      else if not w.native_window
      then refuse t
      else capture w.display w t

-- The guard is set for the time of the preparation.
unfoldable pub prepare : World → Impl → Bool × Impl
unfolding prepare_body
prepare w s =
    let r = prepare_body w (record s { preparing = true }) in
    (r.0, record (r.1) { preparing = false })

unfoldable pub set_enabled : World → Bool → Impl → Bool × Impl
unfolding set_enabled_with prepare
set_enabled w enabled s = set_enabled_with (λ t. prepare w t) enabled s

-- The timer of a grab: whether the window still has the focus.
unfoldable pub check_focus : Bool → Impl → Impl
unfolding release
check_focus focused s =
    if not s.focus_watch || focused then s else release (record s { focus_watch = false })

pub data Event : Type 0 where
  enable : World → Bool → Event
  signalled : World → Signal → Event
  focus_checked : Bool → Event

unfoldable pub step : Event → Impl → Impl
step (enable w enabled) s = (set_enabled w enabled s).1
step (signalled w x) s = signal (λ t. prepare w t) x s
step (focus_checked focused) s = check_focus focused s

unfoldable pub run : List Event → Impl → Impl
run [] s = s
run (e ∷ es) s = run es (step e s)
