-- ===== src/Linux/Immersive/Holding/Runs.antt =====
-- The capture over any calls and signals.
use hardware_simulator.Prelude.{
  ◌≡◌, refl, Bool, true, false, not, ◌||◌, List, [], ◌∷◌, arith, ◌==◌, if_both, if_cases,
}
use hardware_simulator.Linux.Immersive.{
  destroy_manager, Impl, Signal, focus_changed, unmapped, destroyed, top_gone, view_gone, global,
  removed, Display, x11, wayland, other_display, World, emit_if, release, set_enabled_with, signal,
  signals, captured, capture_x11, inhibit_shortcuts, capture_wayland, capture, watch_window,
  prepare_body, prepare, set_enabled, check_focus, Event, enable, signalled, focus_checked, step,
  run,
}
use hardware_simulator.Linux.Immersive.Holding.{
  IsHeld, IsFree, free-IsHeld, held-IsFree, release-IsFree, release_unwanted, release_frees,
  lose_manager,
}

-- Freedom and holding do not look at the fields that a signal sets.
set_wanted-IsHeld : (s : Impl) → IsHeld s → IsHeld (record s { wanted = true })
set_wanted-IsHeld s h = record {
  kind = h.kind;
  watched = h.watched;
  one = h.one;
  managed = h.managed;
  asked = ground arith;
  grab_count = h.grab_count;
  inhibit_count = h.inhibit_count;
}

set_enabled_with-IsHeld :
    (prepare : Impl → Bool × Impl) (enabled : Bool) (s : Impl)
    → ((t : Impl) → t.wanted ≡ true → IsHeld t → IsHeld (prepare t).1)
    → IsHeld s
    → IsHeld (set_enabled_with prepare enabled s).1
unfolding set_enabled_with
set_enabled_with-IsHeld prepare false s p h =
    free-IsHeld (release (record s { wanted = false })) (release_unwanted s h)
set_enabled_with-IsHeld prepare true s p h =
    let t = record s { wanted = true } in
    if_both (λ (x : Bool × Impl). IsHeld x.1) s.preparing (true, t) (prepare t)
      (set_wanted-IsHeld s h) (p t refl (set_wanted-IsHeld s h))

signal-IsHeld :
    (prepare : Impl → Bool × Impl) (x : Signal) (s : Impl)
    → ((t : Impl) → t.wanted ≡ true → IsHeld t → IsHeld (prepare t).1)
    → IsHeld s
    → IsHeld (signal prepare x s)
unfolding signal
signal-IsHeld prepare (focus_changed active) s p h = if_both IsHeld (not s.top) _ _ h (
    if_both IsHeld (not active) _ _ (free-IsHeld (release s) (release-IsFree s h))
      (if_both IsHeld s.wanted _ _ (set_enabled_with-IsHeld prepare true s p h) h))
signal-IsHeld prepare unmapped s p h =
    if_both IsHeld (not s.top) _ _ h (set_enabled_with-IsHeld prepare false s p h)
signal-IsHeld prepare destroyed s p h =
    if_both IsHeld (not s.top) _ _ h (set_enabled_with-IsHeld prepare false s p h)
signal-IsHeld prepare top_gone s p h = h
signal-IsHeld prepare view_gone s p h = record {
  kind = h.kind;
  watched = h.watched;
  one = h.one;
  managed = h.managed;
  asked = ground arith;
  grab_count = h.grab_count;
  inhibit_count = h.inhibit_count;
}
signal-IsHeld prepare (global is_manager name) s p h =
    if_both IsHeld is_manager _ _
      (record {
        kind = h.kind;
        watched = h.watched;
        one = h.one;
        managed = ground arith;
        asked = h.asked;
        grab_count = h.grab_count;
        inhibit_count = h.inhibit_count;
      })
      h
signal-IsHeld prepare (removed name) s p h = if_both IsHeld (not (name == s.manager_name)) _ _ h (
    let t = release s in
    free-IsHeld
      (record t {
        manager = false;
        manager_name = 0;
        log = emit_if t.manager destroy_manager t.log;
      })
      (lose_manager t (release-IsFree s h)))

signals-IsHeld : (xs : List Signal) (s : Impl) → IsHeld s → IsHeld (signals (λ u. (true, u)) xs s)
unfolding signals
signals-IsHeld [] s h = h
signals-IsHeld (x ∷ xs) s h =
    signals-IsHeld xs (signal (λ u. (true, u)) x s)
      (signal-IsHeld (λ u. (true, u)) x s (λ t k q. q) h)

refuse-IsHeld : (s : Impl) → IsFree s → IsHeld (record s { wanted = false })
refuse-IsHeld s f = free-IsHeld (record s { wanted = false }) f

capture_x11-IsHeld :
    (w : World) (s : Impl) → IsFree s → s.wanted ≡ true → IsHeld (capture_x11 w s).1
unfolding capture_x11 captured
capture_x11-IsHeld w s f a =
    if_both (λ (x : Bool × Impl). IsHeld x.1) (not w.grab_ok) _ _ (refuse-IsHeld s f)
      (ground (arith, f.no_inhibitor, f.no_grab_left, f.no_inhibit_left, a))

-- While the first call prepares, no signal makes a capture.
signal_no_window :
    (x : Signal) (s : Impl) → s.window ≡ false → (signal (λ u. (true, u)) x s).window ≡ false
unfolding signal set_enabled_with release
signal_no_window (focus_changed active) s h =
    let P : Impl → Type 0 = λ x. x.window ≡ false in
    if_both P (not s.top) _ _ h (
      if_both P (not active) _ _ refl (
        if_both P s.wanted _ _
          (if_both (λ (x : Bool × Impl). x.1.window ≡ false) s.preparing _ _ h h) h))
signal_no_window unmapped s h = if_both (λ (x : Impl). x.window ≡ false) (not s.top) _ _ h refl
signal_no_window destroyed s h = if_both (λ (x : Impl). x.window ≡ false) (not s.top) _ _ h refl
signal_no_window top_gone s h = h
signal_no_window view_gone s h = h
signal_no_window (global is_manager name) s h =
    if_both (λ (x : Impl). x.window ≡ false) is_manager _ _ h h
signal_no_window (removed name) s h =
    if_both (λ (x : Impl). x.window ≡ false) (not (name == s.manager_name)) _ _ h refl

signals_no_window :
    (xs : List Signal) (s : Impl)
    → s.window ≡ false
    → (signals (λ u. (true, u)) xs s).window ≡ false
unfolding signals
signals_no_window [] s h = h
signals_no_window (x ∷ xs) s h =
    signals_no_window xs (signal (λ u. (true, u)) x s) (signal_no_window x s h)

wanted_manager :
    (a m b c d e f g : Bool)
    → not a || not m || b || c || d || e || f || g ≡ false
    → (a ≡ true) × (m ≡ true)
wanted_manager a m b c d e f g q = ground arith

-- What must stand for an inhibitor to be made.
fits : World → Impl → Bool
fits w s =
    not s.wanted
    || not s.manager
    || not w.seat
    || not w.surface
    || not s.top
    || not s.view
    || w.window_destroyed
    || not w.still_mapped

inhibit_shortcuts-IsHeld : (w : World) (s : Impl) → IsFree s → IsHeld (inhibit_shortcuts w s).1
unfolding inhibit_shortcuts captured fits
inhibit_shortcuts-IsHeld w s f =
    let P : Bool × Impl → Type 0 = λ x. IsHeld x.1 in
    if_cases P (fits w s) _ _ (λ e. refuse-IsHeld s f)
      (λ e. if_both P (not w.still_active) _ _ (free-IsHeld s f) (
        let n =
          wanted_manager s.wanted s.manager (not w.seat) (not w.surface) (not s.top) (not s.view)
            w.window_destroyed (not w.still_mapped) e in
        ground (arith, f.no_grab, f.no_watch, f.no_grab_left, f.no_inhibit_left, n.0, n.1)))

capture_wayland-IsHeld : (w : World) (s : Impl) → IsFree s → IsHeld (capture_wayland w s).1
unfolding capture_wayland
capture_wayland-IsHeld w s f =
    let P : Bool × Impl → Type 0 = λ x. IsHeld x.1 in
    let r = record s { registry = true } in
    let t = signals (λ u. (true, u)) w.signals r in
    let ft : IsFree t =
      held-IsFree t (signals-IsHeld w.signals r (free-IsHeld r f))
        (signals_no_window w.signals r f.no_window) in
    if_both P s.registry _ _ (inhibit_shortcuts-IsHeld w s f)
      (if_both P (not w.roundtrip_ok) _ _ (refuse-IsHeld t ft) (inhibit_shortcuts-IsHeld w t ft))

capture-IsHeld :
    (d : Display) (w : World) (s : Impl) → IsFree s → s.wanted ≡ true → IsHeld (capture d w s).1
unfolding capture
capture-IsHeld x11 w s f a = capture_x11-IsHeld w s f a
capture-IsHeld wayland w s f a = capture_wayland-IsHeld w s f
capture-IsHeld other_display w s f a = refuse-IsHeld s f

prepare_body-IsHeld :
    (w : World) (s : Impl) → s.wanted ≡ true → IsHeld s → IsHeld (prepare_body w s).1
unfolding prepare_body
prepare_body-IsHeld w s a h =
    let P : Bool × Impl → Type 0 = λ x. IsHeld x.1 in
    let t = watch_window w s in
    if_cases P (not s.view) _ _
      (λ e. record {
        kind = h.kind;
        watched = h.watched;
        one = h.one;
        managed = h.managed;
        asked = ground (arith, e);
        grab_count = h.grab_count;
        inhibit_count = h.inhibit_count;
      })
      (λ v.
        if_both P (not t.top || not w.mapped) _ _
          (free-IsHeld (release (record t { wanted = false })) (release_unwanted t h))
          (if_both P (not w.active) _ _ (free-IsHeld (release t) (release-IsFree t h)) (
            if_cases P t.window _ _ (λ e. h)
              (λ e.
                let f = held-IsFree t h e in
                if_both P (not w.native_window) _ _ (refuse-IsHeld t f)
                  (capture-IsHeld w.display w t f a)))))

prepare-IsHeld : (w : World) (s : Impl) → s.wanted ≡ true → IsHeld s → IsHeld (prepare w s).1
unfolding prepare
prepare-IsHeld w s a h = prepare_body-IsHeld w (record s { preparing = true }) a h

check_focus-IsHeld : (focused : Bool) (s : Impl) → IsHeld s → IsHeld (check_focus focused s)
unfolding check_focus
check_focus-IsHeld focused s h = if_both IsHeld (not s.focus_watch || focused) _ _ h (
    let t = record s { focus_watch = false } in
    free-IsHeld (release t) (release_frees t h.kind h.grab_count h.inhibit_count))

step-IsHeld : (e : Event) (s : Impl) → IsHeld s → IsHeld (step e s)
unfolding step set_enabled
step-IsHeld (enable w enabled) s h =
    set_enabled_with-IsHeld (λ t. prepare w t) enabled s (λ t a k. prepare-IsHeld w t a k) h
step-IsHeld (signalled w x) s h =
    signal-IsHeld (λ t. prepare w t) x s (λ t a k. prepare-IsHeld w t a k) h
step-IsHeld (focus_checked focused) s h = check_focus-IsHeld focused s h

-- From a state in which it holds, after any calls and signals, with any signals delivered by a
-- roundtrip: a window is kept exactly while the keyboard is grabbed or an inhibitor stands, never both; a
-- grab has its timer, an inhibitor its manager; with a view, something is held only while it is wanted;
-- and every grab and inhibitor in the log has been given back or is the one that is held.
pub run-IsHeld : (es : List Event) (s : Impl) → IsHeld s → IsHeld (run es s)
unfolding run
run-IsHeld [] s h = h
run-IsHeld (e ∷ es) s h = run-IsHeld es (step e s) (step-IsHeld e s h)
