-- ===== src/Linux/Capture/Safety/Runs.antt =====
-- The invariant of a capture over every sequence of events.
use hardware_simulator.Prelude.{
  ℕ, ◌≡◌, refl, inl, inr, Bool, true, false, not, ◌&&◌, ◌||◌, Option, none, some, List, [], ◌∷◌,
  arith, if◌then◌else◌, Bool-cases, Option-cases, if_both,
}
use hardware_simulator.Prelude.Int.{ℤ, eqb_ℤ}
use hardware_simulator.Linux.Values.{Doubles}
use hardware_simulator.Linux.Capture.{
  Impl, new_impl, Reason, released, connection_lost, disposed, focus_lost, unmapped, destroyed,
  system_unlocked, timed_out, release, warp, ungrab, position_hint, motion,
}
use hardware_simulator.Linux.Capture.Raw.{
  DeviceClass, Pending, other_event, raw_event, find_device, relative_device, report, read_event,
  read_events, read_raw,
}
use hardware_simulator.Linux.Capture.Reseed.{
  Surface, put_pointer, translated, reseed_and_release, unlock, unlock_generation,
  unlock_and_reseed_generation,
}
use hardware_simulator.Linux.Capture.Events.{
  Event, asked_support, lock_call, unlock_call, unlock_generation_call, reseed_call, lost_focus,
  unmapped_window, destroyed_window, view_gone, window_gone, lock_confirmed, lock_refused,
  lock_timed_out, relative_motion, raw_ready, registry_changed, step, run, dispose,
}
use hardware_simulator.Linux.Capture.Safety.{
  told, IsHonest, IsIdle, Inv, release-Inv, release_keeps,
}
use hardware_simulator.Linux.Capture.Safety.Steps.{confirm-Inv, registry_event-Inv, supported-Inv}
use hardware_simulator.Linux.Capture.Safety.Locks.{lock-Answered}

module _ (d : Doubles) where
  open d use {D, is_finite, is_zero, zero_d, of_int, mul_d, round}

  -- The invariant of a capture that delivers motion.
  abbrev Delivers : Impl D → Type 0
  Delivers s = Inv s × (s.active ≡ true)

  module _ (query : ℕ → List (List DeviceClass)) where
    report-Inv : (v : D × D) (s : Impl D) → Delivers s → Inv (report d query v s)
    report-Inv (dx, dy) s (v, on) =
        if_both Inv (is_finite dx && is_finite dy && (not (is_zero dx) || not (is_zero dy)))
          (record s { log = motion s.generation dx dy ∷ s.log }) s
          (record {
            idle = v.idle;
            owns_window = v.owns_window;
            truth = v.truth;
            honest = (ground (arith, v.truth), v.honest);
          })
          v

    relative_device-Delivers :
        (source : ℕ) (s : Impl D) → Delivers s → Delivers (relative_device d query source s).0
    unfolding relative_device
    relative_device-Delivers source s v =
        elim (Option-cases (find_device source s.relative_devices)) [
          | inl e ↦ rw (relative_device, e) v
          | inr (b, e) ↦ rw (relative_device, e) v
        ]

    read_event-Inv : (e : Pending D) (s : Impl D) → Inv s → Inv (read_event d query e s)
    unfolding read_event
    read_event-Inv other_event s v = v
    read_event-Inv (raw_event is_motion e) s v = elim (Bool-cases (is_motion && s.active)) [
      | inl go ↦
          let k = relative_device-Delivers e.source s (v, ground arith) in
          rw (read_event, go)
            (if_both Inv (relative_device d query e.source s).1 _
              (relative_device d query e.source s).0 (report-Inv _ _ k) k.0)
      | inr stay ↦ rw (read_event, stay) v
    ]

    read_events-Inv : (es : List (Pending D)) (s : Impl D) → Inv s → Inv (read_events d query es s)
    unfolding read_events
    read_events-Inv [] s v = v
    read_events-Inv (e ∷ es) s v =
        if_both Inv s.raw_display _ s
          (read_events-Inv es (read_event d query e s) (read_event-Inv e s v)) v

  no_watch-Inv : (s : Impl D) → Inv s → Inv (record s { raw_source = false })
  no_watch-Inv s v = ground arith

  no_timer-Inv : (s : Impl D) → Inv s → Inv (record s { timeout = false })
  no_timer-Inv s v = ground arith

  put_pointer-Inv :
      (w : Surface d) (p : D × D) (s : Impl D) → Inv s → s.window ≡ true → Inv (put_pointer d w p s)
  put_pointer-Inv w (px, py) s v win =
      if_both Inv w.on_wayland _ _
        (release_keeps released _
          (if_both Inv s.locked (record s { log = position_hint px py ∷ s.log }) s v v)).0
        (release-Inv released
          (record s {
            active = false;
            grabbed = false;
            log =
                warp (round (mul_d px (of_int w.scale_factor)))
                  (round (mul_d py (of_int w.scale_factor)))
                ∷ ungrab
                ∷ s.log;
          })
          v.honest (λ e. let i = v.idle e in ground (arith, i.not_active, v.truth))
          (λ e. absurd (ground (arith, win)))).0

  translated-Inv :
      (w : Surface d) (x y : D) (o : Option (ℤ × ℤ)) (s : Impl D)
      → Inv s
      → s.window ≡ true
      → Inv (translated d w x y o s)
  translated-Inv w x y none s v win = (release_keeps released s v).0
  translated-Inv w x y (some (ox, oy)) s v win = put_pointer-Inv w _ s v win

  reseed-Inv : (w : Surface d) (x y : D) (s : Impl D) → Inv s → Inv (reseed_and_release d w x y s)
  unfolding reseed_and_release
  reseed-Inv w x y s v =
      elim (Bool-cases (
        not s.active
        || not s.window
        || not s.view
        || s.window_destroyed
        || not (is_finite x)
        || not (is_finite y))) [
          | inl unfit ↦ rw (unfit) (release_keeps released s v).0
          | inr fit ↦ rw (fit) (
              translated-Inv w x y (if w.owner_is_widget then w.offset else none) s v
                (ground arith))
        ]

  read_raw-Inv :
      (query : ℕ → List (List DeviceClass)) (lost : Bool) (es : List (Pending D)) (s : Impl D)
      → Inv s
      → Inv (read_raw d query lost es s)
  unfolding read_raw
  read_raw-Inv query lost es s v =
      if_both Inv lost (release connection_lost (record s { raw_source = false })) _
        (release_keeps connection_lost (record s { raw_source = false }) (no_watch-Inv s v)).0
        (read_events-Inv query es s v)

  step-Inv : (e : Event d) (s : Impl D) → Inv s → Inv (step d e s)
  unfolding step unlock unlock_generation unlock_and_reseed_generation
  step-Inv (asked_support display) s v = supported-Inv display s v
  step-Inv (lock_call id desktop) s v = (lock-Answered id desktop s v).0
  step-Inv (unlock_call reason) s v = (release_keeps reason s v).0
  step-Inv (unlock_generation_call g) s v =
      if_both Inv (eqb_ℤ s.generation g) (release released s) s (release_keeps released s v).0 v
  step-Inv (reseed_call g w x y) s v =
      if_both Inv (eqb_ℤ s.generation g) (reseed_and_release d w x y s) s (reseed-Inv w x y s v) v
  step-Inv lost_focus s v = if_both Inv s.top _ s (release_keeps focus_lost s v).0 v
  step-Inv unmapped_window s v = if_both Inv s.top _ s (release_keeps unmapped s v).0 v
  step-Inv destroyed_window s v = if_both Inv s.top _ s (release_keeps destroyed s v).0 v
  step-Inv view_gone s v = v
  step-Inv window_gone s v = v
  step-Inv lock_confirmed s v = if_both Inv s.locked _ s (confirm-Inv s v) v
  step-Inv lock_refused s v = if_both Inv s.locked _ s (release_keeps system_unlocked s v).0 v
  step-Inv lock_timed_out s v =
      if_both Inv s.timeout (release timed_out (record s { timeout = false })) s
        (release_keeps timed_out (record s { timeout = false }) (no_timer-Inv s v)).0 v
  step-Inv (relative_motion dx dy) s v = elim (Bool-cases (s.relative && s.active)) [
    | inl go ↦ rw (go) (record {
      idle = v.idle;
      owns_window = v.owns_window;
      truth = v.truth;
      honest = (ground (arith, v.truth), v.honest);
    })
    | inr stay ↦ rw (stay) v
  ]
  step-Inv (raw_ready lost es query) s v =
      if_both Inv s.raw_source _ s (read_raw-Inv query lost es s v) v
  step-Inv (registry_changed e) s v = if_both Inv s.registry _ s (registry_event-Inv e s v) v

  run-Inv : (es : List (Event d)) (s : Impl D) → Inv s → Inv (run d es s)
  unfolding run
  run-Inv [] s v = v
  run-Inv (e ∷ es) s v = run-Inv es (step d e s) (step-Inv e s v)

  pub new_impl-Inv : Inv (new_impl D)
  new_impl-Inv = record {
    idle = λ e. record {
      not_active = refl;
      no_timer = refl;
      no_window = refl;
      no_raw = refl;
      no_watch = refl;
      not_grabbed = refl;
      cursor_shown = refl;
      not_locked = refl;
      no_relative = refl;
    };
    owns_window = λ e. cc;
    truth = refl;
    honest = tt;
  }

  -- Whatever happens to a new capture, its callbacks are honest: a lock is announced only while none
  -- stands, and motion comes only under the generation of the lock that stands; what was told last is
  -- whether the capture is active, and under which generation.
  pub run-IsHonest :
      (es : List (Event d))
      → let s = run d es (new_impl D) in
        IsHonest s.log × (told s.log ≡ (if s.active then some s.generation else none))
  run-IsHonest es = let v = run-Inv es (new_impl D) new_impl-Inv in (v.honest, v.truth)

  -- After whatever happened, a capture that is not asked for holds no resource, and an unlock for any
  -- reason or the destructor leaves it so.
  pub run-IsIdle :
      (es : List (Event d)) (r : Reason)
      → let s = run d es (new_impl D) in
        (s.requested ≡ false → IsIdle s) × IsIdle (unlock d r s) × IsIdle (dispose d s)
  unfolding unlock dispose
  run-IsIdle es r =
      let s = run d es (new_impl D) in
      let v = run-Inv es (new_impl D) new_impl-Inv in
      let u = release_keeps r s v in
      let w = release_keeps disposed s v in (v.idle, u.0.idle u.1, w.0.idle w.1)
