-- ===== src/Linux/Capture/Safety/Locks.antt =====
-- What the answer of `lock` says of the capture.
use hardware_simulator.Prelude.{
  ◌≡◌, refl, ◌∙◌, ◌≢◌, ◌↔◌, true, false, not, ◌||◌, ◌∷◌, arith, if◌then◌else◌, if_both,
}
use hardware_simulator.Prelude.Int.{ℤ}
use hardware_simulator.Linux.Capture.{
  Impl, open_raw, add_watch, grab, replaced, failed, hide, confirm, release, Display, x11, wayland,
  other_display, supported,
}
use hardware_simulator.Linux.Capture.Lock.{
  Desktop, LockResult, not_supported, not_focused, not_realized, xinput_failed, pointer_owned,
  wayland_unavailable, granted, watch_window, lock_x11, lock_wayland, lock_on, request, lock,
}
use hardware_simulator.Linux.Capture.Safety.{Inv, release_keeps}
use hardware_simulator.Linux.Capture.Safety.Steps.{Off, confirm-Inv, supported-Off}

module _ {D : Type 0} where
  -- A capture that has just been asked for.
  abbrev Started : Impl D → Type 0
  Started s = Inv s × (s.requested ≡ true) × (s.active ≡ false)

  -- The invariant with the answer of `lock`: granted exactly if a capture is on its way.
  abbrev pub Answered : Impl D × LockResult → Type 0
  Answered r = Inv r.0 × ((r.0.requested ≡ true) ↔ (r.1 ≡ granted))

  refused : (s : Impl D) (r : LockResult) → r ≢ granted → Off s → Answered (s, r)
  refused s r n v = (v.0, (λ e. absurd (ground (arith, v.1)), λ e. absurd (n e)))

  failed-Answered :
      (s : Impl D) (r : LockResult) → r ≢ granted → Started s → Answered (release failed s, r)
  failed-Answered s r n v = refused (release failed s) r n (release_keeps failed s v.0)

  opened-Started :
      (d : Desktop) (s : Impl D)
      → Started s
      → Started (record s {
        raw_display = d.raw_opens;
        log = if d.raw_opens then open_raw ∷ s.log else s.log;
      })
  opened-Started d s v = ground arith

  hide-Started : (s : Impl D) → Started s → Started (hide s)
  unfolding hide
  hide-Started s v = ground arith

  confirm_requested : (s : Impl D) → (confirm s).requested ≡ s.requested
  unfolding confirm hide
  confirm_requested s = ground arith

  lock_x11-Answered : (d : Desktop) (s : Impl D) → Started s → Answered (lock_x11 d s)
  unfolding lock_x11
  lock_x11-Answered d s v =
      let opened = record s {
        raw_display = d.raw_opens;
        log = if d.raw_opens then open_raw ∷ s.log else s.log;
      } in
      let grabbed = record (hide opened) {
        grabbed = true;
        raw_source = true;
        log = add_watch ∷ grab ∷ (hide opened).log;
      } in
      let o = opened-Started d s v in
      let h = hide-Started opened o in
      if_both Answered (not d.raw_opens || not d.xinput_ok) (release failed opened, xinput_failed) _
        (failed-Answered opened xinput_failed (λ e. cc) o)
        (if_both Answered (not d.grab_ok) (release failed (hide opened), pointer_owned)
          (confirm grabbed, granted) (failed-Answered (hide opened) pointer_owned (λ e. cc) h)
          (
            confirm-Inv grabbed (record {
              idle = λ e. absurd (ground (arith, h.1));
              owns_window = λ e. h.0.owns_window h.1;
              truth = h.0.truth;
              honest = h.0.honest;
            }),
            (λ e. refl, λ e. confirm_requested grabbed ∙ h.1),
          ))

  lock_wayland-Answered : (d : Desktop) (s : Impl D) → Started s → Answered (lock_wayland d s)
  unfolding lock_wayland
  lock_wayland-Answered d s v =
      if_both Answered (not d.has_pointer || not d.has_surface)
        (release failed s, wayland_unavailable) _
        (failed-Answered s wayland_unavailable (λ e. cc) v)
        (
          record {
            idle = λ e. absurd (ground (arith, v.1));
            owns_window = v.0.owns_window;
            truth = v.0.truth;
            honest = v.0.honest;
          },
          (λ e. refl, λ e. v.1),
        )

  lock_on-Answered :
      (display : Display) (d : Desktop) (s : Impl D) → Started s → Answered (lock_on display d s)
  lock_on-Answered (x11 available) d s v = lock_x11-Answered d s v
  lock_on-Answered (wayland es ok) d s v = lock_wayland-Answered d s v
  lock_on-Answered other_display d s v = lock_wayland-Answered d s v

  request-Answered : (id : ℤ) (d : Desktop) (s : Impl D) → Off s → Answered (request id d s)
  unfolding request
  request-Answered id d s v =
      let i = v.0.idle v.1 in
      let started : Started (record s {
        window = true;
        window_destroyed = false;
        generation = id;
        requested = true;
      }) =
        (
          record {
            idle = λ e. absurd (cc);
            owns_window = λ e. refl;
            truth = ground (arith, v.0.truth, i.not_active);
            honest = v.0.honest;
          },
          refl,
          i.not_active,
        ) in
      if_both Answered (not d.mapped || not d.top_is_window || not d.window_active) (s, not_focused)
        _ (refused s not_focused (λ e. cc) v)
        (if_both Answered (not d.has_window) (s, not_realized) _
          (refused s not_realized (λ e. cc) v) (lock_on-Answered d.display d _ started))

  -- `lock` leaves a capture asked for exactly if it answers with the empty string; with any other answer
  -- nothing is held.
  pub lock-Answered : (id : ℤ) (d : Desktop) (s : Impl D) → Inv s → Answered (lock id d s)
  unfolding lock
  lock-Answered id d s v =
      let t = supported-Off d.display (release replaced s) (release_keeps replaced s v) in
      if_both Answered (not (supported d.display (release replaced s)).1)
        ((supported d.display (release replaced s)).0, not_supported) _
        (refused (supported d.display (release replaced s)).0 not_supported (λ e. cc) t)
        (request-Answered id d (watch_window (supported d.display (release replaced s)).0) t)
