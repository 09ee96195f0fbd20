-- ===== src/Linux/Capture/Safety.antt =====
-- What holds of a capture between two events: resources are held only while a capture is requested, and
-- the client has been told the truth.
pub mod Steps
pub mod Locks
pub mod Runs
use hardware_simulator.Prelude.{
  ◌≡◌, refl, ◌∙◌, inl, inr, Bool, true, false, not, ◌&&◌, Option, none, some, List, [], ◌∷◌, arith,
  if◌then◌else◌, Bool-cases,
}
use hardware_simulator.Prelude.Int.{ℤ}
use hardware_simulator.Linux.Values.{Doubles}
use hardware_simulator.Linux.Capture.{
  Impl, emit_if, Effect, notify, motion, blank_cursor, restore_cursor, grab, ungrab, create_lock,
  destroy_lock, create_relative, destroy_relative, open_raw, close_raw, add_watch, remove_watch,
  start_timer, remove_timer, position_hint, warp, Reason, hide, confirm, release,
}

module _ {D : Type 0} where
  -- What the newest notification told the client: the generation, if the pointer is locked.
  abbrev pub told : List (Effect D) → Option ℤ
  told [] = none
  told (notify g true r ∷ es) = some g
  told (notify g false r ∷ es) = none
  told (motion g x y ∷ es) = told es
  told (blank_cursor ∷ es) = told es
  told (restore_cursor ∷ es) = told es
  told (grab ∷ es) = told es
  told (ungrab ∷ es) = told es
  told (create_lock ∷ es) = told es
  told (destroy_lock ∷ es) = told es
  told (create_relative ∷ es) = told es
  told (destroy_relative ∷ es) = told es
  told (open_raw ∷ es) = told es
  told (close_raw ∷ es) = told es
  told (add_watch ∷ es) = told es
  told (remove_watch ∷ es) = told es
  told (start_timer ∷ es) = told es
  told (remove_timer ∷ es) = told es
  told (position_hint x y ∷ es) = told es
  told (warp x y ∷ es) = told es

  -- A lock is announced only while none stands, and motion only under the generation of the lock that
  -- stands.
  abbrev pub IsHonest : List (Effect D) → Type 0
  IsHonest [] = Unit {0}
  IsHonest (notify g true r ∷ es) = (told es ≡ none) × IsHonest es
  IsHonest (motion g x y ∷ es) = (told es ≡ some g) × IsHonest es
  IsHonest (notify g false r ∷ es) = IsHonest es
  IsHonest (blank_cursor ∷ es) = IsHonest es
  IsHonest (restore_cursor ∷ es) = IsHonest es
  IsHonest (grab ∷ es) = IsHonest es
  IsHonest (ungrab ∷ es) = IsHonest es
  IsHonest (create_lock ∷ es) = IsHonest es
  IsHonest (destroy_lock ∷ es) = IsHonest es
  IsHonest (create_relative ∷ es) = IsHonest es
  IsHonest (destroy_relative ∷ es) = IsHonest es
  IsHonest (open_raw ∷ es) = IsHonest es
  IsHonest (close_raw ∷ es) = IsHonest es
  IsHonest (add_watch ∷ es) = IsHonest es
  IsHonest (remove_watch ∷ es) = IsHonest es
  IsHonest (start_timer ∷ es) = IsHonest es
  IsHonest (remove_timer ∷ es) = IsHonest es
  IsHonest (position_hint x y ∷ es) = IsHonest es
  IsHonest (warp x y ∷ es) = IsHonest es

  -- No resource is held.
  abbrev pub IsIdle : Impl D → Type 0
  IsIdle s = record {
    not_active : s.active ≡ false;
    no_timer : s.timeout ≡ false;
    no_window : s.window ≡ false;
    no_raw : s.raw_display ≡ false;
    no_watch : s.raw_source ≡ false;
    not_grabbed : s.grabbed ≡ false;
    cursor_shown : s.cursor_hidden ≡ false;
    not_locked : s.locked ≡ false;
    no_relative : s.relative ≡ false;
  }

  abbrev pub Inv : Impl D → Type 0
  Inv s = record {
    idle : s.requested ≡ false → IsIdle s;
    owns_window : s.requested ≡ true → s.window ≡ true;
    truth : told s.log ≡ (if s.active then some s.generation else none);
    honest : IsHonest s.log;
  }

  -- A log that says to the client what another says.
  record Agrees (l l' : List (Effect D)) : Type 0 where
    same : told l' ≡ told l
    keeps : IsHonest l → IsHonest l'

  quietly :
      (b : Bool) (e : Effect D) (l l' : List (Effect D))
      → told (e ∷ l') ≡ told l'
      → (IsHonest l' → IsHonest (e ∷ l'))
      → Agrees l l'
      → Agrees l (if b then e ∷ l' else l')
  quietly true e l l' t h a = record { same = t ∙ a.same; keeps = λ k. h (a.keeps k) }
  quietly false e l l' t h a = a

  abbrev released_log : Impl D → List (Effect D)
  released_log s =
      let timers = emit_if s.timeout remove_timer s.log in
      let locks = emit_if s.relative destroy_relative (emit_if s.locked destroy_lock timers) in
      let grabs = emit_if (s.grabbed && s.window) ungrab locks in
      let raws = emit_if s.raw_display close_raw (emit_if s.raw_source remove_watch grabs) in
      emit_if (s.window && s.cursor_hidden && not s.window_destroyed) restore_cursor raws

  released_log-Agrees : (s : Impl D) → Agrees s.log (released_log s)
  released_log-Agrees s =
      quietly (s.window && s.cursor_hidden && not s.window_destroyed) restore_cursor s.log _ refl
        (λ h. h)
        (quietly s.raw_display close_raw s.log _ refl (λ h. h)
          (quietly s.raw_source remove_watch s.log _ refl (λ h. h)
            (quietly (s.grabbed && s.window) ungrab s.log _ refl (λ h. h)
              (quietly s.relative destroy_relative s.log _ refl (λ h. h)
                (quietly s.locked destroy_lock s.log _ refl (λ h. h)
                  (quietly s.timeout remove_timer s.log s.log refl (λ h. h)
                    (record { same = refl; keeps = λ h. h })))))))

  told_released :
      (b : Bool) (g : ℤ) (r : Reason) (l : List (Effect D))
      → (b ≡ false → told l ≡ none)
      → IsHonest l
      → (told (emit_if b (notify g false r) l) ≡ none) × IsHonest (emit_if b (notify g false r) l)
  told_released true g r l q h = (refl, h)
  told_released false g r l q h = (q refl, h)

  -- A release leaves nothing held, whatever was.
  pub release-Inv :
      (r : Reason) (s : Impl D)
      → IsHonest s.log
      → (s.requested ≡ false → told s.log ≡ none)
      → (s.window ≡ false → (s.grabbed ≡ false) × (s.cursor_hidden ≡ false))
      → Inv (release r s) × ((release r s).requested ≡ false)
  unfolding release
  release-Inv r s h q w =
      let a = released_log-Agrees s in
      let t =
        told_released s.requested s.generation r (released_log s) (λ e. a.same ∙ q e) (a.keeps h) in
      (
        record {
          idle = λ e. record {
            not_active = refl;
            no_timer = refl;
            no_window = refl;
            no_raw = refl;
            no_watch = refl;
            not_grabbed = ground (arith, w);
            cursor_shown = ground (arith, w);
            not_locked = refl;
            no_relative = refl;
          };
          owns_window = λ e. cc;
          truth = t.0;
          honest = t.1;
        },
        refl,
      )

  -- The same from the invariant.
  pub release_keeps :
      (r : Reason) (s : Impl D) → Inv s → Inv (release r s) × ((release r s).requested ≡ false)
  release_keeps r s v =
      release-Inv r s v.honest (λ e. let i = v.idle e in ground (arith, i.not_active, v.truth))
        (λ e. elim (Bool-cases s.requested) [
          | inl on ↦ absurd (ground (arith, v.owns_window on))
          | inr off ↦ let i = v.idle off in (i.not_grabbed, i.cursor_shown)
        ])
