-- ===== src/Windows/Gamepad/Cookies/Runs.antt =====
-- The registry over any calls: its entries are the slots' subscriptions, and a dead cookie stays dead.
use hardware_simulator.Prelude.{
  ℕ, zero, suc, ◌+◌, ◌≤◌, ◌≡◌, refl, sym, ap, ◌∙◌, ◌≢◌, inl, inr, Bool, true, false, not, ◌&&◌,
  ◌||◌, none, some, List, [], ◌∷◌, arith, ltb, ◌==◌, if◌then◌else◌, Bool-cases, Option-cases,
  if_both,
}
use hardware_simulator.Prelude.Int.{ℤ}
use hardware_simulator.Windows.Gamepad.{
  RumbleCallbackData, put, slot, in_slots, may_subscribe, lookup, Manager, new_manager, Creation,
  unregister_rumble, subscribe_fresh, subscribe_rumble, stop_one, stop_rumble_notifications,
  create_in, create_game_controller, initialize_vigem, remove_taken, remove_game_controller,
  on_rumble, Request, removed, register_callback, remove_callback, uintptr_max, emplace,
}
use hardware_simulator.Windows.Gamepad.Calls.{
  Call, create, remove, subscribe, stop, rumble, step, run,
}
use hardware_simulator.Windows.Gamepad.Cookies.{IsValid, put_elim, unregister_rumble-IsValid}
use hardware_simulator.Windows.Gamepad.Cookies.Subscribing.{subscribe_fresh-IsValid}

unregister_frees : (i : ℕ) (m : Manager) → ((unregister_rumble i m).contexts i).registered ≡ false
unfolding unregister_rumble
unregister_frees i m =
    put_elim (λ x. x.registered ≡ false) i i
      (record (m.contexts i) { registered = false; cookie = 0 }) m.contexts (λ e. refl)
      (λ e. absurd (e refl))

module _ (P : Manager → Type 0)
    (unregistered : (i : ℕ) (m : Manager) → P m → P (unregister_rumble i m))
    (subscribed : (i : ℕ) (info : RumbleCallbackData) (b : Bool) (m : Manager)
      → info.controller_id ≡ i + 1
      → (m.contexts i).registered ≡ false
      → P m
      → P (subscribe_fresh i info b m).1)
    (other : (initialized : Bool) (controllers : ℕ → ℕ) (log : List Request) (m : Manager)
      → P m
      → P (record m { initialized = initialized; controllers = controllers; log = log })) where
  subscribe_rumble-P :
      (id : ℤ) (token window message : ℕ) (b : Bool) (m : Manager)
      → P m
      → P (subscribe_rumble id token window message b m).1
  unfolding subscribe_rumble
  subscribe_rumble-P id token window message b m h =
      if_both (λ (x : Bool × Manager). P x.1) (not (may_subscribe id window message m)) _ _ h
        (subscribed (slot id) _ b (unregister_rumble (slot id) m) refl
          (unregister_frees (slot id) m) (unregistered (slot id) m h))

  stop_one-P : (i : ℕ) (m : Manager) → P m → P (stop_one i m)
  unfolding stop_one
  stop_one-P i m h =
      if_both P (not (m.controllers i == 0) && (m.contexts i).registered) _ m (unregistered i m h) h

  create_in-P : (left i : ℕ) (c : Creation) (m : Manager) → P m → P (create_in left i c m).1
  unfolding create_in
  create_in-P zero i c m h = h
  create_in-P (suc left) i c m h =
      if_both (λ (x : ℤ × Manager). P x.1) (m.controllers i == 0) _ _ (other m.initialized _ _ m h)
        (create_in-P left (i + 1) c m h)

  create-P : (c : Creation) (m : Manager) → P m → P (create_game_controller c m).1
  unfolding create_game_controller initialize_vigem
  create-P c m h =
      let n = initialize_vigem c m in
      let hn : P n = if_both P (not c.client) _ _ (other m.initialized m.controllers _ m h) (
        if_both P (not c.connects) _ _ (other m.initialized m.controllers _ m h)
          (other true m.controllers _ m h)) in
      if_both (λ (x : ℤ × Manager). P x.1) m.initialized _ _ (create_in-P 4 0 c m h)
        (if_both (λ (x : ℤ × Manager). P x.1) n.initialized _ _ (create_in-P 4 0 c n hn) hn)

  remove-P :
      (id : ℤ) (accepts b : Bool) (m : Manager) → P m → P (remove_game_controller id accepts b m).1
  unfolding remove_game_controller remove_taken
  remove-P id accepts b m h =
      let c = m.contexts (slot id) in
      let n = if c.registered then unregister_rumble (slot id) m else m in
      let hn : P n =
        if_both P c.registered (unregister_rumble (slot id) m) m (unregistered (slot id) m h) h in
      let asked = record n { log = removed (m.controllers (slot id)) ∷ n.log } in
      let ha : P asked =
        other n.initialized n.controllers (removed (m.controllers (slot id)) ∷ n.log) n hn in
      if_both (λ (x : Bool × Manager). P x.1) (not (in_slots id) || m.controllers (slot id) == 0) _
        _ h
        (if_both (λ (x : Bool × Manager). P x.1) (not accepts) _ _
          (if_both P c.registered _ _
            (subscribe_rumble-P id c.info.callback_token c.info.window c.info.message b asked ha)
            ha)
          (other asked.initialized _ _ asked ha))

  on_rumble-P : (cookie large small : ℕ) (m : Manager) → P m → P (on_rumble cookie large small m)
  unfolding on_rumble
  on_rumble-P cookie large small m h = elim (Option-cases (m.registry.entries cookie)) [
    | inl e ↦ rw (on_rumble, e) h
    | inr (d, e) ↦ rw (on_rumble, e) (other m.initialized m.controllers _ m h)
  ]

  step-P : (c : Call) (m : Manager) → P m → P (step c m)
  unfolding step stop_rumble_notifications
  step-P (create c) m h = create-P c m h
  step-P (remove id accepts b) m h = remove-P id accepts b m h
  step-P (subscribe id token window message b) m h =
      subscribe_rumble-P id token window message b m h
  step-P stop m h =
      stop_one-P 3 (stop_one 2 (stop_one 1 (stop_one 0 m)))
        (stop_one-P 2 (stop_one 1 (stop_one 0 m)) (stop_one-P 1 (stop_one 0 m) (stop_one-P 0 m h)))
  step-P (rumble cookie large small) m h = on_rumble-P cookie large small m h

  run-P : (cs : List Call) (m : Manager) → P m → P (run cs m)
  unfolding run
  run-P [] m h = h
  run-P (c ∷ cs) m h = run-P cs (step c m) (step-P c m h)

-- From a state in which it holds, after any calls the entries of the registry are exactly the
-- subscriptions of the slots: a slot that is registered finds its own data, with its own id, under its
-- cookie; an entry belongs to the registered slot that its data names; no entry has the cookie 0 or one
-- that is still to come; and the last cookie fits a `uintptr_t`.
pub run-IsValid : (cs : List Call) (m : Manager) → IsValid m → IsValid (run cs m)
run-IsValid =
    run-P IsValid unregister_rumble-IsValid subscribe_fresh-IsValid
      (λ initialized controllers log m v. v)

pub new_manager-IsValid : IsValid new_manager
new_manager-IsValid = record {
  fits = omega arith;
  fresh = λ c l. refl;
  no_zero = refl;
  held = λ i e. absurd (cc);
  idle = λ i e. refl;
  owned = λ c d e. absurd (cc);
}

-- A cookie that has been given and has no entry now.
abbrev pub IsDead : ℕ → Manager → Type 0
IsDead c m = record { given : c ≤ m.registry.next; gone : lookup c m.registry ≡ none }

unregister_rumble-IsDead : (c i : ℕ) (m : Manager) → IsDead c m → IsDead c (unregister_rumble i m)
unfolding unregister_rumble remove_callback
unregister_rumble-IsDead c i m h = record {
  given = h.given;
  gone =
      put_elim (λ x. x ≡ none) (m.contexts i).cookie c none m.registry.entries (λ e. refl)
        (λ e. h.gone);
}

subscribe_fresh-IsDead :
    (c i : ℕ) (info : RumbleCallbackData) (b : Bool) (m : Manager)
    → IsDead c m
    → IsDead c (subscribe_fresh i info b m).1
unfolding subscribe_fresh register_callback remove_callback
subscribe_fresh-IsDead c i info b m h = elim (Bool-cases (m.registry.next == uintptr_max)) [
  | inl full ↦ rw (full) h
  | inr fits ↦ settled b fits (ground arith)
]
  where
    settled :
        (b : Bool)
        → (m.registry.next == uintptr_max) ≡ false
        → (m.registry.next + 1 == 0) ≡ false
        → IsDead c (subscribe_fresh i info b m).1
    settled true fits p =
        rw (fits, p)
          (record {
            given = omega (arith, h.given);
            gone =
                put_elim (λ x. x ≡ none) (m.registry.next + 1) c _ m.registry.entries
                  (λ z. absurd (omega (arith, h.given))) (λ z. h.gone);
          })
    settled false fits p =
        rw (fits, p)
          (record {
            given = omega (arith, h.given);
            gone =
                put_elim (λ x. x ≡ none) (m.registry.next + 1) c none
                  (put (m.registry.next + 1)
                    (emplace info (m.registry.entries (m.registry.next + 1))) m.registry.entries)
                  (λ z. refl)
                  (λ z.
                    put_elim (λ x. x ≡ none) (m.registry.next + 1) c _ m.registry.entries
                      (λ z. absurd (omega (arith, h.given))) (λ z. h.gone));
          })

-- A cookie that has been given and is dead is dead after any calls.
pub run-IsDead : (c : ℕ) (cs : List Call) (m : Manager) → IsDead c m → IsDead c (run cs m)
run-IsDead c =
    run-P (IsDead c) (unregister_rumble-IsDead c)
      (λ i info b m e q. subscribe_fresh-IsDead c i info b m) (λ initialized controllers log m v. v)

cookie_given : (i : ℕ) (m : Manager) → IsValid m → (m.contexts i).cookie ≤ m.registry.next
cookie_given i m v = elim (Bool-cases (m.contexts i).registered) [
  | inl r ↦ elim (Bool-cases (ltb m.registry.next (m.contexts i).cookie)) [
    | inl l ↦ absurd (some_none i m v r (v.fresh (m.contexts i).cookie (ground arith)))
    | inr l ↦ ground arith
  ]
  | inr r ↦ omega (arith, v.idle i r)
]
  where
    some_none :
        (i : ℕ) (m : Manager)
        → IsValid m
        → (m.contexts i).registered ≡ true
        → m.registry.entries (m.contexts i).cookie ≢ none
    some_none i m v r e =
        let z : some (m.contexts i).info ≡ none = sym (v.held i r).entry ∙ e in absurd (cc)

unregistered-IsDead :
    (i : ℕ) (m : Manager)
    → IsValid m
    → IsDead (m.contexts i).cookie (if (m.contexts i).registered then unregister_rumble i m else m)
unfolding unregister_rumble remove_callback
unregistered-IsDead i m v = elim (Bool-cases (m.contexts i).registered) [
  | inl r ↦ rw (r) (record {
    given = cookie_given i m v;
    gone =
        put_elim (λ x. x ≡ none) (m.contexts i).cookie (m.contexts i).cookie none m.registry.entries
          (λ e. refl) (λ e. absurd (e refl));
  })
  | inr r ↦
      rw (r) (record {
        given = cookie_given i m v;
        gone = ap m.registry.entries (v.idle i r) ∙ v.no_zero;
      })
]

-- After `RemoveGameController` has returned true in a valid state, the cookie that the slot had is dead,
-- so a late rumble on it is not resolved.
pub removed-IsDead :
    (id : ℤ) (accepts b : Bool) (m : Manager)
    → IsValid m
    → (remove_game_controller id accepts b m).0 ≡ true
    → IsDead (m.contexts (slot id)).cookie (remove_game_controller id accepts b m).1
unfolding remove_game_controller remove_taken
removed-IsDead id accepts b m v e =
    guarded (not (in_slots id) || m.controllers (slot id) == 0) accepts e
  where
    guarded :
        (g accepts : Bool)
        → (if g then (false, m) else remove_taken id accepts b m).0 ≡ true
        → IsDead
            (m.contexts (slot id)).cookie
            (if g then (false, m) else remove_taken id accepts b m).1
    guarded true accepts e = absurd (cc)
    guarded false false e = absurd (cc)
    guarded false true e = unregistered-IsDead (slot id) m v
