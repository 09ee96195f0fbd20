-- ===== src/Linux/Capture/Safety/Steps.antt =====
-- Each operation of a capture keeps the invariant.
use hardware_simulator.Prelude.{
  ℕ, ◌≡◌, Bool, true, false, not, ◌||◌, List, [], ◌∷◌, arith, ◌==◌, if_both,
}
use hardware_simulator.Linux.Capture.{
  Impl, unsupported, hide, confirm, pointer_constraints, relative_pointer_manager, other_global,
  RegistryEvent, global_added, global_removed, global, removed, registry_event, registry_events,
  Display, x11, wayland, other_display, supported, bound_globals,
}
use hardware_simulator.Linux.Capture.Safety.{Inv, release_keeps}

module _ {D : Type 0} where
  -- A capture that is asked for or not, and no step between changes that.
  abbrev pub Off : Impl D → Type 0
  Off s = Inv s × (s.requested ≡ false)

  pub confirm-Inv : (s : Impl D) → Inv s → Inv (confirm s)
  unfolding confirm hide
  confirm-Inv s v = ground arith

  removed-Inv : (name : ℕ) (s : Impl D) → Inv s → Inv (removed name s)
  unfolding removed
  removed-Inv name s v =
      if_both Inv (name == s.constraints_name || name == s.relative_name) _ s
        (release_keeps unsupported s v).0 v

  pub registry_event-Inv : (e : RegistryEvent) (s : Impl D) → Inv s → Inv (registry_event e s)
  unfolding registry_event global
  registry_event-Inv (global_added name pointer_constraints) s v = v
  registry_event-Inv (global_added name relative_pointer_manager) s v = v
  registry_event-Inv (global_added name other_global) s v = v
  registry_event-Inv (global_removed name) s v = removed-Inv name s v

  pub registry_event-Off : (e : RegistryEvent) (s : Impl D) → Off s → Off (registry_event e s)
  unfolding registry_event global removed
  registry_event-Off (global_added name pointer_constraints) s v = v
  registry_event-Off (global_added name relative_pointer_manager) s v = v
  registry_event-Off (global_added name other_global) s v = v
  registry_event-Off (global_removed name) s v =
      if_both Off (name == s.constraints_name || name == s.relative_name) _ s
        (release_keeps unsupported s v.0) v

-- What registry events and the flag of the registry keep, `supported` keeps.
module _ {D : Type 0} (P : Impl D → Type 0)
    (event : (e : RegistryEvent) (s : Impl D) → P s → P (registry_event e s))
    (opened : (s : Impl D) → P s → P (record s { registry = true })) where
  registry_events_keep : (es : List RegistryEvent) (s : Impl D) → P s → P (registry_events es s)
  unfolding registry_events
  registry_events_keep [] s v = v
  registry_events_keep (e ∷ es) s v = registry_events_keep es (registry_event e s) (event e s v)

  supported_keeps : (d : Display) (s : Impl D) → P s → P (supported d s).0
  unfolding supported
  supported_keeps (x11 available) s v = v
  supported_keeps other_display s v = v
  supported_keeps (wayland es ok) s v =
      let t = registry_events es (record s { registry = true }) in
      let k = registry_events_keep es (record s { registry = true }) (opened s v) in
      let Q = λ (r : Impl D × Bool). P r.0 in
      if_both Q (not s.view) (s, false) _ v
        (if_both Q s.registry (bound_globals s) _ v (if_both Q ok (bound_globals t) (t, false) k k))

module _ {D : Type 0} where
  pub supported-Inv : (d : Display) (s : Impl D) → Inv s → Inv (supported d s).0
  supported-Inv = supported_keeps Inv registry_event-Inv (λ s v. v)

  pub supported-Off : (d : Display) (s : Impl D) → Off s → Off (supported d s).0
  supported-Off = supported_keeps Off registry_event-Off (λ s v. v)
