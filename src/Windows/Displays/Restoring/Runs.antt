-- ===== src/Windows/Displays/Restoring/Runs.antt =====
-- Any calls keep the layouts of a backup until they have been restored.
use hardware_simulator.Prelude.{
  ◌≡◌, refl, sym, ap, ◌∙◌, inl, inr, Bool, true, false, not, List, [], ◌∷◌, ◌++◌, Bool-cases,
  Option-cases, if_both, if_true, take,
}
use hardware_simulator.Prelude.Int.{ℤ}
use mathlib.Core.Path.{subst}
use hardware_simulator.Windows.Displays.{
  Layout, Control, find_display, initialize, add_display, remove_display,
}
use hardware_simulator.Windows.Displays.Topology.{
  QueryAnswer, PrimaryAnswers, query_layout, save_display_configuration, apply_primary, target_path,
  set_primary_display_only, ApplyAnswer, is_applied, restore_display_configuration, shutdown,
  only_layout,
}
use hardware_simulator.Windows.Displays.Restoring.{
  restore_both, Call, init, add, remove, set_primary, restore, shut_down, step, run, IsKept,
  Extends, IsRestored-later, same-IsKept, initialize-SameLayouts, add_display-SameLayouts,
  remove_display-SameLayouts,
}

restore-Extends :
    (first second : ApplyAnswer) (c : Control)
    → Extends c (restore_display_configuration first second c).1
unfolding restore_display_configuration
restore-Extends first second c = elim (Bool-cases c.has_backup) [
  | inr n ↦ rw (restore_display_configuration, n) ([], refl)
  | inl h ↦ elim (Bool-cases (is_applied first)) [
    | inr f ↦ rw (restore_display_configuration, h, f) ([], refl)
    | inl t ↦ elim (Bool-cases (is_applied second)) [
      | inr f ↦
          rw (restore_display_configuration, h, t, f)
            (record { layout = c.persistent; persist = true } ∷ [], refl)
      | inl u ↦
          rw (restore_display_configuration, h, t, u)
            (
              record { layout = c.original; persist = false }
                  ∷ record { layout = c.persistent; persist = true }
                  ∷ [],
              refl,
            )
    ]
  ]
]

restore-IsKept :
    (p o : Layout) (first second : ApplyAnswer) (c : Control)
    → IsKept p o c
    → IsKept p o (restore_display_configuration first second c).1
restore-IsKept p o first second c (inr k) = inr (
    IsRestored-later p o c (restore_display_configuration first second c).1
      (restore-Extends first second c) k)
restore-IsKept p o first second c (inl (h, a, b)) = elim (restore_both first second c h) [
  | inr f ↦ inl (f.1, f.2 ∙ a, f.3 ∙ b)
  | inl t ↦ inr (
    [],
    c.applied,
    t.2
        ∙ ap
            (λ l.
              record { layout = l; persist = false }
              ∷ record { layout = c.persistent; persist = true }
              ∷ c.applied)
            a
        ∙ ap
            (λ l.
              record { layout = o; persist = false }
              ∷ record { layout = l; persist = true }
              ∷ c.applied)
            b,
  )
]

pub save_applies_none :
    (database current : List QueryAnswer) (c : Control)
    → (save_display_configuration database current c).1.applied ≡ c.applied
unfolding save_display_configuration
save_applies_none database current c = elim (Option-cases (query_layout (take 5 database))) [
  | inl e ↦ rw (save_display_configuration, e) refl
  | inr (q, e) ↦ elim (Option-cases (query_layout (take 5 current))) [
    | inl f ↦ rw (save_display_configuration, e, f) refl
    | inr (r, f) ↦ rw (save_display_configuration, e, f) refl
  ]
]

apply_primary-Extends :
    (uid : ℤ) (a : PrimaryAnswers) (c : Control) → Extends c (apply_primary uid a c).1
unfolding apply_primary
apply_primary-Extends uid a c = elim (Option-cases a.active_layout) [
  | inl e ↦ rw (apply_primary, e) ([], refl)
  | inr (l, e) ↦ elim (Option-cases (find_display uid c.displays)) [
    | inl f ↦ rw (apply_primary, e, f) ([], refl)
    | inr (d, f) ↦ elim (Option-cases (target_path uid d c.displays l.paths)) [
      | inl g ↦ rw (apply_primary, e, f, g) ([], refl)
      | inr (i, g) ↦
          rw (apply_primary, e, f, g)
            (if_both (λ (r : Bool × Control). Extends c r.1) (not a.accepts) (false, c) _ ([], refl)
              (record { layout = only_layout i l; persist = true } ∷ [], refl))
    ]
  ]
]

set_primary-Extends :
    (uid : ℤ) (a : PrimaryAnswers) (c : Control) → Extends c (set_primary_display_only uid a c).1
unfolding set_primary_display_only
set_primary-Extends uid a c =
    let t = (save_display_configuration a.database a.current c).1 in
    let same = save_applies_none a.database a.current c in
    let (more, e) = apply_primary-Extends uid a t in
    if_both (λ (r : Bool × Control). Extends c r.1) c.has_backup (false, c) _ ([], refl)
      (if_both (λ (r : Bool × Control). Extends c r.1)
        (not (save_display_configuration a.database a.current c).0) (false, t)
        (apply_primary uid a t) ([], same) (more, e ∙ ap (λ l. more ++ l) same))

set_primary-IsKept :
    (p o : Layout) (uid : ℤ) (a : PrimaryAnswers) (c : Control)
    → IsKept p o c
    → IsKept p o (set_primary_display_only uid a c).1
unfolding set_primary_display_only
set_primary-IsKept p o uid a c (inr k) =
    inr
      (IsRestored-later p o c (set_primary_display_only uid a c).1 (set_primary-Extends uid a c) k)
set_primary-IsKept p o uid a c (inl k) =
    let stays : set_primary_display_only uid a c ≡ (false, c) =
      if_true c.has_backup (false, c) _ k.0 in
    subst (λ (r : Bool × Control). IsKept p o r.1) (sym stays) (inl k)

shutdown-IsKept :
    (p o : Layout) (first second : ApplyAnswer) (c : Control)
    → IsKept p o c
    → IsKept p o (shutdown first second c)
unfolding shutdown
shutdown-IsKept p o first second c h =
    let r = restore_display_configuration first second c in
    let k = restore-IsKept p o first second c h in
    if_both (IsKept p o) (not r.0) r.1 _ k (if_both (IsKept p o) (not (r.1).initialized) r.1 _ k k)

step-IsKept : (p o : Layout) (call : Call) (c : Control) → IsKept p o c → IsKept p o (step call c)
unfolding step
step-IsKept p o (init status handle) c h =
    same-IsKept p o c (initialize status handle c).1 (initialize-SameLayouts status handle c) h
step-IsKept p o (add i found) c h =
    same-IsKept p o c (add_display i found c).1 (add_display-SameLayouts i found c) h
step-IsKept p o (remove uid) c h =
    same-IsKept p o c (remove_display uid c).1 (remove_display-SameLayouts uid c) h
step-IsKept p o (set_primary uid a) c h = set_primary-IsKept p o uid a c h
step-IsKept p o (restore first second) c h = restore-IsKept p o first second c h
step-IsKept p o (shut_down first second) c h = shutdown-IsKept p o first second c h

-- The layouts of a backup are held, as they were saved, or have been restored one right after the
-- other, whatever is called and whatever Windows and the service answer.
pub run-IsKept :
    (p o : Layout) (calls : List Call) (c : Control) → IsKept p o c → IsKept p o (run calls c)
unfolding run
run-IsKept p o [] c h = h
run-IsKept p o (call ∷ calls) c h = run-IsKept p o calls (step call c) (step-IsKept p o call c h)
