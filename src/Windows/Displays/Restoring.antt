-- ===== src/Windows/Displays/Restoring.antt =====
-- The layout that was saved is kept until it has been restored.
pub mod Runs
use hardware_simulator.Prelude.{
  ℕ, ◌≡◌, refl, sym, ap, ◌∙◌, ◌⊎◌, inl, inr, Bool, true, false, not, List, [], ◌∷◌, ◌++◌, ltb, ◌==◌,
  Bool-cases, Option-cases, if_both, length, take,
}
use hardware_simulator.Prelude.Int.{ℤ, negsuc, is_negative}
use mathlib.Core.Path.{subst}
use mathlib.Core.List.{append_assoc}
use hardware_simulator.Windows.Displays.{
  Display, DisplayPath, Layout, Applied, Control, DeviceStatus, find_display, initialize,
  wait_enumerated, add_display, remove_display, goes_on, is_ready,
}
use hardware_simulator.Windows.Displays.Topology.{
  QueryAnswer, PrimaryAnswers, query_layout, save_display_configuration, apply_primary,
  set_primary_display_only, ApplyAnswer, is_applied, apply_layout, restore_display_configuration,
  shutdown, only_path,
}

-- A restoration that answers true with a backup has had the database's layout applied, and then the
-- active one, and the backup is gone; one that answers false has kept it.
pub restore_both :
    (first second : ApplyAnswer) (c : Control)
    → c.has_backup ≡ true
    → let r = restore_display_configuration first second c in
      ((r.0 ≡ true)
        × (r.1.has_backup ≡ false)
        × (r.1.applied
            ≡ record { layout = c.original; persist = false }
              ∷ record { layout = c.persistent; persist = true }
              ∷ c.applied))
      ⊎ ((r.0 ≡ false)
          × (r.1.has_backup ≡ true)
          × (r.1.original ≡ c.original)
          × (r.1.persistent ≡ c.persistent))
unfolding restore_display_configuration
restore_both first second c h = elim (Bool-cases (is_applied first)) [
  | inr f ↦ inr (rw (restore_display_configuration, h, f) (refl, refl, refl, refl))
  | inl t ↦ elim (Bool-cases (is_applied second)) [
    | inr f ↦ inr (rw (restore_display_configuration, h, t, f) (refl, refl, refl, refl))
    | inl u ↦ inl (rw (restore_display_configuration, h, t, u) (refl, refl, refl))
  ]
]

-- What is called, with what the outside answers.
pub data Call : Type 0 where
  init : DeviceStatus → ℕ → Call
  add : ℤ → List (List Display) → Call
  remove : ℤ → Call
  set_primary : ℤ → PrimaryAnswers → Call
  restore : ApplyAnswer → ApplyAnswer → Call
  shut_down : ApplyAnswer → ApplyAnswer → Call

unfoldable pub step : Call → Control → Control
unfolding initialize add_display remove_display set_primary_display_only
    restore_display_configuration shutdown
step (init status handle) c = (initialize status handle c).1
step (add vdd_index found) c = (add_display vdd_index found c).1
step (remove uid) c = (remove_display uid c).1
step (set_primary uid a) c = (set_primary_display_only uid a c).1
step (restore first second) c = (restore_display_configuration first second c).1
step (shut_down first second) c = shutdown first second c

unfoldable pub run : List Call → Control → Control
unfolding step
run [] c = c
run (call ∷ calls) c = run calls (step call c)

-- The two layouts were applied, one right after the other.
abbrev pub IsRestored : Layout → Layout → List Applied → Type 0
IsRestored p o log =
    (later : List Applied) × (earlier : List Applied) × (log
      ≡ later
        ++ record { layout = o; persist = false } ∷ record { layout = p; persist = true } ∷ earlier)

-- The layouts of a backup are held, or have been restored.
abbrev pub IsKept : Layout → Layout → Control → Type 0
IsKept p o c =
    ((c.has_backup ≡ true) × (c.original ≡ o) × (c.persistent ≡ p)) ⊎ IsRestored p o c.applied

-- What was applied before stays in the log.
abbrev pub Extends : Control → Control → Type 0
Extends c t = (more : List Applied) × (t.applied ≡ more ++ c.applied)

pub IsRestored-later :
    (p o : Layout) (c t : Control)
    → Extends c t
    → IsRestored p o c.applied
    → IsRestored p o t.applied
IsRestored-later p o c t (more, e) (later, earlier, k) =
    (more ++ later, earlier, e ∙ ap (λ l. more ++ l) k ∙ sym (append_assoc more later _))

-- The calls on displays leave the layouts.
abbrev pub SameLayouts : Control → Control → Type 0
SameLayouts c t =
    (t.has_backup ≡ c.has_backup)
    × (t.original ≡ c.original)
    × (t.persistent ≡ c.persistent)
    × (t.applied ≡ c.applied)

pub same-IsKept : (p o : Layout) (c t : Control) → SameLayouts c t → IsKept p o c → IsKept p o t
same-IsKept p o c t s (inl (h, a, b)) = inl (s.0 ∙ h, s.1 ∙ a, s.2 ∙ b)
same-IsKept p o c t s (inr k) = inr (subst (IsRestored p o) (sym s.3) k)

pub alike : (c : Control) → SameLayouts c c
alike c = (refl, refl, refl, refl)

wait_enumerated-SameLayouts :
    (n : ℕ) (found : List (List Display)) (c : Control) → SameLayouts c (wait_enumerated n found c)
unfolding wait_enumerated
wait_enumerated-SameLayouts n [] c = alike c
wait_enumerated-SameLayouts n (ds ∷ found) c =
    let t : Control = record c { displays = ds } in
    if_both (SameLayouts c) (ltb n (length ds)) t (wait_enumerated n found t) (alike c)
      (wait_enumerated-SameLayouts n found t)

pub initialize-SameLayouts :
    (status : DeviceStatus) (handle : ℕ) (c : Control)
    → SameLayouts c (initialize status handle c).1
unfolding initialize
initialize-SameLayouts status handle c =
    let P : Bool × Control → Type 0 = λ r. SameLayouts c r.1 in
    if_both P c.initialized (true, c) _ (alike c)
      (if_both P (not (goes_on status)) (false, c) _ (alike c)
        (if_both P (handle == 0) (false, record c { handle = handle })
          (true, record c { handle = handle; initialized = true; displays = [] }) (alike c)
          (alike c)))

pub add_display-SameLayouts :
    (i : ℤ) (found : List (List Display)) (c : Control) → SameLayouts c (add_display i found c).1
unfolding add_display
add_display-SameLayouts i found c =
    let P : ℤ × Control → Type 0 = λ r. SameLayouts c r.1 in
    if_both P (not (is_ready c)) (negsuc 0, c) _ (alike c)
      (if_both P (is_negative i) (negsuc 0, c) _ (alike c)
        (wait_enumerated-SameLayouts (length c.displays) (take 5 found) c))

pub remove_display-SameLayouts : (uid : ℤ) (c : Control) → SameLayouts c (remove_display uid c).1
unfolding remove_display
remove_display-SameLayouts uid c =
    let P : Bool × Control → Type 0 = λ r. SameLayouts c r.1 in
    elim (Option-cases (find_display uid c.displays)) [
      | inl e ↦
          rw (remove_display, e) (if_both P (not (is_ready c)) (false, c) _ (alike c) (alike c))
      | inr (d, e) ↦
          rw (remove_display, e)
            (if_both P (not (is_ready c)) (false, c) _ (alike c)
              (if_both P (not d.is_virtual) (false, c) _ (alike c) (alike c)))
    ]
