-- ===== src/Windows/Displays/Primary.antt =====
-- One display as the only one: what is applied, and what a failure leaves.
use hardware_simulator.Prelude.{
  ℕ, suc, ◌+◌, ◌-◌, ◌≤◌, ◌<◌, ◌≡◌, refl, sym, ap, ◌∙◌, ◌≢◌, inl, inr, Bool, true, false, not, ◌&&◌,
  none, some, List, [], ◌∷◌, arith, ◌==◌, if◌then◌else◌, ==_iff, Bool-cases, Option-cases, if_both,
  if_true, if_false, length, take, All,
}
use hardware_simulator.Prelude.Int.{ℤ}
use mathlib.Core.Path.{subst}
use hardware_simulator.Windows.Displays.Restoring.{
  Call, init, add, remove, set_primary, restore, shut_down, step, run, initialize-SameLayouts,
  add_display-SameLayouts, remove_display-SameLayouts,
}
use hardware_simulator.Windows.Displays.Restoring.Runs.{save_applies_none}
use hardware_simulator.Windows.Displays.{Display, DisplayPath, Layout, Control, find_display}
use hardware_simulator.Windows.Displays.Topology.{
  ApplyAnswer, is_applied, restore_display_configuration, shutdown, QueryAnswer, PrimaryAnswers,
  query_layout, save_display_configuration, apply_primary, target_path, path_by_name, path_by_index,
  set_primary_display_only, only_layout, only_path, display_index,
}

-- How many paths are active.
abbrev pub active_count : List DisplayPath → ℕ
active_count [] = 0
active_count (p ∷ ps) = (if p.is_active then 1 else 0) + active_count ps

none_before :
    (target i : ℕ) (ps : List DisplayPath) → target < i → active_count (only_path target i ps) ≡ 0
none_before target i [] h = refl
none_before target i (p ∷ ps) h =
    let z : (i == target) ≡ false = ground (arith, h) in
    let rest = none_before target (suc i) ps (omega (arith, h)) in rw z (omega (arith, rest))

one_active :
    (target i : ℕ) (ps : List DisplayPath)
    → i ≤ target
    → target < i + length ps
    → active_count (only_path target i ps) ≡ 1
one_active target i [] h l = absurd (omega (arith, h, l))
one_active target i (p ∷ ps) h l = elim (Bool-cases (i == target)) [
  | inl e ↦
      let at : i ≡ target = (==_iff i target).0 e in
      rw e (omega (arith, none_before target (suc i) ps (omega (arith, at))))
  | inr n ↦
      let less : i ≢ target =
        λ z. (let w : true ≡ false = sym ((==_iff i target).1 z) ∙ n in absurd (cc)) in
      rw n (omega (arith, one_active target (suc i) ps (omega (arith, h, less)) (omega (arith, l))))
]

-- The search by name stays in the list, and so does the one by number.
path_by_name_in :
    (name i k : ℕ) (ps : List DisplayPath) → path_by_name name i ps ≡ some k → k < i + length ps
path_by_name_in name i k [] e = let z : none ≡ some k = e in absurd (cc)
path_by_name_in name i k (p ∷ ps) e = ground (arith, e, path_by_name_in name (suc i) k ps)

path_by_index_in :
    (n i k : ℕ) (ps : List DisplayPath) → path_by_index n i ps ≡ some k → k < i + length ps
path_by_index_in n i k [] e = let z : none ≡ some k = e in absurd (cc)
path_by_index_in n i k (p ∷ ps) e =
    ground (arith, e, path_by_index_in n (suc i) k ps, path_by_index_in (n - 1) (suc i) k ps)

target_path_in :
    (uid : ℤ) (d : Display) (ds : List Display) (ps : List DisplayPath) (k : ℕ)
    → target_path uid d ds ps ≡ some k
    → k < length ps
target_path_in uid d ds ps k e = elim (Option-cases (path_by_name d.device_name 0 ps)) [
  | inr (i, f) ↦
      let same : some i ≡ some k = rw (target_path, f) at e in
      let at : i ≡ k = cc in omega (arith, at, path_by_name_in d.device_name 0 i ps f)
  | inl f ↦
      let found : path_by_index (display_index uid ds) 0 ps ≡ some k = rw (target_path, f) at e in
      omega (arith, path_by_index_in (display_index uid ds) 0 k ps found)
]

-- The layout that a true answer has had applied, and nothing else.
abbrev pub OnlyOne : Control → Bool × Control → Type 0
OnlyOne c r =
    r.0 ≡ true
    → (l : Layout) × (r.1.applied ≡ record { layout = l; persist = true } ∷ c.applied)
      × (active_count l.paths ≡ 1)

no_answer : (c t : Control) → OnlyOne c (false, t)
no_answer c t e = let z : false ≡ true = e in absurd (cc)

apply_primary-OnlyOne :
    (uid : ℤ) (a : PrimaryAnswers) (c : Control) → OnlyOne c (apply_primary uid a c)
unfolding apply_primary only_layout
apply_primary-OnlyOne uid a c = elim (Option-cases a.active_layout) [
  | inl e ↦ rw (apply_primary, e) (no_answer c c)
  | inr (l, e) ↦ elim (Option-cases (find_display uid c.displays)) [
    | inl f ↦ rw (apply_primary, e, f) (no_answer c c)
    | inr (d, f) ↦ elim (Option-cases (target_path uid d c.displays l.paths)) [
      | inl g ↦ rw (apply_primary, e, f, g) (no_answer c c)
      | inr (i, g) ↦
          rw (apply_primary, e, f, g)
            (if_both (OnlyOne c) (not a.accepts) (false, c) _ (no_answer c c)
              (λ y. (
                only_layout i l,
                refl,
                one_active i 0 l.paths (omega arith)
                    (omega (arith, target_path_in uid d c.displays l.paths i g)),
              )))
    ]
  ]
]

-- When a display has been made the only one, one layout was applied, saved, with one active path.
pub one_display_only :
    (uid : ℤ) (a : PrimaryAnswers) (c : Control)
    → (set_primary_display_only uid a c).0 ≡ true
    → (l : Layout) × ((set_primary_display_only uid a c).1.applied
        ≡ record { layout = l; persist = true } ∷ c.applied)
      × (active_count l.paths ≡ 1)
unfolding set_primary_display_only
one_display_only uid a c =
    let r = save_display_configuration a.database a.current c in
    if_both (OnlyOne c) c.has_backup (false, c) _ (no_answer c c)
      (if_both (OnlyOne c) (not r.0) (false, r.1) (apply_primary uid a r.1) (no_answer c r.1)
        (subst (λ log. OnlyOne (record c { applied = log }) (apply_primary uid a r.1))
          (save_applies_none a.database a.current c) (apply_primary-OnlyOne uid a r.1)))

-- The state after the backup.
abbrev pub with_backup : Layout → Layout → Control → Control
with_backup p o c = record c { persistent = p; original = o; has_backup = true }

saves :
    (database current : List QueryAnswer) (p o : Layout) (c : Control)
    → query_layout (take 5 database) ≡ some p
    → query_layout (take 5 current) ≡ some o
    → save_display_configuration database current c ≡ (true, with_backup p o c)
unfolding save_display_configuration
saves database current p o c e f = rw (save_display_configuration, e, f) refl

apply_fails :
    (uid : ℤ) (a : PrimaryAnswers) (c : Control)
    → find_display uid c.displays ≡ none
    → apply_primary uid a c ≡ (false, c)
unfolding apply_primary
apply_fails uid a c f = elim (Option-cases a.active_layout) [
  | inl g ↦ rw (apply_primary, g) refl
  | inr (l, g) ↦ rw (apply_primary, g, f) refl
]

-- A call that does not restore the layouts: not one of the two that may, or one whose layouts are not
-- both applied.
abbrev pub RestoresNone : Call → Type 0
RestoresNone (init status handle) = Unit
RestoresNone (add vdd_index found) = Unit
RestoresNone (remove uid) = Unit
RestoresNone (set_primary uid a) = Unit
RestoresNone (restore first second) = (is_applied first && is_applied second) ≡ false
RestoresNone (shut_down first second) = (is_applied first && is_applied second) ≡ false

restore_fails :
    (first second : ApplyAnswer) (c : Control)
    → c.has_backup ≡ true
    → (is_applied first && is_applied second) ≡ false
    → ((restore_display_configuration first second c).0 ≡ false)
      × ((restore_display_configuration first second c).1.has_backup ≡ true)
unfolding restore_display_configuration
restore_fails first second c h n = elim (Bool-cases (is_applied first)) [
  | inr f ↦ rw (restore_display_configuration, h, f) (refl, refl)
  | inl t ↦
      let f : is_applied second ≡ false = rw (t) at n in
      rw (restore_display_configuration, h, t, f) (refl, refl)
]

step_keeps_backup :
    (call : Call) (c : Control)
    → RestoresNone call
    → c.has_backup ≡ true
    → (step call c).has_backup ≡ true
unfolding step set_primary_display_only shutdown
step_keeps_backup (init status handle) c n h = (initialize-SameLayouts status handle c).0 ∙ h
step_keeps_backup (add vdd_index found) c n h = (add_display-SameLayouts vdd_index found c).0 ∙ h
step_keeps_backup (remove uid) c n h = (remove_display-SameLayouts uid c).0 ∙ h
step_keeps_backup (set_primary uid a) c n h =
    ap (λ (r : Bool × Control). r.1.has_backup) (if_true c.has_backup (false, c) _ h) ∙ h
step_keeps_backup (restore first second) c n h = (restore_fails first second c h n).1
step_keeps_backup (shut_down first second) c n h =
    let r = restore_display_configuration first second c in
    let f = restore_fails first second c h n in
    ap (λ (t : Control). t.has_backup) (if_true (not r.0) r.1 _ (ap not f.0)) ∙ f.1

run_keeps_backup :
    (calls : List Call) (c : Control)
    → All RestoresNone calls
    → c.has_backup ≡ true
    → (run calls c).has_backup ≡ true
unfolding run
run_keeps_backup [] c n h = h
run_keeps_backup (call ∷ calls) c n h =
    run_keeps_backup calls (step call c) n.1 (step_keeps_backup call c n.0 h)

-- With no backup held, and both layouts read, a call for a display that is not in the list fails after it
-- has saved the layouts and changed nothing else. After it, and any calls by which the layouts are not
-- restored, every such call fails for any display, and changes nothing.
pub failed_call_blocks :
    (uid other : ℤ) (a b : PrimaryAnswers) (p o : Layout) (c : Control) (calls : List Call)
    → c.has_backup ≡ false
    → query_layout (take 5 a.database) ≡ some p
    → query_layout (take 5 a.current) ≡ some o
    → find_display uid c.displays ≡ none
    → All RestoresNone calls
    → (set_primary_display_only uid a c ≡ (false, with_backup p o c))
      × (let t = run calls (set_primary_display_only uid a c).1 in
          set_primary_display_only other b t ≡ (false, t))
unfolding set_primary_display_only
failed_call_blocks uid other a b p o c calls h d e f n =
    let t = with_backup p o c in
    let fails : set_primary_display_only uid a c ≡ (false, t) =
      if_false c.has_backup (false, c) _ h
      ∙ ap (λ (q : Bool × Control). if not q.0 then (false, q.1) else apply_primary uid a q.1)
          (saves a.database a.current p o c d e)
      ∙ apply_fails uid a t f in
    let u = run calls (set_primary_display_only uid a c).1 in
    (
      fails,
      if_true u.has_backup (false, u) _
          (run_keeps_backup calls (set_primary_display_only uid a c).1 n
            (ap (λ (r : Bool × Control). r.1.has_backup) fails)),
    )
