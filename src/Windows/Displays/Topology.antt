-- ===== src/Windows/Displays/Topology.antt =====
-- windows/virtual_display_control.cc: one display as the only one, and the way back.
use hardware_simulator.Prelude.{
  ℕ, suc, ◌-◌, Bool, true, false, not, ◌&&◌, ◌||◌, Option, none, some, List, [], ◌∷◌, ◌==◌,
  if◌then◌else◌, length, get_elem?, take,
}
use hardware_simulator.Prelude.Int.{ℤ, pos, eqb_ℤ}
use hardware_simulator.Windows.Pointer.{Point}
use hardware_simulator.Windows.Displays.{
  Display, DisplayPath, DisplayMode, Layout, Control, find_display, no_layout,
}

-- One attempt to read the configuration: no sizes, a buffer that has become too small, another error,
-- or a layout.
pub data QueryAnswer : Type 0 where
  no_sizes insufficient query_failed : QueryAnswer
  queried : Layout → QueryAnswer

abbrev pub is_empty_layout : Layout → Bool
is_empty_layout l = length l.paths == 0 || length l.modes == 0

-- The loop of `SaveDisplayConfiguration` over what its attempts are answered.
unfoldable pub query_layout : List QueryAnswer → Option Layout
query_layout [] = none
query_layout (no_sizes ∷ qs) = none
query_layout (insufficient ∷ qs) = query_layout qs
query_layout (query_failed ∷ qs) = none
query_layout (queried l ∷ qs) = if is_empty_layout l then none else some l

-- The two queries: the layout of the database, and the active one. What a failed one leaves in the
-- vectors is not looked at while there is no backup.
unfoldable pub save_display_configuration :
    List QueryAnswer → List QueryAnswer → Control → Bool × Control
unfolding query_layout
save_display_configuration database current c = elim (query_layout (take 5 database)) [
  | none ↦ (false, c)
  | some p ↦ elim (query_layout (take 5 current)) [
    | none ↦ (false, record c { persistent = p })
    | some o ↦ (true, record c { persistent = p; original = o; has_backup = true })
  ]
]

-- The first active path whose source has the name, from the index `i` on.
abbrev pub path_by_name : ℕ → ℕ → List DisplayPath → Option ℕ
path_by_name name i [] = none
path_by_name name i (p ∷ ps) =
    let rest = path_by_name name (suc i) ps in
    if p.is_active && elim p.source_name [ none ↦ false | some n ↦ n == name ] then some i else rest

-- The active path with so many active ones before it.
abbrev pub path_by_index : ℕ → ℕ → List DisplayPath → Option ℕ
path_by_index k i [] = none
path_by_index k i (p ∷ ps) =
    let later = path_by_index k (suc i) ps in
    let rest = path_by_index (k - 1) (suc i) ps in
    if p.is_active then if k == 0 then some i else rest else later

-- How many displays stand before the one of the uid.
abbrev pub display_index : ℤ → List Display → ℕ
display_index uid [] = 0
display_index uid (d ∷ ds) =
    let rest = display_index uid ds in if eqb_ℤ d.uid uid then 0 else suc rest

abbrev pub target_path : ℤ → Display → List Display → List DisplayPath → Option ℕ
target_path uid d ds ps = elim (path_by_name d.device_name 0 ps) [
  | some i ↦ some i
  | none ↦ path_by_index (display_index uid ds) 0 ps
]

-- Only the path of the target is active, and primary.
abbrev pub only_path : ℕ → ℕ → List DisplayPath → List DisplayPath
only_path target i [] = []
only_path target i (p ∷ ps) =
    record p { is_active = i == target; is_primary_view = i == target }
    ∷ only_path target (suc i) ps

abbrev pub origin : Point
origin = record { x = pos 0; y = pos 0 }

-- The source mode of the target stands at the origin.
abbrev pub primary_mode : ℕ → ℕ → List DisplayMode → List DisplayMode
primary_mode index i [] = []
primary_mode index i (m ∷ ms) =
    (if m.is_source && i == index then record m { position = origin } else m)
    ∷ primary_mode index (suc i) ms

unfoldable pub only_layout : ℕ → Layout → Layout
only_layout target l = record {
  paths = only_path target 0 l.paths;
  modes = elim (get_elem? l.paths target) [
    | none ↦ l.modes
    | some p ↦ primary_mode p.mode_index 0 l.modes
  ];
}

-- The answers to `SetPrimaryDisplayOnly`: the queries of the backup, the layout that is read after it,
-- and whether Windows accepts the new one.
pub record PrimaryAnswers : Type 0 where
  pub database : List QueryAnswer
  pub current : List QueryAnswer
  pub active_layout : Option Layout
  pub accepts : Bool

-- After the backup.
unfoldable pub apply_primary : ℤ → PrimaryAnswers → Control → Bool × Control
unfolding only_layout
apply_primary uid a c = elim a.active_layout [
  | none ↦ (false, c)
  | some l ↦ elim (find_display uid c.displays) [
    | none ↦ (false, c)
    | some d ↦ elim (target_path uid d c.displays l.paths) [
      | none ↦ (false, c)
      | some i ↦ if not a.accepts then (false, c) else (
        true,
        record c { applied = record { layout = only_layout i l; persist = true } ∷ c.applied },
      )
    ]
  ]
]

unfoldable pub set_primary_display_only : ℤ → PrimaryAnswers → Control → Bool × Control
unfolding save_display_configuration apply_primary
set_primary_display_only uid a c =
    if c.has_backup
    then (false, c)
    else let (saved, t) = save_display_configuration a.database a.current c in
      if not saved then (false, t) else apply_primary uid a t

-- What `SetDisplayConfig` answers to a restoration, and the desktop service where access is denied:
-- whether it has restored, or no answer.
pub data ApplyAnswer : Type 0 where
  accepted refused : ApplyAnswer
  denied : Option Bool → ApplyAnswer

abbrev pub is_applied : ApplyAnswer → Bool
is_applied accepted = true
is_applied refused = false
is_applied (denied none) = false
is_applied (denied (some restored)) = restored

abbrev pub apply_layout : Layout → Bool → ApplyAnswer → Control → Bool × Control
apply_layout l persist a c = (
  is_applied a,
  if is_applied a
      then record c { applied = record { layout = l; persist = persist } ∷ c.applied }
      else c,
)

unfoldable pub restore_display_configuration : ApplyAnswer → ApplyAnswer → Control → Bool × Control
restore_display_configuration first second c =
    if not c.has_backup
    then (true, c)
    else let (saved, t) = apply_layout c.persistent true first c in
      let (restored, u) = apply_layout c.original false second t in
      if not saved
      then (false, t)
      else if not restored
      then (false, u)
      else (true, record u { has_backup = false; original = no_layout; persistent = no_layout })

abbrev pub remove_all : List Display → List ℤ → List ℤ
remove_all [] removed = removed
remove_all (d ∷ ds) removed = remove_all ds (d.uid ∷ removed)

-- `Shutdown`: the virtual displays go only once the layout is restored.
unfoldable pub shutdown : ApplyAnswer → ApplyAnswer → Control → Control
unfolding restore_display_configuration
shutdown first second c =
    let (restored, t) = restore_display_configuration first second c in
    if not restored then t else if not t.initialized then t else record t {
      removed = remove_all t.displays t.removed;
      handle = 0;
      initialized = false;
      displays = [];
    }
