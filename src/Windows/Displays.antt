-- ===== src/Windows/Displays.antt =====
-- windows/virtual_display_control.cc and windows/virtual_display.cc: the displays, virtual ones
-- through the Parsec driver, and the layout of the desktop.
pub mod Topology
pub mod Restoring
pub mod Primary
pub mod Console
pub mod Configs
mod Tests
use hardware_simulator.Prelude.{
  ℕ, Bool, true, false, not, ◌&&◌, ◌||◌, Option, none, some, List, [], ◌∷◌, map, ltb, ◌==◌,
  if◌then◌else◌, bool_eq, length, take,
}
use hardware_simulator.Prelude.Int.{ℤ, negsuc, eqb_ℤ, is_negative}
use hardware_simulator.Windows.Pointer.{Point}

-- `VirtualDisplay`, as far as the control tells displays apart. A device name is a number.
pub record Display : Type 0 where
  pub uid : ℤ
  pub is_virtual : Bool
  pub device_name : ℕ
  pub orientation : ℕ
  pub last_arrival : ℕ

-- A path of the display configuration, with the name that its source has, if Windows tells it.
pub record DisplayPath : Type 0 where
  pub path_id : ℕ
  pub is_active : Bool
  pub is_primary_view : Bool
  pub source_name : Option ℕ
  pub mode_index : ℕ

pub record DisplayMode : Type 0 where
  pub is_source : Bool
  pub position : Point

pub record Layout : Type 0 where
  pub paths : List DisplayPath
  pub modes : List DisplayMode

-- What `SetDisplayConfig` has accepted: a layout, and whether it was saved to the database.
pub record Applied : Type 0 where
  pub layout : Layout
  pub persist : Bool

-- The static members; `handle` is 0 for an invalid one. `applied` has the latest first, `driver` what
-- the driver was asked to remove.
pub record Control : Type 0 where
  pub initialized : Bool
  pub handle : ℕ
  pub displays : List Display
  pub original : Layout
  pub persistent : Layout
  pub has_backup : Bool
  pub applied : List Applied
  pub removed : List ℤ

abbrev pub no_layout : Layout
no_layout = record { paths = []; modes = [] }

abbrev pub new_control : Control
new_control = record {
  initialized = false;
  handle = 0;
  displays = [];
  original = no_layout;
  persistent = no_layout;
  has_backup = false;
  applied = [];
  removed = [];
}

abbrev pub find_display : ℤ → List Display → Option Display
find_display uid [] = none
find_display uid (d ∷ ds) =
    let rest = find_display uid ds in if eqb_ℤ d.uid uid then some d else rest

abbrev pub erase_display : ℤ → List Display → List Display
erase_display uid [] = []
erase_display uid (d ∷ ds) =
    let rest = erase_display uid ds in if eqb_ℤ d.uid uid then ds else d ∷ rest

-- The status of the driver, as far as `Initialize` tells it apart.
pub data DeviceStatus : Type 0 where
  device_ok not_installed disabled restart_required other_status : DeviceStatus

abbrev pub goes_on : DeviceStatus → Bool
goes_on not_installed = false
goes_on disabled = false
goes_on _ = true

-- With the status and the handle that the driver answers; the console is seen to before.
unfoldable pub initialize : DeviceStatus → ℕ → Control → Bool × Control
initialize status handle c =
    if c.initialized
    then (true, c)
    else if not (goes_on status)
    then (false, c)
    else if handle == 0
    then (false, record c { handle = handle })
    else (true, record c { handle = handle; initialized = true; displays = [] })

abbrev pub is_ready : Control → Bool
is_ready c = c.initialized && not (c.handle == 0)

-- The loop of `AddDisplay`: up to five enumerations, until there is a display more.
unfoldable pub wait_enumerated : ℕ → List (List Display) → Control → Control
wait_enumerated previous [] c = c
wait_enumerated previous (ds ∷ more) c =
    let t = record c { displays = ds } in
    let rest = wait_enumerated previous more t in if ltb previous (length ds) then t else rest

-- The index that the driver answers, and what the five enumerations would find.
unfoldable pub add_display : ℤ → List (List Display) → Control → ℤ × Control
unfolding wait_enumerated
add_display vdd_index found c =
    if not (is_ready c)
    then (negsuc 0, c)
    else if is_negative vdd_index
    then (negsuc 0, c)
    else (vdd_index, wait_enumerated (length c.displays) (take 5 found) c)

unfoldable pub remove_display : ℤ → Control → Bool × Control
remove_display uid c = if not (is_ready c) then (false, c) else elim (find_display uid c.displays) [
  | none ↦ (false, c)
  | some d ↦
      if not d.is_virtual
      then (false, c)
      else (true, record c { displays = erase_display uid c.displays; removed = uid ∷ c.removed })
]

abbrev pub get_display_count : Control → ℕ
get_display_count c = length c.displays

abbrev pub get_display_list : Control → List ℤ
get_display_list c = map (λ (d : Display). d.uid) c.displays

-- Landscape is 0 and Portrait 1; the flipped ones are 2 and 3.
abbrev pub is_portrait : ℕ → Bool
is_portrait o = o == 1 || o == 3

-- `VirtualDisplay::SetOrientation`: the current size, if Windows tells it, and whether Windows accepts
-- the change; the size that is asked for, and the display after it.
unfoldable pub set_orientation :
    ℕ → Option (ℕ × ℕ) → Bool → Display → Bool × (Option (ℕ × ℕ) × Display)
set_orientation orientation size accepts d =
    if d.orientation == orientation then (true, (none, d)) else elim size [
      | none ↦ (false, (none, d))
      | some s ↦ (
        accepts,
        (
          some (
              if bool_eq (is_portrait d.orientation) (is_portrait orientation)
              then s
              else (s.1, s.0)),
          if accepts then record d { orientation = orientation } else d,
        ),
      )
    ]

abbrev pub get_display_orientation : ℤ → Control → ℕ
get_display_orientation uid c = elim (find_display uid c.displays) [
  | none ↦ 0
  | some d ↦ d.orientation
]
