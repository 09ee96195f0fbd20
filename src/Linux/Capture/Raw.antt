-- ===== src/Linux/Capture/Raw.antt =====
-- linux/linux_pointer_capture.cc: raw motion of X11.
use hardware_simulator.Prelude.{
  ℕ, suc, Bool, false, not, ◌&&◌, ◌||◌, Option, none, some, List, [], ◌∷◌, ◌==◌, if◌then◌else◌,
}
use hardware_simulator.Linux.Values.{Doubles}
use hardware_simulator.Linux.Capture.{Impl, motion, connection_lost, release}

-- A class of an input device, as `XIQueryDevice` reports it.
pub record DeviceClass : Type 0 where
  pub is_valuator : Bool
  pub mode_relative : Bool
  pub number : ℕ

abbrev pub Axes : Type 0
Axes = Bool × Bool

-- The two loops over devices and classes: whether a relative axis 0, and a relative axis 1, is there.
abbrev pub class_axes : List DeviceClass → Axes → Axes
class_axes [] a = a
class_axes (c ∷ cs) (x, y) =
    class_axes cs (
      if c.is_valuator && c.mode_relative then (x || c.number == 0, y || c.number == 1) else (x, y))

abbrev pub device_axes : List (List DeviceClass) → Axes → Axes
device_axes [] a = a
device_axes (d ∷ ds) a = device_axes ds (class_axes d a)

abbrev pub find_device : ℕ → List (ℕ × Bool) → Option Bool
find_device k [] = none
find_device k ((j, b) ∷ m) = let rest = find_device k m in if j == k then some b else rest

-- The bits of the valuator mask, in order, and the values of those that are set.
pub record RawEvent (D : Type 0) : Type 0 where
  pub source : ℕ
  pub mask : List Bool
  pub raw_values : List D

-- A pending event: another one (or one without data), or a raw one, with its type.
pub data Pending (D : Type 0) : Type 0 where
  other_event : Pending D
  raw_event : Bool → RawEvent D → Pending D

module _ (d : Doubles) where
  open d use {D, zero_d, is_finite, is_zero}

  -- `*values` past the end of the array does not occur: there is a value for each bit that is set.
  abbrev pub head_or_zero : List D → D
  head_or_zero [] = zero_d
  head_or_zero (v ∷ vs) = v

  abbrev pub tail_of : List D → List D
  tail_of [] = []
  tail_of (v ∷ vs) = vs

  -- The loop over the mask from bit `i` on.
  unfoldable pub axis_values : ℕ → List Bool → List D → D × D → D × D
  axis_values i [] vs a = a
  axis_values i (bit ∷ mask) vs (dx, dy) =
      axis_values (suc i) mask (if bit then tail_of vs else vs) (
        if bit && i == 0 then head_or_zero vs else dx,
        if bit && i == 1 then head_or_zero vs else dy,
      )

  module _ (query : ℕ → List (List DeviceClass)) where
    unfoldable pub relative_device : ℕ → Impl D → Impl D × Bool
    relative_device source s = elim (find_device source s.relative_devices) [
      | some b ↦ (s, b)
      | none ↦
          let (x, y) = device_axes (query source) (false, false) in
          (record s { relative_devices = (source, x && y) ∷ s.relative_devices }, x && y)
    ]

    abbrev pub report : D × D → Impl D → Impl D
    report (dx, dy) s =
        if is_finite dx && is_finite dy && (not (is_zero dx) || not (is_zero dy))
        then record s { log = motion s.generation dx dy ∷ s.log }
        else s

    unfoldable pub read_event : Pending D → Impl D → Impl D
    read_event other_event s = s
    read_event (raw_event is_motion e) s =
        if is_motion && s.active
        then (let (t, usable) = relative_device e.source s in
            if usable then report (axis_values 0 e.mask e.raw_values (zero_d, zero_d)) t else t)
        else s

    -- The loop while the display is open and events are pending.
    unfoldable pub read_events : List (Pending D) → Impl D → Impl D
    read_events [] s = s
    read_events (e ∷ es) s =
        let rest = read_events es (read_event e s) in if s.raw_display then rest else s

    -- `read_raw`: the callback of the connection's watch.
    unfoldable pub read_raw : Bool → List (Pending D) → Impl D → Impl D
    read_raw lost es s =
        if lost then release connection_lost (record s { raw_source = false }) else read_events es s
