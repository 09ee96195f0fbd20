-- ===== src/Windows/Pointer/Devices.antt =====
-- A screen's id is the number of its device.
use hardware_simulator.Prelude.{
  ℕ, zero, suc, ◌+◌, ◌<◌, ◌≡◌, refl, ◌∙◌, ◌≢◌, Option, none, some, List, [], ◌∷◌, arith,
  if◌then◌else◌, get_elem?,
}
use hardware_simulator.Prelude.Int.{pos}
use hardware_simulator.Windows.Pointer.{
  Rect, MonitorInfo, DisplayDevice, Screens, monitor_of, push_device, enumerate_devices,
  update_static_monitors, monitor_rect_for_screen_id,
}

-- The rectangle of a device, if it is active and has settings.
abbrev pub device_rect : ℕ → Option DisplayDevice → Option Rect
device_rect n none = none
device_rect n (some dev) =
    if dev.active
    then elim dev.settings [ none ↦ none | some mode ↦ some (monitor_of n dev mode).rect ]
    else none

-- Another device's monitor is passed over.
passes_over :
    (n k : ℕ) (dev : DisplayDevice) (ms : List MonitorInfo)
    → n ≢ k
    → monitor_rect_for_screen_id (push_device k dev ms) (pos n)
      ≡ monitor_rect_for_screen_id ms (pos n)
unfolding monitor_rect_for_screen_id
passes_over n k dev ms h = ground (arith, h)

-- No monitor from the n-th device on has an earlier id.
later_ids :
    (n k : ℕ) (devs : List DisplayDevice)
    → n < k
    → monitor_rect_for_screen_id (enumerate_devices k devs) (pos n) ≡ none
unfolding monitor_rect_for_screen_id enumerate_devices
later_ids n k [] h = refl
later_ids n k (dev ∷ devs) h =
    passes_over n k dev _ (λ z. omega (arith, h, z)) ∙ later_ids n (suc k) devs (omega (arith, h))

finds :
    (k : ℕ) (dev : DisplayDevice) (ms : List MonitorInfo)
    → monitor_rect_for_screen_id ms (pos k) ≡ none
    → monitor_rect_for_screen_id (push_device k dev ms) (pos k) ≡ device_rect k (some dev)
unfolding monitor_rect_for_screen_id
finds k dev ms h = ground (arith, h)

found_from :
    (k n i : ℕ) (devs : List DisplayDevice)
    → n ≡ k + i
    → monitor_rect_for_screen_id (enumerate_devices k devs) (pos n)
      ≡ device_rect n (get_elem? devs i)
unfolding monitor_rect_for_screen_id enumerate_devices
found_from k n i [] e = refl
found_from k n zero (dev ∷ devs) e =
    let at : n ≡ k = omega (arith, e) in
    rw at (finds k dev _ (later_ids k (suc k) devs (omega arith)))
found_from k n (suc i) (dev ∷ devs) e =
    passes_over n k dev _ (λ z. omega (arith, e, z))
    ∙ found_from (suc k) n i devs (omega (arith, e))

-- After the list of monitors has been read, the rectangle found for a number is that of the device with
-- this number, where that is active and has settings, and none is found else; no other monitor is taken.
pub update_static_monitors_finds :
    (devs : List DisplayDevice) (s : Screens) (n : ℕ)
    → monitor_rect_for_screen_id (update_static_monitors devs s).monitors (pos n)
      ≡ device_rect n (get_elem? devs n)
unfolding update_static_monitors
update_static_monitors_finds devs s n = found_from 0 n n devs (omega arith)
