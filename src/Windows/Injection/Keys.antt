-- ===== src/Windows/Injection/Keys.antt =====
-- windows/hardware_simulator_plugin.cpp: keys, mouse buttons, motion and the wheel, as `INPUT`s.
use hardware_simulator.Prelude.{
  ℕ, ◌+◌, ◌-◌, ◌%◌, ◌^◌, Bool, true, false, not, ◌||◌, none, some, List, [], ◌∷◌, ◌==◌,
  if◌then◌else◌, contains,
}
use hardware_simulator.Prelude.Int.{ℤ, pos, negsuc, neg, eqb_ℤ}
use hardware_simulator.Linux.Values.{Doubles}
use hardware_simulator.Windows.Service.Messages.{Input, keyboard, mouse}
use hardware_simulator.Windows.Injection.{input, Outside, Sender, send}
use hardware_simulator.Windows.Pointer.{Metrics, MonitorInfo, adjust_to_virtual_desktop}

abbrev vk_lwin : ℕ
vk_lwin = 0x5b

abbrev vk_rwin : ℕ
vk_rwin = 0x5c

abbrev vk_pause : ℕ
vk_pause = 0x13

-- The keys of the right-hand side and of the navigation block, by their virtual codes: VK_RMENU,
-- VK_RCONTROL, VK_INSERT, VK_DELETE, VK_HOME, VK_END, VK_PRIOR, VK_NEXT, VK_UP, VK_DOWN, VK_LEFT,
-- VK_RIGHT and VK_DIVIDE.
abbrev extended_keys : List ℕ
extended_keys =
    0xa5 ∷ 0xa3 ∷ 0x2d ∷ 0x2e ∷ 0x24 ∷ 0x23 ∷ 0x21 ∷ 0x22 ∷ 0x26 ∷ 0x28 ∷ 0x25 ∷ 0x27 ∷ 0x6f ∷ []

-- Whether a key is sent by its virtual code and not by its scan code.
abbrev pub has_no_scan_code : ℕ → Bool
has_no_scan_code modcode = modcode == vk_lwin || modcode == vk_rwin || modcode == vk_pause

abbrev pub is_extended : ℕ → Bool
is_extended modcode = contains modcode extended_keys

-- KEYEVENTF_SCANCODE, KEYEVENTF_EXTENDEDKEY and KEYEVENTF_KEYUP.
abbrev pub key_flags : ℕ → Bool → ℕ
key_flags modcode is_down =
    (if has_no_scan_code modcode then 0 else 8)
    + (if is_extended modcode then 1 else 0)
    + (if is_down then 0 else 2)

unfoldable pub key_input : Outside → ℕ → Bool → Input
key_input out modcode is_down =
    if has_no_scan_code modcode
    then keyboard modcode 0 (key_flags modcode is_down)
    else keyboard 0 (out.map_virtual_key modcode % 2 ^ 16) (key_flags modcode is_down)

-- MOUSEEVENTF_LEFTDOWN and its kin, with the number of an X button.
unfoldable pub button_input : ℤ → Bool → Input
button_input button release =
    if eqb_ℤ button (pos 1)
    then mouse (pos 0) (pos 0) (if release then 0x4 else 0x2) 0
    else if eqb_ℤ button (pos 2)
    then mouse (pos 0) (pos 0) (if release then 0x40 else 0x20) 0
    else if eqb_ℤ button (pos 3)
    then mouse (pos 0) (pos 0) (if release then 0x10 else 0x8) 0
    else if eqb_ℤ button (pos 4)
    then mouse (pos 0) (pos 0) (if release then 0x100 else 0x80) 1
    else mouse (pos 0) (pos 0) (if release then 0x100 else 0x80) 2

unfoldable pub perform_mouse_button : Outside → ℤ → Bool → Sender → Sender
unfolding button_input
perform_mouse_button out button release s = send out (input (button_input button release)) s

-- `mouseData` is a DWORD.
abbrev pub dword : ℤ → ℕ
dword (pos n) = n % 2 ^ 32
dword (negsuc n) = 2 ^ 32 - 1 - n % 2 ^ 32

unfoldable pub scroll : Outside → ℤ → Sender → Sender
scroll out distance s = send out (input (mouse (pos 0) (pos 0) 0x800 (dword distance))) s

unfoldable pub hscroll : Outside → ℤ → Sender → Sender
hscroll out distance s = send out (input (mouse (pos 0) (pos 0) 0x1000 (dword distance))) s

-- WHEEL_DELTA times 100.
abbrev pub max_windows_wheel_distance : ℤ
max_windows_wheel_distance = pos 12000

-- The two calls that follow a conversion of both axes.
unfoldable pub scroll_axes : Outside → ℤ → ℤ → Sender → Sender
unfolding scroll hscroll
scroll_axes out horizontal vertical s =
    let t = if eqb_ℤ horizontal (pos 0) then s else hscroll out horizontal s in
    if eqb_ℤ vertical (pos 0) then t else scroll out vertical t

module _ (d : Doubles) where
  open d use {D, of_int, is_finite, one_d, clamp_d, mul_d, round}

  unfoldable pub logical_scroll_to_windows_wheel : D → Bool → ℤ
  logical_scroll_to_windows_wheel logical_distance invert =
      if not (is_finite logical_distance)
      then pos 0
      else let direction = if invert then of_int (negsuc 0) else one_d in
        round (
          clamp_d (mul_d logical_distance direction) (of_int (neg max_windows_wheel_distance))
            (of_int max_windows_wheel_distance))

  unfoldable pub perform_mouse_scroll : Outside → D → D → Sender → Sender
  unfolding logical_scroll_to_windows_wheel scroll_axes
  perform_mouse_scroll out dx dy s =
      scroll_axes out (logical_scroll_to_windows_wheel dx false)
        (logical_scroll_to_windows_wheel dy true) s

  -- `truncate` is the conversion of a double to a LONG. MOUSEEVENTF_MOVE.
  unfoldable pub perform_mouse_move_relative : Outside → (D → ℤ) → D → D → Sender → Sender
  perform_mouse_move_relative out truncate x y s =
      send out (input (mouse (truncate x) (truncate y) 0x1 0)) s

  -- MOUSEEVENTF_MOVE, MOUSEEVENTF_ABSOLUTE and MOUSEEVENTF_VIRTUALDESK.
  unfoldable pub perform_mouse_move_absl :
      Outside → Metrics → List MonitorInfo → D → D → ℤ → Sender → Sender
  unfolding adjust_to_virtual_desktop
  perform_mouse_move_absl out m monitors x y screen_id s =
      elim (adjust_to_virtual_desktop d m monitors screen_id x y) [
        | none ↦ s
        | some p ↦ send out (input (mouse p.x p.y 0xc001 0)) s
      ]
