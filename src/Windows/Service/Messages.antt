-- ===== src/Windows/Service/Messages.antt =====
-- windows/desktop_service_input_client.cpp: the messages of the input pipe.
--
-- A 32-bit integer of a message is its unsigned value; `u32` makes it of a signed one.
use hardware_simulator.Prelude.{
  ℕ, zero, suc, ◌*◌, Bool, false, not, ◌||◌, Option, none, some, List, [], ◌∷◌, ◌++◌, ltb, ◌==◌,
  if◌then◌else◌, length,
}
use hardware_simulator.Prelude.Int.{ℤ}
use hardware_simulator.Windows.Service.{Packet, Client, enqueue}
use hardware_simulator.Windows.Service.Bytes.{le16, le32, u32}

abbrev pub msg_key_input : ℕ
msg_key_input = 0x02

abbrev pub msg_mouse_input : ℕ
msg_mouse_input = 0x03

abbrev pub msg_touch_input : ℕ
msg_touch_input = 0x06

abbrev pub msg_pen_input : ℕ
msg_pen_input = 0x07

abbrev pub max_touch_contacts : ℕ
max_touch_contacts = 10

-- `MsgHeader`.
abbrev pub header : ℕ → ℕ → ℕ → List ℕ
header type payload_size seq = le32 type ++ le32 payload_size ++ le32 seq

-- `INPUT` with its two kinds that are sent; a hardware input is not.
pub data Input : Type 0 where
  keyboard : ℕ → ℕ → ℕ → Input
  mouse : ℤ → ℤ → ℕ → ℕ → Input
  hardware : Input

abbrev pub keyboard_payload : ℕ → ℕ → ℕ → List ℕ
keyboard_payload vk scan_code flags = le16 vk ++ le16 scan_code ++ le32 flags

abbrev pub mouse_payload : ℤ → ℤ → ℕ → ℕ → List ℕ
mouse_payload dx dy flags info = le32 (u32 dx) ++ le32 (u32 dy) ++ le32 flags ++ le32 info

unfoldable pub send_input_message : Input → Client → Bool × Client
send_input_message i c = if not c.input_connected then (false, c) else elim i [
  | keyboard vk scan_code flags ↦
      enqueue (header msg_key_input 8 0 ++ keyboard_payload vk scan_code flags) c
  | mouse dx dy flags info ↦
      enqueue (header msg_mouse_input 16 0 ++ mouse_payload dx dy flags info) c
  | hardware ↦ (false, c)
]

-- What the messages carry of a `POINTER_TYPE_INFO`, in the order of the payload.
pub record TouchContact : Type 0 where
  pub pointer_id : ℕ
  pub pointer_flags : ℕ
  pub x : ℤ
  pub y : ℤ
  pub touch_flags : ℕ
  pub touch_mask : ℕ
  pub contact_left : ℤ
  pub contact_top : ℤ
  pub contact_right : ℤ
  pub contact_bottom : ℤ
  pub orientation : ℕ
  pub pressure : ℕ

pub record PenContact : Type 0 where
  pub pen_id : ℕ
  pub pen_pointer_flags : ℕ
  pub pen_x : ℤ
  pub pen_y : ℤ
  pub pen_flags : ℕ
  pub pen_mask : ℕ
  pub pen_pressure : ℕ
  pub rotation : ℤ
  pub tilt_x : ℤ
  pub tilt_y : ℤ

pub data Pointer : Type 0 where
  touch : TouchContact → Pointer
  pen : PenContact → Pointer
  other_pointer : Pointer

abbrev pub contact_bytes : TouchContact → List ℕ
contact_bytes t =
    le32 t.pointer_id
    ++ le32 t.pointer_flags
    ++ le32 (u32 t.x)
    ++ le32 (u32 t.y)
    ++ le32 t.touch_flags
    ++ le32 t.touch_mask
    ++ le32 (u32 t.contact_left)
    ++ le32 (u32 t.contact_top)
    ++ le32 (u32 t.contact_right)
    ++ le32 (u32 t.contact_bottom)
    ++ le32 t.orientation
    ++ le32 t.pressure

abbrev pub zeros : ℕ → List ℕ
zeros zero = []
zeros (suc n) = 0 ∷ zeros n

-- The loop over the contacts, with the room that is left; `none` at a pointer that is no touch.
unfoldable pub contacts_bytes : ℕ → List Pointer → Option (List ℕ)
contacts_bytes room [] = some (zeros (48 * room))
contacts_bytes zero (p ∷ ps) = none
contacts_bytes (suc room) (touch t ∷ ps) = elim (contacts_bytes room ps) [
  | none ↦ none
  | some bytes ↦ some (contact_bytes t ++ bytes)
]
contacts_bytes (suc room) (pen p ∷ ps) = none
contacts_bytes (suc room) (other_pointer ∷ ps) = none

unfoldable pub touch_message : List Pointer → Option Packet
unfolding contacts_bytes
touch_message ps = elim (contacts_bytes max_touch_contacts ps) [
  | none ↦ none
  | some bytes ↦ some (header msg_touch_input 484 0 ++ le32 (length ps) ++ bytes)
]

unfoldable pub send_touch_input : List Pointer → Client → Bool × Client
unfolding touch_message
send_touch_input ps c =
    if length ps == 0 || ltb max_touch_contacts (length ps)
    then (false, c)
    else if not c.input_connected
    then (false, c)
    else elim (touch_message ps) [ none ↦ (false, c) | some packet ↦ enqueue packet c ]

abbrev pub pen_payload : PenContact → List ℕ
pen_payload p =
    le32 p.pen_id
    ++ le32 p.pen_pointer_flags
    ++ le32 (u32 p.pen_x)
    ++ le32 (u32 p.pen_y)
    ++ le32 p.pen_flags
    ++ le32 p.pen_mask
    ++ le32 p.pen_pressure
    ++ le32 (u32 p.rotation)
    ++ le32 (u32 p.tilt_x)
    ++ le32 (u32 p.tilt_y)

unfoldable pub send_pen_input : Pointer → Client → Bool × Client
send_pen_input (pen p) c =
    if not c.input_connected
    then (false, c)
    else enqueue (header msg_pen_input 40 0 ++ pen_payload p) c
send_pen_input (touch t) c = (false, c)
send_pen_input other_pointer c = (false, c)
