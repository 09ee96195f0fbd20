-- ===== src/Windows/Service/Control.antt =====
-- windows/desktop_service_input_client.cpp: the requests on the control pipe.
--
-- A control request has its own connection, which it closes at the end. What the pipe answers is an
-- argument.
use hardware_simulator.Prelude.{
  ℕ, zero, suc, ◌+◌, ◌-◌, ◌*◌, ◌/◌, ◌%◌, ◌^◌, Bool, true, false, not, ◌&&◌, ◌||◌, Option, none,
  some, List, [], ◌∷◌, ◌++◌, ltb, ◌==◌, if◌then◌else◌, ◌>>=◌, length,
}
use hardware_simulator.Prelude.Int.{ℤ, pos, negsuc, ltb_ℤ}
use hardware_simulator.Windows.Service.Bytes.{le32, read32, u32}
use hardware_simulator.Windows.Service.Messages.{header, zeros}

abbrev pub max_message_size : ℕ
max_message_size = 4096

abbrev pub max_custom_display_configs : ℕ
max_custom_display_configs = 5

abbrev pub msg_get_custom_display_configs : ℕ
msg_get_custom_display_configs = 0x04

abbrev pub msg_set_custom_display_configs : ℕ
msg_set_custom_display_configs = 0x05

abbrev pub msg_custom_display_configs_resp : ℕ
msg_custom_display_configs_resp = 0x84

abbrev pub msg_bool_resp : ℕ
msg_bool_resp = 0x85

abbrev pub msg_error_resp : ℕ
msg_error_resp = 0xff

abbrev pub restore_request : Bool → ℕ
restore_request persist = if persist then 0x09 else 0x0a

abbrev pub restore_response : Bool → ℕ
restore_response persist = if persist then 0x89 else 0x8a

-- What the world answers to a request: whether the service is available and the pipe connects with its
-- two events, whether the request is written, and the bytes read.
pub record Wire : Type 0 where
  pub serves : Bool
  pub connects : Bool
  pub writes : Bool
  pub reads : Option (List ℕ)

-- `next_seq_`, and the requests written, the latest first.
pub record Control : Type 0 where
  pub next_seq : ℕ
  pub requests : List (List ℕ)

abbrev pub after_seq : ℕ → ℕ
after_seq n = if (n + 1) % 2 ^ 32 == 0 then 1 else (n + 1) % 2 ^ 32

pub record MsgHeader : Type 0 where
  pub type : ℕ
  pub payload_size : ℕ
  pub seq : ℕ

-- `memcpy` of a header, with the bytes after it; `none` on a message that is shorter.
abbrev pub read_header : List ℕ → Option (MsgHeader × List ℕ)
read_header bytes = do
  (type, b) ← read32 bytes
  (size, c) ← read32 b
  (seq, d) ← read32 c
  some (record { type = type; payload_size = size; seq = seq }, d)

abbrev pub is_response : MsgHeader → ℕ → ℕ → ℕ → ℕ → Bool
is_response h seq actual expected size =
    h.seq == seq
    && h.payload_size == actual
    && not (h.type == msg_error_resp)
    && h.type == expected
    && h.payload_size == size

-- `EnsureConnectedLocked`, on a connection that is new.
abbrev pub ensure_connected : Wire → Bool
ensure_connected w = w.serves && w.connects

-- What `ReadRawLocked` gives; a message of no bytes is a failure.
abbrev pub read_raw : Wire → Option (List ℕ)
read_raw w = elim w.reads [
  | none ↦ none
  | some bytes ↦ if length bytes == 0 then none else some bytes
]

-- The checks on the bytes of a response; what is copied is all that follows the header.
unfoldable pub accept_response : ℕ → ℕ → ℕ → List ℕ → Option (List ℕ)
accept_response seq expected size bytes = do
  (h, rest) ← read_header bytes
  if is_response h seq (length rest % 2 ^ 32) expected size then some rest else none

-- `ExchangeRawLocked`: the payload of the response.
unfoldable pub exchange : ℕ → List ℕ → ℕ → ℕ → Wire → Control → Option (List ℕ) × Control
unfolding accept_response
exchange type payload expected size w c =
    let t = record c {
      next_seq = after_seq c.next_seq;
      requests = (header type (length payload % 2 ^ 32) c.next_seq ++ payload) ∷ c.requests;
    } in
    if not w.writes
    then (none, t)
    else (read_raw w >>= (λ bytes. accept_response c.next_seq expected size bytes), t)

pub record DisplayConfig : Type 0 where
  pub width : ℤ
  pub height : ℤ
  pub refresh_rate : ℤ

-- The cast of a `uint32_t` to `int`.
abbrev pub int_of : ℕ → ℤ
int_of n = if ltb n (2 ^ 31) then pos n else negsuc (2 ^ 32 - 1 - n)

unfoldable pub read_config : List ℕ → Option ((ℕ × ℕ × ℕ) × List ℕ)
read_config bytes = do
  (w, b) ← read32 bytes
  (h, c) ← read32 b
  (r, d) ← read32 c
  some ((w, h, r), d)

-- One configuration before what the loop reads after it.
abbrev pub add_config : ℕ → ℕ → ℕ → Bool × List DisplayConfig → Bool × List DisplayConfig
add_config w h r later = if w == 0 || h == 0 || r == 0 then (false, []) else (
  later.0,
  record { width = int_of w; height = int_of h; refresh_rate = int_of r } ∷ later.1,
)

-- The loop over the configurations of the response; the list is what it has filled, also when it fails.
unfoldable pub read_configs : ℕ → List ℕ → Bool × List DisplayConfig
unfolding read_config
read_configs zero bytes = (true, [])
read_configs (suc n) bytes = elim (read_config bytes) [
  | none ↦ (false, [])
  | some ((w, h, r), rest) ↦ add_config w h r (read_configs n rest)
]

-- The payload of a response into the caller's list, which keeps its members when the count is refused.
unfoldable pub parse_configs : List ℕ → List DisplayConfig → Bool × List DisplayConfig
unfolding read_configs
parse_configs payload old = elim (read32 payload) [
  | none ↦ (false, old)
  | some (count, rest) ↦
      if ltb max_custom_display_configs count then (false, old) else read_configs count rest
]

-- `GetCustomDisplayConfigs` on the caller's list.
unfoldable pub get_custom_display_configs :
    Wire → List DisplayConfig → Control → (Bool × List DisplayConfig) × Control
unfolding exchange parse_configs
get_custom_display_configs w old c =
    if not (ensure_connected w)
    then ((false, old), c)
    else let r =
        exchange msg_get_custom_display_configs [] msg_custom_display_configs_resp 64 w c in
      (elim r.0 [ none ↦ (false, old) | some payload ↦ parse_configs payload old ], r.1)

abbrev pub is_valid_config : DisplayConfig → Bool
is_valid_config d = ltb_ℤ (pos 0) d.width && ltb_ℤ (pos 0) d.height && ltb_ℤ (pos 0) d.refresh_rate

abbrev pub config_bytes : DisplayConfig → List ℕ
config_bytes d = le32 (u32 d.width) ++ le32 (u32 d.height) ++ le32 (u32 d.refresh_rate)

-- The loop that fills the request, with the room that is left; `none` at a configuration that is refused.
unfoldable pub configs_bytes : ℕ → List DisplayConfig → Option (List ℕ)
configs_bytes room [] = some (zeros (12 * room))
configs_bytes zero (d ∷ ds) = none
configs_bytes (suc room) (d ∷ ds) = elim (configs_bytes room ds) [
  | none ↦ none
  | some bytes ↦ if is_valid_config d then some (config_bytes d ++ bytes) else none
]

unfoldable pub configs_request : List DisplayConfig → Option (List ℕ)
unfolding configs_bytes
configs_request ds =
    if ltb max_custom_display_configs (length ds)
    then none
    else elim (configs_bytes max_custom_display_configs ds) [
      | none ↦ none
      | some bytes ↦ some (le32 (length ds) ++ bytes)
    ]

-- `SetCustomDisplayConfigs`: what it returns, and `success`.
unfoldable pub set_custom_display_configs :
    Wire → List DisplayConfig → Control → (Bool × Bool) × Control
unfolding exchange configs_request
set_custom_display_configs w ds c = elim (configs_request ds) [
  | none ↦ ((false, false), c)
  | some request ↦
      if not (ensure_connected w)
      then ((false, false), c)
      else let r = exchange msg_set_custom_display_configs request msg_bool_resp 4 w c in
        (
          elim (r.0 >>= (λ payload. read32 payload)) [
            | none ↦ (false, false)
            | some (ok, rest) ↦ (true, not (ok == 0))
          ],
          r.1,
        )
]

abbrev pub concat : List (List ℕ) → List ℕ
concat [] = []
concat (x ∷ xs) = x ++ concat xs

-- The payload of a restoration; a path has 72 bytes, a mode 64.
unfoldable pub restore_payload : List (List ℕ) → List (List ℕ) → Option (List ℕ)
restore_payload paths modes =
    if length paths == 0
      || length modes == 0
      || ltb (max_message_size / 72) (length paths)
      || ltb (max_message_size / 64) (length modes)
    then none
    else if ltb max_message_size (12 + (8 + length paths * 72 + length modes * 64))
    then none
    else some (le32 (length paths) ++ le32 (length modes) ++ concat paths ++ concat modes)

-- `RestoreDisplayConfiguration`: the status that the service answers, `none` when there is no answer.
unfoldable pub restore_display_configuration :
    Bool → List (List ℕ) → List (List ℕ) → Wire → Control → Option ℤ × Control
unfolding exchange restore_payload
restore_display_configuration persist paths modes w c = elim (restore_payload paths modes) [
  | none ↦ (none, c)
  | some payload ↦
      if not (ensure_connected w)
      then (none, c)
      else let r = exchange (restore_request persist) payload (restore_response persist) 4 w c in
        (r.0 >>= (λ bytes. read32 bytes >>= (λ (s : ℕ × List ℕ). some (int_of s.0))), r.1)
]
