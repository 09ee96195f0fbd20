-- ===== src/Linux/Uinput.antt =====
-- A uinput device (libevdev, not part of the repository) as the code sees it: each write gets an
-- answer from the environment, and the kernel has accepted the events whose answer is no error.
use hardware_simulator.Prelude.{ℕ, suc, Bool, false, List, [], ◌∷◌, ◌==◌, if◌then◌else◌}
use hardware_simulator.Prelude.Int.{ℤ, is_negative}

-- The events that the sources write: `EV_KEY code value`, `EV_REL axis distance`, `SYN_REPORT`.
pub data UinputEvent : Type 0 where
  ev_key : ℕ → ℕ → UinputEvent
  ev_rel : ℕ → ℤ → UinputEvent
  syn_report : UinputEvent

-- The answer to the n-th write: the result of `libevdev_uinput_write_event`.
abbrev pub Answers : Type 0
Answers = ℕ → UinputEvent → ℤ

-- `accepted` is the kernel's history, newest first.
pub record Uinput : Type 0 where
  pub writes : ℕ
  pub accepted : List UinputEvent

abbrev pub fresh_uinput : Uinput
fresh_uinput = record { writes = 0; accepted = [] }

-- `libevdev_uinput_write_event`.
abbrev pub write_event : Answers → Uinput → UinputEvent → Uinput × ℤ
write_event answer u e =
    let r = answer u.writes e in
    (
      record {
        writes = suc u.writes;
        accepted = if is_negative r then u.accepted else e ∷ u.accepted;
      },
      r,
    )

-- Whether the kernel holds a key: the newest event on it decides.
abbrev pub key_down : ℕ → List UinputEvent → Bool
key_down c [] = false
key_down c (ev_key k v ∷ es) = if k == c then v == 1 else key_down c es
key_down c (ev_rel a d ∷ es) = key_down c es
key_down c (syn_report ∷ es) = key_down c es
