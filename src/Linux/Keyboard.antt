-- ===== src/Linux/Keyboard.antt =====
-- linux/linux_keyboard.h: the virtual keyboard.
--
-- The map from virtual keys to Linux codes (inputtino) is a parameter, an association list in the
-- order of its iteration; so are the answers of libevdev.
pub mod Mirror
pub mod Outcomes
mod Tests
use hardware_simulator.Prelude.{
  ℕ, ◌*◌, Bool, false, not, Option, none, some, List, [], ◌∷◌, map, ltb, ◌==◌, if◌then◌else◌,
  is_some, bool_eq, contains, set_insert, set_erase,
}
use hardware_simulator.Prelude.Int.{ℤ, pos, negsuc, is_negative}
use hardware_simulator.Linux.Uinput.{Uinput, Answers, write_event, ev_key, syn_report, fresh_uinput}

-- What lies outside: `key_mappings`, `libevdev_new`, `libevdev_uinput_create_from_device`, and the
-- writes.
pub record Evdev : Type 0 where
  pub key_mappings : List (ℕ × ℕ)
  pub new_device : Bool
  pub create_result : ℤ
  pub answer : Answers

-- `device` holds the codes that the created device has enabled.
pub record LinuxKeyboard : Type 0 where
  pub sync_pending : Bool
  pub device : Option (List ℕ)
  pub pressed : List ℕ

abbrev pub new_keyboard : LinuxKeyboard
new_keyboard = record { sync_pending = false; device = none; pressed = [] }

-- The keyboard and the kernel's side of it.
pub record System : Type 0 where
  pub keyboard : LinuxKeyboard
  pub open keyboard use *
  pub uinput : Uinput

abbrev pub new_system : System
new_system = record { keyboard = new_keyboard; uinput = fresh_uinput }

abbrev pub find_mapping : ℕ → List (ℕ × ℕ) → Option ℕ
find_mapping k [] = none
find_mapping k ((j, c) ∷ m) = if j == k then some c else find_mapping k m

abbrev pub einval : ℤ
einval = negsuc 21

abbrev pub enomem : ℤ
enomem = negsuc 11

-- The calls that a client can make.
pub data Command : Type 0 where
  press_or_release : ℤ → Bool → Command
  clear_all : Command

module _ (env : Evdev) where
  -- `vk` is the `int` of the call.
  unfoldable pub keycode : ℤ → ℕ
  keycode (negsuc n) = 0
  keycode (pos n) =
      if ltb 0xff n then 0 else elim (find_mapping n env.key_mappings) [ none ↦ 0 | some c ↦ c ]

  unfoldable pub initialize : LinuxKeyboard → LinuxKeyboard × ℤ
  initialize k =
      if is_some k.device
      then (k, pos 0)
      else if not env.new_device
      then (k, enomem)
      else if is_negative env.create_result
      then (k, env.create_result)
      else (record k { device = some (map (λ e. e.1) env.key_mappings) }, env.create_result)

  unfoldable pub synchronize : System → System × ℤ
  synchronize s =
      let (u, r) = write_event env.answer s.uinput syn_report in
      (record { keyboard = record (s.keyboard) { sync_pending = is_negative r }; uinput = u }, r)

  -- The body of `send` once the device is there.
  unfoldable pub send_key : System → ℕ → Bool → System × ℤ
  unfolding synchronize
  send_key s code down =
      if bool_eq down (contains code s.pressed)
      then if s.sync_pending then synchronize s else (s, pos 0)
      else let (u, r) = write_event env.answer s.uinput (ev_key code (if down then 1 else 0)) in
        if is_negative r
        then (record s { uinput = u }, r)
        else let pressed = if down then set_insert code s.pressed else set_erase code s.pressed in
          synchronize (record { keyboard = record (s.keyboard) { pressed = pressed }; uinput = u })

  unfoldable pub send : System → ℤ → Bool → System × ℤ
  send s vk down =
      let code = keycode vk in
      if code == 0
      then (s, einval)
      else let (k, init) = initialize s.keyboard in
        if is_negative init
        then (record s { keyboard = k }, init)
        else send_key (record s { keyboard = k }) code down

  -- One round of the loop of `clear`, over a key that is still held.
  abbrev pub release_one : System × ℤ → ℕ → System × ℤ
  release_one (s, error) code =
      let (u, r) = write_event env.answer s.uinput (ev_key code 0) in
      if is_negative r then (record s { uinput = u }, r) else (
        record {
          keyboard = record (s.keyboard) { pressed = set_erase code s.pressed };
          uinput = u;
        },
        error,
      )

  unfoldable pub release_all : List ℕ → System × ℤ → System × ℤ
  release_all [] s = s
  release_all (code ∷ codes) s = release_all codes (release_one s code)

  unfoldable pub clear : System → System × ℤ
  clear s =
      let (s', error) = release_all s.pressed (s, pos 0) in
      if is_some s'.device
      then (let (s'', r) = synchronize s' in (s'', if is_negative r then r else error))
      else (s', error)

  unfoldable pub run_command : System → Command → System
  run_command s (press_or_release vk down) = (send s vk down).0
  run_command s clear_all = (clear s).0

  unfoldable pub run : System → List Command → System
  run s [] = s
  run s (c ∷ cs) = run (run_command s c) cs
