-- ===== src/Windows/Blocker.antt =====
-- windows/SmartKeyboardBlocker.h and .cpp: the keys that are kept from the system while the plugin's
-- window is in front.
--
-- A window is a number, 0 the null one. What Windows answers is a `Desktop`; the depth of a window in
-- the tree of windows is the fuel of the walk to its ancestors.
pub mod Reports
pub mod Ancestors
mod Tests
use hardware_simulator.Prelude.{
  ℕ, zero, suc, ◌+◌, Bool, true, false, not, ◌&&◌, ◌||◌, List, [], ◌∷◌, ◌==◌, if◌then◌else◌,
  bool_eq,
}

pub data Effect : Type 0 where
  hooked unhooked : Effect
  ime_off ime_default : ℕ → Effect
  -- A change of a key's state, with whether a callback was there to be told.
  changed : ℕ → Bool → Bool → Effect

pub record Blocker : Type 0 where
  pub hook : Bool
  pub target_window : ℕ
  pub callback : Bool
  pub key_states : ℕ → Bool
  pub log : List Effect

abbrev pub new_blocker : Blocker
new_blocker = record {
  hook = false;
  target_window = 0;
  callback = false;
  key_states = λ k. false;
  log = [];
}

pub record Window : Type 0 where
  pub handle : ℕ
  pub is_own : Bool
  pub visible : Bool
  pub has_parent : Bool
  pub titled : Bool

-- The windows in the order of `EnumWindows`, the window in front, the parents, the modifiers held, and
-- whether the hook can be installed.
pub record Desktop : Type 0 where
  pub windows : List Window
  pub foreground : ℕ
  pub parent : ℕ → ℕ
  pub depth : ℕ → ℕ
  pub menu_down : Bool
  pub control_down : Bool
  pub hook_made : Bool

unfoldable pub get_main_window : List Window → ℕ
get_main_window [] = 0
get_main_window (w ∷ ws) =
    let rest = get_main_window ws in
    if w.is_own && w.visible && not w.has_parent && w.titled then w.handle else rest

-- `StartBlocking` with the window that it has chosen.
unfoldable pub start_for : Desktop → ℕ → Bool → Blocker → Bool × Blocker
start_for d window callback b =
    let t = record b { target_window = window; callback = callback } in
    if window == 0
    then (false, t)
    else if d.hook_made
    then (true, record t { hook = true; log = hooked ∷ ime_off window ∷ b.log })
    else (false, record t { log = ime_off window ∷ b.log })

unfoldable pub start_blocking : Desktop → ℕ → Bool → Blocker → Bool × Blocker
unfolding get_main_window start_for
start_blocking d target callback b =
    if b.hook
    then (true, b)
    else start_for d (if target == 0 then get_main_window d.windows else target) callback b

unfoldable pub stop_blocking : Blocker → Blocker
stop_blocking b =
    if b.hook
    then record b {
      hook = false;
      target_window = 0;
      callback = false;
      key_states = λ k. false;
      log =
          if b.target_window == 0
          then unhooked ∷ b.log
          else ime_default b.target_window ∷ unhooked ∷ b.log;
    }
    else b

abbrev pub vk_tab : ℕ
vk_tab = 0x09

abbrev pub vk_escape : ℕ
vk_escape = 0x1b

abbrev pub vk_lwin : ℕ
vk_lwin = 0x5b

abbrev pub vk_rwin : ℕ
vk_rwin = 0x5c

abbrev pub vk_f4 : ℕ
vk_f4 = 0x73

abbrev pub vk_rcontrol : ℕ
vk_rcontrol = 0xa3

abbrev pub vk_lmenu : ℕ
vk_lmenu = 0xa4

abbrev pub vk_rmenu : ℕ
vk_rmenu = 0xa5

unfoldable pub should_block_key : Desktop → ℕ → Bool
should_block_key d vk =
    if vk == vk_lwin || vk == vk_rwin
    then true
    else if vk == vk_lmenu
    then true
    else if vk == vk_rmenu
    then true
    else if vk == vk_rcontrol
    then true
    else if vk == vk_tab
    then d.menu_down
    else if vk == vk_f4
    then d.menu_down
    else if vk == vk_escape
    then d.control_down && d.menu_down
    else false

-- The walk from a window to the target; `fuel` is more than the windows on the way.
unfoldable pub walk : ℕ → (ℕ → ℕ) → ℕ → ℕ → Bool
walk zero parent target current = false
walk (suc fuel) parent target current =
    let rest = walk fuel parent target (parent current) in
    if current == 0 then false else if current == target then true else rest

unfoldable pub is_target_window_active : Desktop → Blocker → Bool
unfolding walk
is_target_window_active d b =
    if b.target_window == 0
    then false
    else walk (d.depth d.foreground + 2) d.parent b.target_window d.foreground

abbrev pub set_key : ℕ → Bool → (ℕ → Bool) → ℕ → Bool
set_key vk down states k = if k == vk then down else states k

-- A key that is kept from the system; the callback is told of changes only.
unfoldable pub note_key : ℕ → Bool → Blocker → Blocker
note_key vk down b = if bool_eq (b.key_states vk) down then b else record b {
  key_states = set_key vk down b.key_states;
  log = changed vk down b.callback ∷ b.log;
}

-- `KeyboardHookProc` for a code that is not negative: whether the key is kept from the system.
unfoldable pub keyboard_hook_proc : Desktop → ℕ → Bool → Blocker → Bool × Blocker
unfolding is_target_window_active should_block_key note_key
keyboard_hook_proc d vk down b =
    if not b.hook
    then (false, b)
    else if not (is_target_window_active d b)
    then (false, b)
    else if should_block_key d vk
    then (true, note_key vk down b)
    else (false, b)

pub data Event : Type 0 where
  start : Desktop → ℕ → Bool → Event
  stop : Event
  set_callback : Bool → Event
  key : Desktop → ℕ → Bool → Event

unfoldable pub step : Event → Blocker → Blocker
step (start d target callback) b = (start_blocking d target callback b).1
step stop b = stop_blocking b
step (set_callback callback) b = record b { callback = callback }
step (key d vk down) b = (keyboard_hook_proc d vk down b).1

unfoldable pub run : List Event → Blocker → Blocker
run [] b = b
run (e ∷ es) b = run es (step e b)
