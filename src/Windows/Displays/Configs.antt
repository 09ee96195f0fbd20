-- ===== src/Windows/Displays/Configs.antt =====
-- windows/virtual_display_control.cc: the custom configurations in the registry.
--
-- The subkeys 0 to 4 of the driver's key are a list of five, each missing or with its values. What the
-- registry answers is a parameter; the results of `RegSetValueExW` and `RegDeleteKeyW` are ignored.
pub mod Kept
use hardware_simulator.Prelude.{
  ℕ, suc, Bool, true, false, not, Option, none, some, List, [], ◌∷◌, if◌then◌else◌, ◌>>=◌,
}
use hardware_simulator.Prelude.Int.{ℤ}
use hardware_simulator.Windows.Service.Bytes.{u32}
use hardware_simulator.Windows.Service.Control.{DisplayConfig, int_of}

-- The values `width`, `height` and `hz` of a subkey.
pub record Subkey : Type 0 where
  pub stored_width : Option ℕ
  pub stored_height : Option ℕ
  pub stored_hz : Option ℕ

-- By the number of the subkey; a write also by the number of the value.
pub record RegistryAnswers : Type 0 where
  pub key_opens : Bool
  pub subkey_opens : ℕ → Bool
  pub deletes : ℕ → Bool
  pub writes : ℕ → ℕ → Bool

abbrev no_values : Subkey
no_values = record { stored_width = none; stored_height = none; stored_hz = none }

-- What a subkey has, or has when it is made.
abbrev pub made : Option Subkey → Subkey
made none = no_values
made (some k) = k

module _ (reg : RegistryAnswers) where
  abbrev write_value : ℕ → ℕ → ℤ → Option ℕ → Option ℕ
  write_value i n value old = if reg.writes i n then some (u32 value) else old

  abbrev pub write_subkey : ℕ → DisplayConfig → Subkey → Subkey
  write_subkey i c k = record {
    stored_width = write_value i 0 c.width k.stored_width;
    stored_height = write_value i 1 c.height k.stored_height;
    stored_hz = write_value i 2 c.refresh_rate k.stored_hz;
  }

  -- The loop from the subkey `i` on, over the subkeys that are left.
  unfoldable pub set_subkeys :
      ℕ → List DisplayConfig → List (Option Subkey) → Bool × List (Option Subkey)
  set_subkeys i cs [] = (true, [])
  set_subkeys i [] (k ∷ ks) =
      let rest = set_subkeys (suc i) [] ks in (rest.0, (if reg.deletes i then none else k) ∷ rest.1)
  set_subkeys i (c ∷ cs) (k ∷ ks) =
      let rest = set_subkeys (suc i) cs ks in
      if reg.subkey_opens i
      then (rest.0, some (write_subkey i c (made k)) ∷ rest.1)
      else (false, k ∷ ks)

  unfoldable pub set_custom_display_configs :
      List DisplayConfig → List (Option Subkey) → Bool × List (Option Subkey)
  unfolding set_subkeys
  set_custom_display_configs cs ks = if not reg.key_opens then (false, ks) else set_subkeys 0 cs ks

  -- A subkey with its three values.
  abbrev pub config_of : Subkey → Option DisplayConfig
  config_of k = do
    w ← k.stored_width
    h ← k.stored_height
    hz ← k.stored_hz
    some (record { width = int_of w; height = int_of h; refresh_rate = int_of hz })

  abbrev pub cons_config : Option DisplayConfig → List DisplayConfig → List DisplayConfig
  cons_config none cs = cs
  cons_config (some c) cs = c ∷ cs

  unfoldable pub get_subkeys : ℕ → List (Option Subkey) → List DisplayConfig
  get_subkeys i [] = []
  get_subkeys i (none ∷ ks) = get_subkeys (suc i) ks
  get_subkeys i (some k ∷ ks) =
      let rest = get_subkeys (suc i) ks in
      if reg.subkey_opens i then cons_config (config_of k) rest else rest

  unfoldable pub get_custom_display_configs : List (Option Subkey) → List DisplayConfig
  unfolding get_subkeys
  get_custom_display_configs ks = if not reg.key_opens then [] else get_subkeys 0 ks
