-- ===== src/Windows/Displays/Configs/Kept.antt =====
-- The configurations that are set are those that are got.
use hardware_simulator.Prelude.{
  ℕ, suc, ◌+◌, ◌-◌, ◌^◌, ◌<◌, ◌≡◌, refl, ap, ◌∙◌, true, Option, some, List, [], ◌∷◌, arith,
  if◌then◌else◌, length, take, All,
}
use hardware_simulator.Prelude.Int.{ℤ, pos, negsuc, pos_part, neg_part, is_negative}
use hardware_simulator.Windows.Service.Bytes.{u32}
use hardware_simulator.Windows.Service.Control.{DisplayConfig, int_of}
use hardware_simulator.Windows.Displays.Configs.{
  Subkey, RegistryAnswers, made, write_subkey, set_subkeys, set_custom_display_configs, config_of,
  cons_config, get_subkeys, get_custom_display_configs,
}

-- A value of an `int`.
abbrev pub IsInt : ℤ → Type 0
IsInt z = pos_part z + neg_part z - (if is_negative z then 1 else 0) < 2 ^ 31

abbrev pub IsIntConfig : DisplayConfig → Type 0
IsIntConfig c = IsInt c.width × IsInt c.height × IsInt c.refresh_rate

cast_back : (z : ℤ) → IsInt z → int_of (u32 z) ≡ z
cast_back (pos n) h = ground (arith, h)
cast_back (negsuc n) h = ground (arith, h)

-- The registry does what it is asked.
pub record Willing (reg : RegistryAnswers) : Type 0 where
  pub opens : reg.key_opens ≡ true
  pub subkeys : (i : ℕ) → reg.subkey_opens i ≡ true
  pub deleted : (i : ℕ) → reg.deletes i ≡ true
  pub written : (i n : ℕ) → reg.writes i n ≡ true

module _ (reg : RegistryAnswers) (w : Willing reg) where
  rest_empty :
      (i : ℕ) (ks : List (Option Subkey)) → get_subkeys reg i (set_subkeys reg i [] ks).1 ≡ []
  unfolding get_subkeys set_subkeys
  rest_empty i [] = refl
  rest_empty i (k ∷ ks) = rw (w.deleted i) (rest_empty (suc i) ks)

  written_back :
      (i : ℕ) (c : DisplayConfig) (k : Subkey)
      → IsIntConfig c
      → config_of reg (write_subkey reg i c k) ≡ some c
  written_back i c k h =
      rw
        (
          w.written i 0,
          w.written i 1,
          w.written i 2,
          cast_back c.width h.0,
          cast_back c.height h.1,
          cast_back c.refresh_rate h.2,
        )
        refl

  got_back :
      (i : ℕ) (cs : List DisplayConfig) (ks : List (Option Subkey))
      → All IsIntConfig cs
      → get_subkeys reg i (set_subkeys reg i cs ks).1 ≡ take (length ks) cs
  unfolding get_subkeys set_subkeys
  got_back i cs [] h = refl
  got_back i [] (k ∷ ks) h = rw (w.deleted i) (rest_empty (suc i) ks)
  got_back i (c ∷ cs) (k ∷ ks) h =
      rw (w.subkeys i, w.subkeys i)
        (ap (λ o. cons_config reg o (get_subkeys reg (suc i) (set_subkeys reg (suc i) cs ks).1))
            (written_back i c (made k) h.0)
          ∙ ap (λ l. c ∷ l) (got_back (suc i) cs ks h.1))

  accepts_all :
      (i : ℕ) (cs : List DisplayConfig) (ks : List (Option Subkey))
      → (set_subkeys reg i cs ks).0 ≡ true
  unfolding set_subkeys
  accepts_all i cs [] = refl
  accepts_all i [] (k ∷ ks) = accepts_all (suc i) [] ks
  accepts_all i (c ∷ cs) (k ∷ ks) = rw (w.subkeys i) (accepts_all (suc i) cs ks)

  -- Where the registry does what it is asked, the configurations that are set, each value one of an
  -- `int`, are got back, as many as there are subkeys, whatever the subkeys held before.
  pub get_custom_display_configs-set :
      (cs : List DisplayConfig) (ks : List (Option Subkey))
      → All IsIntConfig cs
      → let r = set_custom_display_configs reg cs ks in
        (r.0 ≡ true) × (get_custom_display_configs reg r.1 ≡ take (length ks) cs)
  unfolding get_custom_display_configs set_custom_display_configs
  get_custom_display_configs-set cs ks h = rw (w.opens) (accepts_all 0 cs ks, got_back 0 cs ks h)
