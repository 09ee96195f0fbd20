-- ===== src/Windows/Service/Configs.antt =====
-- The display configurations of a request, read back from a response.
use hardware_simulator.Prelude.{
  ℕ, zero, suc, ◌%◌, ◌^◌, ◌<◌, ◌≡◌, refl, sym, ap, ◌∙◌, inl, inr, Bool, true, false, ◌&&◌, ◌||◌,
  Option, none, some, List, [], ◌∷◌, ◌++◌, arith, ltb, ◌==◌, if◌then◌else◌, Bool-cases,
  Option-cases, if_true, if_false, length, All,
}
use hardware_simulator.Prelude.Int.{ℤ, pos, negsuc, pos_part, ltb_ℤ}
use hardware_simulator.Windows.Service.Bytes.{le32, u32, le32_value, le32_value_lem}
use hardware_simulator.Windows.Service.Control.{
  DisplayConfig, int_of, read_config, read_configs, parse_configs, is_valid_config, config_bytes,
  configs_bytes, configs_request, add_config, max_custom_display_configs,
}

-- A value of an `int` that is positive.
abbrev pub IsSmall : ℤ → Type 0
IsSmall z = pos_part z < 2 ^ 31

abbrev pub IsSmallConfig : DisplayConfig → Type 0
IsSmallConfig d = IsSmall d.width × IsSmall d.height × IsSmall d.refresh_rate

int_of-u32 : (z : ℤ) → ltb_ℤ (pos 0) z ≡ true → IsSmall z → int_of (u32 z) ≡ z
int_of-u32 (pos n) p s =
    if_true (ltb (n % 2 ^ 32) (2 ^ 31)) _ _ (ground (arith, s)) ∙ ap pos (omega (arith, s))
int_of-u32 (negsuc n) p s = absurd (ground arith)

u32_positive : (z : ℤ) → ltb_ℤ (pos 0) z ≡ true → IsSmall z → (u32 z == 0) ≡ false
u32_positive (pos n) p s = ground (arith, s)
u32_positive (negsuc n) p s = absurd (ground arith)

u32_fits : (z : ℤ) → u32 z < 2 ^ 32
u32_fits (pos n) = omega arith
u32_fits (negsuc n) = omega arith

read_config_lem :
    (d : DisplayConfig) (rest : List ℕ)
    → read_config (config_bytes d ++ rest)
      ≡ some ((u32 d.width, u32 d.height, u32 d.refresh_rate), rest)
unfolding read_config
read_config_lem d rest =
    ap (λ k. some ((k, le32_value (u32 d.height), le32_value (u32 d.refresh_rate)), rest))
      (le32_value_lem (u32 d.width) (u32_fits d.width))
    ∙ ap (λ k. some ((u32 d.width, k, le32_value (u32 d.refresh_rate)), rest))
        (le32_value_lem (u32 d.height) (u32_fits d.height))
    ∙ ap (λ k. some ((u32 d.width, u32 d.height, k), rest))
        (le32_value_lem (u32 d.refresh_rate) (u32_fits d.refresh_rate))

valid_bytes :
    (v : Bool) (x bytes : List ℕ)
    → (if v then some x else none) ≡ some bytes
    → (v ≡ true) × (x ≡ bytes)
valid_bytes true x bytes e = (refl, cc)
valid_bytes false x bytes e = absurd (cc)

and_true : (a b : Bool) → a && b ≡ true → (a ≡ true) × (b ≡ true)
and_true true b e = (refl, e)
and_true false b e = absurd (cc)

read_one :
    (d : DisplayConfig) (ds : List DisplayConfig) (b : List ℕ)
    → is_valid_config d ≡ true
    → IsSmallConfig d
    → read_configs (length ds) b ≡ (true, ds)
    → read_configs (suc (length ds)) (config_bytes d ++ b) ≡ (true, d ∷ ds)
unfolding read_configs
read_one d ds b v s later =
    let wh =
      and_true (ltb_ℤ (pos 0) d.width && ltb_ℤ (pos 0) d.height) (ltb_ℤ (pos 0) d.refresh_rate) v in
    let each = and_true (ltb_ℤ (pos 0) d.width) (ltb_ℤ (pos 0) d.height) wh.0 in
    let w = u32 d.width in
    let h = u32 d.height in
    let r = u32 d.refresh_rate in
    let rest = read_configs (length ds) b in
    let no_zero : w == 0 || h == 0 || r == 0 ≡ false =
      rw
        (
          u32_positive d.width each.0 s.0,
          u32_positive d.height each.1 s.1,
          u32_positive d.refresh_rate wh.1 s.2,
        )
        refl in
    ap (λ k. add_config k (le32_value h) (le32_value r) rest) (le32_value_lem w (u32_fits d.width))
    ∙ ap (λ k. add_config w k (le32_value r) rest) (le32_value_lem h (u32_fits d.height))
    ∙ ap (λ k. add_config w h k rest) (le32_value_lem r (u32_fits d.refresh_rate))
    ∙ ap (λ x. add_config w h r x) later
    ∙ if_false (w == 0 || h == 0 || r == 0) _ _ no_zero
    ∙ ap (λ k. (true, record { width = k; height = int_of h; refresh_rate = int_of r } ∷ ds))
        (int_of-u32 d.width each.0 s.0)
    ∙ ap (λ k. (true, record { width = d.width; height = k; refresh_rate = int_of r } ∷ ds))
        (int_of-u32 d.height each.1 s.1)
    ∙ ap (λ k. (true, record { width = d.width; height = d.height; refresh_rate = k } ∷ ds))
        (int_of-u32 d.refresh_rate wh.1 s.2)

read_configs-configs_bytes :
    (room : ℕ) (ds : List DisplayConfig) (bytes : List ℕ)
    → All IsSmallConfig ds
    → configs_bytes room ds ≡ some bytes
    → read_configs (length ds) bytes ≡ (true, ds)
unfolding read_configs configs_bytes
read_configs-configs_bytes room [] bytes s e = refl
read_configs-configs_bytes zero (d ∷ ds) bytes s e = absurd (cc)
read_configs-configs_bytes (suc room) (d ∷ ds) bytes s e =
    elim (Option-cases (configs_bytes room ds)) [
      | inl z ↦
          let q : configs_bytes (suc room) (d ∷ ds) ≡ none = rw (configs_bytes, z) refl in
          let n : none ≡ some bytes = sym q ∙ e in absurd (cc)
      | inr (b, z) ↦
          let q : configs_bytes (suc room) (d ∷ ds)
              ≡ (if is_valid_config d then some (config_bytes d ++ b) else none) =
            rw (configs_bytes, z) refl in
          let v = valid_bytes (is_valid_config d) (config_bytes d ++ b) bytes (sym q ∙ e) in
          let later = read_configs-configs_bytes room ds b s.1 z in
          ap (λ x. read_configs (suc (length ds)) x) (sym v.1) ∙ read_one d ds b v.0 s.0 later
    ]

-- What `SetCustomDisplayConfigs` sends is what `GetCustomDisplayConfigs` reads from the same payload,
-- whatever the caller's list held, for sizes and rates of an `int`.
pub parse_configs-configs_request :
    (ds old : List DisplayConfig) (bytes : List ℕ)
    → All IsSmallConfig ds
    → configs_request ds ≡ some bytes
    → parse_configs bytes old ≡ (true, ds)
unfolding parse_configs configs_request
parse_configs-configs_request ds old bytes s e =
    elim (Bool-cases (ltb max_custom_display_configs (length ds))) [
      | inl many ↦
          let q : none ≡ some bytes =
            sym (if_true (ltb max_custom_display_configs (length ds)) none _ many) ∙ e in
          absurd (cc)
      | inr few ↦
          let q = sym (if_false (ltb max_custom_display_configs (length ds)) none _ few) ∙ e in
          filled (configs_bytes max_custom_display_configs ds) refl q few
    ]
  where
    filled :
        (o : Option (List ℕ))
        → configs_bytes max_custom_display_configs ds ≡ o
        → elim o [ none ↦ none | some b ↦ some (le32 (length ds) ++ b) ] ≡ some bytes
        → ltb max_custom_display_configs (length ds) ≡ false
        → parse_configs bytes old ≡ (true, ds)
    filled none z q few = absurd (cc)
    filled (some b) z q few =
        let same : le32 (length ds) ++ b ≡ bytes = cc in
        let small : length ds < 2 ^ 32 = ground (arith, few) in
        ap (λ x. parse_configs x old) (sym same)
        ∙ ap (λ k. if ltb max_custom_display_configs k then (false, old) else read_configs k b)
            (le32_value_lem (length ds) small)
        ∙ if_false (ltb max_custom_display_configs (length ds)) _ _ few
        ∙ read_configs-configs_bytes max_custom_display_configs ds b s z
