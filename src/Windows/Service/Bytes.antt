-- ===== src/Windows/Service/Bytes.antt =====
-- Little-endian integers in the messages, as `memcpy` of a packed struct lays them out.
use hardware_simulator.Prelude.{
  ℕ, ◌+◌, ◌-◌, ◌*◌, ◌/◌, ◌%◌, ◌^◌, ◌<◌, ◌≡◌, ap, Option, none, some, List, [], ◌∷◌, ◌++◌, arith,
}
use hardware_simulator.Prelude.Int.{ℤ, pos, negsuc}

abbrev pub le16 : ℕ → List ℕ
le16 n = n % 256 ∷ n / 256 % 256 ∷ []

abbrev pub le32 : ℕ → List ℕ
le32 n = n % 256 ∷ n / 256 % 256 ∷ n / 65536 % 256 ∷ n / 16777216 % 256 ∷ []

-- The unsigned value of a 32-bit integer.
abbrev pub u32 : ℤ → ℕ
u32 (pos n) = n % 2 ^ 32
u32 (negsuc n) = 2 ^ 32 - 1 - n % 2 ^ 32

-- The value of the bytes that `le32` writes.
abbrev pub le32_value : ℕ → ℕ
le32_value n =
    n % 256 + n / 256 % 256 * 256 + n / 65536 % 256 * 65536 + n / 16777216 % 256 * 16777216

pub le32_value_lem : (n : ℕ) → n < 2 ^ 32 → le32_value n ≡ n
le32_value_lem n l = omega (arith, l)

-- `memcpy` of a `uint32_t` from the bytes at an offset; `none` when it would read past the end.
abbrev pub read32 : List ℕ → Option (ℕ × List ℕ)
read32 (a ∷ b ∷ c ∷ d ∷ rest) = some (a + b * 256 + c * 65536 + d * 16777216, rest)
read32 _ = none

pub read32-le32 : (n : ℕ) (rest : List ℕ) → n < 2 ^ 32 → read32 (le32 n ++ rest) ≡ some (n, rest)
read32-le32 n rest l = ap (λ k. some (k, rest)) (le32_value_lem n l)
