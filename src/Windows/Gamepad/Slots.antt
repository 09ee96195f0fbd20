-- ===== src/Windows/Gamepad/Slots.antt =====
-- Which slot a new pad takes.
use hardware_simulator.Prelude.{
  ℕ, zero, suc, ◌+◌, ◌≤◌, ◌<◌, ◌≡◌, refl, ap, ◌∙◌, ◌≢◌, inl, inr, true, false, ◌∷◌, arith, ◌==◌,
  if◌then◌else◌, Bool-cases, if_true,
}
use hardware_simulator.Prelude.Int.{ℤ, pos, negsuc}
use hardware_simulator.Windows.Gamepad.{
  put, Manager, Creation, create_in, create_game_controller, added,
}

-- What a creation does when slot `i` is the lowest free one.
abbrev pub taken_at : ℕ → Creation → Manager → ℤ × Manager
taken_at i c m = (
  if c.accepts then pos (i + 1) else negsuc 0,
  record m { controllers = put i c.pad m.controllers; log = added c.pad ∷ m.log },
)

create_in_lem :
    (left i j : ℕ) (c : Creation) (m : Manager)
    → i ≤ j
    → j < i + left
    → ((k : ℕ) → i ≤ k → k < j → m.controllers k ≢ 0)
    → m.controllers j ≡ 0
    → create_in left i c m ≡ taken_at j c m
unfolding create_in
create_in_lem zero i j c m l u t f = absurd (omega arith)
create_in_lem (suc left) i j c m l u t f = elim (Bool-cases (i == j)) [
  | inl e ↦
      let same : i ≡ j = ground arith in
      let z : (m.controllers i == 0) ≡ true =
        let q : m.controllers i ≡ 0 = ap m.controllers same ∙ f in ground arith in
      rw (z) (ap (λ k. taken_at k c m) same)
  | inr e ↦
      let z : (m.controllers i == 0) ≡ false =
        let q : m.controllers i ≢ 0 = t i (omega arith) (ground arith) in ground (arith, q) in
      rw (z) (
        create_in_lem left (i + 1) j c m (ground arith) (omega arith) (λ k a b. t k (omega arith) b)
          f)
]

create_in_full :
    (left i : ℕ) (c : Creation) (m : Manager)
    → ((k : ℕ) → i ≤ k → k < i + left → m.controllers k ≢ 0)
    → create_in left i c m ≡ (negsuc 0, m)
unfolding create_in
create_in_full zero i c m t = refl
create_in_full (suc left) i c m t =
    let z : (m.controllers i == 0) ≡ false = ground (arith, t i (omega arith) (omega arith)) in
    rw (z) (create_in_full left (i + 1) c m (λ k a b. t k (omega arith) (omega arith)))

-- Once ViGEm is connected, a creation takes the lowest free slot, whether ViGEm accepts the pad, and
-- then answers its id, or refuses it, and then answers -1.
pub create_game_controller_takes :
    (j : ℕ) (c : Creation) (m : Manager)
    → m.initialized ≡ true
    → j < 4
    → ((k : ℕ) → k < j → m.controllers k ≢ 0)
    → m.controllers j ≡ 0
    → create_game_controller c m ≡ taken_at j c m
unfolding create_game_controller
create_game_controller_takes j c m i l t f =
    if_true m.initialized _ _ i
    ∙ (create_in_lem 4 0 j c m (omega arith) (omega arith) (λ k a b. t k b) f)

-- With four pads, a creation answers -1 and changes nothing.
pub create_game_controller_full :
    (c : Creation) (m : Manager)
    → m.initialized ≡ true
    → ((k : ℕ) → k < 4 → m.controllers k ≢ 0)
    → create_game_controller c m ≡ (negsuc 0, m)
unfolding create_game_controller
create_game_controller_full c m i t =
    if_true m.initialized _ _ i ∙ (create_in_full 4 0 c m (λ k a b. t k (omega arith)))
