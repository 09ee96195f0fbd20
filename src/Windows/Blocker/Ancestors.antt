-- ===== src/Windows/Blocker/Ancestors.antt =====
-- When the target is in front: when it is the foreground window or an ancestor of it.
use hardware_simulator.Prelude.{
  ℕ, zero, suc, ◌+◌, ◌≤◌, ◌<◌, ◌≡◌, refl, ◌∙◌, ◌≢◌, ◌↔◌, Bool, true, false, arith, ◌==◌, if_both,
  if_cases, if_true, if_false,
}
use hardware_simulator.Windows.Blocker.{Blocker, Desktop, walk, is_target_window_active}

-- The windows from which a window is reached through parents; none is the null window.
pub data Reaches (parent : ℕ → ℕ) (target : ℕ) : ℕ → Type 0 where
  here : (w : ℕ) → w ≢ 0 → w ≡ target → Reaches parent target w
  above : (w : ℕ) → w ≢ 0 → Reaches parent target (parent w) → Reaches parent target w

-- The windows form a tree: a parent is less deep than its child.
abbrev pub IsTree : Desktop → Type 0
IsTree d = (w : ℕ) → w ≢ 0 → d.parent w ≢ 0 → d.depth (d.parent w) < d.depth w

not_null : (parent : ℕ → ℕ) (target current : ℕ) → Reaches parent target current → current ≢ 0
not_null parent target current (here w n e) = n
not_null parent target current (above w n r) = n

target_not_null : (parent : ℕ → ℕ) (target current : ℕ) → Reaches parent target current → target ≢ 0
target_not_null parent target current (here w n e) z = n (e ∙ z)
target_not_null parent target current (above w n r) z = target_not_null parent target (parent w) r z

walk-Reaches :
    (fuel : ℕ) (parent : ℕ → ℕ) (target current : ℕ)
    → walk fuel parent target current ≡ true
    → Reaches parent target current
unfolding walk
walk-Reaches zero parent target current e = absurd (cc)
walk-Reaches (suc fuel) parent target current e =
    let P : Bool → Type 0 = λ x. x ≡ true → Reaches parent target current in
    if_cases P (current == 0) _ _ (λ z q. absurd (cc))
      (λ z.
        let n : current ≢ 0 = λ y. absurd (ground arith) in
        if_cases P (current == target) _ _ (λ y q. here current n (ground arith))
          (λ y q. above current n (walk-Reaches fuel parent target (parent current) q)))
      e

Reaches-walk :
    (fuel target : ℕ) (d : Desktop) (current : ℕ)
    → IsTree d
    → d.depth current + 2 ≤ fuel
    → Reaches d.parent target current
    → walk fuel d.parent target current ≡ true
unfolding walk
Reaches-walk zero target d current t l r = absurd (omega arith)
Reaches-walk (suc fuel) target d current t l (here w n e) =
    let z : (w == 0) ≡ false = ground (arith, n) in
    let y : (w == target) ≡ true = ground (arith, e) in
    if_false (w == 0) _ _ z ∙ if_true (w == target) _ _ y
Reaches-walk (suc fuel) target d current t l (above w n r) =
    let z : (w == 0) ≡ false = ground (arith, n) in
    let less = t w n (not_null d.parent target (d.parent w) r) in
    let later = Reaches-walk fuel target d (d.parent w) t (omega (arith, less, l)) r in
    if_false (w == 0) _ _ z ∙ if_both (λ x. x ≡ true) (w == target) _ _ refl later

-- In a tree of windows `IsTargetWindowActive` answers true exactly if the target is the window in front
-- or an ancestor of it; the walk ends within the depth of that window.
pub is_target_window_active_iff :
    (d : Desktop) (b : Blocker)
    → IsTree d
    → (is_target_window_active d b ≡ true) ↔ Reaches d.parent b.target_window d.foreground
unfolding is_target_window_active
is_target_window_active_iff d b t = (
  if_cases (λ x. x ≡ true → Reaches d.parent b.target_window d.foreground) (b.target_window == 0) _
      _ (λ z q. absurd (cc))
      (λ z. walk-Reaches (d.depth d.foreground + 2) d.parent b.target_window d.foreground),
  λ r.
      let n = target_not_null d.parent b.target_window d.foreground r in
      let z : (b.target_window == 0) ≡ false = ground (arith, n) in
      if_false (b.target_window == 0) _ _ z
      ∙ Reaches-walk (d.depth d.foreground + 2) b.target_window d d.foreground t (omega arith) r,
)
