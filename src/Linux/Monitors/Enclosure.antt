-- ===== src/Linux/Monitors/Enclosure.antt =====
-- The rectangle of `get_root_bounds` is the least one that encloses every monitor.
use hardware_simulator.Prelude.{List, [], ◌∷◌, arith, All}
use hardware_simulator.Prelude.Int.{
  pos, ◌+ℤ◌, ◌-ℤ◌, ◌≤ℤ◌, min_ℤ, max_ℤ, +ℤ_parts, -ℤ_parts, min_ℤ_le, le_max_ℤ,
}
use hardware_simulator.Linux.Monitors.{
  MonitorBounds, Edges, edges_of, widen, widen_all, get_root_bounds,
}

-- A rectangle, by its corner and size, holds another.
pub record Encloses (r m : MonitorBounds) : Type 0 where
  pub from_left : r.x ≤ℤ m.x
  pub from_top : r.y ≤ℤ m.y
  pub to_right : m.x +ℤ m.width ≤ℤ r.x +ℤ r.width
  pub to_bottom : m.y +ℤ m.height ≤ℤ r.y +ℤ r.height

record Within (m : MonitorBounds) (e : Edges) : Type 0 where
  from_left : e.left ≤ℤ m.x
  from_top : e.top ≤ℤ m.y
  to_right : m.x +ℤ m.width ≤ℤ e.right
  to_bottom : m.y +ℤ m.height ≤ℤ e.bottom

Within-widen : (m n : MonitorBounds) (e : Edges) → Within m e → Within m (widen e n)
Within-widen m n e h = omega (
  arith,
  min_ℤ_le e.left n.x,
  min_ℤ_le e.top n.y,
  le_max_ℤ e.right (n.x +ℤ n.width),
  le_max_ℤ e.bottom (n.y +ℤ n.height),
)

Within-widen_self : (m : MonitorBounds) (e : Edges) → Within m (widen e m)
Within-widen_self m e = omega (
  arith,
  min_ℤ_le e.left m.x,
  min_ℤ_le e.top m.y,
  le_max_ℤ e.right (m.x +ℤ m.width),
  le_max_ℤ e.bottom (m.y +ℤ m.height),
)

Within-widen_all :
    (m : MonitorBounds) (e : Edges) (ms : List MonitorBounds)
    → Within m e
    → Within m (widen_all e ms)
unfolding widen_all
Within-widen_all m e [] h = h
Within-widen_all m e (n ∷ ms) h = Within-widen_all m (widen e n) ms (Within-widen m n e h)

All-Within : (e : Edges) (ms : List MonitorBounds) → All (λ m. Within m (widen_all e ms)) ms
unfolding widen_all
All-Within e [] = tt
All-Within e (m ∷ ms) =
    (Within-widen_all m (widen e m) ms (Within-widen_self m e), All-Within (widen e m) ms)

All-map {ℓ κ μ} :
    {A : Type ℓ} (P : A → Type κ) (Q : A → Type μ)
    → ((a : A) → P a → Q a)
    → (xs : List A) → All P xs
    → All Q xs
All-map P Q f [] h = tt
All-map P Q f (x ∷ xs) h = (f x h.0, All-map P Q f xs h.1)

-- Every monitor of the list lies in the rectangle.
pub get_root_bounds-Encloses :
    (ms : List MonitorBounds) → All (λ m. Encloses (get_root_bounds ms) m) ms
unfolding get_root_bounds
get_root_bounds-Encloses [] = tt
get_root_bounds-Encloses (m ∷ ms) =
    All-map _ _ (λ n w. encloses n w) (m ∷ ms) (All-Within (edges_of m) (m ∷ ms))
  where
    encloses :
        (n : MonitorBounds)
        → Within n (widen_all (edges_of m) (m ∷ ms))
        → Encloses (get_root_bounds (m ∷ ms)) n
    encloses n w =
        let e = widen_all (edges_of m) (m ∷ ms) in
        let wide = max_ℤ (pos 1) (e.right -ℤ e.left) in
        let high = max_ℤ (pos 1) (e.bottom -ℤ e.top) in
        omega (
          arith,
          +ℤ_parts e.left wide,
          +ℤ_parts e.top high,
          -ℤ_parts e.right e.left,
          -ℤ_parts e.bottom e.top,
          le_max_ℤ (pos 1) (e.right -ℤ e.left),
          le_max_ℤ (pos 1) (e.bottom -ℤ e.top),
        )

-- Edges inside the edges of `f`.
record Inside (f e : Edges) : Type 0 where
  left_of : f.left ≤ℤ e.left
  above : f.top ≤ℤ e.top
  right_of : e.right ≤ℤ f.right
  below : e.bottom ≤ℤ f.bottom

Inside-widen : (f e : Edges) (m : MonitorBounds) → Inside f e → Within m f → Inside f (widen e m)
unfolding min_ℤ max_ℤ
Inside-widen f e m h w = ground arith

Inside-widen_all :
    (f e : Edges) (ms : List MonitorBounds)
    → Inside f e
    → All (λ m. Within m f) ms
    → Inside f (widen_all e ms)
unfolding widen_all
Inside-widen_all f e [] h w = h
Inside-widen_all f e (m ∷ ms) h w = Inside-widen_all f (widen e m) ms (Inside-widen f e m h w.0) w.1

root-Within :
    (r m : MonitorBounds) (ms : List MonitorBounds)
    → pos 1 ≤ℤ m.width
    → pos 1 ≤ℤ m.height
    → Within m (widen_all (edges_of m) (m ∷ ms))
    → Inside (edges_of r) (widen_all (edges_of m) (m ∷ ms))
    → Encloses r (get_root_bounds (m ∷ ms))
unfolding get_root_bounds max_ℤ
root-Within r m ms w h inner outer =
    let e = widen_all (edges_of m) (m ∷ ms) in
    ground (
      arith,
      +ℤ_parts e.left (e.right -ℤ e.left),
      +ℤ_parts e.top (e.bottom -ℤ e.top),
      +ℤ_parts e.left (pos 1),
      +ℤ_parts e.top (pos 1),
      -ℤ_parts e.right e.left,
      -ℤ_parts e.bottom e.top,
      +ℤ_parts m.x m.width,
      +ℤ_parts m.y m.height,
    )

-- A rectangle that encloses every monitor encloses the root rectangle, where the first monitor is not
-- empty.
pub get_root_bounds_least :
    (r m : MonitorBounds) (ms : List MonitorBounds)
    → pos 1 ≤ℤ m.width
    → pos 1 ≤ℤ m.height
    → All (Encloses r) (m ∷ ms)
    → Encloses r (get_root_bounds (m ∷ ms))
get_root_bounds_least r m ms w h all = root-Within r m ms w h (All-Within (edges_of m) (m ∷ ms)).0 (
    Inside-widen_all (edges_of r) (edges_of m) (m ∷ ms) (omega arith)
      (All-map (Encloses r) _ (λ n e. omega arith) (m ∷ ms) all))
