-- ===== src/Linux/Capture/Reseed.antt =====
-- linux/linux_pointer_capture.cc: the release that puts the pointer at a position of the view, and the
-- calls of the class.
use hardware_simulator.Prelude.{
  Bool, false, not, ◌||◌, Option, none, some, List, [], ◌∷◌, if◌then◌else◌,
}
use hardware_simulator.Prelude.Int.{ℤ, pos, ◌-ℤ◌, eqb_ℤ}
use hardware_simulator.Linux.Values.{Doubles}
use hardware_simulator.Linux.Capture.{Impl, ungrab, position_hint, warp, Reason, released, release}

-- What the code asks about the view and its window. `parents` holds a map of coordinates for each
-- window without a native one, up to the first that has one.
pub record Surface (d : Doubles) : Type 0 where
  pub owner_is_widget : Bool
  pub offset : Option (ℤ × ℤ)
  pub allocated_width : ℤ
  pub allocated_height : ℤ
  pub parents : List (d.D × d.D → d.D × d.D)
  pub on_wayland : Bool
  pub scale_factor : ℤ

module _ (d : Doubles) where
  open d use {D, of_int, is_finite, zero_d, one_d, min_d, clamp_d, add_d, mul_d, round}

  -- `offset + min(clamp(x, 0, 1) * size, size - 1)`
  abbrev pub on_view : ℤ → ℤ → D → D
  on_view offset size x =
      add_d (of_int offset)
        (min_d (mul_d (clamp_d x zero_d one_d) (of_int size)) (of_int (size -ℤ pos 1)))

  abbrev pub to_native : List (D × D → D × D) → D × D → D × D
  to_native [] p = p
  to_native (f ∷ fs) p = to_native fs (f p)

  abbrev pub put_pointer : Surface d → D × D → Impl D → Impl D
  put_pointer w (px, py) s =
      if w.on_wayland
      then release released (if s.locked then record s { log = position_hint px py ∷ s.log } else s)
      else release released (record s {
        active = false;
        grabbed = false;
        log =
            warp (round (mul_d px (of_int w.scale_factor)))
              (round (mul_d py (of_int w.scale_factor)))
            ∷ ungrab
            ∷ s.log;
      })

  abbrev pub translated : Surface d → D → D → Option (ℤ × ℤ) → Impl D → Impl D
  translated w x y none s = release released s
  translated w x y (some (ox, oy)) s =
      put_pointer w
        (to_native w.parents (on_view ox w.allocated_width x, on_view oy w.allocated_height y)) s

  unfoldable pub reseed_and_release : Surface d → D → D → Impl D → Impl D
  reseed_and_release w x y s =
      if not s.active
        || not s.window
        || not s.view
        || s.window_destroyed
        || not (is_finite x)
        || not (is_finite y)
      then release released s
      else translated w x y (if w.owner_is_widget then w.offset else none) s

  unfoldable pub unlock : Reason → Impl D → Impl D
  unlock reason s = release reason s

  unfoldable pub unlock_generation : ℤ → Impl D → Impl D
  unlock_generation g s = if eqb_ℤ s.generation g then release released s else s

  unfoldable pub unlock_and_reseed_generation : ℤ → Surface d → D → D → Impl D → Impl D
  unfolding reseed_and_release
  unlock_and_reseed_generation g w x y s =
      if eqb_ℤ s.generation g then reseed_and_release w x y s else s
