-- ===== src/Linux/Keyboard/Outcomes.antt =====
-- What the result of a keyboard call says about the keys that are held.
use hardware_simulator.Prelude.{
  ℕ, ◌≡◌, refl, ap, ◌∙◌, ◌≢◌, Bool, false, not, ◌&&◌, List, [], ◌∷◌, arith, contains, set_erase,
  contains-set_insert, contains-set_erase,
}
use hardware_simulator.Prelude.Int.{ℤ, pos, is_negative}
use hardware_simulator.Linux.Keyboard.{
  Evdev, System, keycode, initialize, synchronize, send_key, send, release_one, release_all, clear,
}
use hardware_simulator.Linux.Keyboard.Mirror.{initialize_pressed}

abbrev IsSettled : System → System → ℕ → Bool → Type 0
IsSettled s t code down =
    (contains code t.pressed ≡ down)
    × (t.sync_pending ≡ false)
    × ((j : ℕ) → j ≢ code → contains j t.pressed ≡ contains j s.pressed)

module _ (env : Evdev) where
  send_key_settles :
      (s : System) (code : ℕ) (down : Bool)
      → is_negative (send_key env s code down).1 ≡ false
      → IsSettled s (send_key env s code down).0 code down
  unfolding send_key synchronize
  send_key_settles s code down ok = (
    ground (arith, contains-set_insert code code s.pressed, contains-set_erase code code s.pressed),
    ground arith,
    λ j ne.
        ground (arith, contains-set_insert j code s.pressed, contains-set_erase j code s.pressed),
  )

  -- A `send` with no error got past the map and the creation of the device.
  send_runs :
      (s : System) (vk : ℤ) (down : Bool)
      → is_negative (send env s vk down).1 ≡ false
      → send env s vk down
        ≡ send_key env (record s { keyboard = (initialize env s.keyboard).0 }) (keycode env vk) down
  unfolding send
  send_runs s vk down ok = ground arith

  -- A `send` that reports no error leaves exactly the named key in the wanted state, every other key
  -- as it was, and no synchronisation pending.
  pub send_settles :
      (s : System) (vk : ℤ) (down : Bool)
      → is_negative (send env s vk down).1 ≡ false
      → IsSettled s (send env s vk down).0 (keycode env vk) down
  send_settles s vk down ok =
      let e = send_runs s vk down ok in
      let settled =
        send_key_settles (record s { keyboard = (initialize env s.keyboard).0 }) (keycode env vk)
          down (rw (← e) ok) in
      rw e (
        settled.0,
        settled.1,
        λ j ne. settled.2 j ne ∙ ap (contains j) (initialize_pressed env s.keyboard),
      )

  release_one_error :
      (s : System) (e : ℤ) (code : ℕ)
      → is_negative (release_one env (s, e) code).1 ≡ false
      → (is_negative e ≡ false)
        × ((release_one env (s, e) code).0.pressed ≡ set_erase code s.pressed)
  release_one_error s e code ok = ground arith

  release_all_error :
      (codes : List ℕ) (s : System) (e : ℤ)
      → is_negative (release_all env codes (s, e)).1 ≡ false
      → (is_negative e ≡ false)
        × ((j : ℕ)
            → contains j (release_all env codes (s, e)).0.pressed
              ≡ (not (contains j codes) && contains j s.pressed))
  unfolding release_all
  release_all_error [] s e ok = (ok, λ j. refl)
  release_all_error (code ∷ codes) s e ok =
      let (s', e') = release_one env (s, e) code in
      let (kept, rest) = release_all_error codes s' e' ok in
      let (earlier, erased) = release_one_error s e code kept in
      (earlier, λ j. ground (arith, rest j, erased, contains-set_erase j code s.pressed))

  no_elements : (xs : List ℕ) → ((j : ℕ) → contains j xs ≡ false) → xs ≡ []
  no_elements [] h = refl
  no_elements (x ∷ xs) h = absurd (ground (arith, h x))

  -- A `clear` that reports no error has released every key.
  pub clear_releases :
      (s : System) → is_negative (clear env s).1 ≡ false → (clear env s).0.pressed ≡ []
  unfolding clear synchronize
  clear_releases s ok =
      let kept : is_negative (release_all env s.pressed (s, pos 0)).1 ≡ false = ground arith in
      no_elements _ (λ j. ground (arith, (release_all_error s.pressed s (pos 0) kept).1 j))
