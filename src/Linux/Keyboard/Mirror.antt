-- ===== src/Linux/Keyboard/Mirror.antt =====
-- The set of held keys that the plugin keeps mirrors the kernel's.
use hardware_simulator.Prelude.{
  ℕ, ◌≡◌, inl, inr, Bool, List, [], ◌∷◌, arith, ◌==◌, is_some, Bool-cases, contains,
  contains-set_insert, contains-set_erase,
}
use hardware_simulator.Prelude.Int.{ℤ, pos, is_negative}
use hardware_simulator.Linux.Uinput.{key_down}
use hardware_simulator.Linux.Keyboard.{
  Evdev, LinuxKeyboard, System, Command, press_or_release, clear_all, keycode, synchronize,
  send_key, send, initialize, release_one, release_all, clear, run_command, run,
}

-- For every code, the plugin holds it exactly if the kernel does.
abbrev pub Mirrors : System → Type 0
Mirrors s = (c : ℕ) → contains c s.pressed ≡ key_down c s.uinput.accepted

module _ (env : Evdev) where
  synchronize-Mirrors : (s : System) → Mirrors s → Mirrors (synchronize env s).0
  unfolding synchronize
  synchronize-Mirrors s h c = ground (arith, h c)

  send_key-Mirrors :
      (s : System) (code : ℕ) (down : Bool) → Mirrors s → Mirrors (send_key env s code down).0
  unfolding send_key
  send_key-Mirrors s code down h c =
      ground (arith, h c, contains-set_insert c code s.pressed, contains-set_erase c code s.pressed)

  pub initialize_pressed : (k : LinuxKeyboard) → (initialize env k).0.pressed ≡ k.pressed
  unfolding initialize
  initialize_pressed k = ground arith

  send-Mirrors : (s : System) (vk : ℤ) (down : Bool) → Mirrors s → Mirrors (send env s vk down).0
  unfolding send
  send-Mirrors s vk down h = elim (Bool-cases (keycode env vk == 0)) [
    | inl unmapped ↦ rw (unmapped, send) h
    | inr mapped ↦
        rw (mapped, send)
          (elim (Bool-cases (is_negative (initialize env s.keyboard).1)) [
            | inl failed ↦ rw failed created
            | inr done ↦ rw done (send_key-Mirrors _ (keycode env vk) down created)
          ])
  ]
    where
      created : Mirrors (record s { keyboard = (initialize env s.keyboard).0 })
      created c = ground (arith, h c, initialize_pressed s.keyboard)

  release_one-Mirrors :
      (s : System) (e : ℤ) (code : ℕ) → Mirrors s → Mirrors (release_one env (s, e) code).0
  release_one-Mirrors s e code h c = ground (arith, h c, contains-set_erase c code s.pressed)

  release_all-Mirrors :
      (codes : List ℕ) (s : System × ℤ) → Mirrors s.0 → Mirrors (release_all env codes s).0
  unfolding release_all
  release_all-Mirrors [] s h = h
  release_all-Mirrors (code ∷ codes) (s, e) h =
      release_all-Mirrors codes (release_one env (s, e) code) (release_one-Mirrors s e code h)

  clear-Mirrors : (s : System) → Mirrors s → Mirrors (clear env s).0
  unfolding clear
  clear-Mirrors s h =
      let (s', e) = release_all env s.pressed (s, pos 0) in
      let all = release_all-Mirrors s.pressed (s, pos 0) h in
      elim (Bool-cases (is_some s'.device)) [
        | inl ready ↦ rw ready (synchronize-Mirrors s' all)
        | inr closed ↦ rw closed all
      ]

  run_command-Mirrors : (s : System) (c : Command) → Mirrors s → Mirrors (run_command env s c)
  unfolding run_command
  run_command-Mirrors s (press_or_release vk down) h = send-Mirrors s vk down h
  run_command-Mirrors s clear_all h = clear-Mirrors s h

  -- Whatever the device answers, a run of calls that starts with no key held keeps the two sets equal.
  pub run-Mirrors : (s : System) (cs : List Command) → Mirrors s → Mirrors (run env s cs)
  unfolding run
  run-Mirrors s [] h = h
  run-Mirrors s (c ∷ cs) h = run-Mirrors (run_command env s c) cs (run_command-Mirrors s c h)
