-- ===== src/Windows/Tracking/Clearing.antt =====
-- The release of everything: what it leaves when it ends, and when it does not.
use hardware_simulator.Prelude.{
  ℕ, suc, ◌≡◌, refl, sym, ap, ◌∙◌, inl, inr, Bool, true, false, not, ◌&&◌, Option, none, some, List,
  [], ◌∷◌, ◌==◌, if◌then◌else◌, is_some, ==_iff, Bool-cases, if_both, ◌>>=◌, if_cases, if_true,
  if_false, All,
}
use hardware_simulator.Prelude.Int.{ℤ}
use mathlib.Core.Path.{subst}
use hardware_simulator.Linux.Values.{Doubles}
use hardware_simulator.Windows.Pointer.{Metrics}
use hardware_simulator.Windows.Injection.{input, Outside, send}
use hardware_simulator.Windows.Injection.Keys.{key_input}
use hardware_simulator.Windows.Injection.Pointers.{PenInfo}
use hardware_simulator.Windows.Tracking.{
  KeyState, TouchState, Tracking, find_key, erase_key, note_key, perform_key_event,
}
use hardware_simulator.Windows.Tracking.Touch.{perform_touch_event}
use hardware_simulator.Windows.Tracking.Pen.{
  PenDoubles, send_pen_input, has_active_pen_pointer, clear_active_pen_pointer,
}
use hardware_simulator.Windows.Tracking.Repeat.{
  release_keys, release_touches, release_buttons, clear_order, clear_pen_and_buttons,
  clear_all_pressed_events,
}
use hardware_simulator.Windows.Tracking.Phases.{PenPhase, away, RestsIn, pen_of}
use hardware_simulator.Windows.Tracking.Phases.Others.{
  Alike, Apart, pen_and_keys, perform_key_event-Alike, perform_touch_event-Apart,
}
use hardware_simulator.Windows.Tracking.Phases.Steps.{left, same_phase}

-- A conditional result that is there.
there {ℓ} :
    {A : Type ℓ} (b : Bool) (o : Option A) (a : A) → (if b then o else none) ≡ some a → o ≡ some a
there true o a e = e
there false o a e = let z : none ≡ some a = e in absurd (cc)

not_some {ℓ} : {A : Type ℓ} (o : Option A) → is_some o ≡ false → o ≡ none
not_some none e = refl
not_some (some a) e = let z : true ≡ false = e in absurd (cc)

head_erased :
    (k : ℕ) (st : KeyState) (rest : List (ℕ × KeyState))
    → find_key k rest ≡ none
    → find_key k (erase_key k ((k, st) ∷ rest)) ≡ none
head_erased k st rest h = ap (find_key k) (if_true (k == k) rest _ ((==_iff k k).1 refl)) ∙ h

-- A `do` step that is there.
bound {ℓ κ} :
    {A : Type ℓ} {B : Type κ} (o : Option A) (f : A → Option B) (b : B)
    → (o >>= f) ≡ some b
    → (a : A) × (o ≡ some a) × (f a ≡ some b)
bound none f b e = let z : none ≡ some b = e in absurd (cc)
bound (some a) f b e = (a, refl, e)

module _ (d : Doubles) (pd : PenDoubles d.D) (out : Outside) (m : Metrics) where
  open d use {D}

  release_keys-Alike :
      (now : ℕ) (ks : List (ℕ × KeyState)) (s t : Tracking D)
      → release_keys d out m now ks s ≡ some t
      → Alike d out m s t
  unfolding release_keys
  release_keys-Alike now [] s t e = let same : s ≡ t = cc in ap pen_of (sym same)
  release_keys-Alike now ((k, st) ∷ ks) s t e =
      let u = if st.is_down then perform_key_event out k false false now s else s in
      release_keys-Alike now ks u t (there _ _ t e)
      ∙ if_both (Alike d out m s) st.is_down _ s
          (perform_key_event-Alike d out m k false false now s) refl

  release_touches-Apart :
      (now : ℕ) (cs : List (ℕ × TouchState D)) (s t : Tracking D)
      → release_touches d out m now cs s ≡ some t
      → Apart d out m s t
  unfolding release_touches
  release_touches-Apart now [] s t e = let same : s ≡ t = cc in ap (pen_and_keys d out m) (sym same)
  release_touches-Apart now ((id, c) ∷ cs) s t e =
      let u =
        if c.touch_is_down
        then perform_touch_event d out m c.touch_screen c.touch_x c.touch_y id false false now s
        else s in
      release_touches-Apart now cs u t (there _ _ t e)
      ∙ if_both (Apart d out m s) c.touch_is_down _ s
          (perform_touch_event-Apart d out m c.touch_screen c.touch_x c.touch_y id false false now
            s)
          refl

  -- Nothing is tracked, and the pen is away.
  abbrev pub IsClear : Tracking D → Type 0
  IsClear s = (s.key_states ≡ []) × (s.touch_states ≡ []) × RestsIn d pd out m away s

  release_buttons-IsClear :
      (held : ℤ → Bool) (bs : List ℤ) (s : Tracking D)
      → IsClear s
      → IsClear (release_buttons d out m held bs s)
  unfolding release_buttons
  release_buttons-IsClear held [] s h = h
  release_buttons-IsClear held (b ∷ bs) s h =
      release_buttons-IsClear held bs _ (if_both IsClear (held b) _ s h h)

  clear_active_pen_pointer-IsClear :
      (s : Tracking D) (ph : PenPhase)
      → s.key_states ≡ []
      → s.touch_states ≡ []
      → RestsIn d pd out m ph s
      → IsClear (clear_active_pen_pointer out s)
  unfolding clear_active_pen_pointer send_pen_input
  clear_active_pen_pointer-IsClear s ph k c h = (
    if_both (λ (t : Tracking D). t.key_states ≡ []) _ s _ k k,
    if_both (λ (t : Tracking D). t.touch_states ≡ []) _ s _ c c,
    left d pd out m s ph h,
  )

  clear_pen_and_buttons-IsClear :
      (held : ℤ → Bool) (s : Tracking D) (ph : PenPhase)
      → s.key_states ≡ []
      → s.touch_states ≡ []
      → RestsIn d pd out m ph s
      → IsClear (clear_pen_and_buttons d out m held s)
  unfolding clear_pen_and_buttons clear_active_pen_pointer
  clear_pen_and_buttons-IsClear held s ph k c h =
      let active = has_active_pen_pointer s in
      let u = if active then clear_active_pen_pointer out s else s in
      let cleared = clear_active_pen_pointer-IsClear s ph k c h in
      let rests : IsClear u =
        if_cases IsClear active (clear_active_pen_pointer out s) s (λ a. cleared)
          (λ n. subst IsClear (if_true (not active) s _ (ap not n)) cleared) in
      let t = release_buttons d out m held clear_order u in
      let q = release_buttons-IsClear held clear_order u rests in
      if_both IsClear active (record t { cursor_syncs = suc t.cursor_syncs }) t q q

  -- When the release of everything ends, no key and no contact is tracked, and the pen is away, if it
  -- rested in some phase before.
  pub clear_all_pressed_events-IsClear :
      (held : ℤ → Bool) (now : ℕ) (s t : Tracking D) (ph : PenPhase)
      → RestsIn d pd out m ph s
      → clear_all_pressed_events d out m held now s ≡ some t
      → IsClear t
  unfolding clear_all_pressed_events
  clear_all_pressed_events-IsClear held now s t ph h e =
      let first = bound (release_keys d out m now s.key_states s) _ t e in
      let u : Tracking D = record (first.0) { key_states = []; last_known_key_down = 0 } in
      let second = bound (release_touches d out m now u.touch_states u) _ t first.2 in
      let v : Tracking D = second.0 in
      let apart : pen_and_keys d out m v ≡ pen_and_keys d out m u =
        release_touches-Apart now u.touch_states u v second.1 in
      let kept : pen_of v ≡ pen_of s =
        ap (λ (q : (PenInfo × ℕ) × List (ℕ × KeyState)). q.0) apart
        ∙ release_keys-Alike now s.key_states s (first.0) first.1 in
      let w : Tracking D = record v { touch_states = [] } in
      let ended : clear_pen_and_buttons d out m held w ≡ t = cc second.2 in
      subst IsClear ended (
        clear_pen_and_buttons-IsClear held w ph
          (ap (λ (q : (PenInfo × ℕ) × List (ℕ × KeyState)). q.1) apart) refl
          (same_phase d pd out m ph s w kept h))

  -- The end of a key leaves no entry for it.
  noted_up :
      (k now : ℕ) (s : Tracking D)
      → find_key k (erase_key k s.key_states) ≡ none
      → find_key k (note_key k false now s).key_states ≡ none
  unfolding note_key
  noted_up k now s h =
      if_cases (λ (t : Tracking D). find_key k t.key_states ≡ none)
        (is_some (find_key k s.key_states)) _ s (λ y. h) (λ n. not_some (find_key k s.key_states) n)

  erased :
      (k now : ℕ) (s : Tracking D)
      → s.auto_repeat_enabled ≡ true
      → find_key k (erase_key k s.key_states) ≡ none
      → find_key k (perform_key_event out k false false now s).key_states ≡ none
  unfolding perform_key_event
  erased k now s on h =
      let t : Tracking D = record s {
        sender = send out (input (key_input out k false)) s.sender;
      } in
      if_cases (λ (t : Tracking D). find_key k t.key_states ≡ none)
        (s.auto_repeat_enabled && not false) (note_key k false now t) t (λ y. noted_up k now t h)
        (λ f. let z : true ≡ false = sym (ap (λ b. b && true) on) ∙ f in absurd (cc))

  stuck :
      (now k : ℕ) (st : KeyState) (ks rest : List (ℕ × KeyState)) (s : Tracking D)
      → ks ≡ (k, st) ∷ rest
      → s.auto_repeat_enabled ≡ true
      → st.is_down ≡ true
      → find_key k (erase_key k s.key_states) ≡ none
      → release_keys d out m now ks s ≡ none
  unfolding release_keys
  stuck now k st ks rest s e on down fresh =
      let u = if st.is_down then perform_key_event out k false false now s else s in
      let same : u ≡ perform_key_event out k false false now s = if_true st.is_down _ s down in
      let gone : find_key k u.key_states ≡ none =
        ap (λ (t : Tracking D). find_key k t.key_states) same ∙ erased k now s on fresh in
      ap (λ l. release_keys d out m now l s) e
      ∙ if_false (is_some (find_key k u.key_states)) _ none (ap is_some gone)

  -- With a key held down and the repetition on, the release goes on from an entry that it has erased.
  pub held_key_undefined :
      (held : ℤ → Bool) (now k : ℕ) (st : KeyState) (rest : List (ℕ × KeyState)) (s : Tracking D)
      → s.auto_repeat_enabled ≡ true
      → s.key_states ≡ (k, st) ∷ rest
      → st.is_down ≡ true
      → find_key k rest ≡ none
      → clear_all_pressed_events d out m held now s ≡ none
  unfolding clear_all_pressed_events
  held_key_undefined held now k st rest s on ks down fresh =
      rw
        (
          clear_all_pressed_events,
          stuck now k st s.key_states rest s ks on down
              (ap (λ l. find_key k (erase_key k l)) ks ∙ head_erased k st rest fresh),
        )
        refl

  -- No number has two entries.
  abbrev pub IsUnique : List (ℕ × KeyState) → Type 0
  IsUnique ks = (k : ℕ) → find_key k (erase_key k ks) ≡ none

  abbrev pub IsUp : ℕ × KeyState → Type 0
  IsUp e = e.1.is_down ≡ false

  -- The loop over the keys ends only past keys that are up, and leaves the state.
  release_keys_ends :
      (now : ℕ) (ks : List (ℕ × KeyState)) (s t : Tracking D)
      → s.auto_repeat_enabled ≡ true
      → IsUnique s.key_states
      → release_keys d out m now ks s ≡ some t
      → All IsUp ks × (t ≡ s)
  unfolding release_keys
  release_keys_ends now [] s t on u e = (tt, (let same : s ≡ t = cc in sym same))
  release_keys_ends now ((k, st) ∷ ks) s t on u e = elim (Bool-cases st.is_down) [
    | inl down ↦
        let z : none ≡ some t = sym (stuck now k st ((k, st) ∷ ks) ks s refl on down (u k)) ∙ e in
        absurd (cc)
    | inr up ↦
        let v = if st.is_down then perform_key_event out k false false now s else s in
        let same : v ≡ s = if_false st.is_down _ s up in
        let more : release_keys d out m now ks s ≡ some t =
          subst (λ w. release_keys d out m now ks w ≡ some t) same (there _ _ t e) in
        let rest = release_keys_ends now ks s t on u more in ((up, rest.0), rest.1)
  ]

  -- With the repetition on, and no number with two entries, the release of everything ends only where no
  -- key was down; then the pen is away, if it rested in some phase before.
  pub clear_all_pressed_events_ends :
      (held : ℤ → Bool) (now : ℕ) (s t : Tracking D) (ph : PenPhase)
      → s.auto_repeat_enabled ≡ true
      → IsUnique s.key_states
      → RestsIn d pd out m ph s
      → clear_all_pressed_events d out m held now s ≡ some t
      → All IsUp s.key_states × RestsIn d pd out m away t
  unfolding clear_all_pressed_events
  clear_all_pressed_events_ends held now s t ph on u h e =
      let first = bound (release_keys d out m now s.key_states s) _ t e in
      (
        (release_keys_ends now s.key_states s (first.0) on u first.1).0,
        (clear_all_pressed_events-IsClear held now s t ph h e).2,
      )
