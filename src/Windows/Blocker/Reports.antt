-- ===== src/Windows/Blocker/Reports.antt =====
-- The changes of the keys' states, and the callback that is told of them.
use hardware_simulator.Prelude.{
  ℕ, ◌+◌, ◌≡◌, refl, sym, ap, ◌∙◌, inl, inr, Bool, true, false, not, List, [], ◌∷◌, arith, ◌==◌,
  if◌then◌else◌, bool_eq, Bool-cases, if_both, if_cases, All,
}
use hardware_simulator.Windows.Blocker.{
  Effect, hooked, unhooked, ime_default, changed, Blocker, Desktop, get_main_window, start_blocking,
  start_for, stop_blocking, is_target_window_active, should_block_key, note_key, keyboard_hook_proc,
  Event, start, stop, set_callback, key, step, run,
}

-- The last state of a key in a log, the latest first, since the hook was last removed.
abbrev pub last_state : ℕ → List Effect → Bool
last_state k [] = false
last_state k (unhooked ∷ es) = false
last_state k (changed vk down told ∷ es) = if k == vk then down else last_state k es
last_state k (_ ∷ es) = last_state k es

-- Every change of a state, told or not, differs from the state before it.
abbrev pub IsAlternating : List Effect → Type 0
IsAlternating [] = Unit
IsAlternating (changed vk down told ∷ es) =
    (bool_eq (last_state vk es) down ≡ false) × IsAlternating es
IsAlternating (_ ∷ es) = IsAlternating es

abbrev pub hooks : List Effect → ℕ
hooks [] = 0
hooks (hooked ∷ es) = 1 + hooks es
hooks (_ ∷ es) = hooks es

abbrev pub unhooks : List Effect → ℕ
unhooks [] = 0
unhooks (unhooked ∷ es) = 1 + unhooks es
unhooks (_ ∷ es) = unhooks es

abbrev pub IsFaithful : Blocker → Type 0
IsFaithful b = record {
  states : (k : ℕ) → b.key_states k ≡ last_state k b.log;
  alternating : IsAlternating b.log;
  hook_count : hooks b.log ≡ unhooks b.log + (if b.hook then 1 else 0);
}

not-false : (b : Bool) → not b ≡ false → b ≡ true
not-false true e = refl
not-false false e = absurd (cc)

start-IsFaithful :
    (d : Desktop) (target : ℕ) (callback : Bool) (b : Blocker)
    → IsFaithful b
    → IsFaithful (start_blocking d target callback b).1
unfolding start_blocking start_for
start-IsFaithful d target callback b h =
    let P : Bool × Blocker → Type 0 = λ x. IsFaithful x.1 in
    let window = if target == 0 then get_main_window d.windows else target in
    if_cases P b.hook _ _ (λ e. h)
      (λ e. if_both P (window == 0) _ _ h (
        if_both P d.hook_made _ _
          (record {
            states = h.states;
            alternating = h.alternating;
            hook_count = ground (arith, h.hook_count, e);
          })
          h))

stop-IsFaithful : (b : Blocker) → IsFaithful b → IsFaithful (stop_blocking b)
unfolding stop_blocking
stop-IsFaithful b h =
    if_cases IsFaithful b.hook _ _
      (λ e. elim (Bool-cases (b.target_window == 0)) [
        | inl z ↦ rw (z) (record {
          states = λ k. refl;
          alternating = h.alternating;
          hook_count = ground (arith, h.hook_count, e);
        })
        | inr z ↦ rw (z) (record {
          states = λ k. refl;
          alternating = h.alternating;
          hook_count = ground (arith, h.hook_count, e);
        })
      ])
      (λ e. h)

note_key-IsFaithful :
    (vk : ℕ) (down : Bool) (b : Blocker) → IsFaithful b → IsFaithful (note_key vk down b)
unfolding note_key
note_key-IsFaithful vk down b h =
    if_cases IsFaithful (bool_eq (b.key_states vk) down) _ _ (λ e. h)
      (λ e. record {
        states = λ k. ap (λ s. if k == vk then down else s) (h.states k);
        alternating = (ap (λ s. bool_eq s down) (sym (h.states vk)) ∙ e, h.alternating);
        hook_count = h.hook_count;
      })

step-IsFaithful : (e : Event) (b : Blocker) → IsFaithful b → IsFaithful (step e b)
unfolding step keyboard_hook_proc
step-IsFaithful (start d target callback) b h = start-IsFaithful d target callback b h
step-IsFaithful stop b h = stop-IsFaithful b h
step-IsFaithful (set_callback callback) b h = h
step-IsFaithful (key d vk down) b h =
    let P : Bool × Blocker → Type 0 = λ x. IsFaithful x.1 in
    if_both P (not b.hook) _ _ h (
      if_both P (not (is_target_window_active d b)) _ _ h
        (if_both P (should_block_key d vk) _ _ (note_key-IsFaithful vk down b h) h))

-- From a state in which it holds, after any calls and keys, for each key the changes of the state that is
-- kept, told to a callback or not, are presses and releases by turns since the hook was last removed, the
-- last of them is that state, and the hook is held exactly if it was installed once more than removed.
pub run-IsFaithful : (es : List Event) (b : Blocker) → IsFaithful b → IsFaithful (run es b)
unfolding run
run-IsFaithful [] b h = h
run-IsFaithful (e ∷ es) b h = run-IsFaithful es (step e b) (step-IsFaithful e b h)

-- A callback was there for every change.
abbrev pub IsTold : List Effect → Type 0
IsTold [] = Unit
IsTold (changed vk down told ∷ es) = (told ≡ true) × IsTold es
IsTold (_ ∷ es) = IsTold es

-- A call that sets a callback sets one that is there.
abbrev pub HasCallback : Event → Type 0
HasCallback (start d target callback) = callback ≡ true
HasCallback stop = Unit
HasCallback (set_callback callback) = callback ≡ true
HasCallback (key d vk down) = Unit

abbrev pub IsTelling : Blocker → Type 0
IsTelling b = (b.hook ≡ true → b.callback ≡ true) × IsTold b.log

start-IsTelling :
    (d : Desktop) (target : ℕ) (b : Blocker)
    → IsTelling b
    → IsTelling (start_blocking d target true b).1
unfolding start_blocking start_for
start-IsTelling d target b h =
    let P : Bool × Blocker → Type 0 = λ x. IsTelling x.1 in
    let window = if target == 0 then get_main_window d.windows else target in
    if_both P b.hook _ _ h (
      if_both P (window == 0) _ _ (λ e. refl, h.1)
        (if_both P d.hook_made _ _ (λ e. refl, h.1) (λ e. refl, h.1)))

stop-IsTelling : (b : Blocker) → IsTelling b → IsTelling (stop_blocking b)
unfolding stop_blocking
stop-IsTelling b h =
    let stopped : Blocker = record b {
      hook = false;
      target_window = 0;
      callback = false;
      key_states = λ k. false;
    } in
    if_both IsTelling b.hook _ b
      (if_both (λ (l : List Effect). IsTelling (record stopped { log = l })) (b.target_window == 0)
        (unhooked ∷ b.log) (ime_default b.target_window ∷ unhooked ∷ b.log) (λ e. absurd (cc), h.1)
        (λ e. absurd (cc), h.1))
      h

key-IsTelling :
    (d : Desktop) (vk : ℕ) (down : Bool) (b : Blocker)
    → IsTelling b
    → IsTelling (keyboard_hook_proc d vk down b).1
unfolding keyboard_hook_proc note_key
key-IsTelling d vk down b h =
    let P : Bool × Blocker → Type 0 = λ x. IsTelling x.1 in
    if_cases P (not b.hook) _ _ (λ e. h)
      (λ e. if_both P (not (is_target_window_active d b)) _ _ h (
        if_both P (should_block_key d vk) _ _
          (if_both IsTelling (bool_eq (b.key_states vk) down) b _ h
            (h.0, (h.0 (not-false b.hook e), h.1)))
          h))

step-IsTelling : (e : Event) (b : Blocker) → HasCallback e → IsTelling b → IsTelling (step e b)
unfolding step
step-IsTelling (start d target true) b c h = start-IsTelling d target b h
step-IsTelling (start d target false) b c h = absurd (cc)
step-IsTelling stop b c h = stop-IsTelling b h
step-IsTelling (set_callback callback) b c h = (λ e. c, h.1)
step-IsTelling (key d vk down) b c h = key-IsTelling d vk down b h

run-IsTelling :
    (es : List Event) (b : Blocker) → All HasCallback es → IsTelling b → IsTelling (run es b)
unfolding run
run-IsTelling [] b c h = h
run-IsTelling (e ∷ es) b c h = run-IsTelling es (step e b) c.1 (step-IsTelling e b c.0 h)

-- As long as no callback is taken away or left out, but by a stop, a callback is told of every change, and
-- for each key of presses and releases by turns since the hook was last removed.
pub run-IsTold :
    (es : List Event) (b : Blocker)
    → All HasCallback es
    → IsTelling b
    → IsFaithful b
    → IsTold (run es b).log × IsAlternating (run es b).log
run-IsTold es b c t h = ((run-IsTelling es b c t).1, (run-IsFaithful es b h).alternating)
