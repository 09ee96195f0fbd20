-- ===== src/Linux/TextInput/Answers/Runs.antt =====
-- The answers over every sequence of calls, signals and replies.
use hardware_simulator.Prelude.{
  ℕ, zero, suc, ◌+◌, ◌≡◌, refl, ◌∙◌, inl, inr, Bool, true, false, not, ◌&&◌, ◌||◌, none, some, List,
  [], ◌∷◌, ◌++◌, arith, ◌==◌, if◌then◌else◌, is_some, Option-cases, if_both, get_elem?,
}
use hardware_simulator.Prelude.Int.{ℤ, pos, pos_part, leb_ℤ}
use hardware_simulator.Linux.TextInput.{
  nobody, finish_done, Waiting, register, first_context, Reply, no_reply, Effect, asked, Backend,
  on_first_context, wrap64,
}
use hardware_simulator.Linux.TextInput.Calls.{
  initialized, connect, Connecting, available, prepare, finish, valid_text, commit_text,
  backspace_keys, expire, create_engine, focus_in, focus_out, engine_destroyed, is_engine, reply_to,
  remove_at, Event, available_call, prepare_call, finish_call, replied, expired, engine_wanted,
  engine_focus_in, engine_focus_out, engine_gone, disconnected, connection_closed, step, run,
}
use hardware_simulator.Linux.TextInput.Answers.{
  hit, asks, answers, waits, owes, owed, IsOwing, call-IsOwing, restore-IsOwing,
  on_first_context-IsOwing, initialized-IsOwing, dispatch-IsOwing,
}

waits-append : (j id : ℕ) (ids : List ℕ) → waits j (ids ++ id ∷ []) ≡ waits j ids + hit j id
waits-append j id [] = omega arith
waits-append j id (i ∷ ids) = omega (arith, waits-append j id ids)

owed-remove_at :
    (j n : ℕ) (ws : List Waiting) (w : Waiting)
    → get_elem? ws n ≡ some w
    → owed j ws ≡ owes j w + owed j (remove_at n ws)
owed-remove_at j n [] w e = absurd (cc)
owed-remove_at j zero (v ∷ ws) w e = let same : v ≡ w = cc in rw same refl
owed-remove_at j (suc n) (v ∷ ws) w e = omega (arith, owed-remove_at j n ws w e)

connect-IsOwing : (j : ℕ) (c : Connecting) (s : Backend) → IsOwing j 0 s → IsOwing j 0 (connect c s)
unfolding connect
connect-IsOwing j c s h =
    let t = record s {
      initializing = true;
      ready = false;
      engine = none;
      focused = false;
      bus = true;
      bus_connected = c.connects;
      connection_open = c.opens;
    } in
    let u = record t { name = c.own_name } in
    if_both (IsOwing j 0) (not c.connects) _ _ (initialized-IsOwing j false t h)
      (call-IsOwing j register (initialized false) u h (initialized-IsOwing j false u h))

available-IsOwing :
    (j : ℕ) (c : Connecting) (id : ℕ) (s : Backend) → IsOwing j 0 s → IsOwing j 0 (available c id s)
unfolding available
available-IsOwing j c id s h =
    let t = record s { log = asked id ∷ s.log } in
    let u = record t { waiters = s.waiters ++ id ∷ [] } in
    let hu : IsOwing j 0 u = omega (arith, h, waits-append j id s.waiters) in
    if_both (IsOwing j 0) (not s.initializing && s.ready && s.bus && s.bus_connected) _ _
      (omega (arith, h))
      (if_both (IsOwing j 0) s.busy _ _ (omega (arith, h))
        (if_both (IsOwing j 0) s.initializing u _ hu (connect-IsOwing j c u hu)))

prepare-IsOwing : (j id : ℕ) (s : Backend) → IsOwing j 0 s → IsOwing j 0 (prepare id s)
unfolding prepare
prepare-IsOwing j id s h =
    let t = record s { log = asked id ∷ s.log; busy = true } in
    let ht : IsOwing j (hit j id) t = omega (arith, h) in
    if_both (IsOwing j 0) (not s.ready || s.busy || not s.bus_connected) _ _ (omega (arith, h)) (
      call-IsOwing j (first_context id) (on_first_context id no_reply) t ht
        (on_first_context-IsOwing j id no_reply t ht))

-- Neither asks nor answers.
abbrev IsQuiet : ℕ → List Effect → List Effect → Type 0
IsQuiet j a b = (asks j a ≡ asks j b) × (answers j a ≡ answers j b)

backspaces-IsQuiet : (j n : ℕ) (l : List Effect) → IsQuiet j (backspace_keys n l) l
unfolding backspace_keys
backspaces-IsQuiet j zero l = (refl, refl)
backspaces-IsQuiet j (suc n) l = backspaces-IsQuiet j n _

commit-IsQuiet : (j : ℕ) (text : List ℕ) (l : List Effect) → IsQuiet j (commit_text text l) l
commit-IsQuiet j [] l = (refl, refl)
commit-IsQuiet j (c ∷ cs) l = (refl, refl)

finish-IsOwing :
    (utf8 : List ℕ → Bool) (j id token : ℕ) (backspaces : ℤ) (text : List ℕ) (s : Backend)
    → IsOwing j 0 s
    → IsOwing j 0 (finish utf8 id token backspaces text s)
unfolding finish
finish-IsOwing utf8 j id token backspaces text s h =
    let valid = valid_text utf8 text && leb_ℤ (pos 0) backspaces && leb_ℤ backspaces (pos 4096) in
    let active =
      is_some s.engine && s.focused && s.prepared_focus == s.focus_revision && s.bus_connected in
    let l = asked id ∷ s.log in
    let keys = backspace_keys (pos_part backspaces) l in
    let log = if valid && active then commit_text text keys else l in
    let q : IsQuiet j log l =
      if_both (λ x. IsQuiet j x l) (valid && active) (commit_text text keys) l
        (let a = commit-IsQuiet j text keys in
          let b = backspaces-IsQuiet j (pos_part backspaces) l in (a.0 ∙ b.0, a.1 ∙ b.1))
        (refl, refl) in
    let t = record s { token = 0; expiry = false; log = log } in
    if_both (IsOwing j 0) (token == 0 || not (token == s.token)) _ _ (omega (arith, h))
      (restore-IsOwing j (finish_done id (valid && active)) t (omega (arith, h, q.0, q.1)))

reply_to-IsOwing :
    (j n : ℕ) (r : Reply) (s : Backend) → IsOwing j 0 s → IsOwing j 0 (reply_to n r s)
unfolding reply_to
reply_to-IsOwing j n r s h = elim (Option-cases (get_elem? s.in_flight n)) [
  | inl e ↦ rw (reply_to, e) h
  | inr (w, e) ↦
      rw (reply_to, e)
        (dispatch-IsOwing j w r (record s { in_flight = remove_at n s.in_flight })
          (omega (arith, h, owed-remove_at j n s.in_flight w e)))
]

focus_in-IsOwing : (j e : ℕ) (s : Backend) → IsOwing j 0 s → IsOwing j 0 (focus_in e s)
unfolding focus_in
focus_in-IsOwing j e s h =
    let t = record s { focused = true; focus_revision = wrap64 (s.focus_revision + 1) } in
    if_both (IsOwing j 0) (not (is_engine e s)) s _ h (
      if_both (IsOwing j 0) (not s.busy && not (s.previous == 0)) _ t
        (restore-IsOwing j nobody (record t { busy = true }) h) h)

step-IsOwing :
    (utf8 : List ℕ → Bool) (j : ℕ) (e : Event) (s : Backend)
    → IsOwing j 0 s
    → IsOwing j 0 (step utf8 e s)
unfolding step create_engine focus_out engine_destroyed expire
step-IsOwing utf8 j (available_call c id) s h = available-IsOwing j c id s h
step-IsOwing utf8 j (prepare_call id) s h = prepare-IsOwing j id s h
step-IsOwing utf8 j (finish_call id token backspaces text) s h =
    finish-IsOwing utf8 j id token backspaces text s h
step-IsOwing utf8 j (replied n r) s h = reply_to-IsOwing j n r s h
step-IsOwing utf8 j expired s h =
    if_both (IsOwing j 0) s.expiry _ s
      (restore-IsOwing j nobody (record s { expiry = false; token = 0 }) h) h
step-IsOwing utf8 j (engine_wanted n) s h = if_both (IsOwing j 0) (n == s.name) _ s h h
step-IsOwing utf8 j (engine_focus_in e) s h = focus_in-IsOwing j e s h
step-IsOwing utf8 j (engine_focus_out e) s h = if_both (IsOwing j 0) (not (is_engine e s)) s _ h h
step-IsOwing utf8 j (engine_gone e) s h = if_both (IsOwing j 0) (is_engine e s) _ s h h
step-IsOwing utf8 j disconnected s h = h
step-IsOwing utf8 j connection_closed s h = h

-- From a state in which it holds, after any calls, signals and replies, with each number as many calls
-- have been made as answers were given, calls wait for the connection, and D-Bus calls that will answer
-- are in flight: no call is answered twice, and none is forgotten.
pub run-IsOwing :
    (utf8 : List ℕ → Bool) (j : ℕ) (es : List Event) (s : Backend)
    → IsOwing j 0 s
    → IsOwing j 0 (run utf8 es s)
unfolding run
run-IsOwing utf8 j [] s h = h
run-IsOwing utf8 j (e ∷ es) s h = run-IsOwing utf8 j es (step utf8 e s) (step-IsOwing utf8 j e s h)
