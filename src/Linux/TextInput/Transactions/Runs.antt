-- ===== src/Linux/TextInput/Transactions/Runs.antt =====
-- The driver of a transaction over every sequence of calls, signals and replies.
use hardware_simulator.Prelude.{
  ℕ, ◌+◌, ◌≡◌, refl, inl, inr, Bool, true, false, not, ◌&&◌, ◌||◌, some, List, [], ◌∷◌, ◌++◌, arith,
  ◌==◌, if◌then◌else◌, is_some, Bool-cases, Option-cases, if_both, get_elem?,
}
use hardware_simulator.Prelude.Int.{ℤ, pos, pos_part, leb_ℤ}
use hardware_simulator.Linux.TextInput.{
  nobody, finish_done, Waiting, register, first_context, first_engine, select_engine,
  second_context, restore_engine, restore_select, Reply, no_reply, asked, Backend, on_first_context,
  wrap64,
}
use hardware_simulator.Linux.TextInput.Calls.{
  initialized, connect, Connecting, available, prepare, finish, valid_text, commit_text,
  backspace_keys, expire, create_engine, focus_in, focus_out, engine_destroyed, is_engine, dispatch,
  reply_to, remove_at, Event, available_call, prepare_call, finish_call, replied, expired,
  engine_wanted, engine_focus_in, engine_focus_out, engine_gone, disconnected, connection_closed,
  step, run,
}
use hardware_simulator.Linux.TextInput.Transactions.{
  in_transaction, Inv, Mid, call-Inv, restore-Inv, on_first_context-Inv, dispatch-Inv,
  transactions-remove_at,
}

token_zero : (s : Backend) → Inv s → s.expiry ≡ false → s.token ≡ 0
token_zero s h e = elim (Bool-cases (s.token == 0)) [
  | inl z ↦ ground arith
  | inr n ↦ absurd (ground (arith, h.armed (ground arith)))
]

-- A backend at rest may start a transaction.
rest-Mid : (s : Backend) → Inv s → s.busy ≡ false → Mid (record s { busy = true })
rest-Mid s h e = record {
  is_busy = refl;
  no_timer = ground (arith, h.driver);
  no_token = token_zero s h (ground (arith, h.driver));
  no_call = ground (arith, h.driver);
}

-- A token that is taken back leaves its transaction to the caller.
armed-Mid : (s : Backend) → Inv s → s.expiry ≡ true → Mid (record s { expiry = false; token = 0 })
armed-Mid s h e = record {
  is_busy = ground (arith, h.driver);
  no_timer = refl;
  no_token = refl;
  no_call = ground (arith, h.driver);
}

-- So does a call of the transaction that has been answered.
replied-Mid :
    (s : Backend) (n : ℕ) (w : Waiting)
    → Inv s
    → get_elem? s.in_flight n ≡ some w
    → in_transaction w ≡ 1
    → Mid (record s { in_flight = remove_at n s.in_flight })
replied-Mid s n w h e t =
    let r = transactions-remove_at n s.in_flight w e in
    record {
      is_busy = ground (arith, h.driver, r, t);
      no_timer = ground (arith, h.driver, r, t);
      no_token = token_zero s h (ground (arith, h.driver, r, t));
      no_call = ground (arith, h.driver, r, t);
    }

connect-Inv : (c : Connecting) (s : Backend) → Inv s → Inv (connect c s)
unfolding connect initialized
connect-Inv c s h =
    if_both Inv (not c.connects) _ _ h
      (if_both Inv c.opens _ _ (record { driver = ground (arith, h.driver); armed = h.armed }) h)

available-Inv : (c : Connecting) (id : ℕ) (s : Backend) → Inv s → Inv (available c id s)
unfolding available
available-Inv c id s h =
    let u = record s { log = asked id ∷ s.log; waiters = s.waiters ++ id ∷ [] } in
    if_both Inv (not s.initializing && s.ready && s.bus && s.bus_connected) _ _ h
      (if_both Inv s.busy _ _ h (if_both Inv s.initializing u (connect c u) h (connect-Inv c u h)))

prepare-Inv : (id : ℕ) (s : Backend) → Inv s → Inv (prepare id s)
unfolding prepare
prepare-Inv id s h = elim (Bool-cases (not s.ready || s.busy || not s.bus_connected)) [
  | inl refused ↦ rw (refused) h
  | inr fits ↦
      let t = record s { log = asked id ∷ s.log; busy = true } in
      let m : Mid t = rest-Mid s h (ground arith) in
      rw (fits) (
        call-Inv (first_context id) (on_first_context id no_reply) t refl m
          (on_first_context-Inv id no_reply t m))
]

finish-Inv :
    (utf8 : List ℕ → Bool) (id token : ℕ) (backspaces : ℤ) (text : List ℕ) (s : Backend)
    → Inv s
    → Inv (finish utf8 id token backspaces text s)
unfolding finish
finish-Inv utf8 id token backspaces text s h =
    elim (Bool-cases (token == 0 || not (token == s.token))) [
      | inl refused ↦ rw (refused) h
      | inr fits ↦
          let valid =
            valid_text utf8 text && leb_ℤ (pos 0) backspaces && leb_ℤ backspaces (pos 4096) in
          let active =
            is_some s.engine
            && s.focused
            && s.prepared_focus == s.focus_revision
            && s.bus_connected in
          rw (fits) (
            restore-Inv (finish_done id (valid && active))
              (record s {
                token = 0;
                expiry = false;
                log =
                    if valid && active
                    then commit_text text (backspace_keys (pos_part backspaces) (asked id ∷ s.log))
                    else asked id ∷ s.log;
              })
              (armed-Mid s h (h.armed (λ z. absurd (ground arith)))))
    ]

expire-Inv : (s : Backend) → s.expiry ≡ true → Inv s → Inv (expire s)
unfolding expire
expire-Inv s e h = restore-Inv nobody (record s { expiry = false; token = 0 }) (armed-Mid s h e)

focus_in-Inv : (e : ℕ) (s : Backend) → Inv s → Inv (focus_in e s)
unfolding focus_in
focus_in-Inv e s h =
    let t = record s { focused = true; focus_revision = wrap64 (s.focus_revision + 1) } in
    if_both Inv (not (is_engine e s)) s _ h
      (elim (Bool-cases (not s.busy && not (s.previous == 0))) [
        | inl late ↦
            rw (late) (restore-Inv nobody (record t { busy = true }) (rest-Mid s h (ground arith)))
        | inr quiet ↦ rw (quiet) h
      ])

answered-Inv :
    (w : Waiting) (n : ℕ) (r : Reply) (s : Backend)
    → Inv s
    → get_elem? s.in_flight n ≡ some w
    → Inv (dispatch w r (record s { in_flight = remove_at n s.in_flight }))
unfolding dispatch initialized
answered-Inv register n r s h e = record {
  driver = ground (arith, h.driver, transactions-remove_at n s.in_flight register e);
  armed = h.armed;
}
answered-Inv (first_context id) n r s h e =
    let t = record s { in_flight = remove_at n s.in_flight } in
    dispatch-Inv (first_context id) r t refl (replied-Mid s n (first_context id) h e refl)
answered-Inv (first_engine id) n r s h e =
    let t = record s { in_flight = remove_at n s.in_flight } in
    dispatch-Inv (first_engine id) r t refl (replied-Mid s n (first_engine id) h e refl)
answered-Inv (select_engine id) n r s h e =
    let t = record s { in_flight = remove_at n s.in_flight } in
    dispatch-Inv (select_engine id) r t refl (replied-Mid s n (select_engine id) h e refl)
answered-Inv (second_context id) n r s h e =
    let t = record s { in_flight = remove_at n s.in_flight } in
    dispatch-Inv (second_context id) r t refl (replied-Mid s n (second_context id) h e refl)
answered-Inv (restore_engine k) n r s h e =
    let t = record s { in_flight = remove_at n s.in_flight } in
    dispatch-Inv (restore_engine k) r t refl (replied-Mid s n (restore_engine k) h e refl)
answered-Inv (restore_select k) n r s h e =
    let t = record s { in_flight = remove_at n s.in_flight } in
    dispatch-Inv (restore_select k) r t refl (replied-Mid s n (restore_select k) h e refl)

reply_to-Inv : (n : ℕ) (r : Reply) (s : Backend) → Inv s → Inv (reply_to n r s)
unfolding reply_to
reply_to-Inv n r s h = elim (Option-cases (get_elem? s.in_flight n)) [
  | inl e ↦ rw (reply_to, e) h
  | inr (w, e) ↦ rw (reply_to, e) (answered-Inv w n r s h e)
]

timer-Inv : (b : Bool) (s : Backend) → s.expiry ≡ b → Inv s → Inv (if b then expire s else s)
timer-Inv true s e h = expire-Inv s e h
timer-Inv false s e h = h

step-Inv : (utf8 : List ℕ → Bool) (e : Event) (s : Backend) → Inv s → Inv (step utf8 e s)
unfolding step create_engine focus_out engine_destroyed
step-Inv utf8 (available_call c id) s h = available-Inv c id s h
step-Inv utf8 (prepare_call id) s h = prepare-Inv id s h
step-Inv utf8 (finish_call id token backspaces text) s h =
    finish-Inv utf8 id token backspaces text s h
step-Inv utf8 (replied n r) s h = reply_to-Inv n r s h
step-Inv utf8 expired s h = timer-Inv s.expiry s refl h
step-Inv utf8 (engine_wanted n) s h = if_both Inv (n == s.name) _ s h h
step-Inv utf8 (engine_focus_in e) s h = focus_in-Inv e s h
step-Inv utf8 (engine_focus_out e) s h = if_both Inv (not (is_engine e s)) s _ h h
step-Inv utf8 (engine_gone e) s h = if_both Inv (is_engine e s) _ s h h
step-Inv utf8 disconnected s h = h
step-Inv utf8 connection_closed s h = h

-- From a state in which it holds, in every later state a busy backend has exactly one driver, a D-Bus
-- call of the transaction in flight or the timer of its token, an idle one has none, and a token stands
-- only with its timer.
pub run-Inv : (utf8 : List ℕ → Bool) (es : List Event) (s : Backend) → Inv s → Inv (run utf8 es s)
unfolding run
run-Inv utf8 [] s h = h
run-Inv utf8 (e ∷ es) s h = run-Inv utf8 es (step utf8 e s) (step-Inv utf8 e s h)
