-- ===== src/Linux/TextInput/Transactions.antt =====
-- A busy backend has exactly one thing that will end its transaction: a D-Bus call in flight, or the
-- timer of a token.
pub mod Runs
use hardware_simulator.Prelude.{
  ℕ, zero, suc, ◌+◌, ◌≡◌, refl, ◌≢◌, Bool, true, false, not, ◌&&◌, ◌||◌, Option, none, some, List,
  [], ◌∷◌, arith, ◌==◌, is_some, if_both, get_elem?,
}
use hardware_simulator.Linux.TextInput.{
  After, nobody, finish_done, refuse_prepare, Waiting, register, first_context, first_engine,
  select_engine, second_context, restore_engine, restore_select, Reply, no_reply, asked, Backend,
  new_backend, engine_name, reply_path, is_context, reserved_context, is_reply, of_bool, say, call,
  after, on_restore_select, on_restore_engine, restore, on_second_context, on_select_engine,
  on_first_engine, on_first_context, wrap64,
}
use hardware_simulator.Linux.TextInput.Calls.{
  initialized, connect, Connecting, available, prepare, finish, valid_text, commit_text,
  backspace_keys, expire, create_engine, focus_in, focus_out, engine_destroyed, is_engine, dispatch,
  reply_to, remove_at, Event, available_call, prepare_call, finish_call, replied, expired,
  engine_wanted, engine_focus_in, engine_focus_out, engine_gone, disconnected, connection_closed,
  step, run,
}

abbrev pub in_transaction : Waiting → ℕ
in_transaction register = 0
in_transaction _ = 1

abbrev pub transactions : List Waiting → ℕ
transactions [] = 0
transactions (w ∷ ws) = in_transaction w + transactions ws

abbrev pub Inv : Backend → Type 0
Inv s = record {
  driver : transactions s.in_flight + of_bool s.expiry ≡ of_bool s.busy;
  armed : s.token ≢ 0 → s.expiry ≡ true;
}

-- Between the end of one driver and the start of the next.
abbrev pub Mid : Backend → Type 0
Mid s = record {
  is_busy : s.busy ≡ true;
  no_timer : s.expiry ≡ false;
  no_token : s.token ≡ 0;
  no_call : transactions s.in_flight ≡ 0;
}

pub call-Inv :
    (w : Waiting) (on_null : Backend → Backend) (s : Backend)
    → in_transaction w ≡ 1
    → Mid s
    → Inv (on_null s)
    → Inv (call w on_null s)
call-Inv w on_null s t m h =
    if_both Inv (s.bus && s.connection_open) (record s { in_flight = w ∷ s.in_flight }) (on_null s)
      (record {
        driver = ground (arith, m.no_call, m.no_timer, m.is_busy, t);
        armed = λ e. absurd (e m.no_token);
      })
      h

on_restore_select-Inv :
    (k : After) (r : Reply) (s : Backend) → Mid s → Inv (on_restore_select k r s)
unfolding on_restore_select
on_restore_select-Inv (refuse_prepare id) r s m = ground arith
on_restore_select-Inv nobody r s m = ground arith
on_restore_select-Inv (finish_done id b) r s m = ground arith

after-Inv : (k : After) (b : Bool) (s : Backend) → Inv s → Inv (after k b s)
unfolding after
after-Inv (refuse_prepare id) b s h = h
after-Inv nobody b s h = h
after-Inv (finish_done id c) b s h = h

on_restore_engine-Inv :
    (k : After) (r : Reply) (s : Backend) → Mid s → Inv (on_restore_engine k r s)
unfolding on_restore_engine
on_restore_engine-Inv k r s m =
    if_both Inv (not (engine_name r == s.name)) _ _
      (after-Inv k (not (engine_name r == 0))
        (record s { busy = false; ready = s.ready && not (engine_name r == 0) }) (ground arith))
      (call-Inv (restore_select k) (on_restore_select k no_reply) s refl m
        (on_restore_select-Inv k no_reply s m))

pub restore-Inv : (k : After) (s : Backend) → Mid s → Inv (restore k s)
unfolding restore
restore-Inv k s m =
    call-Inv (restore_engine k) (on_restore_engine k no_reply) s refl m
      (on_restore_engine-Inv k no_reply s m)

on_second_context-Inv : (id : ℕ) (r : Reply) (s : Backend) → Mid s → Inv (on_second_context id r s)
unfolding on_second_context
on_second_context-Inv id r s m =
    if_both Inv
      (not (is_context (reply_path r) s.context) || not (is_some s.engine) || not s.focused) _ _
      (restore-Inv (refuse_prepare id) s m)
      (record { driver = ground (arith, m.is_busy, m.no_call); armed = λ e. refl })

on_select_engine-Inv : (id : ℕ) (r : Reply) (s : Backend) → Mid s → Inv (on_select_engine id r s)
unfolding on_select_engine
on_select_engine-Inv id r s m =
    if_both Inv (not (is_reply r)) _ _ (restore-Inv (refuse_prepare id) s m) (
      call-Inv (second_context id) (on_second_context id no_reply) s refl m
        (on_second_context-Inv id no_reply s m))

idle-Inv : (s : Backend) → Mid s → Inv (record s { busy = false })
idle-Inv s m = ground arith

on_first_engine-Inv : (id : ℕ) (r : Reply) (s : Backend) → Mid s → Inv (on_first_engine id r s)
unfolding on_first_engine
on_first_engine-Inv id r s m =
    if_both Inv (engine_name r == 0 || engine_name r == s.name) _ _ (idle-Inv s m) (
      call-Inv (select_engine id) (on_select_engine id no_reply)
        (record s { previous = engine_name r }) refl m
        (on_select_engine-Inv id no_reply (record s { previous = engine_name r }) m))

first_path-Inv :
    (id : ℕ) (p : Option ℕ) (s : Backend) (r : Reply)
    → reply_path r ≡ p
    → Mid s
    → Inv (on_first_context id r s)
unfolding on_first_context
first_path-Inv id none s r e m = rw (e, on_first_context) (idle-Inv s m)
first_path-Inv id (some p) s r e m =
    rw (e, on_first_context)
      (if_both Inv (p == reserved_context) _ _ (idle-Inv s m) (
        call-Inv (first_engine id) (on_first_engine id no_reply) (record s { context = p }) refl m
          (on_first_engine-Inv id no_reply (record s { context = p }) m)))

pub on_first_context-Inv :
    (id : ℕ) (r : Reply) (s : Backend) → Mid s → Inv (on_first_context id r s)
on_first_context-Inv id r s m = first_path-Inv id (reply_path r) s r refl m

pub dispatch-Inv :
    (w : Waiting) (r : Reply) (s : Backend) → in_transaction w ≡ 1 → Mid s → Inv (dispatch w r s)
unfolding dispatch
dispatch-Inv register r s e m = absurd (omega arith)
dispatch-Inv (first_context id) r s e m = on_first_context-Inv id r s m
dispatch-Inv (first_engine id) r s e m = on_first_engine-Inv id r s m
dispatch-Inv (select_engine id) r s e m = on_select_engine-Inv id r s m
dispatch-Inv (second_context id) r s e m = on_second_context-Inv id r s m
dispatch-Inv (restore_engine k) r s e m = on_restore_engine-Inv k r s m
dispatch-Inv (restore_select k) r s e m = on_restore_select-Inv k r s m

pub transactions-remove_at :
    (n : ℕ) (ws : List Waiting) (w : Waiting)
    → get_elem? ws n ≡ some w
    → transactions ws ≡ in_transaction w + transactions (remove_at n ws)
transactions-remove_at n [] w e = absurd (cc)
transactions-remove_at zero (v ∷ ws) w e = let same : v ≡ w = cc in rw same refl
transactions-remove_at (suc n) (v ∷ ws) w e = omega (arith, transactions-remove_at n ws w e)
