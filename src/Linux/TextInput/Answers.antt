-- ===== src/Linux/TextInput/Answers.antt =====
-- Every call of the backend is answered once, or its answer is still owed.
pub mod Runs
use hardware_simulator.Prelude.{
  ℕ, ◌+◌, ◌≡◌, refl, Bool, false, not, ◌&&◌, ◌||◌, Option, none, some, List, [], ◌∷◌, arith, ◌==◌,
  is_some, if_both,
}
use hardware_simulator.Linux.TextInput.{
  After, nobody, finish_done, refuse_prepare, Waiting, register, first_context, first_engine,
  select_engine, second_context, restore_engine, restore_select, Reply, no_reply, Effect, asked,
  answered, Backend, engine_name, reply_path, is_context, reserved_context, is_reply, of_bool, say,
  call, after, on_restore_select, on_restore_engine, restore, on_second_context, on_select_engine,
  on_first_engine, on_first_context, wrap64,
}
use hardware_simulator.Linux.TextInput.Calls.{initialized, answer_all, dispatch}

abbrev pub hit : ℕ → ℕ → ℕ
hit j id = of_bool (j == id)

abbrev pub asks : ℕ → List Effect → ℕ
asks j [] = 0
asks j (asked id ∷ es) = hit j id + asks j es
asks j (_ ∷ es) = asks j es

abbrev pub answers : ℕ → List Effect → ℕ
answers j [] = 0
answers j (answered id v ∷ es) = hit j id + answers j es
answers j (_ ∷ es) = answers j es

abbrev pub waits : ℕ → List ℕ → ℕ
waits j [] = 0
waits j (id ∷ ids) = hit j id + waits j ids

-- The call that a restoration will answer.
abbrev pub owes_after : ℕ → After → ℕ
owes_after j (refuse_prepare id) = hit j id
owes_after j nobody = 0
owes_after j (finish_done id fit) = hit j id

abbrev pub owes : ℕ → Waiting → ℕ
owes j register = 0
owes j (first_context id) = hit j id
owes j (first_engine id) = hit j id
owes j (select_engine id) = hit j id
owes j (second_context id) = hit j id
owes j (restore_engine k) = owes_after j k
owes j (restore_select k) = owes_after j k

abbrev pub owed : ℕ → List Waiting → ℕ
owed j [] = 0
owed j (w ∷ ws) = owes j w + owed j ws

-- The calls with the number `j` are its answers, those that wait, those in flight, and `d` more.
abbrev pub IsOwing : ℕ → ℕ → Backend → Type 0
IsOwing j d s = asks j s.log ≡ answers j s.log + waits j s.waiters + owed j s.in_flight + d

pub call-IsOwing :
    (j : ℕ) (w : Waiting) (on_null : Backend → Backend) (s : Backend)
    → IsOwing j (owes j w) s
    → IsOwing j 0 (on_null s)
    → IsOwing j 0 (call w on_null s)
call-IsOwing j w on_null s h n =
    if_both (IsOwing j 0) (s.bus && s.connection_open) (record s { in_flight = w ∷ s.in_flight })
      (on_null s) (omega (arith, h)) n

after-IsOwing :
    (j : ℕ) (k : After) (b : Bool) (s : Backend)
    → IsOwing j (owes_after j k) s
    → IsOwing j 0 (after k b s)
unfolding after
after-IsOwing j (refuse_prepare id) b s h = omega (arith, h)
after-IsOwing j nobody b s h = h
after-IsOwing j (finish_done id c) b s h = omega (arith, h)

on_restore_select-IsOwing :
    (j : ℕ) (k : After) (r : Reply) (s : Backend)
    → IsOwing j (owes_after j k) s
    → IsOwing j 0 (on_restore_select k r s)
unfolding on_restore_select
on_restore_select-IsOwing j k r s h =
    after-IsOwing j k (is_reply r) (record s { busy = false; ready = s.ready && is_reply r }) h

on_restore_engine-IsOwing :
    (j : ℕ) (k : After) (r : Reply) (s : Backend)
    → IsOwing j (owes_after j k) s
    → IsOwing j 0 (on_restore_engine k r s)
unfolding on_restore_engine
on_restore_engine-IsOwing j k r s h =
    if_both (IsOwing j 0) (not (engine_name r == s.name)) _ _
      (after-IsOwing j k (not (engine_name r == 0))
        (record s { busy = false; ready = s.ready && not (engine_name r == 0) }) h)
      (call-IsOwing j (restore_select k) (on_restore_select k no_reply) s h
        (on_restore_select-IsOwing j k no_reply s h))

pub restore-IsOwing :
    (j : ℕ) (k : After) (s : Backend) → IsOwing j (owes_after j k) s → IsOwing j 0 (restore k s)
unfolding restore
restore-IsOwing j k s h =
    call-IsOwing j (restore_engine k) (on_restore_engine k no_reply) s h
      (on_restore_engine-IsOwing j k no_reply s h)

on_second_context-IsOwing :
    (j id : ℕ) (r : Reply) (s : Backend)
    → IsOwing j (hit j id) s
    → IsOwing j 0 (on_second_context id r s)
unfolding on_second_context
on_second_context-IsOwing j id r s h =
    if_both (IsOwing j 0)
      (not (is_context (reply_path r) s.context) || not (is_some s.engine) || not s.focused) _ _
      (restore-IsOwing j (refuse_prepare id) s h) (omega (arith, h))

on_select_engine-IsOwing :
    (j id : ℕ) (r : Reply) (s : Backend)
    → IsOwing j (hit j id) s
    → IsOwing j 0 (on_select_engine id r s)
unfolding on_select_engine
on_select_engine-IsOwing j id r s h =
    if_both (IsOwing j 0) (not (is_reply r)) _ _ (restore-IsOwing j (refuse_prepare id) s h) (
      call-IsOwing j (second_context id) (on_second_context id no_reply) s h
        (on_second_context-IsOwing j id no_reply s h))

on_first_engine-IsOwing :
    (j id : ℕ) (r : Reply) (s : Backend)
    → IsOwing j (hit j id) s
    → IsOwing j 0 (on_first_engine id r s)
unfolding on_first_engine
on_first_engine-IsOwing j id r s h =
    let t = record s { previous = engine_name r } in
    if_both (IsOwing j 0) (engine_name r == 0 || engine_name r == s.name) _ _ (omega (arith, h)) (
      call-IsOwing j (select_engine id) (on_select_engine id no_reply) t h
        (on_select_engine-IsOwing j id no_reply t h))

pub on_first_context-IsOwing :
    (j id : ℕ) (r : Reply) (s : Backend)
    → IsOwing j (hit j id) s
    → IsOwing j 0 (on_first_context id r s)
unfolding on_first_context
on_first_context-IsOwing j id r s h = by_path (reply_path r) refl
  where
    by_path : (p : Option ℕ) → reply_path r ≡ p → IsOwing j 0 (on_first_context id r s)
    by_path none e = rw (e, on_first_context) (omega (arith, h))
    by_path (some p) e =
        let t = record s { context = p } in
        rw (e, on_first_context)
          (if_both (IsOwing j 0) (p == reserved_context) _ _ (omega (arith, h)) (
            call-IsOwing j (first_engine id) (on_first_engine id no_reply) t h
              (on_first_engine-IsOwing j id no_reply t h)))

answers-answer_all :
    (j v : ℕ) (ids : List ℕ) (l : List Effect)
    → answers j (answer_all v ids l) ≡ waits j ids + answers j l
unfolding answer_all
answers-answer_all j v [] l = omega arith
answers-answer_all j v (id ∷ ids) l = omega (arith, answers-answer_all j v ids (answered id v ∷ l))

asks-answer_all :
    (j v : ℕ) (ids : List ℕ) (l : List Effect) → asks j (answer_all v ids l) ≡ asks j l
unfolding answer_all
asks-answer_all j v [] l = refl
asks-answer_all j v (id ∷ ids) l = asks-answer_all j v ids (answered id v ∷ l)

pub initialized-IsOwing :
    (j : ℕ) (ok : Bool) (s : Backend) → IsOwing j 0 s → IsOwing j 0 (initialized ok s)
unfolding initialized
initialized-IsOwing j ok s h = omega (
  arith,
  h,
  answers-answer_all j (of_bool ok) s.waiters s.log,
  asks-answer_all j (of_bool ok) s.waiters s.log,
)

pub dispatch-IsOwing :
    (j : ℕ) (w : Waiting) (r : Reply) (s : Backend)
    → IsOwing j (owes j w) s
    → IsOwing j 0 (dispatch w r s)
unfolding dispatch
dispatch-IsOwing j register r s h = initialized-IsOwing j (is_reply r) s h
dispatch-IsOwing j (first_context id) r s h = on_first_context-IsOwing j id r s h
dispatch-IsOwing j (first_engine id) r s h = on_first_engine-IsOwing j id r s h
dispatch-IsOwing j (select_engine id) r s h = on_select_engine-IsOwing j id r s h
dispatch-IsOwing j (second_context id) r s h = on_second_context-IsOwing j id r s h
dispatch-IsOwing j (restore_engine k) r s h = on_restore_engine-IsOwing j k r s h
dispatch-IsOwing j (restore_select k) r s h = on_restore_select-IsOwing j k r s h
