-- ===== src/Linux/TextInput/Tests.antt =====
-- A committed text, from the connection to the restored engine.
use hardware_simulator.Prelude.{
  ℕ, ◌≡◌, refl, Bool, true, not, ◌&&◌, List, [], ◌∷◌, ◌++◌, arith, ◌==◌, if◌then◌else◌,
}
use hardware_simulator.Prelude.Int.{pos}
use hardware_simulator.Linux.TextInput.{
  path_reply, name_reply, empty_reply, asked, answered, backspace_down, backspace_up, commit,
  Backend, new_backend, after, on_restore_select, on_restore_engine, restore, on_second_context,
  on_select_engine, on_first_engine, on_first_context,
}
use hardware_simulator.Linux.TextInput.Calls.{
  answer_all, initialized, connect, Connecting, available, prepare, finish, valid_text,
  backspace_keys, create_engine, focus_in, dispatch, reply_to, Event, available_call, prepare_call,
  finish_call, replied, expired, engine_wanted, engine_focus_in, step, run,
}
use hardware_simulator.Linux.TextInput.Transactions.{Inv}
use hardware_simulator.Linux.TextInput.Transactions.Runs.{run-Inv}
use hardware_simulator.Linux.TextInput.Answers.{IsOwing}
use hardware_simulator.Linux.TextInput.Answers.Runs.{run-IsOwing}
use hardware_simulator.Linux.TextInput.Finishing.{typed, may_type, pairs, committed, finish_types}

abbrev any_text : List ℕ → Bool
any_text text = true

abbrev connecting : Connecting
connecting = record { connects = true; opens = true; own_name = 50 }

-- The engine's name is 50, the user's engine is 8, the focused context is 3.
abbrev preparing : List Event
preparing =
    available_call connecting 1
    ∷ replied 0 empty_reply
    ∷ prepare_call 2
    ∷ replied 0 (path_reply 3)
    ∷ replied 0 (name_reply 8)
    ∷ engine_wanted 50
    ∷ engine_focus_in 1
    ∷ replied 0 empty_reply
    ∷ replied 0 (path_reply 3)
    ∷ []

abbrev prepared : Backend
prepared = run any_text preparing new_backend

abbrev finishing : List Event
finishing =
    finish_call 3 1 (pos 1) (104 ∷ 105 ∷ [])
    ∷ replied 0 (name_reply 50)
    ∷ replied 0 empty_reply
    ∷ []

finished :
    (run any_text finishing prepared).log
    ≡ answered 3 1
      ∷ commit (104 ∷ 105 ∷ [])
      ∷ backspace_up
      ∷ backspace_down
      ∷ asked 3
      ∷ answered 2 1
      ∷ asked 2
      ∷ answered 1 1
      ∷ asked 1
      ∷ []
unfolding after on_restore_select on_restore_engine restore on_second_context on_select_engine
    on_first_engine on_first_context answer_all initialized connect available prepare finish
    valid_text backspace_keys create_engine focus_in dispatch reply_to step run
finished = refl

run-Inv_example : Inv (run any_text (preparing ++ expired ∷ []) new_backend)
run-Inv_example =
    run-Inv any_text (preparing ++ expired ∷ []) new_backend
      (record { driver = omega arith; armed = λ e. absurd (e refl) })

run-IsOwing_example : IsOwing 3 0 (run any_text finishing prepared)
run-IsOwing_example =
    run-IsOwing any_text 3 finishing prepared
      (run-IsOwing any_text 3 preparing new_backend (omega arith))

finish_types_example : typed (finish any_text 3 1 (pos 1) (104 ∷ []) prepared).log ≡ (
    if not (1 == 0) && 1 == prepared.token && may_type any_text (pos 1) (104 ∷ []) prepared
    then committed (104 ∷ []) ++ (pairs 1 ++ typed prepared.log)
    else typed prepared.log)
finish_types_example = finish_types any_text 3 1 (pos 1) (104 ∷ []) prepared
