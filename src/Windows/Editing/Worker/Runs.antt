-- ===== src/Windows/Editing/Worker/Runs.antt =====
-- Runs of the worker and of the monitor's calls on it.
use hardware_simulator.Prelude.{
  suc, ◌+◌, ◌^◌, ◌≤◌, ◌<◌, ◌≡◌, refl, ◌∙◌, inl, inr, false, not, Option, none, some, List, [], ◌∷◌,
  arith, if◌then◌else◌, Option-cases, if_both, if_false, length,
}
use hardware_simulator.Prelude.Int.{ℤ}
use hardware_simulator.Windows.Pointer.{Point}
use hardware_simulator.Windows.Editing.{InspectionRequest, Scene}
use hardware_simulator.Windows.Editing.Worker.{
  waiting, settling, inspecting, decided, announcing, ended, Phase, WorkerState, inspection_point,
  inspect_after_remote_pointer_up, signalled, timeout, failed, WaitResult, finish_worker,
  take_request, woken, wait_step, inspect_step, stop,
}
use hardware_simulator.Windows.Editing.Worker.Order.{
  Op, ask, wait, look, stop_run, forget_callback, forget_request, signal_stop, step, run, IsInOrder,
  step-IsInOrder,
}

-- What a step may change of a state: the numbers grow by one at most, and without a callback no
-- decision is added.
abbrev Near : WorkerState → WorkerState → Type 0
Near s t =
    (t.next_sequence ≤ suc s.next_sequence)
    × (s.has_callback ≡ false → (t.has_callback ≡ false) × (t.decisions ≡ s.decisions))

same-Near : (s : WorkerState) → Near s s
same-Near s = (omega arith, λ h. (h, refl))

ask-Near :
    (id : Option ℤ) (given cursor : Option Point) (s : WorkerState)
    → Near s (inspect_after_remote_pointer_up id given cursor s)
unfolding inspect_after_remote_pointer_up
ask-Near id given cursor s =
    if_both (Near s) (not s.running) s _ (same-Near s)
      (elim (Option-cases (inspection_point given cursor)) [
        | inl e ↦ rw (e) (same-Near s)
        | inr (p, e) ↦ rw (e) (ground arith, λ h. (h, refl))
      ])

woken-Near : (s : WorkerState) → Near s (if s.stop_event then finish_worker s else woken s)
woken-Near s = if_both (Near s) s.stop_event (finish_worker s) (woken s) (same-Near s) (
    if_both (Near s) s.request_event (record s { request_event = false; phase = settling }) s
      (same-Near s) (same-Near s))

take_request-Near : (o : Option InspectionRequest) (s : WorkerState) → Near s (take_request o s)
take_request-Near none s = same-Near s
take_request-Near (some r) s = same-Near s

wait_at-Near :
    (result : WaitResult) (ph : Phase) (s : WorkerState)
    → Near (record s { phase = ph }) (wait_step result (record s { phase = ph }))
unfolding wait_step
wait_at-Near signalled waiting s = woken-Near (record s { phase = waiting })
wait_at-Near timeout waiting s = same-Near s
wait_at-Near failed waiting s = same-Near s
wait_at-Near signalled settling s = woken-Near (record s { phase = settling })
wait_at-Near timeout settling s =
    take_request-Near s.pending_request (record s { phase = settling })
wait_at-Near failed settling s = same-Near s
wait_at-Near result (inspecting r) s = same-Near s
wait_at-Near result (decided r d) s = same-Near s
wait_at-Near result (announcing r d) s = same-Near s
wait_at-Near result ended s = same-Near s

look_at-Near :
    (sc : Scene) (ph : Phase) (s : WorkerState)
    → Near (record s { phase = ph }) (inspect_step sc (record s { phase = ph }))
unfolding inspect_step
look_at-Near sc waiting s = same-Near s
look_at-Near sc settling s = same-Near s
look_at-Near sc (inspecting r) s = same-Near s
look_at-Near sc (decided r d) s = same-Near s
look_at-Near sc (announcing r d) s =
    (omega arith, λ h. (h, if_false s.has_callback ((r, d) ∷ s.decisions) s.decisions h))
look_at-Near sc ended s = same-Near s

step-Near : (o : Op) (s : WorkerState) → Near s (step o s)
unfolding step
step-Near (ask id given cursor) s = ask-Near id given cursor s
step-Near (wait result) s = wait_at-Near result s.phase s
step-Near (look sc) s = look_at-Near sc s.phase s
step-Near stop_run s = same-Near s
step-Near forget_callback s = (omega arith, λ h. (refl, refl))
step-Near forget_request s = same-Near s
step-Near signal_stop s = same-Near s

-- From a state in which it holds, after any calls and steps, as long as the numbers of the requests do
-- not wrap, the decisions told are each for a later request than the one before, each under the caller's
-- own id, and the request that waits is later than all of them.
pub run-IsInOrder :
    (os : List Op) (s : WorkerState)
    → s.next_sequence + length os < 2 ^ 64
    → IsInOrder s
    → IsInOrder (run os s)
unfolding run
run-IsInOrder [] s small h = h
run-IsInOrder (o ∷ os) s small h =
    run-IsInOrder os (step o s) (omega (arith, small, (step-Near o s).0))
      (step-IsInOrder o s (omega (arith, small)) h)

-- Without a callback no decision is told, whatever happens.
pub run-silent :
    (os : List Op) (s : WorkerState) → s.has_callback ≡ false → (run os s).decisions ≡ s.decisions
unfolding run
run-silent [] s h = refl
run-silent (o ∷ os) s h = let k = (step-Near o s).1 h in run-silent os (step o s) k.0 ∙ k.1

-- After Stop no decision is told, whatever the thread was doing and does, and whatever is called.
pub stop_silences : (os : List Op) (s : WorkerState) → (run os (stop s)).decisions ≡ s.decisions
unfolding stop
stop_silences os s = run-silent os (stop s) refl
