-- ===== src/Windows/Editing/Worker/Order.antt =====
-- The decisions come in the order of the requests.
use hardware_simulator.Prelude.{
  ℕ, suc, ◌^◌, ◌≤◌, ◌<◌, ◌≡◌, refl, sym, inl, inr, Bool, false, not, Option, none, some, List, [],
  ◌∷◌, arith, if◌then◌else◌, Option-cases, if_both,
}
use hardware_simulator.Prelude.Int.{ℤ}
use mathlib.Core.Path.{subst}
use hardware_simulator.Windows.Pointer.{Point}
use hardware_simulator.Windows.Editing.{
  InspectionRequest, WindowsTextInputDecision, Scene, decide, try_match, inspect,
}
use hardware_simulator.Windows.Editing.Worker.{
  waiting, settling, inspecting, decided, announcing, ended, Phase, WorkerState, inspection_point,
  inspect_after_remote_pointer_up, signalled, timeout, failed, WaitResult, finish_worker,
  take_request, is_superseded, woken, wait_step, inspect_step, stop_running, drop_callback,
  drop_request, set_stop,
}

-- A call of the monitor, a part of Stop, or a step of the thread.
pub data Op : Type 0 where
  ask : Option ℤ → Option Point → Option Point → Op
  wait : WaitResult → Op
  look : Scene → Op
  stop_run forget_callback forget_request signal_stop : Op

unfoldable pub step : Op → WorkerState → WorkerState
unfolding inspect_after_remote_pointer_up wait_step inspect_step
step (ask id given cursor) s = inspect_after_remote_pointer_up id given cursor s
step (wait result) s = wait_step result s
step (look sc) s = inspect_step sc s
step stop_run s = stop_running s
step forget_callback s = drop_callback s
step forget_request s = drop_request s
step signal_stop s = set_stop s

unfoldable pub run : List Op → WorkerState → WorkerState
unfolding step
run [] s = s
run (o ∷ os) s = run os (step o s)

-- Decisions on requests with numbers below a bound, each later than those before it, and each for the
-- request's own caller.
abbrev pub Below : ℕ → List (InspectionRequest × WindowsTextInputDecision) → Type 0
Below n [] = Unit
Below n (x ∷ xs) =
    (x.0.sequence < n) × (x.1.request_id ≡ x.0.edit_focus_request_id) × Below x.0.sequence xs

Below-mono :
    (m n : ℕ) (xs : List (InspectionRequest × WindowsTextInputDecision))
    → m ≤ n
    → Below m xs
    → Below n xs
Below-mono m n [] le h = h
Below-mono m n (x ∷ xs) le h = (omega (arith, le, h.0), h.1, h.2)

-- With `m` the number of the request that was taken last.
abbrev pub PhaseOk : ℕ → List (InspectionRequest × WindowsTextInputDecision) → Phase → Type 0
PhaseOk m xs waiting = Below (suc m) xs
PhaseOk m xs settling = Below (suc m) xs
PhaseOk m xs (inspecting r) = (r.sequence ≡ m) × Below m xs
PhaseOk m xs (decided r d) =
    (r.sequence ≡ m) × (d.request_id ≡ r.edit_focus_request_id) × Below m xs
PhaseOk m xs (announcing r d) =
    (r.sequence ≡ m) × (d.request_id ≡ r.edit_focus_request_id) × Below m xs
PhaseOk m xs ended = Below (suc m) xs

abbrev pub PendingOk : ℕ → ℕ → Option InspectionRequest → Type 0
PendingOk m n none = Unit
PendingOk m n (some p) = (m < p.sequence) × (p.sequence ≤ n)

abbrev pub IsInOrder : WorkerState → Type 0
IsInOrder s =
    (m : ℕ) × (m ≤ s.next_sequence)
    × PhaseOk m s.decisions s.phase
    × PendingOk m s.next_sequence s.pending_request

decide_for :
    (r : InspectionRequest) (o : Option (Option Bool))
    → (decide r o).request_id ≡ r.edit_focus_request_id
decide_for r none = refl
decide_for r (some b) = refl

inspect_for :
    (sc : Scene) (r : InspectionRequest) → (inspect sc r).request_id ≡ r.edit_focus_request_id
unfolding inspect
inspect_for sc r =
    let P : WindowsTextInputDecision → Type 0 =
      λ (d : WindowsTextInputDecision). d.request_id ≡ r.edit_focus_request_id in
    if_both P (not sc.has_cache) (decide r none) _ (decide_for r none)
      (elim (Option-cases (try_match r.point sc.at_point)) [
        | inl e ↦ rw (e) (decide_for r (try_match r.point sc.focused))
        | inr (b, e) ↦ rw (e) (decide_for r (some b))
      ])

ask-IsInOrder :
    (id : Option ℤ) (given cursor : Option Point) (s : WorkerState)
    → suc s.next_sequence < 2 ^ 64
    → IsInOrder s
    → IsInOrder (inspect_after_remote_pointer_up id given cursor s)
unfolding inspect_after_remote_pointer_up
ask-IsInOrder id given cursor s small (m, le, ph, pe) =
    if_both IsInOrder (not s.running) s _ (m, le, ph, pe)
      (elim (Option-cases (inspection_point given cursor)) [
        | inl e ↦ rw (e) (m, le, ph, pe)
        | inr (p, e) ↦
            rw (e)
              (m, ground (arith, le, small), ph, (ground (arith, le, small), ground (arith, small)))
      ])

woken-IsInOrder :
    (s : WorkerState) (m : ℕ)
    → m ≤ s.next_sequence
    → Below (suc m) s.decisions
    → PhaseOk m s.decisions s.phase
    → PendingOk m s.next_sequence s.pending_request
    → IsInOrder (if s.stop_event then finish_worker s else woken s)
woken-IsInOrder s m le b ph pe =
    if_both IsInOrder s.stop_event (finish_worker s) (woken s) (m, le, b, pe)
      (if_both IsInOrder s.request_event (record s { request_event = false; phase = settling }) s
        (m, le, b, pe) (m, le, ph, pe))

take_request-IsInOrder :
    (o : Option InspectionRequest) (s : WorkerState) (m : ℕ)
    → m ≤ s.next_sequence
    → Below (suc m) s.decisions
    → PendingOk m s.next_sequence o
    → PendingOk m s.next_sequence s.pending_request
    → IsInOrder (take_request o s)
take_request-IsInOrder none s m le b k pe = (m, le, b, pe)
take_request-IsInOrder (some r) s m le b k pe =
    (r.sequence, k.1, (refl, Below-mono (suc m) r.sequence s.decisions k.0 b), tt)

wait_at-IsInOrder :
    (result : WaitResult) (ph : Phase) (s : WorkerState)
    → IsInOrder (record s { phase = ph })
    → IsInOrder (wait_step result (record s { phase = ph }))
unfolding wait_step
wait_at-IsInOrder signalled waiting s (m, le, b, pe) =
    woken-IsInOrder (record s { phase = waiting }) m le b b pe
wait_at-IsInOrder timeout waiting s h = h
wait_at-IsInOrder failed waiting s h = h
wait_at-IsInOrder signalled settling s (m, le, b, pe) =
    woken-IsInOrder (record s { phase = settling }) m le b b pe
wait_at-IsInOrder timeout settling s (m, le, b, pe) =
    take_request-IsInOrder s.pending_request (record s { phase = settling }) m le b pe pe
wait_at-IsInOrder failed settling s h = h
wait_at-IsInOrder result (inspecting r) s h = h
wait_at-IsInOrder result (decided r d) s h = h
wait_at-IsInOrder result (announcing r d) s h = h
wait_at-IsInOrder result ended s h = h

look_at-IsInOrder :
    (sc : Scene) (ph : Phase) (s : WorkerState)
    → IsInOrder (record s { phase = ph })
    → IsInOrder (inspect_step sc (record s { phase = ph }))
unfolding inspect_step
look_at-IsInOrder sc waiting s h = h
look_at-IsInOrder sc settling s h = h
look_at-IsInOrder sc (inspecting r) s (m, le, (e, b), pe) = (m, le, (e, inspect_for sc r, b), pe)
look_at-IsInOrder sc (decided r d) s (m, le, (e, i, b), pe) =
    if_both (λ (ph : Phase). IsInOrder (record s { phase = ph }))
      (is_superseded r s.pending_request) waiting (announcing r d)
      (m, le, Below-mono m (suc m) s.decisions (omega arith) b, pe) (m, le, (e, i, b), pe)
look_at-IsInOrder sc (announcing r d) s (m, le, (e, i, b), pe) =
    if_both
      (λ (xs : List (InspectionRequest × WindowsTextInputDecision)).
        IsInOrder (record s { phase = waiting; decisions = xs }))
      s.has_callback ((r, d) ∷ s.decisions) s.decisions
      (m, le, (omega (arith, e), i, subst (λ k. Below k s.decisions) (sym e) b), pe)
      (m, le, Below-mono m (suc m) s.decisions (omega arith) b, pe)
look_at-IsInOrder sc ended s h = h

pub step-IsInOrder :
    (o : Op) (s : WorkerState) → suc s.next_sequence < 2 ^ 64 → IsInOrder s → IsInOrder (step o s)
unfolding step
step-IsInOrder (ask id given cursor) s small h = ask-IsInOrder id given cursor s small h
step-IsInOrder (wait result) s small h = wait_at-IsInOrder result s.phase s h
step-IsInOrder (look sc) s small h = look_at-IsInOrder sc s.phase s h
step-IsInOrder stop_run s small h = h
step-IsInOrder forget_callback s small h = h
step-IsInOrder forget_request s small (m, le, ph, pe) = (m, le, ph, tt)
step-IsInOrder signal_stop s small h = h
