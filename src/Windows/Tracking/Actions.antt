-- ===== src/Windows/Tracking/Actions.antt =====
-- The phases of the pen through all calls, the release of everything among them.
use hardware_simulator.Prelude.{ℕ, ◌≡◌, inl, inr, none, some, List, [], ◌∷◌, Option-cases}
use mathlib.Core.Path.{subst}
use hardware_simulator.Linux.Values.{Doubles}
use hardware_simulator.Windows.Pointer.{Metrics}
use hardware_simulator.Windows.Injection.{Outside}
use hardware_simulator.Windows.Tracking.{Tracking}
use hardware_simulator.Windows.Tracking.Pen.{PenDoubles}
use hardware_simulator.Windows.Tracking.Repeat.{
  Action, does, clears, run_call, clear_all_pressed_events, run_actions,
}
use hardware_simulator.Windows.Tracking.Phases.{PenPhase, away, next_phase, RestsIn}
use hardware_simulator.Windows.Tracking.Phases.Steps.{run_call-RestsIn}
use hardware_simulator.Windows.Tracking.Clearing.{clear_all_pressed_events-IsClear}

module _ (d : Doubles) (pd : PenDoubles d.D) (out : Outside) (m : Metrics) where
  open d use {D}

  -- The phase of the machine after the actions: the release of everything takes it to `away`.
  abbrev pub phase_at : List (ℕ × Action D) → Tracking D → PenPhase → PenPhase
  phase_at [] s ph = ph
  phase_at ((now, does c) ∷ more) s ph =
      phase_at more (run_call d out m pd now c s) (next_phase d pd out m now c s ph)
  phase_at ((now, clears held) ∷ more) s ph = elim (clear_all_pressed_events d out m held now s) [
    | none ↦ ph
    | some t ↦ phase_at more t away
  ]

  -- From a state in which the pen's flags are those of a phase, after any calls, rounds and releases of
  -- everything, as long as these are defined, they are those of the phase that the machine is in then.
  pub run_actions-RestsIn :
      (acts : List (ℕ × Action D)) (s t : Tracking D) (ph : PenPhase)
      → RestsIn d pd out m ph s
      → run_actions d out m pd acts s ≡ some t
      → RestsIn d pd out m (phase_at acts s ph) t
  unfolding run_actions
  run_actions-RestsIn [] s t ph h e = let same : s ≡ t = cc in subst (RestsIn d pd out m ph) same h
  run_actions-RestsIn ((now, does c) ∷ more) s t ph h e =
      run_actions-RestsIn more (run_call d out m pd now c s) t (next_phase d pd out m now c s ph)
        (run_call-RestsIn d pd out m now c s ph h) e
  run_actions-RestsIn ((now, clears held) ∷ more) s t ph h e =
      elim (Option-cases (clear_all_pressed_events d out m held now s)) [
        | inl f ↦ let z : none ≡ some t = rw (run_actions, f) at e in absurd (cc)
        | inr (u, f) ↦
            let rest : run_actions d out m pd more u ≡ some t = rw (run_actions, f) at e in
            rw (phase_at, f)
              (run_actions-RestsIn more u t away
                (clear_all_pressed_events-IsClear d pd out m held now s u ph h f).2 rest)
      ]
