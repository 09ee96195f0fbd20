-- ===== src/Windows/Service/Delivery/Handles.antt =====
-- The flags of the client, the phases of its thread, and the handle of the pipe.
use hardware_simulator.Prelude.{
  ℕ, ◌+◌, ◌≡◌, refl, sym, ◌∙◌, ◌≢◌, ◌⊎◌, inl, inr, Bool, true, false, not, ◌||◌, Option, none, some,
  [], arith, is_some, Option-cases,
}
use hardware_simulator.Windows.Service.{
  Phase, not_started, at_head, finished, writing, Client, close_pipe, drop_input,
}

-- Whether a phase goes with a pipe being open.
abbrev pub may_hold : Phase → Bool → Bool
may_hold at_head b = true
may_hold (writing p) b = b
may_hold _ b = not b

abbrev pub is_writing : Phase → Bool
is_writing (writing p) = true
is_writing _ = false

-- Whether packets can be accepted in a phase, the thread being there to write them.
abbrev pub may_accept : Phase → Bool
may_accept at_head = true
may_accept (writing p) = true
may_accept _ = false

abbrev pub is_running : Phase → Bool
is_running not_started = false
is_running finished = false
is_running _ = true

abbrev pub handles : Option ℕ → ℕ
handles none = 0
handles (some p) = 1

abbrev pub IsSound : Client → Type 0
IsSound c = record {
  quiet : c.input_connected ≡ false → c.input_queue ≡ [];
  available : c.input_connected ≡ true → c.service_available ≡ true;
  not_stopped : c.input_connected ≡ true → c.stop_requested ≡ false;
  not_reset : c.input_connected ≡ true → c.reset_requested ≡ false;
  piped : c.input_connected ≡ true → is_some c.input_pipe ≡ true;
  accepting : c.input_connected ≡ true → may_accept c.phase ≡ true;
  held : may_hold c.phase (is_some c.input_pipe) ≡ true;
  balance : c.opened ≡ c.closed + handles c.input_pipe;
  event : is_running c.phase ≡ true → c.interrupt_event ≡ true;
  woken :
      is_writing c.phase ≡ true
      → c.stop_requested || c.reset_requested ≡ true
      → c.interrupted ≡ true;
}

-- With nothing connected, only the phase, the handles and the events matter.
pub quiet-IsSound :
    (c : Client)
    → c.input_connected ≡ false
    → c.input_queue ≡ []
    → may_hold c.phase (is_some c.input_pipe) ≡ true
    → c.opened ≡ c.closed + handles c.input_pipe
    → (is_running c.phase ≡ true → c.interrupt_event ≡ true)
    → (is_writing c.phase ≡ true
        → c.stop_requested || c.reset_requested ≡ true
        → c.interrupted ≡ true)
    → IsSound c
quiet-IsSound c o q m b e w =
    let not_on : c.input_connected ≢ true = λ y. let z : false ≡ true = sym o ∙ y in absurd (cc) in
    record {
      quiet = λ y. q;
      available = λ y. absurd (not_on y);
      not_stopped = λ y. absurd (not_on y);
      not_reset = λ y. absurd (not_on y);
      piped = λ y. absurd (not_on y);
      accepting = λ y. absurd (not_on y);
      held = m;
      balance = b;
      event = e;
      woken = w;
    }

-- A thread that has dropped its input and closes its pipe is at the head of its loop, or over.
pub dropped-IsSound :
    (c : Client)
    → c.opened ≡ c.closed + handles c.input_pipe
    → (c.phase ≡ at_head) ⊎ (c.phase ≡ finished)
    → (is_running c.phase ≡ true → c.interrupt_event ≡ true)
    → IsSound (close_pipe (drop_input c))
dropped-IsSound c b p e =
    let idle : is_writing c.phase ≢ true =
      λ y. elim p [ inl z ↦ absurd (cc) | inr z ↦ absurd (cc) ] in
    elim (Option-cases c.input_pipe) [
      | inl z ↦
          rw (close_pipe, z)
            (quiet-IsSound (drop_input c) refl refl
              (elim p [ inl y ↦ rw (y) refl | inr y ↦ rw (y, z) refl ]) b e (λ y. absurd (idle y)))
      | inr (h, z) ↦
          rw (close_pipe, z)
            (quiet-IsSound
              (record c {
                input_connected = false;
                input_queue = [];
                input_pipe = none;
                closed = c.closed + 1;
              })
              refl refl (elim p [ inl y ↦ rw (y) refl | inr y ↦ rw (y) refl ])
              (b ∙ (rw (z) (omega arith))) e (λ y. absurd (idle y)))
    ]
