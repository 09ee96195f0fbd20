-- ===== src/Windows/Service/Delivery/Loop.antt =====
-- The start of the thread and the steps of its loop keep the flags and the handle.
use hardware_simulator.Prelude.{
  ℕ, ◌+◌, ◌≡◌, refl, sym, ap, ◌∙◌, ◌≢◌, inl, inr, Bool, true, false, not, ◌||◌, Option, none, some,
  List, [], ◌∷◌, arith, if◌then◌else◌, is_some, if_both, if_cases,
}
use hardware_simulator.Windows.Service.{
  Packet, Phase, not_started, at_head, connecting, finished, writing, Client, Starting, joinable,
  start_input_thread, write_next, head_step, Answer, connected_step, written_step, resume,
  loop_step,
}
use hardware_simulator.Windows.Service.Delivery.Handles.{
  IsSound, quiet-IsSound, dropped-IsSound, may_hold, is_writing, may_accept, is_running, handles,
}

phase_of_joinable : (c : Client) → joinable c ≡ false → c.phase ≡ not_started
phase_of_joinable c e = at c.phase refl
  where
    at : (p : Phase) → c.phase ≡ p → c.phase ≡ not_started
    at not_started q = q
    at at_head q = absurd (cc)
    at connecting q = absurd (cc)
    at finished q = absurd (cc)
    at (writing p) q = absurd (cc)

write_next-IsSound :
    (q : List Packet) (c : Client)
    → c.phase ≡ at_head
    → c.stop_requested ≡ false
    → c.reset_requested ≡ false
    → is_some c.input_pipe ≡ true
    → c.input_queue ≡ q
    → IsSound c
    → IsSound (write_next q c)
unfolding write_next
write_next-IsSound [] c e s r i t h = h
write_next-IsSound (p ∷ ps) c e s r i t h = record {
  quiet = λ q. let z : [] ≡ p ∷ ps = sym (h.quiet q) ∙ t in absurd (cc);
  available = h.available;
  not_stopped = h.not_stopped;
  not_reset = h.not_reset;
  piped = h.piped;
  accepting = λ q. refl;
  held = i;
  balance = h.balance;
  event = λ q. h.event (rw (e) refl);
  woken = λ q z. absurd (ground arith);
}

both : (b : Bool) → b ≡ true → not b ≢ true
both true p q = cc
both false p q = cc

right_false : (a b : Bool) → a || b ≡ false → b ≡ false
right_false true b e = absurd (cc)
right_false false b e = e

left_false : (a b : Bool) → a || b ≡ false → a ≡ false
left_false true b e = e
left_false false b e = refl

not-false : (b : Bool) → not b ≡ false → b ≡ true
not-false true e = refl
not-false false e = absurd (cc)

head_step-IsSound : (c : Client) → c.phase ≡ at_head → IsSound c → IsSound (head_step c)
unfolding head_step
head_step-IsSound c e h =
    let ev : c.interrupt_event ≡ true = h.event (rw (e) refl) in
    if_cases IsSound c.stop_requested _ _
      (λ s. dropped-IsSound (record c { phase = finished }) h.balance (inr refl) (λ q. ev))
      (λ s.
        if_cases IsSound (not c.service_available || c.reset_requested) _ _
          (λ d.
            dropped-IsSound (record c { interrupted = false; reset_requested = false }) h.balance
              (inl e) (λ q. ev))
          (λ d.
            if_cases IsSound (not (is_some c.input_pipe)) _ _
              (λ i. record {
                quiet = h.quiet;
                available = h.available;
                not_stopped = h.not_stopped;
                not_reset = h.not_reset;
                piped = h.piped;
                accepting = λ q. absurd (both (is_some c.input_pipe) (h.piped q) i);
                held = i;
                balance = h.balance;
                event = λ q. ev;
                woken = λ q. absurd (cc);
              })
              (λ i.
                write_next-IsSound c.input_queue c e s
                  (right_false (not c.service_available) c.reset_requested d)
                  (not-false (is_some c.input_pipe) i) refl h)))

not_true : (b : Bool) → b ≢ true → b ≡ false
not_true true n = absurd (n refl)
not_true false n = refl

pub no_pipe : (o : Option ℕ) → not (is_some o) ≡ true → o ≡ none
no_pipe none e = refl
no_pipe (some p) e = absurd (cc)

-- A client without a thread may make or lose its events.
cold-IsSound :
    (b s i : Bool) (c : Client)
    → c.phase ≡ not_started
    → IsSound c
    → IsSound (record c { interrupt_event = b; stop_requested = s; interrupted = i })
cold-IsSound b s i c e h =
    let off : c.input_connected ≡ false =
      not_true c.input_connected
        (λ y. let z : false ≡ true = sym (ap may_accept e) ∙ h.accepting y in absurd (cc)) in
    quiet-IsSound (record c { interrupt_event = b; stop_requested = s; interrupted = i }) off
      (h.quiet off) h.held h.balance
      (λ y. let z : false ≡ true = sym (ap is_running e) ∙ y in absurd (cc))
      (λ y. let z : false ≡ true = sym (ap is_writing e) ∙ y in absurd (cc))

pub start-IsSound : (w : Starting) (c : Client) → IsSound c → IsSound (start_input_thread w c).1
unfolding start_input_thread
start-IsSound w c h =
    let P : Bool × Client → Type 0 = λ x. IsSound x.1 in
    if_cases P (joinable c) _ _ (λ e. h)
      (λ e.
        let q = phase_of_joinable c e in
        let off : c.input_connected ≡ false =
          not_true c.input_connected
            (λ y. let z : false ≡ true = sym (ap may_accept q) ∙ h.accepting y in absurd (cc)) in
        if_both P (not w.interrupt_made) _ _
          (cold-IsSound false c.stop_requested c.interrupted c q h)
          (if_both P (not w.write_made) _ _
            (cold-IsSound false c.stop_requested c.interrupted c q h)
            (if_both P (not w.thread_made) _ _ (cold-IsSound false false c.interrupted c q h) (
              quiet-IsSound
                (record c {
                  interrupt_event = true;
                  interrupted = false;
                  stop_requested = false;
                  phase = at_head;
                  input_pipe = none;
                  failure_reported = false;
                })
                off (h.quiet off) refl
                (h.balance
                  ∙ ap (λ p. c.closed + handles p)
                      (no_pipe c.input_pipe
                        (sym (ap (λ p. may_hold p (is_some c.input_pipe)) q) ∙ h.held)))
                (λ y. refl) (λ y. absurd (cc))))))

one_more : (o : Option ℕ) (n m : ℕ) → n ≡ m → (if is_some o then n + 1 else n) ≡ m + handles o
one_more none n m e = omega (arith, e)
one_more (some p) n m e = omega (arith, e)

connected-IsSound :
    (o : Option ℕ) (c : Client) → c.phase ≡ connecting → IsSound c → IsSound (connected_step o c)
unfolding connected_step
connected-IsSound o c e h =
    let ev : c.interrupt_event ≡ true = h.event (rw (e) refl) in
    let off : c.input_connected ≡ false =
      not_true c.input_connected
        (λ y. let z : false ≡ true = sym (ap may_accept e) ∙ h.accepting y in absurd (cc)) in
    let shut =
      no_pipe c.input_pipe (sym (ap (λ p. may_hold p (is_some c.input_pipe)) e) ∙ h.held) in
    let b0 : c.opened ≡ c.closed = h.balance ∙ rw (shut) (omega arith) in
    let t = record c {
      phase = at_head;
      input_pipe = o;
      opened = if is_some o then c.opened + 1 else c.opened;
    } in
    if_cases IsSound (c.stop_requested || not c.service_available || c.reset_requested) t
      (record t { input_connected = is_some o })
      (λ z.
        quiet-IsSound t off (h.quiet off) refl (one_more o c.opened c.closed b0) (λ y. ev)
          (λ y. absurd (cc)))
      (λ z. record {
        quiet = λ y. h.quiet off;
        available = λ y. not-false c.service_available (
            right_false c.stop_requested (not c.service_available)
              (left_false (c.stop_requested || not c.service_available) c.reset_requested z));
        not_stopped = λ y.
            left_false c.stop_requested (not c.service_available)
              (left_false (c.stop_requested || not c.service_available) c.reset_requested z);
        not_reset =
            λ y. right_false (c.stop_requested || not c.service_available) c.reset_requested z;
        piped = λ y. y;
        accepting = λ y. refl;
        held = refl;
        balance = one_more o c.opened c.closed b0;
        event = λ y. ev;
        woken = λ y. absurd (cc);
      })

resume-IsSound :
    (p : Phase) (a : Answer) (c : Client) → c.phase ≡ p → IsSound c → IsSound (resume p a c)
unfolding resume connected_step written_step
resume-IsSound not_started a c e h = h
resume-IsSound at_head a c e h = head_step-IsSound c e h
resume-IsSound connecting a c e h = connected-IsSound a.pipe c e h
resume-IsSound (writing p) a c e h =
    let ev : c.interrupt_event ≡ true = h.event (rw (e) refl) in
    if_both IsSound a.written _ _
      (record {
        quiet = h.quiet;
        available = h.available;
        not_stopped = h.not_stopped;
        not_reset = h.not_reset;
        piped = h.piped;
        accepting = λ y. refl;
        held = refl;
        balance = h.balance;
        event = λ y. ev;
        woken = λ y. absurd (cc);
      })
      (dropped-IsSound (record c { phase = at_head; failure_reported = true }) h.balance (inl refl)
        (λ y. ev))
resume-IsSound finished a c e h = h

pub loop_step-IsSound : (a : Answer) (c : Client) → IsSound c → IsSound (loop_step a c)
unfolding loop_step
loop_step-IsSound a c h = resume-IsSound c.phase a c refl h
