-- ===== src/Windows/Service/Delivery.antt =====
-- What the thread writes: packets that were accepted, in their order, none twice; and its handles.
pub mod Handles
pub mod Loop
pub mod Stopping
use hardware_simulator.Prelude.{
  ◌≡◌, refl, sym, ap, ◌∙◌, inl, inr, Bool, true, false, not, ◌||◌, List, [], ◌∷◌, ◌++◌, is_some,
  Option-cases, if_both,
}
use hardware_simulator.Windows.Service.{
  Packet, Phase, not_started, at_head, connecting, finished, writing, Client, new_client, Starting,
  joinable, start_input_thread, interrupt, set_service_available, enqueue, close_pipe, drop_input,
  write_next, head_step, Answer, connected_step, written_step, resume, loop_step, close_begin,
  join_from, joined, close, Step, available, send, loop, closing, step, run,
}

-- A list that leaves out members of another and keeps the order of the rest.
pub data IsSublist : List Packet → List Packet → Type 0 where
  none_left : IsSublist [] []
  left_out : {p : Packet} {xs ys : List Packet} → IsSublist xs ys → IsSublist xs (p ∷ ys)
  kept : {p : Packet} {xs ys : List Packet} → IsSublist xs ys → IsSublist (p ∷ xs) (p ∷ ys)

-- A queue, its last packet first, before older packets.
abbrev pub onto : List Packet → List Packet → List Packet
onto [] ps = ps
onto (q ∷ qs) ps = onto qs (q ∷ ps)

onto-append :
    (qs : List Packet) (p : Packet) (ps : List Packet) → onto (qs ++ p ∷ []) ps ≡ p ∷ onto qs ps
onto-append [] p ps = refl
onto-append (q ∷ qs) p ps = onto-append qs p (q ∷ ps)

onto-IsSublist : (qs xs ps : List Packet) → IsSublist xs ps → IsSublist xs (onto qs ps)
onto-IsSublist [] xs ps h = h
onto-IsSublist (q ∷ qs) xs ps h = onto-IsSublist qs xs (q ∷ ps) (left_out h)

-- The accepted packets are the queue after older ones, of which those handed to the pipe are some, in
-- the same order.
abbrev pub IsOrdered : Client → Type 0
IsOrdered c =
    (older : List Packet) × (c.accepted ≡ onto c.input_queue older) × IsSublist c.attempted older

-- A queue that is thrown away.
drop_input-IsOrdered : (c : Client) → IsOrdered c → IsOrdered (drop_input c)
drop_input-IsOrdered c h =
    (c.accepted, refl, rw (h.1) (onto-IsSublist c.input_queue c.attempted h.0 h.2))

close_pipe-IsOrdered : (c : Client) → IsOrdered c → IsOrdered (close_pipe c)
close_pipe-IsOrdered c h = elim (Option-cases c.input_pipe) [
  | inl e ↦ rw (close_pipe, e) h
  | inr (p, e) ↦ rw (close_pipe, e) h
]

start-IsOrdered : (w : Starting) (c : Client) → IsOrdered c → IsOrdered (start_input_thread w c).1
unfolding start_input_thread
start-IsOrdered w c h =
    let P : Bool × Client → Type 0 = λ x. IsOrdered x.1 in
    if_both P (joinable c) _ _ h (
      if_both P (not w.interrupt_made) _ _ h
        (if_both P (not w.write_made) _ _ h (if_both P (not w.thread_made) _ _ h h)))

write_next-IsOrdered :
    (q : List Packet) (c : Client) → c.input_queue ≡ q → IsOrdered c → IsOrdered (write_next q c)
unfolding write_next
write_next-IsOrdered [] c e h = h
write_next-IsOrdered (p ∷ ps) c e h = (p ∷ h.0, h.1 ∙ ap (λ q. onto q h.0) e, kept h.2)

head_step-IsOrdered : (c : Client) → IsOrdered c → IsOrdered (head_step c)
unfolding head_step
head_step-IsOrdered c h =
    if_both IsOrdered c.stop_requested _ _
      (close_pipe-IsOrdered (drop_input (record c { phase = finished }))
        (drop_input-IsOrdered (record c { phase = finished }) h))
      (if_both IsOrdered (not c.service_available || c.reset_requested) _ _
        (let t = record c { interrupted = false; reset_requested = false } in
          close_pipe-IsOrdered (drop_input t) (drop_input-IsOrdered t h))
        (if_both IsOrdered (not (is_some c.input_pipe)) _ _ h
          (write_next-IsOrdered c.input_queue c refl h)))

resume-IsOrdered : (p : Phase) (a : Answer) (c : Client) → IsOrdered c → IsOrdered (resume p a c)
unfolding resume connected_step written_step
resume-IsOrdered not_started a c h = h
resume-IsOrdered at_head a c h = head_step-IsOrdered c h
resume-IsOrdered connecting a c h =
    if_both IsOrdered (c.stop_requested || not c.service_available || c.reset_requested) _ _ h h
resume-IsOrdered (writing p) a c h =
    let t = record c { phase = at_head; failure_reported = true } in
    if_both IsOrdered a.written _ _ h
      (close_pipe-IsOrdered (drop_input t) (drop_input-IsOrdered t h))
resume-IsOrdered finished a c h = h

loop_step-IsOrdered : (a : Answer) (c : Client) → IsOrdered c → IsOrdered (loop_step a c)
unfolding loop_step
loop_step-IsOrdered a c h = resume-IsOrdered c.phase a c h

join_from-IsOrdered : (p : Phase) (c : Client) → IsOrdered c → IsOrdered (join_from p c)
join_from-IsOrdered not_started c h = h
join_from-IsOrdered at_head c h = h
join_from-IsOrdered connecting c h = h
join_from-IsOrdered (writing p) c h = h
join_from-IsOrdered finished c h = h

close-IsOrdered : (a b : Answer) (c : Client) → IsOrdered c → IsOrdered (close a b c)
unfolding close
close-IsOrdered a b c h =
    let t = record c { stop_requested = true; service_available = false } in
    let hd = drop_input-IsOrdered t h in
    let hb : IsOrdered (close_begin c) = if_both IsOrdered c.interrupt_event _ _ hd hd in
    let u = loop_step b (loop_step a (close_begin c)) in
    join_from-IsOrdered u.phase u (
      loop_step-IsOrdered b (loop_step a (close_begin c))
        (loop_step-IsOrdered a (close_begin c) hb))

step-IsOrdered : (s : Step) (c : Client) → IsOrdered c → IsOrdered (step s c)
unfolding step set_service_available enqueue
step-IsOrdered (available b w) c h =
    let t = record c { service_available = false; reset_requested = true } in
    let hd = drop_input-IsOrdered t h in
    if_both IsOrdered b _ _ (start-IsOrdered w (record c { service_available = true }) h)
      (if_both IsOrdered c.interrupt_event _ _ hd hd)
step-IsOrdered (send p) c h =
    if_both (λ (x : Bool × Client). IsOrdered x.1) (not c.input_connected) _ _ h
      (h.0, ap (λ x. p ∷ x) h.1 ∙ sym (onto-append c.input_queue p h.0), h.2)
step-IsOrdered (loop a) c h = loop_step-IsOrdered a c h
step-IsOrdered (closing a b) c h = close-IsOrdered a b c h

-- From a state in which it holds, after any calls and any steps of the thread the packets accepted are
-- the queue after older ones, and the packets handed to `WriteMessage` are some of the older ones, in
-- the order of their acceptance: none is written twice, none overtakes another, and none is written
-- that was not accepted.
pub run-IsOrdered : (ss : List Step) (c : Client) → IsOrdered c → IsOrdered (run ss c)
unfolding run
run-IsOrdered [] c h = h
run-IsOrdered (s ∷ ss) c h = run-IsOrdered ss (step s c) (step-IsOrdered s c h)
