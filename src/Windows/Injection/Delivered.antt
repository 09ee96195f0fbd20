-- ===== src/Windows/Injection/Delivered.antt =====
-- The loop that sends an event again: it ends, and the event is taken at most once.
pub mod Joined
use hardware_simulator.Prelude.{
  ℕ, zero, suc, ◌+◌, ◌≤◌, ◌≡◌, refl, sym, ap, ◌∙◌, ◌⊎◌, inl, inr, Bool, true, false, not, List, ◌∷◌,
  arith, ◌==◌, ==_iff, Bool-cases, if_both, if_true,
}
use mathlib.Core.Path.{subst}
use hardware_simulator.Windows.Service.Messages.{Input, Pointer}
use hardware_simulator.Windows.Injection.{
  Event, input, contacts, stylus, Taken, by_service, by_windows, Outside, Sender, or_else, and_then,
  service_takes, offer_service, create_touch_device, create_pen_device, give_windows, inject,
  send_touch, send_pen, attempt, retry, first_attempt, send, load_api, init_touch_api,
}

-- From the n-th question on the input desktop is the same.
abbrev pub Settles : Outside → ℕ → Type 0
Settles out n = (k : ℕ) → n ≤ k → out.input_desktop k ≡ out.input_desktop n

-- An event was taken once, by someone, or not at all.
abbrev pub Grown : Event → Bool → List Taken → List Taken → Type 0
Grown e true before after = (after ≡ by_service e ∷ before) ⊎ (after ≡ by_windows e ∷ before)
Grown e false before after = after ≡ before

-- What an attempt does: it asks no question less, and the event was taken if it says so.
abbrev pub Tries : Event → Sender → Bool × Sender → Type 0
Tries e s r = (s.asked ≤ r.1.asked) × Grown e r.0 s.taken r.1.taken

-- A step that takes nothing.
abbrev Quiet : Sender → Sender → Type 0
Quiet s t = (s.asked ≤ t.asked) × (t.taken ≡ s.taken)

Tries-Quiet : (e : Event) (s t : Sender) (r : Bool × Sender) → Quiet s t → Tries e t r → Tries e s r
Tries-Quiet e s t (true, u) q (le, inl h) =
    (omega (arith, q.0, le), inl (h ∙ ap (λ x. by_service e ∷ x) q.1))
Tries-Quiet e s t (true, u) q (le, inr h) =
    (omega (arith, q.0, le), inr (h ∙ ap (λ x. by_windows e ∷ x) q.1))
Tries-Quiet e s t (false, u) q (le, h) = (omega (arith, q.0, le), h ∙ q.1)

or_else-Tries :
    (e : Event) (s : Sender) (r : Bool × Sender) (next : Sender → Bool × Sender)
    → Tries e s r
    → ((t : Sender) → Tries e t (next t))
    → Tries e s (or_else r next)
or_else-Tries e s (true, t) next h n = h
or_else-Tries e s (false, t) next h n = Tries-Quiet e s t (next t) h (n t)

and_then-Tries :
    (e : Event) (s : Sender) (r : Bool × Sender) (next : Sender → Bool × Sender)
    → Quiet s r.1
    → ((t : Sender) → Tries e t (next t))
    → Tries e s (and_then r next)
and_then-Tries e s (true, t) next h n = Tries-Quiet e s t (next t) h (n t)
and_then-Tries e s (false, t) next h n = h

pub offer_service-Tries : (e : Event) (s : Sender) → Tries e s (offer_service e s)
unfolding offer_service
offer_service-Tries e s = elim (Bool-cases (service_takes e s.client).0) [
  | inl t ↦ rw (offer_service, t) (omega arith, inl refl)
  | inr f ↦ rw (offer_service, f) (omega arith, refl)
]

give_windows-Tries :
    (accepts : ℕ → Bool) (e : Event) (s : Sender) → Tries e s (give_windows accepts e s)
unfolding give_windows
give_windows-Tries accepts e s = elim (Bool-cases (accepts s.asked)) [
  | inl t ↦ rw (give_windows, t) (omega arith, inr refl)
  | inr f ↦ rw (give_windows, f) (omega arith, refl)
]

module _ (out : Outside) where
  load_api-Quiet : (s : Sender) → Quiet s (load_api out s)
  unfolding init_touch_api
  load_api-Quiet s =
      if_both (Quiet s) s.fn_create s (init_touch_api out s) (omega arith, refl) (omega arith, refl)

  create_touch_device-Quiet : (s : Sender) → Quiet s (create_touch_device out s).1
  unfolding create_touch_device
  create_touch_device-Quiet s =
      let q = load_api-Quiet s in
      let t = load_api out s in
      if_both (λ (r : Bool × Sender). Quiet s r.1) (not t.fn_create) (false, t) _ q
        (omega (arith, q.0), q.1)

  create_pen_device-Quiet : (s : Sender) → Quiet s (create_pen_device out s).1
  unfolding create_pen_device
  create_pen_device-Quiet s =
      let q = load_api-Quiet s in
      let t = load_api out s in
      if_both (λ (r : Bool × Sender). Quiet s r.1) (not t.fn_create) (false, t) _ q
        (omega (arith, q.0), q.1)

  inject-Tries : (e : Event) (s : Sender) → Tries e s (inject out e s)
  inject-Tries e s =
      if_both (Tries e s) (not s.fn_inject) (false, s) _ (omega arith, refl)
        (give_windows-Tries out.inject_accepts e s)

  send_touch-Tries : (ps : List Pointer) (s : Sender) → Tries (contacts ps) s (send_touch out ps s)
  unfolding send_touch
  send_touch-Tries ps s =
      or_else-Tries (contacts ps) s (offer_service (contacts ps) s) _
        (offer_service-Tries (contacts ps) s)
        λ t.
          and_then-Tries (contacts ps) t _ (inject out (contacts ps))
            (if_both (λ (r : Bool × Sender). Quiet t r.1) t.touch_device (true, t)
              (create_touch_device out t) (omega arith, refl) (create_touch_device-Quiet t))
            (inject-Tries (contacts ps))

  send_pen-Tries : (p : Pointer) (s : Sender) → Tries (stylus p) s (send_pen out p s)
  unfolding send_pen
  send_pen-Tries p s =
      or_else-Tries (stylus p) s (offer_service (stylus p) s) _ (offer_service-Tries (stylus p) s)
        λ t.
          and_then-Tries (stylus p) t _ (inject out (stylus p))
            (if_both (λ (r : Bool × Sender). Quiet t r.1) t.pen_device (true, t)
              (create_pen_device out t) (omega arith, refl) (create_pen_device-Quiet t))
            (inject-Tries (stylus p))

  pub attempt-Tries : (e : Event) (s : Sender) → Tries e s (attempt out e s)
  attempt-Tries (input i) s = give_windows-Tries out.send_input_accepts (input i) s
  attempt-Tries (contacts ps) s = send_touch-Tries ps s
  attempt-Tries (stylus p) s = send_pen-Tries p s

  pub first_attempt-Tries : (e : Event) (s : Sender) → Tries e s (first_attempt out e s)
  first_attempt-Tries (input i) s =
      or_else-Tries (input i) s (offer_service (input i) s) (attempt out (input i))
        (offer_service-Tries (input i) s) (attempt-Tries (input i))
  first_attempt-Tries (contacts ps) s = send_touch-Tries ps s
  first_attempt-Tries (stylus p) s = send_pen-Tries p s

  -- Where the step after a failure takes the event at most once, so do both.
  or_else_once :
      (e : Event) (s : Sender) (r : Bool × Sender) (next : Sender → Bool × Sender)
      → Tries e s r
      → ((t : Sender) → (b : Bool) × Grown e b t.taken (next t).1.taken)
      → (b : Bool) × Grown e b s.taken (or_else r next).1.taken
  or_else_once e s (true, t) next h n = (true, h.1)
  or_else_once e s (false, t) next h n =
      subst (λ l. (b : Bool) × Grown e b l (next t).1.taken) h.1 (n t)

  -- A run of the loop, whether or not it has ended.
  retry_once :
      (fuel : ℕ) (e : Event) (last : ℕ) (s : Sender)
      → (b : Bool) × Grown e b s.taken (retry out fuel e last s).1.taken
  unfolding retry
  retry_once zero e last s = (false, refl)
  retry_once (suc fuel) e last s = or_else_once e s (attempt out e s) _ (attempt-Tries e s) λ t.
      let h = out.input_desktop t.asked in
      let u : Sender = record t { asked = suc t.asked } in
      if_both (λ (r : Bool × Sender). (b : Bool) × Grown e b t.taken r.1.taken) (h == last)
        (true, u) (retry out fuel e h u) (false, refl) (retry_once fuel e h u)

  -- Whatever Windows and the service answer, a call has the event taken once or not at all.
  pub send_at_most_once :
      (e : Event) (s : Sender) → (b : Bool) × Grown e b s.taken (send out e s).taken
  unfolding send
  send_at_most_once e s =
      or_else_once e s (first_attempt out e s) (retry out out.patience e 0)
        (first_attempt-Tries e s) (retry_once out.patience e 0)

  or_else_ends :
      (s : Sender) (r : Bool × Sender) (next : Sender → Bool × Sender)
      → s.asked ≤ r.1.asked
      → ((t : Sender) → s.asked ≤ t.asked → (next t).0 ≡ true)
      → (or_else r next).0 ≡ true
  or_else_ends s (true, t) next le n = refl
  or_else_ends s (false, t) next le n = n t le

  -- With the settled desktop as the last known one, a round ends the loop.
  ends_settled :
      (n fuel last : ℕ) (e : Event) (s : Sender)
      → Settles out n
      → n ≤ s.asked
      → last ≡ out.input_desktop n
      → (retry out (suc fuel) e last s).0 ≡ true
  unfolding retry
  ends_settled n fuel last e s h le l =
      or_else_ends s (attempt out e s) _ (attempt-Tries e s).0 λ t more.
        ap (λ (r : Bool × Sender). r.0)
          (if_true (out.input_desktop t.asked == last) _ _ (
            (==_iff (out.input_desktop t.asked) last).1
              (h t.asked (omega (arith, le, more)) ∙ sym l)))

  -- If the input desktop settles at the n-th question, the loop ends within two rounds after it.
  pub retry_ends :
      (n fuel : ℕ) (e : Event) (last : ℕ) (s : Sender)
      → Settles out n
      → n + 2 ≤ fuel + s.asked
      → 2 ≤ fuel
      → (retry out fuel e last s).0 ≡ true
  unfolding retry
  retry_ends n zero e last s h le two = absurd (omega (arith, two))
  retry_ends n (suc zero) e last s h le two = absurd (omega (arith, two))
  retry_ends n (suc (suc zero)) e last s h le two =
      or_else_ends s (attempt out e s) _ (attempt-Tries e s).0 λ t more.
        let d = out.input_desktop t.asked in
        let u : Sender = record t { asked = suc t.asked } in
        if_both (λ (r : Bool × Sender). r.0 ≡ true) (d == last) (true, u) (retry out 1 e d u) refl
          (ends_settled n 0 d e u h (omega (arith, le, more)) (h t.asked (omega (arith, le, more))))
  retry_ends n (suc (suc (suc fuel))) e last s h le two =
      or_else_ends s (attempt out e s) _ (attempt-Tries e s).0 λ t more.
        let d = out.input_desktop t.asked in
        let u : Sender = record t { asked = suc t.asked } in
        if_both (λ (r : Bool × Sender). r.0 ≡ true) (d == last) (true, u)
          (retry out (suc (suc fuel)) e d u) refl
          (retry_ends n (suc (suc fuel)) e d u h (omega (arith, le, more)) (omega arith))
