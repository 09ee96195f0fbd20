-- ===== src/Windows/Injection/Delivered/Joined.antt =====
-- An event that Windows accepts on the right desktop is taken.
use hardware_simulator.Prelude.{
  ℕ, suc, ◌≡◌, refl, sym, ◌∙◌, ◌≢◌, Bool, true, false, List, ◌==◌, ==_iff, if_cases,
}
use hardware_simulator.Windows.Service.Messages.{Input}
use hardware_simulator.Windows.Injection.{
  Event, input, Taken, Outside, Sender, or_else, offer_service, give_windows, attempt, retry, send,
}
use hardware_simulator.Windows.Injection.Delivered.{Grown, attempt-Tries, offer_service-Tries}
use mathlib.Core.Path.{subst}

or_else_delivers :
    (e : Event) (before : List Taken) (r : Bool × Sender) (next : Sender → Bool × Sender)
    → Grown e r.0 before r.1.taken
    → (r.0 ≡ false → Grown e true before (next r.1).1.taken)
    → Grown e true before (or_else r next).1.taken
or_else_delivers e before (true, t) next h n = h
or_else_delivers e before (false, t) next h n = n refl

-- What a failed step has left.
kept :
    (e : Event) (before : List Taken) (r : Bool × Sender)
    → Grown e r.0 before r.1.taken
    → r.0 ≡ false
    → r.1.taken ≡ before
kept e before (true, t) h f = let z : true ≡ false = f in absurd (cc)
kept e before (false, t) h f = h

module _ (out : Outside) (i : Input) where
  -- A round in which Windows accepts.
  accepted_round :
      (fuel last : ℕ) (s : Sender)
      → out.send_input_accepts s.asked ≡ true
      → Grown (input i) true s.taken (retry out (suc fuel) (input i) last s).1.taken
  unfolding retry give_windows
  accepted_round fuel last s a =
      or_else_delivers (input i) s.taken (attempt out (input i) s) _
        (attempt-Tries out (input i) s).1 λ f. let z : true ≡ false = sym a ∙ f in absurd (cc)

  -- Two rounds, the second on a desktop that the loop has joined.
  joined_round :
      (fuel : ℕ) (s : Sender)
      → out.send_input_accepts (suc (suc s.asked)) ≡ true
      → ((k : ℕ) → out.input_desktop k ≢ 0)
      → Grown (input i) true s.taken (retry out (suc (suc fuel)) (input i) 0 s).1.taken
  unfolding retry give_windows
  joined_round fuel s a joins =
      let r = attempt out (input i) s in
      let tries = attempt-Tries out (input i) s in
      or_else_delivers (input i) s.taken r _ tries.1 λ f.
        let d = out.input_desktop (r.1).asked in
        let u : Sender = record (r.1) { asked = suc (r.1).asked } in
        if_cases (λ (q : Bool × Sender). Grown (input i) true s.taken q.1.taken) (d == 0) (true, u)
          (retry out (suc fuel) (input i) d u) (λ z. absurd (joins (r.1).asked ((==_iff d 0).0 z)))
          (λ z.
            subst (λ l. Grown (input i) true l (retry out (suc fuel) (input i) d u).1.taken)
              (kept (input i) s.taken r tries.1 f) (accepted_round fuel d u a))

  -- A try by `SendInput` and the loop after it.
  tried_rounds :
      (fuel : ℕ) (s : Sender)
      → out.send_input_accepts (suc (suc (suc s.asked))) ≡ true
      → ((k : ℕ) → out.input_desktop k ≢ 0)
      → Grown
          (input i)
          true
          s.taken
          (or_else (attempt out (input i) s) (retry out (suc (suc fuel)) (input i) 0)).1.taken
  unfolding give_windows
  tried_rounds fuel s a joins =
      let r = attempt out (input i) s in
      let tries = attempt-Tries out (input i) s in
      or_else_delivers (input i) s.taken r (retry out (suc (suc fuel)) (input i) 0) tries.1 λ f.
        subst (λ l. Grown (input i) true l (retry out (suc (suc fuel)) (input i) 0 r.1).1.taken)
          (kept (input i) s.taken r tries.1 f) (joined_round fuel r.1 a joins)

  or_else_assoc :
      (r : Bool × Sender) (f g : Sender → Bool × Sender)
      → or_else (or_else r f) g ≡ or_else r (λ t. or_else (f t) g)
  or_else_assoc (true, t) f g = refl
  or_else_assoc (false, t) f g = refl

  -- An `INPUT` is taken whatever the service and Windows answer first, if Windows accepts it when it
  -- has been asked three times, by when the loop's thread has joined an input desktop, one being open.
  pub input_delivered :
      (fuel : ℕ) (s : Sender)
      → out.patience ≡ suc (suc fuel)
      → out.send_input_accepts (suc (suc (suc s.asked))) ≡ true
      → ((k : ℕ) → out.input_desktop k ≢ 0)
      → Grown (input i) true s.taken (send out (input i) s).taken
  unfolding send offer_service
  input_delivered fuel s p a joins =
      let r = offer_service (input i) s in
      let offered = offer_service-Tries (input i) s in
      let next : Sender → Bool × Sender =
        λ t. or_else (attempt out (input i) t) (retry out (suc (suc fuel)) (input i) 0) in
      rw (send, p, or_else_assoc r (attempt out (input i)) (retry out (suc (suc fuel)) (input i) 0))
        (or_else_delivers (input i) s.taken r next offered.1 λ f.
          subst (λ l. Grown (input i) true l (next r.1).1.taken)
            (kept (input i) s.taken r offered.1 f) (tried_rounds fuel r.1 a joins))
