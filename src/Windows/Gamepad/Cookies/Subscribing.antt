-- ===== src/Windows/Gamepad/Cookies/Subscribing.antt =====
-- A subscription keeps the registry and the slots together.
use hardware_simulator.Prelude.{
  ℕ, ◌+◌, ◌-◌, ◌≡◌, refl, sym, ap, ◌∙◌, ◌≢◌, inl, inr, Bool, true, false, Option, none, some, List,
  ◌∷◌, arith, ◌==◌, Bool-cases,
}
use hardware_simulator.Windows.Gamepad.{
  RumbleCallbackData, uintptr_max, put, register_callback, remove_callback, RumbleContext, Manager,
  Request, notify, subscribe_fresh,
}
use hardware_simulator.Windows.Gamepad.Cookies.{IsListed, IsOwned, IsValid, put_elim}

-- A slot without a subscription owns no entry.
not_owned :
    (i c : ℕ) (d : RumbleCallbackData) (m : Manager)
    → (m.contexts i).registered ≡ false
    → IsValid m
    → d.controller_id - 1 ≡ i
    → m.registry.entries c ≢ some d
not_owned i c d m q v w y =
    let o = (v.owned c d y).subscribed in
    let t : true ≡ false = sym o ∙ ap (λ x. (m.contexts x).registered) w ∙ q in absurd (cc)

abbrev entered : ℕ → RumbleCallbackData → Manager → ℕ → Option RumbleCallbackData
entered c info m = put c (some info) m.registry.entries

-- What a subscription on a free slot leaves when the driver takes it.
accepted-IsValid :
    (i : ℕ) (info : RumbleCallbackData) (log : List Request) (m : Manager)
    → info.controller_id ≡ i + 1
    → (m.contexts i).registered ≡ false
    → m.registry.next ≢ uintptr_max
    → IsValid m
    → IsValid (record m {
      contexts =
          put i
            (record { info = info; registered = true; cookie = m.registry.next + 1 })
            m.contexts;
      registry = record {
        next = m.registry.next + 1;
        entries = entered (m.registry.next + 1) info m;
      };
      log = log;
    })
accepted-IsValid i info log m e q l v =
    let k = m.registry.next + 1 in
    let new : RumbleContext = record { info = info; registered = true; cookie = k } in
    record {
      fits = omega (arith, v.fits, l);
      fresh = λ c b.
          put_elim (λ x. x ≡ none) k c (some info) m.registry.entries (λ z. absurd (omega arith))
            (λ z. v.fresh c (omega arith));
      no_zero =
          put_elim (λ x. x ≡ none) k 0 (some info) m.registry.entries (λ z. absurd (omega arith))
            (λ z. v.no_zero);
      held = λ j.
          put_elim (λ x. x.registered ≡ true → IsListed j x (entered k info m)) i j new m.contexts
            (λ z r. record {
              entry =
                  put_elim (λ x. x ≡ some info) k k (some info) m.registry.entries (λ y. refl)
                    (λ y. absurd (y refl));
              id = omega (arith, e, z);
            })
            (λ z r. record {
              entry =
                  put_elim (λ x. x ≡ some (m.contexts j).info) k (m.contexts j).cookie (some info)
                    m.registry.entries (λ y. absurd (late j r y)) (λ y. (v.held j r).entry);
              id = (v.held j r).id;
            });
      idle = λ j.
          put_elim (λ x. x.registered ≡ false → x.cookie ≡ 0) i j new m.contexts
            (λ z r. absurd (cc)) (λ z r. v.idle j r);
      owned = λ c d.
          put_elim (λ x. x ≡ some d → IsOwned c (put i new m.contexts (d.controller_id - 1))) k c
            (some info) m.registry.entries
            (λ z y.
              put_elim (λ x. IsOwned c x) i (d.controller_id - 1) new m.contexts
                (λ w. record { subscribed = refl; under = sym z })
                (λ w.
                  let ids : info.controller_id ≡ d.controller_id = cc in
                  absurd (w (omega (arith, e, ids)))))
            (λ z y.
              put_elim (λ x. IsOwned c x) i (d.controller_id - 1) new m.contexts
                (λ w. absurd (not_owned i c d m q v w y)) (λ w. v.owned c d y));
    }
  where
    late : (j : ℕ) → (m.contexts j).registered ≡ true → (m.contexts j).cookie ≢ m.registry.next + 1
    late j r y =
        let f = v.fresh (m.registry.next + 1) (omega arith) in
        let g = (v.held j r).entry in
        let h = ap m.registry.entries y in
        let i : none ≡ some (m.contexts j).info = sym f ∙ sym h ∙ g in absurd (cc)

-- An entry that is made and removed leaves no trace.
undone :
    {A : Type 0} (k c : ℕ) (x : A) (f : ℕ → Option A)
    → f k ≡ none
    → put k none (put k (some x) f) c ≡ f c
undone k c x f e =
    put_elim (λ y. y ≡ f c) k c none (put k (some x) f) (λ z. sym (ap f z ∙ e))
      (λ z. put_elim (λ y. y ≡ f c) k c (some x) f (λ w. absurd (z w)) (λ w. refl))

-- What it leaves when the driver refuses.
refused-IsValid :
    (i : ℕ) (info : RumbleCallbackData) (log : List Request) (m : Manager)
    → m.registry.next ≢ uintptr_max
    → (m.contexts i).registered ≡ false
    → IsValid m
    → IsValid (record m {
      contexts = put i (record { info = info; registered = false; cookie = 0 }) m.contexts;
      registry = record {
        next = m.registry.next + 1;
        entries = put (m.registry.next + 1) none (entered (m.registry.next + 1) info m);
      };
      log = log;
    })
refused-IsValid i info log m l q v =
    let k = m.registry.next + 1 in
    let new : RumbleContext = record { info = info; registered = false; cookie = 0 } in
    let es = put k none (entered k info m) in
    let same : (c : ℕ) → es c ≡ m.registry.entries c =
      λ c. undone k c info m.registry.entries (v.fresh k (omega arith)) in
    record {
      fits = omega (arith, v.fits, l);
      fresh = λ c b. same c ∙ v.fresh c (omega arith);
      no_zero = same 0 ∙ v.no_zero;
      held = λ j.
          put_elim (λ x. x.registered ≡ true → IsListed j x es) i j new m.contexts
            (λ z r. absurd (cc))
            (λ z r. record {
              entry = same (m.contexts j).cookie ∙ (v.held j r).entry;
              id = (v.held j r).id;
            });
      idle = λ j.
          put_elim (λ x. x.registered ≡ false → x.cookie ≡ 0) i j new m.contexts (λ z r. refl)
            (λ z r. v.idle j r);
      owned = λ c d y.
          put_elim (λ x. IsOwned c x) i (d.controller_id - 1) new m.contexts
            (λ w. absurd (not_owned i c d m q v w (sym (same c) ∙ y)))
            (λ w. v.owned c d (sym (same c) ∙ y));
    }

-- A subscription on a slot that has none.
pub subscribe_fresh-IsValid :
    (i : ℕ) (info : RumbleCallbackData) (driver_accepts : Bool) (m : Manager)
    → info.controller_id ≡ i + 1
    → (m.contexts i).registered ≡ false
    → IsValid m
    → IsValid (subscribe_fresh i info driver_accepts m).1
unfolding subscribe_fresh register_callback remove_callback
subscribe_fresh-IsValid i info driver_accepts m e q v =
    elim (Bool-cases (m.registry.next == uintptr_max)) [
      | inl full ↦ rw (full) v
      | inr fits ↦
          let n : m.registry.next ≢ uintptr_max = λ z. absurd (ground arith) in
          let f : m.registry.entries (m.registry.next + 1) ≡ none =
            v.fresh (m.registry.next + 1) (omega arith) in
          let p : (m.registry.next + 1 == 0) ≡ false = ground arith in
          settled driver_accepts fits n f p
    ]
  where
    settled :
        (b : Bool)
        → (m.registry.next == uintptr_max) ≡ false
        → m.registry.next ≢ uintptr_max
        → m.registry.entries (m.registry.next + 1) ≡ none
        → (m.registry.next + 1 == 0) ≡ false
        → IsValid (subscribe_fresh i info b m).1
    settled true fits n f p =
        rw (fits, f, p)
          (accepted-IsValid i info (notify (m.controllers i) (m.registry.next + 1) ∷ m.log) m e q n
            v)
    settled false fits n f p =
        rw (fits, f, p)
          (refused-IsValid i info (notify (m.controllers i) (m.registry.next + 1) ∷ m.log) m n q v)
