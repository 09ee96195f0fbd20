-- ===== src/Windows/Gamepad/Cookies.antt =====
-- The registry holds exactly the subscriptions of the slots, under cookies that are never used again.
pub mod Subscribing
pub mod Runs
use hardware_simulator.Prelude.{
  ℕ, ◌+◌, ◌-◌, ◌≤◌, ◌<◌, ◌≡◌, refl, sym, ap, ◌∙◌, ◌≢◌, inl, inr, true, false, Option, none, some,
  arith, ◌==◌, Bool-cases,
}
use hardware_simulator.Windows.Gamepad.{
  RumbleCallbackData, Registry, uintptr_max, put, register_callback, new_cookie, lookup,
  remove_callback, RumbleContext, Manager, Request, notify, unregister_rumble, subscribe_fresh,
}

abbrev pub IsListed : ℕ → RumbleContext → (ℕ → Option RumbleCallbackData) → Type 0
IsListed i x entries = record {
  entry : entries x.cookie ≡ some x.info;
  id : x.info.controller_id ≡ i + 1;
}

abbrev pub IsOwned : ℕ → RumbleContext → Type 0
IsOwned c x = record { subscribed : x.registered ≡ true; under : x.cookie ≡ c }

abbrev pub IsValid : Manager → Type 0
IsValid m = record {
  fits : m.registry.next ≤ uintptr_max;
  fresh : (c : ℕ) → m.registry.next < c → m.registry.entries c ≡ none;
  no_zero : m.registry.entries 0 ≡ none;
  held : (i : ℕ) → (m.contexts i).registered ≡ true → IsListed i (m.contexts i) m.registry.entries;
  idle : (i : ℕ) → (m.contexts i).registered ≡ false → (m.contexts i).cookie ≡ 0;
  owned :
      (c : ℕ) (d : RumbleCallbackData)
      → m.registry.entries c ≡ some d
      → IsOwned c (m.contexts (d.controller_id - 1));
}

-- What an updated function has at an index, by whether it is the updated one.
pub put_elim {ℓ κ} :
    {A : Type ℓ} (P : A → Type κ) (k i : ℕ) (x : A) (f : ℕ → A)
    → (i ≡ k → P x)
    → (i ≢ k → P (f i))
    → P (put k x f i)
put_elim P k i x f p q = elim (Bool-cases (i == k)) [
  | inl e ↦ rw (e) (p (ground arith))
  | inr e ↦ rw (e) (q (λ z. absurd (ground arith)))
]

-- A slot other than the unregistered one keeps its cookie apart from it.
cookie_apart :
    (i j : ℕ) (m : Manager)
    → IsValid m
    → j ≢ i
    → (m.contexts j).registered ≡ true
    → (m.contexts j).cookie ≢ (m.contexts i).cookie
cookie_apart i j m v n r e = elim (Bool-cases (m.contexts i).registered) [
  | inl q ↦
      let a = v.held i q in
      let b = v.held j r in
      let same : some (m.contexts j).info ≡ some (m.contexts i).info =
        sym b.entry ∙ rw (e) a.entry in
      let ids : (m.contexts j).info.controller_id ≡ (m.contexts i).info.controller_id = cc in
      n (omega (arith, ids, a.id, b.id))
  | inr q ↦
      let e0 : (m.contexts j).cookie ≡ 0 = e ∙ v.idle i q in
      let none_some : none ≡ some (m.contexts j).info =
        sym v.no_zero ∙ sym (ap m.registry.entries e0) ∙ (v.held j r).entry in
      absurd (cc)
]

-- The context of a slot without its subscription.
abbrev off : RumbleContext → RumbleContext
off x = record x { registered = false; cookie = 0 }

pub unregister_rumble-IsValid : (i : ℕ) (m : Manager) → IsValid m → IsValid (unregister_rumble i m)
unfolding unregister_rumble remove_callback
unregister_rumble-IsValid i m v =
    let k = (m.contexts i).cookie in
    let es = put k none m.registry.entries in
    record {
      fits = v.fits;
      fresh = λ c l.
          put_elim (λ x. x ≡ none) k c none m.registry.entries (λ e. refl) (λ e. v.fresh c l);
      no_zero = put_elim (λ x. x ≡ none) k 0 none m.registry.entries (λ e. refl) (λ e. v.no_zero);
      held = λ j.
          put_elim (λ x. x.registered ≡ true → IsListed j x es) i j (off (m.contexts i)) m.contexts
            (λ e r. absurd (cc))
            (λ e r. record {
              entry =
                  put_elim (λ x. x ≡ some (m.contexts j).info) k (m.contexts j).cookie none
                    m.registry.entries (λ z. absurd (cookie_apart i j m v e r z))
                    (λ z. (v.held j r).entry);
              id = (v.held j r).id;
            });
      idle = λ j.
          put_elim (λ x. x.registered ≡ false → x.cookie ≡ 0) i j (off (m.contexts i)) m.contexts
            (λ e r. refl) (λ e r. v.idle j r);
      owned = λ c d.
          put_elim
            (λ x.
              x ≡ some d → IsOwned c (put i (off (m.contexts i)) m.contexts (d.controller_id - 1)))
            k c none m.registry.entries (λ e z. absurd (cc))
            (λ e z.
              put_elim (λ x. IsOwned c x) i (d.controller_id - 1) (off (m.contexts i)) m.contexts
                (λ q. absurd (e (sym (v.owned c d z).under ∙ ap (λ x. (m.contexts x).cookie) q)))
                (λ q. v.owned c d z));
    }
