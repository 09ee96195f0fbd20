-- ===== src/Linux/Immersive/Reentry.antt =====
-- A signal that comes while a call prepares does not prepare again.
use hardware_simulator.Prelude.{
  ◌≡◌, refl, sym, ap, ◌∙◌, Bool, true, not, List, [], ◌∷◌, ◌==◌, if◌then◌else◌, if_both, if_true,
}
use hardware_simulator.Linux.Immersive.{
  Impl, Signal, focus_changed, unmapped, destroyed, top_gone, view_gone, global, removed, release,
  set_enabled_with, signal, signals,
}

busy :
    (p : Impl → Bool × Impl) (s : Impl)
    → s.preparing ≡ true
    → (set_enabled_with p true s).1 ≡ record s { wanted = true }
unfolding set_enabled_with
busy p s e =
    ap (λ (x : Bool × Impl). x.1)
      (if_true s.preparing (true, record s { wanted = true }) (p (record s { wanted = true })) e)

signal_alike :
    (p q : Impl → Bool × Impl) (x : Signal) (s : Impl)
    → s.preparing ≡ true
    → signal p x s ≡ signal q x s
unfolding signal set_enabled_with
signal_alike p q (focus_changed active) s e =
    ap (λ t. if not s.top then s else if not active then release s else if s.wanted then t else s)
      (busy p s e ∙ sym (busy q s e))
signal_alike p q unmapped s e = refl
signal_alike p q destroyed s e = refl
signal_alike p q top_gone s e = refl
signal_alike p q view_gone s e = refl
signal_alike p q (global is_manager name) s e = refl
signal_alike p q (removed name) s e = refl

signal_busy :
    (p : Impl → Bool × Impl) (x : Signal) (s : Impl)
    → s.preparing ≡ true
    → (signal p x s).preparing ≡ true
unfolding signal set_enabled_with release
signal_busy p (focus_changed active) s e =
    let P : Impl → Type 0 = λ x. x.preparing ≡ true in
    if_both P (not s.top) _ _ e (
      if_both P (not active) _ _ e (
        if_both P s.wanted (set_enabled_with p true s).1 s
          (ap (λ (x : Impl). x.preparing) (busy p s e) ∙ e) e))
signal_busy p unmapped s e = if_both (λ (x : Impl). x.preparing ≡ true) (not s.top) _ _ e e
signal_busy p destroyed s e = if_both (λ (x : Impl). x.preparing ≡ true) (not s.top) _ _ e e
signal_busy p top_gone s e = e
signal_busy p view_gone s e = e
signal_busy p (global is_manager name) s e =
    if_both (λ (x : Impl). x.preparing ≡ true) is_manager _ _ e e
signal_busy p (removed name) s e =
    if_both (λ (x : Impl). x.preparing ≡ true) (not (name == s.manager_name)) _ _ e e

-- The signals that a roundtrip delivers leave the same state whatever a nested preparation would do: the
-- guard lets none start.
pub signals_alike :
    (p q : Impl → Bool × Impl) (xs : List Signal) (s : Impl)
    → s.preparing ≡ true
    → signals p xs s ≡ signals q xs s
unfolding signals
signals_alike p q [] s e = refl
signals_alike p q (x ∷ xs) s e =
    signals_alike p q xs (signal p x s) (signal_busy p x s e)
    ∙ ap (λ t. signals q xs t) (signal_alike p q x s e)
