-- ===== src/Linux/Immersive/Holding.antt =====
-- What is held at any time: a grab with its timer, or an inhibitor, and only while it is wanted.
pub mod Runs
use hardware_simulator.Prelude.{
  ℕ, ◌+◌, ◌≡◌, refl, ap, Bool, false, not, ◌&&◌, ◌||◌, List, [], ◌∷◌, arith, if◌then◌else◌,
}
use hardware_simulator.Linux.Immersive.{
  Effect, grab, ungrab, inhibit, destroy_inhibitor, add_watch, remove_watch, destroy_manager, Impl,
  Signal, focus_changed, unmapped, destroyed, top_gone, view_gone, global, removed, emit_if,
  release, set_enabled_with, signal, signals, captured,
}

abbrev pub grabs : List Effect → ℕ
grabs [] = 0
grabs (grab ∷ es) = 1 + grabs es
grabs (_ ∷ es) = grabs es

abbrev pub ungrabs : List Effect → ℕ
ungrabs [] = 0
ungrabs (ungrab ∷ es) = 1 + ungrabs es
ungrabs (_ ∷ es) = ungrabs es

abbrev pub inhibits : List Effect → ℕ
inhibits [] = 0
inhibits (inhibit ∷ es) = 1 + inhibits es
inhibits (_ ∷ es) = inhibits es

abbrev pub destroys : List Effect → ℕ
destroys [] = 0
destroys (destroy_inhibitor ∷ es) = 1 + destroys es
destroys (_ ∷ es) = destroys es

abbrev pub count : Bool → ℕ
count b = if b then 1 else 0

abbrev pub IsHeld : Impl → Type 0
IsHeld s = record {
  kind : s.window ≡ s.grabbed || s.inhibitor;
  watched : s.focus_watch ≡ s.grabbed;
  one : s.grabbed && s.inhibitor ≡ false;
  managed : s.inhibitor && not s.manager ≡ false;
  asked : s.window && s.view && not s.wanted ≡ false;
  grab_count : grabs s.log ≡ ungrabs s.log + count s.grabbed;
  inhibit_count : inhibits s.log ≡ destroys s.log + count s.inhibitor;
}

-- Nothing is held.
abbrev pub IsFree : Impl → Type 0
IsFree s = record {
  no_window : s.window ≡ false;
  no_grab : s.grabbed ≡ false;
  no_watch : s.focus_watch ≡ false;
  no_inhibitor : s.inhibitor ≡ false;
  no_grab_left : grabs s.log ≡ ungrabs s.log;
  no_inhibit_left : inhibits s.log ≡ destroys s.log;
}

pub free-IsHeld : (s : Impl) → IsFree s → IsHeld s
free-IsHeld s f = ground arith

pub held-IsFree : (s : Impl) → IsHeld s → s.window ≡ false → IsFree s
held-IsFree s h e = ground arith

release_log :
    (g i w : Bool) (l : List Effect)
    → (grabs (emit_if g ungrab (emit_if i destroy_inhibitor (emit_if w remove_watch l))) ≡ grabs l)
      × (ungrabs (emit_if g ungrab (emit_if i destroy_inhibitor (emit_if w remove_watch l)))
          ≡ ungrabs l + count g)
      × (inhibits (emit_if g ungrab (emit_if i destroy_inhibitor (emit_if w remove_watch l)))
          ≡ inhibits l)
      × (destroys (emit_if g ungrab (emit_if i destroy_inhibitor (emit_if w remove_watch l)))
          ≡ destroys l + count i)
release_log g i w l = ground arith

grab_window : (g w i : Bool) → w ≡ g || i → g && w ≡ g
grab_window g w i e = ground arith

grab_gone : (g w i : Bool) → w ≡ g || i → g && not w ≡ false
grab_gone g w i e = ground arith

pub release_frees :
    (s : Impl)
    → s.window ≡ s.grabbed || s.inhibitor
    → grabs s.log ≡ ungrabs s.log + count s.grabbed
    → inhibits s.log ≡ destroys s.log + count s.inhibitor
    → IsFree (release s)
unfolding release
release_frees s k gs is =
    let r = release_log (s.grabbed && s.window) s.inhibitor s.focus_watch s.log in
    let g : count (s.grabbed && s.window) ≡ count s.grabbed =
      ap count (grab_window s.grabbed s.window s.inhibitor k) in
    record {
      no_window = refl;
      no_grab = grab_gone s.grabbed s.window s.inhibitor k;
      no_watch = refl;
      no_inhibitor = refl;
      no_grab_left = omega (arith, r.0, r.1, gs, g);
      no_inhibit_left = omega (arith, r.2, r.3, is);
    }

pub release-IsFree : (s : Impl) → IsHeld s → IsFree (release s)
release-IsFree s h = release_frees s h.kind h.grab_count h.inhibit_count

-- `release` does not look at what is wanted.
pub release_unwanted : (s : Impl) → IsHeld s → IsFree (release (record s { wanted = false }))
unfolding release
release_unwanted s h = release-IsFree s h

-- A manager that is lost takes nothing with it, once nothing is held.
pub lose_manager :
    (s : Impl)
    → IsFree s
    → IsFree (record s {
      manager = false;
      manager_name = 0;
      log = emit_if s.manager destroy_manager s.log;
    })
lose_manager s f = ground arith
