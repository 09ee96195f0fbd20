-- ===== src/Linux/Mouse/Pairing/Down.antt =====
-- What is down on each of the two devices.
use hardware_simulator.Prelude.{
  ◌≡◌, refl, sym, ap, ◌∙◌, ◌⊎◌, inl, inr, Bool, true, false, ◌&&◌, Option, none, some, List, [],
  ◌∷◌, arith, ◌==◌, if◌then◌else◌, ==_iff, Bool-cases, if_true, if_false,
}
use hardware_simulator.Linux.Mouse.{
  MouseMode, relative, absolute, MouseButton, rank, MouseOp, move, move_abs, press, release,
  vertical_scroll, horizontal_scroll,
}
use hardware_simulator.Linux.Mouse.Pairing.{mode_of, newest, IsPaired}

abbrev pub same_mode : MouseMode → MouseMode → Bool
same_mode relative relative = true
same_mode absolute absolute = true
same_mode _ _ = false

same_mode_self : (m : MouseMode) → same_mode m m ≡ true
same_mode_self relative = refl
same_mode_self absolute = refl

same_mode_eq : (m n : MouseMode) → same_mode m n ≡ true → m ≡ n
same_mode_eq relative relative e = refl
same_mode_eq absolute absolute e = refl
same_mode_eq relative absolute e = absurd (cc)
same_mode_eq absolute relative e = absurd (cc)

-- A press or a release changes the button of one device.
abbrev change : MouseMode → MouseButton → MouseButton → List MouseOp → Bool → Bool → Bool
change m b c ops now before = if rank c == rank b && same_mode (mode_of ops) m then now else before

-- Whether a button is down on the device of a mode.
abbrev pub is_down_on : MouseMode → MouseButton → List MouseOp → Bool
is_down_on m b [] = false
is_down_on m b (press c ∷ ops) = change m b c ops true (is_down_on m b ops)
is_down_on m b (release c ∷ ops) = change m b c ops false (is_down_on m b ops)
is_down_on m b (move x y ∷ ops) = is_down_on m b ops
is_down_on m b (move_abs x y w h ∷ ops) = is_down_on m b ops
is_down_on m b (vertical_scroll d ∷ ops) = is_down_on m b ops
is_down_on m b (horizontal_scroll d ∷ ops) = is_down_on m b ops

-- No button is pressed while its newest press, since its last release, was on the other device.
abbrev pub IsFresh : List MouseOp → Type 0
IsFresh [] = Unit {0}
IsFresh (press b ∷ ops) =
    ((newest b ops ≡ none) ⊎ (newest b ops ≡ some (mode_of ops))) × IsFresh ops
IsFresh (release b ∷ ops) = IsFresh ops
IsFresh (move x y ∷ ops) = IsFresh ops
IsFresh (move_abs x y w h ∷ ops) = IsFresh ops
IsFresh (vertical_scroll d ∷ ops) = IsFresh ops
IsFresh (horizontal_scroll d ∷ ops) = IsFresh ops

-- Buttons of one rank are one.
newest-rank :
    (b c : MouseButton) (ops : List MouseOp) → rank c ≡ rank b → newest c ops ≡ newest b ops
newest-rank b c [] e = refl
newest-rank b c (press a ∷ ops) e = ground (arith, newest-rank b c ops e)
newest-rank b c (release a ∷ ops) e = ground (arith, newest-rank b c ops e)
newest-rank b c (move x y ∷ ops) e = newest-rank b c ops e
newest-rank b c (move_abs x y w h ∷ ops) e = newest-rank b c ops e
newest-rank b c (vertical_scroll d ∷ ops) e = newest-rank b c ops e
newest-rank b c (horizontal_scroll d ∷ ops) e = newest-rank b c ops e

-- The newest press is down on its device.
pub newest-is_down_on :
    (m : MouseMode) (b : MouseButton) (ops : List MouseOp)
    → newest b ops ≡ some m
    → is_down_on m b ops ≡ true
newest-is_down_on m b [] e = absurd (cc)
newest-is_down_on m b (press c ∷ ops) e = elim (Bool-cases (rank c == rank b)) [
  | inl same ↦
      let at : some (mode_of ops) ≡ some m =
        sym (if_true (rank c == rank b) (some (mode_of ops)) (newest b ops) same) ∙ e in
      let mode : mode_of ops ≡ m = cc in rw (same, mode, same_mode_self m) refl
  | inr other ↦ rw (other) (
      newest-is_down_on m b ops
        (sym (if_false (rank c == rank b) (some (mode_of ops)) (newest b ops) other) ∙ e))
]
newest-is_down_on m b (release c ∷ ops) e = elim (Bool-cases (rank c == rank b)) [
  | inl same ↦
      let at : none ≡ some m = sym (if_true (rank c == rank b) none (newest b ops) same) ∙ e in
      absurd (cc)
  | inr other ↦
      rw (other) (
        newest-is_down_on m b ops (sym (if_false (rank c == rank b) none (newest b ops) other) ∙ e))
]
newest-is_down_on m b (move x y ∷ ops) e = newest-is_down_on m b ops e
newest-is_down_on m b (move_abs x y w h ∷ ops) e = newest-is_down_on m b ops e
newest-is_down_on m b (vertical_scroll d ∷ ops) e = newest-is_down_on m b ops e
newest-is_down_on m b (horizontal_scroll d ∷ ops) e = newest-is_down_on m b ops e

-- What the newest press of a button does not pass over.
settled :
    (m n : MouseMode) (o : Option MouseMode)
    → same_mode n m ≡ false
    → o ≡ some m
    → (o ≡ none) ⊎ (o ≡ some n)
    → ⊥
settled m n o d e (inl z) = let w : none ≡ some m = sym z ∙ e in cc
settled m n o d e (inr z) =
    let w : some n ≡ some m = sym z ∙ e in
    let same : n ≡ m = cc in
    let t : true ≡ false = sym (same_mode_self m) ∙ ap (λ k. same_mode k m) (sym same) ∙ d in cc

-- Where the presses are fresh, nothing but the newest presses is down.
pub is_down_on-newest :
    (m : MouseMode) (b : MouseButton) (ops : List MouseOp)
    → IsPaired ops
    → IsFresh ops
    → is_down_on m b ops ≡ true
    → newest b ops ≡ some m
is_down_on-newest m b [] p f e = absurd (cc)
is_down_on-newest m b (press c ∷ ops) p f e = elim (Bool-cases (rank c == rank b)) [
  | inl same ↦ elim (Bool-cases (same_mode (mode_of ops) m)) [
    | inl there ↦ rw (same) (ap some (same_mode_eq (mode_of ops) m there))
    | inr away ↦
        let before : is_down_on m b ops ≡ true = rw (same, away) at e in
        let alike = newest-rank b c ops ((==_iff (rank c) (rank b)).0 same) in
        absurd (
          settled m (mode_of ops) (newest c ops) away
            (alike ∙ is_down_on-newest m b ops p f.1 before) f.0)
  ]
  | inr other ↦
      let before : is_down_on m b ops ≡ true = rw (other) at e in
      rw (other) (is_down_on-newest m b ops p f.1 before)
]
is_down_on-newest m b (release c ∷ ops) p f e = elim (Bool-cases (rank c == rank b)) [
  | inl same ↦ elim (Bool-cases (same_mode (mode_of ops) m)) [
    | inl there ↦ let z : false ≡ true = rw (same, there) at e in absurd (cc)
    | inr away ↦
        let before : is_down_on m b ops ≡ true = rw (same, away) at e in
        let alike = newest-rank b c ops ((==_iff (rank c) (rank b)).0 same) in
        absurd (
          settled m (mode_of ops) (newest c ops) away
            (alike ∙ is_down_on-newest m b ops p.1 f before) p.0)
  ]
  | inr other ↦
      let before : is_down_on m b ops ≡ true = rw (other) at e in
      rw (other) (is_down_on-newest m b ops p.1 f before)
]
is_down_on-newest m b (move x y ∷ ops) p f e = is_down_on-newest m b ops p f e
is_down_on-newest m b (move_abs x y w h ∷ ops) p f e = is_down_on-newest m b ops p f e
is_down_on-newest m b (vertical_scroll d ∷ ops) p f e = is_down_on-newest m b ops p f e
is_down_on-newest m b (horizontal_scroll d ∷ ops) p f e = is_down_on-newest m b ops p f e
