-- ===== src/Windows/Editing/Matching.antt =====
-- An inspection decides by the first element that takes text.
use hardware_simulator.Prelude.{
  ℕ, zero, suc, ◌≡◌, refl, sym, ap, ◌∙◌, inl, inr, Bool, true, false, not, Option, none, some, List,
  [], ◌∷◌, ◌++◌, if◌then◌else◌, Bool-cases, Option-cases, if_true, if_false, take,
}
use hardware_simulator.Windows.Pointer.{Point}
use hardware_simulator.Windows.Editing.{
  Element, is_windows_text_input_element_eligible, maximum_parent_depth,
  try_match_text_input_element_chain, InspectionRequest, WindowsTextInputDecision, Scene, try_match,
  decide, inspect,
}

-- The first element of a list that takes text at a point.
abbrev pub first_eligible : Point → List Element → Option Element
first_eligible p [] = none
first_eligible p (e ∷ es) =
    let rest = first_eligible p es in
    if is_windows_text_input_element_eligible e p then some e else rest

abbrev pub chain_of : Option (List Element) → List Element
chain_of none = []
chain_of (some es) = take maximum_parent_depth es

-- All that an inspection looks at, in its order.
abbrev pub candidates : Scene → List Element
candidates sc = if sc.has_cache then chain_of sc.at_point ++ chain_of sc.focused else []

-- The decision that an element stands for.
abbrev pub decision_on : InspectionRequest → Option Element → WindowsTextInputDecision
decision_on r none = decide r none
decision_on r (some e) = decide r (some e.is_password)

password : Option Element → Option (Option Bool)
password none = none
password (some e) = some e.is_password

or_first : Option Element → Option Element → Option Element
or_first none b = b
or_first (some e) b = some e

chain_step :
    (b : Bool) (e : Element) (rest : Option (Option Bool)) (first : Option Element)
    → rest ≡ password first
    → (if b then some e.is_password else rest) ≡ password (if b then some e else first)
unfolding password
chain_step true e rest first h = refl
chain_step false e rest first h = h

try_match_text_input_element_chain-first :
    (n : ℕ) (p : Point) (es : List Element)
    → try_match_text_input_element_chain n p es ≡ password (first_eligible p (take n es))
unfolding try_match_text_input_element_chain password
try_match_text_input_element_chain-first zero p es = refl
try_match_text_input_element_chain-first (suc n) p [] = refl
try_match_text_input_element_chain-first (suc n) p (e ∷ es) =
    chain_step (is_windows_text_input_element_eligible e p) e
      (try_match_text_input_element_chain n p es) (first_eligible p (take n es))
      (try_match_text_input_element_chain-first n p es)

try_match-first :
    (p : Point) (chain : Option (List Element))
    → try_match p chain ≡ password (first_eligible p (chain_of chain))
unfolding password
try_match-first p none = refl
try_match-first p (some es) = try_match_text_input_element_chain-first maximum_parent_depth p es

append_step :
    (b : Bool) (e : Element) (all first second : Option Element)
    → all ≡ or_first first second
    → (if b then some e else all) ≡ or_first (if b then some e else first) second
unfolding or_first
append_step true e all first second h = refl
append_step false e all first second h = h

first_eligible-append :
    (p : Point) (es fs : List Element)
    → first_eligible p (es ++ fs) ≡ or_first (first_eligible p es) (first_eligible p fs)
unfolding or_first
first_eligible-append p [] fs = refl
first_eligible-append p (e ∷ es) fs =
    append_step (is_windows_text_input_element_eligible e p) e (first_eligible p (es ++ fs))
      (first_eligible p es) (first_eligible p fs) (first_eligible-append p es fs)

decide_both :
    Option (Option Bool) → Option (Option Bool) → InspectionRequest → WindowsTextInputDecision
decide_both none second r = decide r second
decide_both (some secure) second r = decide r (some secure)

decide_by :
    (r : InspectionRequest) (first second : Option Element)
    → decide_both (password first) (password second) r ≡ decision_on r (or_first first second)
unfolding decide_both password or_first
decide_by r none none = refl
decide_by r none (some e) = refl
decide_by r (some e) second = refl

inspect_both :
    (sc : Scene) (r : InspectionRequest)
    → sc.has_cache ≡ true
    → inspect sc r ≡ decide_both (try_match r.point sc.at_point) (try_match r.point sc.focused) r
unfolding inspect decide_both
inspect_both sc r h =
    if_false (not sc.has_cache) (decide r none) _ (ap not h)
    ∙ elim (Option-cases (try_match r.point sc.at_point)) [
      | inl e ↦ rw (e) refl
      | inr (x, e) ↦ rw (e) refl
    ]

-- An inspection decides by the first element that takes text at the point, among the twelve first of the
-- chain at the point and then those of the focused chain, and tells whether it is secret; without one,
-- or without a cache request, it decides that there is none.
pub inspect_decides :
    (sc : Scene) (r : InspectionRequest)
    → inspect sc r ≡ decision_on r (first_eligible r.point (candidates sc))
unfolding inspect
inspect_decides sc r = elim (Bool-cases sc.has_cache) [
  | inr h ↦ rw (inspect, h) refl
  | inl h ↦
      let found = first_eligible-append r.point (chain_of sc.at_point) (chain_of sc.focused) in
      let cs : candidates sc ≡ chain_of sc.at_point ++ chain_of sc.focused =
        if_true sc.has_cache _ [] h in
      inspect_both sc r h
      ∙ rw
          (try_match-first r.point sc.at_point, try_match-first r.point sc.focused, decide_by r _ _)
          (ap (decision_on r) (sym (ap (first_eligible r.point) cs ∙ found)))
]
