-- ===== src/Windows/Editing.antt =====
-- windows/windows_editing_event_monitor.cc: which element under a click takes text.
--
-- UI Automation's answers are the fields of an element; coordinates are far enough from the ends of a
-- LONG for the tolerance.
pub mod Worker
pub mod Queue
pub mod Matching
mod Tests
use hardware_simulator.Prelude.{
  ℕ, zero, suc, ◌+◌, Bool, true, false, not, ◌&&◌, ◌||◌, Option, none, some, List, [], ◌∷◌, map,
  leb, ◌==◌, if◌then◌else◌,
}
use hardware_simulator.Prelude.Int.{ℤ, pos, ◌+ℤ◌, ◌-ℤ◌, leb_ℤ}
use hardware_simulator.Windows.Pointer.{Point, Rect}

pub record WindowsTextInputTraits : Type 0 where
  pub control_type_id : ℕ
  pub supports_text_pattern : Bool
  pub supports_value_pattern : Bool
  pub supports_text_edit_pattern : Bool
  pub has_active_text_caret : Bool
  pub read_only : Bool
  pub known_rich_text_editor : Bool

abbrev pub edit_control : ℕ
edit_control = 50004

abbrev pub combo_box_control : ℕ
combo_box_control = 50003

abbrev pub document_control : ℕ
document_control = 50030

abbrev is_edit : WindowsTextInputTraits → Bool
is_edit t = t.control_type_id == edit_control

abbrev is_combo : WindowsTextInputTraits → Bool
is_combo t = t.control_type_id == combo_box_control && t.supports_value_pattern

abbrev is_document : WindowsTextInputTraits → Bool
is_document t =
    t.control_type_id == document_control
    && (t.has_active_text_caret || (t.supports_text_pattern && t.known_rich_text_editor))

abbrev supports_editing : WindowsTextInputTraits → Bool
supports_editing t = t.supports_text_edit_pattern || t.has_active_text_caret

unfoldable pub is_windows_text_input_candidate : WindowsTextInputTraits → Bool
is_windows_text_input_candidate t =
    if not (is_edit t || is_combo t || is_document t || supports_editing t)
    then false
    else if not t.read_only
    then true
    else is_document t && (t.has_active_text_caret || t.known_rich_text_editor)

abbrev tolerance : ℤ
tolerance = pos 8

unfoldable pub rect_contains_point_with_tolerance : Rect → Point → Bool
rect_contains_point_with_tolerance r p =
    if leb_ℤ r.right r.left || leb_ℤ r.bottom r.top
    then false
    else leb_ℤ (r.left -ℤ tolerance) p.x
      && leb_ℤ p.x (r.right +ℤ tolerance)
      && leb_ℤ (r.top -ℤ tolerance) p.y
      && leb_ℤ p.y (r.bottom +ℤ tolerance)

-- An element with what its cache tells: of a property that it lacks `none`, `caret` if the text pattern
-- tells whether its caret is active, and the name of the process in bytes, empty if it is not known.
pub record Element : Type 0 where
  pub enabled : Bool
  pub keyboard_focusable : Bool
  pub control_type : ℕ
  pub bounds : Rect
  pub text_available : Option Bool
  pub value_available : Option Bool
  pub text_edit_available : Option Bool
  pub value_read_only : Option Bool
  pub is_password : Option Bool
  pub caret : Option Bool
  pub process_name : List ℕ

abbrev pub value_or : Bool → Option Bool → Bool
value_or fallback none = fallback
value_or fallback (some b) = b

abbrev pub to_lower_ascii : List ℕ → List ℕ
to_lower_ascii cs = map (λ (c : ℕ). if leb 65 c && leb c 90 then c + 32 else c) cs

abbrev pub same_bytes : List ℕ → List ℕ → Bool
same_bytes [] [] = true
same_bytes (c ∷ cs) (d ∷ ds) = c == d && same_bytes cs ds
same_bytes _ _ = false

-- "winword.exe"
abbrev pub word_name : List ℕ
word_name = 119 ∷ 105 ∷ 110 ∷ 119 ∷ 111 ∷ 114 ∷ 100 ∷ 46 ∷ 101 ∷ 120 ∷ 101 ∷ []

abbrev pub is_known_rich_text_editor : List ℕ → Bool
is_known_rich_text_editor name = same_bytes (to_lower_ascii name) word_name

-- What the loop reads of an element; the caret only of those that may have one.
unfoldable pub traits_of : Element → WindowsTextInputTraits
traits_of e =
    let text = value_or false e.text_available in
    let value = value_or false e.value_available in
    let text_edit = value_or false e.text_edit_available in
    record {
      control_type_id = e.control_type;
      supports_text_pattern = text;
      supports_value_pattern = value;
      supports_text_edit_pattern = text_edit;
      has_active_text_caret =
          (e.control_type == document_control || text || text_edit) && value_or false e.caret;
      read_only = value && value_or false e.value_read_only;
      known_rich_text_editor =
          e.control_type == document_control && is_known_rich_text_editor e.process_name;
    }

unfoldable pub is_windows_text_input_element_eligible : Element → Point → Bool
unfolding is_windows_text_input_candidate rect_contains_point_with_tolerance traits_of
is_windows_text_input_element_eligible e p =
    is_windows_text_input_candidate (traits_of e)
    && e.enabled
    && e.keyboard_focusable
    && rect_contains_point_with_tolerance e.bounds p

abbrev pub maximum_parent_depth : ℕ
maximum_parent_depth = 12

-- The loop over an element and its ancestors, as the walker gives them: whether the one that matches is
-- secret.
unfoldable pub try_match_text_input_element_chain : ℕ → Point → List Element → Option (Option Bool)
unfolding is_windows_text_input_element_eligible
try_match_text_input_element_chain zero p es = none
try_match_text_input_element_chain (suc n) p [] = none
try_match_text_input_element_chain (suc n) p (e ∷ es) =
    let rest = try_match_text_input_element_chain n p es in
    if is_windows_text_input_element_eligible e p then some e.is_password else rest

pub record InspectionRequest : Type 0 where
  pub point : Point
  pub sequence : ℕ
  pub edit_focus_request_id : Option ℤ

pub record WindowsTextInputDecision : Type 0 where
  pub active : Bool
  pub secure : Option Bool
  pub request_id : Option ℤ

-- UI Automation at an inspection: whether there is a cache request, and the chains of the element at the
-- point and of the focused one, where they are told.
pub record Scene : Type 0 where
  pub has_cache : Bool
  pub at_point : Option (List Element)
  pub focused : Option (List Element)

abbrev pub try_match : Point → Option (List Element) → Option (Option Bool)
try_match p none = none
try_match p (some es) = try_match_text_input_element_chain maximum_parent_depth p es

abbrev pub decide : InspectionRequest → Option (Option Bool) → WindowsTextInputDecision
decide r none = record { active = false; secure = none; request_id = r.edit_focus_request_id }
decide r (some secure) = record {
  active = true;
  secure = secure;
  request_id = r.edit_focus_request_id;
}

unfoldable pub inspect : Scene → InspectionRequest → WindowsTextInputDecision
unfolding try_match_text_input_element_chain
inspect sc r = if not sc.has_cache then decide r none else elim (try_match r.point sc.at_point) [
  | some secure ↦ decide r (some secure)
  | none ↦ decide r (try_match r.point sc.focused)
]
