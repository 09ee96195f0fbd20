-- ===== src/Windows/Tracking/Slots/Full.antt =====
-- The touch slots when they are full, and their number.
use hardware_simulator.Prelude.{
  ℕ, zero, suc, ◌+◌, ◌≤◌, ◌<◌, ◌≡◌, refl, sym, ap, ◌∙◌, ◌≢◌, Bool, true, false, not, Option, none,
  some, List, [], ◌∷◌, arith, ltb, ◌==◌, if◌then◌else◌, if_both, length, All,
}
use hardware_simulator.Prelude.Int.{ℤ}
use hardware_simulator.Linux.Values.{Doubles}
use hardware_simulator.Windows.Pointer.{Point, Metrics}
use hardware_simulator.Windows.Injection.{Outside}
use hardware_simulator.Windows.Injection.Pointers.{any_flag, TouchSlot}
use hardware_simulator.Windows.Tracking.{Tracking}
use hardware_simulator.Windows.Tracking.Touch.{
  first_slot, slot_with_id, free_slot, change_slot, touch_slot, move_slot, take_slot,
  perform_touch_event,
}
use hardware_simulator.Windows.Tracking.Pen.{PenDoubles}
use hardware_simulator.Windows.Tracking.Repeat.{Call, run}
use hardware_simulator.Windows.Tracking.Slots.{SlotRule, claim, typed, run_keeps}

-- A slot that is in use, by another contact. A contact that has been lifted is in use as well.
abbrev pub Others : ℕ → TouchSlot → Type 0
Others id t = (any_flag t.flags ≡ true) × (t.pointer_id ≢ id)

abbrev pub IsFull : ℕ → List TouchSlot → Type 0
IsFull id ts = All (Others id) ts

All-change_slot :
    (P : TouchSlot → Type 0) (f : TouchSlot → TouchSlot) (i : ℕ) (ts : List TouchSlot)
    → ((t : TouchSlot) → P t → P (f t))
    → All P ts
    → All P (change_slot i f ts)
All-change_slot P f i [] k h = h
All-change_slot P f zero (t ∷ ts) k h = (k t h.0, h.1)
All-change_slot P f (suc i) (t ∷ ts) k h = (h.0, All-change_slot P f i ts k h.1)

pub first_slot-none :
    (test : TouchSlot → Bool) (ts : List TouchSlot)
    → All (λ t. test t ≡ false) ts
    → first_slot test ts ≡ none
first_slot-none test [] h = refl
first_slot-none test (t ∷ ts) h = rw (h.0, first_slot-none test ts h.1) refl

not_free : (id : ℕ) (ts : List TouchSlot) → IsFull id ts → free_slot ts ≡ none
not_free id ts h = first_slot-none _ ts (all_used ts h)
  where
    all_used : (us : List TouchSlot) → IsFull id us → All (λ t. not (any_flag t.flags) ≡ false) us
    all_used [] k = k
    all_used (u ∷ us) k = (ap not k.0.0, all_used us k.1)

not_found : (id : ℕ) (ts : List TouchSlot) → IsFull id ts → slot_with_id id ts ≡ none
not_found id ts h = first_slot-none _ ts (all_other ts h)
  where
    all_other : (us : List TouchSlot) → IsFull id us → All (λ t. (t.pointer_id == id) ≡ false) us
    all_other [] k = k
    all_other (u ∷ us) k = (ground (arith, k.0.1), all_other us k.1)

touched_flag :
    (is_down : Bool) (p : Point) (t : TouchSlot) → any_flag (touch_slot is_down p t).flags ≡ true
unfolding touch_slot
touched_flag true p t = refl
touched_flag false p t = refl

IsFull-rule : (id : ℕ) → SlotRule (λ ts active. IsFull id ts)
unfolding touch_slot move_slot
IsFull-rule id = record {
  when_claimed =
      λ i j active ts e f h. let z : none ≡ some i = sym (not_free id ts h) ∙ f in absurd (cc);
  when_typed = λ i active ts h. All-change_slot (Others id) typed i ts (λ t k. k) h;
  when_touched = λ i active is_down p ts h.
      All-change_slot (Others id) (touch_slot is_down p) i ts
        (λ t k. (touched_flag is_down p t, k.1)) h;
  when_moved =
      λ i active p ts h. All-change_slot (Others id) (move_slot p) i ts (λ t k. (refl, k.1)) h;
}

full_take :
    (d : Doubles) (out : Outside) (m : Metrics) (id : ℕ) (s : Tracking d.D)
    → IsFull id s.touch_info
    → take_slot d out m id s ≡ (none, s)
unfolding take_slot
full_take d out m id s k =
    rw (take_slot, not_found id s.touch_info k, not_free id s.touch_info k) refl

-- With every slot in use by other contacts, lifted or not, an event of a new contact does nothing, then
-- and after any calls and rounds but the release of everything.
pub full_drops :
    (d : Doubles) (out : Outside) (m : Metrics) (pd : PenDoubles d.D) (cs : List (ℕ × Call d.D))
    (s : Tracking d.D) (screen_id : ℤ) (x y : d.D) (id : ℕ) (is_down is_repeat : Bool) (now : ℕ)
    → IsFull id s.touch_info
    → perform_touch_event d out m screen_id x y id is_down is_repeat now (run d out m pd cs s)
      ≡ run d out m pd cs s
unfolding perform_touch_event
full_drops d out m pd cs s screen_id x y id is_down is_repeat now h =
    let t = run d out m pd cs s in
    let k : IsFull id t.touch_info =
      run_keeps (λ ts active. IsFull id ts) (IsFull-rule id) d out m pd cs s h in
    let e = full_take d out m id t k in
    let found : (take_slot d out m id t).0 ≡ none = ap (λ (r : Option ℕ × Tracking d.D). r.0) e in
    rw (perform_touch_event, found) (ap (λ (r : Option ℕ × Tracking d.D). r.1) e)

-- Ten slots, of which no more than ten are sent.
abbrev pub IsBounded : List TouchSlot → ℕ → Type 0
IsBounded ts active = (length ts ≡ 10) × (active ≤ 10)

length-change_slot :
    (f : TouchSlot → TouchSlot) (i : ℕ) (ts : List TouchSlot)
    → length (change_slot i f ts) ≡ length ts
length-change_slot f i [] = refl
length-change_slot f zero (t ∷ ts) = refl
length-change_slot f (suc i) (t ∷ ts) = ap suc (length-change_slot f i ts)

after_test :
    (i n : ℕ) (o : Option ℕ) (b : Bool)
    → ((j : ℕ) → o ≡ some j → j < n)
    → (if b then some 0 else elim o [ none ↦ none | some j ↦ some (suc j) ]) ≡ some i
    → i < suc n
after_test i n o true k e = let at : 0 ≡ i = cc in omega (arith, at)
after_test i n none false k e = let z : none ≡ some i = e in absurd (cc)
after_test i n (some j) false k e = let at : suc j ≡ i = cc in omega (arith, at, k j refl)

first_slot_lt :
    (test : TouchSlot → Bool) (i : ℕ) (ts : List TouchSlot)
    → first_slot test ts ≡ some i
    → i < length ts
first_slot_lt test i [] e = let z : none ≡ some i = e in absurd (cc)
first_slot_lt test i (t ∷ ts) e =
    after_test i (length ts) (first_slot test ts) (test t) (λ j. first_slot_lt test j ts) e

keeps_ten :
    (f : TouchSlot → TouchSlot) (i active : ℕ) (ts : List TouchSlot)
    → IsBounded ts active
    → IsBounded (change_slot i f ts) active
keeps_ten f i active ts h = (length-change_slot f i ts ∙ h.0, h.1)

IsBounded-rule : SlotRule IsBounded
IsBounded-rule = record {
  when_claimed = λ i id active ts e f h.
      let l = first_slot_lt _ i ts f in
      (
        length-change_slot (claim id) i ts ∙ h.0,
        if_both (λ n. n ≤ 10) (ltb (i + 1) active) active (i + 1) (h.1) (omega (arith, l, h.0)),
      );
  when_typed = λ i active ts h. keeps_ten typed i active ts h;
  when_touched = λ i active is_down p ts h. keeps_ten (touch_slot is_down p) i active ts h;
  when_moved = λ i active p ts h. keeps_ten (move_slot p) i active ts h;
}

-- After any calls and rounds there are ten slots, and as many or fewer are sent.
pub run-IsBounded :
    (d : Doubles) (out : Outside) (m : Metrics) (pd : PenDoubles d.D) (cs : List (ℕ × Call d.D))
    (s : Tracking d.D)
    → IsBounded s.touch_info s.active_touch_slots
    → IsBounded (run d out m pd cs s).touch_info (run d out m pd cs s).active_touch_slots
run-IsBounded d out m pd cs s h = run_keeps IsBounded IsBounded-rule d out m pd cs s h
