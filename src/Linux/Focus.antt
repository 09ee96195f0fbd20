-- ===== src/Linux/Focus.antt =====
-- linux/linux_edit_focus.cc: the search for the editable control that has the focus.
--
-- The tree of AT-SPI is data: a node has whether it is focused, whether it is editable, whether its component
-- contains the point, when it has a component, and its children, some of which may be missing. The
-- clock is a parameter: whether the deadline has passed when it is read for the n-th time.
pub mod Found
mod Tests
use hardware_simulator.Prelude.{
  ℕ, ◌+◌, ◌-◌, Bool, false, not, ◌&&◌, ◌||◌, Option, none, some, ltb, leb, ◌==◌, if◌then◌else◌,
  contains,
}

mutual
  pub data Node : Type 0 where
    node : Bool → Bool → Option Bool → Children → Node

  pub data Children : Type 0 where
    no_more : Children
    missing : Children → Children
    child : Node → Children → Children

-- `remaining`, and how often the clock has been read.
pub record Search : Type 0 where
  pub remaining : ℕ
  pub ticks : ℕ

abbrev pub child_count : Children → ℕ
child_count no_more = 0
child_count (missing cs) = 1 + child_count cs
child_count (child n cs) = 1 + child_count cs

abbrev pub min : ℕ → ℕ → ℕ
min a b = if ltb a b then a else b

-- Whether a node is left out for its bounds.
abbrev pub is_pruned : ℕ → Bool → Option Bool → Bool
is_pruned depth focused none = false
is_pruned depth focused (some contains) = (leb 2 depth || focused) && not contains

abbrev pub tick : Search → Search
tick s = record s { ticks = s.ticks + 1 }

-- The loop goes on to the next child when one gave nothing.
abbrev pub or_next : Option Node × Search → (Search → Option Node × Search) → Option Node × Search
or_next r next = elim r.0 [ none ↦ next r.1 | some n ↦ (some n, r.1) ]

-- `find_focus`, and its loop over the children with the count that is left. The loop stops at no
-- `remaining`, so a node is looked at only while some remains.
module _ (clock : ℕ → Bool) where
  unfoldable mutual
    pub find_focus : Node → ℕ → Search → Option Node × Search
    find_focus (node has_focus editable contains cs) depth s =
        let focused = has_focus && editable in
        if ltb 32 depth || s.remaining == 0
        then (none, s)
        else let t = tick (record s { remaining = s.remaining - 1 }) in
          if clock s.ticks
          then (none, t)
          else if is_pruned depth focused contains
          then (none, t)
          else if focused
          then (some (node has_focus editable contains cs), t)
          else find_children cs (min (child_count cs) t.remaining) depth t

    pub find_children : Children → ℕ → ℕ → Search → Option Node × Search
    find_children no_more count depth s = (none, s)
    find_children (missing cs) count depth s =
        if count == 0 || s.remaining == 0
        then (none, s)
        else if clock s.ticks
        then (none, tick s)
        else find_children cs (count - 1) depth (tick s)
    find_children (child n cs) count depth s =
        if count == 0 || s.remaining == 0
        then (none, s)
        else if clock s.ticks
        then (none, tick s)
        else or_next (find_focus n (depth + 1) (tick s)) (λ t. find_children cs (count - 1) depth t)
