-- ===== src/Linux/Focus/Tests.antt =====
-- A desktop with one application, its window, and two controls of which the second has the focus.
use hardware_simulator.Prelude.{ℕ, refl, Bool, true, false, none, some}
use hardware_simulator.Linux.Focus.{Node, node, no_more, missing, child, Search, find_focus}
use hardware_simulator.Linux.Focus.Found.{IsBelow, IsHit, search_finds}

abbrev control : Node
control = node true true (some true) no_more

abbrev window : Node
window =
    node false false (some true)
      (missing (child (node false true (some false) no_more) (child control no_more)))

abbrev desktop : Node
desktop = node false false none (child (node false false none (child window no_more)) no_more)

abbrev no_deadline : ℕ → Bool
no_deadline n = false

abbrev budget : Search
budget = record { remaining = 256; ticks = 0 }

search_finds_example : (k : ℕ) × IsBelow desktop k control × IsHit 0 k control
unfolding find_focus
search_finds_example = search_finds no_deadline desktop control budget refl
