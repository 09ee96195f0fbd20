-- ===== src/Windows/Service/Tests.antt =====
-- A client that connects, sends, fails and closes; a request of each kind.
use hardware_simulator.Prelude.{
  ℕ, zero, suc, ◌≡◌, refl, true, false, some, List, [], ◌∷◌, ◌++◌, arith,
}
use hardware_simulator.Prelude.Int.{pos}
use hardware_simulator.Windows.Service.{
  not_started, new_client, Starting, start_input_thread, set_service_available, enqueue, write_next,
  head_step, Answer, connected_step, written_step, resume, loop_step, close, Step, available, send,
  loop, closing, step, run,
}
use hardware_simulator.Windows.Service.Messages.{header}
use hardware_simulator.Windows.Service.Control.{
  Wire, Control, DisplayConfig, read_config, read_configs, parse_configs, configs_bytes,
  configs_request,
}
use hardware_simulator.Windows.Service.Delivery.{IsOrdered, none_left, run-IsOrdered}
use hardware_simulator.Windows.Service.Delivery.Handles.{IsSound}
use hardware_simulator.Windows.Service.Delivery.Stopping.{close_stops, run-IsSound}
use hardware_simulator.Windows.Service.Configs.{parse_configs-configs_request}

abbrev starts : Starting
starts = record { interrupt_made = true; write_made = true; thread_made = true }

abbrev fine : Answer
fine = record { pipe = some 9; written = true }

abbrev broken : Answer
broken = record { pipe = some 9; written = false }

-- The second packet is lost with the write of the first.
abbrev steps : List Step
steps =
    available true starts
    ∷ loop fine
    ∷ loop fine
    ∷ send (1 ∷ [])
    ∷ send (2 ∷ [])
    ∷ loop fine
    ∷ loop broken
    ∷ send (3 ∷ [])
    ∷ loop fine
    ∷ loop fine
    ∷ send (4 ∷ [])
    ∷ loop fine
    ∷ []

attempts : (run steps new_client).attempted ≡ (4 ∷ []) ∷ (1 ∷ []) ∷ []
unfolding run step set_service_available start_input_thread enqueue loop_step resume head_step
    connected_step written_step write_next
attempts = refl

new_client-IsSound : IsSound new_client
new_client-IsSound = record {
  quiet = λ e. refl;
  available = λ e. absurd (cc);
  not_stopped = λ e. refl;
  not_reset = λ e. refl;
  piped = λ e. absurd (cc);
  accepting = λ e. absurd (cc);
  held = refl;
  balance = omega arith;
  event = λ e. absurd (cc);
  woken = λ e z. absurd (cc);
}

run-IsOrdered_example : IsOrdered (run steps new_client)
run-IsOrdered_example = run-IsOrdered steps new_client ([], refl, none_left)

run-IsSound_example : IsSound (run (steps ++ closing fine fine ∷ []) new_client)
run-IsSound_example = run-IsSound (steps ++ closing fine fine ∷ []) new_client new_client-IsSound

close_stops_example : (close broken fine (run steps new_client)).phase ≡ not_started
close_stops_example = close_stops broken fine (run steps new_client)

abbrev idle : Control
idle = record { next_seq = 7; requests = [] }

abbrev one_bytes : List ℕ
one_bytes = 1 ∷ 0 ∷ 0 ∷ 0 ∷ []

abbrev accepted_wire : Wire
accepted_wire = record {
  serves = true;
  connects = true;
  writes = true;
  reads = some (header 0x85 4 7 ++ 1 ∷ 0 ∷ 0 ∷ 0 ∷ []);
}

-- A path and a mode of zeros.
abbrev blank : ℕ → List ℕ
blank zero = []
blank (suc n) = 0 ∷ blank n

abbrev restored : List ℕ
restored = 1 ∷ 0 ∷ 0 ∷ 0 ∷ 1 ∷ 0 ∷ 0 ∷ 0 ∷ (blank 72 ++ blank 64)

abbrev screens : List DisplayConfig
screens =
    record { width = pos 1920; height = pos 1080; refresh_rate = pos 60 }
    ∷ record { width = pos 3840; height = pos 2160; refresh_rate = pos 120 }
    ∷ []

abbrev requested : List ℕ
requested =
    2
    ∷ 0
    ∷ 0
    ∷ 0
    ∷ 128
    ∷ 7
    ∷ 0
    ∷ 0
    ∷ 56
    ∷ 4
    ∷ 0
    ∷ 0
    ∷ 60
    ∷ 0
    ∷ 0
    ∷ 0
    ∷ 0
    ∷ 15
    ∷ 0
    ∷ 0
    ∷ 112
    ∷ 8
    ∷ 0
    ∷ 0
    ∷ 120
    ∷ 0
    ∷ 0
    ∷ 0
    ∷ blank 36

parse_configs-configs_request_example : parse_configs requested [] ≡ (true, screens)
unfolding configs_request configs_bytes
parse_configs-configs_request_example =
    parse_configs-configs_request screens [] requested
      ((omega arith, omega arith, omega arith), ((omega arith, omega arith, omega arith), _)) refl

-- A response with a bad second configuration leaves the first in the caller's list.
partial_list :
    parse_configs
      (2 ∷ 0 ∷ 0 ∷ 0 ∷ 128 ∷ 7 ∷ 0 ∷ 0 ∷ 56 ∷ 4 ∷ 0 ∷ 0 ∷ 60 ∷ 0 ∷ 0 ∷ 0 ∷ blank 48)
      screens
    ≡ (false, record { width = pos 1920; height = pos 1080; refresh_rate = pos 60 } ∷ [])
unfolding parse_configs read_configs read_config
partial_list = refl
