-- ===== src/Windows/Injection/Tests.antt =====
-- Windows that refuses twice, and a service that is not there.
use hardware_simulator.Prelude.{◌≡◌, refl, Bool, true, false, [], ◌∷◌, arith, leb}
use hardware_simulator.Prelude.Int.{pos}
use hardware_simulator.Windows.Service.{new_client}
use hardware_simulator.Windows.Service.Messages.{keyboard, mouse, send_input_message}
use hardware_simulator.Windows.Injection.{
  input, by_windows, Outside, Sender, new_sender, offer_service, give_windows, retry, send,
}
use hardware_simulator.Windows.Injection.Keys.{key_input, button_input, perform_mouse_button}
use hardware_simulator.Windows.Injection.Delivered.{Grown, send_at_most_once, retry_ends}
use hardware_simulator.Windows.Injection.Delivered.Joined.{input_delivered}

-- SendInput accepts from its third question on; the desktop is always the same one.
abbrev pub locked : Outside
locked = record {
  send_input_accepts = λ n. leb 3 n;
  inject_accepts = λ n. true;
  device_made = λ n. true;
  has_create = true;
  has_inject = true;
  has_destroy = true;
  input_desktop = λ n. 5;
  map_virtual_key = λ k. k;
  patience = 3;
}

abbrev idle : Sender
idle = new_sender new_client

left_click_sent :
    (perform_mouse_button locked (pos 1) false idle).taken
    ≡ by_windows (input (mouse (pos 0) (pos 0) 0x2 0)) ∷ []
unfolding perform_mouse_button button_input send offer_service send_input_message give_windows retry
left_click_sent = refl

right_control_up : key_input locked 0xa3 false ≡ keyboard 0 0xa3 11
unfolding key_input
right_control_up = refl

windows_key_down : key_input locked 0x5b true ≡ keyboard 0x5b 0 0
unfolding key_input
windows_key_down = refl

send_at_most_once_example :
    (b : Bool) × Grown
      (input (keyboard 0 30 8))
      b
      idle.taken
      (send locked (input (keyboard 0 30 8)) idle).taken
send_at_most_once_example = send_at_most_once locked (input (keyboard 0 30 8)) idle

retry_ends_example : (retry locked 2 (input (keyboard 0 30 8)) 0 idle).0 ≡ true
retry_ends_example =
    retry_ends locked 0 2 (input (keyboard 0 30 8)) 0 idle (λ k h. refl) (omega arith) (omega arith)

input_delivered_example :
    Grown
      (input (keyboard 0 30 8))
      true
      idle.taken
      (send locked (input (keyboard 0 30 8)) idle).taken
input_delivered_example =
    input_delivered locked (keyboard 0 30 8) 1 idle refl refl (λ k z. omega (arith, z))
