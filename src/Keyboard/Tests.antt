-- ===== src/Keyboard/Tests.antt =====
-- Runs of the keyboard driver, and its theorems at concrete keys.
use airix.Prelude.{
  ℕ, ◌+◌, ◌<◌, ◌≡◌, refl, true, false, some, List, [], ◌∷◌, arith, ◌==◌, if◌then◌else◌, length,
  drop, test_bit,
}
use airix.Keyboard.{
  Device, Kbd, leds_data, state_of, apply_state, set_leds, update_key_states, scan_key, deliver,
  keyboard_handler, kbd_initialize, encoder_send_cmd, wait_controller_ready, controller_read_status,
  self_test, wait_encoder_buf_ready, controller_send_cmd, encoder_read_buf,
}
use airix.Keyboard.Codes.{KeyCode, key_a, key_lshift, lshift, mask, make2key}
use airix.Keyboard.States.{MovesBit, leds_data_bits}
use airix.Keyboard.Scan.{scan_key_pairs, deliver_calls}

-- A device: the bytes it has to give, and those that were written to the encoder, newest first.
abbrev Wire : Type 0
Wire = List ℕ × List ℕ

abbrev head_or_zero : List ℕ → ℕ
head_or_zero [] = 0
head_or_zero (x ∷ xs) = x

abbrev wire : Device Wire
wire = record {
  in_byte = λ port d.
      if port == 0x64
      then ((if length d.0 == 0 then 0 else 1), d)
      else (head_or_zero d.0, (drop 1 d.0, d.1));
  out_byte = λ port byte d. (d.0, byte ∷ d.1);
}

abbrev quiet : Wire
quiet = ([], [])

scan_key_pairs_example :
    (0x1E < length make2key)
    × (scan_key wire 0x1E quiet ≡ ((false, key_a), quiet))
    × (scan_key wire (0x1E + 0x80) quiet ≡ ((true, key_a), quiet))
scan_key_pairs_example = scan_key_pairs wire 0x1E quiet (omega arith) (omega arith)

abbrev idle : Kbd Wire
idle = record { key_states = 0; dev = quiet; calls = [] }

abbrev one_call : List (ℕ × KeyCode)
one_call = (mask lshift, key_lshift) ∷ []

deliver_calls_example : MovesBit lshift false 0 (mask lshift) × (one_call ≡ one_call)
unfolding deliver update_key_states apply_state state_of
deliver_calls_example = deliver_calls wire 1 false key_lshift idle refl

leds_data_bits_example :
    (test_bit (leds_data true false true) 0x1 ≡ true)
    × (test_bit (leds_data true false true) 0x2 ≡ true)
    × (test_bit (leds_data true false true) 0x4 ≡ false)
    × (leds_data true false true < 8)
leds_data_bits_example = leds_data_bits true false true

-- A shifted letter: the handler is called for shift and for the letter, not for the releases.
shifted_letter :
    keyboard_handler wire 1 5 (record idle { dev = (0x2A ∷ 0x1E ∷ 0x9E ∷ 0xAA ∷ [], []) })
    ≡ some (record idle { calls = (mask lshift, key_a) ∷ (mask lshift, key_lshift) ∷ [] })
unfolding keyboard_handler scan_key deliver update_key_states apply_state state_of encoder_read_buf
    controller_read_status
shifted_letter = refl

starts :
    kbd_initialize wire 2 (record idle { dev = (0x55 ∷ [], []) })
    ≡ some (true, record idle { dev = ([], 0x0 ∷ 0xED ∷ 0xAA ∷ []) })
unfolding kbd_initialize self_test set_leds encoder_send_cmd controller_send_cmd
    wait_controller_ready wait_encoder_buf_ready controller_read_status encoder_read_buf leds_data
starts = refl
