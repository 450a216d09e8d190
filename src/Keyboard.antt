-- ===== src/Keyboard.antt =====
-- kernel/keyboard.c and the helpers of kernel/keyboard.h. The two I/O ports are a parameter, the
-- device; a spinning wait takes fuel, and gives `none` where the device keeps it waiting longer.
pub mod Codes
pub mod States
pub mod Scan
pub mod Tests
use airix.Prelude.{
  ℕ, zero, suc, ◌-◌, ◌==◌, Bool, true, false, not, ◌&&◌, ◌||◌, Option, none, some, List, [], ◌∷◌,
  get_or, ltb, leb, if◌then◌else◌, test_bit, set_bit, clear_bit, ◌>>=◌,
}
use Codes.{
  KeyCode, key_unknown, key_lshift, key_lctrl, key_lwin, key_lalt, key_rshift, key_rctrl, key_rwin,
  key_ralt, key_num_lock, key_caps_lock, key_scroll_lock, key_home, key_print_screen, key_apps,
  key_insert, key_page_up, key_delete, key_end, key_page_down, key_u_arrow, key_l_arrow,
  key_d_arrow, key_r_arrow, key_kp_divide, key_kp_enter, key_kp_0, key_kp_dot, key_pause, value,
  KeyState, lshift, lctrl, lwin, lalt, rshift, rctrl, rwin, ralt, num_lock, caps_lock, scroll_lock,
  mask, make2key,
}

-- What the driver sees of the hardware: `in_byte` and `out_byte` on a device state.
pub record Device (D : Type 0) : Type 0 where
  pub in_byte : ℕ → D → ℕ × D
  pub out_byte : ℕ → ℕ → D → D

-- `kbd_is_key_state_set` for a mask of one bit.
abbrev pub is_key_state_set : ℕ → KeyState → Bool
is_key_state_set key_states s = test_bit key_states (mask s)

-- `kbd_is_shift_set`, `kbd_is_ctrl_set`, `kbd_is_alt_set`.
abbrev pub is_shift_set : ℕ → Bool
is_shift_set ks = is_key_state_set ks lshift || is_key_state_set ks rshift

abbrev pub is_ctrl_set : ℕ → Bool
is_ctrl_set ks = is_key_state_set ks lctrl || is_key_state_set ks rctrl

abbrev pub is_alt_set : ℕ → Bool
is_alt_set ks = is_key_state_set ks lalt || is_key_state_set ks ralt

-- The data byte of `set_leds`: bit 0 scroll lock, bit 1 number lock, bit 2 caps lock.
pub leds_data : Bool → Bool → Bool → ℕ
leds_data num caps scroll =
    let a = if scroll then set_bit 0 0x1 else 0 in
    let b = if num then set_bit a 0x2 else a in if caps then set_bit b 0x4 else b

-- The first `switch` of `update_key_states`.
pub state_of : KeyCode → KeyState
state_of key_lshift = lshift
state_of key_lctrl = lctrl
state_of key_lwin = lwin
state_of key_lalt = lalt
state_of key_rshift = rshift
state_of key_rctrl = rctrl
state_of key_rwin = rwin
state_of key_ralt = ralt
state_of key_num_lock = num_lock
state_of key_caps_lock = caps_lock
state_of key_scroll_lock = scroll_lock
state_of _ = KeyState.none

-- `(key_states & state) ? (key_states & ~state) : (key_states | state)`.
pub flip : ℕ → ℕ → ℕ
flip ks m = if test_bit ks m then clear_bit ks m else set_bit ks m

-- The second `switch`: the new `key_states`, and whether the LEDs are set anew.
pub apply_state : KeyState → Bool → ℕ → ℕ × Bool
apply_state num_lock is_break ks =
    if not is_break then (flip ks (mask num_lock), true) else (ks, false)
apply_state caps_lock is_break ks =
    if not is_break then (flip ks (mask caps_lock), true) else (ks, false)
apply_state scroll_lock is_break ks =
    if not is_break then (flip ks (mask scroll_lock), true) else (ks, false)
apply_state KeyState.none is_break ks = (ks, false)
apply_state s is_break ks = (if is_break then clear_bit ks (mask s) else set_bit ks (mask s), false)

-- The `switch` of `e0_prefix_scan_to_key_code`; any other code leaves KEY_UNKNOWN.
pub e0_key : ℕ → KeyCode
e0_key c =
    if c == 0x5B
    then key_lwin
    else if c == 0x1D
    then key_rctrl
    else if c == 0x5C
    then key_rwin
    else if c == 0x38
    then key_ralt
    else if c == 0x5D
    then key_apps
    else if c == 0x52
    then key_insert
    else if c == 0x49
    then key_page_up
    else if c == 0x53
    then key_delete
    else if c == 0x4F
    then key_end
    else if c == 0x51
    then key_page_down
    else if c == 0x48
    then key_u_arrow
    else if c == 0x4B
    then key_l_arrow
    else if c == 0x50
    then key_d_arrow
    else if c == 0x4D
    then key_r_arrow
    else if c == 0x35
    then key_kp_divide
    else if c == 0x1C
    then key_kp_enter
    else key_unknown

-- The driver's state: `key_states`, the device, and the calls of the registered key code handler
-- with their arguments, newest first.
pub record Kbd (D : Type 0) : Type 0 where
  pub key_states : ℕ
  pub dev : D
  pub calls : List (ℕ × KeyCode)

module _ {D : Type 0} (io : Device D) where
  pub encoder_read_buf : D → ℕ × D
  encoder_read_buf d = io.in_byte 0x60 d

  pub controller_read_status : D → ℕ × D
  controller_read_status d = io.in_byte 0x64 d

  -- `wait_encoder_buf_ready`.
  pub wait_encoder_buf_ready : ℕ → D → Option D
  wait_encoder_buf_ready zero d = none
  wait_encoder_buf_ready (suc fuel) d =
      let (status, d') = controller_read_status d in
      let rest = wait_encoder_buf_ready fuel d' in if test_bit status 0x1 then some d' else rest

  -- `wait_controller_ready`.
  pub wait_controller_ready : ℕ → D → Option D
  wait_controller_ready zero d = none
  wait_controller_ready (suc fuel) d =
      let (status, d') = controller_read_status d in
      let rest = wait_controller_ready fuel d' in
      if not (test_bit status 0x2) then some d' else rest

  pub encoder_send_cmd : ℕ → ℕ → D → Option D
  encoder_send_cmd fuel cmd d =
      wait_controller_ready fuel d >>= λ d'. some (io.out_byte 0x60 cmd d')

  pub controller_send_cmd : ℕ → ℕ → D → Option D
  controller_send_cmd fuel cmd d =
      wait_controller_ready fuel d >>= λ d'. some (io.out_byte 0x64 cmd d')

  pub set_leds : ℕ → Bool → Bool → Bool → D → Option D
  set_leds fuel num caps scroll d =
      encoder_send_cmd fuel 0xED d >>= encoder_send_cmd fuel (leds_data num caps scroll)

  pub self_test : ℕ → D → Option (Bool × D)
  self_test fuel d = do
    d₁ ← controller_send_cmd fuel 0xAA d
    d₂ ← wait_encoder_buf_ready fuel d₁
    let (b, d₃) = encoder_read_buf d₂
    some (b == 0x55, d₃)

  pub update_key_states : ℕ → KeyCode → Bool → ℕ → D → Option (ℕ × D)
  update_key_states fuel key_code is_break ks d =
      let (ks', leds) = apply_state (state_of key_code) is_break ks in
      if leds
      then set_leds fuel (is_key_state_set ks' num_lock) (is_key_state_set ks' caps_lock)
          (is_key_state_set ks' scroll_lock) d
        >>= (λ d'. some (ks', d'))
      else some (ks', d)

  -- Whether it is a break code, and the key.
  pub e0_prefix_scan_to_key_code : ℕ → D → (Bool × KeyCode) × D
  e0_prefix_scan_to_key_code c d =
      if c == 0x47 || c == 0x97
      then ((c == 0x97, key_home), d)
      else if c == 0x2A || c == 0xB7
      then ((c == 0xB7, key_print_screen), (encoder_read_buf (encoder_read_buf d).1).1)
      else if ltb 0x80 c
      then ((true, e0_key (c - 0x80)), d)
      else ((false, e0_key c), d)

  -- The first half of a round of `keyboard_handler`: from the byte read to the key.
  pub scan_key : ℕ → D → (Bool × KeyCode) × D
  scan_key c d =
      if leb 0x1 c && leb c 0x58
      then ((false, get_or make2key c key_unknown), d)
      else if leb 0x81 c && leb c 0xD8
      then ((true, get_or make2key (c - 0x80) key_unknown), d)
      else if c == 0xE0
      then (let (b, d') = encoder_read_buf d in e0_prefix_scan_to_key_code b d')
      else if c == 0xE1
      then (
        (false, key_pause),
        (encoder_read_buf
            (encoder_read_buf
              (encoder_read_buf (encoder_read_buf (encoder_read_buf d).1).1).1).1).1,
      )
      else ((false, key_unknown), d)

  -- The second half: the states are updated, and the key is handed on unless it is released or
  -- belongs to a keypad that is off.
  pub deliver : ℕ → Bool → KeyCode → Kbd D → Option (Kbd D)
  deliver fuel is_break key k = update_key_states fuel key is_break k.key_states k.dev >>= λ r.
      let off =
        leb (value key_kp_0) (value key)
        && leb (value key) (value key_kp_dot)
        && not (is_key_state_set r.0 num_lock) in
      let released = if off then true else is_break in
      some (record {
        key_states = r.0;
        dev = r.1;
        calls = if not released then (r.0, key) ∷ k.calls else k.calls;
      })

  -- `keyboard_handler`: reads scan codes while the output buffer is full.
  pub keyboard_handler : ℕ → ℕ → Kbd D → Option (Kbd D)
  keyboard_handler spins zero k = none
  keyboard_handler spins (suc fuel) k =
      let (status, d₁) = controller_read_status k.dev in
      let (c, d₂) = encoder_read_buf d₁ in
      let ((is_break, key), d₃) = scan_key c d₂ in
      let rest =
        deliver spins is_break key (record k { dev = d₃ }) >>= keyboard_handler spins fuel in
      if test_bit status 0x1 then rest else some (record k { dev = d₁ })

  -- `kbd_initialize`: the self test's result, printed by the source, comes beside the state.
  pub kbd_initialize : ℕ → Kbd D → Option (Bool × Kbd D)
  kbd_initialize fuel k = do
    (passed, d₁) ← self_test fuel k.dev
    d₂ ← set_leds fuel false false false d₁
    some (passed, record k { key_states = 0; dev = d₂ })
