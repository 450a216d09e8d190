-- ===== src/Keyboard/States.antt =====
-- What `update_key_states` does to the word of key states and to the LEDs.
use airix.Prelude.{
  ℕ, ◌<◌, ◌≡◌, ◌≢◌, ◌⊎◌, inl, inr, refl, Bool, true, false, not, Option, some, arith, if◌then◌else◌,
  test_bit, Option-cases, ◌>>=◌,
}
use airix.Keyboard.{
  Device, is_key_state_set, leds_data, state_of, flip, apply_state, update_key_states, set_leds,
}
use airix.Keyboard.Codes.{KeyCode, KeyState, num_lock, caps_lock, scroll_lock}

-- What the bit of a state becomes when its key is pressed or released.
abbrev pub next_bit : KeyState → Bool → Bool → Bool
next_bit KeyState.none is_break b = b
next_bit num_lock is_break b = if is_break then b else not b
next_bit caps_lock is_break b = if is_break then b else not b
next_bit scroll_lock is_break b = if is_break then b else not b
next_bit s is_break b = not is_break

-- The bits of a word after an event of the key with state s: that of s moves, the others stay.
abbrev pub MovesBit : KeyState → Bool → ℕ → ℕ → Type 0
MovesBit s is_break ks ks' =
    (is_key_state_set ks' s ≡ next_bit s is_break (is_key_state_set ks s))
    × ((t : KeyState) → t ≢ s → is_key_state_set ks' t ≡ is_key_state_set ks t)

apply_state-MovesBit :
    (s : KeyState) (is_break : Bool) (ks : ℕ) → MovesBit s is_break ks (apply_state s is_break ks).0
unfolding apply_state flip
apply_state-MovesBit KeyState.none b ks = (ground arith, λ t ne. ground arith)
apply_state-MovesBit num_lock b ks = (ground arith, λ t ne. ground arith)
apply_state-MovesBit caps_lock b ks = (ground arith, λ t ne. ground arith)
apply_state-MovesBit scroll_lock b ks = (ground arith, λ t ne. ground arith)
apply_state-MovesBit s b ks = (ground arith, λ t ne. ground arith)

-- The LEDs are set anew exactly at the press of a lock key.
abbrev pub sets_leds : KeyState → Bool → Bool
sets_leds num_lock is_break = not is_break
sets_leds caps_lock is_break = not is_break
sets_leds scroll_lock is_break = not is_break
sets_leds s is_break = false

apply_state-leds : (s : KeyState) (b : Bool) (ks : ℕ) → (apply_state s b ks).1 ≡ sets_leds s b
unfolding apply_state flip
apply_state-leds KeyState.none b ks = refl
apply_state-leds num_lock b ks = ground arith
apply_state-leds caps_lock b ks = ground arith
apply_state-leds scroll_lock b ks = ground arith
apply_state-leds s b ks = refl

-- The LED byte holds the three lock bits at the places that the controller wants, and no other.
pub leds_data_bits :
    (num caps scroll : Bool)
    → (test_bit (leds_data num caps scroll) 0x1 ≡ scroll)
      × (test_bit (leds_data num caps scroll) 0x2 ≡ num)
      × (test_bit (leds_data num caps scroll) 0x4 ≡ caps)
      × (leds_data num caps scroll < 8)
unfolding leds_data
leds_data_bits num caps scroll = ground arith

-- The end of `update_key_states`, for any pair from the second `switch`.
returned :
    {D : Type 0} (P : ℕ → Type 0) (r : ℕ × Bool) (q : Bool) (light : ℕ → Option D) (d : D) {ks : ℕ}
    {d' : D}
    → P r.0
    → r.1 ≡ q
    → (if r.1 then ◌>>=◌ {B = ℕ × D} (light r.0) (λ e. some (r.0, e)) else some (r.0, d))
      ≡ some (ks, d')
    → P ks × ((q ≡ false) × (d' ≡ d) ⊎ (q ≡ true) × (light ks ≡ some d'))
returned P (k, true) q light d p e h = elim (Option-cases (light k)) [
  | inl no_light ↦ cc
  | inr (x, lit) ↦ ground arith
]
returned P (k, false) q light d p e h = ground arith

module _ {D : Type 0} (io : Device D) where
  pub update_key_states_lem :
      (fuel : ℕ) (key : KeyCode) (is_break : Bool) (ks : ℕ) (d : D) {ks' : ℕ} {d' : D}
      → update_key_states io fuel key is_break ks d ≡ some (ks', d')
      → MovesBit (state_of key) is_break ks ks'
        × ((sets_leds (state_of key) is_break ≡ false) × (d' ≡ d)
            ⊎ (sets_leds (state_of key) is_break ≡ true)
              × (set_leds io fuel
                    (is_key_state_set ks' num_lock)
                    (is_key_state_set ks' caps_lock)
                    (is_key_state_set ks' scroll_lock)
                    d
                  ≡ some d'))
  unfolding update_key_states
  update_key_states_lem fuel key b ks d e =
      returned (MovesBit (state_of key) b ks) (apply_state (state_of key) b ks) _
        (λ w.
          set_leds io fuel (is_key_state_set w num_lock) (is_key_state_set w caps_lock)
            (is_key_state_set w scroll_lock) d)
        d (apply_state-MovesBit (state_of key) b ks) (apply_state-leds (state_of key) b ks) e
