-- ===== src/Keyboard/Scan.antt =====
-- From scan codes to keys, and which keys the handler is called with.
use airix.Prelude.{
  ℕ, ◌+◌, ◌-◌, ◌≤◌, ◌<◌, ◌≡◌, refl, Bool, true, false, not, ◌&&◌, some, ◌∷◌, length, get_or, arith,
  if◌then◌else◌, leb, le→leb, nle→leb, >>=-eq-some, subst_some, ap,
}
use airix.Keyboard.{Device, Kbd, is_key_state_set, scan_key, deliver, update_key_states, state_of}
use airix.Keyboard.Codes.{KeyCode, key_unknown, key_kp_0, key_kp_dot, value, num_lock, make2key}
use airix.Keyboard.States.{MovesBit, update_key_states_lem}

-- The two ways in which the code drops a key, as one test.
released : (off b : Bool) → not (if off then true else b) ≡ not b && not off
released true true = refl
released true false = refl
released false true = refl
released false false = refl

module _ {D : Type 0} (io : Device D) where
  -- A make code from 0x01 to 0x58 reads inside `make2key`, and the code with its top bit set is the
  -- release of the same key; neither reads another byte.
  pub scan_key_pairs :
      (c : ℕ) (d : D)
      → 1 ≤ c
      → c ≤ 0x58
      → (c < length make2key)
        × (scan_key io c d ≡ ((false, get_or make2key c key_unknown), d))
        × (scan_key io (c + 0x80) d ≡ ((true, get_or make2key c key_unknown), d))
  unfolding scan_key
  scan_key_pairs c d lo hi = (
    omega arith,
    rw (le→leb 1 c lo, le→leb c 0x58 hi),
    rw (
      le→leb 1 (c + 0x80) (omega arith),
      nle→leb (c + 0x80) 0x58 (omega arith),
      le→leb 0x81 (c + 0x80) (omega arith),
      le→leb (c + 0x80) 0xD8 (omega arith),
      back,
    ),
  )
    where
      back : c + 0x80 - 0x80 ≡ c
      back = omega arith

  -- A key is handed on exactly when it is pressed and is no key of a keypad that is off.
  abbrev pub is_pressed : Bool → KeyCode → ℕ → Bool
  is_pressed is_break key ks =
      not is_break
      && not (
          leb (value key_kp_0) (value key)
          && leb (value key) (value key_kp_dot)
          && not (is_key_state_set ks num_lock))

  -- Whenever `deliver` returns, the bit of the key has moved as the event says, no other has, and the
  -- registered handler has been called once, with the new states and the key, exactly if the key is
  -- pressed and is no key of a keypad that is off.
  pub deliver_calls :
      (fuel : ℕ) (is_break : Bool) (key : KeyCode) (k : Kbd D) {k' : Kbd D}
      → deliver io fuel is_break key k ≡ some k'
      → MovesBit (state_of key) is_break k.key_states k'.key_states
        × (k'.calls ≡ (
            if is_pressed is_break key k'.key_states
            then (k'.key_states, key) ∷ k.calls
            else k.calls))
  unfolding deliver
  deliver_calls fuel b key k {k'} e =
      let ((ks', d'), u, made) =
        >>=-eq-some (update_key_states io fuel key b k.key_states k.dev) _ e in
      subst_some
        (λ q.
          MovesBit (state_of key) b k.key_states q.key_states
          × (q.calls
              ≡ (if is_pressed b key q.key_states then (q.key_states, key) ∷ k.calls else k.calls)))
        made
        (
          (update_key_states_lem io fuel key b k.key_states k.dev u).0,
          ap (λ p. if p then (ks', key) ∷ k.calls else k.calls) (released _ b),
        )
