-- ===== src/Peripherals/Gpio/Edges.antt =====
-- `note_edges` pin by pin: which interrupts a write makes pending.
use systemc_model.Base.{ltb, leb, ◌==◌, if◌then◌else◌, ℕ, zero, suc, ◌+◌, ◌^◌, ◌<◌, bit_or}
use systemc_model.Base.{bit_xor, ◌≡◌, ap, ◌∙◌, ◌⊎◌, Bool, true, not, xor, ◌&&◌, ◌||◌, arith}
use systemc_model.Base.Bits.{testbit, u32, not_word, testbit-bit_and, testbit-bit_or}
use systemc_model.Base.Bits.{testbit-bit_xor, testbit-zero, testbit-not_word, testbit-two_pow}
use systemc_model.Base.Bits.{has_any-two_pow}
use systemc_model.Tlm.{Command, Txn, IsBytes, word_of}
use systemc_model.Tlm.Laws.{word_of-lt, IsWriteOf}
use systemc_model.Peripherals.Gpio.{
  Gpio, pin_state, same, is_noted, note_loop, note_edges, write_switch, write_register, b_transport,
}
use systemc_model.Peripherals.Gpio.Laws.{b_transport-write, b_transport_effect}
use native.Mathlib.Decide.{ℕ_discrete}

-- When a pin interrupts: it is enabled, stands at the level of its polarity and, if it is
-- edge-triggered, has just changed.
unfoldable pub pin_event : Bool → Bool → Bool → Bool → Bool → Bool
pin_event enabled edge high was now = enabled && ((not edge || xor was now) && same now high)

is_noted_event :
    (s : Gpio) (old new k : ℕ)
    → is_noted s (bit_xor old new) new (2 ^ k)
      ≡ pin_event
          (testbit s.inten k)
          (testbit s.inttype k)
          (testbit s.intpol k)
          (testbit old k)
          (testbit new k)
unfolding is_noted pin_event
is_noted_event s old new k = ground (
  arith,
  has_any-two_pow s.inten k,
  has_any-two_pow s.inttype k,
  has_any-two_pow s.intpol k,
  has_any-two_pow new k,
  has_any-two_pow (bit_xor old new) k,
  testbit-bit_xor old new k,
)

-- Bits below `b` and from `b + left` on stay as they are in `pend`.
note_loop_bits :
    (s : Gpio) (ch new left b pend k : ℕ)
    → testbit (note_loop s ch new left b pend) k
      ≡ (testbit pend k || (leb b k && (ltb k (b + left) && is_noted s ch new (2 ^ k))))
unfolding note_loop
note_loop_bits s ch new zero b pend k = ground arith
note_loop_bits s ch new (suc left) b pend k =
    let p : ℕ = if is_noted s ch new (2 ^ b) then bit_or pend (2 ^ b) else pend in
    let here : testbit p k ≡ (testbit pend k || (b == k && is_noted s ch new (2 ^ b))) =
      ground (arith, testbit-bit_or pend (2 ^ b) k, testbit-two_pow b k) in
    let rest = note_loop_bits s ch new left (b + 1) p k in
    elim (ℕ_discrete b k) [
      | yes e ↦ ground (arith, ap (λ (i : ℕ). is_noted s ch new (2 ^ i)) e)
      | no ne ↦ ground arith
    ]

-- After `note_edges` a pin is pending exactly if it was pending or its event has happened.
note_edges_bits :
    (s : Gpio) (old new k : ℕ)
    → k < 32
    → testbit (note_edges old new s).intstat k ≡ (
        testbit s.intstat k
        || pin_event
            (testbit s.inten k)
            (testbit s.inttype k)
            (testbit s.intpol k)
            (testbit old k)
            (testbit new k))
unfolding note_edges
note_edges_bits s old new k h = ground (
  arith,
  testbit-bit_or s.intstat (note_loop s (bit_xor old new) new 32 0 0) k,
  note_loop_bits s (bit_xor old new) new 32 0 0 k,
  testbit-zero k,
  is_noted_event s old new k,
)

-- A write of one word to any register makes an interrupt pending exactly if it is still pending
-- after the register is written, or its pin has its event: it is enabled, its level agrees with
-- its polarity and, for an edge, the write has changed it. Each pin is judged by the registers as
-- the write leaves them, and every write, also one to no register, judges all pins.
pub write_events :
    (s : Gpio) (off v : ℕ) (t : Txn) (k : ℕ)
    → IsWriteOf off v t
    → k < 32
    → let u = write_switch s off v in
      testbit (b_transport s t).0.intstat k ≡ (
        testbit u.intstat k
        || pin_event
            (testbit u.inten k)
            (testbit u.inttype k)
            (testbit u.intpol k)
            (testbit (pin_state s) k)
            (testbit (pin_state u) k))
unfolding write_register
write_events s off v t k w h =
    rw (b_transport-write s off v t w)
      (note_edges_bits (write_switch s off v) (pin_state s) (pin_state (write_switch s off v)) k h)

switch_out :
    (s : Gpio) (off v k : ℕ)
    → v < 2 ^ 32
    → k < 32
    → testbit (write_switch s off v).out k ≡ (
        if off == 0x00
        then testbit v k
        else if off == 0x08
        then testbit s.out k || testbit v k
        else if off == 0x0C
        then testbit s.out k && not (testbit v k)
        else testbit s.out k)
unfolding write_switch
switch_out s off v k small h = ground (
  arith,
  testbit-bit_or s.out v k,
  testbit-bit_and s.out (not_word v) k,
  testbit-not_word v k small h,
)

switch_dir :
    (s : Gpio) (off v k : ℕ)
    → testbit (write_switch s off v).dir k ≡ (if off == 0x04 then testbit v k else testbit s.dir k)
unfolding write_switch
switch_dir s off v k = ground arith

-- Writing DATA sets the output register, SET turns on and CLR turns off the outputs of the bits
-- that are written, and no other write changes an output. In any case the pins that DATA then
-- reads are the outputs of those that DIR configures as outputs.
pub write_outputs :
    (s : Gpio) (off v : ℕ) (t : Txn) (k : ℕ)
    → IsWriteOf off v t
    → k < 32
    → let u = (b_transport s t).0 in
      (testbit u.out k ≡ (
        if off == 0x00
        then testbit v k
        else if off == 0x08
        then testbit s.out k || testbit v k
        else if off == 0x0C
        then testbit s.out k && not (testbit v k)
        else testbit s.out k))
      × (testbit (pin_state u) k
          ≡ (testbit u.out k && (if off == 0x04 then testbit v k else testbit s.dir k)))
unfolding write_register note_edges
write_outputs s off v t k w h =
    let u : Gpio = write_switch s off v in
    rw (b_transport-write s off v t w) (
      switch_out s off v k w.small h,
      testbit-bit_and u.out u.dir k
          ∙ ap (λ (b : Bool). testbit u.out k && b) (switch_dir s off v k),
    )

switch_sticky :
    (s : Gpio) (off v k : ℕ)
    → v < 2 ^ 32
    → k < 32
    → testbit s.intstat k ≡ true
    → ((off ≡ 0x20) × (testbit v k ≡ true)) ⊎ (testbit (write_switch s off v).intstat k ≡ true)
unfolding write_switch
switch_sticky s off v k small h p =
    ground (arith, testbit-bit_and s.intstat (not_word v) k, testbit-not_word v k small h)

write_sticky :
    (s : Gpio) (off v k : ℕ)
    → v < 2 ^ 32
    → k < 32
    → testbit s.intstat k ≡ true
    → ((off ≡ 0x20) × (testbit v k ≡ true)) ⊎ (testbit (write_register s off v).intstat k ≡ true)
unfolding write_register
write_sticky s off v k small h p =
    let u : Gpio = write_switch s off v in
    ground
      (arith, switch_sticky s off v k small h p, note_edges_bits u (pin_state s) (pin_state u) k h)

-- A pending interrupt stays pending through any transaction but a write to INTCLR with its bit set.
pub pending_sticky :
    (s : Gpio) (t : Txn) (k : ℕ)
    → k < 32
    → testbit s.intstat k ≡ true
    → IsBytes t.bytes
    → (testbit (b_transport s t).0.intstat k ≡ true)
      ⊎ (t.command ≡ Command.write) × (u32 t.address ≡ 0x20) × (testbit (word_of t.bytes) k ≡ true)
pending_sticky s t k lt h bytes = ground (
  arith,
  b_transport_effect s t,
  word_of-lt t.bytes bytes,
  write_sticky s (u32 t.address) (word_of t.bytes) k,
)
