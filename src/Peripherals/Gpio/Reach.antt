-- ===== src/Peripherals/Gpio/Reach.antt =====
-- The pins as a state machine: every state that bus accesses, reset and wake-ups can bring about.
use systemc_model.Base.{if◌then◌else◌, ℕ, zero, suc, ◌+◌, ◌^◌, ◌≤◌, ◌<◌, bit_or, bit_xor, ◌≡◌}
use systemc_model.Base.{refl, Bool, true, false, arith}
use systemc_model.Base.Bits.{u32, not_word, has_any, bit_or-lt, bit_and-le, two_pow-lt}
use systemc_model.Tlm.{Txn, IsBytes, word_of}
use systemc_model.Tlm.Laws.{word_of-lt}
use systemc_model.Peripherals.Gpio.{
  Gpio, gpio_apb, pin_state, drive_irq, on_reset, is_noted, note_loop, note_edges, write_switch,
  write_register, b_transport,
}
use systemc_model.Peripherals.Gpio.Laws.{b_transport_effect}

pub data Step (s : Gpio) : Gpio → Type 0 where
  access : (t : Txn) → IsBytes t.bytes → Step s (b_transport s t).0
  reset : (level : Bool) → Step s (on_reset level s)
  wake : Step s (drive_irq s)

pub data Reach : Gpio → Type 0 where
  start : Reach gpio_apb
  later : {s u : Gpio} → Reach s → Step s u → Reach u

-- The registers hold words, and unless a notification is pending the interrupt line is high
-- exactly if an enabled interrupt is pending.
pub record IsValid (s : Gpio) : Type 0 where
  pub dir_small : s.dir < 2 ^ 32
  pub out_small : s.out < 2 ^ 32
  pub inten_small : s.inten < 2 ^ 32
  pub inttype_small : s.inttype < 2 ^ 32
  pub intpol_small : s.intpol < 2 ^ 32
  pub intstat_small : s.intstat < 2 ^ 32
  pub irq_settled : s.irq_ev ≡ false → s.irq ≡ has_any s.intstat s.inten

note_loop-lt :
    (s : Gpio) (ch new left b pend : ℕ)
    → b + left ≤ 32
    → pend < 2 ^ 32
    → note_loop s ch new left b pend < 2 ^ 32
unfolding note_loop
note_loop-lt s ch new zero b pend h small = small
note_loop-lt s ch new (suc left) b pend h small =
    let bit : 2 ^ b < 2 ^ 32 = two_pow-lt b 32 (omega arith) in
    let p : ℕ = if is_noted s ch new (2 ^ b) then bit_or pend (2 ^ b) else pend in
    note_loop-lt s ch new left (b + 1) p (omega arith)
      (ground (arith, bit_or-lt 32 pend (2 ^ b) small bit))

switch-IsValid :
    (s : Gpio) (off v : ℕ)
    → v < 2 ^ 32
    → IsValid s
    → let u = write_switch s off v in IsValid (record u { irq_ev = true })
unfolding write_switch
switch-IsValid s off v small h =
    ground (
      arith,
      bit_or-lt 32 s.out v,
      bit_and-le s.out (not_word v),
      bit_and-le s.intstat (not_word v),
    )

note_edges-IsValid :
    (s : Gpio) (old new : ℕ) → IsValid (record s { irq_ev = true }) → IsValid (note_edges old new s)
unfolding note_edges
note_edges-IsValid s old new h = ground (
  arith,
  note_loop-lt s (bit_xor old new) new 32 0 0,
  bit_or-lt 32 s.intstat (note_loop s (bit_xor old new) new 32 0 0),
)

write_register-IsValid :
    (s : Gpio) (off v : ℕ) → v < 2 ^ 32 → IsValid s → IsValid (write_register s off v)
unfolding write_register
write_register-IsValid s off v small h =
    note_edges-IsValid (write_switch s off v) (pin_state s) (pin_state (write_switch s off v))
      (switch-IsValid s off v small h)

Step-IsValid : {s u : Gpio} → Step s u → IsValid s → IsValid u
unfolding drive_irq on_reset
Step-IsValid {s} (access t h) v = ground (
  arith,
  b_transport_effect s t,
  word_of-lt t.bytes h,
  write_register-IsValid s (u32 t.address) (word_of t.bytes),
)
Step-IsValid (reset level) v = ground arith
Step-IsValid wake v = ground arith

start-IsValid : IsValid gpio_apb
start-IsValid = record {
  dir_small = omega arith;
  out_small = omega arith;
  inten_small = omega arith;
  inttype_small = omega arith;
  intpol_small = omega arith;
  intstat_small = omega arith;
  irq_settled = λ e. refl;
}

-- In every state that the pins can reach, the registers hold words, and unless a notification is
-- pending the interrupt line is high exactly if an enabled interrupt is pending.
pub gpio_always-IsValid : {s : Gpio} → Reach s → IsValid s
gpio_always-IsValid start = start-IsValid
gpio_always-IsValid (later r st) = Step-IsValid st (gpio_always-IsValid r)
