-- ===== src/Bridges/PinBridge/TimerBus.antt =====
-- The timer behind the pins: bridges/tlm_pin_bridge.h with peripherals/timer/timer.h.
use systemc_model.Base.{◌==◌, if◌then◌else◌, replicate, ℕ, ◌+◌, ◌^◌, ◌<◌, ◌≡◌, refl, ap, ◌∙◌}
use systemc_model.Base.{◌⊎◌, true, false, List, [], ◌∷◌, ◌++◌, arith}
use systemc_model.Base.Bits.{u32}
use systemc_model.Tlm.{word_bytes, word_of}
use systemc_model.Tlm.Laws.{word_of-word_bytes, word_of-memcpy, Returns}
use systemc_model.Transactor.Initiator.{read_payload, write_payload}
use systemc_model.Peripherals.Timer.{
  Timer, Pins, bus_read_method, bus_write_method, read_offset, write_offset, irq_output_method,
  timer_thread,
}
use systemc_model.Bridges.PinBridge.{
  BusPins, PinState, clock_period, bus_read, bus_write, b_transport,
}

-- The signals as the timer's methods read them, with the reset low.
abbrev pub as_pins : BusPins → Pins
as_pins p = record {
  reset = false;
  read_en = p.read_en;
  write_en = p.write_en;
  data_in = p.data_in;
  address = p.address;
}

-- The two processes of the timer that no bus access wakes.
pub data Turn : Type 0 where
  thread outputs : Turn

unfoldable pub turn : Turn → Timer → Timer
turn thread s = timer_thread s
turn outputs s = irq_output_method s

unfoldable pub turns : List Turn → Timer → Timer
turns [] s = s
turns (p ∷ ps) s = turns ps (turn p s)

pub turns-append : (js ks : List Turn) (t : Timer) → turns (js ++ ks) t ≡ turns ks (turns js t)
unfolding turns
turns-append [] ks t = refl
turns-append (j ∷ js) ks t = turns-append js ks (turn j t)

-- How many of the turns are of the thread.
abbrev pub threads : List Turn → ℕ
threads [] = 0
threads (thread ∷ ps) = 1 + threads ps
threads (outputs ∷ ps) = 0 + threads ps

-- The timer `u` comes from `s` by turns of the two processes around what `f` does.
abbrev pub Around : (Timer → Timer) → Timer → Timer → Type 0
Around f s u = (js : List Turn) × (ks : List Turn) × (u ≡ turns ks (f (turns js s)))

-- What the bridge relies on in the simulation kernel, with the timer bound to the pins and out of
-- reset. `IsQuiet m` says that the kernel has seen both strobes low. A strobe that rises runs its
-- method once within two delta cycles, and the data pins then show what the method wrote; a clock
-- period with both strobes low runs the other two processes only, the thread at least once. They may
-- run in any of these times.
pub record IsScheduled {P : Type 0} (run : ℕ → BusPins → P → P) (data_out : P → ℕ)
    (timer_of : P → Timer) (IsQuiet : P → Type 0) : Type 0 where
  pub read_strobe :
      (p : BusPins) (m : P)
      → IsQuiet m
      → p.read_en ≡ true
      → p.write_en ≡ false
      → Around (bus_read_method (as_pins p)) (timer_of m) (timer_of (run 0 p (run 0 p m)))
  pub write_strobe :
      (p : BusPins) (m : P)
      → IsQuiet m
      → p.read_en ≡ false
      → p.write_en ≡ true
      → Around (bus_write_method (as_pins p)) (timer_of m) (timer_of (run 0 p (run 0 p m)))
  pub shows :
      (p : BusPins) (m : P)
      → data_out (run 0 p (run 0 p m)) ≡ (timer_of (run 0 p (run 0 p m))).data_out
  pub period :
      (p : BusPins) (m : P)
      → p.read_en ≡ false
      → p.write_en ≡ false
      → IsQuiet (run clock_period p m)
        × ((ks : List Turn) × (timer_of (run clock_period p m) ≡ turns ks (timer_of m))
            × (0 < threads ks))

-- Neither process touches the control and compare registers or the data pins.
turn-kept :
    (p : Turn) (s : Timer)
    → ((turn p s).timer_cntrl ≡ s.timer_cntrl)
      × ((turn p s).timer_cmp ≡ s.timer_cmp)
      × ((turn p s).data_out ≡ s.data_out)
unfolding turn timer_thread irq_output_method
turn-kept thread s = ground arith
turn-kept outputs s = (refl, refl, refl)

pub turns-kept :
    (ps : List Turn) (s : Timer)
    → ((turns ps s).timer_cntrl ≡ s.timer_cntrl)
      × ((turns ps s).timer_cmp ≡ s.timer_cmp)
      × ((turns ps s).data_out ≡ s.data_out)
unfolding turns
turns-kept [] s = (refl, refl, refl)
turns-kept (p ∷ ps) s = ground (arith, turns-kept ps (turn p s), turn-kept p s)

-- The control register (offset 0) and the compare register (offset 8).
abbrev pub IsHeld : ℕ → Type 0
IsHeld off = (off ≡ 0x00) ⊎ (off ≡ 0x08)

abbrev pub held : ℕ → Timer → ℕ
held off s = if off == 0x00 then s.timer_cntrl.value else s.timer_cmp

pub held-turns : (off : ℕ) (ps : List Turn) (s : Timer) → held off (turns ps s) ≡ held off s
held-turns off ps s = ground (arith, turns-kept ps s)

held-write :
    (off : ℕ) (p : Pins) (s : Timer)
    → IsHeld off
    → p.write_en ≡ true
    → p.address ≡ off
    → held off (bus_write_method p s) ≡ p.data_in
unfolding bus_write_method write_offset
held-write off p s h w a = ground arith

data_out-read :
    (off : ℕ) (p : Pins) (s : Timer)
    → IsHeld off
    → p.read_en ≡ true
    → p.address ≡ off
    → (bus_read_method p s).data_out ≡ held off s
unfolding bus_read_method read_offset
data_out-read off p s h r a = ground arith

module _ {P : Type 0} (run : ℕ → BusPins → P → P) (data_out : P → ℕ) (timer_of : P → Timer)
    (IsQuiet : P → Type 0) (kernel : IsScheduled run data_out timer_of IsQuiet) where
  abbrev writing : ℕ → ℕ → BusPins
  writing off v = record { read_en = false; write_en = true; address = off; data_in = v }

  abbrev reading : ℕ → BusPins
  reading off = record { read_en = true; write_en = false; address = off; data_in = 0 }

  pub bus_write-held :
      (off v : ℕ) (s : PinState P)
      → IsHeld off
      → IsQuiet s.model
      → let s' = bus_write run data_out off v s in
        IsQuiet s'.model × (held off (timer_of s'.model) ≡ v)
  unfolding bus_write
  bus_write-held off v s h quiet =
      let up = writing off v in
      let low : BusPins = record up { write_en = false } in
      let settled = run 0 up (run 0 up s.model) in
      let (j, k, strobed) = kernel.write_strobe up s.model quiet refl refl in
      let (still, (m, idle, _)) = kernel.period low settled refl refl in
      (
        still,
        ap (held off) idle
            ∙ held-turns off m (timer_of settled)
            ∙ ap (held off) strobed
            ∙ held-turns off k (bus_write_method (as_pins up) (turns j (timer_of s.model)))
            ∙ held-write off (as_pins up) (turns j (timer_of s.model)) h refl refl,
      )

  pub bus_read-held :
      (off : ℕ) (s : PinState P)
      → IsHeld off
      → IsQuiet s.model
      → (bus_read run data_out off s).0 ≡ held off (timer_of s.model)
  unfolding bus_read
  bus_read-held off s h quiet =
      let up = reading off in
      let (j, k, strobed) = kernel.read_strobe up s.model quiet refl refl in
      let seen = bus_read_method (as_pins up) (turns j (timer_of s.model)) in
      kernel.shows up s.model
      ∙ ap (λ (u : Timer). u.data_out) strobed
      ∙ (turns-kept k seen).2
      ∙ data_out-read off (as_pins up) (turns j (timer_of s.model)) h refl refl
      ∙ held-turns off j (timer_of s.model)

  -- Over a kernel that schedules the timer as it relies on, and from low strobes, a write transaction
  -- of a word to the control or the compare register of the timer followed by a read transaction of
  -- the same register returns the word, whatever turns of the timer's processes fall in between.
  pub timer_write_then_read :
      (off v : ℕ) (s : PinState P)
      → IsHeld off
      → v < 2 ^ 32
      → IsQuiet s.model
      → Returns v
          (b_transport run data_out
            (b_transport run data_out s (write_payload off v)).0
            (read_payload off)).1
  unfolding b_transport write_payload read_payload
  timer_write_then_read off v s h small quiet =
      let word : u32 off ≡ off = ground arith in
      let carried : word_of (word_bytes v) ≡ v = word_of-word_bytes v small in
      let (still, stored) = bus_write-held off v s h quiet in
      let back = bus_read-held off (bus_write run data_out off v s) h still ∙ stored in
      rw (word, carried, back)
        (record { good = refl; word = word_of-memcpy (replicate 4 0) v (omega arith) small })
