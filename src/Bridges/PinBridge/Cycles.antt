-- ===== src/Bridges/PinBridge/Cycles.antt =====
-- The two pin cycles of bridges/tlm_pin_bridge.h on the timer of peripherals/timer/timer.h, over any
-- kernel that schedules it: which turns of the timer's processes they are made of.
use systemc_model.Base.{ℕ, ◌+◌, ◌<◌, ◌≡◌, refl, sym, ap, ◌∙◌, true, false, List, [], ◌∷◌, ◌++◌}
use systemc_model.Base.{arith}
use systemc_model.Peripherals.Timer.{
  Timer, Pins, bus_read_method, bus_write_method, read_offset, write_offset,
}
use systemc_model.Peripherals.Timer.Later.{
  IsStopped, IsRunning, Later, thread-Later, outputs-Later, Later-refl, Later-trans,
  thread-IsStopped, outputs-IsStopped,
}
use systemc_model.Bridges.PinBridge as PinBridge
use systemc_model.Bridges.PinBridge.{BusPins, PinState, clock_period, bus_read, bus_write}
use systemc_model.Bridges.PinBridge.TimerBus.{
  as_pins, Turn, thread, outputs, turn, turns, threads, turns-append, turns-kept, IsScheduled,
}

pub turns-Later : (ps : List Turn) (s : Timer) → IsRunning s → Later (threads ps) s (turns ps s)
unfolding turns turn
turns-Later [] s h = Later-refl s h
turns-Later (thread ∷ ps) s h =
    let one = thread-Later s h in Later-trans 1 (threads ps) one (turns-Later ps _ one.running)
turns-Later (outputs ∷ ps) s h =
    let one = outputs-Later s h in Later-trans 0 (threads ps) one (turns-Later ps _ one.running)

pub turns-IsStopped :
    (v m i : ℕ) (ps : List Turn) (s : Timer) → IsStopped v m i s → IsStopped v m i (turns ps s)
unfolding turns turn
turns-IsStopped v m i [] s h = h
turns-IsStopped v m i (thread ∷ ps) s h = turns-IsStopped v m i ps _ (thread-IsStopped v m i s h)
turns-IsStopped v m i (outputs ∷ ps) s h = turns-IsStopped v m i ps _ (outputs-IsStopped v m i s h)

threads-append : (js ks : List Turn) → threads (js ++ ks) ≡ threads js + threads ks
threads-append [] ks = omega arith
threads-append (thread ∷ js) ks = omega (arith, threads-append js ks)
threads-append (outputs ∷ js) ks = omega (arith, threads-append js ks)

-- The signals of a read, as the timer's method sees them.
abbrev pub read_pins : ℕ → Pins
read_pins off = as_pins (record { read_en = true; write_en = false; address = off; data_in = 0 })

module _ {P : Type 0} (run : ℕ → BusPins → P → P) (data_out : P → ℕ) (timer_of : P → Timer)
    (IsQuiet : P → Type 0) (kernel : IsScheduled run data_out timer_of IsQuiet) where
  -- The strobes are low, and the kernel has seen them so.
  pub record AtRest (s : PinState P) : Type 0 where
    pub quiet : IsQuiet s.model
    pub read_low : s.pins.read_en ≡ false
    pub write_low : s.pins.write_en ≡ false

  -- The timer `u` comes from `t` by turns, what `f` does, and turns that the thread is among.
  abbrev pub Cycle : (Timer → Timer) → List Turn → Timer → Timer → Type 0
  Cycle f js t u = (ks : List Turn) × (u ≡ turns ks (f (turns js t))) × (0 < threads ks)

  pub followed :
      (f : Timer → Timer) (js ks ps : List Turn) (t u w : Timer)
      → u ≡ turns ks (f (turns js t))
      → w ≡ turns ps u
      → 0 < threads ps
      → Cycle f js t w
  followed f js ks ps t u w e e' more = (
    ks ++ ps,
    e' ∙ ap (turns ps) e ∙ sym (turns-append ks ps (f (turns js t))),
    omega (arith, threads-append ks ps, more),
  )

  -- A clock period at rest.
  pub wait-Cycle :
      (s : PinState P)
      → AtRest s
      → let s' = PinBridge.wait run data_out clock_period s in
        AtRest s' × Cycle (λ t. t) [] (timer_of s.model) (timer_of s'.model)
  unfolding turns
  wait-Cycle s h =
      let (quiet, (ps, e, more)) = kernel.period s.pins s.model h.read_low h.write_low in
      (record { quiet = quiet; read_low = h.read_low; write_low = h.write_low }, (ps, e, more))

  pub bus_write-Cycle :
      (off v : ℕ) (s : PinState P)
      → AtRest s
      → let s' = bus_write run data_out off v s in
        AtRest s'
        × (js : List Turn) × Cycle
            (λ t. write_offset t off v)
            js
            (timer_of s.model)
            (timer_of s'.model)
  unfolding bus_write bus_write_method
  bus_write-Cycle off v s h =
      let up : BusPins = record { read_en = false; write_en = true; address = off; data_in = v } in
      let low : BusPins = record up { write_en = false } in
      let settled = run 0 up (run 0 up s.model) in
      let (js, ks, e) = kernel.write_strobe up s.model h.quiet refl refl in
      let (quiet, (ps, e', more)) = kernel.period low settled refl refl in
      (
        record { quiet = quiet; read_low = refl; write_low = refl },
        js,
        followed (λ t. write_offset t off v) js ks ps (timer_of s.model) (timer_of settled) _ e e'
            more,
      )

  pub bus_read-Cycle :
      (off : ℕ) (s : PinState P)
      → AtRest s
      → let (d, s') = bus_read run data_out off s in
        AtRest s'
        × (js : List Turn) × (d ≡ read_offset (turns js (timer_of s.model)) off)
        × Cycle (bus_read_method (read_pins off)) js (timer_of s.model) (timer_of s'.model)
  unfolding bus_read
  bus_read-Cycle off s h =
      let up : BusPins = record { read_en = true; write_en = false; address = off; data_in = 0 } in
      let low : BusPins = record up { read_en = false } in
      let settled = run 0 up (run 0 up s.model) in
      let (js, ks, e) = kernel.read_strobe up s.model h.quiet refl refl in
      let (quiet, (ps, e', more)) = kernel.period low settled refl refl in
      let seen = bus_read_method (read_pins off) (turns js (timer_of s.model)) in
      (
        record { quiet = quiet; read_low = refl; write_low = refl },
        js,
        kernel.shows up s.model
            ∙ ap (λ (u : Timer). u.data_out) e
            ∙ (turns-kept ks seen).2
            ∙ unfold bus_read_method in refl,
        followed (bus_read_method (read_pins off)) js ks ps (timer_of s.model) (timer_of settled) _
            e e' more,
      )
