-- ===== src/Bridges/PinBridge/Kernel.antt =====
-- A simulation kernel for the timer of peripherals/timer/timer.h on the pins of
-- bridges/tlm_pin_bridge.h: which of the timer's processes run in a delta cycle and at a rising edge
-- of its clock.
use systemc_model.Base.{if◌then◌else◌, ℕ, zero, suc, ◌/◌, ◌<◌, ◌≡◌, refl, sym, ap, ◌∙◌, Bool}
use systemc_model.Base.{true, false, not, ◌&&◌, List, [], ◌∷◌, ◌++◌, arith}
use systemc_model.Peripherals.Timer.{
  Timer, bus_read_method, bus_write_method, reset_method, irq_output_method, timer_thread,
}
use systemc_model.Bridges.PinBridge.{BusPins, clock_period}
use systemc_model.Bridges.PinBridge.TimerBus.{
  as_pins, Turn, thread, outputs, turn, turns, threads, turns-append, Around, IsScheduled,
}

-- The timer, and the levels of the strobes as they were last seen.
pub record OnPins : Type 0 where
  pub timer : Timer
  pub seen_read : Bool
  pub seen_write : Bool

abbrev settled : Timer → Timer
settled t = if t.irq_changed_ev then irq_output_method t else t

-- A strobe that has risen runs its method.
abbrev strobed : BusPins → OnPins → Timer
strobed p m =
    if p.read_en && not m.seen_read
    then bus_read_method (as_pins p) m.timer
    else if p.write_en && not m.seen_write
    then bus_write_method (as_pins p) m.timer
    else m.timer

unfoldable pub delta : BusPins → OnPins → OnPins
delta p m = record { timer = settled (strobed p m); seen_read = p.read_en; seen_write = p.write_en }

-- A rising edge of the clock: the thread, and then `irq_output_method` with what it has posted.
unfoldable pub clock_edge : OnPins → OnPins
clock_edge m = record m { timer = irq_output_method (timer_thread m.timer) }

unfoldable pub clock_edges : ℕ → OnPins → OnPins
clock_edges zero m = m
clock_edges (suc n) m = clock_edges n (clock_edge m)

-- A high level of the reset.
unfoldable pub reset_high : OnPins → OnPins
reset_high m = record m {
  timer = settled (
      reset_method
        (record { reset = true; read_en = false; write_en = false; data_in = 0; address = 0 })
        m.timer);
}

-- `d` nanoseconds with the pins held: a delta cycle, and the edges of the clock.
unfoldable pub run : ℕ → BusPins → OnPins → OnPins
run d p m = clock_edges (d / clock_period) (delta p m)

abbrev pub data_out : OnPins → ℕ
data_out m = m.timer.data_out

abbrev pub timer_of : OnPins → Timer
timer_of m = m.timer

-- The kernel has seen both strobes low.
abbrev pub IsQuiet : OnPins → Type 0
IsQuiet m = (m.seen_read ≡ false) × (m.seen_write ≡ false)

-- The turns of a delta cycle after the strobes.
abbrev driven : Timer → List Turn
driven t = if t.irq_changed_ev then outputs ∷ [] else []

settled-driven : (t : Timer) → settled t ≡ turns (driven t) t
unfolding turns turn
settled-driven t =
    elim t.irq_changed_ev
      as (λ b. (if b then irq_output_method t else t) ≡ turns (if b then outputs ∷ [] else []) t) [
        | true ↦ refl
        | false ↦ refl
      ]

settled_twice : (t : Timer) → (ks : List Turn) × (settled (settled t) ≡ turns ks t)
settled_twice t = (
  driven t ++ driven (settled t),
  settled-driven (settled t)
      ∙ ap (turns (driven (settled t))) (settled-driven t)
      ∙ sym (turns-append (driven t) (driven (settled t)) t),
)

-- A strobe that stays as it is runs nothing.
seen_already : (p : BusPins) (m : OnPins) → strobed p (delta p m) ≡ settled (strobed p m)
unfolding delta
seen_already p m = ground arith

two_deltas :
    (p : BusPins) (m : OnPins) (f : Timer → Timer)
    → strobed p m ≡ f m.timer
    → Around f (timer_of m) (timer_of (run 0 p (run 0 p m)))
unfolding run clock_edges delta turns
two_deltas p m f e =
    let (ks, e') = settled_twice (strobed p m) in
    ([], ks, ap settled (seen_already p m) ∙ e' ∙ ap (turns ks) e)

read_rises :
    (p : BusPins) (m : OnPins)
    → IsQuiet m
    → p.read_en ≡ true
    → strobed p m ≡ bus_read_method (as_pins p) m.timer
read_rises p m (quiet, _) up = rw (up, quiet) refl

write_rises :
    (p : BusPins) (m : OnPins)
    → IsQuiet m
    → p.read_en ≡ false
    → p.write_en ≡ true
    → strobed p m ≡ bus_write_method (as_pins p) m.timer
write_rises p m (_, quiet) low up = rw (low, up, quiet) refl

at_edge :
    (p : BusPins) (m : OnPins)
    → p.read_en ≡ false
    → p.write_en ≡ false
    → (ks : List Turn) × (timer_of (run clock_period p m) ≡ turns ks (timer_of m))
      × (0 < threads ks)
unfolding run clock_edges clock_edge delta turns turn
at_edge p m down low = (
  driven m.timer ++ (thread ∷ outputs ∷ []),
  rw (down, low)
      (ap (λ t. irq_output_method (timer_thread t)) (settled-driven m.timer)
        ∙ sym (turns-append (driven m.timer) (thread ∷ outputs ∷ []) m.timer)),
  elim m.timer.irq_changed_ev
      as (λ b. 0 < threads ((if b then outputs ∷ [] else []) ++ (thread ∷ outputs ∷ []))) [
        | true ↦ omega arith
        | false ↦ omega arith
      ],
)

-- This kernel does what the bridge relies on.
pub run-IsScheduled : IsScheduled run data_out timer_of IsQuiet
unfolding run clock_edges clock_edge delta
run-IsScheduled = record {
  read_strobe =
      λ p m quiet up low. two_deltas p m (bus_read_method (as_pins p)) (read_rises p m quiet up);
  write_strobe = λ p m quiet low up.
      two_deltas p m (bus_write_method (as_pins p)) (write_rises p m quiet low up);
  shows = λ p m. refl;
  period = λ p m down low. ((down, low), at_edge p m down low);
}
