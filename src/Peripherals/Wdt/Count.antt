-- ===== src/Peripherals/Wdt/Count.antt =====
-- The countdown of the watchdog over any number of clock edges.
use systemc_model.Base.{◌==◌, if◌then◌else◌, ℕ, zero, suc, ◌+◌, ◌-◌, ◌*◌, ◌≤◌, ◌≡◌, refl, ap}
use systemc_model.Base.{◌∙◌, true, false, arith}
use systemc_model.Base.Bits.{has_any}
use systemc_model.Peripherals.Wdt.{Wdt, tick, wdt_ctrl_inten}

-- `n` rising edges of `pclk` with `reset` low.
unfoldable pub ticks : ℕ → Wdt → Wdt
ticks zero s = s
ticks (suc n) s = ticks n (tick false s)

abbrev pub IsCounting : Wdt → Type 0
IsCounting s = has_any s.ctrl wdt_ctrl_inten ≡ true

-- Up to the value 0 the edges only count down.
ticks_down :
    (n : ℕ) (s : Wdt) → IsCounting s → n ≤ s.value → ticks n s ≡ record s { value = s.value - n }
unfolding ticks tick
ticks_down zero s c h = ground arith
ticks_down (suc n) s c h = ground (arith, ticks_down n (record s { value = s.value - 1 }) c)

ticks_add : (m n : ℕ) (s : Wdt) → ticks (m + n) s ≡ ticks n (ticks m s)
unfolding ticks
ticks_add zero n s = let e : 0 + n ≡ n = omega arith in rw e
ticks_add (suc m) n s =
    let e : suc m + n ≡ suc (m + n) = omega arith in rw e (ticks_add m n (tick false s))

-- One edge after the value 0, the timeout is latched, the value reloaded and `drive` woken.
timeout :
    (n : ℕ) (s : Wdt)
    → IsCounting s
    → s.value ≡ n
    → ticks (suc n) s ≡ record s { ris = 1; value = s.load; irq_ev = true }
unfolding ticks tick
timeout zero s c e = ground arith
timeout (suc n) s c e = ground (arith, timeout n (record s { value = s.value - 1 }) c)

-- A watchdog that counts from its load value runs in periods of `load + 1` edges: after `q` whole
-- periods and `r` further edges the value is `load - r`. The first whole period latches the raw
-- interrupt and wakes `drive`; the edges change nothing else.
pub ticks_periodic :
    (q r : ℕ) (s : Wdt)
    → IsCounting s
    → s.value ≡ s.load
    → r ≤ s.load
    → ticks (q * (s.load + 1) + r) s ≡ (
        if q == 0
        then record s { value = s.load - r }
        else record s { ris = 1; value = s.load - r; irq_ev = true })
ticks_periodic zero r s c full small =
    let e : 0 * (s.load + 1) + r ≡ r = omega arith in
    rw e (ticks_down r s c (omega arith) ∙ ground arith)
ticks_periodic (suc q) r s c full small =
    let t : Wdt = record s { ris = 1; value = s.load; irq_ev = true } in
    let e : suc q * (s.load + 1) + r ≡ suc s.load + (q * (s.load + 1) + r) = omega arith in
    rw e (
      ticks_add (suc s.load) (q * (s.load + 1) + r) s
      ∙ ap (ticks (q * (s.load + 1) + r)) (timeout s.load s c full)
      ∙ ticks_periodic q r t c refl small
      ∙ ground arith)
