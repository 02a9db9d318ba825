-- ===== src/Soc/Safety.antt =====
-- What the platform guarantees whatever the host sends.
use systemc_model.Base.{length, ℕ, ◌<◌, ◌≡◌, refl, false, Option, none, some, arith}
use systemc_model.Tlm.{Txn, Transport, IsTarget}
use systemc_model.Interconnect.Decoder.{sink}
use systemc_model.Interconnect.Decoder.Laws.{decoder-IsTarget}
use systemc_model.Bridges.AhbApb.{bridge-IsTarget}
use systemc_model.Peripherals.Sram.{Sram}
use systemc_model.Peripherals.Gpio.Laws as GpioLaws
use systemc_model.Peripherals.Uart.Laws as UartLaws
use systemc_model.Peripherals.SysCtrl.Laws as SysCtrlLaws
use systemc_model.Peripherals.Wdt.Laws as WdtLaws
use systemc_model.Peripherals.Sram.Laws as SramLaws
use systemc_model.Soc.{
  Soc, ahb, apb, on_timer, on_sram, on_gpio, on_uart, on_sysctrl, on_wdt, apb_transport,
  b_transport,
}
use systemc_model.Soc.Map.{
  Place, timer, sram, gpio, uart, sysctrl, wdt, place_of, over_ahb, deliver, route,
}
use systemc_model.Soc.Map.Routing.{transport-eq-route}

sink-IsTarget : {S : Type 0} → IsTarget (sink {S = S})
unfolding sink
sink-IsTarget = record {
  answers = λ s t. ground arith;
  keeps = λ s t. ground arith;
  delays = λ s t. omega arith;
}

module _ {T : Type 0} (bridge : Transport T) (timer_target : IsTarget bridge) where
  lift_timer : IsTarget (on_timer bridge)
  unfolding on_timer
  lift_timer = record {
    answers = λ s t. timer_target.answers s.timer t;
    keeps = λ s t. timer_target.keeps s.timer t;
    delays = λ s t. timer_target.delays s.timer t;
  }

  lift_sram : IsTarget (on_sram bridge)
  unfolding on_sram
  lift_sram = record {
    answers = λ s t. SramLaws.b_transport-IsTarget.answers s.sram t;
    keeps = λ s t. SramLaws.b_transport-IsTarget.keeps s.sram t;
    delays = λ s t. SramLaws.b_transport-IsTarget.delays s.sram t;
  }

  lift_gpio : IsTarget (on_gpio bridge)
  unfolding on_gpio
  lift_gpio = record {
    answers = λ s t. GpioLaws.b_transport-IsTarget.answers s.gpio t;
    keeps = λ s t. GpioLaws.b_transport-IsTarget.keeps s.gpio t;
    delays = λ s t. GpioLaws.b_transport-IsTarget.delays s.gpio t;
  }

  lift_uart : IsTarget (on_uart bridge)
  unfolding on_uart
  lift_uart = record {
    answers = λ s t. UartLaws.b_transport-IsTarget.answers s.uart t;
    keeps = λ s t. UartLaws.b_transport-IsTarget.keeps s.uart t;
    delays = λ s t. UartLaws.b_transport-IsTarget.delays s.uart t;
  }

  lift_sysctrl : IsTarget (on_sysctrl bridge)
  unfolding on_sysctrl
  lift_sysctrl = record {
    answers = λ s t. SysCtrlLaws.b_transport-IsTarget.answers s.sysctrl t;
    keeps = λ s t. SysCtrlLaws.b_transport-IsTarget.keeps s.sysctrl t;
    delays = λ s t. SysCtrlLaws.b_transport-IsTarget.delays s.sysctrl t;
  }

  lift_wdt : IsTarget (on_wdt bridge)
  unfolding on_wdt
  lift_wdt = record {
    answers = λ s t. WdtLaws.b_transport-IsTarget.answers s.wdt t;
    keeps = λ s t. WdtLaws.b_transport-IsTarget.keeps s.wdt t;
    delays = λ s t. WdtLaws.b_transport-IsTarget.delays s.wdt t;
  }

  apb-IsTarget : IsTarget (apb_transport bridge)
  unfolding apb_transport
  apb-IsTarget = decoder-IsTarget _ _ _ _ apb lift_gpio lift_uart lift_sysctrl lift_wdt

  -- If the timer's bridge is a target, the whole platform is one: every transaction is answered,
  -- and comes back with its command, address, lengths and buffer size as they were sent, and no
  -- delay taken away.
  pub soc-IsTarget : IsTarget (b_transport bridge)
  unfolding b_transport
  soc-IsTarget =
      decoder-IsTarget _ _ _ _ ahb lift_timer lift_sram (bridge-IsTarget _ 20 apb-IsTarget)
        sink-IsTarget

-- A memory of the mapped size that has not been overrun.
abbrev pub IsSound : Sram → Type 0
IsSound m = (length m.mem ≡ 0x1000) × (m.overrun ≡ false)

module _ {T : Type 0} (bridge : Transport T) where
  sram_slot : (a off : ℕ) → place_of a ≡ some (sram, off) → off < 0x1000
  unfolding place_of
  sram_slot a off h = ground arith

  memory_access :
      (s : Soc T) (t : Txn) (off : ℕ)
      → off < 0x1000
      → IsSound s.sram
      → IsSound (on_sram bridge s (over_ahb off t)).0.sram
  unfolding on_sram
  memory_access s t off h k = ground (
    arith,
    SramLaws.length-mem s.sram (over_ahb off t),
    SramLaws.overrun_exactly s.sram (over_ahb off t),
  )

  deliver-IsSound :
      (p : Place) (off : ℕ) (s : Soc T) (t : Txn)
      → ((p ≡ sram) → off < 0x1000)
      → IsSound s.sram
      → IsSound (deliver bridge p off s t).0.sram
  unfolding deliver on_timer on_gpio on_uart on_sysctrl on_wdt
  deliver-IsSound timer off s t h k = k
  deliver-IsSound sram off s t h k = memory_access s t off (h refl) k
  deliver-IsSound gpio off s t h k = k
  deliver-IsSound uart off s t h k = k
  deliver-IsSound sysctrl off s t h k = k
  deliver-IsSound wdt off s t h k = k

  -- No transaction makes the memory behind the decoder overrun or change its size: the one address
  -- whose guard wraps is never passed on to it.
  pub sram_never_overrun :
      (s : Soc T) (t : Txn) → IsSound s.sram → IsSound (b_transport bridge s t).0.sram
  unfolding route
  sram_never_overrun s t h = rw (transport-eq-route bridge s t) (go (place_of t.address) refl)
    where
      go : (o : Option (Place × ℕ)) → place_of t.address ≡ o → IsSound (route bridge s t).0.sram
      go none e = rw (e, route) h
      go (some (p, off)) e =
          rw (e, route) (deliver-IsSound p off s t (λ q. sram_slot t.address off (rw q at e)) h)
