-- ===== src/Soc/Reach/Reported.antt =====
-- What holds in every state of the platform.
use systemc_model.Base.{length, length-replicate, ℕ, bit_and, ◌≡◌, refl, ◌∙◌, Bool, true, false}
use systemc_model.Base.{Option, none, some}
use systemc_model.Base.Bits.{testbit, has_any}
use systemc_model.Tlm.{Txn, IsBytes, Transport}
use systemc_model.Peripherals.Sram as Sram
use systemc_model.Peripherals.Gpio.Reach as GpioReach
use systemc_model.Peripherals.Uart.Reach as UartReach
use systemc_model.Peripherals.Wdt as Wdt
use systemc_model.Peripherals.Wdt.Reach as WdtReach
use systemc_model.Soc.{
  Soc, on_timer, on_sram, on_gpio, on_uart, on_sysctrl, on_wdt, b_transport, pack_irqs,
}
use systemc_model.Soc.Map.{Place, timer, sram, gpio, uart, sysctrl, wdt, place_of, deliver, route}
use systemc_model.Soc.Map.Routing.{transport-eq-route}
use systemc_model.Soc.Safety.{IsSound, sram_never_overrun}
use systemc_model.Soc.Irq.{pack_irqs_bits}
use systemc_model.Soc.Reach.{
  built, Step, Reach, access, timer_runs, sram_reset, gpio_reset, gpio_wake, uart_reset, uart_wake,
  sysctrl_reset, sysctrl_wdt, wdt_reset, wdt_clock, wdt_wake, start, later,
}

module _ {T : Type 0} (bridge : Transport T) where
  -- Every block is in a state that it can reach by itself, and the memory is sound.
  pub record AreReached (s : Soc T) : Type 0 where
    pub gpio_reached : GpioReach.Reach s.gpio
    pub uart_reached : UartReach.Reach s.uart
    pub wdt_reached : WdtReach.Reach s.wdt
    pub sram_sound : IsSound s.sram

  -- An access is an access of the block that it is for; the memory is looked at elsewhere.
  deliver-AreReached :
      (p : Place) (off : ℕ) (s : Soc T) (t : Txn)
      → IsBytes t.bytes
      → IsSound (deliver bridge p off s t).0.sram
      → AreReached s
      → AreReached (deliver bridge p off s t).0
  unfolding deliver on_timer on_sram on_gpio on_uart on_sysctrl on_wdt
  deliver-AreReached timer off s t bytes k h = record {
    gpio_reached = h.gpio_reached;
    uart_reached = h.uart_reached;
    wdt_reached = h.wdt_reached;
    sram_sound = k;
  }
  deliver-AreReached sram off s t bytes k h = record {
    gpio_reached = h.gpio_reached;
    uart_reached = h.uart_reached;
    wdt_reached = h.wdt_reached;
    sram_sound = k;
  }
  deliver-AreReached gpio off s t bytes k h = record {
    gpio_reached = GpioReach.later h.gpio_reached (GpioReach.access _ bytes);
    uart_reached = h.uart_reached;
    wdt_reached = h.wdt_reached;
    sram_sound = k;
  }
  deliver-AreReached uart off s t bytes k h = record {
    gpio_reached = h.gpio_reached;
    uart_reached = UartReach.later h.uart_reached (UartReach.access _ bytes);
    wdt_reached = h.wdt_reached;
    sram_sound = k;
  }
  deliver-AreReached sysctrl off s t bytes k h = record {
    gpio_reached = h.gpio_reached;
    uart_reached = h.uart_reached;
    wdt_reached = h.wdt_reached;
    sram_sound = k;
  }
  deliver-AreReached wdt off s t bytes k h = record {
    gpio_reached = h.gpio_reached;
    uart_reached = h.uart_reached;
    wdt_reached = WdtReach.later h.wdt_reached (WdtReach.access _ bytes);
    sram_sound = k;
  }

  access-AreReached :
      (s : Soc T) (t : Txn) → IsBytes t.bytes → AreReached s → AreReached (b_transport bridge s t).0
  unfolding route
  access-AreReached s t bytes h =
      let sound = sram_never_overrun bridge s t h.sram_sound in
      rw (transport-eq-route bridge s t)
        (go (place_of t.address) refl (rw (transport-eq-route bridge s t) at sound))
    where
      go :
          (o : Option (Place × ℕ))
          → place_of t.address ≡ o
          → IsSound (route bridge s t).0.sram
          → AreReached (route bridge s t).0
      go none e k = rw (e, route) h
      go (some (p, off)) e k =
          rw (e, route) (deliver-AreReached p off s t bytes (rw (e, route) at k) h)

  Step-AreReached : {s u : Soc T} → Step bridge s u → AreReached s → AreReached u
  unfolding Sram.on_reset
  Step-AreReached {s} (access t bytes) h = access-AreReached s t bytes h
  Step-AreReached {s} (timer_runs x) h = record {
    gpio_reached = h.gpio_reached;
    uart_reached = h.uart_reached;
    wdt_reached = h.wdt_reached;
    sram_sound = h.sram_sound;
  }
  Step-AreReached {s} (sram_reset true) h = record {
    gpio_reached = h.gpio_reached;
    uart_reached = h.uart_reached;
    wdt_reached = h.wdt_reached;
    sram_sound = (length-replicate {A = ℕ} (length s.sram.mem) 0 ∙ h.sram_sound.0, h.sram_sound.1);
  }
  Step-AreReached {s} (sram_reset false) h = record {
    gpio_reached = h.gpio_reached;
    uart_reached = h.uart_reached;
    wdt_reached = h.wdt_reached;
    sram_sound = h.sram_sound;
  }
  Step-AreReached {s} (gpio_reset level) h = record {
    gpio_reached = GpioReach.later h.gpio_reached (GpioReach.reset level);
    uart_reached = h.uart_reached;
    wdt_reached = h.wdt_reached;
    sram_sound = h.sram_sound;
  }
  Step-AreReached {s} gpio_wake h = record {
    gpio_reached = GpioReach.later h.gpio_reached GpioReach.wake;
    uart_reached = h.uart_reached;
    wdt_reached = h.wdt_reached;
    sram_sound = h.sram_sound;
  }
  Step-AreReached {s} (uart_reset level) h = record {
    gpio_reached = h.gpio_reached;
    uart_reached = UartReach.later h.uart_reached (UartReach.reset level);
    wdt_reached = h.wdt_reached;
    sram_sound = h.sram_sound;
  }
  Step-AreReached {s} uart_wake h = record {
    gpio_reached = h.gpio_reached;
    uart_reached = UartReach.later h.uart_reached UartReach.wake;
    wdt_reached = h.wdt_reached;
    sram_sound = h.sram_sound;
  }
  Step-AreReached {s} (sysctrl_reset level) h = record {
    gpio_reached = h.gpio_reached;
    uart_reached = h.uart_reached;
    wdt_reached = h.wdt_reached;
    sram_sound = h.sram_sound;
  }
  Step-AreReached {s} sysctrl_wdt h = record {
    gpio_reached = h.gpio_reached;
    uart_reached = h.uart_reached;
    wdt_reached = h.wdt_reached;
    sram_sound = h.sram_sound;
  }
  Step-AreReached {s} (wdt_reset level) h = record {
    gpio_reached = h.gpio_reached;
    uart_reached = h.uart_reached;
    wdt_reached = WdtReach.later h.wdt_reached (WdtReach.reset level);
    sram_sound = h.sram_sound;
  }
  Step-AreReached {s} (wdt_clock reset) h = record {
    gpio_reached = h.gpio_reached;
    uart_reached = h.uart_reached;
    wdt_reached = WdtReach.later h.wdt_reached (WdtReach.clock reset);
    sram_sound = h.sram_sound;
  }
  Step-AreReached {s} wdt_wake h = record {
    gpio_reached = h.gpio_reached;
    uart_reached = h.uart_reached;
    wdt_reached = WdtReach.later h.wdt_reached WdtReach.wake;
    sram_sound = h.sram_sound;
  }

  built-AreReached : (x : T) (sys_hz pclk_hz : ℕ) → AreReached (built x sys_hz pclk_hz)
  built-AreReached x sys_hz pclk_hz = record {
    gpio_reached = GpioReach.start;
    uart_reached = UartReach.start;
    wdt_reached = WdtReach.start;
    sram_sound = (length-replicate {A = ℕ} 0x1000 0, refl);
  }

  Reach-AreReached : {s : Soc T} → Reach bridge s → AreReached s
  Reach-AreReached (start x sys_hz pclk_hz) = built-AreReached x sys_hz pclk_hz
  Reach-AreReached (later r st) = Step-AreReached st (Reach-AreReached r)

  -- In every state that the platform can reach, whatever the host sends and in whatever order the
  -- resets, clock edges and wake-ups come, the memory has its mapped size and was never overrun.
  pub memory_always-IsSound : {s : Soc T} → Reach bridge s → IsSound s.sram
  memory_always-IsSound r = (Reach-AreReached r).sram_sound

  -- In every state that the platform can reach, whatever the host sends and in whatever order the
  -- resets, clock edges and wake-ups come, in which none of the serial port, the pins and the watchdog
  -- has a notification pending, the bits 2, 3 and 4 of the interrupt word say exactly whether the
  -- serial port has an unmasked, the pins an enabled and the watchdog a raised and enabled interrupt.
  pub interrupts_reported :
      {s : Soc T}
      → Reach bridge s
      → s.uart.irq_ev ≡ false
      → s.gpio.irq_ev ≡ false
      → s.wdt.irq_ev ≡ false
      → (intr1 intr2 : Bool)
      → let word = pack_irqs intr1 intr2 s.uart.irq s.gpio.irq s.wdt.irq in
        (testbit word 2 ≡ has_any s.uart.ris s.uart.imsc)
        × (testbit word 3 ≡ has_any s.gpio.intstat s.gpio.inten)
        × (testbit word 4 ≡ has_any s.wdt.ris (bit_and s.wdt.ctrl Wdt.wdt_ctrl_inten))
  interrupts_reported {s} r uart_quiet gpio_quiet wdt_quiet intr1 intr2 =
      let h = Reach-AreReached r in
      let bit = pack_irqs_bits intr1 intr2 s.uart.irq s.gpio.irq s.wdt.irq in
      (
        bit 2 ∙ (UartReach.uart_always-IsValid h.uart_reached).irq_settled uart_quiet,
        bit 3 ∙ (GpioReach.gpio_always-IsValid h.gpio_reached).irq_settled gpio_quiet,
        bit 4 ∙ (WdtReach.wdt_always-IsValid h.wdt_reached).irq_settled wdt_quiet,
      )
