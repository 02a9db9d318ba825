-- ===== src/Tests/Platform.antt =====
-- The buses of interconnect/ and bridges/, and the platform of Soc/, on concrete inputs.
use systemc_model.Base.{length-replicate, ℕ, ◌+◌, bit_and, ◌≡◌, refl, true, false, [], ◌∷◌}
use systemc_model.Base.Bits.{testbit, has_any}
use systemc_model.Tlm.{Transport, IsTarget}
use systemc_model.Transactor.Initiator.{read_payload, write_payload, write_payload-IsBytes}
use systemc_model.Interconnect.AddressMap as AddressMap
use systemc_model.Interconnect.AddressMap.Laws.{map-eq-decoder}
use systemc_model.Interconnect.Decoder as Decoder
use systemc_model.Bridges.PinBridge as PinBridge
use systemc_model.Bridges.PinBridge.Laws.{platform-IsTarget}
use systemc_model.Peripherals.Sram as Sram
use systemc_model.Peripherals.Gpio as Gpio
use systemc_model.Peripherals.Uart as Uart
use systemc_model.Peripherals.Wdt as Wdt
use systemc_model.Peripherals.SysCtrl as SysCtrl
use systemc_model.Soc as Soc
use systemc_model.Soc.Map.{route}
use systemc_model.Soc.Map.Routing.{transport-eq-route}
use systemc_model.Soc.Safety.{IsSound, sram_never_overrun}
use systemc_model.Soc.Reach as SocReach
use systemc_model.Soc.Reach.Reported.{memory_always-IsSound, interrupts_reported}

-- A model behind the pins that only counts the nanoseconds.
abbrev pub run : ℕ → PinBridge.BusPins → ℕ → ℕ
run d pins m = m + d

abbrev pub data_out : ℕ → ℕ
data_out m = 77

abbrev pub bridge : Transport (PinBridge.PinState ℕ)
bridge = PinBridge.b_transport run data_out

abbrev idle : PinBridge.PinState ℕ
idle = record {
  pins = record { read_en = false; write_en = false; address = 0; data_in = 0 };
  model = 5;
}

-- The platform after its construction.
abbrev pub built : Soc.Soc (PinBridge.PinState ℕ)
built = record {
  timer = idle;
  sram = Sram.sram_ahb 0x1000;
  gpio = Gpio.gpio_apb;
  uart = Uart.uart_pl011;
  sysctrl = SysCtrl.sys_ctrl 100 50;
  wdt = Wdt.wdt_apb;
}

pub built-IsSound : IsSound built.sram
built-IsSound = (length-replicate {A = ℕ} 0x1000 0, refl)

transport-eq-route_example :
    Soc.b_transport bridge built (write_payload 0x11000 65)
    ≡ route bridge built (write_payload 0x11000 65)
transport-eq-route_example = transport-eq-route bridge built (write_payload 0x11000 65)

sram_never_overrun_example :
    IsSound (Soc.b_transport bridge built (read_payload 0xFFFF_FFFC)).0.sram
sram_never_overrun_example =
    sram_never_overrun bridge built (read_payload 0xFFFF_FFFC) built-IsSound

platform-IsTarget_example : IsTarget (Soc.b_transport bridge)
platform-IsTarget_example = platform-IsTarget run data_out

abbrev one_region : Decoder.Decoder
one_region = record {
  regions =
      record { base = 0x8000; size = 0x1000; used = true }
      ∷ Decoder.unused
      ∷ Decoder.unused
      ∷ Decoder.unused
      ∷ [];
  cycle = 0;
}

map-eq-decoder_example :
    AddressMap.b_transport Sram.b_transport
      (AddressMap.map_region 0x8000 0x1000 AddressMap.tlm_address_map)
      (Sram.sram_ahb 16)
      (read_payload 0x8004)
    ≡ Decoder.b_transport Sram.b_transport Decoder.sink Decoder.sink Decoder.sink one_region
        (Sram.sram_ahb 16)
        (read_payload 0x8004)
unfolding Decoder.map_slave
map-eq-decoder_example =
    map-eq-decoder Sram.b_transport Decoder.sink Decoder.sink Decoder.sink 0x8000 0x1000
      AddressMap.tlm_address_map one_region (Sram.sram_ahb 16) (read_payload 0x8004) refl

memory_always-IsSound_example :
    IsSound (Soc.b_transport bridge built (write_payload 0x8004 7)).0.sram
memory_always-IsSound_example = memory_always-IsSound bridge (
    SocReach.later (SocReach.start idle 100 50)
      (SocReach.access (write_payload 0x8004 7) (write_payload-IsBytes 0x8004 7)))

interrupts_reported_example :
    let s = record built { gpio = Gpio.drive_irq Gpio.gpio_apb } in
    let word = Soc.pack_irqs false false s.uart.irq s.gpio.irq s.wdt.irq in
    (testbit word 2 ≡ has_any s.uart.ris s.uart.imsc)
    × (testbit word 3 ≡ has_any s.gpio.intstat s.gpio.inten)
    × (testbit word 4 ≡ has_any s.wdt.ris (bit_and s.wdt.ctrl Wdt.wdt_ctrl_inten))
unfolding Gpio.drive_irq
interrupts_reported_example =
    interrupts_reported bridge (SocReach.later (SocReach.start idle 100 50) SocReach.gpio_wake) refl
      refl refl false false
