-- ===== src/Soc/Octets.antt =====
-- What travels over the platform of Soc/cortexm_pl.h is bytes: no target of it hands back anything else.
pub mod Response
use systemc_model.Base.{◌==◌, if◌then◌else◌, get_or, ℕ, ◌<◌, ◌≡◌, inl, inr, Bool, true, false}
use systemc_model.Base.{arith}
use systemc_model.Base.Bits.{u32}
use systemc_model.Tlm.{Txn, IsBytes, Transport, word_bytes, tlm_check_u32, tlm_unpack_u32}
use systemc_model.Tlm.{tlm_pack_u32}
use systemc_model.Tlm.Laws.{word_bytes-IsBytes, memcpy-IsBytes}
use systemc_model.Interconnect.Decoder as Decoder
use systemc_model.Interconnect.Decoder.{Decoder, port, sink}
use systemc_model.Interconnect.Decoder.Laws.{Option-cases, down, transport_miss, transport_hit}
use systemc_model.Bridges.AhbApb as AhbApb
use systemc_model.Bridges.PinBridge as PinBridge
use systemc_model.Bridges.PinBridge.{BusPins, PinState, bus_read}
use systemc_model.Peripherals.Sram as Sram
use systemc_model.Peripherals.Gpio as Gpio
use systemc_model.Peripherals.Uart as Uart
use systemc_model.Peripherals.SysCtrl as SysCtrl
use systemc_model.Peripherals.Wdt as Wdt
use systemc_model.Soc.{
  Soc, on_timer, on_sram, on_gpio, on_uart, on_sysctrl, on_wdt, apb, apb_transport, ahb,
  b_transport,
}

-- A target that gives bytes back for bytes, in the states of `I`, and stays in them.
abbrev pub IsTyped : {S : Type 0} → (S → Type 0) → Transport S → Type 0
IsTyped {S = S} I target =
    (s : S) (t : Txn) → I s → IsBytes t.bytes → I (target s t).0 × IsBytes (target s t).1.bytes

abbrev pub Always : {S : Type 0} → S → Type 0
Always s = Unit

pack_octets :
    (t : Txn) (v : ℕ) → IsBytes t.bytes → (i : ℕ) → get_or (tlm_pack_u32 t v).1.bytes i 0 < 256
unfolding tlm_pack_u32 tlm_check_u32
pack_octets t v h i =
    ground (arith, memcpy-IsBytes 4 t.bytes 0 (word_bytes v) 0 h (word_bytes-IsBytes v) i, h i)

unpack_octets : (t : Txn) → (tlm_unpack_u32 t).1.bytes ≡ t.bytes
unfolding tlm_unpack_u32 tlm_check_u32
unpack_octets t = ground arith

wdt-IsTyped : IsTyped Always Wdt.b_transport
unfolding Wdt.b_transport
wdt-IsTyped s t k h = (
  tt,
  λ i.
      ground (arith, pack_octets t (Wdt.read_register s (u32 t.address)) h i, unpack_octets t, h i),
)

gpio-IsTyped : IsTyped Always Gpio.b_transport
unfolding Gpio.b_transport
gpio-IsTyped s t k h = (
  tt,
  λ i.
      ground
        (arith, pack_octets t (Gpio.read_register s (u32 t.address)) h i, unpack_octets t, h i),
)

sysctrl-IsTyped : IsTyped Always SysCtrl.b_transport
unfolding SysCtrl.b_transport
sysctrl-IsTyped s t k h = (
  tt,
  λ i.
      ground
        (arith, pack_octets t (SysCtrl.read_register s (u32 t.address)) h i, unpack_octets t, h i),
)

uart-IsTyped : IsTyped Always Uart.b_transport
unfolding Uart.b_transport
uart-IsTyped s t k h = (
  tt,
  λ i.
      ground
        (arith, pack_octets t (Uart.read_register s (u32 t.address)).0 h i, unpack_octets t, h i),
)

sram-IsTyped : IsTyped (λ m. IsBytes m.mem) Sram.b_transport
unfolding Sram.b_transport
sram-IsTyped m t k h = (
  λ i. ground (arith, memcpy-IsBytes 4 m.mem (u32 t.address) t.bytes 0 k h i, k i),
  λ i. ground (arith, memcpy-IsBytes 4 t.bytes 0 m.mem (u32 t.address) h k i, h i),
)

module _ {P : Type 0} (run : ℕ → BusPins → P → P) (data_out : P → ℕ) where
  pin_bridge-IsTyped : IsTyped Always (PinBridge.b_transport run data_out)
  unfolding PinBridge.b_transport
  pin_bridge-IsTyped s t k h = (
    tt,
    λ i.
        let v = (bus_read run data_out (u32 t.address) s).0 in
        ground (arith, memcpy-IsBytes 4 t.bytes 0 (word_bytes v) 0 h (word_bytes-IsBytes v) i, h i),
  )

sink-IsTyped : {S : Type 0} (I : S → Type 0) → IsTyped I sink
unfolding sink
sink-IsTyped I s t k h = (k, h)

pick-IsTyped :
    {S : Type 0} (I : S → Type 0) (x y : Transport S) (b : Bool)
    → IsTyped I x
    → IsTyped I y
    → IsTyped I (if b then x else y)
pick-IsTyped I x y true hx hy = hx
pick-IsTyped I x y false hx hy = hy

module _ {S : Type 0} (I : S → Type 0) (s0 s1 s2 s3 : Transport S) where
  port-IsTyped :
      IsTyped I s0
      → IsTyped I s1
      → IsTyped I s2
      → IsTyped I s3
      → (i : ℕ) → IsTyped I (port s0 s1 s2 s3 i)
  unfolding port
  port-IsTyped h0 h1 h2 h3 i =
      pick-IsTyped I s0 _ (i == 0) h0
        (pick-IsTyped I s1 _ (i == 1) h1 (pick-IsTyped I s2 s3 (i == 2) h2 h3))

  decoder-IsTyped :
      (d : Decoder)
      → IsTyped I s0
      → IsTyped I s1
      → IsTyped I s2
      → IsTyped I s3
      → IsTyped I (Decoder.b_transport s0 s1 s2 s3 d)
  decoder-IsTyped d h0 h1 h2 h3 s t k h = elim (Option-cases (Decoder.decode d t.address)) [
    | inl miss ↦ rw (transport_miss s0 s1 s2 s3 d s t miss) (k, h)
    | inr (i, hit) ↦
        rw (transport_hit s0 s1 s2 s3 d s t i hit) (port-IsTyped h0 h1 h2 h3 i s (down d t i) k h)
  ]

-- The memory of the platform holds bytes.
abbrev pub HoldsOctets : {T : Type 0} → Soc T → Type 0
HoldsOctets s = IsBytes s.sram.mem

module _ {P : Type 0} (run : ℕ → BusPins → P → P) (data_out : P → ℕ) where
  abbrev bridge : Transport (PinState P)
  bridge = PinBridge.b_transport run data_out

  timer_part : IsTyped HoldsOctets (on_timer bridge)
  unfolding on_timer
  timer_part s t k h = (k, (pin_bridge-IsTyped run data_out s.timer t tt h).1)

  sram_part : IsTyped HoldsOctets (on_sram bridge)
  unfolding on_sram
  sram_part s t k h = sram-IsTyped s.sram t k h

  gpio_part : IsTyped HoldsOctets (on_gpio bridge)
  unfolding on_gpio
  gpio_part s t k h = (k, (gpio-IsTyped s.gpio t tt h).1)

  uart_part : IsTyped HoldsOctets (on_uart bridge)
  unfolding on_uart
  uart_part s t k h = (k, (uart-IsTyped s.uart t tt h).1)

  sysctrl_part : IsTyped HoldsOctets (on_sysctrl bridge)
  unfolding on_sysctrl
  sysctrl_part s t k h = (k, (sysctrl-IsTyped s.sysctrl t tt h).1)

  wdt_part : IsTyped HoldsOctets (on_wdt bridge)
  unfolding on_wdt
  wdt_part s t k h = (k, (wdt-IsTyped s.wdt t tt h).1)

  apb_part : IsTyped HoldsOctets (AhbApb.b_transport (apb_transport bridge) 20)
  unfolding AhbApb.b_transport apb_transport
  apb_part s t k h =
      decoder-IsTyped HoldsOctets (on_gpio bridge) (on_uart bridge) (on_sysctrl bridge)
        (on_wdt bridge) apb gpio_part uart_part sysctrl_part wdt_part s _ k h

  -- Bytes come back for bytes from the whole platform, and its memory goes on to hold bytes.
  pub platform-IsTyped : IsTyped HoldsOctets (b_transport bridge)
  unfolding b_transport
  platform-IsTyped =
      decoder-IsTyped HoldsOctets (on_timer bridge) (on_sram bridge) _ sink ahb timer_part sram_part
        apb_part (sink-IsTyped HoldsOctets)
