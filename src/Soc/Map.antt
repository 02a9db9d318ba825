-- ===== src/Soc/Map.antt =====
-- The memory map that include/soc_memory_map.h documents, against the wiring.
pub mod Routing
use systemc_model.Base.{ltb, leb, if◌then◌else◌, ℕ, ◌+◌, ◌-◌, Bool, true, false, ◌&&◌, Option}
use systemc_model.Base.{none, some}
use systemc_model.Tlm.{Command, ApbExtension, Txn, Transport, address_error}
use systemc_model.Interconnect.Decoder
use systemc_model.Interconnect.Decoder.{decode, find, covers, port, sink}
use systemc_model.Interconnect.Decoder.Laws.{down, transport_hit, transport_miss}
use systemc_model.Bridges.AhbApb
use systemc_model.Soc.{
  Soc, ahb, apb, on_timer, on_sram, on_gpio, on_uart, on_sysctrl, on_wdt, apb_transport,
  b_transport,
}
use native.Mathlib.Decide.{dec_lt}

pub data Place : Type 0 where
  timer sram gpio uart sysctrl wdt : Place

abbrev between : ℕ → ℕ → ℕ → Bool
between lo hi a = leb lo a && ltb a hi

-- The documented map: which block answers at an offset of the window, and at which of its own
-- offsets.
unfoldable pub place_of : ℕ → Option (Place × ℕ)
place_of a =
    if ltb a 0x1000
    then some (timer, a)
    else if between 0x8000 0x9000 a
    then some (sram, a - 0x8000)
    else if between 0x10000 0x11000 a
    then some (gpio, a - 0x10000)
    else if between 0x11000 0x12000 a
    then some (uart, a - 0x11000)
    else if between 0x12000 0x13000 a
    then some (sysctrl, a - 0x12000)
    else if between 0x13000 0x14000 a
    then some (wdt, a - 0x13000)
    else none

-- A transaction as it arrives at its block: with the block's own offset, 10 ns later on the AHB,
-- and 40 ns more and the APB extension behind the bridge.
abbrev pub over_ahb : ℕ → Txn → Txn
over_ahb off t = record t { address = off; delay = t.delay + 10 }

abbrev pub apb_extension : Txn → ApbExtension
apb_extension t = record {
  psel = true;
  penable = true;
  pwrite = elim t.command [ Command.write ↦ true | _ ↦ false ];
}

abbrev pub over_apb : ℕ → Txn → Txn
over_apb off t = record t {
  address = off;
  extension = some (apb_extension t);
  delay = t.delay + 50;
}

module _ {T : Type 0} (bridge : Transport T) where
  unfoldable pub deliver : Place → ℕ → Transport (Soc T)
  deliver timer off s t = on_timer bridge s (over_ahb off t)
  deliver sram off s t = on_sram bridge s (over_ahb off t)
  deliver gpio off s t = on_gpio bridge s (over_apb off t)
  deliver uart off s t = on_uart bridge s (over_apb off t)
  deliver sysctrl off s t = on_sysctrl bridge s (over_apb off t)
  deliver wdt off s t = on_wdt bridge s (over_apb off t)

  -- The whole access by the documented map.
  unfoldable pub route : Transport (Soc T)
  route s t = elim (place_of t.address) [
    | none ↦ (s, record t { response = address_error })
    | some (p, off) ↦ let (s', u) = deliver p off s t in (s', record u { address = t.address })
  ]
