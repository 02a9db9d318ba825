-- ===== src/Soc/Map/Routing.antt =====
-- The wiring of Soc/cortexm_pl.h follows the documented map.
use systemc_model.Base.{ltb, if◌then◌else◌, ℕ, ◌+◌, ◌-◌, ◌≤◌, ◌<◌, ◌≡◌, sym, ◌∙◌, ◌⊎◌, inl, inr}
use systemc_model.Base.{none, some, arith}
use systemc_model.Tlm.{Txn, Transport, address_error}
use systemc_model.Interconnect.Decoder
use systemc_model.Interconnect.Decoder.{decode, find, covers, port, sink}
use systemc_model.Interconnect.Decoder.Laws.{down, transport_hit, transport_miss}
use systemc_model.Bridges.AhbApb
use systemc_model.Soc.{
  Soc, ahb, apb, on_timer, on_sram, on_gpio, on_uart, on_sysctrl, on_wdt, apb_transport,
  b_transport,
}
use native.Mathlib.Decide.{dec_lt}
use systemc_model.Soc.Map.{
  Place, timer, sram, gpio, uart, sysctrl, wdt, between, place_of, apb_extension, deliver, route,
}

decode-ahb :
    (a : ℕ)
    → decode ahb a ≡ (
        if ltb a 0x1000
        then some 0
        else if between 0x8000 0x9000 a
        then some 1
        else if between 0x10000 0x14000 a
        then some 2
        else none)
unfolding decode find covers
decode-ahb a = ground arith

decode-apb :
    (a : ℕ)
    → decode apb a ≡ (
        if ltb a 0x1000
        then some 0
        else if ltb a 0x2000
        then some 1
        else if ltb a 0x3000
        then some 2
        else if ltb a 0x4000
        then some 3
        else none)
unfolding decode find covers
decode-apb a = ground arith

module _ {T : Type 0} (bridge : Transport T) where
  abbrev bus : Transport (Soc T)
  bus = AhbApb.b_transport (apb_transport bridge) 20

  -- On the AHB the first decoder decides.
  ahb_hit :
      (s : Soc T) (t : Txn) (i : ℕ)
      → decode ahb t.address ≡ some i
      → let (s', u) = port (on_timer bridge) (on_sram bridge) bus sink i s (down ahb t i) in
        b_transport bridge s t ≡ (s', record u { address = t.address })
  unfolding b_transport
  ahb_hit s t i h = transport_hit (on_timer bridge) (on_sram bridge) bus sink ahb s t i h

  -- Behind the bridge the second decoder decides, on the offset in the APB window.
  apb_hit :
      (s : Soc T) (t : Txn) (i : ℕ)
      → decode ahb t.address ≡ some 2
      → decode apb (t.address - 0x10000) ≡ some i
      → let d = record t {
        address = t.address - 0x10000 - Decoder.base_of apb i;
        extension = some (apb_extension t);
        delay = t.delay + 10 + (20 + 20) + 0;
      } in
        let (s', u) =
          port (on_gpio bridge) (on_uart bridge) (on_sysctrl bridge) (on_wdt bridge) i s d in
        b_transport bridge s t ≡ (s', record u { address = t.address })
  unfolding AhbApb.b_transport apb_transport port
  apb_hit s t i h k = rw (ahb_hit s t 2 h) (
      rw (
        transport_hit (on_gpio bridge) (on_uart bridge) (on_sysctrl bridge) (on_wdt bridge) apb s
          (record t {
            address = t.address - 0x10000;
            extension = some (apb_extension t);
            delay = t.delay + 10 + (20 + 20);
          })
          i k))

-- Where an address lands, by the two decoders and by the map.
data Landing (a : ℕ) : Type 0 where
  nowhere : decode ahb a ≡ none → place_of a ≡ none → Landing a
  in_timer : decode ahb a ≡ some 0 → place_of a ≡ some (timer, a - 0) → Landing a
  in_sram : decode ahb a ≡ some 1 → place_of a ≡ some (sram, a - 0x8000) → Landing a
  in_gpio :
      decode ahb a ≡ some 2
      → decode apb (a - 0x10000) ≡ some 0
      → place_of a ≡ some (gpio, a - 0x10000 - 0)
      → Landing a
  in_uart :
      decode ahb a ≡ some 2
      → decode apb (a - 0x10000) ≡ some 1
      → place_of a ≡ some (uart, a - 0x10000 - 0x1000)
      → Landing a
  in_sysctrl :
      decode ahb a ≡ some 2
      → decode apb (a - 0x10000) ≡ some 2
      → place_of a ≡ some (sysctrl, a - 0x10000 - 0x2000)
      → Landing a
  in_wdt :
      decode ahb a ≡ some 2
      → decode apb (a - 0x10000) ≡ some 3
      → place_of a ≡ some (wdt, a - 0x10000 - 0x3000)
      → Landing a

apb-Landing : (a : ℕ) → 0x10000 ≤ a → a < 0x14000 → Landing a
unfolding place_of
apb-Landing a lo hi =
    let bus : decode ahb a ≡ some 2 = ground (arith, decode-ahb a) in
    let slave = decode-apb (a - 0x10000) in
    elim (dec_lt a 0x11000) [
      | yes h ↦ in_gpio bus (ground arith) (ground arith)
      | no h ↦ elim (dec_lt a 0x12000) [
        | yes h2 ↦ in_uart bus (ground arith) (ground arith)
        | no h2 ↦ elim (dec_lt a 0x13000) [
          | yes h3 ↦ in_sysctrl bus (ground arith) (ground arith)
          | no h3 ↦ in_wdt bus (ground arith) (ground arith)
        ]
      ]
    ]

ahb_nowhere :
    (a : ℕ)
    → ((0x1000 ≤ a) × (a < 0x8000)) ⊎ ((0x9000 ≤ a) × (a < 0x10000)) ⊎ (0x14000 ≤ a)
    → Landing a
unfolding place_of
ahb_nowhere a h = nowhere (ground (arith, decode-ahb a)) (ground arith)

landing : (a : ℕ) → Landing a
unfolding place_of
landing a =
    let bus = decode-ahb a in
    elim (dec_lt a 0x1000) [
      | yes h ↦ in_timer (ground arith) (ground arith)
      | no h ↦ elim (dec_lt a 0x10000) [
        | yes h2 ↦ elim (dec_lt a 0x8000) [
          | yes h3 ↦ ahb_nowhere a (inl (omega arith))
          | no h3 ↦ elim (dec_lt a 0x9000) [
            | yes h4 ↦ in_sram (ground arith) (ground arith)
            | no h4 ↦ ahb_nowhere a (inr (inl (omega arith)))
          ]
        ]
        | no h2 ↦ elim (dec_lt a 0x14000) [
          | yes h3 ↦ apb-Landing a (omega arith) h3
          | no h3 ↦ ahb_nowhere a (inr (inr (omega arith)))
        ]
      ]
    ]

module _ {T : Type 0} (bridge : Transport T) where
  route-none :
      (s : Soc T) (t : Txn)
      → place_of t.address ≡ none
      → route bridge s t ≡ (s, record t { response = address_error })
  unfolding route
  route-none s t h = rw (h, route)

  pub route-some :
      (s : Soc T) (t : Txn) (p : Place) (off : ℕ)
      → place_of t.address ≡ some (p, off)
      → let (s', u) = deliver bridge p off s t in
        route bridge s t ≡ (s', record u { address = t.address })
  unfolding route
  route-some s t p off h = rw (h, route)

  -- 10 ns for the AHB, and two cycles of 20 ns for the bridge.
  latency : (t : Txn) → t.delay + 10 + (20 + 20) + 0 ≡ t.delay + 50
  latency t = omega arith

  lands : (s : Soc T) (t : Txn) → Landing t.address → b_transport bridge s t ≡ route bridge s t
  unfolding b_transport port deliver
  lands s t (nowhere h p) =
      transport_miss (on_timer bridge) (on_sram bridge) (bus bridge) sink ahb s t h
      ∙ sym (route-none s t p)
  lands s t (in_timer h p) = rw (ahb_hit bridge s t 0 h, route-some s t timer _ p)
  lands s t (in_sram h p) = rw (ahb_hit bridge s t 1 h, route-some s t sram _ p)
  lands s t (in_gpio h k p) = rw (apb_hit bridge s t 0 h k, route-some s t gpio _ p, latency t)
  lands s t (in_uart h k p) = rw (apb_hit bridge s t 1 h k, route-some s t uart _ p, latency t)
  lands s t (in_sysctrl h k p) =
      rw (apb_hit bridge s t 2 h k, route-some s t sysctrl _ p, latency t)
  lands s t (in_wdt h k p) = rw (apb_hit bridge s t 3 h k, route-some s t wdt _ p, latency t)

  -- The wiring of the decoders and the bridge gives every transaction to the block that the
  -- documented map names, at that block's offset and after the time of the way there, and hands
  -- it back with its own address; an address between the blocks gets the address error.
  pub transport-eq-route : (s : Soc T) (t : Txn) → b_transport bridge s t ≡ route bridge s t
  transport-eq-route s t = lands s t (landing t.address)
