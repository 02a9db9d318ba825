-- ===== src/Platforms/CortexA.antt =====
-- The timer of platforms/basic_cortexA/cosim_main.cpp as the host sees it.
use systemc_model.Base.{replicate, ℕ, ◌^◌, ◌<◌, ◌≡◌, refl, ap, ◌∙◌, inl, inr, Bool, arith}
use systemc_model.Tlm.{memcpy, word_bytes, word_of}
use systemc_model.Tlm.Laws.{word_of-word_bytes, word_of-memcpy}
use systemc_model.Protocol.{CosimRequest, CosimResponse, cosim_ok}
use systemc_model.Transactor.Initiator.{read_payload, write_payload}
use systemc_model.Transactor.Server.{handle, dispatch, tlm_read, tlm_write}
use systemc_model.Interconnect.AddressMap as AddressMap
use systemc_model.Interconnect.AddressMap.{AddressMap, misses, map_region}
use systemc_model.Bridges.PinBridge as PinBridge
use systemc_model.Bridges.PinBridge.{BusPins, PinState, bus_read, bus_write, clock_period}
use systemc_model.Bridges.PinBridge.TimerBus.{
  IsScheduled, IsHeld, held, held-turns, bus_write-held, bus_read-held,
}
use systemc_model.Peripherals.Timer.{Timer}
use systemc_model.Soc.HostMemory.{read_request, write_request}
use systemc_model.Platforms.{cortex_a_transport, cortex_a_irq_bits, interconnect}

module _ {P : Type 0} (run : ℕ → BusPins → P → P) (data_out : P → ℕ) (timer_of : P → Timer)
    (IsQuiet : P → Type 0) (kernel : IsScheduled run data_out timer_of IsQuiet) where
  -- The server over the platform; waiting lets the simulation kernel run with the pins held.
  abbrev serve : CosimRequest → PinState P → PinState P × Bool × CosimResponse
  serve req s =
      handle (cortex_a_transport run data_out) (PinBridge.wait run data_out)
        (cortex_a_irq_bits run data_out) req s

  write_served :
      (off v : ℕ) (s : PinState P)
      → IsHeld off
      → v < 2 ^ 32
      → ((serve (write_request off v) s).0
          ≡ PinBridge.wait run data_out clock_period (bus_write run data_out off v s))
        × ((serve (write_request off v) s).2.status ≡ cosim_ok)
  unfolding handle dispatch tlm_write cortex_a_transport interconnect map_region
      AddressMap.b_transport PinBridge.b_transport write_payload
  write_served off v s (inl e) small = rw (e, word_of-word_bytes v small) (refl, refl)
  write_served off v s (inr e) small = rw (e, word_of-word_bytes v small) (refl, refl)

  read_served :
      (off v : ℕ) (s : PinState P)
      → IsHeld off
      → v < 2 ^ 32
      → (bus_read run data_out off s).0 ≡ v
      → ((serve (read_request off) s).2.data' ≡ v)
        × ((serve (read_request off) s).2.status ≡ cosim_ok)
  unfolding handle dispatch tlm_read cortex_a_transport interconnect map_region
      AddressMap.b_transport PinBridge.b_transport read_payload
  read_served off v s (inl e) small got = (
    rw e (
        ap (λ w. word_of (memcpy 4 (replicate 4 0) 0 (word_bytes w) 0)) (rw e at got)
        ∙ word_of-memcpy (replicate 4 0) v (omega arith) small),
    rw e refl,
  )
  read_served off v s (inr e) small got = (
    rw e (
        ap (λ w. word_of (memcpy 4 (replicate 4 0) 0 (word_bytes w) 0)) (rw e at got)
        ∙ word_of-memcpy (replicate 4 0) v (omega arith) small),
    rw e refl,
  )

  -- Over a kernel that schedules the timer as the pin bridge relies on, and from low strobes, the
  -- server of the Cortex-A platform serves a write request for the control or the compare register
  -- of the timer, and then a read request for the same register with the word written, whatever clock
  -- edges fall into the time of the two requests.
  pub cortex_a_write_then_read :
      (off v : ℕ) (s : PinState P)
      → IsHeld off
      → v < 2 ^ 32
      → IsQuiet s.model
      → let (s', quit, resp) = serve (write_request off v) s in
        let (s'', quit', back) = serve (read_request off) s' in
        (resp.status ≡ cosim_ok) × (back.status ≡ cosim_ok) × (back.data' ≡ v)
  unfolding bus_write
  cortex_a_write_then_read off v s h small quiet =
      let (moved, good) = write_served off v s h small in
      let u = bus_write run data_out off v s in
      let t = PinBridge.wait run data_out clock_period u in
      let (still, stored) = bus_write-held run data_out timer_of IsQuiet kernel off v s h quiet in
      let (quiet', (k, idle, _)) = kernel.period u.pins u.model refl refl in
      let kept = ap (held off) idle ∙ held-turns off k (timer_of u.model) ∙ stored in
      let seen = bus_read-held run data_out timer_of IsQuiet kernel off t h quiet' ∙ kept in
      let (back, fine) = read_served off v t h small seen in (good, rw moved fine, rw moved back)
