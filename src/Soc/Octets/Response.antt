-- ===== src/Soc/Octets/Response.antt =====
-- The responses of transactor/cosim_server.cpp on the platform of Soc/cortexm_pl.h.
use systemc_model.Base.{◌==◌, if◌then◌else◌, length, ℕ, zero, suc, ◌^◌, ◌<◌, ◌≡◌, Bool, true}
use systemc_model.Base.{false, not, ◌||◌, none, some, arith}
use systemc_model.Tlm.{Txn, IsBytes, Transport, word_of}
use systemc_model.Tlm.Laws.{word_of-lt}
use systemc_model.Protocol.{
  CosimRequest, response_bytes, response_of, message_size, cosim_magic, cosim_version, cosim_error,
  op_read, op_write, op_tick, op_quit,
}
use systemc_model.Protocol.Laws.{AreWords, response_of-response_bytes}
use systemc_model.Transactor.Initiator.{read_payload, write_payload, write_payload-IsBytes}
use systemc_model.Transactor.Server.{
  handle, dispatch, tlm_read, tlm_write, tlm_tick, waited, is_response_ok, read_reply, write_reply,
}
use systemc_model.Bridges.PinBridge as PinBridge
use systemc_model.Bridges.PinBridge.{BusPins, PinState}
use systemc_model.Soc as Soc
use systemc_model.Soc.Octets.{IsTyped, HoldsOctets, platform-IsTyped}

read_payload-IsBytes : (addr : ℕ) → IsBytes (read_payload addr).bytes
unfolding read_payload
read_payload-IsBytes addr zero = omega arith
read_payload-IsBytes addr (suc zero) = omega arith
read_payload-IsBytes addr (suc (suc zero)) = omega arith
read_payload-IsBytes addr (suc (suc (suc zero))) = omega arith
read_payload-IsBytes addr (suc (suc (suc (suc i)))) = omega arith

module _ {S : Type 0} (initiator : Transport S) (wait : ℕ → S → S) (irq_bits : S → ℕ)
    (I : S → Type 0) (typed : IsTyped I initiator)
    (waits : (d : ℕ) (s : S) → I s → I (wait d s)) where
  tlm_tick-typed : (n : ℕ) (s : S) → I s → I (tlm_tick initiator wait irq_bits n s)
  unfolding tlm_tick
  tlm_tick-typed zero s k = k
  tlm_tick-typed (suc n) s k = tlm_tick-typed n (wait 10 s) (waits 10 s k)

  -- A simulation in `I`, and a status and a word of 32 bits.
  abbrev Fits : S × Bool × ℕ × ℕ → Type 0
  Fits (s, quit, status, word) = I s × (status < 2 ^ 32) × (word < 2 ^ 32)

  if-Fits : (b : Bool) (x y : S × Bool × ℕ × ℕ) → Fits x → Fits y → Fits (if b then x else y)
  if-Fits true x y h k = h
  if-Fits false x y h k = k

  waited-typed : (s : S) (t : Txn) → I s → I (waited initiator wait irq_bits (s, t))
  waited-typed s t k = elim (t.delay == 0) as (λ b. I (if b then s else wait t.delay s)) [
    | true ↦ k
    | false ↦ waits t.delay s k
  ]

  read_reply-Fits :
      (s : S) (b : Bool) (w : ℕ)
      → I s
      → w < 2 ^ 32
      → Fits (read_reply initiator wait irq_bits (s, if b then some w else none))
  read_reply-Fits s true w k h = (k, omega arith, h)
  read_reply-Fits s false w k h = (k, omega arith, omega arith)

  write_reply-Fits : (s : S) (b : Bool) → I s → Fits (write_reply initiator wait irq_bits (s, b))
  write_reply-Fits s true k = (k, omega arith, omega arith)
  write_reply-Fits s false k = (k, omega arith, omega arith)

  dispatch-Fits : (req : CosimRequest) (s : S) → I s → Fits (dispatch initiator wait irq_bits req s)
  unfolding dispatch tlm_read tlm_write
  dispatch-Fits req s k =
      let (kr, bytes) = typed s (read_payload req.addr) k (read_payload-IsBytes req.addr) in
      let (kw, _) =
        typed s (write_payload req.addr req.data') k (write_payload-IsBytes req.addr req.data') in
      let r = initiator s (read_payload req.addr) in
      let w = initiator s (write_payload req.addr req.data') in
      if-Fits (req.op == op_read) _ _
        (read_reply-Fits _ (is_response_ok r.1) (word_of r.1.bytes) (waited-typed r.0 r.1 kr)
          (word_of-lt r.1.bytes bytes))
        (if-Fits (req.op == op_write) _ _
          (write_reply-Fits _ (is_response_ok w.1) (waited-typed w.0 w.1 kw))
          (if-Fits (req.op == op_tick) _ _ (tlm_tick-typed _ s k, omega arith, omega arith)
            (if-Fits (req.op == op_quit) _ _ (k, omega arith, omega arith)
              (k, omega arith, omega arith))))

  -- A response over a target of bytes, with its simulation.
  handle-AreWords :
      (req : CosimRequest) (s : S)
      → ((u : S) → irq_bits u < 2 ^ 32)
      → I s
      → let (s', quit, resp) = handle initiator wait irq_bits req s in
        I s' × AreWords resp.magic resp.version resp.status resp.data' resp.irq_bits
  unfolding handle
  handle-AreWords req s lines k =
      let (k', status, word) =
        if-Fits (not (req.magic == cosim_magic) || not (req.version == cosim_version))
          (s, false, cosim_error, 0) (dispatch initiator wait irq_bits req s)
          (k, omega arith, omega arith) (dispatch-Fits req s k) in
      (
        k',
        record {
          first = omega arith;
          second = omega arith;
          third = status;
          fourth = word;
          fifth = lines _;
        },
      )

module _ {P : Type 0} (run : ℕ → BusPins → P → P) (data_out : P → ℕ) where
  abbrev Platform : Type 0
  Platform = Soc.Soc (PinState P)

  -- On the Cortex-M platform, whatever model stands on the pins, if the memory holds bytes, waiting
  -- leaves it so, and the interrupt port shows 32 bits: the memory goes on to hold bytes, and each
  -- response of the server, whatever the request, is a message of five 32-bit fields, which takes
  -- twenty bytes and from which the guest reads exactly the response that was sent.
  pub responses_typed :
      (wait : ℕ → Platform → Platform) (irq_bits : Platform → ℕ) (req : CosimRequest) (s : Platform)
      → ((d : ℕ) (u : Platform) → HoldsOctets u → HoldsOctets (wait d u))
      → ((u : Platform) → irq_bits u < 2 ^ 32)
      → HoldsOctets s
      → let (s', quit, resp) =
          handle (Soc.b_transport (PinBridge.b_transport run data_out)) wait irq_bits req s in
        HoldsOctets s'
        × (response_of (response_bytes resp) ≡ resp)
        × (length (response_bytes resp) ≡ message_size)
  responses_typed wait irq_bits req s waits lines k =
      let target = Soc.b_transport (PinBridge.b_transport run data_out) in
      let (k', words) =
        handle-AreWords target wait irq_bits HoldsOctets (platform-IsTyped run data_out) waits req s
          lines k in
      let (same, size) = response_of-response_bytes (handle target wait irq_bits req s).2 words in
      (k', same, size)
