-- ===== src/Bridges/RemoteMmio/Access.antt =====
-- An access of the guest, from the processor to the server and back.
use systemc_model.Base.{◌==◌, if◌then◌else◌, length, take, drop, length-append, ℕ, zero, suc}
use systemc_model.Base.{◌-◌, ◌%◌, ◌^◌, ◌≤◌, ◌<◌, ◌≡◌, refl, sym, ap, ◌∙◌, ◌≢◌, ◌⊎◌, Bool, true}
use systemc_model.Base.{false, not, ◌&&◌, Option, none, some, List, [], ◌∷◌, ◌++◌, arith}
use systemc_model.Base.Bits.{u32, bit_and_low_mask}
use systemc_model.Tlm.{word_bytes}
use systemc_model.Protocol.{CosimResponse, request_bytes, response_bytes, message_size, words_bytes}
use systemc_model.Protocol.{cosim_magic, cosim_version, cosim_ok, op_read, op_write}
use systemc_model.Protocol.Laws.{AreWords, response_of-response_bytes}
use systemc_model.Transactor.Socket.{SendCall, RecvCall, took, got, again, broken}
use systemc_model.Transactor.Socket.Laws.{capacity, delivered, split_at, length-drop, length-zero}
use systemc_model.Bridges.RemoteMmio.{
  RemoteMmioState, Peer, Outcome, request, unsupported, read_value, write_value,
  remote_mmio_connect, send_request, recv_response, after_recv, after_send, update_irqs,
  accept_response, remote_mmio_transact, remote_mmio_read, remote_mmio_write,
}
use mathlib.Core.List.{append_assoc, append-nil}

-- Every call moves at least one byte.
abbrev pub sends_always : List SendCall → Bool
sends_always [] = true
sends_always (took zero ∷ calls) = false
sends_always (took (suc n) ∷ calls) = sends_always calls
sends_always (again ∷ calls) = false
sends_always (broken ∷ calls) = false

abbrev pub receives_always : List RecvCall → Bool
receives_always [] = true
receives_always (got [] ∷ calls) = false
receives_always (got (b ∷ bs) ∷ calls) = receives_always calls
receives_always (again ∷ calls) = false
receives_always (broken ∷ calls) = false

send_request-completes :
    (calls : List SendCall) (left wire : List ℕ)
    → sends_always calls ≡ true
    → length left ≤ capacity calls
    → send_request calls left wire ≡ some (true, wire ++ left)
unfolding send_request
send_request-completes calls [] wire always h = rw (append-nil wire) refl
send_request-completes [] (x ∷ left) wire always h = absurd (omega arith)
send_request-completes (again ∷ calls) (x ∷ left) wire always h = absurd (ground arith)
send_request-completes (broken ∷ calls) (x ∷ left) wire always h = absurd (ground arith)
send_request-completes (took zero ∷ calls) (x ∷ left) wire always h = absurd (ground arith)
send_request-completes (took (suc n) ∷ calls) (x ∷ left) wire always h =
    send_request-completes calls (drop n left) (wire ++ (x ∷ take n left)) always
      (omega (arith, length-drop n left))
    ∙ ap (λ w. some (true, w)) (split_at n x left wire)

recv_response-completes :
    (calls : List RecvCall) (left : ℕ) (buf : List ℕ)
    → receives_always calls ≡ true
    → length (delivered calls) ≡ left
    → recv_response calls left buf ≡ some (true, buf ++ delivered calls)
unfolding recv_response
recv_response-completes calls zero buf always h =
    ap (λ w. some (true, w)) (sym (rw (length-zero (delivered calls) h) (append-nil buf)))
recv_response-completes [] (suc left) buf always h = absurd (omega arith)
recv_response-completes (again ∷ calls) (suc left) buf always h = absurd (ground arith)
recv_response-completes (broken ∷ calls) (suc left) buf always h = absurd (ground arith)
recv_response-completes (got [] ∷ calls) (suc left) buf always h = absurd (ground arith)
recv_response-completes (got (b ∷ bs) ∷ calls) (suc left) buf always h =
    let more : length (delivered calls) ≡ suc left - length (b ∷ bs) =
      omega (arith, length-append bs (delivered calls)) in
    recv_response-completes calls (suc left - length (b ∷ bs)) (buf ++ (b ∷ bs)) always more
    ∙ ap (λ w. some (true, w)) (append_assoc buf (b ∷ bs) (delivered calls))

-- The host lets the request out and the response `resp` in, in whatever pieces.
pub record Delivers (peer : Peer) (resp : CosimResponse) : Type 0 where
  pub sends : sends_always peer.sends ≡ true
  pub room : 20 ≤ capacity peer.sends
  pub receives : receives_always peer.recvs ≡ true
  pub comes : delivered peer.recvs ≡ response_bytes resp
  pub words : AreWords resp.magic resp.version resp.status resp.data' resp.irq_bits

connected :
    (peer : Peer) (s : RemoteMmioState)
    → s.connected ≡ true
    → remote_mmio_connect peer s ≡ (true, s)
unfolding remote_mmio_connect
connected peer s live = ground arith

transact-completes :
    (peer : Peer) (op addr wdata : ℕ) (s : RemoteMmioState) (resp : CosimResponse)
    → s.connected ≡ true
    → Delivers peer resp
    → remote_mmio_transact peer op addr wdata s
      ≡ some (accept_response resp s (request_bytes (request op addr wdata)))
unfolding remote_mmio_transact after_send after_recv
transact-completes peer op addr wdata s resp live d =
    let bytes = request_bytes (request op addr wdata) in
    let sent =
      send_request-completes peer.sends bytes [] d.sends
        (rw (length-request op addr wdata) d.room) in
    let (parsed, long) = response_of-response_bytes resp d.words in
    let came = recv_response-completes peer.recvs message_size [] d.receives (rw d.comes long) in
    let arrived : recv_response peer.recvs message_size [] ≡ some (true, response_bytes resp) =
      rw (sym d.comes) came in
    let go : Bool × RemoteMmioState → Option Outcome = λ r.
      if not r.0
      then some (none, r.1, [])
      else after_send peer r.1 (send_request peer.sends bytes []) in
    ap go (connected peer s live) ∙ rw (sent, after_send, arrived, after_recv, parsed) refl
  where
    length-request : (op addr wdata : ℕ) → length (request_bytes (request op addr wdata)) ≡ 20
    length-request op addr wdata = unfold request_bytes words_bytes word_bytes in refl

-- The response is one that the device takes.
abbrev pub good : CosimResponse → Bool
good r = (r.magic == cosim_magic) && (r.version == cosim_version) && (r.status == cosim_ok)

accept_response-good :
    (resp : CosimResponse) (s : RemoteMmioState) (wire : List ℕ)
    → accept_response resp s wire ≡ (
        if good resp then (some resp.data', update_irqs resp.irq_bits s, wire) else (none, s, wire))
unfolding accept_response
accept_response-good resp s wire = ground arith

if-map :
    {A B : Type 0} (f : A → B) (b : Bool) (x y : A)
    → some (f (if b then x else y)) ≡ some (if b then f x else f y)
if-map f true x y = refl
if-map f false x y = refl

written :
    (b : Bool) (v : ℕ) (u s : RemoteMmioState) (wire : List ℕ)
    → some (write_value (if b then (some v, u, wire) else (none, s, wire)))
      ≡ some (if b then u else s, wire)
written true v u s wire = refl
written false v u s wire = refl

supported : (offset : ℕ) → offset % 4 ≡ 0 → unsupported offset 4 ≡ false
supported offset h = ground (arith, bit_and_low_mask 2 offset)

-- A guest's read of an aligned word puts one read request for its offset on the wire. When the
-- response `resp` comes in, in whatever pieces, the guest gets its word and the lines are updated;
-- a response that is not good gives the guest 0, and leaves the lines.
pub read_completes :
    (peer : Peer) (offset : ℕ) (s : RemoteMmioState) (resp : CosimResponse)
    → s.connected ≡ true
    → offset < 2 ^ 32
    → offset % 4 ≡ 0
    → Delivers peer resp
    → let wire = request_bytes (request op_read offset 0) in
      remote_mmio_read peer offset 4 s
      ≡ some (if good resp then (resp.data', update_irqs resp.irq_bits s, wire) else (0, s, wire))
unfolding remote_mmio_read
read_completes peer offset s resp live small aligned d =
    let run = transact-completes peer op_read offset 0 s resp live d in
    let wide : u32 offset ≡ offset = omega arith in
    rw (supported offset aligned, wide, run, accept_response-good)
      (if-map read_value (good resp) _ _)

pub write_completes :
    (peer : Peer) (offset value : ℕ) (s : RemoteMmioState) (resp : CosimResponse)
    → s.connected ≡ true
    → offset < 2 ^ 32
    → offset % 4 ≡ 0
    → value < 2 ^ 32
    → Delivers peer resp
    → remote_mmio_write peer offset value 4 s
      ≡ some (
        if good resp then update_irqs resp.irq_bits s else s,
        request_bytes (request op_write offset value),
      )
unfolding remote_mmio_write
write_completes peer offset value s resp live small aligned fits d =
    let run = transact-completes peer op_write offset value s resp live d in
    let wide : u32 offset ≡ offset = omega arith in
    let word : u32 value ≡ value = omega arith in
    rw (supported offset aligned, wide, word, run, accept_response-good)
      (written (good resp) resp.data' _ _ _)

-- An access of another size than a word, or of one that is not aligned, does not reach the host: a
-- read gives 0, a write nothing, the device stays as it is and nothing is sent.
pub unsupported_lem :
    (peer : Peer) (offset value size : ℕ) (s : RemoteMmioState)
    → (size ≢ 4) ⊎ (offset % 4 ≢ 0)
    → (remote_mmio_read peer offset size s ≡ some (0, s, []))
      × (remote_mmio_write peer offset value size s ≡ some (s, []))
unfolding remote_mmio_read remote_mmio_write
unsupported_lem peer offset value size s h = ground (arith, bit_and_low_mask 2 offset)
