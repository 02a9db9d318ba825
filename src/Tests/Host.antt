-- ===== src/Tests/Host.antt =====
-- The server of transactor/ and the guest's device of bridges/ on concrete inputs.
use systemc_model.Base.{if◌then◌else◌, length, get_or-replicate, ℕ, ◌+◌, ◌^◌, ◌<◌, ◌≡◌, refl}
use systemc_model.Base.{inl, Bool, true, false, some, List, [], ◌∷◌, arith}
use systemc_model.Tlm.{memcpy, word_bytes, word_of}
use systemc_model.Protocol.{
  CosimRequest, CosimResponse, request_bytes, request_of, response_of, response_bytes, words_bytes,
  cosim_magic, cosim_version, cosim_ok, cosim_error, op_tick, op_quit,
}
use systemc_model.Protocol.Laws.{AreWords, request_of-request_bytes}
use systemc_model.Transactor.Initiator.{read_payload, write_payload}
use systemc_model.Transactor.Socket.{SendCall, RecvCall, took, got, finished, recv_all}
use systemc_model.Transactor.Socket.Laws.{recv_all-completes}
use systemc_model.Transactor.Server.{
  Server, Host, handle, dispatch, tlm_read, tlm_write, is_response_ok,
}
use systemc_model.Transactor.Server.Laws.{asked_for, handle_served}
use systemc_model.Transactor.Server.Thread.{
  server_thread, Serves, Asks, quiet, asks, alone, leaves, no_more, wire_of,
}
use systemc_model.Transactor.Server.Thread.Session.{thread_serves}
use systemc_model.Bridges.RemoteMmio.{
  RemoteMmioState, Peer, remote_mmio_instance_init, remote_mmio_read, remote_mmio_write,
}
use systemc_model.Bridges.RemoteMmio.Access.{Delivers, unsupported_lem}
use systemc_model.Bridges.RemoteMmio.Lines.{IsShown}
use systemc_model.Bridges.RemoteMmio.Reach as MmioReach
use systemc_model.Interconnect.Decoder as Decoder
use systemc_model.Peripherals.Sram as Sram
use systemc_model.Bridges.PinBridge as PinBridge
use systemc_model.Soc as Soc
use systemc_model.Soc.HostMemory.{read_request, write_request, host_write_then_read}
use systemc_model.Soc.Octets.{HoldsOctets}
use systemc_model.Soc.Octets.Response.{responses_typed}
use systemc_model.Guest.{guest_store_then_load}
use systemc_model.Tests.Platform.{run, data_out, bridge, built, built-IsSound}

abbrev Platform : Type 0
Platform = Soc.Soc (PinBridge.PinState ℕ)

-- Waiting moves the clock behind the pins on.
abbrev wait : ℕ → Platform → Platform
wait d s = record s { timer = record s.timer { model = s.timer.model + d } }

abbrev irq_bits : Platform → ℕ
irq_bits s = Soc.pack_irqs false false s.uart.irq s.gpio.irq s.wdt.irq

abbrev serve : CosimRequest → Platform → Platform × Bool × CosimResponse
serve = handle (Soc.b_transport bridge) wait irq_bits

host_write_then_read_example :
    let (s', quit, resp) = serve (write_request 0x8010 7) built in
    let after = serve (read_request 0x8010) s' in
    (resp.status ≡ cosim_ok) × (after.2.status ≡ cosim_ok) × (after.2.data' ≡ 7)
host_write_then_read_example =
    host_write_then_read bridge wait (λ d s. refl) irq_bits 0x10 0x10 7 built built-IsSound
      (omega arith) refl (omega arith) refl (omega arith)

abbrev reply : ℕ → CosimResponse
reply v = record {
  magic = cosim_magic;
  version = cosim_version;
  status = cosim_ok;
  data' = v;
  irq_bits = 0;
}

stored_reply : (serve (write_request 0x8000 7) built).2 ≡ reply 0
unfolding handle dispatch tlm_write write_payload word_bytes Soc.b_transport Decoder.b_transport
    Decoder.decode Decoder.find Decoder.covers Decoder.port Soc.on_sram Sram.b_transport
    Sram.refuses memcpy Soc.pack_irqs
stored_reply = refl

loaded_reply : (serve (read_request 0x8000) (serve (write_request 0x8000 7) built).0).2 ≡ reply 7
unfolding handle dispatch tlm_read tlm_write read_payload write_payload word_bytes word_of
    Soc.b_transport Decoder.b_transport Decoder.decode Decoder.find Decoder.covers Decoder.port
    Soc.on_sram Sram.b_transport Sram.refuses memcpy Soc.pack_irqs
loaded_reply = refl

-- The request leaves in two pieces, and the response `r` comes in one.
abbrev peer : CosimResponse → Peer
peer r = record {
  socket_made = true;
  connects = true;
  sends = took 12 ∷ took 8 ∷ [];
  recvs = got (response_bytes r) ∷ [];
}

peer-Delivers : (v : ℕ) → v < 2 ^ 32 → Delivers (peer (reply v)) (reply v)
unfolding response_bytes words_bytes word_bytes
peer-Delivers v small = record {
  sends = refl;
  room = omega arith;
  receives = refl;
  comes = refl;
  words = record {
    first = omega arith;
    second = omega arith;
    third = omega arith;
    fourth = small;
    fifth = omega arith;
  };
}

abbrev device : RemoteMmioState
device = record (remote_mmio_instance_init (47 ∷ [])) { connected = true }

guest_store_then_load_example :
    (d1 : RemoteMmioState) × (d2 : RemoteMmioState) × (remote_mmio_write
        (peer (reply 0))
        0x8000
        7
        4
        device
      ≡ some (d1, request_bytes (write_request 0x8000 7)))
    × (remote_mmio_read (peer (reply 7)) 0x8000 4 d1
        ≡ some (7, d2, request_bytes (read_request 0x8000)))
guest_store_then_load_example =
    guest_store_then_load bridge wait (λ d s. refl) irq_bits (peer (reply 0)) (peer (reply 7)) 0 0 7
      device built refl built-IsSound (omega arith) refl (omega arith) refl (omega arith)
      (rw stored_reply (peer-Delivers 0 (omega arith)))
      (rw loaded_reply (peer-Delivers 7 (omega arith)))

-- A read of half a word, as the first access.
lines_always-IsShown_example : IsShown (remote_mmio_instance_init (47 ∷ []))
lines_always-IsShown_example = MmioReach.lines_always-IsShown {path = 47 ∷ []} (
    MmioReach.later MmioReach.start (
      MmioReach.guest_read (peer (reply 9)) 0x14 2 0 []
        (unsupported_lem (peer (reply 9)) 0x14 0 2 (remote_mmio_instance_init (47 ∷ []))
          (inl (omega arith))).0))

abbrev message : List ℕ
message = 1 ∷ 2 ∷ 3 ∷ []

recv_all-completes_example :
    (s' : Platform) × (recv_all wait (got (1 ∷ 2 ∷ []) ∷ RecvCall.again ∷ got (3 ∷ []) ∷ []) 3 built
      ≡ finished true (1 ∷ 2 ∷ 3 ∷ []) s')
recv_all-completes_example =
    recv_all-completes wait (got (1 ∷ 2 ∷ []) ∷ RecvCall.again ∷ got (3 ∷ []) ∷ []) 3 built refl
      refl

abbrev tick_request : CosimRequest
tick_request = record {
  magic = cosim_magic;
  version = cosim_version;
  op = op_tick;
  addr = 0;
  data' = 25;
}

-- The time is what has passed behind the pins; the register at 0x12000 is the one of the magic number.
abbrev now : Platform → ℕ
now s = s.timer.model

handle_served_example :
    let (s', quit, resp) = serve (read_request 0x12000) built in
    let (s2, t) = Soc.b_transport bridge built (asked_for (read_request 0x12000)) in
    (now s' ≡ now s2 + t.delay)
    × (resp.status ≡ (if is_response_ok t then cosim_ok else cosim_error))
    × (resp.data' ≡ (if is_response_ok t then word_of t.bytes else 0))
    × (quit ≡ false)
    × (resp.irq_bits ≡ irq_bits s')
handle_served_example =
    handle_served (Soc.b_transport bridge) wait irq_bits now (λ d u. refl) (read_request 0x12000)
      built

tick_request-AreWords :
    AreWords tick_request.magic tick_request.version tick_request.op tick_request.addr
      tick_request.data'
tick_request-AreWords = record {
  first = omega arith;
  second = omega arith;
  third = omega arith;
  fourth = omega arith;
  fifth = omega arith;
}

request_of-request_bytes_example :
    (request_of (request_bytes tick_request) ≡ tick_request)
    × (length (request_bytes tick_request) ≡ 20)
request_of-request_bytes_example = request_of-request_bytes tick_request tick_request-AreWords

abbrev server : Server Platform
server = record { sim = built; client = true; quit = false }

abbrev quit_request : CosimRequest
quit_request = record tick_request { op = op_quit }

abbrev asking : Bool → CosimRequest → Host
asking comes req = record {
  accepts = comes;
  readable = true;
  recvs = RecvCall.again ∷ got (request_bytes req) ∷ [];
  sends = took 5 ∷ SendCall.again ∷ took 15 ∷ [];
}

-- A client comes and is quiet, asks for a tick, and leaves in the middle of a request; then nobody is
-- there; the next one asks the server to quit as it comes, after which it would ask again.
abbrev visitors : List Host
visitors =
    record (asking true tick_request) { readable = false }
    ∷ asking false tick_request
    ∷ record (asking false tick_request) { recvs = got (83 ∷ 67 ∷ []) ∷ got [] ∷ [] }
    ∷ asking false tick_request
    ∷ asking true quit_request
    ∷ asking false tick_request
    ∷ []

quit_request-AreWords :
    AreWords quit_request.magic quit_request.version quit_request.op quit_request.addr
      quit_request.data'
quit_request-AreWords = record {
  first = omega arith;
  second = omega arith;
  third = omega arith;
  fourth = omega arith;
  fifth = omega arith;
}

asking-Asks :
    (comes : Bool) (req : CosimRequest)
    → AreWords req.magic req.version req.op req.addr req.data'
    → Asks (asking comes req) req
unfolding request_bytes words_bytes word_bytes
asking-Asks comes req words = record {
  ready = refl;
  steady = refl;
  whole = refl;
  words = words;
  clear = refl;
  room = omega arith;
}

thread_serves_example :
    (s' : Platform) × (client' : Bool) × (quit : Bool) × (resps : List CosimResponse)
    × (server_thread
          (Soc.b_transport bridge)
          wait
          irq_bits
          visitors
          (record { sim = built; client = false; quit = false })
        ≡ some (record { sim = s'; client = client'; quit = quit }, wire_of resps))
    × Serves
        (Soc.b_transport bridge)
        wait
        irq_bits
        built
        (tick_request ∷ quit_request ∷ tick_request ∷ [])
        resps
        quit
        s'
thread_serves_example =
    thread_serves (Soc.b_transport bridge) wait irq_bits visitors
      (tick_request ∷ quit_request ∷ tick_request ∷ []) false built
      (quiet refl refl (
        asks refl (asking-Asks false tick_request tick_request-AreWords) (
          leaves refl refl refl (
            alone refl (
              asks refl (asking-Asks true quit_request quit_request-AreWords)
                (asks refl (asking-Asks false tick_request tick_request-AreWords) no_more))))))

irq_bits-small : (uart gpio wdt : Bool) → Soc.pack_irqs false false uart gpio wdt < 2 ^ 32
unfolding Soc.pack_irqs
irq_bits-small false false false = omega arith
irq_bits-small false false true = omega arith
irq_bits-small false true false = omega arith
irq_bits-small false true true = omega arith
irq_bits-small true false false = omega arith
irq_bits-small true false true = omega arith
irq_bits-small true true false = omega arith
irq_bits-small true true true = omega arith

built-HoldsOctets : HoldsOctets built
built-HoldsOctets i = omega (arith, get_or-replicate {A = ℕ} 4096 i 0)

responses_typed_example :
    let (s', quit, resp) = serve (read_request 0x8010) built in
    HoldsOctets s'
    × (response_of (response_bytes resp) ≡ resp)
    × (length (response_bytes resp) ≡ 20)
responses_typed_example =
    responses_typed run data_out wait irq_bits (read_request 0x8010) built (λ d u h. h)
      (λ u. irq_bits-small u.uart.irq u.gpio.irq u.wdt.irq) built-HoldsOctets
