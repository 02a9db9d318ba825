-- ===== src/Transactor/Server.antt =====
-- The requests that `CosimServer` of transactor/cosim_server.cpp serves.
pub mod Laws
pub mod Loop
pub mod Thread
use systemc_model.Base.{◌==◌, if◌then◌else◌, ℕ, zero, suc, Bool, true, false, not, ◌&&◌, ◌||◌}
use systemc_model.Base.{Option, none, some, List, []}
use systemc_model.Tlm.{Response, Txn, Transport, word_of}
use systemc_model.Protocol.{CosimRequest, CosimResponse, request_of, response_bytes, message_size}
use systemc_model.Protocol.{
  cosim_magic, cosim_version, cosim_ok, cosim_error, op_read, op_write, op_tick, op_quit,
}
use systemc_model.Transactor.Initiator.{read_payload, write_payload}
use systemc_model.Transactor.Socket.{
  SendCall, RecvCall, Transfer, finished, pending, poll_slice, send_all, recv_all,
}

-- `is_response_ok` of the library.
abbrev pub is_response_ok : Txn → Bool
is_response_ok t = elim t.response [ Response.ok ↦ true | _ ↦ false ]

-- `client` is whether `client_fd_` is open.
pub record Server (S : Type 0) : Type 0 where
  pub sim : S
  pub client : Bool
  pub quit : Bool

-- What the host's side does in one iteration: whether `accept` finds a client, whether `poll`
-- finds the socket readable, and the calls on the client's socket.
pub record Host : Type 0 where
  pub accepts : Bool
  pub readable : Bool
  pub recvs : List RecvCall
  pub sends : List SendCall

-- The simulation behind the server: the target that its initiator is bound to, the passing of
-- simulated time in nanoseconds, and the interrupt port.
module _ {S : Type 0} (initiator : Transport S) (wait : ℕ → S → S) (irq_bits : S → ℕ) where
  -- The annotated delay of a transaction is waited for.
  abbrev pub waited : S × Txn → S
  waited (s, t) = if t.delay == 0 then s else wait t.delay s

  -- `none` is the `false` of the code.
  unfoldable pub tlm_read : ℕ → S → S × Option ℕ
  tlm_read addr s =
      let (s', t) = initiator s (read_payload addr) in
      (waited (s', t), if is_response_ok t then some (word_of t.bytes) else none)

  unfoldable pub tlm_write : ℕ → ℕ → S → S × Bool
  tlm_write addr v s =
      let (s', t) = initiator s (write_payload addr v) in (waited (s', t), is_response_ok t)

  unfoldable pub tlm_tick : ℕ → S → S
  tlm_tick zero s = s
  tlm_tick (suc count) s = tlm_tick count (wait 10 s)

  abbrev pub read_reply : S × Option ℕ → S × Bool × ℕ × ℕ
  read_reply (s, some v) = (s, false, cosim_ok, v)
  read_reply (s, none) = (s, false, cosim_error, 0)

  abbrev pub write_reply : S × Bool → S × Bool × ℕ × ℕ
  write_reply (s, good) = (s, false, if good then cosim_ok else cosim_error, 0)

  -- The outcome of a request: the simulation, whether the server has to quit, the status, and the
  -- data word.
  unfoldable pub dispatch : CosimRequest → S → S × Bool × ℕ × ℕ
  dispatch req s =
      if req.op == op_read
      then read_reply (tlm_read req.addr s)
      else if req.op == op_write
      then write_reply (tlm_write req.addr req.data' s)
      else if req.op == op_tick
      then (tlm_tick (if req.data' == 0 then 1 else req.data') s, false, cosim_ok, 0)
      else if req.op == op_quit
      then (s, true, cosim_ok, 0)
      else (s, false, cosim_error, 0)

  -- From the request received to the response to send.
  unfoldable pub handle : CosimRequest → S → S × Bool × CosimResponse
  handle req s =
      let refused = not (req.magic == cosim_magic) || not (req.version == cosim_version) in
      let (s', quit, status, word) =
        if refused then (s, false, cosim_error, 0) else dispatch req s in
      (
        s',
        quit,
        record {
          magic = cosim_magic;
          version = cosim_version;
          status = status;
          data' = word;
          irq_bits = irq_bits s';
        },
      )

  -- One iteration of the loop of `server_thread`, with the bytes that it puts on the wire; `none`
  -- when the calls listed do not finish a transfer.
  unfoldable pub iteration : Host → Server S → Option (Server S × List ℕ)
  iteration host st =
      if not st.client && not host.accepts
      then some (record st { sim = if host.readable then st.sim else wait poll_slice st.sim }, [])
      else if not host.readable
      then some (record st { sim = wait poll_slice st.sim; client = true }, [])
      else receive host st (recv_all wait host.recvs message_size st.sim)
    where
      answer : Bool → Transfer S → Option (Server S × List ℕ)
      answer quit (finished good wire s) =
          some (record { sim = s; client = good; quit = quit }, wire)
      answer quit (pending wire s) = none

      receive : Host → Server S → Transfer S → Option (Server S × List ℕ)
      receive host st (finished false buf s) = some (record st { sim = s; client = false }, [])
      receive host st (finished true buf s) =
          let (s', quit, resp) = handle (request_of buf) s in
          answer (st.quit || quit) (send_all wait host.sends (response_bytes resp) s')
      receive host st (pending buf s) = none
