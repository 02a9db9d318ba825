-- ===== src/Transactor/Server/Thread.antt =====
-- The whole loop of `server_thread` of transactor/cosim_server.cpp, and what a session is.
pub mod Session
use systemc_model.Base.{if◌then◌else◌, length, ℕ, zero, suc, ◌-◌, ◌≤◌, ◌≡◌, Bool, true, false}
use systemc_model.Base.{◌||◌, Option, none, some, List, [], ◌∷◌, ◌++◌}
use systemc_model.Tlm.{Transport}
use systemc_model.Protocol.{
  CosimRequest, CosimResponse, request_bytes, response_bytes, message_size,
}
use systemc_model.Protocol.Laws.{AreWords}
use systemc_model.Transactor.Socket.{RecvCall, got, broken, poll_slice}
use systemc_model.Transactor.Socket.Laws.{sends_steadily, receives_steadily, capacity, delivered}
use systemc_model.Transactor.Server.{Server, Host, handle, iteration}

-- What an iteration sends, in front of what the next ones send.
abbrev pub following :
    {S : Type 0} → List ℕ → Option (Server S × List ℕ) → Option (Server S × List ℕ)
following wire none = none
following wire (some (st, more)) = some (st, wire ++ more)

module _ {S : Type 0} (initiator : Transport S) (wait : ℕ → S → S) (irq_bits : S → ℕ) where
  -- The loop over what the host's side does in each iteration, with the bytes that it puts on the
  -- wire. It ends when the server has to quit, and in the model at the end of the list.
  unfoldable pub server_thread : List Host → Server S → Option (Server S × List ℕ)
  server_thread [] st = some (st, [])
  server_thread (host ∷ hosts) st =
      if st.quit then some (st, []) else elim (iteration initiator wait irq_bits host st) [
        | none ↦ none
        | some (st', wire) ↦ following wire (server_thread hosts st')
      ]

  -- The simulation, some slices of time later.
  abbrev pub slices : ℕ → S → S
  slices zero s = s
  slices (suc n) s = slices n (wait poll_slice s)

  abbrev pub Later : S → S → Type 0
  Later s t = (n : ℕ) × (t ≡ slices n s)

  -- An abstract server: it handles the requests one after the other, with time passing between them,
  -- up to the first that makes it quit.
  pub data Serves : S → List CosimRequest → List CosimResponse → Bool → S → Type 0 where
    idle : {s s' : S} → Later s s' → Serves s [] [] false s'
    next :
        {s t u v s' : S} {req : CosimRequest} {reqs : List CosimRequest} {resp : CosimResponse}
        {resps : List CosimResponse} {quit : Bool}
        → Later s t
        → handle initiator wait irq_bits req t ≡ (u, false, resp)
        → Later u v
        → Serves v reqs resps quit s'
        → Serves s (req ∷ reqs) (resp ∷ resps) quit s'
    stop :
        {s t u s' : S} {req : CosimRequest} {reqs : List CosimRequest} {resp : CosimResponse}
        → Later s t
        → handle initiator wait irq_bits req t ≡ (u, true, resp)
        → Later u s'
        → Serves s (req ∷ reqs) (resp ∷ []) true s'

-- What comes in while an iteration of the loop receives is one request of 32-bit fields, in whatever
-- pieces, and there is room for a response.
pub record Asks (host : Host) (req : CosimRequest) : Type 0 where
  pub ready : host.readable ≡ true
  pub steady : receives_steadily host.recvs ≡ true
  pub whole : delivered host.recvs ≡ request_bytes req
  pub words : AreWords req.magic req.version req.op req.addr req.data'
  pub clear : sends_steadily host.sends ≡ true
  pub room : 20 ≤ capacity host.sends

-- The calls of `recv` end the stream, or fail, with `left` bytes still to come.
abbrev pub breaks : List RecvCall → ℕ → Bool
breaks calls zero = false
breaks [] (suc left) = false
breaks (RecvCall.again ∷ calls) (suc left) = breaks calls (suc left)
breaks (broken ∷ calls) (suc left) = true
breaks (got [] ∷ calls) (suc left) = true
breaks (got (b ∷ bs) ∷ calls) (suc left) = breaks calls (suc left - length (b ∷ bs))

-- The requests of clients that come and go, where the first argument is whether one is connected. In
-- an iteration nobody is there, or the client that is there, or that comes, is quiet, asks, or leaves,
-- be it in the middle of a request.
pub data Visits : Bool → List Host → List CosimRequest → Type 0 where
  no_more : {client : Bool} → Visits client [] []
  alone :
      {host : Host} {hosts : List Host} {reqs : List CosimRequest}
      → host.accepts ≡ false
      → Visits false hosts reqs
      → Visits false (host ∷ hosts) reqs
  quiet :
      {client : Bool} {host : Host} {hosts : List Host} {reqs : List CosimRequest}
      → (client || host.accepts) ≡ true
      → host.readable ≡ false
      → Visits true hosts reqs
      → Visits client (host ∷ hosts) reqs
  leaves :
      {client : Bool} {host : Host} {hosts : List Host} {reqs : List CosimRequest}
      → (client || host.accepts) ≡ true
      → host.readable ≡ true
      → breaks host.recvs message_size ≡ true
      → Visits false hosts reqs
      → Visits client (host ∷ hosts) reqs
  asks :
      {client : Bool} {host : Host} {hosts : List Host} {req : CosimRequest}
      {reqs : List CosimRequest}
      → (client || host.accepts) ≡ true
      → Asks host req
      → Visits true hosts reqs
      → Visits client (host ∷ hosts) (req ∷ reqs)

-- The bytes of responses, one after the other.
unfoldable pub wire_of : List CosimResponse → List ℕ
wire_of [] = []
wire_of (resp ∷ resps) = response_bytes resp ++ wire_of resps
