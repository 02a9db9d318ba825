-- ===== src/Transactor/Server/Laws.antt =====
-- What the server answers to a request.
use systemc_model.Base.{◌==◌, if◌then◌else◌, Bool-cases, ℕ, zero, suc, ◌+◌, ◌*◌, ◌≡◌, refl, ap}
use systemc_model.Base.{◌≢◌, ◌⊎◌, inl, inr, Bool, false, ◌&&◌, ◌||◌, Option, none, some, []}
use systemc_model.Base.{◌∷◌, arith}
use systemc_model.Tlm.{Command, Txn, Transport, word_bytes, word_of, ok, incomplete}
use systemc_model.Protocol.{CosimRequest}
use systemc_model.Protocol.{
  cosim_magic, cosim_version, cosim_ok, cosim_error, op_read, op_write, op_tick, op_quit,
}
use systemc_model.Transactor.Initiator.{read_payload, write_payload}
use systemc_model.Transactor.Server.{
  is_response_ok, waited, read_reply, tlm_read, tlm_write, tlm_tick, dispatch, handle,
}

-- A request with the server's magic number and version.
pub record IsCurrent (req : CosimRequest) : Type 0 where
  pub magic : req.magic ≡ cosim_magic
  pub version : req.version ≡ cosim_version

-- The bus transaction that a read or a write asks for.
abbrev pub asked_for : CosimRequest → Txn
asked_for req = record {
  command = if req.op == op_read then Command.read else Command.write;
  address = req.addr;
  bytes = if req.op == op_read then 0 ∷ 0 ∷ 0 ∷ 0 ∷ [] else word_bytes req.data';
  data_length = 4;
  streaming_width = 4;
  response = incomplete;
  extension = none;
  delay = 0;
}

abbrev pub is_current : CosimRequest → Bool
is_current req = req.magic == cosim_magic && req.version == cosim_version

abbrev pub is_access : CosimRequest → Bool
is_access req = req.op == op_read || req.op == op_write

module _ {S : Type 0} (initiator : Transport S) (wait : ℕ → S → S) (irq_bits : S → ℕ) where
  read_reply-cases :
      (r : S × Option ℕ)
      → let (s', quit, status, word) = read_reply initiator wait irq_bits r in
        (quit ≡ false) × ((status ≡ cosim_ok) ⊎ (status ≡ cosim_error))
  read_reply-cases (s, some v) = (refl, inl refl)
  read_reply-cases (s, none) = (refl, inr refl)

  dispatch-status :
      (req : CosimRequest) (s : S)
      → let (s', quit, status, word) = dispatch initiator wait irq_bits req s in
        (status ≡ cosim_ok) ⊎ (status ≡ cosim_error)
  unfolding dispatch
  dispatch-status req s =
      ground (arith, read_reply-cases (tlm_read initiator wait irq_bits req.addr s))

  dispatch-quit :
      (req : CosimRequest) (s : S)
      → (dispatch initiator wait irq_bits req s).1 ≡ (req.op == op_quit)
  unfolding dispatch
  dispatch-quit req s =
      ground (arith, read_reply-cases (tlm_read initiator wait irq_bits req.addr s))

  -- The response is in the server's format, its status is one of the two, and its interrupt word
  -- is that of the simulation after the request was served.
  pub handle_lem :
      (req : CosimRequest) (s : S)
      → let (s', quit, resp) = handle initiator wait irq_bits req s in
        (resp.magic ≡ cosim_magic)
        × (resp.version ≡ cosim_version)
        × ((resp.status ≡ cosim_ok) ⊎ (resp.status ≡ cosim_error))
        × (resp.irq_bits ≡ irq_bits s')
  unfolding handle
  handle_lem req s = ground (arith, dispatch-status req s)

  -- A request with another magic number or version is answered with the error status, and changes
  -- nothing.
  pub handle_refuses :
      (req : CosimRequest) (s : S)
      → (req.magic ≢ cosim_magic) ⊎ (req.version ≢ cosim_version)
      → let (s', quit, resp) = handle initiator wait irq_bits req s in
        (s' ≡ s) × (quit ≡ false) × (resp.status ≡ cosim_error) × (resp.data' ≡ 0)
  unfolding handle
  handle_refuses req s h = ground arith

  handle_serves :
      (req : CosimRequest) (s : S)
      → IsCurrent req
      → let (s', quit, resp) = handle initiator wait irq_bits req s in
        (s', quit, resp.status, resp.data') ≡ dispatch initiator wait irq_bits req s
  unfolding handle
  handle_serves req s c = ground arith

  -- The server stops exactly at a quit request with its magic number and version.
  pub handle_quits :
      (req : CosimRequest) (s : S)
      → (handle initiator wait irq_bits req s).1
        ≡ ((req.magic == cosim_magic) && (req.version == cosim_version) && (req.op == op_quit))
  unfolding handle
  handle_quits req s = ground (arith, dispatch-quit req s)

  -- Every tick takes ten nanoseconds.
  tlm_tick-time :
      (now : S → ℕ)
      → ((d : ℕ) (s : S) → now (wait d s) ≡ now s + d)
      → (n : ℕ) (s : S) → now (tlm_tick initiator wait irq_bits n s) ≡ now s + 10 * n
  unfolding tlm_tick
  tlm_tick-time now clock zero s = omega arith
  tlm_tick-time now clock (suc n) s =
      omega (arith, tlm_tick-time now clock n (wait 10 s), clock 10 s)

  -- A request for time lets `data` times ten nanoseconds pass, and ten where it asks for none, by
  -- any clock that the waiting moves on.
  pub tick_time :
      (now : S → ℕ)
      → ((d : ℕ) (s : S) → now (wait d s) ≡ now s + d)
      → (req : CosimRequest) (s : S) → IsCurrent req
      → req.op ≡ op_tick
      → now (handle initiator wait irq_bits req s).0
        ≡ now s + 10 * (if req.data' == 0 then 1 else req.data')
  unfolding dispatch
  tick_time now clock req s c h = ground (
    arith,
    ap (λ r. r.0) (handle_serves req s c),
    tlm_tick-time now clock (if req.data' == 0 then 1 else req.data') s,
  )

  -- A read is served with the word that the bus gives, and a write with the bus's response; a
  -- refusal on the bus is the error status. The annotated delay is waited for in both cases.
  pub handle_access :
      (req : CosimRequest) (s : S)
      → IsCurrent req
      → (req.op ≡ op_read) ⊎ (req.op ≡ op_write)
      → let (s', quit, resp) = handle initiator wait irq_bits req s in
        let payload =
          if req.op == op_read then read_payload req.addr else write_payload req.addr req.data' in
        let (s2, t) = initiator s payload in
        (s' ≡ waited initiator wait irq_bits (s2, t))
        × (((t.response ≡ ok)
              × (resp.status ≡ cosim_ok)
              × (resp.data' ≡ (if req.op == op_read then word_of t.bytes else 0)))
            ⊎ ((t.response ≢ ok) × (resp.status ≡ cosim_error) × (resp.data' ≡ 0)))
  unfolding handle dispatch tlm_read tlm_write
  handle_access req s c (inl h) = ground arith
  handle_access req s c (inr h) = ground arith

  -- What a request does, whatever it is, by any clock that the waiting moves on. With the server's
  -- magic number and version, a read or a write goes onto the bus as one transaction of four bytes: what
  -- the bus takes of simulated time and then the annotated delay pass, the status is the bus's answer,
  -- and only a read that the bus serves brings a word, which is the one on the bus; a request for time
  -- lets ten nanoseconds pass for each unit asked for, and for one if it asks for none; a request to
  -- quit leaves the time alone and makes the server quit. Any other operation, magic number or version
  -- is an error and leaves the time alone, and nothing but that request to quit makes the server quit.
  -- The interrupt word is the one after all this.
  pub handle_served :
      (now : S → ℕ)
      → ((d : ℕ) (u : S) → now (wait d u) ≡ now u + d)
      → (req : CosimRequest) (s : S)
      → let (s', quit, resp) = handle initiator wait irq_bits req s in
        let (s2, t) = initiator s (asked_for req) in
        let good =
          if is_access req then is_response_ok t else req.op == op_tick || req.op == op_quit in
        (now s' ≡ (
          if is_current req && is_access req
          then now s2 + t.delay
          else if is_current req && (req.op == op_tick)
          then now s + 10 * (if req.data' == 0 then 1 else req.data')
          else now s))
        × (resp.status ≡ (if is_current req && good then cosim_ok else cosim_error))
        × (resp.data' ≡ (
            if is_current req && (req.op == op_read) && is_response_ok t
            then word_of t.bytes
            else 0))
        × (quit ≡ (is_current req && (req.op == op_quit)))
        × (resp.irq_bits ≡ irq_bits s')
  unfolding handle dispatch tlm_read tlm_write read_payload write_payload
  handle_served now clock req s =
      let tick = tlm_tick-time now clock (if req.data' == 0 then 1 else req.data') s in
      elim (Bool-cases (req.op == op_read)) [
        | inl e ↦
            let r = initiator s (read_payload req.addr) in
            rw e (ground (arith, clock r.1.delay r.0))
        | inr e ↦
            let w = initiator s (write_payload req.addr req.data') in
            rw e (ground (arith, clock w.1.delay w.0, tick))
      ]
