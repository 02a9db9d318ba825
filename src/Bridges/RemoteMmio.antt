-- ===== src/Bridges/RemoteMmio.antt =====
-- bridges/remote_mmio.c with bridges/remote_mmio.h: the device of the guest that forwards its
-- accesses to the server.
pub mod Lines
pub mod Access
pub mod Reach
use systemc_model.Base.{leb, ◌==◌, if◌then◌else◌, length, set, replicate, take, drop, ℕ, zero}
use systemc_model.Base.{suc, ◌+◌, ◌-◌, ◌/◌, ◌%◌, ◌^◌, bit_and, bit_xor, Bool, true, false, not}
use systemc_model.Base.{◌||◌, Option, none, some, List, [], ◌∷◌, ◌++◌}
use systemc_model.Base.Bits.{u32, has_any}
use systemc_model.Protocol.{CosimRequest, CosimResponse, request_bytes, response_of, message_size}
use systemc_model.Protocol.{cosim_magic, cosim_version, cosim_ok, op_read, op_write, op_quit}
use systemc_model.Transactor.Socket.{SendCall, RecvCall, took, got, again, broken}
use mathlib.Core.Option

abbrev pub remote_mmio_max_irq : ℕ
remote_mmio_max_irq = 8

-- `sizeof(addr.sun_path)`
abbrev pub sun_path_size : ℕ
sun_path_size = 108

-- `connected` is `fd >= 0`, `socket_path` the bytes of the string, and `irqs` the levels of the
-- lines.
pub record RemoteMmioState : Type 0 where
  pub irqs : List Bool
  pub socket_path : List ℕ
  pub connected : Bool
  pub irq_last : ℕ

-- `remote_mmio_instance_init`
unfoldable pub remote_mmio_instance_init : List ℕ → RemoteMmioState
remote_mmio_instance_init path = record {
  irqs = replicate remote_mmio_max_irq false;
  socket_path = path;
  connected = false;
  irq_last = 0;
}

-- `remote_mmio_realize`: the size of the region registered, `none` for the error.
unfoldable pub remote_mmio_realize : ℕ → Option ℕ
remote_mmio_realize size = if size == 0 then none else some size

-- What the host's system calls return during one transaction.
pub record Peer : Type 0 where
  pub socket_made : Bool
  pub connects : Bool
  pub sends : List SendCall
  pub recvs : List RecvCall

-- The result is whether the function returns 0.
unfoldable pub remote_mmio_connect : Peer → RemoteMmioState → Bool × RemoteMmioState
remote_mmio_connect peer s =
    if s.connected
    then (true, s)
    else if length s.socket_path == 0
    then (false, s)
    else if not peer.socket_made
    then (false, s)
    else if leb sun_path_size (length s.socket_path)
    then (false, s)
    else if not peer.connects
    then (false, s)
    else (true, record s { connected = true })

-- The loops on the blocking socket: here every result that is not positive is a failure. `none`
-- when the calls listed do not finish the transfer.
unfoldable pub send_request : List SendCall → List ℕ → List ℕ → Option (Bool × List ℕ)
send_request calls [] wire = some (true, wire)
send_request [] (x ∷ left) wire = none
send_request (took zero ∷ calls) (x ∷ left) wire = some (false, wire)
send_request (took (suc n) ∷ calls) (x ∷ left) wire =
    send_request calls (drop (suc n) (x ∷ left)) (wire ++ take (suc n) (x ∷ left))
send_request (again ∷ calls) (x ∷ left) wire = some (false, wire)
send_request (broken ∷ calls) (x ∷ left) wire = some (false, wire)

unfoldable pub recv_response : List RecvCall → ℕ → List ℕ → Option (Bool × List ℕ)
recv_response calls zero buf = some (true, buf)
recv_response [] (suc left) buf = none
recv_response (got [] ∷ calls) (suc left) buf = some (false, buf)
recv_response (got (b ∷ bs) ∷ calls) (suc left) buf =
    recv_response calls (suc left - length (b ∷ bs)) (buf ++ (b ∷ bs))
recv_response (again ∷ calls) (suc left) buf = some (false, buf)
recv_response (broken ∷ calls) (suc left) buf = some (false, buf)

-- The loop over the lines from `i` on, `n` of them left: a changed bit sets its line.
unfoldable pub set_irqs : ℕ → ℕ → ℕ → ℕ → List Bool → List Bool
set_irqs zero i bits changed irqs = irqs
set_irqs (suc n) i bits changed irqs =
    set_irqs n (i + 1) bits changed
      (if has_any changed (2 ^ i) then set irqs i (bits / 2 ^ i % 2 == 1) else irqs)

unfoldable pub update_irqs : ℕ → RemoteMmioState → RemoteMmioState
update_irqs bits s = if bits == s.irq_last then s else record s {
  irqs = set_irqs remote_mmio_max_irq 0 bits (bit_xor bits s.irq_last) s.irqs;
  irq_last = bits;
}

abbrev request : ℕ → ℕ → ℕ → CosimRequest
request op addr wdata = record {
  magic = cosim_magic;
  version = cosim_version;
  op = op;
  addr = addr;
  data' = wdata;
}

-- The result of a transaction: the data word where the code returns 0, `none` where it returns -1,
-- the device, and the bytes put on the wire.
abbrev pub Outcome : Type 0
Outcome = Option ℕ × RemoteMmioState × List ℕ

unfoldable pub accept_response : CosimResponse → RemoteMmioState → List ℕ → Outcome
accept_response resp s wire =
    if not (resp.magic == cosim_magic)
      || not (resp.version == cosim_version)
      || not (resp.status == cosim_ok)
    then (none, s, wire)
    else (some resp.data', update_irqs resp.irq_bits s, wire)

-- From the loop that receives to the end, and from the loop that sends.
unfoldable pub after_recv : RemoteMmioState → List ℕ → Bool × List ℕ → Outcome
after_recv s wire (false, buf) = (none, record s { connected = false }, wire)
after_recv s wire (true, buf) = accept_response (response_of buf) s wire

unfoldable pub after_send : Peer → RemoteMmioState → Option (Bool × List ℕ) → Option Outcome
after_send peer s none = none
after_send peer s (some (false, wire)) = some (none, record s { connected = false }, wire)
after_send peer s (some (true, wire)) =
    Option.map (after_recv s wire) (recv_response peer.recvs message_size [])

unfoldable pub remote_mmio_transact : Peer → ℕ → ℕ → ℕ → RemoteMmioState → Option Outcome
remote_mmio_transact peer op addr wdata s =
    let (good, s') = remote_mmio_connect peer s in
    if not good
    then some (none, s', [])
    else after_send peer s' (send_request peer.sends (request_bytes (request op addr wdata)) [])

-- The value that the guest reads, the device, and the bytes on the wire.
abbrev read_value : Outcome → ℕ × RemoteMmioState × List ℕ
read_value (some v, s, wire) = (v, s, wire)
read_value (none, s, wire) = (0, s, wire)

abbrev write_value : Outcome → RemoteMmioState × List ℕ
write_value (v, s, wire) = (s, wire)

abbrev closed : Outcome → RemoteMmioState × List ℕ
closed (v, s, wire) = (record s { connected = false }, wire)

abbrev unsupported : ℕ → ℕ → Bool
unsupported offset size = not (size == 4) || not (bit_and offset 3 == 0)

unfoldable pub remote_mmio_read :
    Peer → ℕ → ℕ → RemoteMmioState → Option (ℕ × RemoteMmioState × List ℕ)
remote_mmio_read peer offset size s =
    if unsupported offset size
    then some (0, s, [])
    else Option.map read_value (remote_mmio_transact peer op_read (u32 offset) 0 s)

unfoldable pub remote_mmio_write :
    Peer → ℕ → ℕ → ℕ → RemoteMmioState → Option (RemoteMmioState × List ℕ)
remote_mmio_write peer offset value size s =
    if unsupported offset size
    then some (s, [])
    else Option.map write_value (remote_mmio_transact peer op_write (u32 offset) (u32 value) s)

unfoldable pub remote_mmio_unrealize : Peer → RemoteMmioState → Option (RemoteMmioState × List ℕ)
remote_mmio_unrealize peer s =
    if not s.connected
    then some (s, [])
    else Option.map closed (remote_mmio_transact peer op_quit 0 0 s)
