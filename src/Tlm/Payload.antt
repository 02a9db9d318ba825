-- ===== src/Tlm/Payload.antt =====
-- A transaction: the attributes of `tlm_generic_payload` that the models read or write, and the
-- `sc_time` delay beside it, in nanoseconds.
use systemc_model.Base.{ℕ, Bool, List, Option, ◌≡◌, ◌≢◌, ◌<◌, ◌≤◌, ◌^◌, length, get_or}

pub data Command : Type 0 where
  read write ignore : Command

pub data Response : Type 0 where
  incomplete ok address_error command_error burst_error : Response

-- `ApbExtension` of include/apb_extension.h
pub record ApbExtension : Type 0 where
  pub psel : Bool
  pub penable : Bool
  pub pwrite : Bool

-- `bytes` is what the data pointer points to.
pub record Txn : Type 0 where
  pub command : Command
  pub address : ℕ
  pub bytes : List ℕ
  pub data_length : ℕ
  pub streaming_width : ℕ
  pub response : Response
  pub extension : Option ApbExtension
  pub delay : ℕ

-- Every element is a byte.
abbrev pub IsBytes : List ℕ → Type 0
IsBytes bs = (i : ℕ) → get_or bs i 0 < 256

-- What an initiator hands over: the buffer has the announced length and the address 64 bits.
pub record IsRequest (t : Txn) : Type 0 where
  pub buffer : length t.bytes ≡ t.data_length
  pub small : t.address < 2 ^ 64
  pub octets : IsBytes t.bytes

-- What a target gives back: the attributes that the initiator set are still as they were.
pub record IsSameRequest (t u : Txn) : Type 0 where
  pub same_command : u.command ≡ t.command
  pub same_address : u.address ≡ t.address
  pub same_length : u.data_length ≡ t.data_length
  pub same_width : u.streaming_width ≡ t.streaming_width
  pub same_buffer : length u.bytes ≡ length t.bytes

-- A blocking transport function over the state of what lies behind the socket.
abbrev pub Transport : Type 0 → Type 0
Transport S = S → Txn → S × Txn

-- The contract of a TLM target: it decides on a response, keeps the request, and never takes
-- delay away.
pub record IsTarget {S : Type 0} (b_transport : Transport S) : Type 0 where
  pub answers : (s : S) (t : Txn) → (b_transport s t).1.response ≢ Response.incomplete
  pub keeps : (s : S) (t : Txn) → IsSameRequest t (b_transport s t).1
  pub delays : (s : S) (t : Txn) → t.delay ≤ (b_transport s t).1.delay
