-- ===== src/Protocol.antt =====
-- include/cosim_protocol.h: the messages between QEMU and SystemC, packed and little-endian.
pub mod Laws
use systemc_model.Base.{drop, ℕ, ◌*◌, List, ◌++◌}
use systemc_model.Tlm.{word_bytes, word_of}

abbrev pub cosim_magic : ℕ
cosim_magic = 0x53434D31

abbrev pub cosim_version : ℕ
cosim_version = 2

-- `enum CosimOp`
abbrev pub op_read : ℕ
op_read = 1

abbrev pub op_write : ℕ
op_write = 2

abbrev pub op_tick : ℕ
op_tick = 3

abbrev pub op_quit : ℕ
op_quit = 4

-- `enum CosimStatus`
abbrev pub cosim_ok : ℕ
cosim_ok = 0

abbrev pub cosim_error : ℕ
cosim_error = 1

pub record CosimRequest : Type 0 where
  pub magic : ℕ
  pub version : ℕ
  pub op : ℕ
  pub addr : ℕ
  pub data' : ℕ

pub record CosimResponse : Type 0 where
  pub magic : ℕ
  pub version : ℕ
  pub status : ℕ
  pub data' : ℕ
  pub irq_bits : ℕ

-- The five words of a message, as they lie in memory.
unfoldable pub words_bytes : ℕ → ℕ → ℕ → ℕ → ℕ → List ℕ
words_bytes a b c d e =
    word_bytes a ++ (word_bytes b ++ (word_bytes c ++ (word_bytes d ++ word_bytes e)))

unfoldable pub word_field : ℕ → List ℕ → ℕ
word_field i bs = word_of (drop (4 * i) bs)

unfoldable pub request_bytes : CosimRequest → List ℕ
request_bytes r = words_bytes r.magic r.version r.op r.addr r.data'

unfoldable pub request_of : List ℕ → CosimRequest
request_of bs = record {
  magic = word_field 0 bs;
  version = word_field 1 bs;
  op = word_field 2 bs;
  addr = word_field 3 bs;
  data' = word_field 4 bs;
}

unfoldable pub response_bytes : CosimResponse → List ℕ
response_bytes r = words_bytes r.magic r.version r.status r.data' r.irq_bits

unfoldable pub response_of : List ℕ → CosimResponse
response_of bs = record {
  magic = word_field 0 bs;
  version = word_field 1 bs;
  status = word_field 2 bs;
  data' = word_field 3 bs;
  irq_bits = word_field 4 bs;
}

-- `sizeof` of both messages.
abbrev pub message_size : ℕ
message_size = 20
