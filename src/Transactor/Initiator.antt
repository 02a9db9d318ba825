-- ===== src/Transactor/Initiator.antt =====
-- The transactions that `CosimServer::tlm_read` and `tlm_write` of transactor/cosim_server.cpp set up.
use systemc_model.Base.{replicate, ℕ, ◌%◌, ◌^◌, ◌<◌, ◌≡◌, refl, none, arith}
use systemc_model.Tlm.{Command, Txn, IsBytes, word_bytes, incomplete}
use systemc_model.Tlm.Laws.{word_of-word_bytes, word_bytes-IsBytes, IsReadOf, IsWriteOf}

-- `tlm_read`: four bytes of zeros to be filled.
unfoldable pub read_payload : ℕ → Txn
read_payload addr = record {
  command = Command.read;
  address = addr;
  bytes = replicate 4 0;
  data_length = 4;
  streaming_width = 4;
  response = incomplete;
  extension = none;
  delay = 0;
}

-- `tlm_write`: the bytes of the word.
unfoldable pub write_payload : ℕ → ℕ → Txn
write_payload addr v = record {
  command = Command.write;
  address = addr;
  bytes = word_bytes v;
  data_length = 4;
  streaming_width = 4;
  response = incomplete;
  extension = none;
  delay = 0;
}

pub read_payload-IsReadOf :
    (addr : ℕ) → addr < 2 ^ 32 → addr % 4 ≡ 0 → IsReadOf addr (read_payload addr)
unfolding read_payload
read_payload-IsReadOf addr small aligned = record {
  reads = refl;
  access = record { word = refl; wide = omega arith; aligned = aligned };
  here = omega arith;
  room = refl;
}

pub write_payload-IsWriteOf :
    (addr v : ℕ)
    → addr < 2 ^ 32
    → addr % 4 ≡ 0
    → v < 2 ^ 32
    → IsWriteOf addr v (write_payload addr v)
unfolding write_payload
write_payload-IsWriteOf addr v small aligned fits = record {
  writes = refl;
  access = record { word = refl; wide = omega arith; aligned = aligned };
  here = omega arith;
  carries = word_of-word_bytes v fits;
  small = fits;
}

pub write_payload-IsBytes : (addr v : ℕ) → IsBytes (write_payload addr v).bytes
unfolding write_payload
write_payload-IsBytes addr v = word_bytes-IsBytes v
