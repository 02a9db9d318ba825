-- ===== src/Protocol/Laws.antt =====
-- Messages survive the wire.
use systemc_model.Base.{length, ℕ, ◌^◌, ◌<◌, ◌≡◌, refl, arith}
use systemc_model.Tlm.{word_bytes, word_of}
use systemc_model.Protocol.{
  CosimRequest, CosimResponse, words_bytes, word_field, request_bytes, request_of, response_bytes,
  response_of, message_size,
}

-- The fields of a message are words.
pub record AreWords (a b c d e : ℕ) : Type 0 where
  pub first : a < 2 ^ 32
  pub second : b < 2 ^ 32
  pub third : c < 2 ^ 32
  pub fourth : d < 2 ^ 32
  pub fifth : e < 2 ^ 32

word_field-words_bytes :
    (a b c d e : ℕ)
    → AreWords a b c d e
    → let bs = words_bytes a b c d e in
      (word_field 0 bs ≡ a)
      × (word_field 1 bs ≡ b)
      × (word_field 2 bs ≡ c)
      × (word_field 3 bs ≡ d)
      × (word_field 4 bs ≡ e)
      × (length bs ≡ message_size)
unfolding words_bytes word_field word_bytes word_of
word_field-words_bytes a b c d e h =
    (omega arith, omega arith, omega arith, omega arith, omega arith, refl)

-- A request of words takes twenty bytes and is read back from them as it was.
pub request_of-request_bytes :
    (r : CosimRequest)
    → AreWords r.magic r.version r.op r.addr r.data'
    → (request_of (request_bytes r) ≡ r) × (length (request_bytes r) ≡ message_size)
unfolding request_of request_bytes
request_of-request_bytes r h =
    ground (arith, word_field-words_bytes r.magic r.version r.op r.addr r.data' h)

-- A response of words takes twenty bytes and is read back from them as it was.
pub response_of-response_bytes :
    (r : CosimResponse)
    → AreWords r.magic r.version r.status r.data' r.irq_bits
    → (response_of (response_bytes r) ≡ r) × (length (response_bytes r) ≡ message_size)
unfolding response_of response_bytes
response_of-response_bytes r h =
    ground (arith, word_field-words_bytes r.magic r.version r.status r.data' r.irq_bits h)
