-- ===== src/Tlm/Helpers.antt =====
-- include/tlm_helpers.h
use systemc_model.Base.{ℕ, ◌+◌, Bool, true, false, not, ◌||◌, Option, none, some, bit_and}
use systemc_model.Base.{ltb, ◌==◌, if◌then◌else◌}
use systemc_model.Tlm.Payload.{Txn, ok, address_error, burst_error}
use systemc_model.Tlm.Words.{memcpy, word_bytes, word_of}

unfoldable pub tlm_check_u32 : Txn → Bool × Txn
tlm_check_u32 t =
    if not (t.data_length == 4) || ltb t.streaming_width 4
    then (false, record t { response = burst_error })
    else if not (bit_and t.address 3 == 0)
    then (false, record t { response = address_error })
    else (true, t)

-- `none` is the `false` of the code, which leaves `value` alone.
unfoldable pub tlm_unpack_u32 : Txn → Option ℕ × Txn
unfolding tlm_check_u32
tlm_unpack_u32 t =
    let (good, u) = tlm_check_u32 t in if good then (some (word_of u.bytes), u) else (none, u)

unfoldable pub tlm_pack_u32 : Txn → ℕ → Bool × Txn
unfolding tlm_check_u32
tlm_pack_u32 t value =
    let (good, u) = tlm_check_u32 t in
    if good
    then (true, record u { bytes = memcpy 4 u.bytes 0 (word_bytes value) 0 })
    else (false, u)

-- The end of every peripheral's `b_transport`: the OK response, and the time that it takes.
abbrev pub finish : ℕ → Txn → Txn
finish ns t = record t { response = ok; delay = t.delay + ns }
