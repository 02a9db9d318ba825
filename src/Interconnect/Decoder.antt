-- ===== src/Interconnect/Decoder.antt =====
-- interconnect/tlm_decoder.h: the address decoder of both buses, and the sink.
pub mod Laws
use systemc_model.Base.{ltb, leb, ◌==◌, if◌then◌else◌, get_or, set, replicate, ℕ, ◌+◌, ◌-◌, ◌%◌}
use systemc_model.Base.{◌^◌, Bool, true, false, not, ◌&&◌, Option, none, some, List, [], ◌∷◌}
use systemc_model.Tlm.{Transport, address_error}

pub record Region : Type 0 where
  pub base : ℕ
  pub size : ℕ
  pub used : Bool

-- `regions_` and the time that a decoded access costs.
pub record Decoder : Type 0 where
  pub regions : List Region
  pub cycle : ℕ

abbrev pub max_slaves : ℕ
max_slaves = 4

abbrev pub unused : Region
unused = record { base = 0; size = 0; used = false }

abbrev pub tlm_decoder : Decoder
tlm_decoder = record { regions = replicate max_slaves unused; cycle = 0 }

-- `none` is a failed assertion.
unfoldable pub map_slave : ℕ → ℕ → ℕ → Decoder → Option Decoder
map_slave idx base size d =
    if not (ltb idx max_slaves)
    then none
    else if not (ltb 0 size)
    then none
    else some (record d {
      regions = set d.regions idx (record { base = base; size = size; used = true });
    })

-- The test of one round of the loop. The end of the region is a sum of `uint64_t`.
unfoldable pub covers : Region → ℕ → Bool
covers r addr = r.used && (leb r.base addr && ltb addr ((r.base + r.size) % 2 ^ 64))

-- The loop of `decode` from index `i` on.
unfoldable pub find : ℕ → List Region → ℕ → Option ℕ
find i [] addr = none
find i (r ∷ rs) addr = let rest = find (i + 1) rs addr in if covers r addr then some i else rest

-- `none` is the -1 of the code.
unfoldable pub decode : Decoder → ℕ → Option ℕ
decode d addr = find 0 d.regions addr

abbrev pub base_of : Decoder → ℕ → ℕ
base_of d idx = (get_or d.regions idx unused).base

-- `TlmSink`: an access to nothing.
unfoldable pub sink : {S : Type 0} → Transport S
sink s t = (s, record t { response = address_error })

-- The sockets `s0` to `s3` are bound to targets that share the state `S` of the platform.
module _ {S : Type 0} (s0 s1 s2 s3 : Transport S) where
  -- The last case asserts that `idx` is 3.
  unfoldable pub port : ℕ → Transport S
  port idx = if idx == 0 then s0 else if idx == 1 then s1 else if idx == 2 then s2 else s3

  unfoldable pub b_transport : Decoder → Transport S
  b_transport d s t =
      let addr = t.address in
      elim (decode d addr) [
        | none ↦ (s, record t { response = address_error })
        | some idx ↦
            let down = record t { address = addr - base_of d idx; delay = t.delay + d.cycle } in
            let (s', u) = port idx s down in (s', record u { address = addr })
      ]
