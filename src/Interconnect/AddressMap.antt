-- ===== src/Interconnect/AddressMap.antt =====
-- interconnect/tlm_address_map.h: the decoder of one region.
pub mod Laws
use systemc_model.Base.{ltb, leb, ◌==◌, if◌then◌else◌, ℕ, ◌+◌, ◌-◌, ◌%◌, ◌^◌, Bool, ◌||◌}
use systemc_model.Tlm.{Transport, address_error}

pub record AddressMap : Type 0 where
  pub region_base : ℕ
  pub region_size : ℕ

abbrev pub tlm_address_map : AddressMap
tlm_address_map = record { region_base = 0; region_size = 0 }

unfoldable pub map_region : ℕ → ℕ → AddressMap → AddressMap
map_region base size m = record { region_base = base; region_size = size }

-- The guard; the end of the region is a sum of `uint64_t`.
unfoldable pub misses : AddressMap → ℕ → Bool
misses m addr =
    m.region_size == 0
    || (ltb addr m.region_base || leb ((m.region_base + m.region_size) % 2 ^ 64) addr)

module _ {S : Type 0} (device_socket : Transport S) where
  unfoldable pub b_transport : AddressMap → Transport S
  unfolding misses
  b_transport m s t =
      let addr = t.address in
      if misses m addr
      then (s, record t { response = address_error })
      else let (s', u) = device_socket s (record t { address = addr - m.region_base }) in
        (s', record u { address = addr })
