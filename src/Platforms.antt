-- ===== src/Platforms.antt =====
-- The simulations of platforms/: basic_cortexM/cosim_main.cpp and basic_cortexA/cosim_main.cpp.
pub mod CortexA
use systemc_model.Base.{ℕ, Option, none, some}
use systemc_model.Tlm.{Transport}
use systemc_model.Interconnect.AddressMap as AddressMap
use systemc_model.Interconnect.AddressMap.{AddressMap, tlm_address_map, map_region}
use systemc_model.Bridges.PinBridge as PinBridge
use systemc_model.Bridges.PinBridge.{BusPins, PinState}
use Prim.Native.String.{String}

-- `SYSTEMC_PL_WINDOW_SIZE` of include/soc_memory_map.h
abbrev pub systemc_pl_window_size : ℕ
systemc_pl_window_size = 0x00100000

-- `SYSTEMC_PL_A_PROFILE_BASE` of include/soc_memory_map.h
abbrev systemc_pl_a_profile_base : ℕ
systemc_pl_a_profile_base = 0xF0000000

-- The base of the window that the Cortex-A main announces: what `strtoull` of the C library, which is
-- the first argument, makes of the variable SYSTEMC_PL_BASE if it is set and not empty, or the
-- default. Nothing else depends on it.
unfoldable pub pl_base_from_env : (String → ℕ) → Option String → ℕ
pl_base_from_env strtoull none = systemc_pl_a_profile_base
pl_base_from_env strtoull (some String.[]) = systemc_pl_a_profile_base
pl_base_from_env strtoull (some (String.◌∷◌ c s)) = strtoull (String.◌∷◌ c s)

-- The path of the socket: the first argument, or the variable SYSTEMC_COSIM_SOCKET if it is set
-- and not empty, or the default. Both mains choose it alike.
unfoldable pub main_socket_path : Option String → Option String → String
main_socket_path env (some argument) = argument
main_socket_path none none = "/tmp/systemc_cosim.sock"
main_socket_path (some String.[]) none = "/tmp/systemc_cosim.sock"
main_socket_path (some s) none = s

-- The interconnect of the Cortex-A platform: one region, the whole window, with the pin bridge of
-- the timer behind it.
unfoldable pub interconnect : AddressMap
interconnect = map_region 0 systemc_pl_window_size tlm_address_map

module _ {P : Type 0} (run : ℕ → BusPins → P → P) (data_out : P → ℕ) where
  -- What the server's initiator is bound to.
  unfoldable pub cortex_a_transport : Transport (PinState P)
  cortex_a_transport = AddressMap.b_transport (PinBridge.b_transport run data_out) interconnect

  -- `irq_bits` is written with 0 and never again.
  abbrev pub cortex_a_irq_bits : PinState P → ℕ
  cortex_a_irq_bits s = 0
