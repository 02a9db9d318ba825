-- ===== src/Tests/Machines.antt =====
-- The guest's boards and the listening socket on concrete inputs.
use systemc_model.Base.{length, ℕ, ◌≤◌, ◌<◌, ◌≡◌, refl, ◌↔◌, ◌⊎◌, true, false, not, ◌&&◌, none}
use systemc_model.Base.{some, List, [], ◌∷◌, arith}
use systemc_model.Bridges.RemoteMmio.{remote_mmio_instance_init, update_irqs}
use systemc_model.Bridges.RemoteMmio.Lines.{init-IsShown}
use systemc_model.Transactor.Listen.{
  ListenCalls, cosim_server, start_listening, destroy, listen_failed, start_listening_iff,
}
use systemc_model.Machines.Calls.{
  Device, a9mpcore, arm_cpu, fiq, Call, MachineState, Separate, mappings, window, wires,
}
use systemc_model.Machines.SystemcSoc.{systemc_soc_init}
use systemc_model.Machines.SystemcPs.{systemc_ps_init, ps_calls, ps_pl_size}
use systemc_model.Machines.Memory.{area_size, ps_map}
use systemc_model.Machines.Interrupts.{
  nvic_level, line_of, targets, output, guest_interrupts, cpu_interrupts,
}
use systemc_model.Soc.{pack_irqs}

-- The sizes of QEMU's own devices.
abbrev own : Device → ℕ
own a9mpcore = 0x2000
own _ = 0x1000

abbrev two_cpus : MachineState
two_cpus = record {
  cpu_type = "cortex-a9-arm-cpu";
  cpus = 2;
  ram_size = 0x20000000;
  socket_env = none;
}

ps_map_example :
    ((0x40000000 < two_cpus.ram_size) × (systemc_ps_init true two_cpus ≡ none))
    ⊎ ((two_cpus.ram_size ≤ 0x40000000)
        × (calls : List Call) × (systemc_ps_init true two_cpus ≡ some calls)
        × (window calls ≡ some ps_pl_size)
        × Separate (mappings (area_size two_cpus ps_pl_size own) calls))
ps_map_example = ps_map true two_cpus own (omega arith) (omega arith) (omega arith)

cpu_interrupts_example :
    targets (output 2 fiq 1) (wires (ps_calls true two_cpus)) ≡ (arm_cpu 1, fiq) ∷ []
cpu_interrupts_example = cpu_interrupts true two_cpus fiq 1 refl (omega arith)

abbrev cortex_m : MachineState
cortex_m = record {
  cpu_type = "cortex-m3-arm-cpu";
  cpus = 1;
  ram_size = 0x20000;
  socket_env = some "";
}

guest_interrupts_example :
    nvic_level
      (line_of
        (update_irqs (pack_irqs false false true false false) (remote_mmio_instance_init [])))
      2
      (wires (systemc_soc_init cortex_m))
    ≡ true
guest_interrupts_example =
    guest_interrupts cortex_m (remote_mmio_instance_init []) false false true false false 2
      (init-IsShown [])

-- A file is left, and is removed.
abbrev calls : ListenCalls
calls = record { unlinks = true; socket_made = true; binds = λ taken. not taken; listens = true }

abbrev path : List ℕ
path = 47 ∷ 115 ∷ []

start_listening_iff_example :
    let (s, raised) = start_listening calls (cosim_server path true) in
    let after = destroy false (record s { client = true }) in
    ((raised ≡ none) ↔ (
      ((true && not calls.unlinks) ≡ false)
      × (calls.socket_made ≡ true)
      × (length path < 108)
      × (calls.binds false ≡ true)
      × (calls.listens ≡ true)))
    × (after.listening ≡ false)
    × (after.client ≡ false)
    × ((after.file ≡ true) ↔ (
        (false ≡ false)
        × (((true && not calls.unlinks) ≡ true) ⊎ (raised ≡ none) ⊎ (raised ≡ some listen_failed))))
start_listening_iff_example = start_listening_iff calls path true true false refl
