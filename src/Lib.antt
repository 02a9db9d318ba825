-- ===== src/Lib.antt =====
-- A model of the cosimulation platform: a QEMU guest whose peripherals live in a SystemC simulation.
--
-- The guest's processor reaches a window of memory-mapped registers. Its device
-- (bridges/remote_mmio.c) turns each access into a message (include/cosim_protocol.h) on a Unix
-- socket. The server of the simulation (transactor/cosim_server.cpp) turns the message into a TLM
-- transaction, lets the annotated time pass, and answers with the data, a status and the levels of
-- the interrupt lines, which the device applies to the guest's lines. The transaction runs through
-- the platform of Soc/cortexm_pl.h: a decoder (interconnect/tlm_decoder.h) in front of the timer's
-- pin bridge (bridges/tlm_pin_bridge.h), the memory (peripherals/sram_ahb.h) and the bridge to a
-- second decoder (bridges/ahb_apb_bridge.h), behind which stand GPIO, serial port, system control and
-- watchdog.
--
-- Where the parts are:
--   Base            lists, Boolean tests and the bits of native numbers: what the others share
--   Tlm             the payload, byte buffers, and include/tlm_helpers.h; `IsTarget` is the contract
--                   of every transport function
--   Interconnect    TlmDecoder and TlmSink, TlmAddressMap
--   Bridges         AhbApb (AhbApbBridge), PinBridge (TlmPinBridge), RemoteMmio (remote_mmio_connect,
--                   _transact, _read, _write, _instance_init, _unrealize)
--   Peripherals     SysCtrl, Sram, Wdt, Uart, Gpio and Timer: the classes of peripherals/, a function
--                   for each method; Timer.Bench is peripherals/timer/timer_tb.cpp
--   Soc             the memory map, CortexMPlSoc as a transport function, and pack_irqs; Soc.Map
--                   holds the documented map, Soc.HostMemory the memory as the host sees it,
--                   Soc.Octets that only bytes travel over the buses,
--                   Soc.Reach the steps of the whole platform, Soc.Clocked what an edge of `sys_clk`
--                   does to it through ClockReset, from the power-on
--   Protocol        CosimRequest and CosimResponse with their bytes
--   Transactor      Initiator (the payloads of tlm_read and tlm_write), Socket (send_all, recv_all),
--                   Server (tlm_read, tlm_write, tlm_tick, and server_thread in `handle`,
--                   `iteration` and Server.Thread, its loop), Listen (start_listening, the
--                   constructor and the destructor)
--   Firmware        Program (what a bare-metal program does), Log (log.h), CortexM and CortexA (the
--                   main.c of platforms/basic_cortexM/firmware/ and platforms/basic_cortexA/firmware/),
--                   Board (the window, the server and the platform as the program's bus), SelfTest
--                   (its run there up to the tests that wait), PowerOn (that run on the clock of the
--                   platform), Completes (the whole runs of both programs), Verdict (the exit codes)
--                   and Console (the output of platforms/basic_cortexA/firmware/: uart_console.h, its
--                   log.h in Console.Log, and the run of a program over the port in Console.Run)
--   Machines        SystemcSoc and SystemcPs: the boards of processor/, as the calls that build them
--   Platforms       sc_main of platforms/basic_cortexA/cosim_main.cpp, and the choice of the socket's
--                   path that both mains make
--   Clocks          ClockReset of clocks/clock_reset.h
--   Guest           the whole way of an access
--   Tests           runs and instances on concrete inputs
--
-- How the code is modelled. A module's members are a record, and a method is a function on it. A
-- transport function takes the state behind its socket and a transaction, and gives both back; the
-- delay is a number of nanoseconds in the transaction. A 32-bit value is a natural number with its
-- wrap-around written out. `sc_event::notify` sets a flag that the woken method clears, and the
-- orders in which the simulation kernel may run the methods are the paths of a step relation, in
-- the `Reach` module of each part. System calls on a socket are lists of what the calls return; a
-- loop over such a list says so where the list ends before the loop does, and theorems of
-- completion name the calls that are enough. The other loops are structural: note_edges over its 32
-- bits, the lines of the device over eight, the decoder over its four regions, tlm_tick over its
-- count and the polling loop over its spins; the loop of server_thread goes over a list of what its
-- client does. Only the wait of uart_puts for room has fuel, its `patience`; it is enough if the
-- port never stays full for as many reads of its flags. The output of the Cortex-A program is a log
-- of its pieces, as it is for the other program, and Console.Run sends each piece over the port;
-- the port is QEMU's and stands beside the platform, so that no access to the window depends on it.
--
-- A program of the guest is a tree of its accesses, its output and its exit. A bus answers the
-- accesses, or faults; between two steps an interrupt may run its handler. Firmware.Board is the bus
-- that the platform gives, and Firmware.Board.Reference a small board that every such bus follows, on
-- which the program is evaluated.
--
-- Parameters stand for what the repository does not hold: the passing of simulated time (`wait`, and
-- `run` behind the pins), of which a theorem may ask that it moves a clock on, or that it leaves the
-- memory alone, or that it schedules the timer's methods (Bridges.PinBridge.TimerBus); the model behind
-- the pins; the interrupt port; the interrupt controller of the Cortex-M3, of which Firmware.SelfTest
-- asks that a write of ISER0 enables what it names; and the room that QEMU's own devices take in the
-- memory map. The memory's field `overrun` is no
-- field of the code: it records an access outside the vector.
--
-- Time on the platform: Soc.Clocked runs the processes of a rising edge of `sys_clk`, then the methods
-- that the changed signals and the notified events wake, up to the last one. Firmware.Board.Clocked
-- lets a wait of the server run one edge for every ten nanoseconds after the methods that the
-- access woke. An access through the timer's bridge itself waits, and takes the timer some edges
-- ahead; the other blocks, which it does not touch, run the same edges before the server's own
-- wait, so that all have lived through the same time when the response is made. There the
-- processor's requests follow one another at once. On the Cortex-A platform the times are left
-- open: Bridges.PinBridge.TimerBus says what a kernel has to do with the timer's processes, and
-- Bridges.PinBridge.Kernel is one that does it.
--
-- Not modelled: the signals of the Cortex-A platform between its blocks, but for the timer's pins; what
-- QEMU does in its calls, and the registration of its types; the start-up code of the firmware and its
-- output instructions; the construction of the modules in the mains.
pub mod Base
pub mod Tlm
pub mod Peripherals
pub mod Transactor
pub mod Interconnect
pub mod Bridges
pub mod Soc
pub mod Protocol
pub mod Guest
pub mod Firmware
pub mod Machines
pub mod Platforms
pub mod Clocks
pub mod Tests
