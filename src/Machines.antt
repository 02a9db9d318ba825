-- ===== src/Machines.antt =====
-- The boards of the guest, processor/systemc_soc.c and processor/systemc_ps.c: the calls by which
-- they are built, and what those calls ask for.
pub mod Calls
pub mod SystemcSoc
pub mod SystemcPs
pub mod Memory
pub mod Interrupts
