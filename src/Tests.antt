-- ===== src/Tests.antt =====
-- Runs of the model and instances of its theorems, on concrete inputs.
mod Registers
mod Clocked
pub mod Platform
mod Host
mod Programs
mod Machines
mod PinTimer
mod Terminal
