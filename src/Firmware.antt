-- ===== src/Firmware.antt =====
-- The guest's programs: platforms/basic_cortexM/firmware/ and platforms/basic_cortexA/firmware/.
pub mod Program
pub mod Log
pub mod CortexM
pub mod CortexA
pub mod Console
pub mod Board
pub mod SelfTest
pub mod PowerOn
pub mod Completes
pub mod Verdict
