-- ===== src/Transactor.antt =====
-- The host's side of the bus: transactor/.
pub mod Initiator
pub mod Socket
pub mod Server
pub mod Listen
