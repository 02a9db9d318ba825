-- ===== src/Bridges.antt =====
-- The bridges of bridges/.
pub mod AhbApb
pub mod PinBridge
pub mod RemoteMmio
