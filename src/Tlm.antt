-- ===== src/Tlm.antt =====
-- The TLM-2.0 side of every bus access: include/tlm_helpers.h, include/apb_extension.h, and the
-- generic payload with the annotated delay, both of which `b_transport` takes by reference.
mod Payload
mod Words
mod Helpers
pub mod Laws
pub use Payload.*
unfoldable pub use Words.*
unfoldable pub use Helpers.*
