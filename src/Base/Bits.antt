-- ===== src/Base/Bits.antt =====
-- The bits of a word, and what `&`, `|`, `^` and `~` do to them.
mod Step
mod Defs
mod Laws
mod Masks
unfoldable pub use Defs.*
pub use Laws.*
pub use Masks.*
