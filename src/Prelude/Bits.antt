-- ===== src/Prelude/Bits.antt =====
-- Machine words seen bit by bit: what `&`, `|`, `^` and `~` do to each bit, at every width.
mod Step
mod Laws
pub use Step.{bit_and_step, bit_or_step, bit_xor_step}
unfoldable pub use Laws.*
