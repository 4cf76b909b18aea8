-- ===== src/Common/Bits.antt =====
-- The bit operations at variables, from their digit recursion: one law for the lowest digit, and the
-- laws of exclusive or, of masks and of shifts that follow from it by induction on the digits.
mod Step
mod Xor
mod Fields
pub use Step.{bit_or_step, bit_and_step, bit_xor_step, bit_induction}
pub use Xor.*
pub use Fields.*
