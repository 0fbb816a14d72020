-- ===== src/Instances.antt =====
-- Concrete implementations of the interfaces, to evaluate tests and to show that what the interfaces
-- state can hold: a bucket as a list of pairs, decimal numbers, JSON on a few values, structs as texts, and a toy
-- signature that shows its key and its text.
mod ListBolt
mod Decimal
mod ToyCrypto
mod ToyKeys
mod Plain
pub use ListBolt.*
pub use Decimal.*
pub use ToyCrypto.*
pub use ToyKeys.*
pub use Plain.*
