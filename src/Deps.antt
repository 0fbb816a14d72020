-- ===== src/Deps.antt =====
-- What the program takes from elsewhere, as interfaces: the key-value store of
-- go.etcd.io/bbolt, the text forms of `strconv` and `encoding/json`, the cryptography,
-- and the verb `%v` of `fmt`.
-- `Instances` implements each of them, to evaluate tests.
mod Store
mod Encoding
mod Signing
mod Keys
mod Verbs
pub use Store.*
pub use Encoding.*
pub use Signing.*
pub use Keys.*
pub use Verbs.*
