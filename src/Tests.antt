-- ===== src/Tests.antt =====
-- The theorems at concrete inputs, with the test data that these share.
pub mod Wire
pub mod Router
pub mod Node
pub mod Pathfinder
pub mod Firewall
pub mod Bloom
pub mod PeerTimeout
pub mod Traffic
pub mod Tree
use yggdrasil_ng.Prelude.{ℕ, replicate}
use yggdrasil_ng.Wire.Message.{PublicKey, Sig}

abbrev pub key_a : PublicKey
key_a = replicate 32 1

abbrev pub key_b : PublicKey
key_b = replicate 32 2

abbrev pub some_sig : Sig
some_sig = replicate 64 9
