-- ===== src/Tests.antt =====
-- Small runs of the models, and a concrete case of each theorem.
pub mod Checksum
pub mod Clock
pub mod Kmod
pub mod Bigarray
pub mod Views
pub mod Cstruct
pub mod Netif
pub mod Values
pub mod Strings
pub mod Ints
pub mod Lexing
