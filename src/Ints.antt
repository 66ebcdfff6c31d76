-- ===== src/Ints.antt =====
-- ints.c, as the kernel compiles it: integers of 31, 32 and 64 bits, read from strings and computed with.
-- Strings are their contents: the byte behind them is zero.
pub mod Parse
pub mod Ops
pub mod Int64
pub mod Nativeint
pub mod Division
pub mod Custom
pub mod Format
