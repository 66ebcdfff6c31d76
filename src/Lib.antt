-- ===== src/Lib.antt =====
-- mirage-kfreebsd runs OCaml programs inside the FreeBSD kernel. This library models its C code: the
-- kernel side of the platform (packages/mirage-platform/runtime/kernel) and the parts of the OCaml
-- run-time (packages/mirage-platform/runtime/ocaml) that were rewritten for the kernel.
--
-- How the parts interact: the kernel module (kmod.c) starts a thread that runs the OCaml main loop, and
-- puts hooks into the Ethernet layer. Frames that arrive by the hook wait in a queue for each plugged
-- interface (netif_stubs.c) until OCaml fetches them as bigarrays over the mbufs; to send, OCaml hands
-- over bigarrays whose memory mbufs then share, counted in two words behind each array
-- (bigarray_stubs.c). Pages for packets come from page_stubs.c, views of them are moved by
-- cstruct_stubs.c, headers are checked by checksum_stubs.c, and time is read by clock_stubs.c.
--
-- Base: the shared helpers. Base.Results is the result of a primitive: it returns, raises an OCaml
--   exception, touches memory that is not its own, or runs out of rounds; Base.Words and Base.Int are
--   machine words and signed numbers over the native numbers, Base.Lists and Base.Tests lists and tests.
-- Checksum: runtime/kernel/checksum_stubs.c. `ones_complement_checksum` and
--   `ones_complement_checksum_list` are the primitives; the children hold the loop that folds carries,
--   the sum of RFC 1071 and the theorems.
-- Clock: runtime/kernel/clock_stubs.c. `gettimeofday` and `gmtime`; Clock.Calendar is the calendar
--   they are compared with, from the lengths of the months.
-- Kmod: runtime/kernel/kmod.c. `body_step` is `mirage_kthread_body` in steps, `sysctl_run`,
--   `kthread_deinit` and `event_handler` are the handlers, `block_ticks` is `caml_block_kernel`;
--   Kmod.System is the step relation in which thread, sysctl and unload interleave; a thread that has set
--   THR_NONE and not yet called kthread_exit is counted apart, so that the next one can overlap with it.
-- Netif: runtime/kernel/netif_stubs.c. Netif.Plug has `plug_vif`, `unplug_vif` and `get_vifs`,
--   Netif.Receive `ether_input` and `get_mbufs`, Netif.Transmit `map_to_mbuf` and `put_mbufs`.
-- Pages: runtime/kernel/page_stubs.c, with `contigmalloc` as a parameter.
-- Bigarray: runtime/ocaml/bigarray_stubs.c and bigarray.h as the kernel compiles them. The store holds
--   bytes, counters, proxies and what was given back; the children follow the operations: Alloc, Index,
--   Access, View, Finalize, Compare, and Marshal with the functions of extern.c and intern.c it calls.
-- Values: OCaml values on a heap of blocks (runtime/ocaml/mlvalues.h). Values.Compare is compare.c: a round
--   of the loop of `compare_val` is `compare_round`, and `compare_run` repeats it, on the stack of fields
--   still to be compared; its children hold the trees that values stand for, and their order. Values.Hash
--   is hash.c: `hash_again` is `hash_aux` from its label on.
-- Strings: runtime/ocaml/str.c and `caml_alloc_string` of alloc.c, on all bytes of a string's block.
-- Ints: runtime/ocaml/ints.c. Ints.Parse reads integers from strings, Ints.Ops, Ints.Int64 and
--   Ints.Nativeint compute with boxed integers, Ints.Custom writes and reads them in marshalled data, and
--   Ints.Format is `parse_format`.
-- Lexing: runtime/ocaml/lexing.c. `lex_engine` is `caml_lex_engine` and `new_lex_engine` is
--   `caml_new_lex_engine`; a round of their loops is `lex_round` and `new_lex_round`, and positions are
--   untagged numbers.
-- Cstruct, FakeIo: runtime/ocaml/cstruct_stubs.c and fake_io.c.
-- Tests: small runs, and a concrete case of each theorem.
--
-- Bounds and fuel: the machine is amd64, little-endian, with 64-bit words and 32-bit `int`; each wrap is
-- written out, also that of the address of an element of an array; theorems on several elements ask that
-- the array lies in the 64-bit address space. A signed overflow or a division that C leaves undefined is a
-- fault where it can be reached. `fold_carries` has three rounds, which suffice for a 32-bit sum; the year loop of `gmtime`
-- has one round for each 365 days and one more. `compare_run` has a number of rounds; on values that stand
-- for trees some number is enough, whatever is added to it. `hash_again` has a depth of calls and jumps; the
-- limit of the hash is enough where no block is forwarded. The engines of lexers have a number of rounds,
-- of which a character takes one. Every other loop is structural.
--
-- Not modelled: locks (a primitive is one step), the garbage collector (what it allocates is a value or
-- an address that is given), the rest of the OCaml run-time, which is a copy of OCaml's, and the OCaml
-- libraries. What the kernel does (`malloc`, `MGET`, `kthread_add`, `sysctl_handle_int`) is given by its
-- results. Floats are not compiled in the kernel. Custom operations on values are parameters, and `sprintf`
-- is not modelled.
pub mod Base
pub mod Checksum
pub mod Clock
pub mod Kmod
pub mod Bigarray
pub mod Netif
pub mod Cstruct
pub mod Pages
pub mod FakeIo
pub mod Tests
pub mod Values
pub mod Strings
pub mod Ints
pub mod Lexing
