-- ===== src/Lib.antt =====
-- smartstring: a string type that keeps short texts inline and long ones on the heap.
--
-- The program is the crate smartstring, and its source is under src/. A `SmartString` is 24 bytes of
-- memory, read as one of two structs: an `InlineString` (inline.rs: a marker byte and 23 bytes of
-- text) or a `BoxedString` (boxed.rs: pointer, capacity, length). The lowest bit of the first byte
-- tells which (marker_byte.rs): a marker is odd and the address of a block is even. The string
-- operations (ops.rs) are written once for both structs; two macros run them on a `SmartString`,
-- and move it to the heap or back (lib.rs).
--
-- The files, and what they model:
--   Marker         marker_byte.rs: `Marker`, `Discriminant`
--   Inline         inline.rs: `InlineString`; `size` is `len`
--   Boxed          boxed.rs: `BoxedString`; Boxed.Grow has the loop of `ensure_capacity`, and
--                  Boxed.Hangs what becomes of it on any request, Boxed.Blocks and
--                  Boxed.Texts the functions that call the allocator, Boxed.Sizes the same at
--                  any size, Boxed.Strings a `String` with its block, Boxed.Into the conversion
--                  into a `String`, and Boxed.Takeover the conversions of the build with the
--                  `Allocator` trait
--   Generic, Ops   ops.rs: the trait `GenericString`, `bounds_for`, `insert_bytes`, and a module for
--                  each operation with its `cap` and `op`
--   Smart          lib.rs, config.rs and casts.rs: the shared memory, the casts and the modes;
--                  Smart.Views has the memory as either struct, and Smart.BigEndian the memory of
--                  a big-endian machine; Smart.Macros has the two macros, `try_demote` and `drop`,
--                  Smart.Methods the methods that change a string (Smart.Methods.Iterators has
--                  iterators that panic),
--                  Smart.Convert the conversions and the reading ones, Smart.Append `Extend`,
--                  `Add` and `FromIterator` (an owned item is an interface, which a string and a
--                  `String` fill; Smart.Append.Impls has the impls by type), Smart.Compare the
--                  comparisons (Smart.Compare.Values has the quotient by `==`), Smart.Index and
--                  Smart.Write the `Index`, `IndexMut` and `DerefMut` implementations, Smart.Serde
--                  serde.rs and arbitrary.rs, and Smart.Proptest proptest.rs
--   Drain          iter.rs: the draining iterator, whose string is the state that it works on
--   Model          test.rs: the bounds (Model.Bounds), the actions of the property tests and their
--                  control, a `String` (Model.Ranges, Model.Parts, Model.Refines), runs of actions
--                  (Model.Runs), the assertions (Model.Checks) and `test_everything` (Model.Tested)
--   Request        the layouts of the live blocks, and what a call asks the allocator for
--   Heap           the allocator, the blocks of the heap, and how calls end: Succeeds for
--                  one that returns, Settles for one of any size, Unwinds for one that panics
--   Utf8, Slice    what the source uses of `char`, `str` and slices
--   Run, Bytes     how a call ends; words in memory
--   Prelude        lists, numbers and tests
--   Tests          concrete inputs
--
-- The model. Numbers are natural numbers; a `usize` has 64 bits and its arithmetic wraps, as in a
-- release build (`uadd`, `usub`, `umul`); memory is little-endian, but in Smart.BigEndian. A text
-- is the list of its bytes, a `char` its scalar value. A call is a function from a state to a
-- `Run`: it returns, panics and leaves a state, aborts with the request that the allocator has not
-- met, or is undefined (a block freed or resized with another layout than its own, or a block of no
-- bytes asked for). Where a theorem says "unless the allocator answers null", the other end that it
-- allows is an abort with a request to which this allocator answers null. A method's state is the
-- string and the heap. The heap maps the address of each live block to its layout; the bytes of the
-- one block that a boxed string owns are kept with the string. The allocator is a parameter with
-- the laws that the documentation of `GlobalAlloc` gives: an address that it answers is of no live
-- block, not null and aligned. `Rep rest text s h` says that the string `s` holds `text`, well
-- formed, and that the heap `h` is `rest` and the string's own block.
--
-- Bounds. The loop of `ensure_capacity` has 64 rounds of fuel, and `diverged` when they are used
-- up: a `usize` above zero that is doubled 64 times has wrapped to zero, and the loop then never
-- ends. Where a theorem bounds the requests, it is by 2^62 bytes (`request_limit`), so that no
-- doubling wraps and no layout is too large to be made.
--
-- The loop of `Retain` has one round of fuel more than the text has bytes, and each round passes at
-- least one byte.
--
-- Not modelled: the debug assertions (the invariants `IsWf` say what those of inline.rs and
-- boxed.rs check), the static assertions of config.rs on sizes and alignments, build.rs, benches/
-- and fuzz/, and machines with 32-bit words. The unit tests on fixed inputs have no definition of
-- their own.
pub mod Prelude
pub mod Request
pub mod Run
pub mod Slice
pub mod Utf8
pub mod Marker
pub mod Generic
pub mod Heap
pub mod Boxed
pub mod Inline
pub mod Ops
pub mod Bytes
pub mod Smart
pub mod Drain
pub mod Model
pub mod Tests
