-- ===== src/Lib.antt =====
-- Librarius, a storage engine with multi-version transactions: a model of its crate and theorems
-- about it. The crate keeps objects in pages of several sources (memory or files), gives every
-- byte a logical address, and runs transactions that see the objects as of the version at their
-- start.
--
-- The parts, from the bottom up, and where they are:
--
-- * Utils models src/utils.rs: align_up and align_down by their bit formulas,
--   get_or_insert_with_result; Utils.Views has unsafe_utils and crc. Usize has the arithmetic of
--   usize, Error models src/error.rs.
-- * Source models src/source/mod.rs: the trait Source is a record of operations, taken as an
--   instance; Source.Header is SourceHeader, Source.Allocator is SourceAllocator with its free
--   list. Source.Memory models src/source/memory_source.rs, Source.File
--   src/source/file_source.rs. Source.Contract states what the layers above rely on in a
--   byte-addressable source, and Source.Memory.Array fills it for the memory source.
-- * Las models src/las.rs: Las.Slice (LogicalSlice, StoredLogicalSlice), Las.Meta, Las.MutRef
--   (LogicalMutRef), Las.Table (the maps), Las.Space (LogicalAddressSpace and its operations),
--   Las.Open (LogicalAddressSpace::new).
-- * Vos models src/vos.rs: Vos.Pointer (UntypedPointer), Vos.Version, Vos.Object (ObjectSize,
--   ObjectHeader), Vos.Alloc (the three allocators), Vos.Reader (VersionedReader), Vos.Store
--   (VersionedObjectStore). Vos.Place has the words behind references.
-- * Tx models src/tx.rs, Engine src/librarius.rs: the builder, open, run_once and run. Typed
--   models src/typed.rs, the calls at a type; its trait is the record Persistent, taken as an
--   instance. Engine.Counter models the unit test counter of src/librarius.rs as a client of it,
--   with its threads one after another. Example models examples/basic.rs, without its printing.
-- * The children of a module hold the lemmas about it. Las.Space.Memory and Las.Space.Region
--   treat the address space as a memory, slice by slice and page by page, Las.Space.Fresh and
--   Las.Space.Stock its fresh pages and what keeps them; Vos.Alloc.Copied and Vos.Alloc.Fresh an
--   object and a version slot that have just been made. Vos.Reader.Chain describes the copies of
--   an object as what stands in memory, and its children how a write, a fill and a commit change
--   them. On these rest Tx.Snapshot and Tx.Race (a commit and other transactions), Tx.Write (a
--   write and other transactions), Tx.Fresh and Tx.Stocked (a transaction from its start on a
--   database with free pages, and the database that it leaves), Engine.Rewrite and
--   Engine.Counter.Sequential (whole transactions, one after another), Engine.Counter.Schedule
--   (any schedule of those that commit and those that fail), Engine.Counter.Interleaved
--   (transactions beside an uncommitted one), and Typed.Update, Typed.Create and Typed.Session
--   (whole transactions at a type).
--
-- How the code is read. A call that changes state is a function from the state to a result and
-- the new state; a result is a value, an error, a panic, or the end of the fuel. What an error
-- leaves changed stays changed. A reference into mapped memory is the logical slice or the word
-- that it stands for, and a write through it is write_through. A lock is held for one call, so
-- each call is one step; atomic words are sequentially consistent. Arithmetic on usize wraps at
-- 2^64, as in the release profile. A struct seen as bytes has its fields in the order of
-- declaration, little-endian, with zero padding. A BTreeMap is a list of entries in the order of
-- their keys, a HashMap a list of entries, an Arc of an allocator the base address that names
-- it.
--
-- Parameters: how the compiler lays a type out in memory (the record Layout, with the laws of a
-- view there and back); the crc of a buffer; what mmap returns; the calls on std::fs::File; the
-- closure that a transaction runs.
--
-- Fuel: flush calls itself at most once, so 2 is enough; the loop of GenericAllocator::alloc
-- ends within 2 rounds (for both, Source.Allocator.Ends says what it is for a call to come back,
-- and Source.Memory.Returning that those of a memory source do); a version is read through at
-- most one slot, so 2 is enough; read_object has fuel for the copies of an object, and needs
-- more than their number; run has fuel for its attempts, since the source loops without bound.
--
-- A view of memory that is shorter than the type is undefined behaviour in the source, and a
-- panic in the model, with one exception: valid_page is a test that cannot panic, and reads the
-- bytes that a page shorter than an object header lacks as absent.
--
-- Not modelled: src/lib.rs (module declarations), MemorySource::offset and FileSource::offset
-- (nothing calls them), the printing, and the unit tests but the counter: basic only opens a
-- database, and switcharoo follows references into the memory of the root that it has read,
-- while the reads of the model give its bytes without their address. The threads of the counter
-- are interleaved transaction by transaction and not call by call: others run between a thread's
-- closure and its commit.
pub mod Prelude
pub mod Bits
pub mod Error
pub mod Usize
pub mod Utils
pub mod Source
pub mod Las
pub mod Vos
pub mod Tx
pub mod Engine
pub mod Typed
pub mod Example
pub mod Tests
