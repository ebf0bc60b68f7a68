-- ===== src/Vos.antt =====
-- src/vos.rs: versioned objects in the logical address space. A `&UntypedPointer` or a `&Version` is
-- a place: a word of the address space, or a local copy.
pub mod Pointer
pub mod Place
pub mod Version
pub mod Object
pub mod Alloc
pub mod Reader
pub mod Store
