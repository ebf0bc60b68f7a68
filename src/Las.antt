-- ===== src/Las.antt =====
-- src/las.rs: the logical address space, which places the sources one after another and translates
-- logical slices to bytes.
pub mod Slice
pub mod Table
pub mod Meta
pub mod MutRef
pub mod Space
pub mod Open
