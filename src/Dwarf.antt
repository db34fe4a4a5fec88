-- ===== src/Dwarf.antt =====
-- crates/bilbo/src/dwarf.rs: from a program counter and a pointer to the type of the local that the
-- pointer aliases. What the crate gimli reads out of the debug info is a value of `Unit`.
pub mod Die
pub mod Leb
pub mod Sections
pub mod Locals
pub mod Index
pub mod Names
pub mod Layout
pub mod Classify
