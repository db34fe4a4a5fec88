-- ===== src/Jit.antt =====
-- crates/bilbo-json/src/jit.rs: the cranelift backend. The runtime shims are modelled as they are
-- written; of the code that the emitters produce, the model is what it computes when it runs.
-- A cursor is the text between it and `end`. A load at or past `end` is a `fault`.
pub mod Shims
pub mod Memory
pub mod Skip
pub mod Keys
pub mod Number
pub mod Unescape
pub mod Scan
pub mod Strings
pub mod Emit
