-- ===== src/Examples.antt =====
-- Concrete runs, at which the conditions of the theorems hold.
mod Json
mod Cells
mod Memory
mod Jit
mod Dwarf
mod Sections
mod Resolve
mod Jitdump
mod Threads
mod Leaves
mod Platform
mod Entry
mod JitParse
