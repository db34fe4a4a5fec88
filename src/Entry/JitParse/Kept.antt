-- ===== src/Entry/JitParse/Kept.antt =====
-- crates/bilbo-json/src/lib.rs: what `from_json_jit_parse` writes, and the parsers that the caches keep.
use bilbo.Base.{ℕ, ◌≡◌, Option, some}
use bilbo.Dwarf.Index.{Site}
use bilbo.Machine.{Machine}
use bilbo.Resolve.{Resolved, Caches, find_l2}
use bilbo.Entry.JitParse.{Parser}

-- A kept parser is one for the entry's type.
abbrev pub IsOwn : Resolved Parser → Type 0
IsOwn r = (e : ℕ × Parser) → r.ext ≡ some e → (e.1.ty ≡ r.ty) × (e.1.cells ≡ r.cells)

abbrev pub OwnParsers : Caches Parser → Type 0
OwnParsers s = (tk : Site) (r : Resolved Parser) → find_l2 tk s.l2 ≡ some r → IsOwn r

abbrev Own : Resolved Parser → Parser → Type 0
Own r f = (f.ty ≡ r.ty) × (f.cells ≡ r.cells)

abbrev with_ext : Resolved Parser → Option (ℕ × Parser) → Resolved Parser
with_ext r x = record { ty = r.ty; cells = r.cells; ext = x }
