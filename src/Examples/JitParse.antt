-- ===== src/Examples/JitParse.antt =====
-- crates/bilbo-json/src/lib.rs: `from_json_jit_parse` into the local `slot` of the example for dwarf.rs.
use bilbo.Base.{ℕ, bytes, Outcome, ok}
use bilbo.Machine.{Machine}
use bilbo.Machine.Frame.{Kept}
use bilbo.Entry.{Session}
use bilbo.Entry.JitParse.{Parser, from_json_jit_parse}
use bilbo.Examples.Platform.{raw}
use bilbo.Examples.Cells.{crane}
use bilbo.Examples.Memory.{jit_env}
use bilbo.Examples.Entry.{host, before, fresh}

abbrev end_of : Outcome (Session Parser × ℕ × Machine) → Session Parser × ℕ × Machine
end_of (ok r) = r
end_of _ = (fresh, 0, before)

abbrev whole : Outcome (Session Parser × ℕ × Machine)
whole = from_json_jit_parse host jit_env crane raw (bytes "12 ") 976 fresh 0 before
