-- ===== src/Entry/JitParse.antt =====
-- crates/bilbo-json/src/lib.rs: `from_json_jit_parse`, on Linux. The parser that is compiled for a type is kept
-- in the shared entry of the type: a key stands for the entry.
pub mod Kept
use bilbo.Base.{
  ℕ, ◌+◌, true, false, Option, none, some, List, [], ◌∷◌, if◌then◌else◌, Outcome, ok, panic, ◌>>=◌,
}
use bilbo.Json.Value.{Text}
use bilbo.Plan.{RecCell, Ty, Cells}
use bilbo.Dwarf.Index.{Site}
use bilbo.Dwarf.Classify.Memo.{same_site}
use bilbo.Machine.{Machine}
use bilbo.Platform.Linux.{Raw}
use bilbo.Resolve.{Resolved, Caches, ext_of}
use bilbo.Jit.Emit.Alloc.{JitEnv}
use bilbo.Jit.Emit.{parse}
use bilbo.Jit.Emit.Compile.{Cranelift, compile_parser}
use bilbo.Entry.{Host, Session, resolve}

-- What has been compiled: the type and its cells, the functions of the cells, and the parser's own number.
pub record Parser : Type 0 where
  pub ty : Ty
  pub cells : Cells
  pub recs : List (RecCell × ℕ)
  pub number : ℕ

-- The number that `TypeId` gives `Parser`.
abbrev pub parser_type : ℕ
parser_type = 1

-- The artifact of a shared entry is set.
unfoldable pub set_ext {ℓ} :
    {E : Type ℓ} → Site → Option (ℕ × E) → List (Site × Resolved E) → List (Site × Resolved E)
set_ext tk x [] = []
set_ext tk x ((k, r) ∷ l2) =
    if same_site k tk
    then (k, record { ty = r.ty; cells = r.cells; ext = x }) ∷ l2
    else (k, r) ∷ set_ext tk x l2

-- What the surroundings give the code, and the cells of its type.
abbrev pub with_cells : JitEnv → Cells → JitEnv
with_cells jit cells = record {
  std = jit.std;
  crate = jit.crate;
  floats = jit.floats;
  cells = cells;
  slot = jit.slot;
  map_new = jit.map_new;
  map_insert = jit.map_insert;
}

-- `jit::compile_parser`, with the thread's counter of functions.
unfoldable pub new_parser : Cranelift → (fuel : ℕ) → Cells → Ty → (seq : ℕ) → Outcome (Parser × ℕ)
unfolding compile_parser
new_parser crane fuel cells ty seq = do
  (recs, number) ← compile_parser crane fuel cells ty seq
  ok (record { ty = ty; cells = cells; recs = recs; number = number }, number)

-- `r.ext(jit::compile_parser)`: it compiles where nothing is kept.
unfoldable pub jit_parser :
    Cranelift → (fuel : ℕ) → Resolved Parser → (seq : ℕ) → Outcome (Parser × Resolved Parser × ℕ)
unfolding new_parser ext_of
jit_parser crane fuel r seq = elim r.ext [
  | some e ↦ do (f, r') ← ext_of parser_type (λ ty. e.1) r; ok (f, r', seq)
  | none ↦ do
    (made, seq') ← new_parser crane fuel r.cells r.ty seq
    (f, r') ← ext_of parser_type (λ ty. made) r
    ok (f, r', seq')
]

module _ (host : Host) (jit : JitEnv) (crane : Cranelift) where
  unfoldable pub from_json_jit_parse :
      Raw
      → Text
      → (ptr : ℕ) → Session Parser
      → (seq : ℕ) → Machine
      → Outcome (Session Parser × ℕ × Machine)
  unfolding resolve jit_parser set_ext parse
  from_json_jit_parse raw s ptr ses seq m = do
    (tk, r, ses') ← resolve host raw ptr ses m
    (f, r', seq') ← jit_parser crane host.run_fuel r seq
    (cur, m') ← parse (with_cells jit f.cells) host.run_fuel f.ty ptr s m
    ok (
      record {
        memo = ses'.memo;
        caches = record { l1 = ses'.caches.l1; l2 = set_ext tk r'.ext ses'.caches.l2 };
      },
      seq',
      m',
    )
