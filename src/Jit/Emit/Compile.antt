-- ===== src/Jit/Emit/Compile.antt =====
-- jit.rs: `compile_parser` and `collect_cells`. Each recursive type gets a function of its own, and a
-- `Ty::Ref` becomes a call of it. What the functions do is `Jit.Emit.parse`.
pub mod Complete
pub mod Ends
pub mod Reach
use bilbo.Base.{
  ℕ, zero, suc, ◌+◌, ◌%◌, ◌^◌, Bool, true, false, ◌||◌, Option, none, some, List, [], ◌∷◌, ◌++◌,
  ◌==◌, if◌then◌else◌, Outcome, ok, panic, out_of_fuel, ◌>>=◌, ◌>>◌,
}
use bilbo.Plan.{RecCell, Ty, Fields, no_fields, field, Cells, cell_body}

abbrev pub has : RecCell → List RecCell → Bool
has id [] = false
has id (c ∷ out) = c == id || has id out

-- The walk over a type; `enter` goes on into the body of a cell that has not been seen. `seen` and
-- `out` hold the same cells.
unfoldable mutual
  pub collect :
      (RecCell → List RecCell → Outcome (List RecCell)) → Ty → List RecCell → Outcome (List RecCell)
  collect enter (Ty.ref cell) out = if has cell out then ok out else enter cell (out ++ cell ∷ [])
  collect enter (Ty.struct name fs) out = collect_fields enter fs out
  collect enter (Ty.tuple fs) out = collect_fields enter fs out
  collect enter (Ty.vec elem size align seq) out = collect enter elem out
  collect enter (Ty.boxed inner size align) out = collect enter inner out
  collect enter (Ty.opt disc_off disc_size none_discr some_discr payload_off size inner) out =
      collect enter inner out
  collect enter (Ty.map key key_size val val_size new_at insert) out =
      collect enter key out >>= λ out'. collect enter val out'
  collect enter _ out = ok out

  pub collect_fields :
      (RecCell → List RecCell → Outcome (List RecCell))
      → Fields
      → List RecCell
      → Outcome (List RecCell)
  collect_fields enter no_fields out = ok out
  collect_fields enter (field name offset ty fs) out =
      collect enter ty out >>= λ out'. collect_fields enter fs out'

unfoldable pub collect_cells : (fuel : ℕ) → Cells → Ty → List RecCell → Outcome (List RecCell)
collect_cells zero cells ty out = out_of_fuel
collect_cells (suc fuel) cells ty out =
    collect (λ id seen. cell_body id cells >>= λ body. collect_cells fuel cells body seen) ty out

-- `HashMap::index`: the number of a cell's function.
unfoldable pub function_of : RecCell → List (RecCell × ℕ) → Outcome ℕ
function_of id [] = panic
function_of id ((k, n) ∷ recs) = if k == id then ok n else function_of id recs

-- What can go wrong while `parse` emits the code of a type: an unknown type, and a cell without a
-- function.
unfoldable mutual
  pub emit : List (RecCell × ℕ) → Ty → Outcome (Unit {0})
  emit recs (Ty.ref cell) = function_of cell recs >>= λ n. ok tt
  emit recs (Ty.unknown what) = panic
  emit recs (Ty.struct name fs) = emit_fields recs fs
  emit recs (Ty.tuple fs) = emit_fields recs fs
  emit recs (Ty.vec elem size align seq) = emit recs elem
  emit recs (Ty.boxed inner size align) = emit recs inner
  emit recs (Ty.opt disc_off disc_size none_discr some_discr payload_off size inner) =
      emit recs inner
  emit recs (Ty.map key key_size val val_size new_at insert) = emit recs key >> emit recs val
  emit recs _ = ok tt

  pub emit_fields : List (RecCell × ℕ) → Fields → Outcome (Unit {0})
  emit_fields recs no_fields = ok tt
  emit_fields recs (field name offset ty fs) = emit recs ty >> emit_fields recs fs

-- The module of the crate cranelift-jit: whether it takes the declaration of a function by its name, which
-- is `parse_rec_{n}` or `parse_{n}`, the code of a function, and the end of the definitions.
pub record Cranelift : Type 0 where
  pub declare_function : (is_node : Bool) → (number : ℕ) → Bool
  pub define_function : (number : ℕ) → Ty → Bool
  pub finalize_definitions : Bool

-- `Result::unwrap`.
unfoldable pub unwrap : Bool → Outcome (Unit {0})
unwrap true = ok tt
unwrap false = panic

-- `self.seq += 1`, on a `u32`. The overflow is not checked, as in the release profile.
unfoldable pub next_seq : ℕ → ℕ
next_seq seq = (seq + 1) % 2 ^ 32

-- `parse_rec_{n}`, with `n` from the counter `seq` of the module: the functions, and the counter.
unfoldable pub declare_cells :
    Cranelift → (seq : ℕ) → List RecCell → Outcome (List (RecCell × ℕ) × ℕ)
unfolding unwrap next_seq
declare_cells crane seq [] = ok ([], seq)
declare_cells crane seq (c ∷ cells) = do
  unwrap (crane.declare_function true (next_seq seq))
  (recs, seq') ← declare_cells crane (next_seq seq) cells
  ok ((c, next_seq seq) ∷ recs, seq')

-- The code of a type is emitted, and taken as that of a function.
unfoldable pub define : Cranelift → List (RecCell × ℕ) → (number : ℕ) → Ty → Outcome (Unit {0})
unfolding unwrap
define crane recs number ty = do emit recs ty; unwrap (crane.define_function number ty)

unfoldable pub define_cells :
    Cranelift → Cells → (recs todo : List (RecCell × ℕ)) → Outcome (Unit {0})
unfolding define
define_cells crane cells recs [] = ok tt
define_cells crane cells recs ((c, n) ∷ todo) =
    (cell_body c cells >>= λ body. define crane recs n body) >> define_cells crane cells recs todo

-- The functions of the cells, and the number of the parser itself, which is the counter's new value.
unfoldable pub compile_parser :
    Cranelift → (fuel : ℕ) → Cells → Ty → (seq : ℕ) → Outcome (List (RecCell × ℕ) × ℕ)
unfolding declare_cells define_cells define unwrap next_seq
compile_parser crane fuel cells ty seq = do
  found ← collect_cells fuel cells ty []
  (recs, seq') ← declare_cells crane seq found
  define_cells crane cells recs recs
  unwrap (crane.declare_function false (next_seq seq'))
  define crane recs (next_seq seq') ty
  unwrap crane.finalize_definitions
  ok (recs, next_seq seq')
