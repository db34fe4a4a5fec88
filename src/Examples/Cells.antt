-- ===== src/Examples/Cells.antt =====
-- A list as a recursive type: its node holds a number and an optional box of the next node.
use bilbo.Base.{
  ℕ, suc, ◌+◌, ◌^◌, ◌<◌, ◌≡◌, refl, inl, inr, true, none, some, List, [], ◌∷◌, arith, ◌==◌,
  Bool-cases, bytes, ok,
}
use bilbo.Plan.{RecCell, Ty, no_fields, field, Cells, get_cell, cell_body, mentions}
use bilbo.Jit.Emit.Compile.{has, collect, collect_cells, function_of, Cranelift, compile_parser}
use bilbo.Jit.Emit.Compile.Reach.{Covers, IsClosed}
use bilbo.Jit.Emit.Compile.Ends.{unseen, HasBodies, AreSet, Ended, collect_cells-Ended}
use bilbo.Jit.Emit.Compile.Complete.{
  is_known, KnownCells, length_cells, numbered, Takes, Called, compile_parser_complete,
}

abbrev pub link : Ty
link = Ty.opt 0 8 0 none 0 8 (Ty.boxed (Ty.ref 0) 16 8)

abbrev pub node : Ty
node =
    Ty.struct (bytes "Node")
      (field (bytes "val") 0 (Ty.u 8) (field (bytes "next") 8 link no_fields))

abbrev pub nodes : Cells
nodes = (0, node) ∷ []

pub nodes-only : (id : RecCell) (body : Ty) → get_cell id nodes ≡ some body → node ≡ body
unfolding get_cell
nodes-only id body e = elim (Bool-cases (0 == id)) [
  | inl this ↦ cc (rw this at e)
  | inr other ↦ absurd (cc (rw other at e))
]

node-HasBodies : HasBodies nodes node
unfolding mentions get_cell
node-HasBodies id h = elim (Bool-cases (0 == id)) [
  | inl this ↦ (node, rw this refl)
  | inr other ↦ absurd (cc (rw other at h))
]

nodes-AreSet : AreSet nodes
nodes-AreSet id body e = rw (← nodes-only id body e) node-HasBodies

nodes-KnownCells : KnownCells nodes
unfolding is_known
nodes-KnownCells id body e = rw (← nodes-only id body e) refl

collect_cells-Ended_example : Ended nodes [] (collect_cells 2 nodes node [])
unfolding unseen
collect_cells-Ended_example =
    collect_cells-Ended 2 nodes node [] nodes-AreSet node-HasBodies (omega arith)

-- It takes everything.
abbrev pub crane : Cranelift
crane = record {
  declare_function = λ is_node n. true;
  define_function = λ n ty. true;
  finalize_definitions = true;
}

crane-Takes : (seq : ℕ) → Takes crane seq
crane-Takes seq = record {
  declares = λ is_node n low high. refl;
  defines = λ n ty low high known. refl;
  finalizes = refl;
}

nodes-found : collect_cells 2 nodes node [] ≡ ok (0 ∷ [])
unfolding collect_cells collect cell_body get_cell
nodes-found = refl

few_nodes :
    (found : List RecCell)
    → collect_cells 2 nodes node [] ≡ ok found
    → 7 + suc (length_cells found) < 2 ^ 32
few_nodes found e =
    let only : 0 ∷ [] ≡ found = cc (rw nodes-found at e) in rw (← only) (omega arith)

compile_parser_complete_example :
    (found : List RecCell) × (compile_parser crane 2 nodes node 7
      ≡ ok (numbered 7 found, suc (7 + length_cells found)))
    × Covers found node
    × ((id : RecCell) → has id found ≡ true → IsClosed nodes found id × Called 7 found id)
    × ((i j : RecCell) (n : ℕ)
        → function_of i (numbered 7 found) ≡ ok n
        → function_of j (numbered 7 found) ≡ ok n
        → i ≡ j)
unfolding unseen is_known
compile_parser_complete_example =
    compile_parser_complete crane nodes node 2 7 nodes-AreSet node-HasBodies nodes-KnownCells refl
      (omega arith) (crane-Takes 7) few_nodes
