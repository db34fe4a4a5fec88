-- ===== src/Examples/Memory.antt =====
-- Both backends on a list of two nodes, with an allocator that never reuses an address.
use bilbo.Base.{Ends, ℕ, zero, suc, ◌≡◌, refl, inl, none, [], ◌∷◌, ◌++◌, arith, bytes, Outcome, ok}
use bilbo.Json.Value.{get, as_u128, Text, Json, num, null, object, no_members, member}
use bilbo.Plan.{RecCell, get_cell, cell_body}
use bilbo.Plan.Fits.{fits, FitCells}
use bilbo.Machine.{Machine, Floats, alloc, is_doubling}
use bilbo.Interp.Accepts.{is_ok, Roomy, accepts}
use bilbo.Interp.Accepts.Run.{run-accepts}
use bilbo.Machine.Frame.{Kept, Kept-refl}
use bilbo.Machine.Bump.{bump, behind}
use bilbo.Interp.{Env, run, run_fields, write_le, box_alloc, write_discr}
use bilbo.Jit.Memory.{store_width, store_sized, store_imm, memset0}
use bilbo.Jit.Scan.{ws, strspan}
use bilbo.Jit.Keys.{dispatch, narrow, chain, fast_eq, word_eq}
use bilbo.Jit.Number.{intval, digits_loop}
use bilbo.Interp.Parts.{exact}
use bilbo.Interp.Frame.{run-Kept}
use bilbo.Interp.Value.{is_separate, extent, apart_fields, SeparateCells, holds}
use bilbo.Interp.Value.Agree.{Used}
use bilbo.Interp.Value.Run.{run-Holds}
use bilbo.Interp.Ends.{levels, is_shallow, depth, GuardedCells}
use bilbo.Interp.Ends.Fuel.{run-Ends}
use bilbo.Jit.Emit.{
  Vec, parse, with_room, grow, parse_struct, struct_loop, struct_entry, parse_field, past_comma,
  parse_opt, set_none, default_fields,
}
use bilbo.Jit.Emit.Alloc.{JitEnv, rt_box_alloc, rt_realloc}
use bilbo.Jit.Emit.Parts.{words}
use bilbo.Jit.Emit.Frame.{parse-Kept}
use bilbo.Jit.Emit.Grow.{Owned, HasRoom, with_room-Owned}
use bilbo.Examples.Jit.{crate}
use bilbo.Examples.Cells.{node, nodes, nodes-only}

abbrev pub no_floats : Floats
no_floats = record { parse_f64 = λ s. none; parse_partial = λ s. none; to_f32 = λ n. n }

abbrev env : Env
env = record { std = bump; floats = no_floats; cells = nodes }

abbrev pub jit_env : JitEnv
jit_env = record {
  std = bump;
  crate = crate;
  floats = no_floats;
  cells = nodes;
  slot = λ n m. (0, m);
  map_new = λ f dst m. ok m;
  map_insert = λ f dst k v m. ok m;
}

-- The 16 bytes at 0 are the destination.
abbrev pub start : Machine
start = record { mem = λ a. 7; live = (0, 64) ∷ [] }

abbrev sizes : RecCell → ℕ
sizes id = 16

abbrev value : Json
value = object (
    member (bytes "val") (num (bytes "1")) (
      member (bytes "next")
        (object (member (bytes "val") (num (bytes "2")) (member (bytes "next") null no_members)))
        no_members))

nodes-fit : FitCells exact sizes nodes
unfolding fits
nodes-fit id body e = rw (← nodes-only id body e) refl

nodes-fit_words : FitCells words sizes nodes
unfolding fits store_width
nodes-fit_words id body e = rw (← nodes-only id body e) refl

abbrev or_start : Outcome Machine → Machine
or_start (ok m) = m
or_start _ = start

run-Kept_example : Kept 0 16 start (or_start (run env 9 0 node value start))
unfolding fits run run_fields get as_u128 write_le box_alloc alloc behind cell_body get_cell
    write_discr
run-Kept_example = run-Kept env sizes nodes-fit 9 0 16 node value start _ refl refl

nodes-separate : SeparateCells sizes nodes
unfolding is_separate extent apart_fields
nodes-separate id body e = rw (← nodes-only id body e) (refl, omega arith)

start-Used : Used start 0 16
start-Used a h = ground arith

run-Holds_example : holds env 9 (or_start (run env 9 0 node value start)).mem 0 node value
unfolding is_separate extent apart_fields run run_fields get as_u128 write_le box_alloc alloc behind
    cell_body get_cell write_discr
run-Holds_example =
    run-Holds env sizes nodes-separate 9 0 16 node value start
      (or_start (run env 9 0 node value start)) (or_start (run env 9 0 node value start)).mem refl
      (omega arith) start-Used refl (record { there = λ a h. refl; new = λ a h k. refl })

-- A key and what follows its colon.
abbrev quoted : Text → Text → Text
quoted key more = b'"' ∷ (key ++ b'"' ∷ b':' ∷ more)

abbrev text : Text
text =
    bytes "{"
    ++ quoted (bytes "val") (
        bytes "1,"
        ++ quoted (bytes "next") (
            bytes "{"
            ++ quoted (bytes "val") (bytes "2," ++ quoted (bytes "next") (bytes "null}}"))))

-- The cursor and the memory after a parse.
abbrev parsed : Outcome (Text × Machine) → Text × Machine
parsed (ok r) = r
parsed _ = ([], start)

parse-Kept_example : Kept 0 16 start (parsed (parse jit_env 20 node 0 text start)).1
unfolding fits parse store_width parse_struct struct_loop ws struct_entry strspan dispatch narrow
    chain fast_eq word_eq parse_field intval past_comma digits_loop parse_opt rt_box_alloc alloc
    behind cell_body get_cell set_none default_fields store_sized store_imm memset0
parse-Kept_example =
    parse-Kept jit_env sizes nodes-fit_words 20 0 16 node text
      (parsed (parse jit_env 20 node 0 text start)).0 start _ refl (omega arith) refl

abbrev empty : Vec
empty = record { base = 8; cap = 0; len = 0 }

empty-Owned : Owned start 8 empty start
empty-Owned = record {
  kept = Kept-refl 0 0 start;
  apart = λ a h. ground arith;
  exact = omega arith;
  room = inl (omega arith);
}

abbrev grown : Outcome (Vec × Machine) → Vec × Machine
grown (ok r) = r
grown _ = (empty, start)

with_room-Owned_example :
    Owned start 8
      (grown (with_room jit_env 8 8 empty start)).0
      (grown (with_room jit_env 8 8 empty start)).1
    × HasRoom 8 (grown (with_room jit_env 8 8 empty start)).0
unfolding with_room grow rt_realloc alloc behind
with_room-Owned_example =
    with_room-Owned jit_env start 8 8 empty _ start _ (omega arith) empty-Owned refl

nodes-guarded : GuardedCells 2 5 nodes
unfolding levels is_shallow
nodes-guarded id body e = rw (← nodes-only id body e) (omega arith, refl)

run-Ends_example : Ends (run env 12 0 node value start)
unfolding levels is_shallow depth
run-Ends_example = run-Ends env 2 5 nodes-guarded 12 0 node value start refl (omega arith)

pub grants : Roomy bump
unfolding behind is_doubling
grants live size zero power = absurd (cc)
grants live size (suc a) power = λ e. absurd (omega arith)

run-accepts_example : is_ok (run env 9 0 node value start) ≡ accepts env 9 node value
run-accepts_example = run-accepts env grants 9 0 node value start
