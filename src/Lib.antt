-- ===== src/Lib.antt =====
-- bilbo reads JSON into a Rust value through a bare pointer. From the frame of the caller and the
-- program's own DWARF it learns which local variable the pointer aliases and how that variable's type
-- is laid out (crates/bilbo), and then it writes the bytes, by an interpreter or by machine code made
-- for the type (crates/bilbo-json).
--
-- Json: crates/bilbo-json/src/json.rs. Json.Value is `enum Json` with its accessors; the two vectors
-- inside it are the types `Items` and `Members`. Json.Parser is the recursive descent. A cursor
-- `(b, i)` is the text from `i` on, and a byte is a number below 256. Each call of `parse_value`,
-- `parse_object` and `parse_array` and each round of their loops costs a unit of fuel; three times the
-- length of a printed value is enough. Json.Utf8 is the test of `String::from_utf8`, and Json.Print
-- writes a `Json` as text, for the round trip.
--
-- Jit: crates/bilbo-json/src/jit.rs. Jit.Shims and Jit.Unescape are the runtime shims (`rt_ws`,
-- `rt_wsskip`, `rt_skip`, `rt_strscan`, `rt_unescape`); a flag stands where the code steps over two
-- bytes at once, and the depth of brackets is the 32 bits of an `i32`. Where the source adds on 32 bits
-- (the depth, the offset of `memset0`, the counter of functions) the model wraps, as the release profile does. A
-- cursor behind the end of the input is the empty text. The
-- crate memchr is a parameter, a record of its search and two equations that say what it finds. The
-- emitters produce machine code; the model is what that code computes when it runs: Jit.Scan (`ws`,
-- `strspan`, `build_str`), Jit.Number (`intval`, on 64-bit words), Jit.Keys (`keyeq` and the choice of
-- a field in `parse_struct`), Jit.Memory (`emit_copy`, `memset0` and the stores, over bytes at
-- addresses). A load at or behind the end of the input is the outcome `fault`. Jit.Emit is `Emit::parse`
-- with `parse_struct`, `parse_tuple`, `parse_vec` and `parse_map`, one unit of fuel for each level of the
-- type and for each round of a loop; Jit.Emit.Alloc has the shims `rt_alloc`, `rt_box_alloc`,
-- `rt_realloc` and `rt_f64v`, and the record of what the code is given: the allocator, the crates, the
-- stack slots and the trampolines. An offset is cut to an `i32` where the source casts it; a string with
-- escapes gets a buffer as long as its body, which shrinks to the decoded text. Jit.Emit.Leaves sets both backends side by side on
-- leaves. Jit.Emit.Compile is `collect_cells` and `compile_parser`, one unit of
-- fuel for each body of a recursive type; whether Cranelift takes a function is a parameter.
--
-- Interp: crates/bilbo-json/src/interp.rs, `run` on one unit of fuel for each level of the type. Machine is
-- the memory that both backends write to: bytes at addresses, the blocks in use, and the allocator of the
-- standard library as a parameter that puts no block over another. Plan.Fits says when the values of a
-- type fit in so many bytes. Interp.Value says what memory holds for a document and a type, and when the
-- parts of a type do not overlap; Interp.Ends counts the levels that `run` goes down; Interp.Accepts is the
-- test of which documents it takes.
--
-- The data of crates/bilbo/src/plan.rs has the module of that name. A `RecCell` is a
-- number, and the cells that are set are a store.
--
-- Dwarf: crates/bilbo/src/dwarf.rs. What the crate gimli reads is a value of `DwarfUnit`: entries by
-- offset, their children, the order of the depth-first walk. Dwarf.Die has the helpers over entries,
-- `subprogram_at` and `strip`; Dwarf.Leb is `sleb128`; Dwarf.Locals is `local_at_address`, with the
-- struct `Hunt` as explicit state; Dwarf.Index is the index of complete definitions; Dwarf.Names is
-- `norm_ty` and `resolve_tramp`; Dwarf.Layout is `seq_layout`; Dwarf.Sections is
-- `store`, with object and gimli as parameters; Dwarf.Classify is `classify`, where the
-- thread-local `MEMO` and the cells are a state that is passed along. Chains of references and the
-- recursion of `classify` run on fuel; the recursions with a depth limit in the source run on the
-- levels that are left.
--
-- Resolve: crates/bilbo/src/resolve.rs, `resolved` with its two caches, from the call site to the `Ty`.
-- The maps are association lists. Resolve.Threads runs it in several threads: the owner of each mutex and
-- whether it is poisoned are state, and a step is one thread's move from one lock to the next. The walk and
-- `classify` are taken to return there.
--
-- Platform: crates/bilbo/src/platform. Platform.Linux is linux.rs and Platform.Darwin is darwin.rs: the call site
-- read from the frame record, the unwinding of one frame, the module that the unwinder is made with, the
-- slide, and where the debug info is. What is made once is state that is passed along. Entry has the entry
-- points of the two crates on Linux: `resolve`, `from_json`, and in Entry.JitParse `from_json_jit_parse`, where
-- the parser that is kept with a type is a record of what was compiled.
--
-- Jitdump: crates/bilbo-json/src/jitdump.rs, the file that names the compiled code, as bytes; Jitdump.Read
-- is a reader of the format, one step for each record.
--
-- Base has the names that every module uses and `Outcome`: a result, a Rust panic, undefined behaviour
-- (`fault`), or fuel that ran out. Examples runs the theorems at concrete inputs.
--
-- Not modelled: the assembly that reads the registers and the crates framehop, object and memmap2
-- (parameters of Platform), the trampolines (crates/bilbo-json/src/tramp.rs), the set-up of cranelift in
-- jit.rs, the values of floating-point numbers, log messages, the demonstration and the benches.
pub mod Base
pub mod Json
pub mod Plan
pub mod Machine
pub mod Jit
pub mod Interp
pub mod Dwarf
pub mod Platform
pub mod Resolve
pub mod Jitdump
pub mod Entry
pub mod Examples
