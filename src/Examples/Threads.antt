-- ===== src/Examples/Threads.antt =====
-- resolve.rs: two threads that resolve one call site.
use bilbo.Base.{Option, some, none, ℕ, ◌<◌, ◌≡◌, ◌≢◌, refl, arith}
use bilbo.Plan.{mentions, mentions_cells}
use bilbo.Dwarf.Die.{
  attr, tag, origin, die_name, type_ref, udata, strip, first_with_tag, template_param, in_ranges,
  subprogram_in, subprogram_at,
}
use bilbo.Dwarf.Leb.{sleb_loop, sleb128}
use bilbo.Dwarf.Index.{Site, has_layout, is_stub, unit_at, redirect, lookup, def_site}
use bilbo.Dwarf.Locals.{
  relative, eval_addr, location_at, var_location, type_name, address, inspect, visit, scan_child,
  scan_children, scan, distinct, sole_maybe_uninit, frame_base_of, local_at_address,
}
use bilbo.Dwarf.Classify.{structure, body_of, classify_at, classify}
use bilbo.Dwarf.Classify.Memo.{recall, forget, enter, leave, base_ty, base_type}
use bilbo.Resolve.{Resolved, find_l1, find_l2, type_key, classified}
use bilbo.Resolve.Threads.{
  Pc, Shared, keyed, making, stored, walk, enter_l2, make, Call, done, panicked, miss, move,
  look_up, System, set, Step, pick, Reach, here, later, init,
}
use bilbo.Resolve.Threads.Safe.{Safe, Reach-Safe}
use bilbo.Resolve.Threads.Progress.{rank, total, Reach-ends}
use bilbo.Resolve.Threads.Done.{Works, Reach-done}
use bilbo.Examples.Resolve.{process, caller, word}

abbrev calls : ℕ → Call
calls i = record { site = 7; caller = caller; ptr = 976 }

-- Both have missed.
abbrev both_miss : System ℕ
both_miss = record {
  shared = (init {E = ℕ}).shared;
  pc = set (set (init {E = ℕ}).pc 1 miss) 0 miss;
}

both_miss-Reach : Reach process 2 calls init both_miss
unfolding move look_up find_l1
both_miss-Reach =
    later (later here (pick 1 (init {E = ℕ}).shared miss (omega arith) refl))
      (pick 0 (init {E = ℕ}).shared miss (omega arith) refl)

calls-Works : (i : ℕ) → Works ℕ process (calls i)
unfolding type_key classified mentions mentions_cells attr tag origin die_name type_ref udata strip
    first_with_tag template_param in_ranges subprogram_in subprogram_at sleb_loop sleb128 has_layout
    is_stub unit_at redirect lookup def_site relative eval_addr location_at var_location type_name
    address inspect visit scan_child scan_children scan distinct sole_maybe_uninit frame_base_of
    local_at_address structure body_of classify_at classify recall forget enter leave base_ty
    base_type
calls-Works i = record { key = (0, 2); finds = refl; made = word; takes = refl }

abbrev shared_of : Option (Shared ℕ × Pc ℕ) → Shared ℕ
shared_of (some x) = x.0
shared_of none = (init {E = ℕ}).shared

-- Thread 0 has taken `L2`, and then has put the type there.
abbrev with_l2 : Shared ℕ
with_l2 = shared_of (move process 0 (calls 0) (init {E = ℕ}).shared (keyed (0, 2)))

abbrev made : Shared ℕ
made = shared_of (move process 0 (calls 0) with_l2 (making (0, 2)))

abbrev one_stored : System ℕ
one_stored = record {
  shared = made;
  pc = set (set (set both_miss.pc 0 (keyed (0, 2))) 0 (making (0, 2))) 0 (stored (0, 2) word);
}

one_stored-Reach : Reach process 2 calls init one_stored
unfolding move walk enter_l2 make find_l2 type_key classified mentions mentions_cells attr tag
    origin die_name type_ref udata strip first_with_tag template_param in_ranges subprogram_in
    subprogram_at sleb_loop sleb128 has_layout is_stub unit_at redirect lookup def_site relative
    eval_addr location_at var_location type_name address inspect visit scan_child scan_children scan
    distinct sole_maybe_uninit frame_base_of local_at_address structure body_of classify_at classify
    recall forget enter leave base_ty base_type
one_stored-Reach =
    later
      (later
        (later both_miss-Reach (pick 0 (init {E = ℕ}).shared (keyed (0, 2)) (omega arith) refl))
        (pick 0 with_l2 (making (0, 2)) (omega arith) refl))
      (pick 0 made (stored (0, 2) word) (omega arith) refl)

Reach-Safe_example : Safe process one_stored 0
Reach-Safe_example = Reach-Safe process 2 calls one_stored 0 one_stored-Reach

Reach-ends_example :
    ((t : System ℕ) × Reach process 2 calls both_miss t × ((i : ℕ) → i < 2 → rank (t.pc i) ≡ 0))
    × ((t : System ℕ) → Step process 2 calls both_miss t → total 2 t.pc < total 2 both_miss.pc)
Reach-ends_example = Reach-ends process 2 calls both_miss both_miss-Reach

Reach-done_example :
    ((i : ℕ) → both_miss.pc i ≢ panicked)
    × ((t : System ℕ) × Reach process 2 calls both_miss t
        × ((i : ℕ) → i < 2 → (tk : Site) × ((r : Resolved ℕ) × (t.pc i ≡ done tk r))))
Reach-done_example = Reach-done process 2 calls calls-Works both_miss both_miss-Reach
