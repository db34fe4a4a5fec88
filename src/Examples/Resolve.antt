-- ===== src/Examples/Resolve.antt =====
-- resolve.rs on the frame of the example for dwarf.rs.
use bilbo.Base.{ℕ, ◌≡◌, refl, none, [], ◌∷◌, Outcome, ok}
use bilbo.Plan.{Ty, mentions, mentions_cells}
use bilbo.Dwarf.Die.{
  attr, tag, origin, die_name, type_ref, udata, strip, first_with_tag, template_param, in_ranges,
  subprogram_in, subprogram_at,
}
use bilbo.Dwarf.Leb.{sleb_loop, sleb128}
use bilbo.Dwarf.Index.{has_layout, is_stub, unit_at, redirect, lookup, def_site}
use bilbo.Dwarf.Locals.{
  linux_regs, relative, eval_addr, location_at, var_location, type_name, address, inspect, visit,
  scan_child, scan_children, scan, distinct, sole_maybe_uninit, frame_base_of, local_at_address,
}
use bilbo.Dwarf.Classify.{structure, body_of, classify_at, classify}
use bilbo.Dwarf.Classify.Memo.{recall, forget, enter, leave, base_ty, base_type}
use bilbo.Platform.{Caller}
use bilbo.Resolve.{
  Resolved, Caches, find_l1, find_l2, Process, type_key, classified, or_classify, resolved,
}
use bilbo.Resolve.Hits.{IsValid, bare, resolved-IsValid, resolved-again}
use bilbo.Examples.Dwarf.{frame}

abbrev pub process : Process
process = record {
  store = record { units = frame ∷ []; index = [] };
  ops = linux_regs;
  slide = 0;
  fuel = 10;
}

abbrev pub caller : Outcome Caller
caller = ok (record { static_pc = 150; caller_fp = 2000; caller_sp = 1000 })

abbrev pub cold : Caches ℕ
cold = record { l1 = []; l2 = [] }

abbrev pub word : Resolved ℕ
word = record { ty = Ty.u 8; cells = []; ext = none }

abbrev pub warm : Caches ℕ
warm = record { l1 = (7, (0, 2)) ∷ []; l2 = ((0, 2), word) ∷ [] }

pub cold-IsValid : IsValid process cold
unfolding find_l1 find_l2
cold-IsValid = ((λ pc tk h. cc), (λ tk r h. cc))

cold-resolved : resolved process 7 caller 976 cold ≡ ok ((0, 2), word, warm)
unfolding resolved find_l1 find_l2 type_key classified or_classify mentions mentions_cells attr tag
    origin die_name type_ref udata strip first_with_tag template_param in_ranges subprogram_in
    subprogram_at sleb_loop sleb128 has_layout is_stub unit_at redirect lookup def_site relative
    eval_addr location_at var_location type_name address inspect visit scan_child scan_children scan
    distinct sole_maybe_uninit frame_base_of local_at_address structure body_of classify_at classify
    recall forget enter leave base_ty base_type
cold-resolved = refl

resolved-IsValid_example : (classified process (0, 2) ≡ ok (bare word)) × IsValid process warm
resolved-IsValid_example =
    resolved-IsValid process 7 976 caller cold warm (0, 2) word cold-IsValid cold-resolved

resolved-again_example : resolved process 7 caller 0 warm ≡ ok ((0, 2), word, warm)
resolved-again_example =
    resolved-again process 7 976 0 caller caller cold warm (0, 2) word cold-resolved
