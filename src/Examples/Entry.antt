-- ===== src/Examples/Entry.antt =====
-- crates/bilbo-json/src/lib.rs: `from_json` into the local `slot` of the example for dwarf.rs.
use bilbo.Base.{
  none, ℕ, true, ◌+◌, ◌*◌, ◌<◌, ◌≡◌, refl, [], ◌∷◌, ◌++◌, arith, length, bytes, Outcome, ok,
}
use bilbo.Dwarf.Die.{
  attr, tag, origin, die_name, type_ref, udata, strip, first_with_tag, template_param, in_ranges,
  subprogram_in, subprogram_at,
}
use bilbo.Dwarf.Leb.{sleb_loop, sleb128}
use bilbo.Dwarf.Index.{Site, has_layout, is_stub, unit_at, redirect, lookup, def_site}
use bilbo.Dwarf.Locals.{
  relative, eval_addr, location_at, var_location, type_name, address, inspect, visit, scan_child,
  scan_children, scan, distinct, sole_maybe_uninit, frame_base_of, local_at_address,
}
use bilbo.Dwarf.Classify.{structure, body_of, classify_at, classify}
use bilbo.Dwarf.Classify.Memo.{recall, forget, enter, leave, base_ty, base_type}
use bilbo.Plan.{Ty, get_cell, mentions, mentions_cells}
use bilbo.Json.Value.{Json, num, as_u128}
use bilbo.Json.Parser.{is_ascii_whitespace, is_number_byte}
use bilbo.Json.Print.{print, is_valid}
use bilbo.Machine.{Machine}
use bilbo.Machine.Bump.{bump}
use bilbo.Machine.Frame.{Kept}
use bilbo.Platform.Linux.{caller_pc, unwind, unwinder, load_bias, new_module, cb}
use bilbo.Resolve.{Resolved, resolved, find_l1, find_l2, type_key, classified, or_classify}
use bilbo.Platform.{add_u64, sub_u64, sec_range_data, slid}
use bilbo.Platform.Linux.Bias.{visit_objects}
use bilbo.Resolve.Hits.{IsValid}
use bilbo.Interp.Accepts.{accepts, accepts_at}
use bilbo.Interp.Value.{holds, is_separate, extent}
use bilbo.Interp.Value.Agree.{Used}
use bilbo.Entry.{Host, Session, interp_env, resolve, from_json}
use bilbo.Entry.FromJson.{from_json-Holds}
use bilbo.Examples.Json.{airy}
use bilbo.Examples.Memory.{no_floats, grants}
use bilbo.Examples.Platform.{os, raw, nothing, stack}
use bilbo.Examples.Resolve.{process}

abbrev pub host : Host
host = record {
  os = os;
  checked = true;
  process = process;
  std = bump;
  floats = no_floats;
  parse_fuel = 20;
  run_fuel = 2;
}

abbrev pub fresh : {E : Type 0} → Session E
fresh = record { memo = nothing; caches = record { l1 = []; l2 = [] } }

abbrev pub entry : {E : Type 0} → Resolved E
entry = record { ty = Ty.u 8; cells = []; ext = none }

pub fresh-IsValid : {E : Type 0} → IsValid process (fresh {E = E}).caches
unfolding find_l1 find_l2
fresh-IsValid = ((λ pc tk h. absurd (cc)), (λ tk r h. absurd (cc)))

-- The local is the eight bytes at 976.
abbrev pub before : Machine
before = record { mem = stack; live = (976, 8) ∷ (2000, 16) ∷ [] }

abbrev pub session_of : {E : Type 0} → Outcome (Site × Resolved E × Session E) → Session E
session_of (ok r) = r.2
session_of _ = fresh

abbrev document : Json
document = num (bytes "12")

slot-Used : Used before 976 8
slot-Used a h = ground arith

pub found :
    {E : Type 0}
    → resolve {E = E} host raw 976 fresh before
      ≡ ok ((0, 2), entry, session_of (resolve {E = E} host raw 976 fresh before))
unfolding resolve resolved find_l1 find_l2 type_key classified or_classify mentions mentions_cells
    attr tag origin die_name type_ref udata strip first_with_tag template_param in_ranges
    subprogram_in subprogram_at sleb_loop sleb128 has_layout is_stub unit_at redirect lookup
    def_site relative eval_addr location_at var_location type_name address inspect visit scan_child
    scan_children scan distinct sole_maybe_uninit frame_base_of local_at_address structure body_of
    classify_at classify recall forget enter leave base_ty base_type caller_pc unwind unwinder
    load_bias new_module sec_range_data slid add_u64 sub_u64 visit_objects cb
found = refl

short : 3 * length (print airy document) < 20 + 3
unfolding print
short = omega arith

accepted : accepts (interp_env host []) 2 (Ty.u 8) document ≡ true
unfolding accepts accepts_at as_u128
accepted = refl

from_json-Holds_example :
    (m : Machine) × (from_json host raw (bytes " " ++ (print airy document ++ [])) 976 fresh before
      ≡ ok (session_of (resolve {E = ℕ} host raw 976 fresh before), m))
    × holds (interp_env host []) 2 m.mem 976 (Ty.u 8) document
    × Kept 976 8 before m
    × IsValid process (session_of (resolve {E = ℕ} host raw 976 fresh before)).caches
unfolding is_valid is_separate extent get_cell is_ascii_whitespace is_number_byte
from_json-Holds_example =
    from_json-Holds host raw 976 8 fresh (session_of (resolve {E = ℕ} host raw 976 fresh before))
      before (0, 2) entry airy document [] (λ id. 0) fresh-IsValid found refl refl refl short grants
      accepted (λ id ty e. absurd (cc)) refl (omega arith) slot-Used
