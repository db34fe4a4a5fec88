-- ===== src/Examples/Dwarf.antt =====
-- dwarf.rs on a small frame: a subprogram with a variable `slot` of type `MaybeUninit<u64>`.
use bilbo.Base.{◌≡◌, refl, ◌==◌, if◌then◌else◌, Option, none, some, [], ◌∷◌, bytes, ok}
use bilbo.Dwarf.Die.{Off, Tag, At, Value, Entry, DwarfUnit, attr, tag, origin, die_name, type_ref}
use bilbo.Dwarf.Leb.{sleb_loop, sleb128}
use bilbo.Dwarf.Locals.{
  linux_regs, Regs, Fact, relative, eval_addr, location_at, var_location, type_name, address,
  inspect, frame_base_of, local_at_address,
}
use bilbo.Dwarf.Locals.Survey.{facts_child, facts_children, facts}
use bilbo.Dwarf.Locals.Best.{best, local_at_address-best}

abbrev frame_attr : At → Option Value
frame_attr At.frame_base = some (Value.exprloc (0x9c ∷ []))
frame_attr _ = none

-- `fbreg -24`.
abbrev slot_attr : At → Option Value
slot_attr At.name = some (Value.string (bytes "slot"))
slot_attr At.type_of = some (Value.unit_ref 2)
slot_attr At.location = some (Value.exprloc (0x91 ∷ 0x68 ∷ []))
slot_attr _ = none

abbrev type_attr : At → Option Value
type_attr At.name = some (Value.string (bytes "MaybeUninit<u64>"))
type_attr _ = none

abbrev param_attr : At → Option Value
param_attr At.type_of = some (Value.unit_ref 4)
param_attr _ = none

abbrev word_attr : At → Option Value
word_attr At.name = some (Value.string (bytes "u64"))
word_attr At.byte_size = some (Value.udata_value 8)
word_attr At.encoding = some (Value.encoding 7)
word_attr _ = none

abbrev entry_of : Tag → (At → Option Value) → Option Entry
entry_of t a = some (record { tag = t; attr_value = a; udata_at = λ _. none })

abbrev frame_entry : Off → Option Entry
frame_entry off =
    if off == 0
    then entry_of Tag.subprogram frame_attr
    else if off == 1
    then entry_of Tag.variable slot_attr
    else if off == 2
    then entry_of Tag.structure_type type_attr
    else if off == 3
    then entry_of Tag.template_type_parameter param_attr
    else entry_of Tag.base_type word_attr

abbrev pub frame : DwarfUnit
frame = record {
  entry = frame_entry;
  children = λ off. if off == 0 then 1 ∷ [] else if off == 2 then 3 ∷ [] else [];
  entries = (0, 0) ∷ (1, 1) ∷ (2, 0) ∷ (3, 1) ∷ (4, 0) ∷ [];
  die_ranges = λ off. if off == 0 then (100, 200) ∷ [] else [];
}

abbrev slot : Fact
slot = record {
  name = bytes "slot";
  ty = some 2;
  tn = bytes "MaybeUninit<u64>";
  expr = some (0x91 ∷ 0x68 ∷ []);
  addr = some 976;
}

abbrev frame_regs : Regs
frame_regs = record { fp = 2000; sp = 1000; frame_base = 1000 }

frame_base-sp : frame_base_of linux_regs 2000 1000 (0x9c ∷ []) ≡ ok (some 1000)
unfolding frame_base_of
frame_base-sp = refl

frame-attr : attr frame 0 At.frame_base ≡ some (Value.exprloc (0x9c ∷ []))
unfolding attr
frame-attr = refl

frame-facts : facts linux_regs frame 5 frame_regs 0 976 33 0 ≡ ok (slot ∷ [])
unfolding facts facts_children facts_child inspect tag die_name type_ref origin attr type_name
    address var_location location_at eval_addr relative sleb128 sleb_loop
frame-facts = refl

local_at_address-best_example :
    local_at_address linux_regs frame 5 0 2000 1000 0 976 ≡ ok (best 976 (slot ∷ []))
local_at_address-best_example =
    local_at_address-best linux_regs frame 5 0 2000 1000 0 976 1000 (0x9c ∷ []) (slot ∷ [])
      frame-attr frame_base-sp frame-facts

-- Vectors of the unit tests of dwarf.rs: -24, 128 and -128, the first with bytes behind it.
sleb128-vectors :
    (sleb128 (0x68 ∷ 0x9c ∷ 0xde ∷ []) ≡ ok (18446744073709551592, 1))
    × (sleb128 (0x80 ∷ 0x01 ∷ []) ≡ ok (128, 2))
    × (sleb128 (0x80 ∷ 0x7f ∷ []) ≡ ok (18446744073709551488, 2))
unfolding sleb128 sleb_loop
sleb128-vectors = (refl, refl, refl)
