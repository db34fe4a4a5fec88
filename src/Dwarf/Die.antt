-- ===== src/Dwarf/Die.antt =====
-- dwarf.rs: the low-level DIE helpers, `subprogram_at`, `strip`. The crate gimli is a parameter: a
-- `DwarfUnit` holds what its calls return. A chain of references costs a unit of fuel for each step.
use bilbo.Base.{
  ℕ, zero, suc, Bool, true, false, ◌&&◌, Option, none, some, List, [], ◌∷◌, leb, ltb, if◌then◌else◌,
  same, Outcome, ok, panic, out_of_fuel, ◌>>=◌,
}
use bilbo.Json.Value.{Text}

abbrev pub Off : Type 0
Off = ℕ

pub data Tag : Type 0 where
  base_type pointer_type structure_type union_type enumeration_type : Tag
  typedef const_type volatile_type restrict_type : Tag
  member variant_part variant template_type_parameter : Tag
  subprogram lexical_block inlined_subroutine variable formal_parameter : Tag
  other : Tag

pub data At : Type 0 where
  name type_of byte_size alignment encoding declaration data_member_location : At
  discr discr_value abstract_origin specification location frame_base low_pc : At

-- `gimli::AttributeValue`; `sdata_value` holds the 64-bit pattern, and `locations` what `attr_locations`
-- makes of a location list: ranges with their expressions.
pub data Value : Type 0 where
  unit_ref : Off → Value
  udata_value sdata_value addr encoding : ℕ → Value
  flag : Bool → Value
  exprloc : Text → Value
  string : Text → Value
  locations : List (ℕ × ℕ × Text) → Value
  other : Value

-- An entry: its tag, its attributes, and their `udata_value`s.
pub record Entry : Type 0 where
  pub tag : Tag
  pub attr_value : At → Option Value
  pub udata_at : At → Option ℕ

-- The entries of a compilation unit: by offset, as a tree, in depth-first order with their depths,
-- and with their ranges of machine code.
pub record DwarfUnit : Type 0 where
  pub entry : Off → Option Entry
  pub children : Off → List Off
  pub entries : List (Off × ℕ)
  pub die_ranges : Off → List (ℕ × ℕ)

abbrev pub as_unit_ref : Option Value → Option Off
as_unit_ref (some (Value.unit_ref o)) = some o
as_unit_ref _ = none

-- `dwarf.attr_string(unit, attr).ok()`.
abbrev pub attr_string : Value → Option Text
attr_string (Value.string s) = some s
attr_string _ = none

abbrev pub as_udata : Option Value → Option ℕ
as_udata (some (Value.udata_value n)) = some n
as_udata (some (Value.sdata_value n)) = some n
as_udata _ = none

abbrev pub is_wrapper : Tag → Bool
is_wrapper Tag.typedef = true
is_wrapper Tag.const_type = true
is_wrapper Tag.volatile_type = true
is_wrapper Tag.restrict_type = true
is_wrapper _ = false

-- `unwrap_or_default` of a name.
abbrev pub name_or_default : Option Text → Text
name_or_default none = []
name_or_default (some s) = s

abbrev pub is_template : Tag → Bool
is_template Tag.template_type_parameter = true
is_template _ = false

abbrev pub is_named : Text → Option Text → Bool
is_named want none = false
is_named want (some n) = same n want

module _ (unit : DwarfUnit) where
  abbrev pub child_offsets : Off → List Off
  child_offsets parent = unit.children parent

  -- `unit.entry(off).ok()?.attr_value(at)`.
  unfoldable pub attr : Off → At → Option Value
  attr off at = elim (unit.entry off) [ none ↦ none | some e ↦ e.attr_value at ]

  -- `attr(at)?.udata_value()`.
  unfoldable pub attr_udata : Off → At → Option ℕ
  attr_udata off at = elim (unit.entry off) [ none ↦ none | some e ↦ e.udata_at at ]

  unfoldable pub tag : Off → Outcome Tag
  tag off = elim (unit.entry off) [ none ↦ panic | some e ↦ ok e.tag ]

  -- The abstract origin if there is one, and the specification otherwise.
  unfoldable pub origin : Off → Option Off
  origin off = elim (attr off At.abstract_origin) [
    | some v ↦ as_unit_ref (some v)
    | none ↦ as_unit_ref (attr off At.specification)
  ]

  unfoldable pub die_name : ℕ → Off → Outcome (Option Text)
  unfolding origin
  die_name zero off = out_of_fuel
  die_name (suc f) off = elim (attr off At.name) [
    | some v ↦ ok (attr_string v)
    | none ↦ elim (origin off) [ none ↦ ok none | some o ↦ die_name f o ]
  ]

  unfoldable pub udata : Off → At → Option ℕ
  udata off at = as_udata (attr off at)

  unfoldable pub type_ref : ℕ → Off → Outcome (Option Off)
  unfolding origin
  type_ref zero off = out_of_fuel
  type_ref (suc f) off = elim (as_unit_ref (attr off At.type_of)) [
    | some o ↦ ok (some o)
    | none ↦ elim (origin off) [ none ↦ ok none | some o ↦ type_ref f o ]
  ]

  -- `strip` and, beside each step, the search for the type that it refers to.
  unfoldable pub strip : ℕ → Off → Outcome Off
  unfolding tag
  strip zero off = out_of_fuel
  strip (suc f) off = do
    t ← tag off
    elim (is_wrapper t) [
      | false ↦ ok off
      | true ↦ do inner ← type_ref f off; elim inner [ none ↦ ok off | some o ↦ strip f o ]
    ]

  -- The first child with that tag.
  unfoldable pub first_with_tag : (Tag → Bool) → List Off → Outcome (Option Off)
  unfolding tag
  first_with_tag wanted [] = ok none
  first_with_tag wanted (c ∷ cs) =
      let rest = first_with_tag wanted cs in do t ← tag c; if wanted t then ok (some c) else rest

  unfoldable pub template_param : ℕ → Off → Outcome (Option Off)
  unfolding first_with_tag
  template_param f off = do
    found ← first_with_tag is_template (child_offsets off)
    elim found [ none ↦ ok none | some c ↦ type_ref f c ]

  -- The parameter of that name.
  unfoldable pub template_named : ℕ → Text → List Off → Outcome (Option Off)
  unfolding tag
  template_named f want [] = ok none
  template_named f want (c ∷ cs) =
      let rest = template_named f want cs in
      let this = type_ref f c in
      do t ← tag c; n ← die_name f c; if is_template t && is_named want n then this else rest

-- `r.begin <= pc < r.end` for one of the ranges.
unfoldable pub in_ranges : ℕ → List (ℕ × ℕ) → Bool
in_ranges pc [] = false
in_ranges pc ((begin, end) ∷ rs) =
    let rest = in_ranges pc rs in if leb begin pc && ltb pc end then true else rest

abbrev pub is_subprogram : Tag → Bool
is_subprogram Tag.subprogram = true
is_subprogram _ = false

-- The inner loop of `subprogram_at`, over the entries of one unit.
unfoldable pub subprogram_in : DwarfUnit → ℕ → List (Off × ℕ) → Outcome (Option Off)
unfolding tag in_ranges
subprogram_in unit pc [] = ok none
subprogram_in unit pc ((off, depth) ∷ es) =
    let rest = subprogram_in unit pc es in
    do
      t ← tag unit off
      if is_subprogram t && in_ranges pc (unit.die_ranges off) then ok (some off) else rest

-- The index of the unit, counted from `ui`, and the offset of the subprogram.
unfoldable pub subprogram_at : ℕ → List DwarfUnit → ℕ → Outcome (Option (ℕ × Off))
unfolding subprogram_in
subprogram_at ui [] pc = ok none
subprogram_at ui (unit ∷ units) pc =
    let rest = subprogram_at (suc ui) units pc in
    do
      found ← subprogram_in unit pc unit.entries
      elim found [ some off ↦ ok (some (ui, off)) | none ↦ rest ]
