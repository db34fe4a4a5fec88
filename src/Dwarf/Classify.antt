-- ===== src/Dwarf/Classify.antt =====
-- dwarf.rs: `classify`, from the entry of a type to its `Ty`.
pub mod Memo
pub mod Structure
use bilbo.Base.{
  unwrap_or, ℕ, zero, suc, ◌+◌, ◌-◌, ◌^◌, Bool, true, false, ◌&&◌, ◌||◌, not, Option, none, some,
  List, [], ◌∷◌, ◌++◌, ltb, leb, ◌==◌, if◌then◌else◌, bytes, all, drop, same, starts_with, Outcome,
  ok, panic, out_of_fuel, expect, ◌>>=◌,
}
use bilbo.Json.Value.{Text, is_digit, number_below}
use bilbo.Plan.{Ty, Fields, no_fields, field}
use bilbo.Dwarf.Die.{
  Off, Tag, DwarfUnit, child_offsets, tag, die_name, strip, name_or_default, first_with_tag,
  template_param,
}
use bilbo.Dwarf.Index.{Site, Store, unit_at, def_site}
use bilbo.Dwarf.Layout.{seq_layout, str_ref_offsets}
use Memo.{State, Classifier, recall, enter, leave, base_type}
use Structure.{is_variant_part, boxed, vec_type, map_type, fields_of, parse_option}

-- `__` and digits.
abbrev pub is_positional : Text → Bool
is_positional n =
    starts_with n (bytes "__") && (not (same n (bytes "__")) && all is_digit (drop 2 n))

abbrev pub all_positional : Fields → Bool
all_positional no_fields = true
all_positional (field name offset ty fields) = is_positional name && all_positional fields

-- The key of the sort, `parse::<u32>().unwrap_or(u32::MAX)`.
unfoldable pub position : Text → ℕ
position name = unwrap_or (2 ^ 32 - 1) (number_below (2 ^ 32) (drop 2 name))

-- `sort_by_key` is stable: a field goes in front of those with the same key behind it.
unfoldable pub insert_field : Text → ℕ → Ty → Fields → Fields
insert_field name offset ty no_fields = field name offset ty no_fields
insert_field name offset ty (field n o t fields) =
    if leb (position name) (position n)
    then field name offset ty (field n o t fields)
    else field n o t (insert_field name offset ty fields)

unfoldable pub sort_fields : Fields → Fields
unfolding insert_field
sort_fields no_fields = no_fields
sort_fields (field name offset ty fields) = insert_field name offset ty (sort_fields fields)

abbrev pub is_no_fields : Fields → Bool
is_no_fields no_fields = true
is_no_fields (field name offset ty more) = false

-- A tuple or a struct.
unfoldable pub aggregate : Text → Fields → Ty
unfolding sort_fields
aggregate name fields =
    if not (is_no_fields fields) && all_positional fields
    then Ty.tuple (sort_fields fields)
    else Ty.struct name fields

-- Wrappers with the bytes of their parameter.
abbrev pub is_transparent : Text → Bool
is_transparent name =
    starts_with name (bytes "MaybeUninit<")
    || starts_with name (bytes "ManuallyDrop<")
    || starts_with name (bytes "UnsafeCell<")

module _ (st : Store) (f slide : ℕ) where
  -- Structs by name, then by a variant part, then by their members.
  unfoldable pub structure : Classifier → DwarfUnit → Site → Text → State → Outcome (Ty × State)
  structure rec unit (ui, off) name c =
      if same name (bytes "String")
      then (seq_layout st f (ui, off) >>= λ seq. ok (Ty.str seq, c))
      else if same name (bytes "&str")
      then (str_ref_offsets unit f off >>= λ p. ok (Ty.str_ref p.0 p.1, c))
      else if starts_with name (bytes "Vec<")
      then vec_type st f slide rec unit ui off c
      else if starts_with name (bytes "BTreeMap<")
      then map_type st f slide rec unit ui off c
      else do
        vp ← first_with_tag unit is_variant_part (child_offsets unit off)
        elim vp [
          | some v ↦ parse_option st f slide rec unit ui off v name c
          | none ↦ do
            (fields, c') ← fields_of st f slide rec unit ui (child_offsets unit off) c
            ok (aggregate name fields, c')
        ]

  -- The body, by the tag.
  unfoldable pub body_of : Classifier → DwarfUnit → Site → Tag → Text → State → Outcome (Ty × State)
  body_of rec unit site Tag.base_type name c = ok (base_type unit site.1 name, c)
  body_of rec unit site Tag.pointer_type name c = boxed st f slide rec unit site.0 site.1 name c
  body_of rec unit site Tag.structure_type name c = structure rec unit site name c
  body_of rec unit site Tag.enumeration_type name c = ok (Ty.unknown (bytes "enum " ++ name), c)
  body_of rec unit site _ name c = ok (Ty.unknown name, c)

  -- Past the redirection of stubs.
  unfoldable pub classify_at : Classifier → Site → State → Outcome (Ty × State)
  classify_at rec site c = do
    unit ← unit_at st site.0
    t ← tag unit site.1
    n ← die_name unit f site.1
    let name = name_or_default n
    if is_transparent name
        then (template_param unit f site.1 >>= λ found.
            expect found >>= λ inner. rec (site.0, inner) c)
        else elim (recall site c.memo) [
          | some cell ↦ ok (Ty.ref cell, c)
          | none ↦ do
            (body, c') ← body_of rec unit site t name (enter site c)
            ok (body, leave site c.next body c')
        ]

  unfoldable pub classify : (fuel : ℕ) → Classifier
  classify zero site c = out_of_fuel
  classify (suc fuel) site c = do
    unit ← unit_at st site.0
    off ← strip unit f site.1
    site' ← def_site st f (site.0, off)
    classify_at (classify fuel) site' c
