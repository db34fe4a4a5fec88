-- ===== src/Dwarf/Classify/Structure.antt =====
-- dwarf.rs: `boxed`, `structure` and `parse_option`. `rec` is `classify` with the fuel that is left; `ui` is
-- the index of `unit`.
use bilbo.Base.{
  unwrap_or, ℕ, ◌+◌, ◌%◌, Bool, true, false, Option, none, some, List, [], ◌∷◌, ◌++◌, if◌then◌else◌,
  bytes, Outcome, ok, expect, ◌>>=◌,
}
use bilbo.Json.Value.{Text}
use bilbo.Plan.{Ty, Fields, no_fields, field}
use bilbo.Dwarf.Die.{
  Off, Tag, At, DwarfUnit, child_offsets, attr, attr_udata, tag, udata, die_name, type_ref, strip,
  name_or_default, first_with_tag, template_param, template_named, as_unit_ref, is_named,
}
use bilbo.Dwarf.Index.{Store}
use bilbo.Dwarf.Names.{resolve_tramp}
use bilbo.Dwarf.Layout.{is_member, member_location, seq_layout}
use bilbo.Dwarf.Classify.Memo.{State, Classifier, alignment}

abbrev pub is_variant : Tag → Bool
is_variant Tag.variant = true
is_variant _ = false

abbrev pub is_variant_part : Tag → Bool
is_variant_part Tag.variant_part = true
is_variant_part _ = false

-- `map_new_at::<V>` and `map_insert::<V>` are resolved with the slide of the image.
module _ (st : Store) (f slide : ℕ) (rec : Classifier) (unit : DwarfUnit) (ui : ℕ) where
  -- The type's size, or `default`.
  unfoldable pub size_of : Off → (default : ℕ) → Outcome (Off × ℕ)
  size_of off default = do
    o ← strip unit f off
    ok (o, unwrap_or default (udata unit o At.byte_size))

  unfoldable pub boxed : Off → Text → State → Outcome (Ty × State)
  boxed off name c = do
    found ← type_ref unit f off
    elim found [
      | none ↦ ok (Ty.unknown (b'*' ∷ name), c)
      | some pointee ↦ do
        (inner, c') ← rec (ui, pointee) c
        (o, size) ← size_of pointee 0
        ok (Ty.boxed inner size (alignment unit o size), c')
    ]

  unfoldable pub vec_type : Off → State → Outcome (Ty × State)
  vec_type off c = do
    found ← template_param unit f off
    elem_off ← expect found
    (elem, c') ← rec (ui, elem_off) c
    (o, size) ← size_of elem_off 1
    seq ← seq_layout st f (ui, off)
    ok (Ty.vec elem size (alignment unit o size) seq, c')

  unfoldable pub map_type : Off → State → Outcome (Ty × State)
  map_type off c = do
    found_k ← template_named unit f (bytes "K") (child_offsets unit off)
    k_off ← expect found_k
    found_v ← template_named unit f (bytes "V") (child_offsets unit off)
    v_off ← expect found_v
    n ← die_name unit f v_off
    let v_name = name_or_default n
    (key, c1) ← rec (ui, k_off) c
    key_size ← size_of k_off 24
    (val, c2) ← rec (ui, v_off) c1
    val_size ← size_of v_off 1
    found_new ← resolve_tramp st.units f slide (bytes "map_new_at") v_name false
    new_at ← expect found_new
    found_insert ← resolve_tramp st.units f slide (bytes "map_insert") v_name true
    insert ← expect found_insert
    ok (Ty.map key key_size.1 val val_size.1 new_at insert, c2)

  -- The type of a member; `?` stands for a missing one.
  unfoldable pub member_type : Off → State → Outcome (Ty × State)
  member_type m c = do
    ty ← type_ref unit f m
    elim ty [ none ↦ ok (Ty.unknown (bytes "?"), c) | some t ↦ rec (ui, t) c ]

  unfoldable pub fields_of : List Off → State → Outcome (Fields × State)
  fields_of [] c = ok (no_fields, c)
  fields_of (m ∷ ms) c = do
    t ← tag unit m
    elim (is_member t) [
      | false ↦ fields_of ms c
      | true ↦ do
        n ← die_name unit f m
        (ty, c') ← member_type m c
        (rest, c'') ← fields_of ms c'
        ok (field (name_or_default n) (member_location unit m) ty rest, c'')
    ]

  -- `none_discr` and `some`, the latter with the discriminant, the offset and the type.
  abbrev pub Variants : Type 0
  Variants = Option ℕ × Option (Option ℕ × ℕ × Ty)

  -- The member `__0` of a variant's struct.
  unfoldable pub payload_member : List Off → Outcome (Option Off)
  payload_member [] = ok none
  payload_member (m ∷ ms) =
      let rest = payload_member ms in
      do
        t ← tag unit m
        n ← if is_member t then die_name unit f m else ok none
        if is_named (bytes "__0") n then ok (some m) else rest

  -- One variant whose payload's struct is at `pstruct`, its member at `pm_off`.
  unfoldable pub read_variant :
      (dv : Option ℕ)
      → (pm_off : ℕ) → (pstruct : Off) → Variants
      → State
      → Outcome (Variants × State)
  read_variant dv pm_off pstruct acc c = do
    o ← strip unit f pstruct
    f0 ← payload_member (child_offsets unit o)
    elim f0 [
      | none ↦ ok ((dv, acc.1), c)
      | some m ↦ do
        ty ← type_ref unit f m
        elim ty [
          | none ↦ ok (acc, c)
          | some t ↦ do
            (payload, c') ← rec (ui, t) c
            ok ((acc.0, some (dv, pm_off + member_location unit m, payload)), c')
        ]
    ]

  -- One child of the variant part.
  unfoldable pub visit_variant : Off → Variants → State → Outcome (Variants × State)
  visit_variant v acc c = do
    t ← tag unit v
    pm ← if is_variant t then first_with_tag unit is_member (child_offsets unit v) else ok none
    elim pm [
      | none ↦ ok (acc, c)
      | some m ↦ do
        ty ← type_ref unit f m
        elim ty [
          | none ↦ ok (acc, c)
          | some pstruct ↦
              read_variant (attr_udata unit v At.discr_value) (member_location unit m) pstruct acc c
        ]
    ]

  unfoldable pub variants_of : List Off → Variants → State → Outcome (Variants × State)
  variants_of [] acc c = ok (acc, c)
  variants_of (v ∷ vs) acc c = do (acc', c') ← visit_variant v acc c; variants_of vs acc' c'

  abbrev pub enum_unknown : Text → Ty
  enum_unknown name = Ty.unknown (bytes "enum " ++ name)

  abbrev pub option_of : (disc_off disc_size size : ℕ) → Text → Variants → Ty
  option_of disc_off disc_size size name (some none_discr, some (some_discr, payload_off, inner)) =
      Ty.opt disc_off disc_size none_discr some_discr payload_off size inner
  option_of disc_off disc_size size name _ = enum_unknown name

  -- The size of the discriminant.
  unfoldable pub disc_size_of : Off → Outcome ℕ
  disc_size_of disc_m = do
    ty ← type_ref unit f disc_m
    elim ty [
      | none ↦ ok 8
      | some t ↦ do o ← strip unit f t; ok (unwrap_or 8 (udata unit o At.byte_size) % 256)
    ]

  unfoldable pub parse_option : (off vp : Off) → Text → State → Outcome (Ty × State)
  parse_option off vp name c = elim (as_unit_ref (attr unit vp At.discr)) [
    | none ↦ ok (enum_unknown name, c)
    | some disc_m ↦ do
      disc_size ← disc_size_of disc_m
      (acc, c') ← variants_of (child_offsets unit vp) (none, none) c
      let size = unwrap_or 0 (udata unit off At.byte_size)
      ok (option_of (member_location unit disc_m) disc_size size name acc, c')
  ]
