-- ===== src/Plan.antt =====
-- crates/bilbo/src/plan.rs: the recipe for a type. A `RecCell` is the number of a cell; `Cells` are the
-- bodies that have been set. `Unknown` and `Struct` keep their names.
pub mod Fits
use bilbo.Base.{
  ℕ, Bool, false, ◌||◌, Option, none, some, List, [], ◌∷◌, ◌==◌, if◌then◌else◌, Outcome, expect,
}
use bilbo.Json.Value.{Text}

pub record SeqLayout : Type 0 where
  pub ptr_off : ℕ
  pub cap_off : ℕ
  pub len_off : ℕ

abbrev pub RecCell : Type 0
RecCell = ℕ

mutual
  pub data Ty : Type 0 where
    bool char f32 f64 unit : Ty
    u i : ℕ → Ty
    struct : (name : Text) → Fields → Ty
    tuple : Fields → Ty
    str : SeqLayout → Ty
    vec : (elem : Ty) → (elem_size elem_align : ℕ) → SeqLayout → Ty
    str_ref : (ptr_off len_off : ℕ) → Ty
    boxed : (inner : Ty) → (size align : ℕ) → Ty
    opt :
        (disc_off disc_size none_discr : ℕ)
        → (some_discr : Option ℕ) → (payload_off size : ℕ) → (inner : Ty) → Ty
    map : (key : Ty) → (key_size : ℕ) → (val : Ty) → (val_size new_at insert : ℕ) → Ty
    ref : RecCell → Ty
    unknown : Text → Ty

  -- `Vec<FieldTy>`: a name, an offset and a type each.
  pub data Fields : Type 0 where
    no_fields : Fields
    field : (name : Text) → (offset : ℕ) → (ty : Ty) → Fields → Fields

abbrev pub Cells : Type 0
Cells = List (RecCell × Ty)

-- `OnceLock::get` of a cell.
unfoldable pub get_cell : RecCell → Cells → Option Ty
get_cell id [] = none
get_cell id ((k, ty) ∷ cells) = if k == id then some ty else get_cell id cells

-- `RecCell::get`.
unfoldable pub cell_body : RecCell → Cells → Outcome Ty
cell_body id cells = expect (get_cell id cells)

-- A `Ty` that holds the cell keeps it alive: the cell's count of strong references.
unfoldable mutual
  pub mentions : RecCell → Ty → Bool
  mentions id (Ty.struct name fields) = mentions_fields id fields
  mentions id (Ty.tuple fields) = mentions_fields id fields
  mentions id (Ty.vec elem size align seq) = mentions id elem
  mentions id (Ty.boxed inner size align) = mentions id inner
  mentions id (Ty.opt disc_off disc_size none_discr some_discr payload_off size inner) =
      mentions id inner
  mentions id (Ty.map key key_size val val_size new_at insert) = mentions id key || mentions id val
  mentions id (Ty.ref cell) = cell == id
  mentions id _ = false

  pub mentions_fields : RecCell → Fields → Bool
  mentions_fields id Fields.no_fields = false
  mentions_fields id (Fields.field name offset ty fields) =
      mentions id ty || mentions_fields id fields

unfoldable pub mentions_cells : RecCell → Cells → Bool
mentions_cells id [] = false
mentions_cells id ((k, ty) ∷ cells) = mentions id ty || mentions_cells id cells
