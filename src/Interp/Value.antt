-- ===== src/Interp/Value.antt =====
-- interp.rs: what it means that memory holds the value of a JSON document as a type lays it out, and
-- which layouts keep the parts of a value apart.
pub mod Agree
pub mod Fit
pub mod Members
pub mod Elements
pub mod Options
pub mod Run
use bilbo.Base.{
  larger, ℕ, zero, suc, ◌+◌, ◌-◌, ◌*◌, ◌/◌, ◌%◌, ◌^◌, ◌≤◌, ◌<◌, ◌≡◌, Bool, true, false, ◌&&◌, ◌||◌,
  Option, none, some, List, [], ◌∷◌, leb, if◌then◌else◌, length, Outcome, ok,
}
use bilbo.Json.Value.{
  Text, Json, null, Items, no_items, item, as_u128, as_i128, as_str, get, Signed,
}
use bilbo.Plan.{Ty, Fields, no_fields, field, SeqLayout, RecCell, Cells, cell_body, get_cell}
use bilbo.Jit.Memory.{Memory}
use bilbo.Machine.{byte_at}
use bilbo.Interp.{
  Env, pattern, first_char, is_opt, is_true, is_null, expect_array, as_f64, length_items,
}

abbrev pub extent_seq : SeqLayout → ℕ
extent_seq seq = larger (seq.ptr_off + 8) (larger (seq.cap_off + 8) (seq.len_off + 8))

-- The end of the last byte that `run` may write for a type.
unfoldable mutual
  pub extent : (RecCell → ℕ) → Ty → ℕ
  extent sizes Ty.bool = 1
  extent sizes Ty.char = 4
  extent sizes Ty.f32 = 4
  extent sizes Ty.f64 = 8
  extent sizes Ty.unit = 0
  extent sizes (Ty.u w) = w
  extent sizes (Ty.i w) = w
  extent sizes (Ty.struct name fs) = extent_fields sizes fs
  extent sizes (Ty.tuple fs) = extent_fields sizes fs
  extent sizes (Ty.str seq) = extent_seq seq
  extent sizes (Ty.vec elem elem_size elem_align seq) = extent_seq seq
  extent sizes (Ty.str_ref ptr_off len_off) = larger (ptr_off + 8) (len_off + 8)
  extent sizes (Ty.boxed inner size align) = 8
  extent sizes (Ty.opt disc_off disc_size none_discr some_discr payload_off size inner) =
      larger (disc_off + disc_size) (larger size (payload_off + extent sizes inner))
  extent sizes (Ty.map key key_size val val_size new_at insert) = 0
  extent sizes (Ty.ref cell) = sizes cell
  extent sizes (Ty.unknown what) = 0

  pub extent_fields : (RecCell → ℕ) → Fields → ℕ
  extent_fields sizes no_fields = 0
  extent_fields sizes (field name offset ty fs) =
      larger (offset + extent sizes ty) (extent_fields sizes fs)

-- Two ranges that do not overlap.
abbrev pub apart : (a n b k : ℕ) → Bool
apart a n b k = leb (a + n) b || leb (b + k) a

-- A range overlaps none of the fields.
unfoldable pub apart_fields : (RecCell → ℕ) → (offset n : ℕ) → Fields → Bool
apart_fields sizes offset n no_fields = true
apart_fields sizes offset n (field name off ty fs) =
    apart offset n off (extent sizes ty) && apart_fields sizes offset n fs

abbrev pub apart_seq : SeqLayout → Bool
apart_seq seq =
    apart seq.ptr_off 8 seq.cap_off 8
    && (apart seq.ptr_off 8 seq.len_off 8 && apart seq.cap_off 8 seq.len_off 8)

abbrev pub apart_discr : (disc_off disc_size payload_off n : ℕ) → Option ℕ → Bool
apart_discr disc_off disc_size payload_off n none = true
apart_discr disc_off disc_size payload_off n (some d) = apart disc_off disc_size payload_off n

-- A type whose parts do not overlap, and whose boxes and elements have room for what is in them.
unfoldable mutual
  pub is_separate : (RecCell → ℕ) → Ty → Bool
  is_separate sizes (Ty.struct name fs) = are_separate sizes fs
  is_separate sizes (Ty.tuple fs) = are_separate sizes fs
  is_separate sizes (Ty.str seq) = apart_seq seq
  is_separate sizes (Ty.vec elem elem_size elem_align seq) =
      leb (extent sizes elem) elem_size && (is_separate sizes elem && apart_seq seq)
  is_separate sizes (Ty.str_ref ptr_off len_off) = apart ptr_off 8 len_off 8
  is_separate sizes (Ty.boxed inner size align) =
      leb (extent sizes inner) size && is_separate sizes inner
  is_separate sizes (Ty.opt disc_off disc_size none_discr some_discr payload_off size inner) =
      apart_discr disc_off disc_size payload_off (extent sizes inner) some_discr
      && is_separate sizes inner
  is_separate sizes (Ty.map key key_size val val_size new_at insert) = false
  is_separate sizes (Ty.unknown what) = false
  is_separate sizes _ = true

  pub are_separate : (RecCell → ℕ) → Fields → Bool
  are_separate sizes no_fields = true
  are_separate sizes (field name offset ty fs) =
      is_separate sizes ty
      && (apart_fields sizes offset (extent sizes ty) fs && are_separate sizes fs)

abbrev pub SeparateCells : (RecCell → ℕ) → Cells → Type 0
SeparateCells sizes cells =
    (id : RecCell) (ty : Ty)
    → get_cell id cells ≡ some ty
    → (is_separate sizes ty ≡ true) × (extent sizes ty ≤ sizes id)

-- The `w` little-endian bytes of `v` at `dst`.
abbrev pub Word : Memory → (w dst v : ℕ) → Type 0
Word mem w dst v = (i : ℕ) → i < w → mem (dst + i) ≡ v / 256 ^ i % 256

abbrev pub TextAt : Memory → (p : ℕ) → Text → Type 0
TextAt mem p s = (i : ℕ) → i < length s → mem (p + i) ≡ byte_at s i

-- The three words of a `String` or a `Vec`.
abbrev pub Words : Memory → (dst : ℕ) → SeqLayout → (ptr cap len : ℕ) → Type 0
Words mem dst seq ptr cap len =
    Word mem 8 (dst + seq.ptr_off) ptr
    × Word mem 8 (dst + seq.cap_off) cap
    × Word mem 8 (dst + seq.len_off) len

-- What an inner type's memory holds.
abbrev pub Holds : Type 1
Holds = Memory → (dst : ℕ) → Ty → Json → Type 0

abbrev pub HoldsField : Holds → Memory → (dst : ℕ) → Ty → Option Json → Type 0
HoldsField inner mem dst ty (some v) = inner mem dst ty v
HoldsField inner mem dst ty none = (is_opt ty ≡ true) × inner mem dst ty null

abbrev pub HoldsFields : Holds → Memory → (dst : ℕ) → Fields → Json → Type 0
HoldsFields inner mem dst no_fields val = Unit
HoldsFields inner mem dst (field name offset ty fs) val =
    HoldsField inner mem (dst + offset) ty (get val name) × HoldsFields inner mem dst fs val

abbrev pub HoldsZip : Holds → Memory → (dst : ℕ) → Fields → Items → Type 0
HoldsZip inner mem dst no_fields xs = Unit
HoldsZip inner mem dst (field name offset ty fs) no_items = Unit
HoldsZip inner mem dst (field name offset ty fs) (item v xs) =
    inner mem (dst + offset) ty v × HoldsZip inner mem dst fs xs

abbrev pub HoldsItems : Holds → Memory → (base esz : ℕ) → Ty → (i : ℕ) → Items → Type 0
HoldsItems inner mem base esz elem i no_items = Unit
HoldsItems inner mem base esz elem i (item v xs) =
    inner mem (base + i * esz) elem v × HoldsItems inner mem base esz elem (suc i) xs

abbrev pub HoldsDiscr : Memory → (w dst : ℕ) → Option ℕ → Type 0
HoldsDiscr mem w dst none = Unit
HoldsDiscr mem w dst (some d) = Word mem w dst d

abbrev pub HoldsOpt :
    Holds
    → Memory
    → (disc_off w none_discr : ℕ) → Option ℕ
    → (payload_off : ℕ) → Ty
    → (dst : ℕ) → (null : Bool) → Json
    → Type 0
HoldsOpt inner mem disc_off w none_discr some_discr payload_off ty dst true val =
    Word mem w (dst + disc_off) none_discr
HoldsOpt inner mem disc_off w none_discr some_discr payload_off ty dst false val =
    inner mem (dst + payload_off) ty val × HoldsDiscr mem w (dst + disc_off) some_discr

module _ (env : Env) where
  -- One level of a type: the value, where it is to be found, and the parts.
  unfoldable pub holds_at : Holds → Holds
  holds_at inner mem dst Ty.bool val = Word mem 1 dst (if is_true val then 1 else 0)
  holds_at inner mem dst Ty.char val =
      (s : Text) × (as_str val ≡ ok s) × Word mem 4 dst (first_char s)
  holds_at inner mem dst (Ty.u n) val = (v : ℕ) × (as_u128 val ≡ ok v) × Word mem n dst v
  holds_at inner mem dst (Ty.i n) val =
      (v : Signed) × (as_i128 val ≡ ok v) × Word mem n dst (pattern v)
  holds_at inner mem dst Ty.f32 val =
      (v : ℕ) × (as_f64 env val ≡ ok v) × Word mem 4 dst (env.floats.to_f32 v)
  holds_at inner mem dst Ty.f64 val = (v : ℕ) × (as_f64 env val ≡ ok v) × Word mem 8 dst v
  holds_at inner mem dst (Ty.struct name fs) val = HoldsFields inner mem dst fs val
  holds_at inner mem dst (Ty.tuple fs) val =
      (xs : Items) × (expect_array val ≡ ok xs) × HoldsZip inner mem dst fs xs
  holds_at inner mem dst (Ty.str seq) val =
      (s : Text) × (as_str val ≡ ok s)
      × ((p : ℕ) × Words mem dst seq p (length s) (length s) × TextAt mem p s)
  holds_at inner mem dst (Ty.str_ref ptr_off len_off) val =
      (s : Text) × (as_str val ≡ ok s)
      × ((p : ℕ) × Word mem 8 (dst + ptr_off) p
          × Word mem 8 (dst + len_off) (length s)
          × TextAt mem p s)
  holds_at inner mem dst (Ty.vec elem elem_size elem_align seq) val =
      (xs : Items) × (expect_array val ≡ ok xs)
      × ((p : ℕ) × Words mem dst seq p (length_items xs) (length_items xs)
          × HoldsItems inner mem p elem_size elem 0 xs)
  holds_at inner mem dst (Ty.boxed ty size align) val =
      (p : ℕ) × Word mem 8 dst p × inner mem p ty val
  holds_at inner mem dst Ty.unit val = Unit
  holds_at inner mem dst (Ty.opt disc_off disc_size none_discr some_discr payload_off size ty) val =
      HoldsOpt inner mem disc_off disc_size none_discr some_discr payload_off ty dst (is_null val)
        val
  holds_at inner mem dst (Ty.map key key_size val_ty val_size new_at insert) val = ⊥
  holds_at inner mem dst (Ty.ref cell) val =
      (ty : Ty) × (cell_body cell env.cells ≡ ok ty) × inner mem dst ty val
  holds_at inner mem dst (Ty.unknown what) val = ⊥

  -- With as many levels of the type as there is fuel.
  unfoldable pub holds : (fuel : ℕ) → Holds
  unfolding holds_at
  holds zero mem dst ty val = ⊥
  holds (suc fuel) mem dst ty val = holds_at (holds fuel) mem dst ty val
