-- ===== src/Plan/Fits.antt =====
-- plan.rs: types whose values fit in so many bytes. `sizes` are the sizes of the recursive types.
use bilbo.Base.{inl, inr, Option-cases, ok, ℕ, ◌+◌, ◌-◌, ◌≡◌, Bool, true, ◌&&◌, List, some, leb}
use bilbo.Plan.{SeqLayout, RecCell, Ty, Fields, no_fields, field, Cells, get_cell, cell_body}

abbrev pub fits_seq : ℕ → SeqLayout → Bool
fits_seq n seq = leb (seq.ptr_off + 8) n && (leb (seq.cap_off + 8) n && leb (seq.len_off + 8) n)

-- What a backend's stores take up: the bytes that it writes for an integer of a width, the sizes of
-- elements and of boxed values that it can allocate for, and whether maps count as fitting.
pub record Limits : Type 0 where
  pub width : ℕ → ℕ
  pub elem_fits : ℕ → Bool
  pub maps : Bool

unfoldable mutual
  pub fits : Limits → (RecCell → ℕ) → ℕ → Ty → Bool
  fits lim sizes n Ty.bool = leb 1 n
  fits lim sizes n Ty.char = leb 4 n
  fits lim sizes n Ty.f32 = leb 4 n
  fits lim sizes n Ty.f64 = leb 8 n
  fits lim sizes n Ty.unit = true
  fits lim sizes n (Ty.u w) = leb (lim.width w) n
  fits lim sizes n (Ty.i w) = leb (lim.width w) n
  fits lim sizes n (Ty.struct name fs) = fits_fields lim sizes n fs
  fits lim sizes n (Ty.tuple fs) = fits_fields lim sizes n fs
  fits lim sizes n (Ty.str seq) = fits_seq n seq
  fits lim sizes n (Ty.vec elem elem_size elem_align seq) =
      lim.elem_fits elem_size && (fits lim sizes elem_size elem && fits_seq n seq)
  fits lim sizes n (Ty.str_ref ptr_off len_off) = leb (ptr_off + 8) n && leb (len_off + 8) n
  fits lim sizes n (Ty.boxed inner size align) =
      lim.elem_fits size && (fits lim sizes size inner && leb 8 n)
  fits lim sizes n (Ty.opt disc_off disc_size none_discr some_discr payload_off size inner) =
      leb (disc_off + lim.width disc_size) n
      && (leb size n && (leb payload_off n && fits lim sizes (n - payload_off) inner))
  fits lim sizes n (Ty.map key key_size val val_size new_at insert) =
      lim.maps && (fits lim sizes key_size key && fits lim sizes val_size val)
  fits lim sizes n (Ty.ref cell) = leb (sizes cell) n
  fits lim sizes n (Ty.unknown what) = true

  pub fits_fields : Limits → (RecCell → ℕ) → ℕ → Fields → Bool
  fits_fields lim sizes n no_fields = true
  fits_fields lim sizes n (field name offset ty fs) =
      leb offset n && (fits lim sizes (n - offset) ty && fits_fields lim sizes n fs)

-- Every body that is set fits in the size of its cell.
abbrev pub FitCells : Limits → (RecCell → ℕ) → Cells → Type 0
FitCells lim sizes cells =
    (id : RecCell) (ty : Ty) → get_cell id cells ≡ some ty → fits lim sizes (sizes id) ty ≡ true

pub cell_body-some :
    (id : RecCell) (cells : List (RecCell × Ty)) (ty : Ty)
    → cell_body id cells ≡ ok ty
    → get_cell id cells ≡ some ty
unfolding cell_body
cell_body-some id cells ty e = elim (Option-cases (get_cell id cells)) [
  | inl unset ↦ absurd (cc (rw unset at e))
  | inr (body, there) ↦ cc
]
