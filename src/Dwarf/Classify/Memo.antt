-- ===== src/Dwarf/Classify/Memo.antt =====
-- dwarf.rs: what `classify` keeps between its calls, the thread-local `MEMO` and the cells, and the
-- types that need no further classification.
use bilbo.Base.{
  unwrap_or, ℕ, zero, suc, ◌*◌, ◌%◌, Bool, ◌&&◌, ◌||◌, Option, none, some, List, [], ◌∷◌, leb, ◌==◌,
  if◌then◌else◌, bytes, same, Outcome,
}
use bilbo.Json.Value.{Text}
use bilbo.Plan.{RecCell, Ty, Cells, mentions, mentions_cells}
use bilbo.Dwarf.Die.{Off, At, Value, DwarfUnit, attr, udata}
use bilbo.Dwarf.Index.{Site}

-- `MEMO`, the cells that are set, and the number of the next cell.
pub record State : Type 0 where
  pub memo : List (Site × RecCell)
  pub cells : Cells
  pub next : RecCell

abbrev pub new_state : State
new_state = record { memo = []; cells = []; next = 0 }

abbrev pub same_site : Site → Site → Bool
same_site a b = a.0 == b.0 && a.1 == b.1

unfoldable pub recall : Site → List (Site × RecCell) → Option RecCell
recall key [] = none
recall key ((k, cell) ∷ memo) = if same_site k key then some cell else recall key memo

-- `MEMO` never holds a key twice; removing it takes out the one entry.
unfoldable pub forget : Site → List (Site × RecCell) → List (Site × RecCell)
forget key [] = []
forget key ((k, cell) ∷ memo) = if same_site k key then memo else (k, cell) ∷ forget key memo

-- A fresh cell, entered in `MEMO`.
unfoldable pub enter : Site → State → State
enter key c = record { memo = (key, c.next) ∷ c.memo; cells = c.cells; next = suc c.next }

-- The end of `classify`: the cell is set where a `Ty::Ref` to it is alive, in the body or in the body of
-- another cell, and the guard takes the entry out of `MEMO`. A cell that is set is never dropped.
unfoldable pub leave : Site → RecCell → Ty → State → State
unfolding forget
leave key cell body c = record {
  memo = forget key c.memo;
  cells =
      if mentions cell body || mentions_cells cell c.cells then (cell, body) ∷ c.cells else c.cells;
  next = c.next;
}

-- A call of `classify`.
abbrev pub Classifier : Type 0
Classifier = Site → State → Outcome (Ty × State)

abbrev pub encoding_of : Option Value → ℕ
encoding_of (some (Value.encoding e)) = e
encoding_of _ = 0

-- `DW_ATE_boolean` is 2, `float` 4, `signed` 5, `signed_char` 6, `unsigned` 7, `unsigned_char` 8 and
-- `UTF` 16.
unfoldable pub base_ty : (enc size : ℕ) → (name : Text) → Ty
base_ty enc size name =
    if enc == 2
    then Ty.bool
    else if enc == 4 && size == 4
    then Ty.f32
    else if enc == 4
    then Ty.f64
    else if enc == 8 && same name (bytes "char")
    then Ty.char
    else if enc == 16
    then Ty.char
    else if enc == 5 || enc == 6
    then Ty.i size
    else if enc == 7 || enc == 8
    then Ty.u size
    else Ty.unknown name

unfoldable pub base_type : DwarfUnit → Off → Text → Ty
unfolding base_ty
base_type unit off name =
    if same name (bytes "()")
    then Ty.unit
    else base_ty (encoding_of (attr unit off At.encoding))
        (unwrap_or 0 (udata unit off At.byte_size) % 256) name

-- The first power of two from `p` on that is at least `n`, after at most `k` doublings.
unfoldable pub power_from : (k p n : ℕ) → ℕ
power_from zero p n = p
power_from (suc k) p n = let rest = power_from k (2 * p) n in if leb n p then p else rest

-- `size.max(1).next_power_of_two()`, for sizes up to 2^63.
unfoldable pub align_of : ℕ → ℕ
unfolding power_from
align_of size = power_from 63 1 size

-- `DW_AT_alignment`, or the size rounded up to a power of two.
unfoldable pub alignment : DwarfUnit → Off → (size : ℕ) → ℕ
unfolding align_of
alignment unit off size = unwrap_or (align_of size) (udata unit off At.alignment)
