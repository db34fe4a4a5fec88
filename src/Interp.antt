-- ===== src/Interp.antt =====
-- crates/bilbo-json/src/interp.rs: the interpreter backend. Addresses are taken to stay below 2^64. A
-- `Ty::Ref` leads back into a type, so `run` is on fuel, one unit for each level of the type. A size times a
-- count is exact, as it is where overflow is checked.
pub mod Parts
pub mod Accepts
pub mod Value
pub mod Ends
pub mod Frame
use bilbo.Base.{
  ℕ, zero, suc, ◌+◌, ◌-◌, ◌*◌, ◌%◌, ◌^◌, Bool, true, false, Option, none, some, List, [], ◌∷◌, leb,
  ltb, ◌==◌, if◌then◌else◌, length, Outcome, ok, panic, fault, out_of_fuel, expect, ◌>>=◌,
}
use bilbo.Json.Value.{
  Text, Json, Items, Members, num, bool, null, array, no_items, item, Signed, as_u128, as_i128,
  as_str, get,
}
use bilbo.Plan.{Ty, Fields, no_fields, field, SeqLayout, Cells, cell_body}
use bilbo.Machine.{Allocator, Machine, Floats, set_mem, write, put_text, zero_bytes, alloc}

-- What the interpreter uses of its surroundings, and the cells of the type.
pub record Env : Type 0 where
  pub std : Allocator
  pub floats : Floats
  pub cells : Cells

-- `run` with the fuel that is left.
abbrev pub Writer : Type 0
Writer = (dst : ℕ) → Ty → Json → Machine → Outcome Machine

-- The low bytes of `to_le_bytes()`; a slice of more than 16 bytes panics.
unfoldable pub write_le : (n dst v : ℕ) → Machine → Outcome Machine
write_le n dst v m = if leb n 16 then ok (write n dst v m) else panic

-- An `i128` as its 128-bit pattern.
abbrev pub pattern : Signed → ℕ
pattern s = if s.negative then (2 ^ 128 - s.magnitude) % 2 ^ 128 else s.magnitude

-- The first character of a UTF-8 text, 0 for an empty one.
unfoldable pub first_char : Text → ℕ
first_char [] = 0
first_char (a ∷ b ∷ c ∷ d ∷ s) =
    if ltb a 0x80
    then a
    else if ltb a 0xe0
    then a % 32 * 64 + b % 64
    else if ltb a 0xf0
    then a % 16 * 4096 + b % 64 * 64 + c % 64
    else a % 8 * 262144 + b % 64 * 4096 + c % 64 * 64 + d % 64
first_char (a ∷ b ∷ c ∷ []) =
    if ltb a 0x80
    then a
    else if ltb a 0xe0
    then a % 32 * 64 + b % 64
    else a % 16 * 4096 + b % 64 * 64 + c % 64
first_char (a ∷ b ∷ []) = if ltb a 0x80 then a else a % 32 * 64 + b % 64
first_char (a ∷ []) = a

abbrev pub is_opt : Ty → Bool
is_opt (Ty.opt disc_off disc_size none_discr some_discr payload_off size inner) = true
is_opt _ = false

abbrev pub is_true : Json → Bool
is_true (bool b) = b
is_true _ = false

abbrev pub is_null : Json → Bool
is_null null = true
is_null _ = false

-- `align.max(1)`.
abbrev pub at_least_one : ℕ → ℕ
at_least_one zero = 1
at_least_one (suc n) = suc n

unfoldable pub length_items : Items → ℕ
length_items no_items = 0
length_items (item v xs) = suc (length_items xs)

unfoldable pub expect_array : Json → Outcome Items
expect_array (array xs) = ok xs
expect_array _ = panic

-- The discriminant of an option, where there is one.
unfoldable pub write_discr : (disc_off disc_size dst : ℕ) → Option ℕ → Machine → Outcome Machine
write_discr disc_off disc_size dst none m = ok m
write_discr disc_off disc_size dst (some d) m = write_le disc_size (dst + disc_off) d m

abbrev pub write_seq : (dst : ℕ) → SeqLayout → (ptr cap len : ℕ) → Machine → Machine
write_seq dst seq ptr cap len m =
    write 8 (dst + seq.len_off) len
      (write 8 (dst + seq.cap_off) cap (write 8 (dst + seq.ptr_off) ptr m))

module _ (env : Env) where
  unfoldable pub as_f64 : Json → Outcome ℕ
  as_f64 (num s) = expect (env.floats.parse_f64 s)
  as_f64 _ = panic

  unfoldable pub alloc_copy : Text → (align : ℕ) → Machine → Outcome (ℕ × Machine)
  alloc_copy [] align m = ok (at_least_one align, m)
  alloc_copy (c ∷ s) align m = do
    (p, m') ← alloc env.std (length (c ∷ s)) align m
    ok (p, set_mem (put_text m'.mem p (c ∷ s)) m')

  -- A key that is absent counts as `null` for an option.
  unfoldable pub run_fields : Writer → (dst : ℕ) → Fields → Json → Machine → Outcome Machine
  run_fields rec dst no_fields val m = ok m
  run_fields rec dst (field name offset ty fs) val m = do
    m' ← elim (get val name) [
      | some fv ↦ rec (dst + offset) ty fv m
      | none ↦ if is_opt ty then rec (dst + offset) ty null m else panic
    ]
    run_fields rec dst fs val m'

  -- `fields.iter().zip(items)`: the shorter one ends the loop.
  unfoldable pub run_zip : Writer → (dst : ℕ) → Fields → Items → Machine → Outcome Machine
  run_zip rec dst no_fields xs m = ok m
  run_zip rec dst (field name offset ty fs) no_items m = ok m
  run_zip rec dst (field name offset ty fs) (item v xs) m = do
    m' ← rec (dst + offset) ty v m
    run_zip rec dst fs xs m'

  -- The elements from the `i`-th on.
  unfoldable pub run_items :
      Writer → (base esz : ℕ) → Ty → (i : ℕ) → Items → Machine → Outcome Machine
  run_items rec base esz elem i no_items m = ok m
  run_items rec base esz elem i (item v xs) m = do
    m' ← rec (base + i * esz) elem v m
    run_items rec base esz elem (suc i) xs m'

  unfoldable pub run_vec :
      Writer
      → (dst : ℕ) → Ty
      → (elem_size elem_align : ℕ) → SeqLayout
      → Items
      → Machine
      → Outcome Machine
  run_vec rec dst elem esz align seq no_items m = ok (write_seq dst seq (at_least_one align) 0 0 m)
  run_vec rec dst elem esz align seq (item v xs) m = do
    let n : ℕ = length_items (item v xs)
    (p, m1) ← alloc env.std (esz * n) (at_least_one align) m
    m2 ← run_items rec p esz elem 0 (item v xs) m1
    ok (write_seq dst seq p n n m2)

  -- A `Box` of size 0 is a dangling pointer.
  unfoldable pub box_alloc : (size align : ℕ) → Machine → Outcome (ℕ × Machine)
  box_alloc size align m =
      if size == 0 then ok (at_least_one align, m) else alloc env.std size (at_least_one align) m

  -- The cases of `run`.
  unfoldable pub run_at : Writer → Writer
  run_at rec dst Ty.bool val m = ok (write 1 dst (if is_true val then 1 else 0) m)
  run_at rec dst Ty.char val m = do s ← as_str val; ok (write 4 dst (first_char s) m)
  run_at rec dst (Ty.u n) val m = do v ← as_u128 val; write_le n dst v m
  run_at rec dst (Ty.i n) val m = do v ← as_i128 val; write_le n dst (pattern v) m
  run_at rec dst Ty.f32 val m = do v ← as_f64 val; ok (write 4 dst (env.floats.to_f32 v) m)
  run_at rec dst Ty.f64 val m = do v ← as_f64 val; ok (write 8 dst v m)
  run_at rec dst (Ty.struct name fs) val m = run_fields rec dst fs val m
  run_at rec dst (Ty.tuple fs) val m = do xs ← expect_array val; run_zip rec dst fs xs m
  run_at rec dst (Ty.str seq) val m = do
    s ← as_str val
    (p, m') ← alloc_copy s 1 m
    ok (write_seq dst seq p (length s) (length s) m')
  run_at rec dst (Ty.str_ref ptr_off len_off) val m = do
    s ← as_str val
    (p, m') ← alloc_copy s 1 m
    ok (write 8 (dst + len_off) (length s) (write 8 (dst + ptr_off) p m'))
  run_at rec dst (Ty.vec elem elem_size elem_align seq) val m = do
    xs ← expect_array val
    run_vec rec dst elem elem_size elem_align seq xs m
  run_at rec dst (Ty.boxed inner size align) val m = do
    (p, m1) ← box_alloc size align m
    m2 ← rec p inner val m1
    ok (write 8 dst p m2)
  run_at rec dst Ty.unit val m = ok m
  run_at rec dst (Ty.opt disc_off disc_size none_discr some_discr payload_off size inner) val m =
      elim (is_null val) [
        | true ↦
            write_discr disc_off disc_size dst (some none_discr)
              (set_mem (zero_bytes m.mem dst size) m)
        | false ↦ do
          m' ← rec (dst + payload_off) inner val m
          write_discr disc_off disc_size dst some_discr m'
      ]
  run_at rec dst (Ty.map key key_size val_ty val_size new_at insert) val m = panic
  run_at rec dst (Ty.ref cell) val m = do ty ← cell_body cell env.cells; rec dst ty val m
  run_at rec dst (Ty.unknown what) val m = panic

  unfoldable pub run : (fuel : ℕ) → Writer
  unfolding run_at
  run zero dst ty val m = out_of_fuel
  run (suc fuel) dst ty val m = run_at (run fuel) dst ty val m
