-- ===== src/Interp/Ends.antt =====
-- interp.rs: the recursion of `run` ends because the document does. How deep it goes, and that what `run`
-- calls ends.
pub mod Loops
pub mod Fuel
use bilbo.Base.{
  larger, larger_left, larger_right, ℕ, zero, suc, ◌+◌, ◌-◌, ◌*◌, ◌^◌, ◌≤◌, ◌<◌, ◌≡◌, refl, inl,
  inr, Bool, true, false, ◌&&◌, Option, none, some, List, [], ◌∷◌, arith, leb, leb→le, ◌==◌,
  if◌then◌else◌, length, Bool-cases, Option-cases, slot_room, and-both, same, Outcome, ok, panic,
  fault, expect, ◌>>=◌, Ends, >>=-Ends, expect-Ends,
}
use bilbo.Json.Value.{
  Text, Json, Items, Members, str, num, bool, null, array, object, no_items, item, no_members,
  member, as_u128, as_i128, as_str, find, get,
}
use bilbo.Plan.{Ty, Fields, no_fields, field, SeqLayout, RecCell, Cells, cell_body, get_cell}
use bilbo.Plan.Fits.{cell_body-some}
use bilbo.Machine.{Allocator, Machine, layout, is_doubling, alloc, set_mem, zero_bytes, write}
use bilbo.Interp.{
  Env, Writer, write_le, pattern, is_opt, is_null, at_least_one, length_items, expect_array,
  write_discr, write_seq, as_f64, alloc_copy, run_fields, run_zip, run_items, run_vec, box_alloc,
  run_at, run,
}

-- The nesting of arrays and objects.
unfoldable mutual
  pub depth : Json → ℕ
  depth (array xs) = suc (depth_items xs)
  depth (object ms) = suc (depth_members ms)
  depth _ = 0

  pub depth_items : Items → ℕ
  depth_items no_items = 0
  depth_items (item v xs) = larger (depth v) (depth_items xs)

  pub depth_members : Members → ℕ
  depth_members no_members = 0
  depth_members (member k v ms) = larger (depth v) (depth_members ms)

-- How many levels `run` goes down before it goes into an array or an object. `g` is a bound for the
-- bodies of the recursive types.
unfoldable pub levels : (g : ℕ) → Ty → ℕ
levels g (Ty.struct name fs) = 2
levels g (Ty.boxed inner size align) = suc (levels g inner)
levels g (Ty.opt disc_off disc_size none_discr some_discr payload_off size inner) =
    suc (levels g inner)
levels g (Ty.ref cell) = suc g
levels g _ = 1

-- What lies inside a struct, a tuple or a vector has at most `k` levels.
unfoldable mutual
  pub is_shallow : (g k : ℕ) → Ty → Bool
  is_shallow g k (Ty.struct name fs) = are_shallow g k fs
  is_shallow g k (Ty.tuple fs) = are_shallow g k fs
  is_shallow g k (Ty.vec elem elem_size elem_align seq) =
      leb (levels g elem) k && is_shallow g k elem
  is_shallow g k (Ty.boxed inner size align) = is_shallow g k inner
  is_shallow g k (Ty.opt disc_off disc_size none_discr some_discr payload_off size inner) =
      is_shallow g k inner
  is_shallow g k _ = true

  pub are_shallow : (g k : ℕ) → Fields → Bool
  are_shallow g k no_fields = true
  are_shallow g k (field name offset ty fs) =
      leb (levels g ty) k && (is_shallow g k ty && are_shallow g k fs)

-- A recursive type comes back to itself only through a struct, a tuple or a vector.
abbrev pub GuardedCells : (g k : ℕ) → Cells → Type 0
GuardedCells g k cells =
    (id : RecCell) (body : Ty)
    → get_cell id cells ≡ some body
    → (levels g body ≤ g) × (is_shallow g k body ≡ true)

pub if-Ends :
    {A : Type 0} (b : Bool) (x y : Outcome A) → Ends x → Ends y → Ends (if b then x else y)
if-Ends true x y h k = h
if-Ends false x y h k = k

pub layout-Ends : (size align : ℕ) → Ends (layout size align)
unfolding layout
layout-Ends size align = if-Ends (is_doubling 63 1 align && leb (size + align) (2 ^ 63)) _ _ tt tt

pub alloc-Ends : (std : Allocator) (size align : ℕ) (m : Machine) → Ends (alloc std size align m)
unfolding alloc
alloc-Ends std size align m =
    >>=-Ends (layout size align) _ (layout-Ends size align)
      (λ l. if-Ends (size == 0) _ _ tt (if-Ends (std.place m.live size align == 0) _ _ tt tt))

pub write_le-Ends : (n dst v : ℕ) (m : Machine) → Ends (write_le n dst v m)
unfolding write_le
write_le-Ends n dst v m = if-Ends (leb n 16) _ _ tt tt

pub write_discr-Ends :
    (off w dst : ℕ) (d : Option ℕ) (m : Machine) → Ends (write_discr off w dst d m)
unfolding write_discr
write_discr-Ends off w dst none m = tt
write_discr-Ends off w dst (some d) m = write_le-Ends w (dst + off) d m

pub as_u128-Ends : (v : Json) → Ends (as_u128 v)
unfolding as_u128
as_u128-Ends (num s) = expect-Ends _
as_u128-Ends (str s) = expect-Ends _
as_u128-Ends (bool b) = tt
as_u128-Ends null = tt
as_u128-Ends (array xs) = tt
as_u128-Ends (object ms) = tt

pub as_i128-Ends : (v : Json) → Ends (as_i128 v)
unfolding as_i128
as_i128-Ends (num s) = expect-Ends _
as_i128-Ends (str s) = expect-Ends _
as_i128-Ends (bool b) = tt
as_i128-Ends null = tt
as_i128-Ends (array xs) = tt
as_i128-Ends (object ms) = tt

pub as_str-Ends : (v : Json) → Ends (as_str v)
unfolding as_str
as_str-Ends (num s) = tt
as_str-Ends (str s) = tt
as_str-Ends (bool b) = tt
as_str-Ends null = tt
as_str-Ends (array xs) = tt
as_str-Ends (object ms) = tt

pub as_f64-Ends : (env : Env) (v : Json) → Ends (as_f64 env v)
unfolding as_f64
as_f64-Ends env (num s) = expect-Ends _
as_f64-Ends env (str s) = tt
as_f64-Ends env (bool b) = tt
as_f64-Ends env null = tt
as_f64-Ends env (array xs) = tt
as_f64-Ends env (object ms) = tt

pub alloc_copy-Ends :
    (env : Env) (s : Text) (align : ℕ) (m : Machine) → Ends (alloc_copy env s align m)
unfolding alloc_copy
alloc_copy-Ends env [] align m = tt
alloc_copy-Ends env (c ∷ s) align m =
    >>=-Ends (alloc env.std (length (c ∷ s)) align m) _ (alloc-Ends env.std _ align m) (λ r. tt)

pub find-depth :
    (key : Text) (ms : Members) (v : Json) → find key ms ≡ some v → depth v ≤ depth_members ms
unfolding find depth
find-depth key no_members v e = absurd (cc)
find-depth key (member k w ms) v e = elim (Bool-cases (same k key)) [
  | inl this ↦ let here : w ≡ v = cc (rw this at e) in rw (← here) (larger_left _ _)
  | inr other ↦
      let rest = find-depth key ms v (rw other at e) in
      let part = larger_right (depth w) (depth_members ms) in omega (arith, rest, part)
]

pub get-depth : (val : Json) (key : Text) (v : Json) → get val key ≡ some v → depth v < depth val
unfolding get depth
get-depth (object ms) key v e = let h = find-depth key ms v e in omega arith
get-depth null key v e = absurd (cc)
get-depth (num s) key v e = absurd (cc)
get-depth (str s) key v e = absurd (cc)
get-depth (bool b) key v e = absurd (cc)
get-depth (array xs) key v e = absurd (cc)
