-- ===== src/Interp/Accepts.antt =====
-- interp.rs: which documents `run` takes for a type: a test that reads neither memory nor addresses.
pub mod Calls
pub mod Run
use bilbo.Base.{
  ℕ, zero, suc, ◌+◌, ◌*◌, ◌^◌, ◌≡◌, ◌≢◌, Bool, true, false, ◌&&◌, ◌||◌, Option, none, some, List,
  [], ◌∷◌, leb, ◌==◌, length, Outcome, ok, panic, fault, out_of_fuel,
}
use bilbo.Json.Value.{Text, Json, null, Items, no_items, item, as_u128, as_i128, as_str, get}
use bilbo.Plan.{Ty, Fields, no_fields, field, cell_body}
use bilbo.Machine.{Block, Allocator, is_doubling}
use bilbo.Interp.{Env, is_opt, is_null, at_least_one, length_items, expect_array, as_f64}

-- A result that passes a test.
abbrev pub all_ok {ℓ} : {A : Type ℓ} → Outcome A → (A → Bool) → Bool
all_ok (ok a) test = test a
all_ok panic test = false
all_ok fault test = false
all_ok out_of_fuel test = false

abbrev pub is_ok {ℓ} : {A : Type ℓ} → Outcome A → Bool
is_ok o = all_ok o (λ a. true)

-- Every layout is granted.
abbrev pub Roomy : Allocator → Type 0
Roomy std =
    (live : List Block) (size align : ℕ)
    → is_doubling 63 1 align ≡ true
    → std.place live size align ≢ 0

-- A layout that exists and is not empty.
unfoldable pub can_alloc : (size align : ℕ) → Bool
can_alloc zero align = false
can_alloc (suc n) align = is_doubling 63 1 align && leb (suc n + align) (2 ^ 63)

unfoldable pub can_copy : Text → Bool
unfolding can_alloc
can_copy [] = true
can_copy (c ∷ s) = can_alloc (length (c ∷ s)) 1

-- What takes the documents of an inner type.
abbrev pub Test : Type 0
Test = Ty → Json → Bool

abbrev pub accepts_field : Test → Ty → Option Json → Bool
accepts_field rec ty (some v) = rec ty v
accepts_field rec ty none = is_opt ty && rec ty null

unfoldable pub accepts_fields : Test → Fields → Json → Bool
accepts_fields rec no_fields val = true
accepts_fields rec (field name offset ty fs) val =
    accepts_field rec ty (get val name) && accepts_fields rec fs val

unfoldable pub accepts_zip : Test → Fields → Items → Bool
accepts_zip rec no_fields xs = true
accepts_zip rec (field name offset ty fs) no_items = true
accepts_zip rec (field name offset ty fs) (item v xs) = rec ty v && accepts_zip rec fs xs

unfoldable pub accepts_items : Test → Ty → Items → Bool
accepts_items rec elem no_items = true
accepts_items rec elem (item v xs) = rec elem v && accepts_items rec elem xs

unfoldable pub accepts_vec : Test → Ty → (elem_size elem_align : ℕ) → Items → Bool
accepts_vec rec elem esz align no_items = true
accepts_vec rec elem esz align (item v xs) =
    can_alloc (esz * length_items (item v xs)) (at_least_one align)
    && accepts_items rec elem (item v xs)

abbrev pub accepts_discr : (disc_size : ℕ) → Option ℕ → Bool
accepts_discr disc_size none = true
accepts_discr disc_size (some d) = leb disc_size 16

abbrev pub accepts_opt : Test → (disc_size : ℕ) → Option ℕ → Ty → (absent : Bool) → Json → Bool
accepts_opt rec disc_size some_discr inner true val = leb disc_size 16
accepts_opt rec disc_size some_discr inner false val =
    rec inner val && accepts_discr disc_size some_discr

module _ (env : Env) where
  unfoldable pub accepts_at : Test → Test
  accepts_at rec Ty.bool val = true
  accepts_at rec Ty.char val = is_ok (as_str val)
  accepts_at rec (Ty.u n) val = is_ok (as_u128 val) && leb n 16
  accepts_at rec (Ty.i n) val = is_ok (as_i128 val) && leb n 16
  accepts_at rec Ty.f32 val = is_ok (as_f64 env val)
  accepts_at rec Ty.f64 val = is_ok (as_f64 env val)
  accepts_at rec (Ty.struct name fs) val = accepts_fields rec fs val
  accepts_at rec (Ty.tuple fs) val = all_ok (expect_array val) (accepts_zip rec fs)
  accepts_at rec (Ty.str seq) val = all_ok (as_str val) can_copy
  accepts_at rec (Ty.str_ref ptr_off len_off) val = all_ok (as_str val) can_copy
  accepts_at rec (Ty.vec elem elem_size elem_align seq) val =
      all_ok (expect_array val) (accepts_vec rec elem elem_size elem_align)
  accepts_at rec (Ty.boxed inner size align) val =
      (size == 0 || can_alloc size (at_least_one align)) && rec inner val
  accepts_at rec Ty.unit val = true
  accepts_at rec (Ty.opt disc_off disc_size none_discr some_discr payload_off size inner) val =
      accepts_opt rec disc_size some_discr inner (is_null val) val
  accepts_at rec (Ty.map key key_size val_ty val_size new_at insert) val = false
  accepts_at rec (Ty.ref cell) val = all_ok (cell_body cell env.cells) (λ ty. rec ty val)
  accepts_at rec (Ty.unknown what) val = false

  -- The levels of the type that are left.
  unfoldable pub accepts : (fuel : ℕ) → Test
  unfolding accepts_at
  accepts zero ty val = false
  accepts (suc fuel) ty val = accepts_at (accepts fuel) ty val
