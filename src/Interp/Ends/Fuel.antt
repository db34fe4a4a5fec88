-- ===== src/Interp/Ends/Fuel.antt =====
-- interp.rs: `run` ends.
use bilbo.Base.{
  ℕ, zero, suc, ◌+◌, ◌*◌, ◌≤◌, ◌≡◌, inl, inr, true, some, arith, leb, Bool-cases, and-both, Ends,
  >>=-Ends,
}
use bilbo.Json.Value.{Json, null, as_u128, as_i128, as_str}
use bilbo.Plan.{Ty, cell_body}
use bilbo.Plan.Fits.{cell_body-some}
use bilbo.Machine.{Machine, set_mem, zero_bytes}
use bilbo.Interp.{Env, is_opt, is_null, expect_array, as_f64, alloc_copy, box_alloc, run_at, run}
use bilbo.Interp.Ends.{
  depth, levels, is_shallow, GuardedCells, write_le-Ends, write_discr-Ends, as_u128-Ends,
  as_i128-Ends, as_str-Ends, as_f64-Ends, alloc_copy-Ends,
}
use bilbo.Interp.Ends.Loops.{
  Enough, next-Ends, expect_array-Ends, expect_array-depth, cell_body-Ends, run_fields-Ends,
  run_zip-Ends, run_vec-Ends, box_alloc-Ends,
}

levels_pos : (g : ℕ) (ty : Ty) → 1 ≤ levels g ty
unfolding levels
levels_pos g Ty.bool = omega arith
levels_pos g Ty.char = omega arith
levels_pos g Ty.f32 = omega arith
levels_pos g Ty.f64 = omega arith
levels_pos g Ty.unit = omega arith
levels_pos g (Ty.u w) = omega arith
levels_pos g (Ty.i w) = omega arith
levels_pos g (Ty.struct name fs) = omega arith
levels_pos g (Ty.tuple fs) = omega arith
levels_pos g (Ty.str seq) = omega arith
levels_pos g (Ty.vec elem es al seq) = omega arith
levels_pos g (Ty.str_ref p l) = omega arith
levels_pos g (Ty.boxed inner size align) = omega arith
levels_pos g (Ty.opt d w nd sd po size inner) = omega arith
levels_pos g (Ty.map key ks vt vs new_at insert) = omega arith
levels_pos g (Ty.ref cell) = omega arith
levels_pos g (Ty.unknown what) = omega arith

module _ (env : Env) (g k : ℕ) (guarded : GuardedCells g k env.cells) where
  -- An option that is absent takes one level.
  absent-Ends :
      (fuel dst : ℕ) (ty : Ty) (m : Machine)
      → is_opt ty ≡ true
      → 1 ≤ fuel
      → Ends (run env fuel dst ty null m)
  unfolding run run_at
  absent-Ends zero dst ty m o p = absurd (omega arith)
  absent-Ends (suc fuel) dst (Ty.opt d w nd sd po size inner) m o p =
      write_discr-Ends d w dst (some nd) _
  absent-Ends (suc fuel) dst ty m o p = absurd (cc)

  run_at-Ends :
      (fuel dst : ℕ) (ty : Ty) (val : Json) (m : Machine)
      → Enough g k (run env fuel) fuel
      → is_shallow g k ty ≡ true
      → levels g ty + depth val * k ≤ suc fuel
      → Ends (run_at env (run env fuel) dst ty val m)
  unfolding run_at levels is_shallow
  run_at-Ends fuel dst Ty.bool val m enough s h = tt
  run_at-Ends fuel dst Ty.char val m enough s h =
      >>=-Ends (as_str val) _ (as_str-Ends val) (λ t. tt)
  run_at-Ends fuel dst (Ty.u n) val m enough s h =
      >>=-Ends (as_u128 val) _ (as_u128-Ends val) (λ v. write_le-Ends n dst v m)
  run_at-Ends fuel dst (Ty.i n) val m enough s h =
      >>=-Ends (as_i128 val) _ (as_i128-Ends val) (λ v. write_le-Ends n dst _ m)
  run_at-Ends fuel dst Ty.f32 val m enough s h =
      >>=-Ends (as_f64 env val) _ (as_f64-Ends env val) (λ v. tt)
  run_at-Ends fuel dst Ty.f64 val m enough s h =
      >>=-Ends (as_f64 env val) _ (as_f64-Ends env val) (λ v. tt)
  run_at-Ends fuel dst (Ty.struct name fs) val m enough s h =
      run_fields-Ends env g k (run env fuel) fuel enough dst fs val m s (omega arith) (omega arith)
  run_at-Ends fuel dst (Ty.tuple fs) val m enough s h =
      next-Ends (expect_array val) _ (expect_array-Ends val) (λ xs e.
        run_zip-Ends env g k (run env fuel) fuel enough dst fs xs (depth val) m s
          (expect_array-depth val xs e) (omega arith))
  run_at-Ends fuel dst (Ty.str seq) val m enough s h =
      >>=-Ends (as_str val) _ (as_str-Ends val)
        (λ t. >>=-Ends (alloc_copy env t 1 m) _ (alloc_copy-Ends env t 1 m) (λ r. tt))
  run_at-Ends fuel dst (Ty.str_ref ptr_off len_off) val m enough s h =
      >>=-Ends (as_str val) _ (as_str-Ends val)
        (λ t. >>=-Ends (alloc_copy env t 1 m) _ (alloc_copy-Ends env t 1 m) (λ r. tt))
  run_at-Ends fuel dst (Ty.vec elem esz align seq) val m enough s h =
      let (few, se) = and-both (leb (levels g elem) k) _ s in
      next-Ends (expect_array val) _ (expect_array-Ends val) (λ xs e.
        run_vec-Ends env g k (run env fuel) fuel enough dst esz align elem seq xs (depth val) m few
          se (expect_array-depth val xs e) (omega arith))
  run_at-Ends fuel dst (Ty.boxed inner size align) val m enough s h =
      >>=-Ends (box_alloc env size align m) _
        (box_alloc-Ends env g k (run env fuel) fuel enough size align m)
        (λ r.
          >>=-Ends (run env fuel r.0 inner val r.1) _ (enough.0 r.0 inner val r.1 s (omega arith))
            (λ m'. tt))
  run_at-Ends fuel dst Ty.unit val m enough s h = tt
  run_at-Ends fuel dst (Ty.opt d w nd sd po size inner) val m enough s h =
      elim (Bool-cases (is_null val)) [
        | inl absent ↦
            rw (absent, run_at)
              (write_discr-Ends d w dst (some nd) (set_mem (zero_bytes m.mem dst size) m))
        | inr there ↦
            rw (there, run_at)
              (>>=-Ends (run env fuel (dst + po) inner val m) _
                (enough.0 (dst + po) inner val m s (omega arith))
                (λ m'. write_discr-Ends d w dst sd m'))
      ]
  run_at-Ends fuel dst (Ty.map key ks vt vs new_at insert) val m enough s h = tt
  run_at-Ends fuel dst (Ty.ref cell) val m enough s h =
      next-Ends (cell_body cell env.cells) _ (cell_body-Ends cell env.cells) (λ ty e.
        let (few, st) = guarded cell ty (cell_body-some cell env.cells ty e) in
        enough.0 dst ty val m st (omega (arith, few, h)))
  run_at-Ends fuel dst (Ty.unknown what) val m enough s h = tt

  -- `run` ends, with a result, a panic or undefined behaviour: the fuel is enough that goes down the
  -- levels of the type once, and `k` levels for each level of nesting of the document. A recursive type
  -- comes back to itself only through a struct, a tuple or a vector.
  pub run-Ends :
      (fuel dst : ℕ) (ty : Ty) (val : Json) (m : Machine)
      → is_shallow g k ty ≡ true
      → levels g ty + depth val * k ≤ fuel
      → Ends (run env fuel dst ty val m)
  unfolding run
  run-Ends zero dst ty val m s h =
      let some_level = levels_pos g ty in absurd (omega (arith, some_level, h))
  run-Ends (suc fuel) dst ty val m s h =
      run_at-Ends fuel dst ty val m (run-Ends fuel, absent-Ends fuel) s h
