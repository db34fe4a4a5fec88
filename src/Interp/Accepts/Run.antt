-- ===== src/Interp/Accepts/Run.antt =====
-- interp.rs: which documents `run` gives a result for.
use bilbo.Base.{ℕ, zero, suc, ◌+◌, ◌*◌, ◌≡◌, refl, inl, inr, some, Bool-cases, Option-cases}
use bilbo.Json.Value.{Json, null, Items, no_items, item, as_u128, as_i128, as_str, get}
use bilbo.Plan.{Ty, Fields, no_fields, field, SeqLayout, cell_body}
use bilbo.Machine.{Machine, set_mem, zero_bytes, alloc}
use bilbo.Interp.{
  Env, Writer, pattern, is_opt, is_null, at_least_one, length_items, expect_array, as_f64,
  alloc_copy, run_fields, run_zip, run_items, run_vec, box_alloc, run_at, run,
}
use bilbo.Interp.Accepts.{
  is_ok, Roomy, Test, accepts_fields, accepts_zip, accepts_items, accepts_vec, accepts_at, accepts,
}
use bilbo.Interp.Accepts.Calls.{
  is_ok->>=, is_ok-both, is_ok-then, write_le-is_ok, write_discr-is_ok, alloc-is_ok,
  alloc_copy-is_ok, box_alloc-is_ok,
}

module _ (env : Env) (roomy : Roomy env.std) where
  -- The results of an inner type's `run` are those its test tells.
  abbrev pub Told : Writer → Test → Type 0
  Told rec test =
      (dst : ℕ) (ty : Ty) (val : Json) (m : Machine) → is_ok (rec dst ty val m) ≡ test ty val

  module _ (rec : Writer) (test : Test) (told : Told rec test) where
    run_fields-is_ok :
        (dst : ℕ) (fs : Fields) (val : Json) (m : Machine)
        → is_ok (run_fields env rec dst fs val m) ≡ accepts_fields test fs val
    unfolding run_fields accepts_fields
    run_fields-is_ok dst no_fields val m = refl
    run_fields-is_ok dst (field name offset ty fs) val m = elim (Option-cases (get val name)) [
      | inr (fv, there) ↦ rw there (
          is_ok-both (rec (dst + offset) ty fv m) _ _ _ (told _ ty fv m)
            (λ m'. run_fields-is_ok dst fs val m'))
      | inl absent ↦ elim (Bool-cases (is_opt ty)) [
        | inl optional ↦ rw absent (
            rw optional (
              is_ok-both (rec (dst + offset) ty null m) _ _ _ (told _ ty null m)
                (λ m'. run_fields-is_ok dst fs val m')))
        | inr needed ↦ rw absent (rw needed refl)
      ]
    ]

    run_zip-is_ok :
        (dst : ℕ) (fs : Fields) (xs : Items) (m : Machine)
        → is_ok (run_zip env rec dst fs xs m) ≡ accepts_zip test fs xs
    unfolding run_zip accepts_zip
    run_zip-is_ok dst no_fields xs m = refl
    run_zip-is_ok dst (field name offset ty fs) no_items m = refl
    run_zip-is_ok dst (field name offset ty fs) (item v xs) m =
        is_ok-both (rec (dst + offset) ty v m) _ _ _ (told _ ty v m)
          (λ m'. run_zip-is_ok dst fs xs m')

    run_items-is_ok :
        (base esz : ℕ) (elem : Ty) (i : ℕ) (xs : Items) (m : Machine)
        → is_ok (run_items env rec base esz elem i xs m) ≡ accepts_items test elem xs
    unfolding run_items accepts_items
    run_items-is_ok base esz elem i no_items m = refl
    run_items-is_ok base esz elem i (item v xs) m =
        is_ok-both (rec (base + i * esz) elem v m) _ _ _ (told _ elem v m)
          (λ m'. run_items-is_ok base esz elem (suc i) xs m')

    run_vec-is_ok :
        (dst : ℕ) (elem : Ty) (esz align : ℕ) (seq : SeqLayout) (xs : Items) (m : Machine)
        → is_ok (run_vec env rec dst elem esz align seq xs m) ≡ accepts_vec test elem esz align xs
    unfolding run_vec accepts_vec
    run_vec-is_ok dst elem esz align seq no_items m = refl
    run_vec-is_ok dst elem esz align seq (item v xs) m =
        is_ok-both (alloc env.std (esz * length_items (item v xs)) (at_least_one align) m) _ _ _
          (alloc-is_ok env roomy _ _ m)
          (λ r.
            is_ok-then (run_items env rec r.0 esz elem 0 (item v xs) r.1) _ _
              (run_items-is_ok r.0 esz elem 0 (item v xs) r.1) (λ m'. refl))

    run_at-is_ok : Told (run_at env rec) (accepts_at env test)
    unfolding run_at accepts_at
    run_at-is_ok dst Ty.bool val m = refl
    run_at-is_ok dst Ty.char val m = is_ok->>= (as_str val) _ _ (λ s. refl)
    run_at-is_ok dst (Ty.u n) val m =
        is_ok-both (as_u128 val) _ _ _ refl (λ v. write_le-is_ok n dst v m)
    run_at-is_ok dst (Ty.i n) val m =
        is_ok-both (as_i128 val) _ _ _ refl (λ v. write_le-is_ok n dst (pattern v) m)
    run_at-is_ok dst Ty.f32 val m = is_ok->>= (as_f64 env val) _ _ (λ s. refl)
    run_at-is_ok dst Ty.f64 val m = is_ok->>= (as_f64 env val) _ _ (λ s. refl)
    run_at-is_ok dst (Ty.struct name fs) val m = run_fields-is_ok dst fs val m
    run_at-is_ok dst (Ty.tuple fs) val m =
        is_ok->>= (expect_array val) _ _ (λ xs. run_zip-is_ok dst fs xs m)
    run_at-is_ok dst (Ty.str seq) val m =
        is_ok->>= (as_str val) _ _
          (λ s. is_ok-then (alloc_copy env s 1 m) _ _ (alloc_copy-is_ok env roomy s m) (λ r. refl))
    run_at-is_ok dst (Ty.str_ref ptr_off len_off) val m =
        is_ok->>= (as_str val) _ _
          (λ s. is_ok-then (alloc_copy env s 1 m) _ _ (alloc_copy-is_ok env roomy s m) (λ r. refl))
    run_at-is_ok dst (Ty.vec elem esz align seq) val m =
        is_ok->>= (expect_array val) _ _ (λ xs. run_vec-is_ok dst elem esz align seq xs m)
    run_at-is_ok dst (Ty.boxed inner size align) val m =
        is_ok-both (box_alloc env size align m) _ _ _ (box_alloc-is_ok env roomy size align m)
          (λ r. is_ok-then (rec r.0 inner val r.1) _ _ (told r.0 inner val r.1) (λ m'. refl))
    run_at-is_ok dst Ty.unit val m = refl
    run_at-is_ok dst (Ty.opt d w nd sd po size inner) val m = elim (Bool-cases (is_null val)) [
      | inl absent ↦
          rw (absent, run_at)
            (write_discr-is_ok d w dst (some nd) (set_mem (zero_bytes m.mem dst size) m))
      | inr there ↦
          rw (there, run_at)
            (is_ok-both (rec (dst + po) inner val m) _ _ _ (told _ inner val m)
              (λ m'. write_discr-is_ok d w dst sd m'))
    ]
    run_at-is_ok dst (Ty.map key ks vt vs new_at insert) val m = refl
    run_at-is_ok dst (Ty.ref cell) val m =
        is_ok->>= (cell_body cell env.cells) _ _ (λ ty. told dst ty val m)
    run_at-is_ok dst (Ty.unknown what) val m = refl

  -- With an allocator that grants every layout, `run` gives a result exactly for the documents that the
  -- test accepts, wherever the value goes and whatever memory is like; for the others it panics, faults
  -- or runs out of fuel.
  pub run-accepts :
      (fuel dst : ℕ) (ty : Ty) (val : Json) (m : Machine)
      → is_ok (run env fuel dst ty val m) ≡ accepts env fuel ty val
  unfolding run accepts
  run-accepts zero dst ty val m = refl
  run-accepts (suc fuel) dst ty val m =
      run_at-is_ok (run env fuel) (accepts env fuel) (run-accepts fuel) dst ty val m
