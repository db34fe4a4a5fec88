-- ===== src/Interp/Frame.antt =====
-- interp.rs: `run` writes inside the destination and the blocks that it allocates, and nowhere else.
use bilbo.Base.{
  ℕ, zero, suc, ◌+◌, ◌-◌, ◌≡◌, inl, inr, true, some, arith, leb, leb→le, if◌then◌else◌, length,
  Bool-cases, and-both, ok, >>=-eq-ok,
}
use bilbo.Json.Value.{Json, as_u128, as_i128, as_str}
use bilbo.Plan.{Ty, RecCell, cell_body}
use bilbo.Plan.Fits.{fits, FitCells, cell_body-some}
use bilbo.Machine.{Machine, write}
use bilbo.Machine.Frame.{Kept, Kept-refl, Kept-trans, Kept-part, write-Kept, zero_bytes-Kept}
use bilbo.Interp.{
  Env, Writer, pattern, first_char, is_true, is_null, expect_array, write_seq, as_f64, alloc_copy,
  box_alloc, run_at, run,
}
use bilbo.Interp.Parts.{
  exact, write_le-Kept, write_seq-Kept, Framed, alloc_copy-Kept, run_fields-Kept, run_zip-Kept,
  run_vec-Kept, boxed-Kept, write_discr-Kept,
}

module _ (env : Env) (sizes : RecCell → ℕ) (cells : FitCells exact sizes env.cells) where
  pub run_at-Framed : (rec : Writer) → Framed env sizes rec → Framed env sizes (run_at env rec)
  unfolding run_at fits
  run_at-Framed rec framed dst n Ty.bool val m m' h e =
      let done : write 1 dst (if is_true val then 1 else 0) m ≡ m' = cc in
      rw (← done) (write-Kept 1 dst _ dst n m (omega arith) (ground arith))
  run_at-Framed rec framed dst n Ty.char val m m' h e =
      let (s, es, e1) = >>=-eq-ok (as_str val) _ e in
      let done : write 4 dst (first_char s) m ≡ m' = cc in
      rw (← done) (write-Kept 4 dst _ dst n m (omega arith) (ground arith))
  run_at-Framed rec framed dst n (Ty.u w) val m m' h e =
      let (v, ev, e1) = >>=-eq-ok (as_u128 val) _ e in
      write_le-Kept w dst v dst n m m' (omega arith) (ground arith) e1
  run_at-Framed rec framed dst n (Ty.i w) val m m' h e =
      let (v, ev, e1) = >>=-eq-ok (as_i128 val) _ e in
      write_le-Kept w dst (pattern v) dst n m m' (omega arith) (ground arith) e1
  run_at-Framed rec framed dst n Ty.f32 val m m' h e =
      let (v, ev, e1) = >>=-eq-ok (as_f64 env val) _ e in
      let done : write 4 dst (env.floats.to_f32 v) m ≡ m' = cc in
      rw (← done) (write-Kept 4 dst _ dst n m (omega arith) (ground arith))
  run_at-Framed rec framed dst n Ty.f64 val m m' h e =
      let (v, ev, e1) = >>=-eq-ok (as_f64 env val) _ e in
      let done : write 8 dst v m ≡ m' = cc in
      rw (← done) (write-Kept 8 dst _ dst n m (omega arith) (ground arith))
  run_at-Framed rec framed dst n (Ty.struct name fs) val m m' h e =
      run_fields-Kept env sizes rec framed dst n fs val m m' h e
  run_at-Framed rec framed dst n (Ty.tuple fs) val m m' h e =
      let (xs, ex, e1) = >>=-eq-ok (expect_array val) _ e in
      run_zip-Kept env sizes rec framed dst n fs xs m m' h e1
  run_at-Framed rec framed dst n (Ty.str seq) val m m' h e =
      let (s, es, e1) = >>=-eq-ok (as_str val) _ e in
      let (r, er, e2) = >>=-eq-ok (alloc_copy env s 1 m) _ e1 in
      let done : write_seq dst seq r.0 (length s) (length s) r.1 ≡ m' = cc in
      alloc_copy-Kept env sizes s 1 r.0 dst n m r.1 m' er
        (rw (← done) (write_seq-Kept dst n seq r.0 (length s) (length s) r.1 h))
  run_at-Framed rec framed dst n (Ty.str_ref ptr_off len_off) val m m' h e =
      let (hp, hl) = and-both (leb (ptr_off + 8) n) _ h in
      let (s, es, e1) = >>=-eq-ok (as_str val) _ e in
      let (r, er, e2) = >>=-eq-ok (alloc_copy env s 1 m) _ e1 in
      let done : write 8 (dst + len_off) (length s) (write 8 (dst + ptr_off) r.0 r.1) ≡ m' = cc in
      alloc_copy-Kept env sizes s 1 r.0 dst n m r.1 m' er (
        rw (← done) (
          Kept-trans (write-Kept 8 (dst + ptr_off) r.0 dst n r.1 (omega arith) (ground arith))
            (write-Kept 8 (dst + len_off) (length s) dst n _ (omega arith) (ground arith))))
  run_at-Framed rec framed dst n (Ty.vec elem esz align seq) val m m' h e =
      let (he, hs) = and-both (fits exact sizes esz elem) _ h in
      let (xs, ex, e1) = >>=-eq-ok (expect_array val) _ e in
      run_vec-Kept env sizes rec framed dst n esz align elem seq xs m m' he hs e1
  run_at-Framed rec framed dst n (Ty.boxed inner size align) val m m' h e =
      let (hi, hw) = and-both (fits exact sizes size inner) _ h in
      let (r, er, e1) = >>=-eq-ok (box_alloc env size align m) _ e in
      let (m2, em, e2) = >>=-eq-ok (rec r.0 inner val r.1) _ e1 in
      let done : write 8 dst r.0 m2 ≡ m' = cc in
      Kept-trans (boxed-Kept env sizes rec framed size align r.0 dst n inner val m r.1 m2 hi er em)
        (rw (← done) (write-Kept 8 dst r.0 dst n m2 (omega arith) (ground arith)))
  run_at-Framed rec framed dst n Ty.unit val m m' h e =
      let done : m ≡ m' = cc in rw (← done) (Kept-refl dst n m)
  run_at-Framed rec framed dst n (Ty.opt disc_off w none_discr some_discr payload_off size inner)
        val m m' h e =
      let (hd, h1) = and-both (leb (disc_off + w) n) _ h in
      let (hs, h2) = and-both (leb size n) _ h1 in
      let (hp, hi) = and-both (leb payload_off n) _ h2 in
      elim (Bool-cases (is_null val)) [
        | inl absent ↦ Kept-trans (zero_bytes-Kept dst size dst n m (omega arith) (ground arith)) (
            write_discr-Kept env sizes rec framed disc_off w dst n (some none_discr) _ m'
              (leb→le _ _ hd) (rw (absent, run_at) at e))
        | inr there ↦
            let (m1, e1, e2) =
              >>=-eq-ok (rec (dst + payload_off) inner val m) _ (rw (there, run_at) at e) in
            Kept-trans
              (Kept-part (dst + payload_off) (n - payload_off) dst n (omega arith) (ground arith)
                (framed (dst + payload_off) (n - payload_off) inner val m m1 hi e1))
              (write_discr-Kept env sizes rec framed disc_off w dst n some_discr m1 m'
                (leb→le _ _ hd) e2)
      ]
  run_at-Framed rec framed dst n (Ty.map key key_size val_ty val_size new_at insert) val m m' h e =
      cc
  run_at-Framed rec framed dst n (Ty.ref cell) val m m' h e =
      let (ty, et, e1) = >>=-eq-ok (cell_body cell env.cells) _ e in
      Kept-part dst (sizes cell) dst n (omega arith) (ground arith) (
        framed dst (sizes cell) ty val m m' (cells cell ty (cell_body-some cell env.cells ty et))
          e1)
  run_at-Framed rec framed dst n (Ty.unknown what) val m m' h e = cc

  -- A run that ends well, into the `n` bytes at `dst` for a type that fits in them, changes no byte in
  -- use outside of these, and takes no block out of use.
  pub run-Kept :
      (fuel dst n : ℕ) (ty : Ty) (val : Json) (m m' : Machine)
      → fits exact sizes n ty ≡ true
      → run env fuel dst ty val m ≡ ok m'
      → Kept dst n m m'
  unfolding run
  run-Kept zero dst n ty val m m' h e = cc
  run-Kept (suc fuel) dst n ty val m m' h e =
      run_at-Framed (run env fuel) (run-Kept fuel) dst n ty val m m' h e
