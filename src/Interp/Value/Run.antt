-- ===== src/Interp/Value/Run.antt =====
-- interp.rs: after `run`, the destination and the blocks behind it hold the value of the document.
use bilbo.Base.{
  larger_le, ℕ, zero, suc, ◌+◌, ◌≤◌, ◌≡◌, true, List, arith, leb, leb→le, length, and-both, ok,
  >>=-eq-ok,
}
use bilbo.Json.Value.{Json, as_u128, as_i128, as_str}
use bilbo.Plan.{Ty, RecCell, cell_body}
use bilbo.Plan.Fits.{FitCells, cell_body-some}
use bilbo.Jit.Memory.{Memory, store}
use bilbo.Machine.{Machine, write}
use bilbo.Machine.Frame.{Kept, Kept-trans, write-Kept}
use bilbo.Interp.{
  Env, Writer, pattern, expect_array, write_seq, as_f64, alloc_copy, box_alloc, run_at, run,
}
use bilbo.Interp.Parts.{exact, Framed, write_seq-Kept}
use bilbo.Interp.Frame.{run-Kept}
use bilbo.Interp.Value.{extent, is_separate, SeparateCells, Holds, holds_at, holds}
use bilbo.Interp.Value.Fit.{extent-fits, seq_fits}
use bilbo.Interp.Value.Agree.{
  Agree, Used, store-Word, store-Word_apart, Word-Agree, write_seq-Words, alloc_copy-TextAt,
  shift_apart,
}
use bilbo.Interp.Value.Members.{Filled, run_fields-Holds, run_zip-Holds}
use bilbo.Interp.Value.Elements.{run_vec-Holds}
use bilbo.Interp.Value.Options.{write_le-Word, write-Word, boxed-Holds, opt-Holds}

-- Cells whose bodies are separate and have room fit in their sizes.
pub cells-fit :
    (sizes : RecCell → ℕ) (cells : List (RecCell × Ty))
    → SeparateCells sizes cells
    → FitCells exact sizes cells
cells-fit sizes cells separate id ty e =
    let (s, room) = separate id ty e in extent-fits sizes ty (sizes id) s room

module _ (env : Env) (sizes : RecCell → ℕ) (cells : SeparateCells sizes env.cells) where
  run_at-Filled :
      (rec : Writer) (inner : Holds)
      → Framed env sizes rec
      → Filled sizes rec inner
      → Filled sizes (run_at env rec) (holds_at env inner)
  unfolding run_at holds_at is_separate extent
  run_at-Filled rec inner framed filled dst n Ty.bool val m m' mem s h used e agree =
      write-Word 1 _ dst n m m m' mem h (cc) agree
  run_at-Filled rec inner framed filled dst n Ty.char val m m' mem s h used e agree =
      let (t, et, e1) = >>=-eq-ok (as_str val) _ e in
      (t, et, write-Word 4 _ dst n m m m' mem h (cc) agree)
  run_at-Filled rec inner framed filled dst n (Ty.u w) val m m' mem s h used e agree =
      let (v, ev, e1) = >>=-eq-ok (as_u128 val) _ e in
      (v, ev, write_le-Word w dst v dst n m m m' mem (omega arith) (omega arith) e1 agree)
  run_at-Filled rec inner framed filled dst n (Ty.i w) val m m' mem s h used e agree =
      let (v, ev, e1) = >>=-eq-ok (as_i128 val) _ e in
      (v, ev, write_le-Word w dst (pattern v) dst n m m m' mem (omega arith) (omega arith) e1 agree)
  run_at-Filled rec inner framed filled dst n Ty.f32 val m m' mem s h used e agree =
      let (v, ev, e1) = >>=-eq-ok (as_f64 env val) _ e in
      (v, ev, write-Word 4 _ dst n m m m' mem h (cc) agree)
  run_at-Filled rec inner framed filled dst n Ty.f64 val m m' mem s h used e agree =
      let (v, ev, e1) = >>=-eq-ok (as_f64 env val) _ e in
      (v, ev, write-Word 8 v dst n m m m' mem h (cc) agree)
  run_at-Filled rec inner framed filled dst n (Ty.struct name fs) val m m' mem s h used e agree =
      run_fields-Holds env sizes rec framed inner filled dst n fs val m m' mem s h used e agree
  run_at-Filled rec inner framed filled dst n (Ty.tuple fs) val m m' mem s h used e agree =
      let (xs, ex, e1) = >>=-eq-ok (expect_array val) _ e in
      (
        xs,
        ex,
        run_zip-Holds env sizes rec framed inner filled dst n fs xs m m' mem s h used e1 agree,
      )
  run_at-Filled rec inner framed filled dst n (Ty.str seq) val m m' mem s h used e agree =
      let (t, et, e1) = >>=-eq-ok (as_str val) _ e in
      let ((p, m1), er, e2) = >>=-eq-ok (alloc_copy env t 1 m) _ e1 in
      let done : write_seq dst seq p (length t) (length t) m1 ≡ m' = cc in
      let last : Kept dst n m1 m' =
        rw (← done) (write_seq-Kept dst n seq p (length t) (length t) m1 (seq_fits seq n h)) in
      (
        t,
        et,
        (
          p,
          write_seq-Words dst n seq p (length t) (length t) m1 m mem h s (rw (← done) at agree),
          alloc_copy-TextAt env t 1 p dst n m m1 m' mem er used last agree,
        ),
      )
  run_at-Filled rec inner framed filled dst n (Ty.str_ref ptr_off len_off) val m m' mem s h used e
        agree =
      let (hp, hl) = larger_le (ptr_off + 8) _ n h in
      let (t, et, e1) = >>=-eq-ok (as_str val) _ e in
      let ((p, m1), er, e2) = >>=-eq-ok (alloc_copy env t 1 m) _ e1 in
      let done : write 8 (dst + len_off) (length t) (write 8 (dst + ptr_off) p m1) ≡ m' = cc in
      let last : Kept dst n m1 m' = rw (← done) (
        Kept-trans (write-Kept 8 (dst + ptr_off) p dst n m1 (omega arith) (omega arith))
          (write-Kept 8 (dst + len_off) (length t) dst n _ (omega arith) (omega arith))) in
      let words = rw (← done) at agree in
      let under : Memory = store m1.mem 8 p (dst + ptr_off) in
      (
        t,
        et,
        (
          p,
          Word-Agree 8 _ p dst n m _ mem (omega arith) (omega arith) words (
              store-Word_apart under 8 _ p 8 _ (length t) (shift_apart dst _ _ _ _ s)
                (store-Word m1.mem 8 _ p)),
          Word-Agree 8 _ (length t) dst n m _ mem (omega arith) (omega arith) words
              (store-Word under 8 _ (length t)),
          alloc_copy-TextAt env t 1 p dst n m m1 m' mem er used last agree,
        ),
      )
  run_at-Filled rec inner framed filled dst n (Ty.vec elem esz align seq) val m m' mem s h used e
        agree =
      let (room, s') = and-both (leb (extent sizes elem) esz) _ s in
      let (se, far) = and-both (is_separate sizes elem) _ s' in
      let (xs, ex, e1) = >>=-eq-ok (expect_array val) _ e in
      (
        xs,
        ex,
        run_vec-Holds env sizes rec framed inner filled dst n esz align elem seq xs m m' mem se
            (leb→le _ _ room) far h used e1 agree,
      )
  run_at-Filled rec inner framed filled dst n (Ty.boxed ty size align) val m m' mem s h used e
        agree =
      let (room, st) = and-both (leb (extent sizes ty) size) _ s in
      let ((p, m1), er, e1) = >>=-eq-ok (box_alloc env size align m) _ e in
      let (m2, em, e2) = >>=-eq-ok (rec p ty val m1) _ e1 in
      let done : write 8 dst p m2 ≡ m' = cc in
      let last : Kept dst n m2 m' =
        rw (← done) (write-Kept 8 dst p dst n m2 (omega arith) (omega arith)) in
      (
        p,
        write-Word 8 p dst n m m2 m' mem h done agree,
        boxed-Holds env sizes rec framed inner filled size align p dst n ty val m m1 m2 m' mem st
            (leb→le _ _ room) er used em last agree,
      )
  run_at-Filled rec inner framed filled dst n Ty.unit val m m' mem s h used e agree = tt
  run_at-Filled rec inner framed filled dst n (Ty.opt d w nd sd po size ty) val m m' mem s h used e
        agree =
      opt-Holds env sizes rec framed inner filled d w nd sd po size ty dst n val m m' mem s h used e
        agree
  run_at-Filled rec inner framed filled dst n (Ty.map key ks vt vs new_at insert) val m m' mem s h
        used e agree =
      absurd (cc)
  run_at-Filled rec inner framed filled dst n (Ty.ref cell) val m m' mem s h used e agree =
      let (ty, et, e1) = >>=-eq-ok (cell_body cell env.cells) _ e in
      let (st, room) = cells cell ty (cell_body-some cell env.cells ty et) in
      (ty, et, filled dst n ty val m m' mem st (omega arith) used e1 agree)
  run_at-Filled rec inner framed filled dst n (Ty.unknown what) val m m' mem s h used e agree =
      absurd (cc)

  -- A run that ends well, into `n` bytes in use at `dst`, for a type that has room there and whose parts
  -- do not overlap, leaves the value of the document: so says every memory that agrees with the one
  -- after the run on these bytes and on the blocks that the run has allocated.
  pub run-Holds :
      (fuel dst n : ℕ) (ty : Ty) (val : Json) (m m' : Machine) (mem : Memory)
      → is_separate sizes ty ≡ true
      → extent sizes ty ≤ n
      → Used m dst n
      → run env fuel dst ty val m ≡ ok m'
      → Agree m m' dst n mem
      → holds env fuel mem dst ty val
  unfolding run holds
  run-Holds zero dst n ty val m m' mem s h used e agree = absurd (cc)
  run-Holds (suc fuel) dst n ty val m m' mem s h used e agree =
      run_at-Filled (run env fuel) (holds env fuel)
        (run-Kept env sizes (cells-fit sizes env.cells cells) fuel) (run-Holds fuel) dst n ty val m
        m' mem s h used e agree
