-- ===== src/Interp/Value/Elements.antt =====
-- interp.rs: the elements of a vector, in a block of their own.
use bilbo.Base.{
  ℕ, suc, ◌+◌, ◌*◌, ◌≤◌, ◌<◌, ◌≡◌, refl, ◌∙◌, true, false, arith, slot_room, ok, >>=-eq-ok,
}
use bilbo.Json.Value.{Items, no_items, item}
use bilbo.Plan.{Ty, SeqLayout, RecCell}
use bilbo.Jit.Memory.{Memory, within}
use bilbo.Machine.{Machine, alloc}
use bilbo.Machine.Frame.{in_use, Kept, Kept-part}
use bilbo.Interp.{Env, Writer, at_least_one, run_items, run_vec, length_items, write_seq}
use bilbo.Interp.Parts.{Framed, slot_fits, run_items-Kept, write_seq-Kept}
use bilbo.Interp.Value.{extent, extent_seq, apart_seq, is_separate, Holds, HoldsItems, Words}
use bilbo.Interp.Value.Fit.{extent-fits, seq_fits}
use bilbo.Interp.Value.Agree.{Agree, Used, Used-Kept, Agree-second, Agree-block, write_seq-Words}
use bilbo.Interp.Value.Members.{Filled, field-Kept, part-Holds}

-- An earlier slot.
earlier_slot :
    (base j i k esz x : ℕ)
    → j * esz + esz ≤ i * esz
    → k ≤ esz
    → within (base + j * esz) k x ≡ true
    → within (base + i * esz) k x ≡ false
earlier_slot base j i k esz x h q w = ground arith

module _ (env : Env) (sizes : RecCell → ℕ) (rec : Writer) (framed : Framed env sizes rec) where
  run_items-far :
      (base esz j i : ℕ) (elem : Ty) (xs : Items) (m m' : Machine)
      → is_separate sizes elem ≡ true
      → extent sizes elem ≤ esz
      → j < i
      → run_items env rec base esz elem i xs m ≡ ok m'
      → (a : ℕ) → within (base + j * esz) (extent sizes elem) a ≡ true
      → in_use m.live a ≡ true
      → m'.mem a ≡ m.mem a
  unfolding run_items
  run_items-far base esz j i elem no_items m m' s h p e a w u =
      let done : m ≡ m' = cc in rw done refl
  run_items-far base esz j i elem (item v xs) m m' s h p e a w u =
      let (m1, ev, e2) = >>=-eq-ok (rec (base + i * esz) elem v m) _ e in
      let kept = field-Kept env sizes rec framed (base + i * esz) elem v m m1 s ev in
      run_items-far base esz j (suc i) elem xs m1 m' s h (omega arith) e2 a w (kept.live_kept a u)
      ∙ kept.mem_kept a u
          (earlier_slot base j i (extent sizes elem) esz a (slot_room j i esz p).0 h w)

  module _ (inner : Holds) (filled : Filled sizes rec inner) where
    run_items-Holds :
        (base esz i total : ℕ) (elem : Ty) (xs : Items) (m m' : Machine) (mem : Memory)
        → is_separate sizes elem ≡ true
        → extent sizes elem ≤ esz
        → i + length_items xs ≡ total
        → Used m base (esz * total)
        → run_items env rec base esz elem i xs m ≡ ok m'
        → Agree m m' base (esz * total) mem
        → HoldsItems inner mem base esz elem i xs
    unfolding run_items length_items
    run_items-Holds base esz i total elem no_items m m' mem s h t used e agree = tt
    run_items-Holds base esz i total elem (item v xs) m m' mem s h t used e agree =
        let (m1, ev, e2) = >>=-eq-ok (rec (base + i * esz) elem v m) _ e in
        let room : i * esz + esz ≤ esz * total = rw (← t) (slot_fits i (length_items xs) esz) in
        let rest =
          run_items-Kept env sizes rec framed base esz (suc i) total elem xs m1 m'
            (extent-fits sizes elem esz s h) (omega (arith, t)) e2 in
        let kept =
          Kept-part (base + i * esz) (extent sizes elem) base (esz * total) (omega arith)
            (omega (arith, room))
            (field-Kept env sizes rec framed (base + i * esz) elem v m m1 s ev) in
        (
          part-Holds env sizes rec framed inner filled base (esz * total) (i * esz) elem v m m1 m'
              mem s (omega (arith, room)) used ev rest
              (run_items-far base esz i (suc i) elem xs m1 m' s h (omega arith) e2) agree,
          run_items-Holds base esz (suc i) total elem xs m1 m' mem s h (omega (arith, t))
              (Used-Kept base (esz * total) base (esz * total) used kept) e2
              (Agree-second base (esz * total) base (esz * total) base (esz * total) m m1 m' mem
                (omega arith) (omega arith) kept agree),
        )

    pub run_vec-Holds :
        (dst n esz align : ℕ) (elem : Ty) (seq : SeqLayout) (xs : Items) (m m' : Machine)
        (mem : Memory)
        → is_separate sizes elem ≡ true
        → extent sizes elem ≤ esz
        → apart_seq seq ≡ true
        → extent_seq seq ≤ n
        → Used m dst n
        → run_vec env rec dst elem esz align seq xs m ≡ ok m'
        → Agree m m' dst n mem
        → (p : ℕ) × Words mem dst seq p (length_items xs) (length_items xs)
          × HoldsItems inner mem p esz elem 0 xs
    unfolding run_vec length_items
    run_vec-Holds dst n esz align elem seq no_items m m' mem s h far room used e agree =
        let done : write_seq dst seq (at_least_one align) 0 0 m ≡ m' = cc in
        (
          at_least_one align,
          write_seq-Words dst n seq (at_least_one align) 0 0 m m mem room far
              (rw (← done) at agree),
          tt,
        )
    run_vec-Holds dst n esz align elem seq (item v xs) m m' mem s h far room used e agree =
        let count = length_items (item v xs) in
        let ((p, m1), er, e1) =
          >>=-eq-ok (alloc env.std (esz * count) (at_least_one align) m) _ e in
        let (m2, em, e2) = >>=-eq-ok (run_items env rec p esz elem 0 (item v xs) m1) _ e1 in
        let done : write_seq dst seq p count count m2 ≡ m' = cc in
        let elems =
          run_items-Kept env sizes rec framed p esz 0 count elem (item v xs) m1 m2
            (extent-fits sizes elem esz s h) (omega arith) em in
        let last : Kept dst n m2 m' =
          rw (← done) (write_seq-Kept dst n seq p count count m2 (seq_fits seq n room)) in
        let (block, free) =
          Agree-block env.std (esz * count) (at_least_one align) p dst n m m1 m2 m' mem er used
            elems last agree in
        (
          p,
          write_seq-Words dst n seq p count count m2 m mem room far (rw (← done) at agree),
          run_items-Holds p esz 0 count elem (item v xs) m1 m2 mem s h (omega arith) free em block,
        )
