-- ===== src/Interp/Value/Members.antt =====
-- interp.rs: the fields and elements that `run` has written are what memory holds, where the calls of
-- `run` inside write what they should.
use bilbo.Base.{
  larger_le, ℕ, ◌+◌, ◌≤◌, ◌≡◌, refl, ◌∙◌, inl, inr, true, false, none, some, arith, if◌then◌else◌,
  Bool-cases, Option-cases, and-both, ok, panic, >>=-eq-ok,
}
use bilbo.Json.Value.{Text, Json, Items, null, no_items, item, get}
use bilbo.Plan.{Ty, Fields, no_fields, field, RecCell}
use bilbo.Jit.Memory.{Memory, within}
use bilbo.Machine.{Machine}
use bilbo.Machine.Frame.{in_use, Kept, Kept-part}
use bilbo.Interp.{Env, Writer, is_opt, run_fields, run_zip}
use bilbo.Interp.Parts.{Framed, run_fields-Kept, run_zip-Kept}
use bilbo.Interp.Value.{
  extent, extent_fields, apart, apart_fields, is_separate, are_separate, Holds, HoldsField,
  HoldsFields, HoldsZip,
}
use bilbo.Interp.Value.Fit.{extent-fits, extent_fields-fits}
use bilbo.Interp.Value.Agree.{Agree, Used, Used-part, Used-Kept, Agree-first, Agree-second}

-- A writer that leaves what the predicate asks for.
abbrev pub Filled : (RecCell → ℕ) → Writer → Holds → Type 0
Filled sizes rec inner =
    (dst n : ℕ) (ty : Ty) (val : Json) (m m' : Machine) (mem : Memory)
    → is_separate sizes ty ≡ true
    → extent sizes ty ≤ n
    → Used m dst n
    → rec dst ty val m ≡ ok m'
    → Agree m m' dst n mem
    → inner mem dst ty val

-- Outside of a range that does not overlap.
far_off :
    (dst a n b k x : ℕ)
    → apart a n b k ≡ true
    → within (dst + a) n x ≡ true
    → within (dst + b) k x ≡ false
far_off dst a n b k x h w = ground arith

module _ (env : Env) (sizes : RecCell → ℕ) (rec : Writer) (framed : Framed env sizes rec) where
  pub field-Kept :
      (d : ℕ) (ty : Ty) (v : Json) (m m' : Machine)
      → is_separate sizes ty ≡ true
      → rec d ty v m ≡ ok m'
      → Kept d (extent sizes ty) m m'
  field-Kept d ty v m m' s e =
      framed d (extent sizes ty) ty v m m' (extent-fits sizes ty (extent sizes ty) s (omega arith))
        e

  -- A field's value, or `null` for an option that is absent.
  field_value :
      (inner : Holds) (d : ℕ) (name : Text) (ty : Ty) (val : Json) (m m' : Machine)
      → (elim (get val name) [
        | some fv ↦ rec d ty fv m
        | none ↦ if is_opt ty then rec d ty null m else panic
      ])
        ≡ ok m'
      → (v : Json) × (rec d ty v m ≡ ok m')
        × ((mem : Memory) → inner mem d ty v → HoldsField inner mem d ty (get val name))
  field_value inner d name ty val m m' e = elim (Option-cases (get val name)) [
    | inr (fv, there) ↦ (fv, rw there at e, λ mem h. rw there h)
    | inl absent ↦ elim (Bool-cases (is_opt ty)) [
      | inl opt ↦ (null, rw opt at (rw absent at e), λ mem h. rw absent (opt, h))
      | inr other ↦ absurd (cc (rw other at (rw absent at e)))
    ]
  ]

  run_fields-far :
      (dst off k : ℕ) (fs : Fields) (val : Json) (m m' : Machine)
      → are_separate sizes fs ≡ true
      → apart_fields sizes off k fs ≡ true
      → run_fields env rec dst fs val m ≡ ok m'
      → (a : ℕ) → within (dst + off) k a ≡ true
      → in_use m.live a ≡ true
      → m'.mem a ≡ m.mem a
  unfolding run_fields is_separate apart_fields
  run_fields-far dst off k no_fields val m m' s f e a w u = let done : m ≡ m' = cc in rw done refl
  run_fields-far dst off k (field name offset ty fs) val m m' s f e a w u =
      let (st, s') = and-both (is_separate sizes ty) _ s in
      let (far, f') = and-both (apart off k offset (extent sizes ty)) _ f in
      let (m1, e1, e2) =
        >>=-eq-ok
          (elim (get val name) [
            | some fv ↦ rec (dst + offset) ty fv m
            | none ↦ if is_opt ty then rec (dst + offset) ty null m else panic
          ])
          _ e in
      let (v, ev, out) = field_value (λ mem d t j. Unit) (dst + offset) name ty val m m1 e1 in
      let kept = field-Kept (dst + offset) ty v m m1 st ev in
      run_fields-far dst off k fs val m1 m' (and-both _ _ s').1 f' e2 a w (kept.live_kept a u)
      ∙ kept.mem_kept a u (far_off dst off k offset (extent sizes ty) a far w)

  run_zip-far :
      (dst off k : ℕ) (fs : Fields) (xs : Items) (m m' : Machine)
      → are_separate sizes fs ≡ true
      → apart_fields sizes off k fs ≡ true
      → run_zip env rec dst fs xs m ≡ ok m'
      → (a : ℕ) → within (dst + off) k a ≡ true
      → in_use m.live a ≡ true
      → m'.mem a ≡ m.mem a
  unfolding run_zip is_separate apart_fields
  run_zip-far dst off k no_fields xs m m' s f e a w u = let done : m ≡ m' = cc in rw done refl
  run_zip-far dst off k (field name offset ty fs) no_items m m' s f e a w u =
      let done : m ≡ m' = cc in rw done refl
  run_zip-far dst off k (field name offset ty fs) (item v xs) m m' s f e a w u =
      let (st, s') = and-both (is_separate sizes ty) _ s in
      let (far, f') = and-both (apart off k offset (extent sizes ty)) _ f in
      let (m1, ev, e2) = >>=-eq-ok (rec (dst + offset) ty v m) _ e in
      let kept = field-Kept (dst + offset) ty v m m1 st ev in
      run_zip-far dst off k fs xs m1 m' (and-both _ _ s').1 f' e2 a w (kept.live_kept a u)
      ∙ kept.mem_kept a u (far_off dst off k offset (extent sizes ty) a far w)

  module _ (inner : Holds) (filled : Filled sizes rec inner) where
    -- One part of the destination, before others that keep away from it.
    pub part-Holds :
        (dst n off : ℕ) (ty : Ty) (v : Json) (m m1 m' : Machine) (mem : Memory)
        → is_separate sizes ty ≡ true
        → off + extent sizes ty ≤ n
        → Used m dst n
        → rec (dst + off) ty v m ≡ ok m1
        → Kept dst n m1 m'
        → ((a : ℕ)
            → within (dst + off) (extent sizes ty) a ≡ true
            → in_use m1.live a ≡ true
            → m'.mem a ≡ m1.mem a)
        → Agree m m' dst n mem
        → inner mem (dst + off) ty v
    part-Holds dst n off ty v m m1 m' mem s room used e kept same agree =
        filled (dst + off) (extent sizes ty) ty v m m1 mem s (omega arith)
          (Used-part m dst n (dst + off) (extent sizes ty) used (omega arith) (omega arith)) e
          (Agree-first dst n (dst + off) (extent sizes ty) m m1 m' mem used (omega arith)
            (omega arith) same (field-Kept (dst + off) ty v m m1 s e) kept agree)

    pub run_fields-Holds :
        (dst n : ℕ) (fs : Fields) (val : Json) (m m' : Machine) (mem : Memory)
        → are_separate sizes fs ≡ true
        → extent_fields sizes fs ≤ n
        → Used m dst n
        → run_fields env rec dst fs val m ≡ ok m'
        → Agree m m' dst n mem
        → HoldsFields inner mem dst fs val
    unfolding run_fields is_separate extent
    run_fields-Holds dst n no_fields val m m' mem s h used e agree = tt
    run_fields-Holds dst n (field name offset ty fs) val m m' mem s h used e agree =
        let (st, s') = and-both (is_separate sizes ty) _ s in
        let (far, sf) = and-both (apart_fields sizes offset (extent sizes ty) fs) _ s' in
        let (ho, hf) = larger_le (offset + extent sizes ty) _ n h in
        let (m1, e1, e2) =
          >>=-eq-ok
            (elim (get val name) [
              | some fv ↦ rec (dst + offset) ty fv m
              | none ↦ if is_opt ty then rec (dst + offset) ty null m else panic
            ])
            _ e in
        let (v, ev, out) = field_value inner (dst + offset) name ty val m m1 e1 in
        let kept =
          run_fields-Kept env sizes rec framed dst n fs val m1 m'
            (extent_fields-fits sizes fs n sf hf) e2 in
        let first =
          Kept-part (dst + offset) (extent sizes ty) dst n (omega arith) (omega arith)
            (field-Kept (dst + offset) ty v m m1 st ev) in
        (
          out mem (
              part-Holds dst n offset ty v m m1 m' mem st ho used ev kept
                (run_fields-far dst offset (extent sizes ty) fs val m1 m' sf far e2) agree),
          run_fields-Holds dst n fs val m1 m' mem sf hf (Used-Kept dst n dst n used first) e2
              (Agree-second dst n dst n dst n m m1 m' mem (omega arith) (omega arith) first agree),
        )

    pub run_zip-Holds :
        (dst n : ℕ) (fs : Fields) (xs : Items) (m m' : Machine) (mem : Memory)
        → are_separate sizes fs ≡ true
        → extent_fields sizes fs ≤ n
        → Used m dst n
        → run_zip env rec dst fs xs m ≡ ok m'
        → Agree m m' dst n mem
        → HoldsZip inner mem dst fs xs
    unfolding run_zip is_separate extent
    run_zip-Holds dst n no_fields xs m m' mem s h used e agree = tt
    run_zip-Holds dst n (field name offset ty fs) no_items m m' mem s h used e agree = tt
    run_zip-Holds dst n (field name offset ty fs) (item v xs) m m' mem s h used e agree =
        let (st, s') = and-both (is_separate sizes ty) _ s in
        let (far, sf) = and-both (apart_fields sizes offset (extent sizes ty) fs) _ s' in
        let (ho, hf) = larger_le (offset + extent sizes ty) _ n h in
        let (m1, ev, e2) = >>=-eq-ok (rec (dst + offset) ty v m) _ e in
        let kept =
          run_zip-Kept env sizes rec framed dst n fs xs m1 m' (extent_fields-fits sizes fs n sf hf)
            e2 in
        let first =
          Kept-part (dst + offset) (extent sizes ty) dst n (omega arith) (omega arith)
            (field-Kept (dst + offset) ty v m m1 st ev) in
        (
          part-Holds dst n offset ty v m m1 m' mem st ho used ev kept
              (run_zip-far dst offset (extent sizes ty) fs xs m1 m' sf far e2) agree,
          run_zip-Holds dst n fs xs m1 m' mem sf hf (Used-Kept dst n dst n used first) e2
              (Agree-second dst n dst n dst n m m1 m' mem (omega arith) (omega arith) first agree),
        )
