-- ===== src/Interp/Value/Options.antt =====
-- interp.rs: after `run`, the destination and the blocks behind it hold the value of the document.
use bilbo.Base.{
  larger_le, ℕ, ◌+◌, ◌≤◌, ◌≡◌, refl, inl, inr, true, false, Option, none, some, arith, leb, ◌==◌,
  Bool-cases, and-both, ok, >>=-eq-ok,
}
use bilbo.Json.Value.{Json}
use bilbo.Plan.{Ty, RecCell}
use bilbo.Jit.Memory.{Memory, within, store}
use bilbo.Machine.{Machine, write}
use bilbo.Machine.Frame.{Kept}
use bilbo.Interp.{Env, Writer, write_le, is_null, at_least_one, write_discr, box_alloc, run_at}
use bilbo.Interp.Parts.{Framed, write_discr-Kept}
use bilbo.Interp.Value.{extent, apart_discr, is_separate, Word, Holds, HoldsDiscr, HoldsOpt}
use bilbo.Interp.Value.Fit.{extent-fits}
use bilbo.Interp.Value.Agree.{Agree, Used, Agree-block, store-Word, Word-Agree, Agree-nothing}
use bilbo.Interp.Value.Members.{Filled, part-Holds}

-- The bytes of an integer.
pub write_le-Word :
    (w d v dst n : ℕ) (m0 m m' : Machine) (mem : Memory)
    → dst ≤ d
    → d + w ≤ dst + n
    → write_le w d v m ≡ ok m'
    → Agree m0 m' dst n mem
    → Word mem w d v
unfolding write_le
write_le-Word w d v dst n m0 m m' mem p q e agree = elim (Bool-cases (leb w 16)) [
  | inl short ↦
      let done : write w d v m ≡ m' = cc (rw short at e) in
      Word-Agree w d v dst n m0 (write w d v m) mem p q (rw (← done) at agree)
        (store-Word m.mem w d v)
  | inr long ↦ absurd (cc (rw long at e))
]

pub write-Word :
    (w v dst n : ℕ) (m0 m m' : Machine) (mem : Memory)
    → w ≤ n
    → write w dst v m ≡ m'
    → Agree m0 m' dst n mem
    → Word mem w dst v
write-Word w v dst n m0 m m' mem h done agree =
    Word-Agree w dst v dst n m0 (write w dst v m) mem (omega arith) (omega arith)
      (rw (← done) at agree) (store-Word m.mem w dst v)

write_discr-Discr :
    (disc_off w dst n : ℕ) (d : Option ℕ) (m0 m m' : Machine) (mem : Memory)
    → disc_off + w ≤ n
    → write_discr disc_off w dst d m ≡ ok m'
    → Agree m0 m' dst n mem
    → HoldsDiscr mem w (dst + disc_off) d
unfolding write_discr
write_discr-Discr disc_off w dst n none m0 m m' mem h e agree = tt
write_discr-Discr disc_off w dst n (some d) m0 m m' mem h e agree =
    write_le-Word w (dst + disc_off) d dst n m0 m m' mem (omega arith) (omega arith) e agree

-- A discriminant leaves a payload alone that is apart from it.
write_discr-far :
    (disc_off w payload_off k dst : ℕ) (d : Option ℕ) (m m' : Machine)
    → apart_discr disc_off w payload_off k d ≡ true
    → write_discr disc_off w dst d m ≡ ok m'
    → (a : ℕ) → within (dst + payload_off) k a ≡ true
    → m'.mem a ≡ m.mem a
unfolding write_discr write_le store
write_discr-far disc_off w payload_off k dst none m m' far e a h =
    let done : m ≡ m' = cc in rw done refl
write_discr-far disc_off w payload_off k dst (some d) m m' far e a h =
    elim (Bool-cases (leb w 16)) [
      | inl short ↦
          let done : write w (dst + disc_off) d m ≡ m' = cc (rw short at e) in
          let outside : within (dst + disc_off) w a ≡ false = ground arith in
          rw (← done) (rw outside refl)
      | inr long ↦ absurd (cc (rw long at e))
    ]

module _ (env : Env) (sizes : RecCell → ℕ) (rec : Writer) (framed : Framed env sizes rec)
    (inner : Holds) (filled : Filled sizes rec inner) where
  pub boxed-Holds :
      (size align p dst n : ℕ) (ty : Ty) (val : Json) (m m1 m2 m' : Machine) (mem : Memory)
      → is_separate sizes ty ≡ true
      → extent sizes ty ≤ size
      → box_alloc env size align m ≡ ok (p, m1)
      → Used m dst n
      → rec p ty val m1 ≡ ok m2
      → Kept dst n m2 m'
      → Agree m m' dst n mem
      → inner mem p ty val
  unfolding box_alloc
  boxed-Holds size align p dst n ty val m m1 m2 m' mem s h e used er kept agree =
      elim (Bool-cases (size == 0)) [
        | inl empty ↦
            let same_m : m ≡ m1 = cc (rw empty at e) in
            let none_there : size ≡ 0 = ground arith in
            filled p 0 ty val m1 m2 mem s (rw none_there at h) (λ a w. absurd (ground arith)) er
              (rw (← same_m) (Agree-nothing p dst n m m2 m' mem used kept agree))
        | inr solid ↦
            let (block, free) =
              Agree-block env.std size (at_least_one align) p dst n m m1 m2 m' mem (rw solid at e)
                used (framed p size ty val m1 m2 (extent-fits sizes ty size s h) er) kept agree in
            filled p size ty val m1 m2 mem s h free er block
      ]

  pub opt-Holds :
      (disc_off w none_discr : ℕ) (some_discr : Option ℕ) (payload_off size : ℕ) (ty : Ty)
      (dst n : ℕ) (val : Json) (m m' : Machine) (mem : Memory)
      → is_separate sizes (Ty.opt disc_off w none_discr some_discr payload_off size ty) ≡ true
      → extent sizes (Ty.opt disc_off w none_discr some_discr payload_off size ty) ≤ n
      → Used m dst n
      → run_at env rec dst (Ty.opt disc_off w none_discr some_discr payload_off size ty) val m
        ≡ ok m'
      → Agree m m' dst n mem
      → HoldsOpt inner mem disc_off w none_discr some_discr payload_off ty dst (is_null val) val
  unfolding run_at is_separate extent
  opt-Holds disc_off w none_discr some_discr payload_off size ty dst n val m m' mem s h used e
        agree =
      let (far, st) =
        and-both (apart_discr disc_off w payload_off (extent sizes ty) some_discr) _ s in
      let (hd, h') = larger_le (disc_off + w) _ n h in
      let (hs, hp) = larger_le size _ n h' in
      elim (Bool-cases (is_null val)) [
        | inl absent ↦ rw absent (
            write_discr-Discr disc_off w dst n (some none_discr) m _ m' mem hd
              (rw (absent, run_at) at e) agree)
        | inr there ↦
            let (m1, e1, e2) =
              >>=-eq-ok (rec (dst + payload_off) ty val m) _ (rw (there, run_at) at e) in
            let kept =
              write_discr-Kept env sizes rec framed disc_off w dst n some_discr m1 m' hd e2 in
            rw there (
              part-Holds env sizes rec framed inner filled dst n payload_off ty val m m1 m' mem st
                  hp used e1 kept
                  (λ a x u.
                    write_discr-far disc_off w payload_off (extent sizes ty) dst some_discr m1 m'
                      far e2 a x)
                  agree,
              write_discr-Discr disc_off w dst n some_discr m m1 m' mem hd e2 agree,
            )
      ]
