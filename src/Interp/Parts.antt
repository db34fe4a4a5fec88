-- ===== src/Interp/Parts.antt =====
-- interp.rs: what the parts of `run` write, where the calls of `run` inside them keep to their range.
use bilbo.Base.{
  ℕ, suc, ◌+◌, ◌-◌, ◌*◌, ◌≤◌, ◌≡◌, inl, inr, true, Option, none, some, [], ◌∷◌, arith, leb, ◌==◌,
  if◌then◌else◌, length, Bool-cases, Option-cases, and-both, ok, panic, >>=-eq-ok,
}
use bilbo.Json.Value.{Text, Json, Items, null, no_items, item, get}
use bilbo.Plan.{Ty, Fields, no_fields, field, SeqLayout, RecCell}
use bilbo.Plan.Fits.{Limits, fits, fits_fields, fits_seq}
use bilbo.Machine.{Machine, set_mem, write, put_text, alloc}
use bilbo.Machine.Frame.{
  Kept, Kept-refl, Kept-trans, Kept-part, Kept-nothing, write-Kept, put_text-Kept, alloc-Kept,
}
use bilbo.Interp.{
  Env, Writer, write_le, is_opt, at_least_one, length_items, write_discr, write_seq, alloc_copy,
  run_fields, run_zip, run_items, run_vec, box_alloc,
}

-- The interpreter writes as many bytes as an integer has, and multiplies sizes exactly.
abbrev pub exact : Limits
exact = record { width = λ w. w; elem_fits = λ size. true; maps = true }

pub write_le-Kept :
    (w d v dst n : ℕ) (m m' : Machine)
    → dst ≤ d
    → d + w ≤ dst + n
    → write_le w d v m ≡ ok m'
    → Kept dst n m m'
unfolding write_le
write_le-Kept w d v dst n m m' p q e = elim (Bool-cases (leb w 16)) [
  | inl short ↦
      let done : write w d v m ≡ m' = cc (rw short at e) in
      rw (← done) (write-Kept w d v dst n m p q)
  | inr long ↦ absurd (cc (rw long at e))
]

pub write_seq-Kept :
    (dst n : ℕ) (seq : SeqLayout) (p c l : ℕ) (m : Machine)
    → fits_seq n seq ≡ true
    → Kept dst n m (write_seq dst seq p c l m)
write_seq-Kept dst n seq p c l m h =
    let (hp, h') = and-both (leb (seq.ptr_off + 8) n) _ h in
    let (hc, hl) = and-both (leb (seq.cap_off + 8) n) _ h' in
    Kept-trans (write-Kept 8 (dst + seq.ptr_off) p dst n m (omega arith) (ground arith)) (
      Kept-trans (write-Kept 8 (dst + seq.cap_off) c dst n _ (omega arith) (ground arith))
        (write-Kept 8 (dst + seq.len_off) l dst n _ (omega arith) (ground arith)))

-- The i-th of i + 1 + k slots.
pub slot_fits : (i k esz : ℕ) → i * esz + esz ≤ esz * (i + suc k)
slot_fits i k esz = omega arith

module _ (env : Env) (sizes : RecCell → ℕ) where
  -- What the calls of `run` on less fuel do.
  abbrev pub Framed : Writer → Type 0
  Framed rec =
      (dst n : ℕ) (ty : Ty) (val : Json) (m m' : Machine)
      → fits exact sizes n ty ≡ true
      → rec dst ty val m ≡ ok m'
      → Kept dst n m m'

  pub alloc_copy-Kept :
      (s : Text) (align p dst n : ℕ) (m m1 m2 : Machine)
      → alloc_copy env s align m ≡ ok (p, m1)
      → Kept dst n m1 m2
      → Kept dst n m m2
  unfolding alloc_copy
  alloc_copy-Kept [] align p dst n m m1 m2 e kept = let same_m : m ≡ m1 = cc in rw same_m kept
  alloc_copy-Kept (c ∷ s) align p dst n m m1 m2 e kept =
      let (r, er, e1) = >>=-eq-ok (alloc env.std (length (c ∷ s)) align m) _ e in
      let copied : set_mem (put_text r.1.mem r.0 (c ∷ s)) r.1 ≡ m1 = cc in
      Kept-trans
        (rw (← copied) (
          alloc-Kept env.std (length (c ∷ s)) align r.0 dst n m r.1 _ er
            (put_text-Kept r.0 (c ∷ s) r.1)))
        kept

  module _ (rec : Writer) (framed : Framed rec) where
    pub run_fields-Kept :
        (dst n : ℕ) (fs : Fields) (val : Json) (m m' : Machine)
        → fits_fields exact sizes n fs ≡ true
        → run_fields env rec dst fs val m ≡ ok m'
        → Kept dst n m m'
    unfolding run_fields fits
    run_fields-Kept dst n no_fields val m m' h e =
        let done : m ≡ m' = cc in rw (← done) (Kept-refl dst n m)
    run_fields-Kept dst n (field name offset ty fs) val m m' h e =
        let (ho, h') = and-both (leb offset n) _ h in
        let (ht, hf) = and-both (fits exact sizes (n - offset) ty) _ h' in
        let (m1, e1, e2) =
          >>=-eq-ok
            (elim (get val name) [
              | some fv ↦ rec (dst + offset) ty fv m
              | none ↦ if is_opt ty then rec (dst + offset) ty null m else panic
            ])
            _ e in
        Kept-trans
          (Kept-part (dst + offset) (n - offset) dst n (omega arith) (ground arith)
            (elim (Option-cases (get val name)) [
              | inr (fv, there) ↦ framed (dst + offset) (n - offset) ty fv m m1 ht (rw there at e1)
              | inl absent ↦ elim (Bool-cases (is_opt ty)) [
                | inl opt ↦
                    framed (dst + offset) (n - offset) ty null m m1 ht (rw opt at (rw absent at e1))
                | inr other ↦ absurd (cc (rw other at (rw absent at e1)))
              ]
            ]))
          (run_fields-Kept dst n fs val m1 m' hf e2)

    pub run_zip-Kept :
        (dst n : ℕ) (fs : Fields) (xs : Items) (m m' : Machine)
        → fits_fields exact sizes n fs ≡ true
        → run_zip env rec dst fs xs m ≡ ok m'
        → Kept dst n m m'
    unfolding run_zip fits
    run_zip-Kept dst n no_fields xs m m' h e =
        let done : m ≡ m' = cc in rw (← done) (Kept-refl dst n m)
    run_zip-Kept dst n (field name offset ty fs) no_items m m' h e =
        let done : m ≡ m' = cc in rw (← done) (Kept-refl dst n m)
    run_zip-Kept dst n (field name offset ty fs) (item v xs) m m' h e =
        let (ho, h') = and-both (leb offset n) _ h in
        let (ht, hf) = and-both (fits exact sizes (n - offset) ty) _ h' in
        let (m1, e1, e2) = >>=-eq-ok (rec (dst + offset) ty v m) _ e in
        Kept-trans
          (Kept-part (dst + offset) (n - offset) dst n (omega arith) (ground arith)
            (framed (dst + offset) (n - offset) ty v m m1 ht e1))
          (run_zip-Kept dst n fs xs m1 m' hf e2)

    pub run_items-Kept :
        (base esz i total : ℕ) (elem : Ty) (xs : Items) (m m' : Machine)
        → fits exact sizes esz elem ≡ true
        → i + length_items xs ≡ total
        → run_items env rec base esz elem i xs m ≡ ok m'
        → Kept base (esz * total) m m'
    unfolding run_items length_items
    run_items-Kept base esz i total elem no_items m m' h t e =
        let done : m ≡ m' = cc in rw (← done) (Kept-refl base (esz * total) m)
    run_items-Kept base esz i total elem (item v xs) m m' h t e =
        let (m1, e1, e2) = >>=-eq-ok (rec (base + i * esz) elem v m) _ e in
        let room : i * esz + esz ≤ esz * total = rw (← t) (slot_fits i (length_items xs) esz) in
        Kept-trans
          (Kept-part (base + i * esz) esz base (esz * total) (omega arith) (omega (arith, room))
            (framed (base + i * esz) esz elem v m m1 h e1))
          (run_items-Kept base esz (suc i) total elem xs m1 m' h (omega (arith, t)) e2)

    pub run_vec-Kept :
        (dst n esz align : ℕ) (elem : Ty) (seq : SeqLayout) (xs : Items) (m m' : Machine)
        → fits exact sizes esz elem ≡ true
        → fits_seq n seq ≡ true
        → run_vec env rec dst elem esz align seq xs m ≡ ok m'
        → Kept dst n m m'
    unfolding run_vec
    run_vec-Kept dst n esz align elem seq no_items m m' h hs e =
        let done : write_seq dst seq (at_least_one align) 0 0 m ≡ m' = cc in
        rw (← done) (write_seq-Kept dst n seq (at_least_one align) 0 0 m hs)
    run_vec-Kept dst n esz align elem seq (item v xs) m m' h hs e =
        let count = length_items (item v xs) in
        let (r, er, e1) = >>=-eq-ok (alloc env.std (esz * count) (at_least_one align) m) _ e in
        let (m2, em, e2) = >>=-eq-ok (run_items env rec r.0 esz elem 0 (item v xs) r.1) _ e1 in
        let done : write_seq dst seq r.0 count count m2 ≡ m' = cc in
        Kept-trans
          (alloc-Kept env.std (esz * count) (at_least_one align) r.0 dst n m r.1 m2 er
            (run_items-Kept r.0 esz 0 count elem (item v xs) r.1 m2 h (omega arith) em))
          (rw (← done) (write_seq-Kept dst n seq r.0 count count m2 hs))

    pub boxed-Kept :
        (size align p dst n : ℕ) (inner : Ty) (val : Json) (m m1 m2 : Machine)
        → fits exact sizes size inner ≡ true
        → box_alloc env size align m ≡ ok (p, m1)
        → rec p inner val m1 ≡ ok m2
        → Kept dst n m m2
    unfolding box_alloc
    boxed-Kept size align p dst n inner val m m1 m2 h e e' = elim (Bool-cases (size == 0)) [
      | inl empty ↦
          let same_m : m ≡ m1 = cc (rw empty at e) in
          let none_there : size ≡ 0 = ground arith in
          rw same_m (Kept-nothing p dst n (framed p 0 inner val m1 m2 (rw none_there at h) e'))
      | inr solid ↦
          alloc-Kept env.std size (at_least_one align) p dst n m m1 m2 (rw solid at e)
            (framed p size inner val m1 m2 h e')
    ]

    pub write_discr-Kept :
        (disc_off disc_size dst n : ℕ) (d : Option ℕ) (m m' : Machine)
        → disc_off + disc_size ≤ n
        → write_discr disc_off disc_size dst d m ≡ ok m'
        → Kept dst n m m'
    unfolding write_discr
    write_discr-Kept disc_off disc_size dst n none m m' h e =
        let done : m ≡ m' = cc in rw (← done) (Kept-refl dst n m)
    write_discr-Kept disc_off disc_size dst n (some d) m m' h e =
        write_le-Kept disc_size (dst + disc_off) d dst n m m' (omega arith) (omega arith) e
