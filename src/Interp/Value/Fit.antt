-- ===== src/Interp/Value/Fit.antt =====
-- interp.rs: a type whose parts are apart fits in its extent.
use bilbo.Base.{
  larger_le, ℕ, ◌+◌, ◌-◌, ◌≤◌, ◌≡◌, refl, Bool, true, ◌&&◌, arith, leb, leb→le, le→leb, and-both,
}
use bilbo.Plan.{Ty, Fields, no_fields, field, SeqLayout, RecCell}
use bilbo.Plan.Fits.{fits, fits_fields, fits_seq}
use bilbo.Interp.Parts.{exact}
use bilbo.Interp.Value.{extent, extent_fields, extent_seq, is_separate, are_separate}

and-true : {a b : Bool} → a ≡ true → b ≡ true → (a && b) ≡ true
and-true h k = rw (h, k) refl

pub seq_fits : (seq : SeqLayout) (n : ℕ) → extent_seq seq ≤ n → fits_seq n seq ≡ true
seq_fits seq n h =
    let (hp, h') = larger_le (seq.ptr_off + 8) _ n h in
    let (hc, hl) = larger_le (seq.cap_off + 8) _ n h' in
    and-true (le→leb _ _ hp) (and-true (le→leb _ _ hc) (le→leb _ _ hl))

module _ (sizes : RecCell → ℕ) where
  mutual
    unfolding fits extent is_separate

    pub extent-fits :
        (ty : Ty) (n : ℕ)
        → is_separate sizes ty ≡ true
        → extent sizes ty ≤ n
        → fits exact sizes n ty ≡ true
    extent-fits Ty.bool n s h = le→leb _ _ h
    extent-fits Ty.char n s h = le→leb _ _ h
    extent-fits Ty.f32 n s h = le→leb _ _ h
    extent-fits Ty.f64 n s h = le→leb _ _ h
    extent-fits Ty.unit n s h = refl
    extent-fits (Ty.u w) n s h = le→leb _ _ h
    extent-fits (Ty.i w) n s h = le→leb _ _ h
    extent-fits (Ty.struct name fs) n s h = extent_fields-fits fs n s h
    extent-fits (Ty.tuple fs) n s h = extent_fields-fits fs n s h
    extent-fits (Ty.str seq) n s h = seq_fits seq n h
    extent-fits (Ty.vec elem elem_size elem_align seq) n s h =
        let (room, s') = and-both (leb (extent sizes elem) elem_size) _ s in
        and-true (extent-fits elem elem_size (and-both _ _ s').0 (leb→le _ _ room))
          (seq_fits seq n h)
    extent-fits (Ty.str_ref ptr_off len_off) n s h =
        let (hp, hl) = larger_le (ptr_off + 8) _ n h in and-true (le→leb _ _ hp) (le→leb _ _ hl)
    extent-fits (Ty.boxed inner size align) n s h =
        let (room, s') = and-both (leb (extent sizes inner) size) _ s in
        and-true (extent-fits inner size s' (leb→le _ _ room)) (le→leb _ _ h)
    extent-fits (Ty.opt disc_off disc_size none_discr some_discr payload_off size inner) n s h =
        let (hd, h') = larger_le (disc_off + disc_size) _ n h in
        let (hs, hp) = larger_le size _ n h' in
        let there = extent-fits inner (n - payload_off) (and-both _ _ s).1 (omega arith) in
        and-true (le→leb _ _ hd)
          (and-true (le→leb _ _ hs) (and-true (le→leb _ _ (omega arith)) there))
    extent-fits (Ty.map key key_size val val_size new_at insert) n s h = absurd (cc)
    extent-fits (Ty.ref cell) n s h = le→leb _ _ h
    extent-fits (Ty.unknown what) n s h = absurd (cc)

    pub extent_fields-fits :
        (fs : Fields) (n : ℕ)
        → are_separate sizes fs ≡ true
        → extent_fields sizes fs ≤ n
        → fits_fields exact sizes n fs ≡ true
    extent_fields-fits no_fields n s h = refl
    extent_fields-fits (field name offset ty fs) n s h =
        let (ho, hf) = larger_le (offset + extent sizes ty) _ n h in
        let (st, s') = and-both (is_separate sizes ty) _ s in
        and-true (le→leb _ _ (omega arith)) (
          and-true (extent-fits ty (n - offset) st (omega arith))
            (extent_fields-fits fs n (and-both _ _ s').1 hf))
