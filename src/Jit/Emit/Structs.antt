-- ===== src/Jit/Emit/Structs.antt =====
-- jit.rs: what the code for a struct or a tuple writes.
use bilbo.Base.{
  ℕ, zero, suc, ◌+◌, ◌-◌, ◌^◌, ◌≤◌, ◌<◌, ◌≡◌, inl, inr, true, arith, leb, leb→le, ◌==◌, Bool-cases,
  Option-cases, and-both, ok, >>=-eq-ok,
}
use bilbo.Json.Value.{Text}
use bilbo.Plan.{Ty, Fields, no_fields, field, RecCell}
use bilbo.Plan.Fits.{fits, fits_fields}
use bilbo.Machine.{Machine}
use bilbo.Machine.Frame.{Kept, Kept-refl, Kept-trans, Kept-part}
use bilbo.Jit.Memory.{store_width}
use bilbo.Jit.Scan.{ws, strspan}
use bilbo.Jit.Number.{load_u8}
use bilbo.Jit.Keys.{dispatch}
use bilbo.Jit.Emit.{
  Parse, past_comma, field_names, default_fields, parse_field, struct_entry, struct_loop,
  parse_struct, tuple_fields, parse_tuple,
}
use bilbo.Jit.Emit.Alloc.{JitEnv}
use bilbo.Jit.Emit.Parts.{words, after-ok, set_none-Kept, Framed}

module _ (env : JitEnv) (sizes : RecCell → ℕ) where
  field_fits :
      (name : Text) (offset : ℕ) (ty : Ty) (fs : Fields) (n : ℕ)
      → fits_fields words sizes n (field name offset ty fs) ≡ true
      → (offset ≤ n)
        × (fits words sizes (n - offset) ty ≡ true)
        × (fits_fields words sizes n fs ≡ true)
  unfolding fits
  field_fits name offset ty fs n h =
      let (ho, h') = and-both (leb offset n) _ h in
      let (ht, hf) = and-both (fits words sizes (n - offset) ty) _ h' in (leb→le _ _ ho, ht, hf)

  default_fields-Kept :
      (dst n : ℕ) (fs : Fields) (m : Machine)
      → fits_fields words sizes n fs ≡ true
      → n < 2 ^ 31
      → Kept dst n m (default_fields dst fs m)
  unfolding default_fields fits
  default_fields-Kept dst n no_fields m h small = Kept-refl dst n m
  default_fields-Kept dst n
        (field name offset (Ty.opt disc_off w none_discr some_discr payload_off size inner) fs) m h
        small =
      let (ho, h') = and-both (leb offset n) _ h in
      let (ht, hf) =
        and-both
          (fits words sizes (n - offset)
            (Ty.opt disc_off w none_discr some_discr payload_off size inner))
          _ h' in
      let (hd, h1) = and-both (leb (disc_off + store_width w) (n - offset)) _ ht in
      let (hs, h2) = and-both (leb size (n - offset)) _ h1 in
      Kept-trans
        (set_none-Kept (dst + offset) disc_off w none_discr size dst n m (omega arith)
          (ground arith) (ground arith) (ground arith) (ground arith))
        (default_fields-Kept dst n fs _ hf small)
  default_fields-Kept dst n (field name offset ty fs) m h small =
      default_fields-Kept dst n fs m (field_fits name offset ty fs n h).2 small

  module _ (rec : Parse) (framed : Framed env sizes rec) where
    -- A field's own range lies in that of the struct.
    field-Kept :
        (dst n offset : ℕ) (ty : Ty) (cur out : Text) (m m' : Machine)
        → offset ≤ n
        → fits words sizes (n - offset) ty ≡ true
        → n < 2 ^ 31
        → rec ty (dst + offset) cur m ≡ ok (out, m')
        → Kept dst n m m'
    field-Kept dst n offset ty cur out m m' ho ht small e =
        Kept-part (dst + offset) (n - offset) dst n (omega arith) (ground arith)
          (framed (dst + offset) (n - offset) ty cur out m m' ht (omega arith) e)

    parse_field-Kept :
        (dst n i : ℕ) (fs : Fields) (cur out : Text) (m m' : Machine)
        → fits_fields words sizes n fs ≡ true
        → n < 2 ^ 31
        → parse_field rec i fs dst cur m ≡ ok (out, m')
        → Kept dst n m m'
    unfolding parse_field
    parse_field-Kept dst n i no_fields cur out m m' h small e = absurd (cc)
    parse_field-Kept dst n zero (field name offset ty fs) cur out m m' h small e =
        let (ho, ht, hf) = field_fits name offset ty fs n h in
        field-Kept dst n offset ty cur out m m' ho ht small e
    parse_field-Kept dst n (suc i) (field name offset ty fs) cur out m m' h small e =
        parse_field-Kept dst n i fs cur out m m' (field_fits name offset ty fs n h).2 small e

    struct_entry-Kept :
        (dst n : ℕ) (fs : Fields) (hc out : Text) (m m' : Machine)
        → fits_fields words sizes n fs ≡ true
        → n < 2 ^ 31
        → struct_entry env rec fs dst hc m ≡ ok (out, m')
        → Kept dst n m m'
    unfolding struct_entry
    struct_entry-Kept dst n fs hc out m m' h small e =
        let (key, ek, e1) = >>=-eq-ok (strspan env.crate hc) _ e in
        let (i, ei, e2) = >>=-eq-ok (dispatch _ _ (field_names fs)) _ e1 in
        elim (Option-cases i) [
          | inl unknown ↦
              let same_m : m ≡ m' = after-ok (rw unknown at e2) in rw same_m (Kept-refl dst n _)
          | inr (k, known) ↦ parse_field-Kept dst n k fs _ out m m' h small (rw known at e2)
        ]

    struct_loop-Kept :
        (rounds dst n : ℕ) (fs : Fields) (hc out : Text) (m m' : Machine)
        → fits_fields words sizes n fs ≡ true
        → n < 2 ^ 31
        → struct_loop env rec rounds fs dst hc m ≡ ok (out, m')
        → Kept dst n m m'
    unfolding struct_loop
    struct_loop-Kept zero dst n fs hc out m m' h small e = absurd (cc)
    struct_loop-Kept (suc rounds) dst n fs hc out m m' h small e =
        let (bch, eb, e1) = >>=-eq-ok (load_u8 (ws hc)) _ e in
        elim (Bool-cases (bch == b'}')) [
          | inl over ↦
              let same_m : m ≡ m' = after-ok (rw over at e1) in rw same_m (Kept-refl dst n _)
          | inr more ↦
              let ((ac, m1), ea, e2) =
                >>=-eq-ok (struct_entry env rec fs dst (ws hc) m) _ (rw more at e1) in
              let (ac', ec, e3) = >>=-eq-ok (past_comma (ws ac)) _ e2 in
              Kept-trans (struct_entry-Kept dst n fs (ws hc) ac m m1 h small ea)
                (struct_loop-Kept rounds dst n fs ac' out m1 m' h small e3)
        ]

    pub parse_struct-Kept :
        (rounds dst n : ℕ) (fs : Fields) (cur out : Text) (m m' : Machine)
        → fits_fields words sizes n fs ≡ true
        → n < 2 ^ 31
        → parse_struct env rec rounds fs dst cur m ≡ ok (out, m')
        → Kept dst n m m'
    unfolding parse_struct
    parse_struct-Kept rounds dst n fs cur out m m' h small e =
        Kept-trans (default_fields-Kept dst n fs m h small)
          (struct_loop-Kept rounds dst n fs _ out _ m' h small e)

    tuple_fields-Kept :
        (dst n : ℕ) (fs : Fields) (cur out : Text) (m m' : Machine)
        → fits_fields words sizes n fs ≡ true
        → n < 2 ^ 31
        → tuple_fields env rec fs dst cur m ≡ ok (out, m')
        → Kept dst n m m'
    unfolding tuple_fields
    tuple_fields-Kept dst n no_fields cur out m m' h small e =
        let same_m : m ≡ m' = after-ok e in rw same_m (Kept-refl dst n _)
    tuple_fields-Kept dst n (field name offset ty fs) cur out m m' h small e =
        let (ho, ht, hf) = field_fits name offset ty fs n h in
        let ((c1, m1), e1, e2) = >>=-eq-ok (rec ty (dst + offset) cur m) _ e in
        let (c2, ec, e3) = >>=-eq-ok (past_comma (ws c1)) _ e2 in
        Kept-trans (field-Kept dst n offset ty cur c1 m m1 ho ht small e1)
          (tuple_fields-Kept dst n fs c2 out m1 m' hf small e3)

    pub parse_tuple-Kept :
        (dst n : ℕ) (fs : Fields) (cur out : Text) (m m' : Machine)
        → fits_fields words sizes n fs ≡ true
        → n < 2 ^ 31
        → parse_tuple env rec fs dst cur m ≡ ok (out, m')
        → Kept dst n m m'
    unfolding parse_tuple
    parse_tuple-Kept dst n fs cur out m m' h small e =
        tuple_fields-Kept dst n fs _ out m m' h small e
