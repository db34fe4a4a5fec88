-- ===== src/Jit/Emit/Frame.antt =====
-- jit.rs: the emitted code writes inside the destination and the blocks that it allocates, and nowhere
-- else.
use bilbo.Base.{
  ℕ, zero, suc, ◌+◌, ◌-◌, ◌^◌, ◌<◌, ◌≡◌, inl, inr, true, false, Option, arith, leb, ltb, ltb→lt,
  ◌==◌, if◌then◌else◌, length, drop, Bool-cases, Option-cases, and-both, ok, >>=-eq-ok,
}
use bilbo.Json.Value.{Text}
use bilbo.Plan.{Ty, RecCell}
use bilbo.Plan.Fits.{fits}
use bilbo.Machine.{Machine, set_mem, write}
use bilbo.Machine.Frame.{Kept, Kept-refl, Kept-trans, Kept-part, write-Kept}
use bilbo.Jit.Memory.{store_width, store_imm, store_sized}
use bilbo.Jit.Scan.{ws, strspan}
use bilbo.Jit.Number.{load_u8}
use bilbo.Jit.Emit.{Parse, set_none, write_words, write_ref, parse_opt}
use bilbo.Jit.Emit.Alloc.{JitEnv, rt_box_alloc, owned}
use bilbo.Plan.{cell_body}
use bilbo.Plan.Fits.{FitCells, cell_body-some}
use bilbo.Jit.Scan.{build_str}
use bilbo.Jit.Unescape.Length.{build_str-length}
use bilbo.Jit.Emit.Owned.{owned-Kept}
use bilbo.Jit.Number.{intval}
use bilbo.Jit.Emit.{parse_at, parse}
use bilbo.Jit.Emit.Alloc.{rt_f64v}
use bilbo.Jit.Emit.Parts.{
  words, after-ok, store_imm-Kept, set_none-Kept, write_words-Kept, rt_box_alloc-Kept,
  write_ref-Kept, Framed,
}
use bilbo.Jit.Emit.Structs.{parse_struct-Kept, parse_tuple-Kept}
use bilbo.Jit.Emit.Vecs.{parse_vec-Kept}

store_sized-Kept :
    (v w dst n : ℕ) (m : Machine)
    → leb (store_width w) n ≡ true
    → Kept dst n m (set_mem (store_sized dst v w m.mem) m)
unfolding store_sized
store_sized-Kept v w dst n m h =
    write-Kept (store_width w) dst v dst n m (omega arith) (ground arith)

module _ (env : JitEnv) (sizes : RecCell → ℕ) where
  parse_opt-Kept :
      (rec : Parse)
      → Framed env sizes rec
      → (disc_off w none_discr : ℕ) (some_discr : Option ℕ) (payload_off size : ℕ) (inner : Ty)
        (dst n : ℕ) (cur out : Text) (m m' : Machine)
      → fits words sizes n (Ty.opt disc_off w none_discr some_discr payload_off size inner) ≡ true
      → n < 2 ^ 31
      → parse_opt env rec disc_off w none_discr some_discr payload_off size inner dst cur m
        ≡ ok (out, m')
      → Kept dst n m m'
  unfolding parse_opt fits
  parse_opt-Kept rec framed disc_off w none_discr some_discr payload_off size inner dst n cur out m
        m' h small e =
      let (hd, h1) = and-both (leb (disc_off + store_width w) n) _ h in
      let (hs, h2) = and-both (leb size n) _ h1 in
      let (hp, hi) = and-both (leb payload_off n) _ h2 in
      let (b, eb, e1) = >>=-eq-ok (load_u8 (ws cur)) _ e in
      elim (Bool-cases (b == b'n')) [
        | inl absent ↦
            let done : set_none dst disc_off w none_discr size m ≡ m' =
              after-ok (rw absent at e1) in
            rw (← done) (
              set_none-Kept dst disc_off w none_discr size dst n m (omega arith) (ground arith)
                (ground arith) (ground arith) (ground arith))
        | inr there ↦
            let ((c, m1), ec, e2) =
              >>=-eq-ok (rec inner (dst + payload_off) (ws cur) m) _ (rw there at e1) in
            let kept : Kept dst n m m1 =
              Kept-part (dst + payload_off) (n - payload_off) dst n (omega arith) (ground arith) (
                framed (dst + payload_off) (n - payload_off) inner (ws cur) c m m1 hi (omega arith)
                  ec) in
            elim (Option-cases some_discr) [
              | inl untagged ↦
                  let same_m : m1 ≡ m' = after-ok (rw untagged at e2) in rw (← same_m) kept
              | inr (d, tagged) ↦
                  let done : set_mem (store_imm dst disc_off d w m1.mem) m1 ≡ m' =
                    after-ok (rw tagged at e2) in
                  Kept-trans kept (
                    rw (← done) (
                      store_imm-Kept dst disc_off d w dst n m1 (omega arith) (ground arith)
                        (ground arith)))
            ]
      ]

module _ (env : JitEnv) (sizes : RecCell → ℕ) (cells : FitCells words sizes env.cells) where
  parse_at-Framed :
      (rec : Parse) (rounds : ℕ) → Framed env sizes rec → Framed env sizes (parse_at env rec rounds)
  unfolding parse_at fits
  parse_at-Framed rec rounds framed dst n Ty.bool cur out m m' h small e =
      let (b, eb, e1) = >>=-eq-ok (load_u8 (ws cur)) _ e in
      let done : write 1 dst (if b == b't' then 1 else 0) m ≡ m' = after-ok e1 in
      rw (← done) (write-Kept 1 dst _ dst n m (omega arith) (ground arith))
  parse_at-Framed rec rounds framed dst n (Ty.u w) cur out m m' h small e =
      let ((v, c), ev, e1) = >>=-eq-ok (intval false cur) _ e in
      let done : set_mem (store_sized dst v w m.mem) m ≡ m' = after-ok e1 in
      rw (← done) (store_sized-Kept v w dst n m h)
  parse_at-Framed rec rounds framed dst n (Ty.i w) cur out m m' h small e =
      let ((v, c), ev, e1) = >>=-eq-ok (intval true cur) _ e in
      let done : set_mem (store_sized dst v w m.mem) m ≡ m' = after-ok e1 in
      rw (← done) (store_sized-Kept v w dst n m h)
  parse_at-Framed rec rounds framed dst n Ty.f32 cur out m m' h small e =
      let done : write 4 dst (env.floats.to_f32 (rt_f64v env cur).0) m ≡ m' = after-ok e in
      rw (← done) (write-Kept 4 dst _ dst n m (omega arith) (ground arith))
  parse_at-Framed rec rounds framed dst n Ty.f64 cur out m m' h small e =
      let done : write 8 dst (rt_f64v env cur).0 m ≡ m' = after-ok e in
      rw (← done) (write-Kept 8 dst _ dst n m (omega arith) (ground arith))
  parse_at-Framed rec rounds framed dst n Ty.char cur out m m' h small e =
      let (s, es, e1) = >>=-eq-ok (strspan env.crate cur) _ e in
      let (ch, ec, e2) = >>=-eq-ok (load_u8 (drop 1 (ws cur))) _ e1 in
      let done : write 4 dst ch m ≡ m' = after-ok e2 in
      rw (← done) (write-Kept 4 dst ch dst n m (omega arith) (ground arith))
  parse_at-Framed rec rounds framed dst n (Ty.str seq) cur out m m' h small e =
      let (s, es, e0) = >>=-eq-ok (strspan env.crate cur) _ e in
      let (t, et, e1) = >>=-eq-ok (build_str s) _ e0 in
      let ((p, m1), ep, e2) = >>=-eq-ok (owned env s t m) _ e1 in
      let done : write_words dst seq p (length t) (length t) m1 ≡ m' = after-ok e2 in
      Kept-trans (owned-Kept env s t p dst n m m1 (build_str-length s t et) ep)
        (rw (← done) (write_words-Kept dst n seq p (length t) (length t) m1 h small))
  parse_at-Framed rec rounds framed dst n (Ty.str_ref ptr_off len_off) cur out m m' h small e =
      let (hp, hl) = and-both (leb (ptr_off + 8) n) _ h in
      let (s, es, e0) = >>=-eq-ok (strspan env.crate cur) _ e in
      let (t, et, e1) = >>=-eq-ok (build_str s) _ e0 in
      let ((p, m1), ep, e2) = >>=-eq-ok (owned env s t m) _ e1 in
      let done : write_ref dst ptr_off len_off p (length t) m1 ≡ m' = after-ok e2 in
      Kept-trans (owned-Kept env s t p dst n m m1 (build_str-length s t et) ep) (
        rw (← done) (
          write_ref-Kept dst n ptr_off len_off p (length t) m1 (ground arith) (ground arith) small))
  parse_at-Framed rec rounds framed dst n (Ty.struct name fs) cur out m m' h small e =
      parse_struct-Kept env sizes rec framed rounds dst n fs cur out m m' h small e
  parse_at-Framed rec rounds framed dst n (Ty.tuple fs) cur out m m' h small e =
      parse_tuple-Kept env sizes rec framed dst n fs cur out m m' h small e
  parse_at-Framed rec rounds framed dst n (Ty.vec elem esz align seq) cur out m m' h small e =
      let (hz, h1) = and-both (ltb esz (2 ^ 31)) _ h in
      let (he, hs) = and-both (fits words sizes esz elem) _ h1 in
      parse_vec-Kept env sizes rec framed rounds elem esz align seq dst n cur out m m'
        (ltb→lt _ _ hz) he hs small e
  parse_at-Framed rec rounds framed dst n (Ty.boxed inner size align) cur out m m' h small e =
      let (hb, h1) = and-both (ltb size (2 ^ 31)) _ h in
      let (hi, hw) = and-both (fits words sizes size inner) _ h1 in
      let ((p, m1), ep, e1) = >>=-eq-ok (rt_box_alloc env size align m) _ e in
      let ((c, m2), ec, e2) = >>=-eq-ok (rec inner p cur m1) _ e1 in
      let done : write 8 dst p m2 ≡ m' = after-ok e2 in
      Kept-trans
        (rt_box_alloc-Kept env size align p dst n m m1 m2 ep
          (framed p size inner cur c m1 m2 hi (ltb→lt _ _ hb) ec))
        (rw (← done) (write-Kept 8 dst p dst n m2 (omega arith) (ground arith)))
  parse_at-Framed rec rounds framed dst n Ty.unit cur out m m' h small e =
      let same_m : m ≡ m' = after-ok e in rw same_m (Kept-refl dst n _)
  parse_at-Framed rec rounds framed dst n
        (Ty.opt disc_off w none_discr some_discr payload_off size inner) cur out m m' h small e =
      parse_opt-Kept env sizes rec framed disc_off w none_discr some_discr payload_off size inner
        dst n cur out m m' h small e
  parse_at-Framed rec rounds framed dst n (Ty.map key key_size val val_size new_at insert) cur out m
        m' h small e =
      absurd (cc)
  parse_at-Framed rec rounds framed dst n (Ty.ref cell) cur out m m' h small e =
      let (ty, et, e1) = >>=-eq-ok (cell_body cell env.cells) _ e in
      Kept-part dst (sizes cell) dst n (omega arith) (ground arith) (
        framed dst (sizes cell) ty cur out m m'
          (cells cell ty (cell_body-some cell env.cells ty et)) (ground arith) e1)
  parse_at-Framed rec rounds framed dst n (Ty.unknown w) cur out m m' h small e = absurd (cc)

  -- The emitted code, when it gets to the end of a value without a map, into the `n` bytes at `dst` for
  -- a type that fits in them by the widths of its stores, changes no byte that was in use outside of
  -- these, and takes no block out of use that was in use before. The `n` bytes, the boxed values and the
  -- elements of vectors are smaller than 2^31 bytes.
  pub parse-Kept :
      (fuel dst n : ℕ) (ty : Ty) (cur out : Text) (m m' : Machine)
      → fits words sizes n ty ≡ true
      → n < 2 ^ 31
      → parse env fuel ty dst cur m ≡ ok (out, m')
      → Kept dst n m m'
  unfolding parse
  parse-Kept zero dst n ty cur out m m' h small e = absurd (cc)
  parse-Kept (suc fuel) dst n ty cur out m m' h small e =
      parse_at-Framed (parse env fuel) (suc fuel) (parse-Kept fuel) dst n ty cur out m m' h small e
