-- ===== src/Jit/Emit/Vecs.antt =====
-- jit.rs: what the code for a vector writes.
use bilbo.Base.{
  ℕ, zero, suc, ◌+◌, ◌*◌, ◌%◌, ◌^◌, ◌<◌, ◌≡◌, inl, inr, true, arith, ◌==◌, if◌then◌else◌, drop,
  Bool-cases, slot_room, ok, >>=-eq-ok,
}
use bilbo.Json.Value.{Text}
use bilbo.Plan.{Ty, SeqLayout, RecCell}
use bilbo.Plan.Fits.{fits, fits_seq}
use bilbo.Machine.{Machine}
use bilbo.Machine.Frame.{Kept, Kept-refl, Kept-trans, Kept-nothing}
use bilbo.Jit.Scan.{ws}
use bilbo.Jit.Number.{load_u8}
use bilbo.Jit.Emit.{Parse, past_comma, write_words}
use bilbo.Jit.Emit.Alloc.{JitEnv}
use bilbo.Jit.Emit.{Vec, with_room, vec_loop, parse_vec}
use bilbo.Jit.Emit.Parts.{words, after-ok, write_words-Kept, Framed}
use bilbo.Jit.Emit.Grow.{Apart, Kept-Apart, Owned, HasRoom, with_room-Owned, %-exact}

last_inj : {r r' : Text × Vec × Machine} → ok r ≡ ok r' → r.2 ≡ r'.2
last_inj e = cc

module _ (env : JitEnv) (sizes : RecCell → ℕ) (rec : Parse) (framed : Framed env sizes rec) where
  slot-Apart :
      (m0 : Machine) (esz : ℕ) (v : Vec) (m : Machine)
      → Owned m0 esz v m
      → HasRoom esz v
      → Apart m0 (v.base + v.len * esz % 2 ^ 64) esz
  slot-Apart m0 esz v m own (inr none_needed) a h = ground arith
  slot-Apart m0 esz v m own (inl below) a h =
      let (last, before) = slot_room v.len v.cap esz below in
      let same = %-exact (v.len * esz) (omega (arith, own.exact)) in
      let outside = own.apart a h in rw same (ground arith)

  vec_loop-Kept :
      (m0 : Machine) (rounds : ℕ) (elem : Ty) (esz align : ℕ) (v w : Vec) (hc out : Text)
      (m m' : Machine)
      → esz < 2 ^ 31
      → fits words sizes esz elem ≡ true
      → Owned m0 esz v m
      → vec_loop env rec rounds elem esz align v hc m ≡ ok (out, w, m')
      → Kept 0 0 m0 m'
  unfolding vec_loop
  vec_loop-Kept m0 zero elem esz align v w hc out m m' small h own e = absurd (cc)
  vec_loop-Kept m0 (suc rounds) elem esz align v w hc out m m' small h own e =
      let (bch, eb, e1) = >>=-eq-ok (load_u8 (ws hc)) _ e in
      elim (Bool-cases (bch == b']')) [
        | inl over ↦ let same_m : m ≡ m' = last_inj (rw over at e1) in rw (← same_m) own.kept
        | inr more ↦
            let ((x, m1), ex, e2) = >>=-eq-ok (with_room env esz align v m) _ (rw more at e1) in
            let (bigger, there) = with_room-Owned env m0 esz align v x m m1 (omega arith) own ex in
            let at_slot : ℕ = x.base + x.len * esz % 2 ^ 64 in
            let ((ac, m2), ea, e3) = >>=-eq-ok (rec elem at_slot (ws hc) m1) _ e2 in
            let (ac', ec, e4) = >>=-eq-ok (past_comma (ws ac)) _ e3 in
            let apart = slot-Apart m0 esz x m1 bigger there in
            let kept : Kept 0 0 m0 m2 =
              Kept-Apart at_slot esz bigger.kept apart
                (framed at_slot esz elem (ws hc) ac m1 m2 h small ea) in
            vec_loop-Kept m0 rounds elem esz align _ w ac' out m2 m' small h
              (record {
                kept = kept;
                apart = bigger.apart;
                exact = bigger.exact;
                room = elim there [
                  | inl below ↦ inl (omega arith)
                  | inr none_needed ↦ inr none_needed
                ];
              })
              e4
      ]

  pub parse_vec-Kept :
      (rounds : ℕ) (elem : Ty) (esz align : ℕ) (seq : SeqLayout) (dst n : ℕ) (cur out : Text)
      (m m' : Machine)
      → esz < 2 ^ 31
      → fits words sizes esz elem ≡ true
      → fits_seq n seq ≡ true
      → n < 2 ^ 31
      → parse_vec env rec rounds elem esz align seq dst cur m ≡ ok (out, m')
      → Kept dst n m m'
  unfolding parse_vec
  parse_vec-Kept rounds elem esz align seq dst n cur out m m' small h hs below e =
      let al : ℕ = if align == 0 then 1 else align in
      let start : Vec = record { base = al; cap = 0; len = 0 } in
      let ((fc, v, m1), ev, e1) =
        >>=-eq-ok (vec_loop env rec rounds elem esz al start (drop 1 (ws cur)) m) _ e in
      let kept =
        vec_loop-Kept m rounds elem esz al start v (drop 1 (ws cur)) fc m m1 small h
          (record {
            kept = Kept-refl 0 0 m;
            apart = λ a k. ground arith;
            exact = omega arith;
            room = inl (omega arith);
          })
          ev in
      let done : write_words dst seq v.base v.cap v.len m1 ≡ m' = after-ok e1 in
      Kept-trans (Kept-nothing 0 dst n kept)
        (rw (← done) (write_words-Kept dst n seq v.base v.cap v.len m1 hs below))
