-- ===== src/Jit/Emit/Parts.antt =====
-- jit.rs: what the parts of the emitted code write, where the code of the inner types keeps to its range.
use bilbo.Base.{
  ℕ, ◌+◌, ◌%◌, ◌^◌, ◌≤◌, ◌<◌, ◌≡◌, refl, inl, inr, true, false, arith, leb, ltb, ◌==◌, Bool-cases,
  and-both, ok,
}
use bilbo.Json.Value.{Text}
use bilbo.Plan.{Ty, SeqLayout, RecCell}
use bilbo.Plan.Fits.{Limits, fits, fits_seq}
use bilbo.Machine.{Machine, set_mem}
use bilbo.Machine.Frame.{Kept, Kept-trans, Kept-nothing, write-Kept, alloc-Kept}
use bilbo.Jit.Memory.{within, store_width, store_at, store_imm, memset0}
use bilbo.Jit.Memory.Copy.{at_off-low, memset0-Zeroed}
use bilbo.Jit.Emit.{Parse, set_none, write_words, write_ref}
use bilbo.Jit.Emit.Alloc.{JitEnv, max_one, rt_box_alloc}

-- An integer is stored with one of four widths. What lies behind a pointer is smaller than 2^31 bytes, so
-- that its offsets are non-negative as an `i32`. The trampolines
-- that make and fill a map are not counted as fitting.
abbrev pub words : Limits
words = record { width = store_width; elem_fits = λ size. ltb size (2 ^ 31); maps = false }

pub after-ok : {r r' : Text × Machine} → ok r ≡ ok r' → r.1 ≡ r'.1
after-ok e = cc

pub store_imm-Kept :
    (d off v w dst n : ℕ) (m : Machine)
    → dst ≤ d
    → d + off + store_width w ≤ dst + n
    → off < 2 ^ 31
    → Kept dst n m (set_mem (store_imm d off v w m.mem) m)
unfolding store_imm
store_imm-Kept d off v w dst n m p q low =
    rw (at_off-low d off low)
      (write-Kept (store_width w) (d + off) (v % 2 ^ 64) dst n m (omega arith) q)

memset0-Kept :
    (d size dst n : ℕ) (m : Machine)
    → dst ≤ d
    → d + size ≤ dst + n
    → size < 2 ^ 31
    → Kept dst n m (set_mem (memset0 d size m.mem) m)
memset0-Kept d size dst n m p q small = record {
  live_kept = λ a h. h;
  mem_kept = λ a h k.
      let out : within d size a ≡ false = ground arith in
      rw (memset0-Zeroed d size m.mem small a, out) refl;
}

pub set_none-Kept :
    (d disc_off w none_discr size dst n : ℕ) (m : Machine)
    → dst ≤ d
    → d + disc_off + store_width w ≤ dst + n
    → d + size ≤ dst + n
    → disc_off < 2 ^ 31
    → size < 2 ^ 31
    → Kept dst n m (set_none d disc_off w none_discr size m)
unfolding set_none
set_none-Kept d disc_off w none_discr size dst n m p q r low small =
    Kept-trans (memset0-Kept d size dst n m p r small)
      (store_imm-Kept d disc_off none_discr w dst n _ p q low)

store_at-Kept :
    (dst n off v : ℕ) (m : Machine)
    → off + 8 ≤ n
    → n < 2 ^ 31
    → Kept dst n m (set_mem (store_at dst off v m.mem) m)
unfolding store_at
store_at-Kept dst n off v m h small =
    rw (at_off-low dst off (omega arith))
      (write-Kept 8 (dst + off) v dst n m (omega arith) (omega arith))

pub write_ref-Kept :
    (dst n ptr_off len_off p l : ℕ) (m : Machine)
    → ptr_off + 8 ≤ n
    → len_off + 8 ≤ n
    → n < 2 ^ 31
    → Kept dst n m (write_ref dst ptr_off len_off p l m)
unfolding write_ref
write_ref-Kept dst n ptr_off len_off p l m hp hl small =
    Kept-trans (store_at-Kept dst n ptr_off p m hp small) (store_at-Kept dst n len_off l _ hl small)

pub write_words-Kept :
    (dst n : ℕ) (seq : SeqLayout) (p c l : ℕ) (m : Machine)
    → fits_seq n seq ≡ true
    → n < 2 ^ 31
    → Kept dst n m (write_words dst seq p c l m)
unfolding write_words
write_words-Kept dst n seq p c l m h small =
    let (hp, h') = and-both (leb (seq.ptr_off + 8) n) _ h in
    let (hc, hl) = and-both (leb (seq.cap_off + 8) n) _ h' in
    Kept-trans (store_at-Kept dst n seq.ptr_off p m (ground arith) small) (
      Kept-trans (store_at-Kept dst n seq.cap_off c _ (ground arith) small)
        (store_at-Kept dst n seq.len_off l _ (ground arith) small))

pub rt_box_alloc-Kept :
    (env : JitEnv) (size align p dst n : ℕ) (m m1 m2 : Machine)
    → rt_box_alloc env size align m ≡ ok (p, m1)
    → Kept p size m1 m2
    → Kept dst n m m2
unfolding rt_box_alloc
rt_box_alloc-Kept env size align p dst n m m1 m2 e kept = elim (Bool-cases (size == 0)) [
  | inl empty ↦
      let same_m : m ≡ m1 = cc (rw empty at e) in
      let none_there : size ≡ 0 = ground arith in
      rw same_m (Kept-nothing p dst n (rw none_there at kept))
  | inr solid ↦ alloc-Kept env.std size (max_one align) p dst n m m1 m2 (rw solid at e) kept
]

module _ (env : JitEnv) (sizes : RecCell → ℕ) where
  -- What the code of the inner types does.
  abbrev pub Framed : Parse → Type 0
  Framed rec =
      (dst n : ℕ) (ty : Ty) (cur out : Text) (m m' : Machine)
      → fits words sizes n ty ≡ true
      → n < 2 ^ 31
      → rec ty dst cur m ≡ ok (out, m')
      → Kept dst n m m'
