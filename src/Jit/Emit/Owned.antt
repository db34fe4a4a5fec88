-- ===== src/Jit/Emit/Owned.antt =====
-- jit.rs: the buffer of an owned string is apart from what is in use.
pub mod Exact
use bilbo.Base.{ℕ, ◌≤◌, ◌≡◌, inl, inr, arith, ◌==◌, length, Bool-cases, ok, >>=-eq-ok}
use bilbo.Json.Value.{Text}
use bilbo.Jit.Shims.{Span}
use bilbo.Machine.{release, Machine, set_mem, put_text}
use bilbo.Machine.Frame.{Kept, Kept-refl, Kept-part, Kept-nothing, put_text-Kept}
use bilbo.Jit.Emit.Alloc.{JitEnv, rt_alloc, into_boxed_slice, owned}
use bilbo.Jit.Emit.Grow.{Apart, Kept-Apart, release-in_use, alloc-Apart, realloc-Apart}

module _ (env : JitEnv) (m0 : Machine) where
  rt_alloc-Apart :
      (size p : ℕ) (m1 : Machine)
      → rt_alloc env size m0 ≡ ok (p, m1)
      → Kept 0 0 m0 m1 × Apart m0 p size
  unfolding rt_alloc
  rt_alloc-Apart size p m1 e = elim (Bool-cases (size == 0)) [
    | inl empty ↦
        let same_m : m0 ≡ m1 = cc (rw empty at e) in
        (rw same_m (Kept-refl 0 0 _), λ a h. ground arith)
    | inr solid ↦ alloc-Apart env.std m0 size 1 p m0 m1 (Kept-refl 0 0 m0) (rw solid at e)
  ]

  into_boxed_slice-Kept :
      (ptr cap len p : ℕ) (m m1 : Machine)
      → Kept 0 0 m0 m
      → Apart m0 ptr cap
      → into_boxed_slice env ptr cap len m ≡ ok (p, m1)
      → Kept 0 0 m0 m1
  unfolding into_boxed_slice
  into_boxed_slice-Kept ptr cap len p m m1 kept apart e = elim (Bool-cases (len == cap)) [
    | inl full ↦ let same_m : m ≡ m1 = cc (rw full at e) in rw (← same_m) kept
    | inr slack ↦ elim (Bool-cases (len == 0)) [
      | inl empty ↦
          let freed : record { mem = m.mem; live = release (ptr, cap) m.live } ≡ m1 =
            cc (rw (slack, empty) at e) in
          rw (← freed) (record {
            live_kept = λ a h. release-in_use ptr cap m.live a (kept.live_kept a h) (apart a h);
            mem_kept = kept.mem_kept;
          })
      | inr some_left ↦
          (realloc-Apart env.std m0 ptr cap len 1 p m m1 kept apart (rw (slack, some_left) at e)).0
    ]
  ]

-- A string's own buffer is no byte that was in use.
pub owned-Kept :
    (env : JitEnv) (s : Span) (t : Text) (p dst n : ℕ) (m m1 : Machine)
    → length t ≤ length s.body
    → owned env s t m ≡ ok (p, m1)
    → Kept dst n m m1
unfolding owned
owned-Kept env s t p dst n m m1 room e =
    let ((q, m2), er, e1) = >>=-eq-ok (rt_alloc env (length s.body) m) _ e in
    let (kept, apart) = rt_alloc-Apart env m (length s.body) q m2 er in
    let filled = Kept-Apart q (length s.body) kept apart (
      Kept-part q (length t) q (length s.body) (omega arith) (omega arith)
        (put_text-Kept q t m2)) in
    Kept-nothing 0 dst n (elim (Bool-cases s.had_escape) [
      | inl escaped ↦
          into_boxed_slice-Kept env m q (length s.body) (length t) p _ m1 filled apart
            (rw escaped at e1)
      | inr plain ↦
          let done : set_mem (put_text m2.mem q t) m2 ≡ m1 = cc (rw plain at e1) in
          rw (← done) filled
    ])
