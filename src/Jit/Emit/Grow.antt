-- ===== src/Jit/Emit/Grow.antt =====
-- jit.rs: the buffer of `parse_vec` while it grows. It stays apart from what was in use before the vector,
-- its byte size does not overflow, and there is room for the next element.
use bilbo.Base.{
  ℕ, zero, suc, ◌+◌, ◌-◌, ◌*◌, ◌%◌, ◌^◌, ◌≤◌, ◌<◌, ◌≡◌, refl, ◌⊎◌, inl, inr, true, false, ◌&&◌,
  List, [], ◌∷◌, arith, ltb, ◌==◌, if◌then◌else◌, Bool-cases, or-cases, or_left, or_right, ok,
  >>=-eq-ok,
}
use bilbo.Jit.Memory.{within}
use bilbo.Machine.{Block, release, Allocator, Machine, layout, alloc, realloc}
use bilbo.Machine.Frame.{in_use, Kept, Fresh-outside, alloc-Fresh}
use bilbo.Jit.Emit.{Vec, grow, with_room}
use bilbo.Jit.Emit.Alloc.{JitEnv, max_one, rt_realloc}

-- Nothing that was in use in `m` lies in the `n` bytes at `p`.
abbrev pub Apart : Machine → (p n : ℕ) → Type 0
Apart m p n = (a : ℕ) → in_use m.live a ≡ true → within p n a ≡ false

-- What is in use outside of a block stays in use when the block is released.
pub release-in_use :
    (p n : ℕ) (live : List Block) (a : ℕ)
    → in_use live a ≡ true
    → within p n a ≡ false
    → in_use (release (p, n) live) a ≡ true
unfolding release
release-in_use p n [] a h k = absurd (cc)
release-in_use p n ((q, w) ∷ live) a h k = elim (Bool-cases (q == p && w == n)) [
  | inl this ↦ elim (or-cases (within q w a) _ h) [
    | inl here ↦ absurd (ground arith)
    | inr there ↦ rw this there
  ]
  | inr other ↦ rw other (elim (or-cases (within q w a) _ h) [
    | inl here ↦ or_left _ here
    | inr there ↦ or_right _ (release-in_use p n live a there k)
  ])
]

-- A write to a range that is apart from `m0` is not seen in `m0`.
pub Kept-Apart :
    (d n : ℕ) {m0 m m' : Machine} → Kept 0 0 m0 m → Apart m0 d n → Kept d n m m' → Kept 0 0 m0 m'
Kept-Apart d n old apart new = record {
  live_kept = λ a h. new.live_kept a (old.live_kept a h);
  mem_kept = λ a h k. rw (new.mem_kept a (old.live_kept a h) (apart a h)) (old.mem_kept a h k);
}

layout-fits : (size align : ℕ) (l : ℕ × ℕ) → layout size align ≡ ok l → size + align ≤ 2 ^ 63
unfolding layout
layout-fits size align l e = ground arith

pub ok_inj : {r r' : ℕ × Machine} → ok r ≡ ok r' → (r.0 ≡ r'.0) × (r.1 ≡ r'.1)
ok_inj e = (cc, cc)

step_inj : {r r' : Vec × Machine} → ok r ≡ ok r' → (r.0 ≡ r'.0) × (r.1 ≡ r'.1)
step_inj e = (cc, cc)

pub %-exact : (n : ℕ) → n < 2 ^ 64 → n % 2 ^ 64 ≡ n
%-exact n h = omega arith

-- After a `realloc`.
abbrev pub moved : Allocator → (ptr old new align : ℕ) → Machine → Machine
moved std ptr old new align m =
    let p = std.replace m.live (ptr, old) new align in
    record {
      mem = λ a. if within p new a && ltb (a - p) old then m.mem (ptr + (a - p)) else m.mem a;
      live = (p, new) ∷ release (ptr, old) m.live;
    }

module _ (std : Allocator) (m0 : Machine) where
  pub alloc-Apart :
      (size align p : ℕ) (m m1 : Machine)
      → Kept 0 0 m0 m
      → alloc std size align m ≡ ok (p, m1)
      → Kept 0 0 m0 m1 × Apart m0 p size
  alloc-Apart size align p m m1 kept e =
      let (fresh, after) = alloc-Fresh std size align p m m1 e in
      (
        rw after (record {
          live_kept = λ a h. or_right _ (kept.live_kept a h);
          mem_kept = kept.mem_kept;
        }),
        λ a h. Fresh-outside (p, size) m.live a fresh (kept.live_kept a h),
      )

  pub realloc-Apart :
      (ptr old new align p : ℕ) (m m1 : Machine)
      → Kept 0 0 m0 m
      → Apart m0 ptr old
      → realloc std ptr old new align m ≡ ok (p, m1)
      → Kept 0 0 m0 m1 × Apart m0 p new × (old + align ≤ 2 ^ 63)
  unfolding realloc
  realloc-Apart ptr old new align p m m1 kept apart e =
      let (l, el, e1) = >>=-eq-ok (layout old align) _ e in
      elim (Bool-cases (new == 0)) [
        | inl empty ↦ absurd (cc (rw empty at e1))
        | inr solid ↦ elim (Bool-cases (ltb (2 ^ 63) (new + align))) [
          | inl huge ↦ absurd (cc (rw (solid, huge) at e1))
          | inr fair ↦ elim (Bool-cases (std.replace m.live (ptr, old) new align == 0)) [
            | inl null ↦ absurd (cc (rw (solid, fair, null) at e1))
            | inr placed ↦
                let q = std.replace m.live (ptr, old) new align in
                let done : ok (q, moved std ptr old new align m) ≡ ok (p, m1) =
                  rw (solid, fair, placed) at e1 in
                let (here, after) = ok_inj done in
                let fresh = std.replace_fresh m.live (ptr, old) new align (λ z. ground arith) in
                let still : (a : ℕ)
                    → in_use m0.live a ≡ true
                    → in_use (release (ptr, old) m.live) a ≡ true =
                  λ a h. release-in_use ptr old m.live a (kept.live_kept a h) (apart a h) in
                let outside : Apart m0 q new =
                  λ a h. Fresh-outside (q, new) (release (ptr, old) m.live) a fresh (still a h) in
                (
                  rw (← after) (record {
                    live_kept = λ a h. or_right _ (still a h);
                    mem_kept = λ a h k. rw (outside a h) (kept.mem_kept a h k);
                  }),
                  rw (← here) outside,
                  layout-fits old align l el,
                )
          ]
        ]
      ]

-- The capacity after `grow`.
abbrev pub next_cap : ℕ → ℕ
next_cap cap = if cap == 0 then 4 else cap * 2 % 2 ^ 64

grows_by : (c k : ℕ) → c ≤ c * suc k
grows_by c k = omega arith

-- An element of at least one byte: no product overflows.
next_cap-exact :
    (cap esz : ℕ)
    → 1 ≤ esz
    → esz < 2 ^ 62
    → cap * esz < 2 ^ 63
    → (next_cap cap * esz < 2 ^ 64) × (cap < next_cap cap)
next_cap-exact cap zero pos small h = absurd (omega arith)
next_cap-exact cap (suc k) pos small h = elim (Bool-cases (cap == 0)) [
  | inl e ↦ rw e (omega arith, ground arith)
  | inr e ↦
      let few = grows_by cap k in
      let same : cap * 2 % 2 ^ 64 ≡ cap * 2 = ground arith in
      rw (e, same) (omega arith, ground arith)
]

-- The vector's buffer, for what was in use in `m0` before it.
pub record Owned (m0 : Machine) (esz : ℕ) (v : Vec) (m : Machine) : Type 0 where
  pub kept : Kept 0 0 m0 m
  pub apart : Apart m0 v.base (v.cap * esz)
  pub exact : v.cap * esz < 2 ^ 64
  pub room : (v.len ≤ v.cap) ⊎ (esz ≡ 0)

-- Room for one more element.
abbrev pub HasRoom : ℕ → Vec → Type 0
HasRoom esz v = (v.len < v.cap) ⊎ (esz ≡ 0)

module _ (env : JitEnv) (m0 : Machine) where
  rt_realloc-Apart :
      (ptr old new align p : ℕ) (m m1 : Machine)
      → Kept 0 0 m0 m
      → Apart m0 ptr old
      → rt_realloc env ptr old new align m ≡ ok (p, m1)
      → Kept 0 0 m0 m1 × Apart m0 p new × (old < 2 ^ 63)
  unfolding rt_realloc
  rt_realloc-Apart ptr old new align p m m1 kept apart e = elim (Bool-cases (old == 0)) [
    | inl first ↦ elim (Bool-cases (new == 0)) [
      | inl nothing ↦
          let (here, after) = ok_inj {r = (max_one align, m)} (rw (first, nothing) at e) in
          (rw (← after) kept, λ a h. ground arith, ground arith)
      | inr some_bytes ↦
          let (k, q) =
            alloc-Apart env.std m0 new (max_one align) p m m1 kept (rw (first, some_bytes) at e) in
          (k, q, ground arith)
    ]
    | inr later ↦
        let (k, q, l) =
          realloc-Apart env.std m0 ptr old new (max_one align) p m m1 kept apart (rw later at e) in
        (k, q, ground arith)
  ]

  grow-Owned :
      (esz align : ℕ) (v w : Vec) (m m1 : Machine)
      → esz < 2 ^ 62
      → Owned m0 esz v m
      → v.len ≡ v.cap
      → grow env esz align v m ≡ ok (w, m1)
      → Owned m0 esz w m1 × HasRoom esz w
  unfolding grow
  grow-Owned zero align v w m m1 small own full e =
      let ((p, m2), er, e1) =
        >>=-eq-ok (rt_realloc env v.base (v.cap * 0 % 2 ^ 64) (next_cap v.cap * 0 % 2 ^ 64) align m)
          _ e in
      let nothing : Apart m0 v.base (v.cap * 0 % 2 ^ 64) = λ a h. ground arith in
      let (k, q, l) = rt_realloc-Apart v.base _ _ align p m m2 own.kept nothing er in
      let (here, after) = step_inj e1 in
      (
        record {
          kept = rw (← after) k;
          apart = λ a h. ground arith;
          exact = omega arith;
          room = inr refl;
        },
        inr refl,
      )
  grow-Owned (suc n) align v w m m1 small own full e =
      let same = %-exact _ own.exact in
      let ((p, m2), er, e1) =
        >>=-eq-ok
          (rt_realloc env v.base (v.cap * suc n % 2 ^ 64) (next_cap v.cap * suc n % 2 ^ 64) align m)
          _ e in
      let (k, q, l) = rt_realloc-Apart v.base _ _ align p m m2 own.kept (rw same own.apart) er in
      let (below, more) = next_cap-exact v.cap (suc n) (omega arith) small (rw same at l) in
      let (here, after) = step_inj e1 in
      (
        rw (← here, ← after)
            (record {
              kept = k;
              apart = rw (%-exact _ below) at q;
              exact = below;
              room = inl (omega arith);
            }),
        rw (← here) (inl (omega arith)),
      )

  pub with_room-Owned :
      (esz align : ℕ) (v w : Vec) (m m1 : Machine)
      → esz < 2 ^ 62
      → Owned m0 esz v m
      → with_room env esz align v m ≡ ok (w, m1)
      → Owned m0 esz w m1 × HasRoom esz w
  unfolding with_room
  with_room-Owned esz align v w m m1 small own e = elim (Bool-cases (v.len == v.cap)) [
    | inl full ↦ grow-Owned esz align v w m m1 small own (ground arith) (rw full at e)
    | inr spare ↦
        let (here, after) = step_inj (rw spare at e) in
        let fits : HasRoom esz v = elim own.room [
          | inl short ↦ inl (ground arith)
          | inr none_needed ↦ inr none_needed
        ] in
        rw (← here, ← after) (own, fits)
  ]
