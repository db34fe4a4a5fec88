-- ===== src/Jit/Memory/Copy.antt =====
-- jit.rs: `emit_copy` and `memset0` against what they stand for.
use bilbo.Base.{
  ℕ, zero, suc, ◌+◌, ◌-◌, ◌%◌, ◌^◌, ◌≤◌, ◌<◌, ◌≡◌, ◌⊎◌, inl, inr, Bool-cases, arith, leb, ◌==◌,
  if◌then◌else◌, leb→le,
}
use mathlib.Core.Path.{subst}
use bilbo.Jit.Memory.{
  Memory, within, store, at_off, cp, copy_words, emit_copy, zero_words, zero_tail, memset0,
}

-- The source is not written.
abbrev pub Apart : (dst src len : ℕ) → Type 0
Apart dst src len = (src + len ≤ dst) ⊎ (dst + len ≤ src)

module _ (dst src : ℕ) (m : Memory) where
  -- The first `k` bytes are copied, and nothing else is changed.
  abbrev pub Copied : ℕ → Memory → Type 0
  Copied k m' = (a : ℕ) → m' a ≡ (if within dst k a then m (src + (a - dst)) else m a)

module _ (dst src len : ℕ) (m : Memory) (apart : Apart dst src len) where
  -- A chunk may begin inside what is copied already.
  cp-Copied :
      (w off i : ℕ) (m' : Memory)
      → Copied dst src m i m'
      → off ≤ i
      → i ≤ off + w
      → off + w ≤ len
      → Copied dst src m (off + w) (cp w src dst off m')
  unfolding cp
  cp-Copied w off i m' h p q r a = ground (arith, h a, h (src + off + (a - (dst + off))))

  copy_words-Copied :
      (rounds i : ℕ) (m' : Memory)
      → Copied dst src m i m'
      → i ≤ len
      → len < i + rounds + 8
      → (j : ℕ) × (j ≤ len)
        × (len < j + 8)
        × Copied dst src m j (copy_words rounds src dst len i m')
  unfolding copy_words
  copy_words-Copied zero i m' h p q = (i, p, omega arith, h)
  copy_words-Copied (suc rounds) i m' h p q = elim (Bool-cases (leb (i + 8) len)) [
    | inl fits ↦
        let more = leb→le (i + 8) len fits in
        rw fits (
          copy_words-Copied rounds (i + 8) (cp 8 src dst i m')
            (cp-Copied 8 i i m' h (omega arith) (omega arith) more) more (omega arith))
    | inr full ↦ rw full (i, p, ground arith, h)
  ]

-- The ladder of overlapping chunks is a plain copy: where source and destination do not overlap, the
-- `len` bytes at `dst` become those at `src`, and no other byte changes, for every length.
pub emit_copy-Copied :
    (dst src len : ℕ) (m : Memory)
    → Apart dst src len
    → Copied dst src m len (emit_copy dst src len m)
unfolding emit_copy
emit_copy-Copied dst src len m apart = elim (Bool-cases (leb 8 len)) [
  | inl big ↦
      let (j, below, near, copied) =
        copy_words-Copied dst src len m apart len 0 m start (omega arith) (omega arith) in
      rw big (whole 8 j _ copied (omega arith) below (leb→le 8 len big))
  | inr small ↦ rw small (elim (Bool-cases (leb 4 len)) [
    | inl four ↦ rw four (
        whole 4 4 _ (first 4 (leb→le 4 len four)) (ground arith) (leb→le 4 len four)
          (leb→le 4 len four))
    | inr less ↦ rw less (elim (Bool-cases (leb 2 len)) [
      | inl two ↦ rw two (
          whole 2 2 _ (first 2 (leb→le 2 len two)) (ground arith) (leb→le 2 len two)
            (leb→le 2 len two))
      | inr one ↦ rw one (elim (Bool-cases (len == 0)) [
        | inl empty ↦ rw empty (λ a. ground arith)
        | inr single ↦
            let e : 1 ≡ len = ground arith in
            rw single (subst (λ k. Copied dst src m k (cp 1 src dst 0 m)) e (first 1 (omega arith)))
      ])
    ])
  ])
]
  where
    start : Copied dst src m 0 m
    start a = ground arith

    first : (w : ℕ) → w ≤ len → Copied dst src m w (cp w src dst 0 m)
    first w h =
        let e : 0 + w ≡ w = omega arith in
        subst (λ k. Copied dst src m k (cp w src dst 0 m)) e
          (cp-Copied dst src len m apart w 0 0 m start (omega arith) (omega arith) (omega arith))

    whole :
        (w j : ℕ) (m' : Memory)
        → Copied dst src m j m'
        → len ≤ j + w
        → j ≤ len
        → w ≤ len
        → Copied dst src m len (cp w src dst (len - w) m')
    whole w j m' h near below room =
        let e : len - w + w ≡ len = omega arith in
        subst (λ k. Copied dst src m k (cp w src dst (len - w) m')) e
          (cp-Copied dst src len m apart w (len - w) j m' h (omega arith) (omega arith)
            (omega arith))

-- Offsets below 2^31 are themselves.
pub at_off-low : (base off : ℕ) → off < 2 ^ 31 → at_off base off ≡ base + off
unfolding at_off
at_off-low base off h = ground arith

-- The first `k` bytes at `dst` are zero, and nothing else is changed.
abbrev pub Zeroed : (dst : ℕ) (m : Memory) → ℕ → Memory → Type 0
Zeroed dst m k m' = (a : ℕ) → m' a ≡ (if within dst k a then 0 else m a)

store-Zeroed :
    (dst w k : ℕ) (m m' : Memory)
    → Zeroed dst m k m'
    → Zeroed dst m (k + w) (store m' w 0 (dst + k))
unfolding store
store-Zeroed dst w k m m' h a = ground (arith, h a)

-- The state between two stores: `o` bytes are zero and `rem` are left.
record Left (dst size : ℕ) (m : Memory) (bound : ℕ) (s : Memory × ℕ × ℕ) : Type 0 where
  zeroed : Zeroed dst m s.1 s.0
  total : s.1 + s.2 ≡ size
  few : s.2 < bound

zero_words-Left :
    (rounds dst o rem size : ℕ) (m m' : Memory)
    → Zeroed dst m o m'
    → o + rem ≡ size
    → size < 2 ^ 31
    → rem < rounds + 8
    → Left dst size m 8 (zero_words rounds dst o rem m')
unfolding zero_words
zero_words-Left zero dst o rem size m m' h e small p = record {
  zeroed = h;
  total = e;
  few = omega arith;
}
zero_words-Left (suc rounds) dst o rem size m m' h e small p = elim (Bool-cases (leb 8 rem)) [
  | inl more ↦
      let here = at_off-low dst o (ground arith) in
      let next : (o + 8) % 2 ^ 32 ≡ o + 8 = ground arith in
      rw (more, here, next)
        (zero_words-Left rounds dst (o + 8) (rem - 8) size m (store m' 8 0 (dst + o))
          (store-Zeroed dst 8 o m m' h) (ground arith) small (ground arith))
  | inr done ↦ rw done (record { zeroed = h; total = e; few = ground arith })
]

zero_tail-Left :
    (w dst size : ℕ) (m : Memory) (s : Memory × ℕ × ℕ)
    → size < 2 ^ 31
    → Left dst size m (w + w) s
    → Left dst size m w (zero_tail w dst s)
unfolding zero_tail
zero_tail-Left w dst size m (m', o, rem) small left = elim (Bool-cases (leb w rem)) [
  | inl more ↦
      let total = left.total in
      let here = at_off-low dst o (ground arith) in
      let next : (o + w) % 2 ^ 32 ≡ o + w = ground arith in
      rw (more, here, next)
        (record {
          zeroed = store-Zeroed dst w o m m' left.zeroed;
          total = ground (arith, left.total);
          few = ground (arith, left.few);
        })
  | inr done ↦ rw done (record { zeroed = left.zeroed; total = left.total; few = ground arith })
]

-- The unrolled stores zero exactly `size` bytes, for every size below 2^31.
pub memset0-Zeroed :
    (dst size : ℕ) (m : Memory) → size < 2 ^ 31 → Zeroed dst m size (memset0 dst size m)
unfolding memset0
memset0-Zeroed dst size m small =
    let words =
      zero_words-Left size dst 0 size size m m (λ a. ground arith) (omega arith) small
        (omega arith) in
    let last =
      zero_tail-Left 1 dst size m _ small
        (zero_tail-Left 2 dst size m _ small (zero_tail-Left 4 dst size m _ small words)) in
    let e : (zero_tail 1 dst (zero_tail 2 dst (zero_tail 4 dst (zero_words size dst 0 size m)))).1
        ≡ size =
      omega (arith, last.few, last.total) in
    subst (λ k. Zeroed dst m k (memset0 dst size m)) e last.zeroed
