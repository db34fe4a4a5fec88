-- ===== src/Jit/Emit/Owned/Exact.antt =====
-- jit.rs: the buffer of an owned string has exactly the bytes of the string, as `String` frees it with its
-- length as the capacity.
use bilbo.Base.{
  ℕ, ◌+◌, ◌-◌, ◌^◌, ◌<◌, ◌≤◌, ◌≡◌, refl, ◌∙◌, ap, inl, inr, true, false, ◌&&◌, List, ◌∷◌, arith,
  ltb, ◌==◌, ==_refl, if◌then◌else◌, length, Bool-cases, ok, >>=-eq-ok,
}
use bilbo.Json.Value.{Text}
use bilbo.Jit.Shims.{Span}
use bilbo.Jit.Scan.{build_str}
use bilbo.Jit.Unescape.Length.{build_str-length}
use bilbo.Jit.Memory.{Memory, within}
use bilbo.Machine.{Block, release, Allocator, Machine, set_mem, byte_at, put_text, layout, realloc}
use bilbo.Machine.Frame.{alloc-Fresh}
use bilbo.Jit.Emit.Alloc.{JitEnv, rt_alloc, into_boxed_slice, owned}
use bilbo.Jit.Emit.Grow.{moved, ok_inj}

-- The bytes of a text stand at an address.
abbrev pub Holds : Memory → ℕ → Text → Type 0
Holds mem p t = (i : ℕ) → i < length t → mem (p + i) ≡ byte_at t i

-- One block of that size more, or none for no bytes.
abbrev pub with_block : Block → List Block → List Block
with_block b live = if b.1 == 0 then live else b ∷ live

add_sub : (p i : ℕ) → p + i - p ≡ i
add_sub p i = omega arith

put_text-Holds : (mem : Memory) (p : ℕ) (t : Text) → Holds (put_text mem p t) p t
unfolding put_text
put_text-Holds mem p t i h =
    let inside : within p (length t) (p + i) ≡ true = ground arith in
    rw inside (ap (byte_at t) (add_sub p i))

release-first : (p n : ℕ) (live : List Block) → release (p, n) ((p, n) ∷ live) ≡ live
unfolding release
release-first p n live = rw (==_refl p, ==_refl n) refl

rt_alloc-block :
    (env : JitEnv) (n p : ℕ) (m m1 : Machine)
    → rt_alloc env n m ≡ ok (p, m1)
    → m1.live ≡ with_block (p, n) m.live
unfolding rt_alloc
rt_alloc-block env n p m m1 e = elim (Bool-cases (n == 0)) [
  | inl empty ↦ let same_m : m ≡ m1 = cc (rw empty at e) in rw (empty, same_m) refl
  | inr solid ↦
      let (fresh, after) = alloc-Fresh env.std n 1 p m m1 (rw solid at e) in rw (solid, after) refl
]

in_both :
    (p new old i : ℕ) → i < new → i < old → (within p new (p + i) && ltb (p + i - p) old) ≡ true
in_both p new old i h k = rw (add_sub p i) (ground arith)

-- The block is replaced, and its bytes are kept as far as there is room.
realloc-moved :
    (std : Allocator) (ptr old new align p : ℕ) (m m1 : Machine)
    → realloc std ptr old new align m ≡ ok (p, m1)
    → (m1.live ≡ (p, new) ∷ release (ptr, old) m.live)
      × ((i : ℕ) → i < new → i < old → m1.mem (p + i) ≡ m.mem (ptr + i))
unfolding realloc
realloc-moved std ptr old new align p m m1 e =
    let (l, el, e1) = >>=-eq-ok (layout old align) _ e in
    elim (Bool-cases (new == 0)) [
      | inl empty ↦ absurd (cc (rw empty at e1))
      | inr solid ↦ elim (Bool-cases (ltb (2 ^ 63) (new + align))) [
        | inl huge ↦ absurd (cc (rw (solid, huge) at e1))
        | inr fair ↦ elim (Bool-cases (std.replace m.live (ptr, old) new align == 0)) [
          | inl null ↦ absurd (cc (rw (solid, fair, null) at e1))
          | inr placed ↦
              let q = std.replace m.live (ptr, old) new align in
              let done : ok (q, moved std ptr old new align m) ≡ ok (p, m1) =
                rw (solid, fair, placed) at e1 in
              let (here, after) = ok_inj done in
              (
                rw (← here) (rw (← after) refl),
                λ i h k. rw (← here) (
                    rw (← after)
                      (rw (in_both q new old i h k) (ap (λ j. m.mem (ptr + j)) (add_sub q i)))),
              )
        ]
      ]
    ]

into_boxed_slice-Exact :
    (env : JitEnv) (ptr cap p : ℕ) (t : Text) (live : List Block) (m m1 : Machine)
    → length t ≤ cap
    → m.live ≡ with_block (ptr, cap) live
    → Holds m.mem ptr t
    → into_boxed_slice env ptr cap (length t) m ≡ ok (p, m1)
    → (m1.live ≡ with_block (p, length t) live) × Holds m1.mem p t
unfolding into_boxed_slice
into_boxed_slice-Exact env ptr cap p t live m m1 room block bytes e =
    elim (Bool-cases (length t == cap)) [
      | inl full ↦
          let (here, after) = ok_inj (rw full at e) in
          let all_used : cap ≡ length t = ground arith in
          (rw (← here, ← after) (rw all_used at block), λ i h. rw (← here, ← after) (bytes i h))
      | inr slack ↦
          let some_room : (cap == 0) ≡ false = ground arith in
          let first : release (ptr, cap) m.live ≡ live =
            rw (block, some_room) (release-first ptr cap live) in
          elim (Bool-cases (length t == 0)) [
            | inl empty ↦
                let (here, after) = ok_inj (rw (slack, empty) at e) in
                (rw empty (rw (← after) first), λ i h. absurd (ground arith))
            | inr solid ↦
                let (block', kept) =
                  realloc-moved env.std ptr cap (length t) 1 p m m1 (rw (slack, solid) at e) in
                (
                  rw solid (block' ∙ ap (◌∷◌ (p, length t)) first),
                  λ i h. kept i h (omega arith) ∙ bytes i h,
                )
          ]
    ]

-- A string that the emitted code has built is in a block of its own that is exactly as long as the string,
-- also where the text was decoded into a longer one, and in none if it is empty; the block holds the bytes of
-- the string, and the other blocks in use are those before.
pub owned-Exact :
    (env : JitEnv) (s : Span) (t : Text) (p : ℕ) (m m1 : Machine)
    → build_str s ≡ ok t
    → owned env s t m ≡ ok (p, m1)
    → (m1.live ≡ with_block (p, length t) m.live) × Holds m1.mem p t
unfolding owned build_str
owned-Exact env s t p m m1 built e =
    let room = build_str-length s t built in
    let ((q, m2), er, e1) = >>=-eq-ok (rt_alloc env (length s.body) m) _ e in
    let block = rt_alloc-block env (length s.body) q m m2 er in
    let bytes = put_text-Holds m2.mem q t in
    elim (Bool-cases s.had_escape) [
      | inl escaped ↦
          into_boxed_slice-Exact env q (length s.body) p t m.live (set_mem (put_text m2.mem q t) m2)
            m1 room block bytes (rw escaped at e1)
      | inr plain ↦
          let same_text : s.body ≡ t = cc (rw plain at built) in
          let (here, after) = ok_inj (rw plain at e1) in
          (rw (← here, ← after) (rw same_text at block), λ i h. rw (← here, ← after) (bytes i h))
    ]
