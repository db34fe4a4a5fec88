-- ===== src/Jit/Emit/Leaves.antt =====
-- jit.rs and interp.rs: a leaf field, a bool, an integer or a string without escapes, behind any boxes. The two backends give it
-- the same bytes and allocate the same blocks.
pub mod Same
use bilbo.Base.{
  ℕ, zero, suc, ◌+◌, ◌-◌, ◌*◌, ◌/◌, ◌%◌, ◌^◌, ◌≤◌, ◌<◌, ◌≡◌, refl, sym, ◌∙◌, ap, inl, inr, Bool,
  true, false, not, and-both, ltb→lt, ◌&&◌, ◌||◌, List, [], ◌∷◌, ◌++◌, arith, leb, ltb, ◌==◌,
  if◌then◌else◌, length, all, Bool-cases, Outcome, ok, ◌>>=◌, >>=-eq-ok,
}
use bilbo.Json.Value.{Text, Json, bool, num, str, Signed}
use bilbo.Json.Print.{escape}
use bilbo.Jit.Memory.{Memory, within, store, store_at, store_width, store_sized}
use bilbo.Jit.Memory.Copy.{at_off-low}
use bilbo.Jit.Strings.Span.{span, span_of}
use bilbo.Jit.Number.{word, negate}
use bilbo.Jit.Emit.Alloc.{JitEnv, owned, rt_alloc}
use bilbo.Machine.{Machine, Allocator, Floats, put_text, set_mem, write, alloc}
use bilbo.Interp.{Env, alloc_copy, write_seq, pattern}
use bilbo.Plan.{SeqLayout}
use bilbo.Jit.Emit.{write_words, write_ref}

not-false : (b : Bool) → not b ≡ true → b ≡ false
not-false true h = cc
not-false false h = refl

-- The four widths that `store_sized` knows.
abbrev pub is_width : ℕ → Bool
is_width n = n == 1 || (n == 2 || (n == 4 || n == 8))

low_byte : (v i : ℕ) → i < 8 → v % 2 ^ 64 / 256 ^ i % 256 ≡ v / 256 ^ i % 256
low_byte v zero h = omega arith
low_byte v (suc zero) h = omega arith
low_byte v (suc (suc zero)) h = omega arith
low_byte v (suc (suc (suc zero))) h = omega arith
low_byte v (suc (suc (suc (suc zero)))) h = omega arith
low_byte v (suc (suc (suc (suc (suc zero))))) h = omega arith
low_byte v (suc (suc (suc (suc (suc (suc zero)))))) h = omega arith
low_byte v (suc (suc (suc (suc (suc (suc (suc zero))))))) h = omega arith
low_byte v (suc (suc (suc (suc (suc (suc (suc (suc i)))))))) h = absurd (omega arith)

width-store_width : (n : ℕ) → is_width n ≡ true → (store_width n ≡ n) × (n ≤ 8)
unfolding store_width
width-store_width n h = ground arith

-- A store of a width takes the low 64 bits only.
pub store_sized-write :
    (n dst v w : ℕ) (mem : Memory)
    → is_width n ≡ true
    → w ≡ v % 2 ^ 64
    → store_sized dst w n mem ≡ store mem n v dst
unfolding store_sized store
store_sized-write n dst v w mem h e i a = store_sized-at a i
  where
    store_sized-at : (b : ℕ) → store_sized dst w n mem b ≡ store mem n v dst b
    store_sized-at b =
        let (same_width, small) = width-store_width n h in
        rw same_width (elim (Bool-cases (within dst n b)) [
          | inl here ↦ rw here (rw e (low_byte v (b - dst) (ground arith)))
          | inr away ↦ rw away refl
        ])

pub pattern-word : (s : Signed) → s.magnitude ≤ 2 ^ 127 → word s ≡ pattern s % 2 ^ 64
unfolding negate
pattern-word s h = elim (Bool-cases s.negative) [
  | inl minus ↦ rw minus (omega arith)
  | inr plus ↦ rw plus refl
]

-- An empty text changes nothing.
put_text-nil : (mem : Memory) (p : ℕ) → put_text mem p [] ≡ mem
unfolding put_text
put_text-nil mem p i a = put_text-at a i
  where
    put_text-at : (b : ℕ) → put_text mem p [] b ≡ mem b
    put_text-at b = let away : within p 0 b ≡ false = ground arith in rw away refl

abbrev pub env_of : JitEnv → Env
env_of jit = record { std = jit.std; floats = jit.floats; cells = jit.cells }

-- A string of its own without escapes is allocated alike.
pub owned-alloc_copy :
    (jit : JitEnv) (s rest : Text) (m : Machine)
    → owned jit (span_of s false rest) s m ≡ alloc_copy (env_of jit) s 1 m
unfolding owned alloc_copy rt_alloc
owned-alloc_copy jit [] rest m = ap (λ mem. ok (1, set_mem mem m)) (put_text-nil m.mem 1)
owned-alloc_copy jit (c ∷ s) rest m =
    let some_byte : (suc (length s) == 0) ≡ false = ground arith in rw some_byte refl

-- A store at an offset below 2^31.
store_at-store :
    (dst off v : ℕ) (m : Memory)
    → ltb off (2 ^ 31) ≡ true
    → store_at dst off v m ≡ store m 8 v (dst + off)
unfolding store_at
store_at-store dst off v m h = ap (store m 8 v) (at_off-low dst off (ltb→lt _ _ h))

-- The offsets of a sequence are below 2^31.
abbrev pub is_near_seq : SeqLayout → Bool
is_near_seq seq = ltb seq.ptr_off (2 ^ 31) && (ltb seq.cap_off (2 ^ 31) && ltb seq.len_off (2 ^ 31))

pub write_words-write_seq :
    (dst : ℕ) (seq : SeqLayout) (p c l : ℕ) (m : Machine)
    → is_near_seq seq ≡ true
    → write_words dst seq p c l m ≡ write_seq dst seq p c l m
unfolding write_words
write_words-write_seq dst seq p c l m near =
    let (hp, near') = and-both (ltb seq.ptr_off (2 ^ 31)) _ near in
    let (hc, hl) = and-both (ltb seq.cap_off (2 ^ 31)) _ near' in
    let m1 = store m.mem 8 p (dst + seq.ptr_off) in
    let m2 = store m1 8 c (dst + seq.cap_off) in
    rw
      (
        store_at-store dst seq.ptr_off p m.mem hp,
        store_at-store dst seq.cap_off c m1 hc,
        store_at-store dst seq.len_off l m2 hl,
      )
      refl

pub write_ref-write :
    (dst ptr_off len_off p l : ℕ) (m : Machine)
    → (ltb ptr_off (2 ^ 31) && ltb len_off (2 ^ 31)) ≡ true
    → write_ref dst ptr_off len_off p l m ≡ write 8 (dst + len_off) l (write 8 (dst + ptr_off) p m)
unfolding write_ref
write_ref-write dst ptr_off len_off p l m near =
    let (hp, hl) = and-both (ltb ptr_off (2 ^ 31)) _ near in
    let m1 = store m.mem 8 p (dst + ptr_off) in
    rw (store_at-store dst ptr_off p m.mem hp, store_at-store dst len_off l m1 hl) refl

-- A byte that is printed without an escape.
abbrev pub is_plain : ℕ → Bool
is_plain c = not (c == b'"') && (not (c == 0x5c) && (not (c == 0x0a) && not (c == 0x09)))

-- A text of such bytes is scanned whole, and no escape is seen.
pub span-escape :
    (s rest : Text)
    → all is_plain s ≡ true
    → span false ((escape s ++ b'"' ∷ []) ++ rest) ≡ span_of s false rest
unfolding span escape
span-escape [] rest h = refl
span-escape (c ∷ s) rest h =
    let (hc, hs) = and-both (is_plain c) _ h in
    let (q, h1) = and-both (not (c == b'"')) _ hc in
    let (b, h2) = and-both (not (c == 0x5c)) _ h1 in
    let (l, t) = and-both (not (c == 0x0a)) _ h2 in
    rw (not-false _ q, not-false _ b, not-false _ l, not-false _ t)
      (rw (not-false _ q, not-false _ b) (rw (span-escape s rest hs) refl))
