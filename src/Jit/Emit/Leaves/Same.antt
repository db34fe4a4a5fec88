-- ===== src/Jit/Emit/Leaves/Same.antt =====
-- jit.rs and interp.rs: both backends on a leaf that is printed.
use bilbo.Base.{
  ℕ, zero, suc, ◌+◌, ◌-◌, ◌*◌, ◌%◌, ◌^◌, ◌≤◌, ◌<◌, ◌≡◌, refl, ap, inl, inr, Bool, true, false, ◌&&◌,
  ◌∙◌, and-both, length, some, [], ◌∷◌, ◌++◌, arith, leb, ltb, ◌==◌, all, Bool-cases, Option-cases,
  Outcome, ok, expect-some, ◌>>=◌, >>=-eq-ok,
}
use bilbo.Json.Value.{
  Text, Json, bool, num, str, Signed, is_digit, digits_below, number_below, with_sign, parse_u128,
  parse_i128, as_u128, as_i128, as_str,
}
use bilbo.Json.Print.{Layout, print, escape, quote}
use bilbo.Plan.{Ty, Cells, cell_body}
use bilbo.Jit.Memory.{store_sized}
use bilbo.Jit.Scan.{ws-append, strspan, build_str}
use bilbo.Jit.Strings.Span.{span_of, rt_strscan-span}
use bilbo.Jit.Number.{word, ends_number, intval-parse_u128, intval-parse_i128}
use bilbo.Jit.Emit.Alloc.{JitEnv, max_one, rt_box_alloc}
use bilbo.Jit.Emit.{parse_at, parse}
use bilbo.Jit.Emit.Leaves.{
  is_width, store_sized-write, is_near_seq, write_words-write_seq, write_ref-write, is_plain,
  span-escape, pattern-word, env_of, owned-alloc_copy,
}
use bilbo.Machine.{Machine, set_mem}
use bilbo.Interp.{pattern, at_least_one, write_le, alloc_copy, box_alloc, run_at, run}
use bilbo.Interp.Accepts.{all_ok}

-- A leaf with a document for it: numbers for integers of the four widths, strings without escapes at
-- offsets below 2^31, booleans, behind boxes and references.
unfoldable pub is_leaf : Cells → (fuel : ℕ) → Ty → Json → Bool
is_leaf cells zero ty v = false
is_leaf cells (suc fuel) Ty.bool (bool b) = true
is_leaf cells (suc fuel) (Ty.u n) (num t) = is_width n
is_leaf cells (suc fuel) (Ty.i n) (num t) = is_width n
is_leaf cells (suc fuel) (Ty.str seq) (str s) = is_near_seq seq && all is_plain s
is_leaf cells (suc fuel) (Ty.str_ref ptr_off len_off) (str s) =
    (ltb ptr_off (2 ^ 31) && ltb len_off (2 ^ 31)) && all is_plain s
is_leaf cells (suc fuel) (Ty.boxed inner size align) v = is_leaf cells fuel inner v
is_leaf cells (suc fuel) (Ty.ref cell) v =
    all_ok (cell_body cell cells) (λ ty. is_leaf cells fuel ty v)
is_leaf cells (suc fuel) ty v = false

digits_below-low :
    (limit acc n : ℕ) (s : Text) → acc < limit → digits_below limit acc s ≡ some n → n < limit
unfolding digits_below
digits_below-low limit acc n [] h e = let same_value : acc ≡ n = cc in rw (← same_value) h
digits_below-low limit acc n (c ∷ s) h e = elim (Bool-cases (is_digit c)) [
  | inl digit ↦ elim (Bool-cases (ltb (acc * 10 + (c - b'0')) limit)) [
    | inl low ↦
        digits_below-low limit (acc * 10 + (c - b'0')) n s (ground arith) (rw (digit, low) at e)
    | inr high ↦ absurd (cc (rw (digit, high) at e))
  ]
  | inr other ↦ absurd (cc (rw other at e))
]

number_below-low : (limit n : ℕ) (s : Text) → 0 < limit → number_below limit s ≡ some n → n < limit
unfolding number_below
number_below-low limit n [] h e = absurd (cc)
number_below-low limit n (c ∷ s) h e = digits_below-low limit 0 n (c ∷ s) h e

with_sign-low :
    (b : Bool) (limit : ℕ) (t : Text) (s : Signed)
    → 0 < limit
    → with_sign b (number_below limit t) ≡ some s
    → s.magnitude < limit
with_sign-low b limit t s h e = elim (Option-cases (number_below limit t)) [
  | inl none_read ↦ absurd (cc (rw none_read at e))
  | inr (n, some_read) ↦
      let same_value : n ≡ s.magnitude = cc (rw some_read at e) in
      rw (← same_value) (number_below-low limit n t h some_read)
]

parse_i128-low : (t : Text) (s : Signed) → parse_i128 t ≡ some s → s.magnitude ≤ 2 ^ 127
unfolding parse_i128
parse_i128-low [] s e = absurd (cc)
parse_i128-low (c ∷ t) s e = elim (Bool-cases (c == b'-')) [
  | inl minus ↦
      let low = with_sign-low true (2 ^ 127 + 1) t s (omega arith) (rw minus at e) in
      omega (arith, low)
  | inr other ↦ elim (Bool-cases (c == b'+')) [
    | inl plus ↦
        let low = with_sign-low false (2 ^ 127) t s (omega arith) (rw (other, plus) at e) in
        omega (arith, low)
    | inr digit ↦
        let low = with_sign-low false (2 ^ 127) (c ∷ t) s (omega arith) (rw (other, digit) at e) in
        omega (arith, low)
  ]
]

max_one-at_least_one : (align : ℕ) → max_one align ≡ at_least_one align
max_one-at_least_one zero = refl
max_one-at_least_one (suc n) =
    let some_bytes : (suc n == 0) ≡ false = ground arith in rw some_bytes refl

-- The four widths, where `write_le` does not panic.
sized-same :
    (n dst v w : ℕ) (m m' : Machine)
    → is_width n ≡ true
    → w ≡ v % 2 ^ 64
    → write_le n dst v m ≡ ok m'
    → Path (Outcome Machine) (ok (set_mem (store_sized dst w n m.mem) m)) (ok m')
unfolding write_le
sized-same n dst v w m m' h same_word e =
    let small : leb n 16 ≡ true = ground arith in
    rw (store_sized-write n dst v w m.mem h same_word) (rw small at e)

module _ (jit : JitEnv) (l : Layout) (pad rest : Text) (blank : all (λ c. leb c 0x20) pad ≡ true)
    (ends : ends_number rest ≡ true) where
  read_both :
      {m m' : Machine}
      → Path (Outcome Machine) (ok m) (ok m')
      → Path (Outcome (Text × Machine)) (ok (rest, m)) (ok (rest, m'))
  read_both e = ap (λ o. o >>= λ x. ok (rest, x)) e

  strspan-print :
      (s : Text)
      → all is_plain s ≡ true
      → strspan jit.crate (pad ++ (quote s ++ rest)) ≡ ok (span_of s false rest)
  unfolding quote strspan
  strspan-print s plain = rw (ws-append pad b'"' ((escape s ++ b'"' ∷ []) ++ rest) blank refl) (
      rt_strscan-span jit.crate b'"' ((escape s ++ b'"' ∷ []) ++ rest)
      ∙ ap ok (span-escape s rest plain))

  box_alloc-same :
      (size align : ℕ) (m : Machine)
      → rt_box_alloc jit size align m ≡ box_alloc (env_of jit) size align m
  unfolding rt_box_alloc box_alloc
  box_alloc-same size align m = rw (max_one-at_least_one align) refl

  -- A leaf that is printed, a string only of bytes that need no escape, behind any bytes up to 0x20 and in front of any text that does not continue
  -- a number: where `run` of interp.rs gives a result, the code that jit.rs emits gives the same memory and
  -- the same blocks, and its cursor stands behind the leaf.
  pub parse-run :
      (fuel dst : ℕ) (ty : Ty) (v : Json) (m m' : Machine)
      → is_leaf jit.cells fuel ty v ≡ true
      → run (env_of jit) fuel dst ty v m ≡ ok m'
      → parse jit fuel ty dst (pad ++ (print l v ++ rest)) m ≡ ok (rest, m')
  unfolding run run_at parse parse_at is_leaf print as_u128 as_i128 as_str build_str
  parse-run zero dst ty v m m' leaf e = absurd (cc)
  parse-run (suc fuel) dst Ty.bool (bool true) m m' leaf e =
      rw (ws-append pad b't' (b'r' ∷ b'u' ∷ b'e' ∷ rest) blank refl) (read_both e)
  parse-run (suc fuel) dst Ty.bool (bool false) m m' leaf e =
      rw (ws-append pad b'f' (b'a' ∷ b'l' ∷ b's' ∷ b'e' ∷ rest) blank refl) (read_both e)
  parse-run (suc fuel) dst (Ty.u n) (num t) m m' leaf e =
      let (k, ek, e1) = >>=-eq-ok (as_u128 (num t)) _ e in
      rw (intval-parse_u128 pad t rest k blank (expect-some (parse_u128 t) k ek) ends)
        (read_both (sized-same n dst k (k % 2 ^ 64) m m' leaf refl e1))
  parse-run (suc fuel) dst (Ty.i n) (num t) m m' leaf e =
      let (k, ek, e1) = >>=-eq-ok (as_i128 (num t)) _ e in
      let read = expect-some (parse_i128 t) k ek in
      rw (intval-parse_i128 pad t rest k blank read ends) (
        read_both (
          sized-same n dst (pattern k) (word k) m m' leaf (pattern-word k (parse_i128-low t k read))
            e1))
  parse-run (suc fuel) dst (Ty.str seq) (str s) m m' leaf e =
      let ((p, m1), ea, e1) = >>=-eq-ok (alloc_copy (env_of jit) s 1 m) _ e in
      let (near, plain) = and-both (is_near_seq seq) _ leaf in
      rw (strspan-print s plain) (
        rw (owned-alloc_copy jit s rest m) (
          rw ea
            (rw (write_words-write_seq dst seq p (length s) (length s) m1 near) (read_both e1))))
  parse-run (suc fuel) dst (Ty.str_ref ptr_off len_off) (str s) m m' leaf e =
      let ((p, m1), ea, e1) = >>=-eq-ok (alloc_copy (env_of jit) s 1 m) _ e in
      let (near, plain) = and-both (ltb ptr_off (2 ^ 31) && ltb len_off (2 ^ 31)) _ leaf in
      rw (strspan-print s plain) (
        rw (owned-alloc_copy jit s rest m)
          (rw ea (rw (write_ref-write dst ptr_off len_off p (length s) m1 near) (read_both e1))))
  parse-run (suc fuel) dst (Ty.boxed inner size align) v m m' leaf e =
      let ((p, m1), eb, e1) = >>=-eq-ok (box_alloc (env_of jit) size align m) _ e in
      let (m2, er, e2) = >>=-eq-ok (run (env_of jit) fuel p inner v m1) _ e1 in
      rw (box_alloc-same size align m)
        (rw eb (rw (parse-run fuel p inner v m1 m2 leaf er) (read_both e2)))
  parse-run (suc fuel) dst (Ty.ref cell) v m m' leaf e =
      let (ty, et, e1) = >>=-eq-ok (cell_body cell jit.cells) _ e in
      rw et (parse-run fuel dst ty v m m' (rw (et, is_leaf) at leaf) e1)
  parse-run (suc fuel) dst ty v m m' leaf e = absurd (cc)
