-- ===== src/Jit/Number.antt =====
-- jit.rs: the inline integer scan `intval`, over 64-bit words.
use bilbo.Base.{
  ℕ, ◌+◌, ◌-◌, ◌*◌, ◌%◌, ◌^◌, ◌≡◌, refl, Bool, true, false, ◌&&◌, ◌||◌, Option, none, some, [], ◌∷◌,
  ◌++◌, inl, inr, Bool-cases, arith, leb, ◌==◌, if◌then◌else◌, all, Outcome, ok, fault, ◌>>=◌,
}
use bilbo.Json.Value.{
  Text, is_digit, digits_below, number_below, parse_u128, Signed, with_sign, parse_i128,
}
use bilbo.Jit.Scan.{ws, ws-append}

-- An unchecked load of the byte at the cursor, `load_u8`.
abbrev pub load_u8 : Text → Outcome ℕ
load_u8 [] = fault
load_u8 (c ∷ b) = ok c

-- The loop over `head` and `chk`: the accumulator is a 64-bit word, and the cursor stops at the end
-- of the input or at a byte whose distance from '0', as an unsigned word, is 10 or more.
unfoldable pub digits_loop : ℕ → Text → ℕ × Text
digits_loop v [] = (v, [])
digits_loop v (c ∷ b) =
    let rest = digits_loop ((v * 10 + (c - b'0')) % 2 ^ 64) b in
    if is_digit c then rest else (v, c ∷ b)

-- `ineg`.
unfoldable pub negate : ℕ → ℕ
negate v = (2 ^ 64 - v) % 2 ^ 64

-- A sign is stepped over: a plus, and in a signed field a minus.
unfoldable pub intval : (signed : Bool) → Text → Outcome (ℕ × Text)
unfolding ws
intval signed cur = do
  let cur = ws cur
  b0 ← load_u8 cur
  let neg = signed && b0 == b'-'
  let (v, c) = digits_loop 0 (if neg || b0 == b'+' then behind cur else cur)
  ok (if neg then negate v else v, c)
  where
    behind : Text → Text
    behind [] = []
    behind (c ∷ b) = b

-- Nothing, or a byte that is no digit.
abbrev pub ends_number : Text → Bool
ends_number [] = true
ends_number (c ∷ b) = if is_digit c then false else true

digits_below-cons :
    (limit acc n c : ℕ) (t : Text)
    → digits_below limit acc (c ∷ t) ≡ some n
    → (is_digit c ≡ true) × (digits_below limit (acc * 10 + (c - b'0')) t ≡ some n)
unfolding digits_below
digits_below-cons limit acc n c t h = ground arith

-- The loop computes modulo 2^64 what `digits_below` computes exactly.
digits_loop-below :
    (limit acc v n : ℕ) (t b : Text)
    → digits_below limit acc t ≡ some n
    → v ≡ acc % 2 ^ 64
    → ends_number b ≡ true
    → digits_loop v (t ++ b) ≡ (n % 2 ^ 64, b)
unfolding digits_below digits_loop
digits_loop-below limit acc v n [] [] h e k = ground arith
digits_loop-below limit acc v n [] (c ∷ b) h e k = ground arith
digits_loop-below limit acc v n (c ∷ t) b h e k =
    let (digit, rest) = digits_below-cons limit acc n c t h in
    rw digit (digits_loop-below limit (acc * 10 + (c - b'0')) _ n t b rest (omega arith) k)

number_below-digits :
    (limit n : ℕ) (t b : Text)
    → number_below limit t ≡ some n
    → ends_number b ≡ true
    → digits_loop 0 (t ++ b) ≡ (n % 2 ^ 64, b)
unfolding number_below
number_below-digits limit n [] b h k = cc
number_below-digits limit n (c ∷ t) b h k = digits_loop-below limit 0 0 n (c ∷ t) b h refl k

-- The first byte of a number that is read is a sign or a digit.
number_below-first :
    (limit n c : ℕ) (t : Text) → number_below limit (c ∷ t) ≡ some n → is_digit c ≡ true
unfolding number_below digits_below
number_below-first limit n c t h = ground arith

-- Where the interpreter's `parse::<u128>` accepts a token, the scan of an unsigned field reads the
-- same number modulo 2^64 and stops behind the token.
pub intval-parse_u128 :
    (pad t rest : Text) (n : ℕ)
    → all (λ c. leb c 0x20) pad ≡ true
    → parse_u128 t ≡ some n
    → ends_number rest ≡ true
    → intval false (pad ++ (t ++ rest)) ≡ ok (n % 2 ^ 64, rest)
unfolding intval parse_u128
intval-parse_u128 pad [] rest n blank h k = cc
intval-parse_u128 pad (c ∷ t) rest n blank h k = elim (Bool-cases (c == b'+')) [
  | inl plus ↦
      rw (ws-append pad c (t ++ rest) blank (ground arith))
        (rw plus (rw (number_below-digits (2 ^ 128) n t rest (rw plus at h) k)))
  | inr other ↦
      let digits : number_below (2 ^ 128) (c ∷ t) ≡ some n = rw other at h in
      let digit = number_below-first (2 ^ 128) n c t digits in
      rw (ws-append pad c (t ++ rest) blank (ground arith))
        (rw other (rw (number_below-digits (2 ^ 128) n (c ∷ t) rest digits k)))
]

-- A signed number as a 64-bit word in two's complement.
abbrev pub word : Signed → ℕ
word s = if s.negative then negate (s.magnitude % 2 ^ 64) else s.magnitude % 2 ^ 64

with_sign-some :
    (b : Bool) (o : Option ℕ) (s : Signed)
    → with_sign b o ≡ some s
    → (o ≡ some s.magnitude) × (s.negative ≡ b)
with_sign-some b none s h = cc
with_sign-some b (some n) s h = ground arith

-- The same for `parse::<i128>` and a signed field: the word is the number in two's complement.
pub intval-parse_i128 :
    (pad t rest : Text) (s : Signed)
    → all (λ c. leb c 0x20) pad ≡ true
    → parse_i128 t ≡ some s
    → ends_number rest ≡ true
    → intval true (pad ++ (t ++ rest)) ≡ ok (word s, rest)
unfolding intval parse_i128
intval-parse_i128 pad [] rest s blank h k = cc
intval-parse_i128 pad (c ∷ t) rest s blank h k = elim (Bool-cases (c == b'-')) [
  | inl minus ↦
      let (digits, sign) = with_sign-some true (number_below (2 ^ 127 + 1) t) s (rw minus at h) in
      rw (ws-append pad c (t ++ rest) blank (ground arith))
        (rw (minus, sign) (rw (number_below-digits (2 ^ 127 + 1) s.magnitude t rest digits k)))
  | inr no_minus ↦ elim (Bool-cases (c == b'+')) [
    | inl plus ↦
        let (digits, sign) =
          with_sign-some false (number_below (2 ^ 127) t) s (rw (no_minus, plus) at h) in
        rw (ws-append pad c (t ++ rest) blank (ground arith)) (
          rw (no_minus, plus, sign)
            (rw (number_below-digits (2 ^ 127) s.magnitude t rest digits k)))
    | inr other ↦
        let (digits, sign) =
          with_sign-some false (number_below (2 ^ 127) (c ∷ t)) s (rw (no_minus, other) at h) in
        let digit = number_below-first (2 ^ 127) s.magnitude c t digits in
        rw (ws-append pad c (t ++ rest) blank (ground arith)) (
          rw (no_minus, other, sign)
            (rw (number_below-digits (2 ^ 127) s.magnitude (c ∷ t) rest digits k)))
  ]
]
