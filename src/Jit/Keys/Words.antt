-- ===== src/Jit/Keys/Words.antt =====
-- The comparisons of keys are exact: byte by byte, and as one masked word.
use native.Mathlib.Nat.{
  div-add-mod, add-mul-mod_self_left, mod-eq_of_lt, mod-lt, pow-succ', one-le-pow,
}
use bilbo.Base.{
  ℕ, zero, suc, ◌+◌, ◌*◌, ◌/◌, ◌%◌, ◌^◌, ◌≤◌, ◌<◌, ◌≡◌, refl, ◌∙◌, sym, ap, Bool, true, false, ◌&&◌,
  [], ◌∷◌, inl, inr, Bool-cases, arith, leb, ltb, ◌==◌, leb→le, length, take, all, same,
  starts_with, ok, fault,
}
use bilbo.Json.Value.{Text}
use bilbo.Jit.Keys.{keyeq_bytes, keyeq, le_value, word_eq, fast_eq}

abbrev pub is_byte : ℕ → Bool
is_byte b = ltb b 256

keyeq_bytes-starts_with :
    (kp name : Text) → length name ≤ length kp → keyeq_bytes kp name ≡ ok (starts_with kp name)
unfolding keyeq_bytes
keyeq_bytes-starts_with [] [] h = refl
keyeq_bytes-starts_with (b ∷ kp) [] h = refl
keyeq_bytes-starts_with [] (ch ∷ name) h = absurd (omega arith)
keyeq_bytes-starts_with (b ∷ kp) (ch ∷ name) h = rw (keyeq_bytes-starts_with kp name (omega arith))

-- The key is the name if the lengths agree and the text begins with the name.
same-take :
    (kp name : Text) (kl : ℕ)
    → kl ≤ length kp
    → (kl == length name && starts_with kp name) ≡ same (take kl kp) name
same-take [] [] zero h = refl
same-take [] (ch ∷ name) zero h = ground arith
same-take [] name (suc kl) h = absurd (omega arith)
same-take (b ∷ kp) [] zero h = refl
same-take (b ∷ kp) (ch ∷ name) zero h = ground arith
same-take (b ∷ kp) [] (suc kl) h = ground arith
same-take (b ∷ kp) (ch ∷ name) (suc kl) h = ground (arith, same-take kp name kl)

-- Where the text holds as many bytes as the name, `keyeq` compares the key with the name.
pub keyeq-same :
    (kp name : Text) (kl : ℕ)
    → kl ≤ length kp
    → length name ≤ length kp
    → keyeq kp kl name ≡ ok (same (take kl kp) name)
unfolding keyeq
keyeq-same kp name kl h k = rw (keyeq_bytes-starts_with kp name k) (ap ok (same-take kp name kl h))

keyeq_bytes-fault : (kp name : Text) → length kp < length name → keyeq_bytes kp name ≡ fault
unfolding keyeq_bytes
keyeq_bytes-fault kp [] h = absurd (omega arith)
keyeq_bytes-fault [] (ch ∷ name) h = refl
keyeq_bytes-fault (b ∷ kp) (ch ∷ name) h = rw (keyeq_bytes-fault kp name (omega arith))

-- Where it holds fewer, `keyeq` loads past the end of the input.
pub keyeq-fault : (kp name : Text) (kl : ℕ) → length kp < length name → keyeq kp kl name ≡ fault
unfolding keyeq
keyeq-fault kp name kl h = rw (keyeq_bytes-fault kp name h)

split-mod : (x y p : ℕ) → x < 256 → 0 < p → (x + 256 * y) % (256 * p) ≡ x + 256 * (y % p)
split-mod x y p h k =
    let whole : x + 256 * y ≡ x + 256 * (y % p) + 256 * p * (y / p) =
      omega (arith, ap (λ (t : ℕ). 256 * t) (div-add-mod y p)) in
    rw whole (
      add-mul-mod_self_left (x + 256 * (y % p)) (256 * p) (y / p)
      ∙ mod-eq_of_lt (omega (arith, mod-lt y k)))

-- A mask keeps the low bytes.
le_value-take :
    (n : ℕ) (s : Text)
    → all is_byte s ≡ true
    → n ≤ length s
    → le_value s % 256 ^ n ≡ le_value (take n s)
unfolding le_value
le_value-take zero s h k = omega arith
le_value-take (suc n) [] h k = absurd (omega arith)
le_value-take (suc n) (b ∷ s) h k = rw (pow-succ' 256 n) (
    split-mod b (le_value s) (256 ^ n) (ground arith) (one-le-pow n 256 (omega arith))
    ∙ rw (le_value-take n s (ground arith) (omega arith)))

-- Byte strings of one length are equal when their words are.
le_value-same :
    (s t : Text)
    → all is_byte s ≡ true
    → all is_byte t ≡ true
    → length s ≡ length t
    → (le_value s == le_value t) ≡ same s t
unfolding le_value
le_value-same [] [] h k e = refl
le_value-same [] (y ∷ t) h k e = absurd (omega arith)
le_value-same (x ∷ s) [] h k e = absurd (omega arith)
le_value-same (x ∷ s) (y ∷ t) h k e = ground (arith, le_value-same s t)

pub length-take : (n : ℕ) (s : Text) → n ≤ length s → length (take n s) ≡ n
length-take zero s h = refl
length-take (suc n) [] h = absurd (omega arith)
length-take (suc n) (b ∷ s) h = omega (arith, length-take n s)

take-take : (n m : ℕ) (s : Text) → n ≤ m → take n (take m s) ≡ take n s
take-take zero m s h = refl
take-take (suc n) zero s h = absurd (omega arith)
take-take (suc n) (suc m) [] h = refl
take-take (suc n) (suc m) (b ∷ s) h = rw (take-take n m s (omega arith))

all-take : (n : ℕ) (s : Text) → all is_byte s ≡ true → all is_byte (take n s) ≡ true
all-take zero s h = refl
all-take (suc n) [] h = refl
all-take (suc n) (b ∷ s) h = ground (arith, all-take n s)

pub same-ne : (s t : Text) → (length s == length t) ≡ false → same s t ≡ false
same-ne [] [] h = cc
same-ne [] (y ∷ t) h = refl
same-ne (x ∷ s) [] h = refl
same-ne (x ∷ s) (y ∷ t) h = ground (arith, same-ne s t)

-- The masked word compares as the bytes do, for names of up to eight bytes.
word_eq-same :
    (kp name : Text) (kl : ℕ)
    → all is_byte kp ≡ true
    → all is_byte name ≡ true
    → kl ≤ length kp
    → 8 ≤ length kp
    → length name ≤ 8
    → word_eq (le_value (take 8 kp)) kl name ≡ same (take kl kp) name
unfolding word_eq
word_eq-same kp name kl hk hn bound long short =
    let n = length name in
    let low : le_value (take 8 kp) % 256 ^ n ≡ le_value (take n kp) =
      le_value-take n (take 8 kp) (all-take 8 kp hk) (omega (arith, length-take 8 kp long))
      ∙ ap le_value (take-take n 8 kp short) in
    elim (Bool-cases (kl == n)) [
      | inl equal ↦
          let e : kl ≡ n = ground arith in
          rw (equal, low, e)
            (le_value-same (take n kp) name (all-take n kp hk) hn (length-take n kp (omega arith)))
      | inr differ ↦
          rw differ (sym (same-ne (take kl kp) name (rw (length-take kl kp bound) differ)))
    ]

pub fast_eq-same :
    (kp name : Text) (kl : ℕ)
    → all is_byte kp ≡ true
    → all is_byte name ≡ true
    → kl ≤ length kp
    → 8 ≤ length kp
    → length name ≤ length kp
    → fast_eq kp kl name ≡ ok (same (take kl kp) name)
unfolding fast_eq
fast_eq-same kp name kl hk hn bound long room = elim (Bool-cases (leb (length name) 8)) [
  | inl short ↦ rw short (ap ok (word_eq-same kp name kl hk hn bound long (leb→le _ _ short)))
  | inr wide ↦ rw wide (keyeq-same kp name kl bound room)
]
