-- ===== src/Jit/Keys.antt =====
-- jit.rs: how the emitted code of `parse_struct` finds the field of a key. `kp` is the text from the
-- key's first byte on, which reaches to the end of the input, and `kl` the key's length.
pub mod Words
pub mod Dispatch
use bilbo.Base.{
  ℕ, zero, suc, ◌+◌, ◌*◌, ◌%◌, ◌^◌, Bool, true, false, ◌&&◌, List, Option, none, some, [], ◌∷◌,
  ◌++◌, leb, ◌==◌, if◌then◌else◌, length, take, Outcome, ok, fault, ◌>>=◌,
}
use bilbo.Json.Value.{Text}

-- The loads and comparisons of `keyeq`: every byte of the name is loaded from the text, also where
-- the key is shorter.
unfoldable pub keyeq_bytes : (kp name : Text) → Outcome Bool
keyeq_bytes kp [] = ok true
keyeq_bytes [] (ch ∷ name) = fault
keyeq_bytes (byte ∷ kp) (ch ∷ name) = do acc ← keyeq_bytes kp name; ok (byte == ch && acc)

-- `Emit::keyeq`.
unfoldable pub keyeq : (kp : Text) (kl : ℕ) (name : Text) → Outcome Bool
keyeq kp kl name = do acc ← keyeq_bytes kp name; ok (kl == length name && acc)

-- The bytes as one little-endian number: an 8-byte load, `u64::from_le_bytes` of the padded name.
unfoldable pub le_value : Text → ℕ
le_value [] = 0
le_value (b ∷ s) = b + 256 * le_value s

-- The comparison of one word; `w & mask` keeps the low bytes, all eight under the mask -1.
unfoldable pub word_eq : (w kl : ℕ) (name : Text) → Bool
unfolding le_value
word_eq w kl name = kl == length name && w % 256 ^ length name == le_value name

unfoldable pub fast_eq : (kp : Text) (kl : ℕ) (name : Text) → Outcome Bool
fast_eq kp kl name =
    if leb (length name) 8 then ok (word_eq (le_value (take 8 kp)) kl name) else keyeq kp kl name

-- A chain of tests over the fields from the `i`-th on; `none` leads to the block that skips.
unfoldable pub chain : (Text → Outcome Bool) → ℕ → List Text → Outcome (Option ℕ)
chain test i [] = ok none
chain test i (name ∷ names) =
    let rest = chain test (suc i) names in do cond ← test name; if cond then ok (some i) else rest

-- Narrow structs: a word is loaded where eight bytes are left in the input.
unfoldable pub narrow : (kp : Text) (kl : ℕ) → List Text → Outcome (Option ℕ)
narrow kp kl names =
    if leb 8 (length kp) then chain (fast_eq kp kl) 0 names else chain (keyeq kp kl) 0 names

abbrev pub Bucket : Type 0
Bucket = List (ℕ × Text)

-- `by_len.entry(len).or_default().push(i)`; each entry keeps the name with the index.
unfoldable pub push_len : ℕ → ℕ × Text → List (ℕ × Bucket) → List (ℕ × Bucket)
push_len len e [] = (len, e ∷ []) ∷ []
push_len len e ((n, b) ∷ by_len) =
    let rest = (n, b) ∷ push_len len e by_len in
    if n == len then (n, b ++ e ∷ []) ∷ by_len else rest

unfoldable pub bucket_all : ℕ → List Text → List (ℕ × Bucket) → List (ℕ × Bucket)
unfolding push_len
bucket_all i [] by_len = by_len
bucket_all i (name ∷ names) by_len =
    bucket_all (suc i) names (push_len (length name) (i, name) by_len)

-- The `Switch` on the key's length; its default is the empty chain.
unfoldable pub switch : ℕ → List (ℕ × Bucket) → Bucket
switch kl [] = []
switch kl ((n, b) ∷ by_len) = if n == kl then b else switch kl by_len

unfoldable pub bucket_chain : (Text → Outcome Bool) → Bucket → Outcome (Option ℕ)
bucket_chain test [] = ok none
bucket_chain test ((i, name) ∷ b) =
    let rest = bucket_chain test b in do cond ← test name; if cond then ok (some i) else rest

-- Wide structs.
unfoldable pub wide : (kp : Text) (kl : ℕ) → List Text → Outcome (Option ℕ)
unfolding bucket_all switch
wide kp kl names = bucket_chain (keyeq kp kl) (switch kl (bucket_all 0 names []))

abbrev pub switch_min_fields : ℕ
switch_min_fields = 12

-- The field that the code jumps to, by its index.
unfoldable pub dispatch : (kp : Text) (kl : ℕ) → List Text → Outcome (Option ℕ)
dispatch kp kl names =
    if leb switch_min_fields (length names) then wide kp kl names else narrow kp kl names
