-- ===== src/Jit/Keys/Dispatch.antt =====
-- Both ways to dispatch on a key find the first field of that name.
use bilbo.Base.{
  ℕ, suc, ◌≤◌, ◌<◌, ◌≡◌, refl, ◌∙◌, Bool, true, false, ◌&&◌, List, Option, none, some, [], ◌∷◌,
  ◌++◌, append-nil, append_assoc, inl, inr, Bool-cases, arith, leb, ◌==◌, if◌then◌else◌, leb→le,
  length, take, all, same, Outcome, ok, fault,
}
use bilbo.Json.Value.{Text}
use bilbo.Jit.Keys.{
  keyeq, fast_eq, chain, narrow, Bucket, push_len, bucket_all, switch, bucket_chain, wide,
  switch_min_fields, dispatch,
}
use bilbo.Jit.Keys.Words.{is_byte, keyeq-same, keyeq-fault, fast_eq-same, same-ne, length-take}

-- The index of the first field with that name, counted from `i`.
unfoldable pub find_name : Text → ℕ → List Text → Option ℕ
find_name key i [] = none
find_name key i (name ∷ names) = if same key name then some i else find_name key (suc i) names

-- Names of bytes, none longer than the rest of the input.
abbrev pub fits : (room : ℕ) → Text → Bool
fits room name = all is_byte name && leb (length name) room

abbrev Exact : (Text → Outcome Bool) → Text → List Text → Type 0
Exact test key [] = Unit
Exact test key (name ∷ names) = (test name ≡ ok (same key name)) × Exact test key names

chain-find_name :
    (test : Text → Outcome Bool) (key : Text) (i : ℕ) (names : List Text)
    → Exact test key names
    → chain test i names ≡ ok (find_name key i names)
unfolding chain find_name
chain-find_name test key i [] h = refl
chain-find_name test key i (name ∷ names) h = rw h.0 (elim (Bool-cases (same key name)) [
  | inl hit ↦ rw hit
  | inr miss ↦ rw miss (chain-find_name test key (suc i) names h.1)
])

module _ (kp : Text) (kl : ℕ) (bound : kl ≤ length kp) where
  keyeq-Exact :
      (names : List Text)
      → all (fits (length kp)) names ≡ true
      → Exact (keyeq kp kl) (take kl kp) names
  keyeq-Exact [] h = tt
  keyeq-Exact (name ∷ names) h =
      (keyeq-same kp name kl bound (ground arith), keyeq-Exact names (ground arith))

  fast_eq-Exact :
      (names : List Text)
      → all is_byte kp ≡ true
      → 8 ≤ length kp
      → all (fits (length kp)) names ≡ true
      → Exact (fast_eq kp kl) (take kl kp) names
  fast_eq-Exact [] hk long h = tt
  fast_eq-Exact (name ∷ names) hk long h = (
    fast_eq-same kp name kl hk (ground arith) bound long (ground arith),
    fast_eq-Exact names hk long (ground arith),
  )

  pub narrow-find_name :
      (names : List Text)
      → all is_byte kp ≡ true
      → all (fits (length kp)) names ≡ true
      → narrow kp kl names ≡ ok (find_name (take kl kp) 0 names)
  unfolding narrow
  narrow-find_name names hk h = elim (Bool-cases (leb 8 (length kp))) [
    | inl long ↦
        rw long
          (chain-find_name _ (take kl kp) 0 names (fast_eq-Exact names hk (leb→le _ _ long) h))
    | inr short ↦ rw short (chain-find_name _ (take kl kp) 0 names (keyeq-Exact names h))
  ]

-- The fields of one length, with their indices.
of_length : ℕ → ℕ → List Text → Bucket
of_length kl i [] = []
of_length kl i (name ∷ names) =
    let rest = of_length kl (suc i) names in if length name == kl then (i, name) ∷ rest else rest

switch-push_len :
    (kl len : ℕ) (e : ℕ × Text) (by_len : List (ℕ × Bucket))
    → switch kl (push_len len e by_len) ≡ switch kl by_len ++ (if len == kl then e ∷ [] else [])
unfolding switch push_len
switch-push_len kl len e [] = ground arith
switch-push_len kl len e ((n, b) ∷ by_len) = elim (Bool-cases (n == len)) [
  | inl there ↦ elim (Bool-cases (n == kl)) [
    | inl found ↦ let right : (len == kl) ≡ true = ground arith in rw (there, right) (rw found)
    | inr other ↦
        let wrong : (len == kl) ≡ false = ground arith in
        rw (there, wrong) (rw other (rw append-nil))
  ]
  | inr elsewhere ↦ elim (Bool-cases (n == kl)) [
    | inl found ↦
        let wrong : (len == kl) ≡ false = ground arith in
        rw (elsewhere, wrong) (rw found (rw append-nil))
    | inr other ↦ rw elsewhere (rw other (switch-push_len kl len e by_len))
  ]
]

switch-bucket_all :
    (kl i : ℕ) (names : List Text) (by_len : List (ℕ × Bucket))
    → switch kl (bucket_all i names by_len) ≡ switch kl by_len ++ of_length kl i names
unfolding bucket_all of_length
switch-bucket_all kl i [] by_len = rw append-nil
switch-bucket_all kl i (name ∷ names) by_len =
    switch-bucket_all kl (suc i) names (push_len (length name) (i, name) by_len)
    ∙ rw (switch-push_len kl (length name) (i, name) by_len)
        (elim (Bool-cases (length name == kl)) [
          | inl right ↦ rw right (rw append_assoc)
          | inr wrong ↦ rw wrong (rw append-nil)
        ])

bucket_chain-of_length :
    (kp : Text) (kl : ℕ)
    → kl ≤ length kp
    → (i : ℕ) (names : List Text)
    → bucket_chain (keyeq kp kl) (of_length kl i names) ≡ ok (find_name (take kl kp) i names)
unfolding bucket_chain of_length find_name
bucket_chain-of_length kp kl bound i [] = refl
bucket_chain-of_length kp kl bound i (name ∷ names) =
    let rest = bucket_chain-of_length kp kl bound (suc i) names in
    elim (Bool-cases (length name == kl)) [
      | inl equal ↦ rw equal (
          rw (keyeq-same kp name kl bound (ground arith))
            (elim (Bool-cases (same (take kl kp) name)) [
              | inl hit ↦ rw hit
              | inr miss ↦ rw miss rest
            ]))
      | inr differ ↦
          let miss : same (take kl kp) name ≡ false =
            same-ne (take kl kp) name (rw (length-take kl kp bound) (ground arith)) in
          rw (differ, miss) rest
    ]

-- The table by length needs no room behind the key: each name that it compares has the key's length.
pub wide-find_name :
    (kp : Text) (kl : ℕ) (names : List Text)
    → kl ≤ length kp
    → wide kp kl names ≡ ok (find_name (take kl kp) 0 names)
unfolding wide
wide-find_name kp kl names bound =
    rw (switch-bucket_all kl 0 names []) (bucket_chain-of_length kp kl bound 0 names)

-- Narrow or wide, the code jumps to the first field whose name is the key, and to the block that
-- skips if there is none, where the key lies in the input, the texts consist of bytes, and no field's
-- name is longer than the input from the key on.
pub dispatch-find_name :
    (kp : Text) (kl : ℕ) (names : List Text)
    → kl ≤ length kp
    → all is_byte kp ≡ true
    → all (fits (length kp)) names ≡ true
    → dispatch kp kl names ≡ ok (find_name (take kl kp) 0 names)
unfolding dispatch
dispatch-find_name kp kl names bound hk h =
    elim (Bool-cases (leb switch_min_fields (length names))) [
      | inl many ↦ rw many (wide-find_name kp kl names bound)
      | inr few ↦ rw few (narrow-find_name kp kl bound names hk h)
    ]

-- A narrow struct whose first field has a name longer than the input from the key on, with fewer
-- than eight bytes left: the comparison loads past the end of the input.
pub dispatch-fault :
    (kp : Text) (kl : ℕ) (name : Text) (names : List Text)
    → length kp < 8
    → length kp < length name
    → length names < 11
    → dispatch kp kl (name ∷ names) ≡ fault
unfolding dispatch narrow chain
dispatch-fault kp kl name names short long few = ground (arith, keyeq-fault kp name kl)
