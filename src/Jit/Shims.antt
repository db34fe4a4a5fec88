-- ===== src/Jit/Shims.antt =====
-- jit.rs: the scanning shims `rt_ws`, `rt_wsskip`, `rt_skip` and `rt_strscan`.
use bilbo.Base.{
  ℕ, zero, suc, ◌+◌, ◌-◌, ◌%◌, ◌^◌, ◌≡◌, Bool, true, false, ◌&&◌, ◌||◌, Option, none, some, [], ◌∷◌,
  ◌++◌, ltb, ◌==◌, if◌then◌else◌, length, take, drop, get_elem?, Outcome, ok, fault, out_of_fuel,
}
use mathlib.Core.Option
use bilbo.Json.Value.{Text}

unfoldable pub isws : ℕ → Bool
isws b = b == b' ' || b == 0x0a || b == 0x09 || b == 0x0d

unfoldable pub rt_ws : Text → Text
unfolding isws
rt_ws [] = []
rt_ws (c ∷ b) = if isws c then rt_ws b else c ∷ b

-- `position(|&b| b > 0x20)`, or the end.
unfoldable pub rt_wsskip : Text → Text
rt_wsskip [] = []
rt_wsskip (c ∷ b) = if ltb 0x20 c then c ∷ b else rt_wsskip b

-- The string branch of `rt_skip`. `hop` is set where the code has stepped over a backslash and
-- steps over the byte behind it as well.
unfoldable pub skip_string : (hop : Bool) → Text → Text
skip_string _ [] = []
skip_string true (c ∷ b) = skip_string false b
skip_string false (c ∷ b) = let rest = skip_string (c == 0x5c) b in if c == b'"' then b else rest

-- Where the bracket branch stands: outside strings, in one, or behind a backslash in one.
pub data Mode : Type 0 where
  outside inside hopping : Mode

unfoldable pub next_mode : Mode → ℕ → Mode
next_mode outside c = if c == b'"' then inside else outside
next_mode inside c = if c == 0x5c then hopping else if c == b'"' then outside else inside
next_mode hopping c = inside

-- `depth` is an `i32`, here its 32 bits. An overflow is not checked, as in the release profile.
unfoldable pub next_depth : Mode → ℕ → ℕ → ℕ
next_depth outside depth c =
    if c == b'{' || c == b'['
    then (depth + 1) % 2 ^ 32
    else if c == b'}' || c == b']'
    then (depth + 2 ^ 32 - 1) % 2 ^ 32
    else depth
next_depth _ depth c = depth

-- Behind this byte the bracket branch returns.
unfoldable pub closes : Mode → ℕ → ℕ → Bool
closes outside depth c = (c == b'}' || c == b']') && (depth + 2 ^ 32 - 1) % 2 ^ 32 == 0
closes _ depth c = false

unfoldable pub skip_nested : Mode → ℕ → Text → Text
unfolding next_mode next_depth closes
skip_nested mode depth [] = []
skip_nested mode depth (c ∷ b) =
    let rest = skip_nested (next_mode mode c) (next_depth mode depth c) b in
    if closes mode depth c then b else rest

-- The bytes at which the scalar branch stops.
unfoldable pub ends_scalar : ℕ → Bool
unfolding isws
ends_scalar c = c == b',' || c == b'}' || c == b']' || isws c

unfoldable pub skip_scalar : Text → Text
unfolding ends_scalar
skip_scalar [] = []
skip_scalar (c ∷ b) = if ends_scalar c then c ∷ b else skip_scalar b

skip_at : Text → Text
unfolding skip_string skip_nested skip_scalar
skip_at [] = []
skip_at (c ∷ b) =
    if c == b'"'
    then skip_string false b
    else if c == b'{' || c == b'['
    then skip_nested outside 0 (c ∷ b)
    else skip_scalar (c ∷ b)

unfoldable pub rt_skip : Text → Text
unfolding rt_ws skip_at
rt_skip b = skip_at (rt_ws b)

-- The crate memchr: the position of the first byte that is one of the two.
pub record Memchr : Type 0 where
  pub memchr2 : ℕ → ℕ → Text → Option ℕ
  pub memchr2_nil : (n m : ℕ) → memchr2 n m [] ≡ none
  pub memchr2_cons :
      (n m c : ℕ) (b : Text)
      → memchr2 n m (c ∷ b) ≡ (if c == n || c == m then some 0 else Option.map suc (memchr2 n m b))

-- What `rt_strscan` reports: the bytes of the body, whether it has a backslash, the cursor behind.
pub record Span : Type 0 where
  pub body : Text
  pub had_escape : Bool
  pub after : Text

module _ (crate : Memchr) where
  open crate use {memchr2}

  -- The loop, over the haystack `hay` behind the part `seen` of the body.
  unfoldable pub strscan_loop : ℕ → (seen : Text) → (esc : Bool) → (hay : Text) → Outcome Span
  strscan_loop zero seen esc hay = out_of_fuel
  strscan_loop (suc f) seen esc hay = elim (memchr2 b'"' 0x5c hay) [
    | none ↦ ok (record { body = seen ++ hay; had_escape = esc; after = [] })
    | some off ↦ elim (get_elem? hay off) [
      | none ↦ fault
      | some c ↦ elim (c == b'"') [
        | true ↦
            ok
              (record { body = seen ++ take off hay; had_escape = esc; after = drop (suc off) hay })
        | false ↦ strscan_loop f (seen ++ take (suc (suc off)) hay) true (drop (suc (suc off)) hay)
      ]
    ]
  ]

  -- `q` stands at the opening quote, which is not looked at. At the end of the input the body's
  -- length `end - s` underflows.
  unfoldable pub rt_strscan : Text → Outcome Span
  unfolding strscan_loop
  rt_strscan [] = fault
  rt_strscan (q ∷ s) = strscan_loop (length s + 1) [] false s
