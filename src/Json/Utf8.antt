-- ===== src/Json/Utf8.antt =====
-- The standard library's UTF-8 check, `from_utf8`, as far as json.rs uses it: whether it fails.
use bilbo.Base.{
  ℕ, zero, suc, ◌≡◌, refl, Bool, true, false, ◌&&◌, List, [], ◌∷◌, arith, ltb, leb, ◌==◌,
  if◌then◌else◌, all,
}

-- `want n lo hi`: n more continuation bytes, the next of them between lo and hi.
pub data State : Type 0 where
  start : State
  want : ℕ → ℕ → ℕ → State
  bad : State

abbrev between : ℕ → ℕ → ℕ → Bool
between lo hi c = leb lo c && leb c hi

-- The table of well-formed byte sequences of the Unicode standard.
lead : ℕ → State
lead c =
    if ltb c 0x80
    then start
    else if between 0xc2 0xdf c
    then want 0 0x80 0xbf
    else if c == 0xe0
    then want 1 0xa0 0xbf
    else if c == 0xed
    then want 1 0x80 0x9f
    else if between 0xe1 0xef c
    then want 1 0x80 0xbf
    else if c == 0xf0
    then want 2 0x90 0xbf
    else if between 0xf1 0xf3 c
    then want 2 0x80 0xbf
    else if c == 0xf4
    then want 2 0x80 0x8f
    else bad

step : State → ℕ → State
unfolding lead
step start c = lead c
step (want zero lo hi) c = if between lo hi c then start else bad
step (want (suc n) lo hi) c = if between lo hi c then want n 0x80 0xbf else bad
step bad c = bad

run : State → List ℕ → Bool
unfolding step
run start [] = true
run (want n lo hi) [] = false
run bad [] = false
run start (c ∷ s) = run (step start c) s
run (want n lo hi) (c ∷ s) = run (step (want n lo hi) c) s
run bad (c ∷ s) = false

unfoldable pub is_utf8 : List ℕ → Bool
unfolding run
is_utf8 s = run start s

-- ASCII is well formed.
pub ascii-is_utf8 : (s : List ℕ) → all (λ c. ltb c 0x80) s ≡ true → is_utf8 s ≡ true
unfolding is_utf8
ascii-is_utf8 [] h = refl
ascii-is_utf8 (c ∷ s) h = ground (arith, ascii-is_utf8 s)
