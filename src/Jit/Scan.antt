-- ===== src/Jit/Scan.antt =====
-- jit.rs: what the emitted scanning code computes: `ws` with `peel_ws`, `strspan`, `build_str`.
use bilbo.Base.{
  ℕ, ◌≡◌, refl, ◌∙◌, all, ◌++◌, true, [], ◌∷◌, arith, leb, ltb, if◌then◌else◌, Outcome, ok, ◌>>=◌,
}
use bilbo.Json.Value.{Text}
use bilbo.Jit.Shims.{rt_wsskip, Memchr, Span, rt_strscan}
use bilbo.Jit.Unescape.{rt_unescape}

-- Two blocks to go on in: `cont` where the byte stays, `tail` behind it.
unfoldable pub peel_ws : Text → (cont tail : Text → Text) → Text
peel_ws [] cont tail = cont []
peel_ws (v ∷ c) cont tail = if leb v 0x20 then tail c else cont (v ∷ c)

-- Two bytes inline, and the shim for a longer run. A cursor behind the end of the input is the empty text, as
-- one at the end is.
unfoldable pub ws : Text → Text
unfolding peel_ws
ws cur = peel_ws cur (λ c. c) (λ c. peel_ws c (λ c. c) (λ c. rt_wsskip c))

-- The inline peeling does not change the result.
pub ws-rt_wsskip : (cur : Text) → ws cur ≡ rt_wsskip cur
unfolding ws rt_wsskip
ws-rt_wsskip [] = refl
ws-rt_wsskip (a ∷ []) = ground arith
ws-rt_wsskip (a ∷ b ∷ c) = ground arith

rt_wsskip-append :
    (pad : Text) (c : ℕ) (b : Text)
    → all (λ c. leb c 0x20) pad ≡ true
    → ltb 0x20 c ≡ true
    → rt_wsskip (pad ++ c ∷ b) ≡ c ∷ b
unfolding rt_wsskip
rt_wsskip-append [] c b h k = rw k
rt_wsskip-append (d ∷ pad) c b h k = ground (arith, rt_wsskip-append pad c b)

pub ws-append :
    (pad : Text) (c : ℕ) (b : Text)
    → all (λ c. leb c 0x20) pad ≡ true
    → ltb 0x20 c ≡ true
    → ws (pad ++ c ∷ b) ≡ c ∷ b
ws-append pad c b h k = ws-rt_wsskip (pad ++ c ∷ b) ∙ rt_wsskip-append pad c b h k

module _ (crate : Memchr) where
  unfoldable pub strspan : Text → Outcome Span
  unfolding ws rt_strscan
  strspan cur = rt_strscan crate (ws cur)

-- The bytes of the owned string: a copy of the span, or what the shim decodes.
unfoldable pub build_str : Span → Outcome Text
build_str s = if s.had_escape then rt_unescape s.body else ok s.body

module _ (crate : Memchr) where
  -- A `String` field: its bytes, and the cursor behind it.
  unfoldable pub string_value : Text → Outcome (Text × Text)
  unfolding strspan
  string_value cur = do s ← strspan crate cur; t ← build_str s; ok (t, s.after)
