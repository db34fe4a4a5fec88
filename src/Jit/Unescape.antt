-- ===== src/Jit/Unescape.antt =====
-- jit.rs: `rt_unescape`, which decodes the body of a string that has a backslash.
pub mod CodePoint
pub mod Length
use bilbo.Base.{
  ℕ, zero, suc, ◌+◌, ◌-◌, ◌*◌, ◌/◌, ◌%◌, Bool, true, false, ◌&&◌, Option, none, some, [], ◌∷◌, ◌++◌,
  ltb, leb, ◌==◌, if◌then◌else◌, length, drop, Outcome, ok, panic, ◌>>=◌,
}
use bilbo.Json.Value.{Text}

abbrev pub between : ℕ → ℕ → ℕ → Bool
between lo hi c = leb lo c && leb c hi

unfoldable pub hex : ℕ → ℕ
hex b =
    if between b'0' b'9' b
    then b - b'0'
    else if between b'a' b'f' b
    then b - b'a' + 10
    else if between b'A' b'F' b
    then b - b'A' + 10
    else 0

-- Four hexadecimal digits; the slice is indexed, so a shorter text panics. The shifted digits do not
-- overlap, and `|` is their sum.
unfoldable pub u4 : Text → Outcome ℕ
unfolding hex
u4 (a ∷ b ∷ c ∷ d ∷ s) = ok (hex a * 4096 + hex b * 256 + hex c * 16 + hex d)
u4 _ = panic

-- `char::from_u32(cp).unwrap_or('\u{FFFD}')`.
unfoldable pub char_or_replacement : ℕ → ℕ
char_or_replacement cp = if between 0xd800 0xdfff cp then 0xfffd else cp

-- `char::encode_utf8`.
unfoldable pub encode_utf8 : ℕ → Text
encode_utf8 cp =
    if ltb cp 0x80
    then cp ∷ []
    else if ltb cp 0x800
    then (0xc0 + cp / 64) ∷ (0x80 + cp % 64) ∷ []
    else if ltb cp 0x10000
    then (0xe0 + cp / 4096) ∷ (0x80 + cp / 64 % 64) ∷ (0x80 + cp % 64) ∷ []
    else (0xf0 + cp / 262144)
      ∷ (0x80 + cp / 4096 % 64)
      ∷ (0x80 + cp / 64 % 64)
      ∷ (0x80 + cp % 64)
      ∷ []

-- What an escape yields, and how many bytes behind the backslash it takes.
pub record Decoded : Type 0 where
  pub out : Text
  pub used : ℕ

abbrev pub decoded : Text → ℕ → Decoded
decoded s n = record { out = s; used = n }

-- A code point that `\uXXXX` has given, with what is behind: the low half of a surrogate pair is
-- looked for if six bytes are left.
unfoldable pub pair : ℕ → Text → Outcome Decoded
pair cp (a ∷ b ∷ rest) =
    let alone = ok (decoded (encode_utf8 (char_or_replacement cp)) 5) in
    let joined = do
      lo ← u4 rest
      if between 0xdc00 0xdfff lo
          then ok (
              decoded
                (encode_utf8 (char_or_replacement (0x10000 + (cp - 0xd800) * 1024 + (lo - 0xdc00))))
                11)
          else alone
    in if between 0xd800 0xdbff cp && (leb 6 (length (a ∷ b ∷ rest)) && (a == 0x5c && b == b'u'))
      then joined
      else alone
pair cp _ = ok (decoded (encode_utf8 (char_or_replacement cp)) 5)

-- `s[i]` behind a backslash, and what is behind it.
unfoldable pub escape_sequence : ℕ → Text → Outcome Decoded
escape_sequence c rest =
    if c == b'n'
    then ok (decoded (0x0a ∷ []) 1)
    else if c == b't'
    then ok (decoded (0x09 ∷ []) 1)
    else if c == b'r'
    then ok (decoded (0x0d ∷ []) 1)
    else if c == b'b'
    then ok (decoded (0x08 ∷ []) 1)
    else if c == b'f'
    then ok (decoded (0x0c ∷ []) 1)
    else if c == b'u'
    then (do cp ← u4 rest; pair cp (drop 4 rest))
    else ok (decoded (c ∷ []) 1)

-- One round of the loop: a byte, and what is behind it. A backslash at the very end adds nothing.
unfoldable pub round : ℕ → Text → Outcome Decoded
round b [] = ok (if b == 0x5c then decoded [] 0 else decoded (b ∷ []) 0)
round b (c ∷ rest) = if b == 0x5c then escape_sequence c rest else ok (decoded (b ∷ []) 0)

-- The loop. `skip` counts the bytes that an escape has taken already.
unfoldable pub unescape_loop : (skip : ℕ) → Text → Outcome Text
unescape_loop _ [] = ok []
unescape_loop (suc n) (b ∷ s) = unescape_loop n s
unescape_loop zero (b ∷ s) = do d ← round b s; rest ← unescape_loop d.used s; ok (d.out ++ rest)

unfoldable pub rt_unescape : Text → Outcome Text
unfolding unescape_loop
rt_unescape s = unescape_loop 0 s
