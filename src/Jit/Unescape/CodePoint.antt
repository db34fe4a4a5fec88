-- ===== src/Jit/Unescape/CodePoint.antt =====
-- `rt_unescape` on `\uXXXX` and on surrogate pairs.
use bilbo.Base.{
  ℕ, ◌+◌, ◌-◌, ◌*◌, ◌/◌, ◌%◌, ◌<◌, ◌≡◌, Bool, true, false, ◌&&◌, ◌||◌, [], ◌∷◌, ◌++◌, inl, inr,
  Bool-cases, ◌∙◌, arith, ltb, leb, if◌then◌else◌, length, Outcome, ok, ◌>>=◌, ltb→lt,
}
use bilbo.Json.Value.{Text}
use bilbo.Jit.Unescape.{
  between, hex, u4, char_or_replacement, encode_utf8, decoded, pair, escape_sequence, round,
  rt_unescape,
}

abbrev pub hex_digit : ℕ → ℕ
hex_digit d = if ltb d 10 then b'0' + d else b'a' + (d - 10)

abbrev pub hex4 : ℕ → Text
hex4 n =
    hex_digit (n / 4096)
    ∷ hex_digit (n / 256 % 16)
    ∷ hex_digit (n / 16 % 16)
    ∷ hex_digit (n % 16)
    ∷ []

-- A code point as JSON escapes it: one `\u`, or two with the halves of a surrogate pair.
abbrev pub escape_code_point : ℕ → Text
escape_code_point cp =
    if ltb cp 0x10000
    then 0x5c ∷ b'u' ∷ hex4 cp
    else 0x5c
      ∷ b'u'
      ∷ (hex4 (0xd800 + (cp - 0x10000) / 1024)
          ++ 0x5c ∷ b'u' ∷ hex4 (0xdc00 + (cp - 0x10000) % 1024))

-- A Unicode scalar value.
abbrev pub is_scalar : ℕ → Bool
is_scalar cp = ltb cp 0xd800 || (leb 0xe000 cp && ltb cp 0x110000)

hex-hex_digit : (d : ℕ) → d < 16 → hex (hex_digit d) ≡ d
unfolding hex
hex-hex_digit d h = ground arith

u4-hex4 : (n : ℕ) (rest : Text) → n < 0x10000 → u4 (hex4 n ++ rest) ≡ ok n
unfolding u4
u4-hex4 n rest h =
    rw (hex-hex_digit (n / 4096) (omega arith), hex-hex_digit (n / 256 % 16) (omega arith))
      (rw (hex-hex_digit (n / 16 % 16) (omega arith), hex-hex_digit (n % 16) (omega arith))
        (let whole : n / 4096 * 4096 + n / 256 % 16 * 256 + n / 16 % 16 * 16 + n % 16 ≡ n =
            omega arith in
          rw whole))

pair-alone :
    (cp : ℕ) (rest : Text)
    → between 0xd800 0xdfff cp ≡ false
    → pair cp rest ≡ ok (decoded (encode_utf8 cp) 5)
unfolding pair char_or_replacement
pair-alone cp [] h = rw h
pair-alone cp (a ∷ []) h = rw h
pair-alone cp (a ∷ b ∷ rest) h =
    let high : between 0xd800 0xdbff cp ≡ false = ground arith in rw (high, h)

pair-joined :
    (hi lo : ℕ) (rest : Text)
    → between 0xd800 0xdbff hi ≡ true
    → between 0xdc00 0xdfff lo ≡ true
    → pair hi (0x5c ∷ b'u' ∷ (hex4 lo ++ rest))
      ≡ ok (decoded (encode_utf8 (0x10000 + (hi - 0xd800) * 1024 + (lo - 0xdc00))) 11)
unfolding pair char_or_replacement
pair-joined hi lo rest h k =
    let room : leb 6 (length (0x5c ∷ b'u' ∷ (hex4 lo ++ rest))) ≡ true = ground arith in
    let above : between 0xd800 0xdfff (0x10000 + (hi - 0xd800) * 1024 + (lo - 0xdc00)) ≡ false =
      ground arith in
    rw (h, room, u4-hex4 lo rest (ground arith)) (rw (k, above))

-- The loop is at its start behind the escape.
abbrev pub then_decode : Text → Text → Outcome Text
then_decode s rest = do t ← rt_unescape rest; ok (s ++ t)

unescape-one :
    (cp : ℕ) (rest : Text)
    → cp < 0x10000
    → between 0xd800 0xdfff cp ≡ false
    → rt_unescape (0x5c ∷ b'u' ∷ (hex4 cp ++ rest)) ≡ then_decode (encode_utf8 cp) rest
unfolding rt_unescape round escape_sequence
unescape-one cp rest h k = rw (u4-hex4 cp rest h) (rw (pair-alone cp rest k))

unescape-two :
    (hi lo : ℕ) (rest : Text)
    → between 0xd800 0xdbff hi ≡ true
    → between 0xdc00 0xdfff lo ≡ true
    → rt_unescape (0x5c ∷ b'u' ∷ (hex4 hi ++ 0x5c ∷ b'u' ∷ (hex4 lo ++ rest)))
      ≡ then_decode (encode_utf8 (0x10000 + (hi - 0xd800) * 1024 + (lo - 0xdc00))) rest
unfolding rt_unescape round escape_sequence
unescape-two hi lo rest h k =
    rw (u4-hex4 hi (0x5c ∷ b'u' ∷ (hex4 lo ++ rest)) (ground arith))
      (rw (pair-joined hi lo rest h k))

-- The escape of any Unicode scalar value decodes to its UTF-8 bytes, and the rest is decoded as if
-- it stood alone.
pub rt_unescape-escape_code_point :
    (cp : ℕ) (rest : Text)
    → is_scalar cp ≡ true
    → rt_unescape (escape_code_point cp ++ rest) ≡ then_decode (encode_utf8 cp) rest
rt_unescape-escape_code_point cp rest h = elim (Bool-cases (ltb cp 0x10000)) [
  | inl small ↦ rw small (unescape-one cp rest (ltb→lt _ _ small) (ground arith))
  | inr large ↦
      let hi = 0xd800 + (cp - 0x10000) / 1024 in
      let lo = 0xdc00 + (cp - 0x10000) % 1024 in
      let back : 0x10000 + (hi - 0xd800) * 1024 + (lo - 0xdc00) ≡ cp = ground arith in
      rw large (unescape-two hi lo rest (ground arith) (ground arith) ∙ rw back)
]
