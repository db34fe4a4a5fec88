-- ===== src/Json/RoundTrip/Tokens.antt =====
-- White space, commas, strings and numbers read back.
use bilbo.Base.{ℕ, ◌≡◌, refl, true, false, [], ◌∷◌, ◌++◌, append_assoc, arith, all, ok, ltb}
use bilbo.Json.Value.{Text, num}
use bilbo.Json.Utf8.{is_utf8, ascii-is_utf8}
use bilbo.Json.Parser.{
  is_ascii_whitespace, skip_ws, is_number_byte, number_token, string_body, from_utf8, parse_string,
  parse_number,
}
use bilbo.Json.Print.{escape, quote, stops}

pub skip_ws-append :
    (pad b : Text) → all is_ascii_whitespace pad ≡ true → skip_ws (pad ++ b) ≡ skip_ws b
unfolding skip_ws
skip_ws-append [] b h = refl
skip_ws-append (c ∷ pad) b h = ground (arith, skip_ws-append pad b)

pub skip_ws-cons : (c : ℕ) (b : Text) → is_ascii_whitespace c ≡ false → skip_ws (c ∷ b) ≡ c ∷ b
unfolding skip_ws
skip_ws-cons c b h = rw h

-- An escaped string is read up to its closing quote.
pub string_body-escape : (s b : Text) → string_body false (escape s ++ b'"' ∷ b) ≡ ok (s, b)
unfolding string_body escape
string_body-escape [] b = refl
string_body-escape (c ∷ s) b = ground (arith, string_body-escape s b)

-- The characters of a quoted string come back, whatever follows it.
pub parse_string-quote : (s b : Text) → is_utf8 s ≡ true → parse_string (quote s ++ b) ≡ ok (s, b)
unfolding parse_string quote from_utf8
parse_string-quote s b h = rw (append_assoc, string_body-escape s b, h)

pub number_token-append :
    (t b : Text) → all is_number_byte t ≡ true → stops b ≡ true → number_token (t ++ b) ≡ (t, b)
unfolding number_token
number_token-append [] [] h k = refl
number_token-append [] (c ∷ b) h k = ground arith
number_token-append (c ∷ t) b h k = ground (arith, number_token-append t b)

number-ascii : (c : ℕ) → is_number_byte c ≡ true → ltb c 0x80 ≡ true
unfolding is_number_byte
number-ascii c h = ground arith

number_token-ascii : (b : Text) → all (λ c. ltb c 0x80) (number_token b).0 ≡ true
unfolding number_token
number_token-ascii [] = refl
number_token-ascii (c ∷ b) = ground (arith, number-ascii c, number_token-ascii b)

-- The `unwrap` of the number branch never fails: a number token is ASCII.
pub parse_number-ok : (b : Text) → parse_number b ≡ ok (num (number_token b).0, (number_token b).1)
unfolding parse_number from_utf8
parse_number-ok b = rw (ascii-is_utf8 (number_token b).0 (number_token-ascii b))
