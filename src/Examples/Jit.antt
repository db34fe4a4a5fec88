-- ===== src/Examples/Jit.antt =====
-- jit.rs on concrete inputs.
use mathlib.Core.Option
use bilbo.Base.{
  ℕ, suc, ◌-◌, ◌%◌, ◌^◌, ◌≡◌, refl, inl, true, false, ◌||◌, List, [], ◌∷◌, ◌++◌, Option, none, some,
  arith, ◌==◌, if◌then◌else◌, bytes, ok, fault,
}
use bilbo.Json.Value.{
  Text, Json, num, null, array, no_items, item, parse_u128, parse_i128, number_below, digits_below,
  Signed,
}
use bilbo.Json.Utf8.{is_utf8}
use bilbo.Json.Parser.{is_number_byte, parse_string, string_body, escaped, from_utf8}
use bilbo.Json.Print.{Layout, print, is_valid}
use bilbo.Interp.Ends.{depth}
use bilbo.Jit.Shims.{isws, ends_scalar, rt_skip, Memchr, rt_strscan}
use bilbo.Jit.Skip.{rt_skip-print}
use bilbo.Jit.Unescape.{encode_utf8, rt_unescape}
use bilbo.Jit.Unescape.CodePoint.{escape_code_point, then_decode, rt_unescape-escape_code_point}
use bilbo.Jit.Scan.{ws, string_value, ws-rt_wsskip}
use bilbo.Jit.Shims.{rt_wsskip}
use bilbo.Jit.Strings.Span.{span, rt_strscan-span}
use bilbo.Jit.Strings.Backends.{is_common, string_value-parse_string}
use bilbo.Jit.Memory.{Memory, emit_copy, memset0}
use bilbo.Jit.Memory.Copy.{Copied, Zeroed, emit_copy-Copied, memset0-Zeroed}
use bilbo.Jit.Number.{negate, intval, intval-parse_u128, intval-parse_i128}
use bilbo.Jit.Keys.{wide, dispatch}
use bilbo.Jit.Keys.Dispatch.{find_name, dispatch-find_name, wide-find_name, dispatch-fault}

-- An implementation of the crate memchr.
abbrev first_of : ℕ → ℕ → Text → Option ℕ
first_of n m [] = none
first_of n m (c ∷ b) = if c == n || c == m then some 0 else Option.map suc (first_of n m b)

abbrev pub crate : Memchr
crate = record { memchr2 = first_of; memchr2_nil = λ n m. refl; memchr2_cons = λ n m c b. refl }

abbrev spaced : Layout
spaced = record { pad = bytes " "; trailing = false }

abbrev list : Json
list = array (item (num (bytes "12")) (item null no_items))

rt_skip-print_example : rt_skip (bytes " " ++ (print spaced list ++ bytes ",3")) ≡ bytes ",3"
unfolding isws ends_scalar is_valid is_number_byte depth
rt_skip-print_example = rt_skip-print spaced list (bytes ",3") refl refl (omega arith) refl

-- U+1F600, as a surrogate pair.
rt_unescape-escape_code_point_example :
    rt_unescape (escape_code_point 0x1f600 ++ bytes "!")
    ≡ then_decode (encode_utf8 0x1f600) (bytes "!")
rt_unescape-escape_code_point_example = rt_unescape-escape_code_point 0x1f600 (bytes "!") refl

ws-rt_wsskip_example : ws (bytes "    1") ≡ rt_wsskip (bytes "    1")
ws-rt_wsskip_example = ws-rt_wsskip (bytes "    1")

rt_strscan-span_example :
    rt_strscan crate (b'"' ∷ b'a' ∷ b'"' ∷ []) ≡ ok (span false (b'a' ∷ b'"' ∷ []))
rt_strscan-span_example = rt_strscan-span crate b'"' (b'a' ∷ b'"' ∷ [])

-- a, a backslash and n, a quote, a comma.
abbrev body : Text
body = b'a' ∷ 0x5c ∷ b'n' ∷ b'"' ∷ b',' ∷ []

body-is_common : is_common false (span false body).body ≡ true
unfolding is_common span
body-is_common = refl

body-parse_string : parse_string (b'"' ∷ body) ≡ ok (b'a' ∷ 0x0a ∷ [], bytes ",")
unfolding parse_string string_body escaped from_utf8 is_utf8
body-parse_string = refl

string_value-parse_string_example :
    string_value crate (bytes " " ++ b'"' ∷ body) ≡ ok (b'a' ∷ 0x0a ∷ [], bytes ",")
string_value-parse_string_example =
    string_value-parse_string crate (bytes " ") body (b'a' ∷ 0x0a ∷ []) (bytes ",") refl
      body-is_common body-parse_string

abbrev ramp : Memory
ramp a = a % 256

emit_copy-Copied_example : Copied 1000 100 ramp 21 (emit_copy 1000 100 21 ramp)
emit_copy-Copied_example = emit_copy-Copied 1000 100 21 ramp (inl (omega arith))

memset0-Zeroed_example : Zeroed 1000 ramp 15 (memset0 1000 15 ramp)
memset0-Zeroed_example = memset0-Zeroed 1000 15 ramp (omega arith)

intval-parse_u128_example :
    intval false (bytes " " ++ (bytes "443" ++ bytes ",")) ≡ ok (443 % 2 ^ 64, bytes ",")
unfolding parse_u128 number_below digits_below
intval-parse_u128_example =
    intval-parse_u128 (bytes " ") (bytes "443") (bytes ",") 443 refl refl refl

abbrev minus_five : Signed
minus_five = record { negative = true; magnitude = 5 }

intval-parse_i128_example :
    intval true (bytes " " ++ (bytes "-5" ++ bytes ",")) ≡ ok (2 ^ 64 - 5, bytes ",")
unfolding parse_i128 number_below digits_below negate
intval-parse_i128_example =
    intval-parse_i128 (bytes " ") (bytes "-5") (bytes ",") minus_five refl refl refl

abbrev names : List Text
names = bytes "host" ∷ bytes "port" ∷ []

dispatch-find_name_example :
    dispatch (bytes "port: 443") 4 names ≡ ok (find_name (bytes "port") 0 names)
dispatch-find_name_example = dispatch-find_name (bytes "port: 443") 4 names (omega arith) refl refl

wide-find_name_example : wide (bytes "port: 443") 4 names ≡ ok (find_name (bytes "port") 0 names)
wide-find_name_example = wide-find_name (bytes "port: 443") 4 names (omega arith)

-- {"p":1}, read into a struct whose first field has a long name.
dispatch-fault_example : dispatch (b'p' ∷ b'"' ∷ bytes ":1}") 1 (bytes "passenger" ∷ []) ≡ fault
dispatch-fault_example =
    dispatch-fault (b'p' ∷ b'"' ∷ bytes ":1}") 1 (bytes "passenger") [] (omega arith) (omega arith)
      (omega arith)
