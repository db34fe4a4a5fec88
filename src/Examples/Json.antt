-- ===== src/Examples/Json.antt =====
-- json.rs on concrete documents.
use bilbo.Base.{◌+◌, ◌*◌, ◌<◌, ◌≡◌, refl, true, [], ◌∷◌, ◌++◌, arith, length, bytes, ok}
use bilbo.Json.Value.{Json, num, bool, null, array, object, no_items, item, no_members, member}
use bilbo.Json.Utf8.{is_utf8}
use bilbo.Json.Parser.{is_ascii_whitespace, is_number_byte, parse_value}
use bilbo.Json.Print.{Layout, escape, quote, print, is_valid}
use bilbo.Json.RoundTrip.{parse_value-print}

abbrev pub airy : Layout
airy = record { pad = bytes " "; trailing = true }

-- {"a": [12, null], "b\"": true}, with a comma behind each element.
abbrev document : Json
document = object (
    member (bytes "a") (array (item (num (bytes "12")) (item null no_items)))
      (member (bytes "b" ++ b'"' ∷ []) (bool true) no_members))

document-is_valid : is_valid document ≡ true
unfolding is_valid is_utf8 is_number_byte
document-is_valid = refl

length-document : 3 * length (print airy document) < 200 + 3
unfolding print quote escape
length-document = omega arith

parse_value-print_example :
    parse_value 200 (bytes " " ++ (print airy document ++ bytes ", 1")) ≡ ok (document, bytes ", 1")
unfolding is_ascii_whitespace is_number_byte
parse_value-print_example =
    parse_value-print airy document 200 (bytes ", 1") refl document-is_valid refl length-document
