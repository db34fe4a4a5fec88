-- ===== src/Json/RoundTrip.antt =====
-- The parser of json.rs reads back what was printed, in every layout.
pub mod Tokens
pub mod Heads
pub mod Values
use bilbo.Base.{ℕ, ◌+◌, ◌*◌, ◌<◌, ◌≡◌, true, ◌++◌, length, arith, ok}
use bilbo.Json.Value.{Text, Json}
use bilbo.Json.Parser.{parse_value, parse}
use bilbo.Json.Print.{Layout, IsBlank, print, is_valid, stops}
use Tokens.{skip_ws-append}
use Heads.{parse_value-skip_ws}
use Values.{value_reads}
pub use Tokens.{string_body-escape, parse_string-quote, parse_number-ok}

-- A valid value that is printed in any layout, with white space in front of it and any text behind
-- it that does not continue a number, is read back, and the cursor then stands behind it. Fuel of
-- three times the printed length is enough.
pub parse_value-print :
    (l : Layout) (v : Json) (f : ℕ) (rest : Text)
    → IsBlank l
    → is_valid v ≡ true
    → stops rest ≡ true
    → 3 * length (print l v) < f + 3
    → parse_value f (l.pad ++ (print l v ++ rest)) ≡ ok (v, rest)
parse_value-print l v f rest blank valid end fuel =
    rw (parse_value-skip_ws f _ (print l v ++ rest) (skip_ws-append l.pad _ blank))
      (value_reads l blank v f rest valid end fuel)

-- `parse` inverts printing, whatever text follows the value: the parser is lenient about it.
pub parse-print :
    (l : Layout) (v : Json) (f : ℕ) (rest : Text)
    → IsBlank l
    → is_valid v ≡ true
    → stops rest ≡ true
    → 3 * length (print l v) < f + 3
    → parse f (l.pad ++ (print l v ++ rest)) ≡ ok v
unfolding parse
parse-print l v f rest blank valid end fuel = rw (parse_value-print l v f rest blank valid end fuel)
