-- ===== src/Json/Stray.antt =====
-- json.rs: an array with a byte that starts no value. The number branch takes an empty token, the
-- cursor stays where it is, and the loop of `parse_array` never ends.
use bilbo.Base.{ℕ, Bool, not, ◌&&◌, ◌==◌}
use bilbo.Json.Parser.{is_ascii_whitespace, is_number_byte}

-- No white space, no byte that starts a value, no comma and no closing bracket.
abbrev pub is_stray : ℕ → Bool
is_stray c =
    not (is_ascii_whitespace c)
    && (not (is_number_byte c)
        && (not (c == b'{')
            && (not (c == b'[')
                && (not (c == b'"')
                    && (not (c == b't')
                        && (not (c == b'f')
                            && (not (c == b'n') && (not (c == b',') && not (c == b']')))))))))
