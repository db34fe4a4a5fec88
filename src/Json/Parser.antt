-- ===== src/Json/Parser.antt =====
-- json.rs: the recursive descent. Each call of `parse_value`, `parse_object` and `parse_array` and
-- each round of their loops costs a unit of fuel.
use bilbo.Base.{
  ℕ, zero, suc, Bool, true, false, ◌||◌, [], ◌∷◌, ◌==◌, if◌then◌else◌, drop, Outcome, ok, panic,
  out_of_fuel, ◌>>=◌, ◌>>◌,
}
use bilbo.Json.Value.{
  Text, Json, Items, Members, str, num, bool, null, array, object, no_items, item, no_members,
  member, is_digit,
}
use bilbo.Json.Utf8.{is_utf8}

-- `b[*i]`.
abbrev pub peek : Text → Outcome ℕ
peek [] = panic
peek (c ∷ b) = ok c

abbrev pub assert : Bool → Outcome (Unit {0})
assert true = ok tt
assert false = panic

-- `u8::is_ascii_whitespace`: space, tab, line feed, form feed, carriage return.
unfoldable pub is_ascii_whitespace : ℕ → Bool
is_ascii_whitespace c = c == 0x20 || c == 0x09 || c == 0x0a || c == 0x0c || c == 0x0d

unfoldable pub skip_ws : Text → Text
unfolding is_ascii_whitespace
skip_ws [] = []
skip_ws (c ∷ b) = if is_ascii_whitespace c then skip_ws b else c ∷ b

-- The bytes that the number branch collects.
unfoldable pub is_number_byte : ℕ → Bool
is_number_byte c = is_digit c || c == b'-' || c == b'+' || c == b'.' || c == b'e' || c == b'E'

-- The token `b[start..*i]` and what is ahead of it.
unfoldable pub number_token : Text → Text × Text
unfolding is_number_byte
number_token [] = ([], [])
number_token (c ∷ b) =
    let (token, rest) = number_token b in
    if is_number_byte c then (c ∷ token, rest) else ([], c ∷ b)

-- The byte that stands for `\c`.
unfoldable pub escaped : ℕ → ℕ
escaped c = if c == b'n' then 0x0a else if c == b't' then 0x09 else c

abbrev pub push : ℕ → Outcome (Text × Text) → Outcome (Text × Text)
push c r = do (s, rest) ← r; ok (c ∷ s, rest)

-- The loop of `parse_string`. `after_backslash` holds in the branch that has seen a backslash and
-- stepped past it, where the code indexes `b[*i]` once more.
unfoldable pub string_body : (after_backslash : Bool) → Text → Outcome (Text × Text)
unfolding escaped
string_body _ [] = panic
string_body true (c ∷ b) = push (escaped c) (string_body false b)
string_body false (c ∷ b) =
    let rest = string_body (c == 0x5c) b in
    if c == b'"' then ok ([], b) else if c == 0x5c then rest else push c rest

unfoldable pub from_utf8 : Text → Outcome Text
unfolding is_utf8
from_utf8 s = if is_utf8 s then ok s else panic

unfoldable pub parse_string : Text → Outcome (Text × Text)
unfolding string_body from_utf8
parse_string b = do
  c ← peek b
  assert (c == b'"')
  (s, rest) ← string_body false (drop 1 b)
  s ← from_utf8 s
  ok (s, rest)

-- `Json::Num(from_utf8(&b[start..*i]).unwrap())`.
unfoldable pub parse_number : Text → Outcome (Json × Text)
unfolding number_token from_utf8
parse_number b = do
  let (token, rest) = number_token b
  token ← from_utf8 token
  ok (num token, rest)

-- `if b[*i] == b',' { *i += 1; }`.
unfoldable pub skip_comma : Text → Outcome Text
skip_comma b = do c ← peek b; ok (if c == b',' then drop 1 b else b)

unfoldable mutual
  pub parse_value : ℕ → Text → Outcome (Json × Text)
  parse_value zero b = out_of_fuel
  parse_value (suc f) b = do
    let b = skip_ws b
    c ← peek b
    let object_case = parse_object f b
    let array_case = parse_array f b
    let string_case = do (s, rest) ← parse_string b; ok (str s, rest)
    if c == b'{'
        then object_case
        else if c == b'['
        then array_case
        else if c == b'"'
        then string_case
        else if c == b't'
        then ok (bool true, drop 4 b)
        else if c == b'f'
        then ok (bool false, drop 5 b)
        else if c == b'n'
        then ok (null, drop 4 b)
        else parse_number b

  pub parse_object : ℕ → Text → Outcome (Json × Text)
  parse_object zero b = out_of_fuel
  parse_object (suc f) b = do (ms, rest) ← object_loop f (drop 1 b); ok (object ms, rest)

  pub object_loop : ℕ → Text → Outcome (Members × Text)
  object_loop zero b = out_of_fuel
  object_loop (suc f) b = do
    let b = skip_ws b
    c ← peek b
    let round = do
      (key, b) ← parse_string b
      let b = skip_ws b
      c ← peek b
      assert (c == b':')
      (val, b) ← parse_value f (drop 1 b)
      b ← skip_comma (skip_ws b)
      (more, b) ← object_loop f b
      ok (member key val more, b)
    if c == b'}' then ok (no_members, drop 1 b) else round

  pub parse_array : ℕ → Text → Outcome (Json × Text)
  parse_array zero b = out_of_fuel
  parse_array (suc f) b = do (xs, rest) ← array_loop f (drop 1 b); ok (array xs, rest)

  pub array_loop : ℕ → Text → Outcome (Items × Text)
  array_loop zero b = out_of_fuel
  array_loop (suc f) b = do
    let b = skip_ws b
    c ← peek b
    let round = do
      (v, b) ← parse_value f b
      b ← skip_comma (skip_ws b)
      (more, b) ← array_loop f b
      ok (item v more, b)
    if c == b']' then ok (no_items, drop 1 b) else round

-- `pub fn parse`, given fuel.
unfoldable pub parse : ℕ → Text → Outcome Json
unfolding parse_value skip_ws parse_string parse_number skip_comma
parse f s = do (v, rest) ← parse_value f s; ok v
