-- ===== src/Json/Print.antt =====
-- Writing a `Json` as text, as the round trip of json.rs is stated against. A layout fixes what the
-- lenient parser leaves free: the white space between tokens and the trailing comma.
pub mod Shape
use bilbo.Base.{
  ℕ, suc, ◌+◌, ◌≤◌, ◌<◌, ◌≡◌, refl, Bool, true, false, ◌&&◌, ◌||◌, List, [], ◌∷◌, ◌++◌, arith, ◌==◌,
  if◌then◌else◌, length, all, bytes, lengths, same,
}
use bilbo.Json.Value.{
  Text, Json, Items, Members, str, num, bool, null, array, object, no_items, item, no_members,
  member,
}
use bilbo.Json.Utf8.{is_utf8}
use bilbo.Json.Parser.{is_ascii_whitespace, is_number_byte}

pub record Layout : Type 0 where
  pub pad : Text
  pub trailing : Bool

-- The padding is white space.
abbrev pub IsBlank : Layout → Type 0
IsBlank l = all is_ascii_whitespace l.pad ≡ true

-- The byte behind the backslash, where a byte is written with one.
unfoldable pub escape : Text → Text
escape [] = []
escape (c ∷ s) =
    let rest = escape s in
    if c == b'"' || c == 0x5c
    then 0x5c ∷ c ∷ rest
    else if c == 0x0a
    then 0x5c ∷ b'n' ∷ rest
    else if c == 0x09
    then 0x5c ∷ b't' ∷ rest
    else c ∷ rest

unfoldable pub quote : Text → Text
unfolding escape
quote s = b'"' ∷ (escape s ++ b'"' ∷ [])

module _ (l : Layout) where
  -- Between an element and the next, or the closing bracket.
  abbrev pub comma : (last : Bool) → Text
  comma last = if last then (if l.trailing then b',' ∷ [] else []) else b',' ∷ []

abbrev pub is_last_item : Items → Bool
is_last_item no_items = true
is_last_item (item v xs) = false

abbrev pub is_last_member : Members → Bool
is_last_member no_members = true
is_last_member (member k v ms) = false

unfoldable mutual
  pub print : Layout → Json → Text
  print l (str s) = quote s
  print l (num t) = t
  print l (bool b) = if b then bytes "true" else bytes "false"
  print l null = bytes "null"
  print l (array xs) = b'[' ∷ print_items l xs
  print l (object ms) = b'{' ∷ print_members l ms

  pub print_items : Layout → Items → Text
  print_items l no_items = l.pad ++ b']' ∷ []
  print_items l (item v xs) =
      l.pad ++ (print l v ++ (l.pad ++ (comma l (is_last_item xs) ++ print_items l xs)))

  pub print_members : Layout → Members → Text
  print_members l no_members = l.pad ++ b'}' ∷ []
  print_members l (member k v ms) =
      l.pad
      ++ (quote k
          ++ (l.pad
              ++ b':'
                ∷ (l.pad
                    ++ (print l v
                        ++ (l.pad ++ (comma l (is_last_member ms) ++ print_members l ms))))))

-- Strings and keys are UTF-8, and numbers are what the number branch collects, and not empty.
unfoldable mutual
  pub is_valid : Json → Bool
  is_valid (str s) = is_utf8 s
  is_valid (num []) = false
  is_valid (num (c ∷ t)) = all is_number_byte (c ∷ t)
  is_valid (bool b) = true
  is_valid null = true
  is_valid (array xs) = is_valid_items xs
  is_valid (object ms) = is_valid_members ms

  pub is_valid_items : Items → Bool
  is_valid_items no_items = true
  is_valid_items (item v xs) = is_valid v && is_valid_items xs

  pub is_valid_members : Members → Bool
  is_valid_members no_members = true
  is_valid_members (member k v ms) = is_utf8 k && (is_valid v && is_valid_members ms)

-- What follows a number must not continue it.
abbrev pub stops : Text → Bool
stops [] = true
stops (c ∷ b) = if is_number_byte c then false else true
