-- ===== src/Json/Value.antt =====
-- json.rs: `enum Json` and its accessors. `Items` and `Members` are the two vectors inside.
use bilbo.Base.{
  ℕ, ◌+◌, ◌-◌, ◌*◌, ◌^◌, Bool, true, false, ◌&&◌, List, [], ◌∷◌, Option, none, some, ltb, leb, ◌==◌,
  if◌then◌else◌, same, Outcome, ok, panic, expect,
}

abbrev pub Text : Type 0
Text = List ℕ

mutual
  pub data Json : Type 0 where
    str : Text → Json
    num : Text → Json
    bool : Bool → Json
    null : Json
    array : Items → Json
    object : Members → Json

  pub data Items : Type 0 where
    no_items : Items
    item : Json → Items → Items

  pub data Members : Type 0 where
    no_members : Members
    member : Text → Json → Members → Members

-- `u8::is_ascii_digit`.
abbrev pub is_digit : ℕ → Bool
is_digit c = leb b'0' c && leb c b'9'

-- The decimal value of a run of digits below `limit`; `none` is a `ParseIntError`.
unfoldable pub digits_below : ℕ → ℕ → Text → Option ℕ
digits_below limit acc [] = some acc
digits_below limit acc (c ∷ s) =
    let next : ℕ = acc * 10 + (c - b'0') in
    let rest : Option ℕ = digits_below limit next s in
    if is_digit c then (if ltb next limit then rest else none) else none

-- At least one digit is wanted.
unfoldable pub number_below : ℕ → Text → Option ℕ
unfolding digits_below
number_below limit [] = none
number_below limit (c ∷ s) = digits_below limit 0 (c ∷ s)

-- `str::parse::<u128>`: an optional plus sign, then digits.
unfoldable pub parse_u128 : Text → Option ℕ
unfolding number_below
parse_u128 [] = none
parse_u128 (c ∷ s) = if c == b'+' then number_below (2 ^ 128) s else number_below (2 ^ 128) (c ∷ s)

-- A sign and a magnitude.
pub record Signed : Type 0 where
  pub negative : Bool
  pub magnitude : ℕ

abbrev pub with_sign : Bool → Option ℕ → Option Signed
with_sign b none = none
with_sign b (some n) = some (record { negative = b; magnitude = n })

-- `str::parse::<i128>`: the magnitude is below 2^127, or 2^127 itself behind a minus sign.
unfoldable pub parse_i128 : Text → Option Signed
unfolding number_below
parse_i128 [] = none
parse_i128 (c ∷ s) =
    if c == b'-'
    then with_sign true (number_below (2 ^ 127 + 1) s)
    else if c == b'+'
    then with_sign false (number_below (2 ^ 127) s)
    else with_sign false (number_below (2 ^ 127) (c ∷ s))

unfoldable pub as_u128 : Json → Outcome ℕ
unfolding parse_u128
as_u128 (num s) = expect (parse_u128 s)
as_u128 (str s) = expect (parse_u128 s)
as_u128 (bool b) = ok (if b then 1 else 0)
as_u128 _ = panic

unfoldable pub as_i128 : Json → Outcome Signed
unfolding parse_i128
as_i128 (num s) = expect (parse_i128 s)
as_i128 (str s) = expect (parse_i128 s)
as_i128 _ = panic

unfoldable pub as_str : Json → Outcome Text
as_str (str s) = ok s
as_str _ = panic

-- `kvs.iter().find(|(k, _)| k == key)`: the first member of that name.
unfoldable pub find : Text → Members → Option Json
find key no_members = none
find key (member k v ms) = if same k key then some v else find key ms

unfoldable pub get : Json → Text → Option Json
unfolding find
get (object kvs) key = find key kvs
get _ key = none
