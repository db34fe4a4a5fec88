-- ===== src/Json/RoundTrip/Heads.antt =====
-- The first byte of a printed value, and what the parser makes of it.
use bilbo.Base.{ℕ, zero, suc, ◌≡◌, refl, true, false, [], ◌∷◌, ◌++◌, arith, ◌==◌, ok}
use bilbo.Json.Value.{Text, Json, str, num, bool, null, array, object}
use bilbo.Json.Parser.{
  is_ascii_whitespace, skip_ws, is_number_byte, parse_number, peek, parse_value, object_loop,
  array_loop,
}
use bilbo.Json.Print.{Layout, quote, print, is_valid}

-- Calls whose texts agree up to leading white space agree.
pub parse_value-skip_ws :
    (f : ℕ) (b b' : Text) → skip_ws b ≡ skip_ws b' → parse_value f b ≡ parse_value f b'
unfolding parse_value
parse_value-skip_ws zero b b' e = refl
parse_value-skip_ws (suc f) b b' e = rw e

pub array_loop-skip_ws :
    (f : ℕ) (b b' : Text) → skip_ws b ≡ skip_ws b' → array_loop f b ≡ array_loop f b'
unfolding parse_value
array_loop-skip_ws zero b b' e = refl
array_loop-skip_ws (suc f) b b' e = rw e

pub object_loop-skip_ws :
    (f : ℕ) (b b' : Text) → skip_ws b ≡ skip_ws b' → object_loop f b ≡ object_loop f b'
unfolding parse_value
object_loop-skip_ws zero b b' e = refl
object_loop-skip_ws (suc f) b b' e = rw e

-- A printed value begins with a byte that is neither white space nor a closing bracket.
pub record Head (s : Text) : Type 0 where
  pub first : ℕ
  pub others : Text
  pub splits : s ≡ first ∷ others
  pub visible : is_ascii_whitespace first ≡ false
  pub opens : (first == b']') ≡ false

pub print-Head : (l : Layout) (v : Json) → is_valid v ≡ true → Head (print l v)
unfolding print is_valid is_ascii_whitespace is_number_byte quote
print-Head l (str s) h = record {
  first = b'"';
  others = _;
  splits = refl;
  visible = refl;
  opens = refl;
}
print-Head l (num []) h = cc
print-Head l (num (c ∷ t)) h = record {
  first = c;
  others = t;
  splits = refl;
  visible = ground arith;
  opens = ground arith;
}
print-Head l (bool true) h = record {
  first = b't';
  others = _;
  splits = refl;
  visible = refl;
  opens = refl;
}
print-Head l (bool false) h = record {
  first = b'f';
  others = _;
  splits = refl;
  visible = refl;
  opens = refl;
}
print-Head l null h = record {
  first = b'n';
  others = _;
  splits = refl;
  visible = refl;
  opens = refl;
}
print-Head l (array xs) h = record {
  first = b'[';
  others = _;
  splits = refl;
  visible = refl;
  opens = refl;
}
print-Head l (object ms) h = record {
  first = b'{';
  others = _;
  splits = refl;
  visible = refl;
  opens = refl;
}

pub skip_ws-quote : (s b : Text) → skip_ws (quote s ++ b) ≡ quote s ++ b
unfolding skip_ws quote
skip_ws-quote s b = refl

pub peek-quote : (s b : Text) → peek (quote s ++ b) ≡ ok b'"'
unfolding quote
peek-quote s b = refl

pub parse_value-number :
    (f c : ℕ) (b : Text)
    → is_number_byte c ≡ true
    → parse_value (suc f) (c ∷ b) ≡ parse_number (c ∷ b)
unfolding parse_value is_number_byte is_ascii_whitespace skip_ws
parse_value-number f c b h = ground arith
