-- ===== src/Jit/Skip.antt =====
-- jit.rs: `rt_skip` steps over exactly one value.
pub mod Nested
use bilbo.Base.{
  ℕ, zero, suc, ◌+◌, ◌-◌, ◌^◌, ◌<◌, ◌≡◌, refl, Bool, true, false, not, ◌&&◌, ◌||◌, [], ◌∷◌, ◌++◌,
  append_assoc, inl, inr, Bool-cases, arith, ◌==◌, all, bytes, ◌∙◌, ap,
}
use bilbo.Json.Value.{
  Text, Json, Items, Members, str, num, bool, null, array, object, no_items, item, no_members,
  member,
}
use bilbo.Json.Parser.{is_number_byte}
use bilbo.Json.Print.{
  Layout, comma, is_last_item, is_last_member, escape, quote, print, print_items, print_members,
  is_valid, is_valid_items, is_valid_members,
}
use bilbo.Json.Print.Shape.{print_items-item, print_members-member, is_valid-item, is_valid-member}
use bilbo.Interp.Ends.{depth, depth_items, depth_members}
use bilbo.Jit.Shims.{
  isws, rt_ws, skip_string, outside, inside, skip_nested, ends_scalar, skip_scalar, rt_skip,
}
use Nested.{nested_items, nested_members}
pub use Nested.{IsPadded}

-- Nothing, or a byte at which `rt_skip` ends a number or a literal.
abbrev pub ends_value : Text → Bool
ends_value [] = true
ends_value (c ∷ b) = ends_scalar c

rt_ws-append : (pad b : Text) → all isws pad ≡ true → rt_ws (pad ++ b) ≡ rt_ws b
unfolding rt_ws
rt_ws-append [] b h = refl
rt_ws-append (c ∷ pad) b h = ground (arith, rt_ws-append pad b)

skip_string-escape : (s b : Text) → skip_string false (escape s ++ b'"' ∷ b) ≡ b
unfolding skip_string escape
skip_string-escape [] b = refl
skip_string-escape (c ∷ s) b = ground (arith, skip_string-escape s b)

skip_scalar-append :
    (t b : Text)
    → all (λ c. not (ends_scalar c)) t ≡ true
    → ends_value b ≡ true
    → skip_scalar (t ++ b) ≡ b
unfolding skip_scalar
skip_scalar-append [] [] h k = refl
skip_scalar-append [] (c ∷ b) h k = rw k
skip_scalar-append (c ∷ t) b h k = ground (arith, skip_scalar-append t b)

number-scalar : (t : Text) → all is_number_byte t ≡ true → all (λ c. not (ends_scalar c)) t ≡ true
unfolding is_number_byte ends_scalar
number-scalar [] h = refl
number-scalar (c ∷ t) h = ground (arith, number-scalar t)

rt_skip-number :
    (c : ℕ) (t b : Text)
    → all is_number_byte (c ∷ t) ≡ true
    → rt_skip (c ∷ (t ++ b)) ≡ skip_scalar ((c ∷ t) ++ b)
unfolding rt_skip is_number_byte
rt_skip-number c t b h = ground arith

module _ (l : Layout) (padded : IsPadded l) where
  rt_skip-value :
      (v : Json) (b : Text)
      → is_valid v ≡ true
      → depth v < 2 ^ 31
      → ends_value b ≡ true
      → rt_skip (print l v ++ b) ≡ b
  unfolding rt_skip print is_valid quote depth depth_items depth_members
  rt_skip-value (str s) b h deep k = rw append_assoc (skip_string-escape s b)
  rt_skip-value (num []) b h deep k = cc
  rt_skip-value (num (c ∷ t)) b h deep k =
      rt_skip-number c t b h ∙ skip_scalar-append (c ∷ t) b (number-scalar (c ∷ t) h) k
  rt_skip-value (bool true) b h deep k = skip_scalar-append (bytes "true") b refl k
  rt_skip-value (bool false) b h deep k = skip_scalar-append (bytes "false") b refl k
  rt_skip-value null b h deep k = skip_scalar-append (bytes "null") b refl k
  rt_skip-value (array xs) b h deep k = nested_items l padded xs 0 b h (omega arith)
  rt_skip-value (object ms) b h deep k = nested_members l padded ms 0 b h (omega arith)

rt_skip-append : (pad b : Text) → all isws pad ≡ true → rt_skip (pad ++ b) ≡ rt_skip b
unfolding rt_skip
rt_skip-append pad b h = rw (rt_ws-append pad b h)

-- A valid value in any layout, nested less than 2^31 levels deep, with white space in front, is stepped
-- over whole, and nothing behind it is: the text `rest` is empty or begins with a comma, a closing bracket or white space.
pub rt_skip-print :
    (l : Layout) (v : Json) (rest : Text)
    → IsPadded l
    → is_valid v ≡ true
    → depth v < 2 ^ 31
    → ends_value rest ≡ true
    → rt_skip (l.pad ++ (print l v ++ rest)) ≡ rest
rt_skip-print l v rest padded h deep k =
    rt_skip-append l.pad (print l v ++ rest) padded ∙ rt_skip-value l padded v rest h deep k
