-- ===== src/Json/Print/Shape.antt =====
-- The shape of what Json.Print writes: lengths, validity of the parts, and the elements in order.
use bilbo.Base.{
  ◌+◌, ◌≤◌, ◌<◌, ◌≡◌, true, false, [], ◌∷◌, ◌++◌, append_assoc, arith, length, lengths,
}
use bilbo.Json.Value.{
  Text, Json, Items, Members, str, num, bool, null, array, object, no_items, item, no_members,
  member,
}
use bilbo.Json.Utf8.{is_utf8}
use bilbo.Json.Print.{
  Layout, comma, is_last_item, is_last_member, quote, print, print_items, print_members, is_valid,
  is_valid_items, is_valid_members,
}

pub length-print_pos : (l : Layout) (v : Json) → is_valid v ≡ true → 0 < length (print l v)
unfolding print is_valid quote
length-print_pos l (str s) h = omega arith
length-print_pos l (num []) h = cc
length-print_pos l (num (c ∷ t)) h = omega arith
length-print_pos l (bool true) h = omega arith
length-print_pos l (bool false) h = omega arith
length-print_pos l null h = omega arith
length-print_pos l (array xs) h = omega arith
length-print_pos l (object ms) h = omega arith

pub length-print_items_pos : (l : Layout) (xs : Items) → 0 < length (print_items l xs)
unfolding print
length-print_items_pos l no_items = omega lengths
length-print_items_pos l (item v xs) = omega (lengths, length-print_items_pos l xs)

pub length-print_members_pos : (l : Layout) (ms : Members) → 0 < length (print_members l ms)
unfolding print
length-print_members_pos l no_members = omega lengths
length-print_members_pos l (member k v ms) = omega (lengths, length-print_members_pos l ms)

module _ (l : Layout) (b : Text) where
  pub print_items-item :
      (v : Json) (xs : Items)
      → print_items l (item v xs) ++ b
        ≡ l.pad ++ (print l v ++ (l.pad ++ (comma l (is_last_item xs) ++ (print_items l xs ++ b))))
  unfolding print
  print_items-item v xs = simp append_assoc

  pub print_members-member :
      (k : Text) (v : Json) (ms : Members)
      → print_members l (member k v ms) ++ b
        ≡ l.pad
          ++ (quote k
              ++ (l.pad
                  ++ b':'
                    ∷ (l.pad
                        ++ (print l v
                            ++ (l.pad
                                ++ (comma l (is_last_member ms) ++ (print_members l ms ++ b)))))))
  unfolding print
  print_members-member k v ms = simp append_assoc

module _ (l : Layout) where
  pub length-print_items :
      (v : Json) (xs : Items)
      → length (print l v) + length (print_items l xs) ≤ length (print_items l (item v xs))
  unfolding print
  length-print_items v xs = omega lengths

  pub length-print_members :
      (k : Text) (v : Json) (ms : Members)
      → length (print l v) + length (print_members l ms) < length (print_members l (member k v ms))
  unfolding print
  length-print_members k v ms = omega lengths

pub is_valid-item :
    (v : Json) (xs : Items)
    → is_valid_items (item v xs) ≡ true
    → (is_valid v ≡ true) × (is_valid_items xs ≡ true)
unfolding is_valid
is_valid-item v xs h = ground arith

pub is_valid-member :
    (k : Text) (v : Json) (ms : Members)
    → is_valid_members (member k v ms) ≡ true
    → (is_utf8 k ≡ true) × (is_valid v ≡ true) × (is_valid_members ms ≡ true)
unfolding is_valid
is_valid-member k v ms h = ground arith
