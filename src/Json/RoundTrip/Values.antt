-- ===== src/Json/RoundTrip/Values.antt =====
-- Values read back: one induction over the printed value.
use bilbo.Base.{
  ℕ, zero, suc, ◌+◌, ◌*◌, ◌<◌, ◌≡◌, refl, inl, inr, Bool-cases, Bool, true, false, [], ◌∷◌, ◌++◌,
  append_assoc, arith, ◌==◌, length, all, ok, ◌>>=◌, ◌∙◌,
}
use bilbo.Json.Value.{
  Text, Json, Items, Members, str, num, bool, null, array, object, no_items, item, no_members,
  member,
}
use bilbo.Json.Utf8.{is_utf8}
use bilbo.Json.Parser.{
  is_ascii_whitespace, skip_ws, is_number_byte, skip_comma, parse_value, object_loop, array_loop,
}
use bilbo.Json.Print.{
  Layout, IsBlank, comma, is_last_item, is_last_member, quote, print, print_items, print_members,
  is_valid, is_valid_items, is_valid_members, stops,
}
use bilbo.Json.Print.Shape.{
  print_items-item, print_members-member, length-print_items, length-print_members, is_valid-item,
  is_valid-member, length-print_pos, length-print_items_pos, length-print_members_pos,
}
use bilbo.Json.RoundTrip.Tokens.{
  skip_ws-append, skip_ws-cons, parse_string-quote, number_token-append, parse_number-ok,
}
use bilbo.Json.RoundTrip.Heads.{
  parse_value-skip_ws, array_loop-skip_ws, object_loop-skip_ws, print-Head, skip_ws-quote,
  peek-quote, parse_value-number,
}

-- The head of an array's loop in front of an element, and of an object's in front of a key.
array_loop-item :
    (l : Layout) (f : ℕ) (v : Json) (b : Text)
    → IsBlank l
    → is_valid v ≡ true
    → array_loop (suc f) (l.pad ++ (print l v ++ b)) ≡ (
        parse_value f (print l v ++ b) >>= λ (w, b).
        skip_comma (skip_ws b) >>= λ b. array_loop f b >>= λ (more, b). ok (item w more, b))
unfolding parse_value
array_loop-item l f v b blank h =
    let start = print-Head l v h in
    rw (skip_ws-append l.pad (print l v ++ b) blank)
      (rw (start.splits, skip_ws-cons start.first (start.others ++ b) start.visible, start.opens))

object_loop-member :
    (l : Layout) (f : ℕ) (k b : Text)
    → IsBlank l
    → is_utf8 k ≡ true
    → object_loop (suc f) (l.pad ++ (quote k ++ (l.pad ++ b':' ∷ b))) ≡ (
        parse_value f b >>= λ (w, b).
        skip_comma (skip_ws b) >>= λ b. object_loop f b >>= λ (more, b). ok (member k w more, b))
unfolding parse_value
object_loop-member l f k b blank h =
    let after = l.pad ++ b':' ∷ b in
    rw (skip_ws-append l.pad (quote k ++ after) blank, skip_ws-quote k after, peek-quote k after)
      (rw (parse_string-quote k after h, skip_ws-append l.pad (b':' ∷ b) blank)
        (rw (skip_ws-cons b':' b (unfold is_ascii_whitespace in refl))))

module _ (l : Layout) (blank : IsBlank l) where
  stops-pad :
      (pad b : Text) → all is_ascii_whitespace pad ≡ true → stops b ≡ true → stops (pad ++ b) ≡ true
  unfolding is_ascii_whitespace is_number_byte
  stops-pad [] b h k = k
  stops-pad (c ∷ pad) b h k = ground arith

  -- The text `rest` behind an element, which is the closing bracket if the element is the last.
  module _ (close : ℕ) (rest b : Text) (visible : is_ascii_whitespace close ≡ false)
      (ends : is_number_byte close ≡ false) (no_comma : (close == b',') ≡ false) where
    stops-comma :
        (last : Bool)
        → (last ≡ true → rest ≡ l.pad ++ close ∷ b)
        → stops (l.pad ++ (comma l last ++ rest)) ≡ true
    unfolding is_number_byte
    stops-comma false closes = stops-pad l.pad _ blank refl
    stops-comma true closes = stops-pad l.pad _ blank (elim (Bool-cases l.trailing) [
      | inl yes_comma ↦ rw yes_comma
      | inr none_there ↦ rw (none_there, closes refl) (stops-pad l.pad (close ∷ b) blank (rw ends))
    ])

    -- The separator is stepped over, and at most white space with it.
    skip_comma-comma :
        (last : Bool)
        → (last ≡ true → rest ≡ l.pad ++ close ∷ b)
        → (r : Text) × (skip_comma (skip_ws (l.pad ++ (comma l last ++ rest))) ≡ ok r)
          × (skip_ws r ≡ skip_ws rest)
    unfolding skip_comma skip_ws is_ascii_whitespace
    skip_comma-comma false closes = (rest, rw (skip_ws-append l.pad (b',' ∷ rest) blank), refl)
    skip_comma-comma true closes = elim (Bool-cases l.trailing) [
      | inl yes_comma ↦ (rest, rw (yes_comma, skip_ws-append l.pad (b',' ∷ rest) blank), refl)
      | inr none_there ↦ (
        close ∷ b,
        rw (none_there, closes refl, skip_ws-append l.pad (l.pad ++ close ∷ b) blank)
            (rw (skip_ws-append l.pad (close ∷ b) blank)
              (rw (skip_ws-cons close b visible) (rw no_comma))),
        rw (closes refl, skip_ws-append l.pad (close ∷ b) blank),
      )
    ]

  items-close :
      (xs : Items) (b : Text) → is_last_item xs ≡ true → print_items l xs ++ b ≡ l.pad ++ b']' ∷ b
  unfolding print
  items-close no_items b h = append_assoc l.pad _ b
  items-close (item v xs) b h = cc

  members-close :
      (ms : Members) (b : Text)
      → is_last_member ms ≡ true
      → print_members l ms ++ b ≡ l.pad ++ b'}' ∷ b
  unfolding print
  members-close no_members b h = append_assoc l.pad _ b
  members-close (member k v ms) b h = cc

  stops-items :
      (xs : Items) (b : Text)
      → stops (l.pad ++ (comma l (is_last_item xs) ++ (print_items l xs ++ b))) ≡ true
  unfolding is_number_byte is_ascii_whitespace
  stops-items xs b =
      stops-comma b']' (print_items l xs ++ b) b refl refl refl (is_last_item xs) (items-close xs b)

  skip_comma-items :
      (xs : Items) (b : Text)
      → (r : Text) × (skip_comma
            (skip_ws (l.pad ++ (comma l (is_last_item xs) ++ (print_items l xs ++ b))))
          ≡ ok r)
        × (skip_ws r ≡ skip_ws (print_items l xs ++ b))
  unfolding is_number_byte is_ascii_whitespace
  skip_comma-items xs b =
      skip_comma-comma b']' (print_items l xs ++ b) b refl refl refl (is_last_item xs)
        (items-close xs b)

  stops-members :
      (ms : Members) (b : Text)
      → stops (l.pad ++ (comma l (is_last_member ms) ++ (print_members l ms ++ b))) ≡ true
  unfolding is_number_byte is_ascii_whitespace
  stops-members ms b =
      stops-comma b'}' (print_members l ms ++ b) b refl refl refl (is_last_member ms)
        (members-close ms b)

  skip_comma-members :
      (ms : Members) (b : Text)
      → (r : Text) × (skip_comma
            (skip_ws (l.pad ++ (comma l (is_last_member ms) ++ (print_members l ms ++ b))))
          ≡ ok r)
        × (skip_ws r ≡ skip_ws (print_members l ms ++ b))
  unfolding is_number_byte is_ascii_whitespace
  skip_comma-members ms b =
      skip_comma-comma b'}' (print_members l ms ++ b) b refl refl refl (is_last_member ms)
        (members-close ms b)

  mutual
    unfolding print is_valid parse_value skip_ws is_ascii_whitespace

    pub value_reads :
        (v : Json) (f : ℕ) (b : Text)
        → is_valid v ≡ true
        → stops b ≡ true
        → 3 * length (print l v) < f + 3
        → parse_value f (print l v ++ b) ≡ ok (v, b)
    value_reads v zero b h k fuel = absurd (omega (arith, length-print_pos l v h))
    value_reads (str s) (suc f) b h k fuel =
        rw (skip_ws-quote s b, peek-quote s b, parse_string-quote s b h)
    value_reads (num []) (suc f) b h k fuel = cc
    value_reads (num (c ∷ t)) (suc f) b h k fuel =
        parse_value-number f c (t ++ b) (ground arith)
        ∙ (parse_number-ok (c ∷ (t ++ b)) ∙ rw (number_token-append (c ∷ t) b h k))
    value_reads (bool true) (suc f) b h k fuel = refl
    value_reads (bool false) (suc f) b h k fuel = refl
    value_reads null (suc f) b h k fuel = refl
    value_reads (array xs) (suc zero) b h k fuel =
        absurd (omega (arith, length-print_items_pos l xs))
    value_reads (array xs) (suc (suc f)) b h k fuel = rw (items_read xs f b h (omega arith))
    value_reads (object ms) (suc zero) b h k fuel =
        absurd (omega (arith, length-print_members_pos l ms))
    value_reads (object ms) (suc (suc f)) b h k fuel = rw (members_read ms f b h (omega arith))

    pub items_read :
        (xs : Items) (f : ℕ) (b : Text)
        → is_valid_items xs ≡ true
        → 3 * length (print_items l xs) < f + 3
        → array_loop f (print_items l xs ++ b) ≡ ok (xs, b)
    items_read xs zero b h fuel = absurd (omega (arith, length-print_items_pos l xs))
    items_read no_items (suc f) b h fuel = rw (append_assoc, skip_ws-append l.pad (b']' ∷ b) blank)
    items_read (item v xs) (suc f) b h fuel =
        let rest = print_items l xs ++ b in
        let after = l.pad ++ (comma l (is_last_item xs) ++ rest) in
        let (r, stepped, close) = skip_comma-items xs b in
        let (hv, hxs) = is_valid-item v xs h in
        let shorter = length-print_items l v xs in
        rw (print_items-item l b v xs) (
          rw (array_loop-item l f v after blank hv) (
            rw
              (value_reads v f after hv (stops-items xs b)
                (omega (arith, length-print_items_pos l xs)))
              (rw stepped (
                rw (
                  array_loop-skip_ws f r rest close,
                  items_read xs f b hxs (omega (arith, length-print_pos l v hv)),
                )))))

    pub members_read :
        (ms : Members) (f : ℕ) (b : Text)
        → is_valid_members ms ≡ true
        → 3 * length (print_members l ms) < f + 3
        → object_loop f (print_members l ms ++ b) ≡ ok (ms, b)
    members_read ms zero b h fuel = absurd (omega (arith, length-print_members_pos l ms))
    members_read no_members (suc f) b h fuel =
        rw (append_assoc, skip_ws-append l.pad (b'}' ∷ b) blank)
    members_read (member k v ms) (suc f) b h fuel =
        let rest = print_members l ms ++ b in
        let after = l.pad ++ (comma l (is_last_member ms) ++ rest) in
        let (r, stepped, close) = skip_comma-members ms b in
        let (hk, hv, hms) = is_valid-member k v ms h in
        let shorter = length-print_members l k v ms in
        rw (print_members-member l b k v ms) (
          rw (object_loop-member l f k (l.pad ++ (print l v ++ after)) blank hk) (
            rw
              (parse_value-skip_ws f _ (print l v ++ after)
                (skip_ws-append l.pad (print l v ++ after) blank))
              (rw (value_reads v f after hv (stops-members ms b) (omega arith)) (
                rw stepped (
                  rw
                    (object_loop-skip_ws f r rest close, members_read ms f b hms (omega arith)))))))
