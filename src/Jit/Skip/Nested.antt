-- ===== src/Jit/Skip/Nested.antt =====
-- jit.rs: the bracket branch of `rt_skip` over what a value prints.
use bilbo.Base.{
  ℕ, zero, suc, ◌+◌, ◌-◌, ◌%◌, ◌^◌, ◌<◌, ◌≡◌, larger_left, larger_right, refl, Bool, true, false,
  not, ◌&&◌, ◌||◌, [], ◌∷◌, ◌++◌, append_assoc, inl, inr, Bool-cases, arith, ◌==◌, all, bytes, ◌∙◌,
  ap,
}
use bilbo.Json.Value.{
  Text, Json, Items, Members, str, num, bool, null, array, object, no_items, item, no_members,
  member,
}
use bilbo.Json.Parser.{is_number_byte}
use bilbo.Json.Print.{
  Layout, comma, is_last_item, is_last_member, escape, quote, print, print_items, print_members,
  is_valid, is_valid_items, is_valid_members,
}
use bilbo.Json.Print.Shape.{print_items-item, print_members-member, is_valid-item, is_valid-member}
use bilbo.Interp.Ends.{depth, depth_items, depth_members}
use bilbo.Jit.Shims.{isws, outside, inside, skip_nested}

-- The padding is white space in the sense of `isws`, which leaves the form feed out.
abbrev pub IsPadded : Layout → Type 0
IsPadded l = all isws l.pad ≡ true

-- No quote and no bracket.
abbrev is_neutral : ℕ → Bool
is_neutral c =
    not (c == b'"')
    && (not (c == b'{') && (not (c == b'[') && (not (c == b'}') && not (c == b']'))))

skip_nested-neutral :
    (d : ℕ) (t b : Text)
    → all is_neutral t ≡ true
    → skip_nested outside d (t ++ b) ≡ skip_nested outside d b
unfolding skip_nested
skip_nested-neutral d [] b h = refl
skip_nested-neutral d (c ∷ t) b h = ground (arith, skip_nested-neutral d t b)

isws-neutral : (t : Text) → all isws t ≡ true → all is_neutral t ≡ true
unfolding isws
isws-neutral [] h = refl
isws-neutral (c ∷ t) h = ground (arith, isws-neutral t)

number-neutral : (t : Text) → all is_number_byte t ≡ true → all is_neutral t ≡ true
unfolding is_number_byte
number-neutral [] h = refl
number-neutral (c ∷ t) h = ground (arith, number-neutral t)

comma-neutral : (l : Layout) (last : Bool) → all is_neutral (comma l last) ≡ true
comma-neutral l false = refl
comma-neutral l true = elim (Bool-cases l.trailing) [ inl e ↦ rw e | inr e ↦ rw e ]

skip_nested-escape :
    (d : ℕ) (s b : Text) → skip_nested inside d (escape s ++ b'"' ∷ b) ≡ skip_nested outside d b
unfolding skip_nested escape
skip_nested-escape d [] b = refl
skip_nested-escape d (c ∷ s) b = ground (arith, skip_nested-escape d s b)

skip_nested-quote :
    (d : ℕ) (s b : Text) → skip_nested outside d (quote s ++ b) ≡ skip_nested outside d b
unfolding skip_nested quote
skip_nested-quote d s b = rw append_assoc (skip_nested-escape d s b)

-- Behind a closing bracket at depth d + 1.
abbrev closed : ℕ → Text → Text
closed zero b = b
closed (suc d) b = skip_nested outside (suc d) b

skip_nested-open :
    (d c : ℕ) (b : Text)
    → (c == b'{' || c == b'[') ≡ true
    → suc d < 2 ^ 32
    → skip_nested outside d (c ∷ b) ≡ skip_nested outside (suc d) b
unfolding skip_nested
skip_nested-open d c b h k =
    let e : (d + 1) % 2 ^ 32 ≡ suc d = omega arith in rw (← e) (ground arith)

skip_nested-close :
    (d c : ℕ) (b : Text)
    → (c == b'}' || c == b']') ≡ true
    → suc d < 2 ^ 32
    → skip_nested outside (suc d) (c ∷ b) ≡ closed d b
unfolding skip_nested
skip_nested-close zero c b h k = ground arith
skip_nested-close (suc d) c b h k =
    let e : (suc (suc d) + 2 ^ 32 - 1) % 2 ^ 32 ≡ suc d = omega arith in
    let one_less : skip_nested outside (suc (suc d)) (c ∷ b)
        ≡ skip_nested outside ((suc (suc d) + 2 ^ 32 - 1) % 2 ^ 32) b =
      ground arith in
    one_less ∙ ap (λ k. skip_nested outside k b) e

module _ (l : Layout) (padded : IsPadded l) where
  pad_neutral : (d : ℕ) (b : Text) → skip_nested outside d (l.pad ++ b) ≡ skip_nested outside d b
  pad_neutral d b = skip_nested-neutral d l.pad b (isws-neutral l.pad padded)

  after_element :
      (last : Bool) (d : ℕ) (b : Text)
      → skip_nested outside d (l.pad ++ (comma l last ++ b)) ≡ skip_nested outside d b
  after_element last d b =
      pad_neutral d _ ∙ skip_nested-neutral d (comma l last) b (comma-neutral l last)

  mutual
    unfolding print is_valid depth depth_items depth_members

    pub nested_value :
        (v : Json) (d : ℕ) (b : Text)
        → is_valid v ≡ true
        → suc d + depth v < 2 ^ 32
        → skip_nested outside (suc d) (print l v ++ b) ≡ skip_nested outside (suc d) b
    nested_value (str s) d b h k = skip_nested-quote (suc d) s b
    nested_value (num []) d b h k = cc
    nested_value (num (c ∷ t)) d b h k =
        skip_nested-neutral (suc d) (c ∷ t) b (number-neutral (c ∷ t) h)
    nested_value (bool true) d b h k = skip_nested-neutral (suc d) (bytes "true") b refl
    nested_value (bool false) d b h k = skip_nested-neutral (suc d) (bytes "false") b refl
    nested_value null d b h k = skip_nested-neutral (suc d) (bytes "null") b refl
    nested_value (array xs) d b h k =
        skip_nested-open (suc d) b'[' (print_items l xs ++ b) refl (omega arith)
        ∙ nested_items xs (suc d) b h (omega arith)
    nested_value (object ms) d b h k =
        skip_nested-open (suc d) b'{' (print_members l ms ++ b) refl (omega arith)
        ∙ nested_members ms (suc d) b h (omega arith)

    pub nested_items :
        (xs : Items) (d : ℕ) (b : Text)
        → is_valid_items xs ≡ true
        → suc d + depth_items xs < 2 ^ 32
        → skip_nested outside (suc d) (print_items l xs ++ b) ≡ closed d b
    nested_items no_items d b h k =
        rw (append_assoc, pad_neutral (suc d) (b']' ∷ b))
          (skip_nested-close d b']' b refl (omega arith))
    nested_items (item v xs) d b h k =
        let (hv, hxs) = is_valid-item v xs h in
        let left = larger_left (depth v) (depth_items xs) in
        let right = larger_right (depth v) (depth_items xs) in
        rw (print_items-item l b v xs) (
          pad_neutral (suc d) _
          ∙ (nested_value v d _ hv (omega arith)
              ∙ (after_element (is_last_item xs) (suc d) _
                  ∙ nested_items xs d b hxs (omega arith))))

    pub nested_members :
        (ms : Members) (d : ℕ) (b : Text)
        → is_valid_members ms ≡ true
        → suc d + depth_members ms < 2 ^ 32
        → skip_nested outside (suc d) (print_members l ms ++ b) ≡ closed d b
    nested_members no_members d b h k =
        rw (append_assoc, pad_neutral (suc d) (b'}' ∷ b))
          (skip_nested-close d b'}' b refl (omega arith))
    nested_members (member k v ms) d b h deep =
        let (hk, hv, hms) = is_valid-member k v ms h in
        let left = larger_left (depth v) (depth_members ms) in
        let right = larger_right (depth v) (depth_members ms) in
        let after = l.pad ++ (comma l (is_last_member ms) ++ (print_members l ms ++ b)) in
        rw (print_members-member l b k v ms) (
          pad_neutral (suc d) _
          ∙ (skip_nested-quote (suc d) k _
              ∙ (pad_neutral (suc d) _
                  ∙ (skip_nested-neutral (suc d) (b':' ∷ []) _ refl
                      ∙ (pad_neutral (suc d) _
                          ∙ (nested_value v d after hv (omega arith)
                              ∙ (after_element (is_last_member ms) (suc d) _
                                  ∙ nested_members ms d b hms (omega arith))))))))
