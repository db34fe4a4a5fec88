-- ===== src/Dwarf/Names.antt =====
-- dwarf.rs: the names of types and of trampolines, `norm_ty` and `resolve_tramp`.
use bilbo.Base.{
  ℕ, ◌+◌, ◌^◌, Bool, true, false, not, Option, none, some, List, [], ◌∷◌, ◌++◌, ltb, ◌==◌,
  if◌then◌else◌, drop, bytes, same, starts_with, Outcome, ok, panic, ◌>>=◌,
}
use bilbo.Json.Value.{Text}
use bilbo.Dwarf.Die.{Off, At, Value, DwarfUnit, attr, tag, die_name, name_or_default, is_subprogram}

-- The parts of a name before its first `<`, and from there on.
unfoldable pub head_of : Text → Text
head_of [] = []
head_of (c ∷ s) = if c == b'<' then [] else c ∷ head_of s

unfoldable pub args_of : Text → Text
args_of [] = []
args_of (c ∷ s) = if c == b'<' then c ∷ s else args_of s

-- What follows the last `::`, or `leaf`: `rsplit("::").next()`.
unfoldable pub leaf_of : (leaf : Text) → Text → Text
leaf_of leaf [] = leaf
leaf_of leaf (c ∷ s) = leaf_of (if starts_with (c ∷ s) (bytes "::") then drop 1 s else leaf) s

unfoldable pub norm_ty : Text → Text
unfolding head_of args_of leaf_of
norm_ty s = leaf_of (head_of s) (head_of s) ++ args_of s

-- All but the last byte, of a text with at least one. A slice that ends inside a character panics.
unfoldable pub without_last : Text → Outcome Text
without_last [] = panic
without_last (c ∷ []) = if ltb c 0x80 then ok [] else panic
without_last (c ∷ d ∷ s) = do rest ← without_last (d ∷ s); ok (c ∷ rest)

-- Whether the trampoline is the one for `want`.
unfoldable pub fits_value : (want name : Text) → Outcome Bool
unfolding args_of norm_ty
fits_value want name = elim (args_of name) [
  | [] ↦ ok false
  | c ∷ inner ↦ (without_last inner >>= λ v. ok (same (norm_ty v) want))
]

-- `image_slide()` is `slide`. One entry of the loop: the address, if the search ends here; a missing
-- address of a trampoline that fits leads on to the next entry.
unfoldable pub tramp_at :
    DwarfUnit
    → (f slide : ℕ) → (fn_prefix want : Text) → (match_v : Bool) → Off
    → Outcome (Option ℕ)
unfolding fits_value
tramp_at unit f slide fn_prefix want match_v off = do
  t ← tag unit off
  if not (is_subprogram t) then ok none else do
    n ← die_name unit f off
    let name = name_or_default n
    if not (starts_with name fn_prefix) then ok none else do
      fits ← if match_v then fits_value want name else ok true
      if not fits then ok none else elim (attr unit off At.low_pc) [
        | some (Value.addr lo) ↦ if ltb (lo + slide) (2 ^ 64) then ok (some (lo + slide)) else panic
        | _ ↦ ok none
      ]

unfoldable pub tramp_in :
    DwarfUnit
    → (f slide : ℕ) → (fn_prefix want : Text) → (match_v : Bool) → List (Off × ℕ)
    → Outcome (Option ℕ)
tramp_in unit f slide fn_prefix want match_v [] = ok none
tramp_in unit f slide fn_prefix want match_v ((off, depth) ∷ es) = do
  found ← tramp_at unit f slide fn_prefix want match_v off
  elim found [ some a ↦ ok (some a) | none ↦ tramp_in unit f slide fn_prefix want match_v es ]

unfoldable pub tramp_units :
    List DwarfUnit → (f slide : ℕ) → (fn_prefix want : Text) → (match_v : Bool) → Outcome (Option ℕ)
tramp_units [] f slide fn_prefix want match_v = ok none
tramp_units (unit ∷ units) f slide fn_prefix want match_v = do
  found ← tramp_in unit f slide fn_prefix want match_v unit.entries
  elim found [ some a ↦ ok (some a) | none ↦ tramp_units units f slide fn_prefix want match_v ]

unfoldable pub resolve_tramp :
    List DwarfUnit
    → (f slide : ℕ) → (fn_prefix v_name : Text) → (match_v : Bool) → Outcome (Option ℕ)
resolve_tramp units f slide fn_prefix v_name match_v =
    tramp_units units f slide fn_prefix (norm_ty v_name) match_v
