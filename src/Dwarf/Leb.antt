-- ===== src/Dwarf/Leb.antt =====
-- dwarf.rs: `sleb128`. An `i64` is its 64-bit pattern; a shift by 64 or more panics.
use Prim.Native.Nat.{bit_or}
use bilbo.Base.{
  ℕ, ◌+◌, ◌-◌, ◌*◌, ◌%◌, ◌^◌, ◌&&◌, [], ◌∷◌, leb, ltb, if◌then◌else◌, Outcome, ok, panic,
}
use bilbo.Json.Value.{Text}

abbrev pub i64_mod : ℕ
i64_mod = 2 ^ 64

-- The loop behind `i` bytes; `b[i]` past the end panics. In `-1i64 << shift` the low `shift` bits are
-- zero and the others one.
unfoldable pub sleb_loop : (result shift i : ℕ) → Text → Outcome (ℕ × ℕ)
sleb_loop result shift i [] = panic
sleb_loop result shift i (byte ∷ b) =
    let result' = bit_or result (byte % 128 * 2 ^ shift % i64_mod) in
    let shift' = shift + 7 in
    let rest = sleb_loop result' shift' (i + 1) b in
    let extended =
      if ltb shift' 64 && leb 64 (byte % 128)
      then bit_or result' (i64_mod - 2 ^ shift')
      else result' in
    if leb 64 shift then panic else if ltb byte 128 then ok (extended, i + 1) else rest

unfoldable pub sleb128 : Text → Outcome (ℕ × ℕ)
unfolding sleb_loop
sleb128 b = sleb_loop 0 0 0 b
