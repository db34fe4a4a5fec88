-- ===== src/Platform/Slide.antt =====
-- crates/bilbo/src/platform: a range of the file, moved by the slide and back.
use bilbo.Base.{ℕ, ◌+◌, ◌-◌, ◌^◌, ◌≤◌, ◌<◌, ◌≡◌, refl, Bool, true, false, leb, arith, Outcome, ok}
use bilbo.Platform.{Range, add_u64, sub_u64, slid}

pub add_u64-ok : (checked : Bool) (a b : ℕ) → a + b < 2 ^ 64 → add_u64 checked a b ≡ ok (a + b)
unfolding add_u64
add_u64-ok checked a b h = let low : leb (2 ^ 64) (a + b) ≡ false = ground arith in rw low refl

pub sub_u64-ok : (checked : Bool) (a b : ℕ) → b ≤ a → sub_u64 checked a b ≡ ok (a - b)
unfolding sub_u64
sub_u64-ok checked a b h = let low : leb b a ≡ true = ground arith in rw low refl

pub slid-ok :
    (checked : Bool) (r : Range) (slide : ℕ)
    → r.0 ≤ r.1
    → r.1 + slide < 2 ^ 64
    → slid checked r slide ≡ ok (r.0 + slide, r.1 + slide)
unfolding slid
slid-ok checked r slide h room =
    rw (add_u64-ok checked r.0 slide (omega arith)) (rw (add_u64-ok checked r.1 slide room) refl)

-- Whether the address `pc` lies in the range.
abbrev pub Within : Range → ℕ → Type 0
Within r pc = (r.0 ≤ pc) × (pc < r.1)

-- An address in the moved range leads back into the range, without an overflow.
pub sub_u64-Within :
    (checked : Bool) (r moved : Range) (slide ret : ℕ)
    → r.0 ≤ r.1
    → r.1 + slide < 2 ^ 64
    → slid checked r slide ≡ ok moved
    → Within moved ret
    → (sub_u64 checked ret slide ≡ ok (ret - slide)) × Within r (ret - slide)
sub_u64-Within checked r moved slide ret h room e inside =
    let pair : Outcome Range = ok (r.0 + slide, r.1 + slide) in
    let same_range : ok moved ≡ pair = cc (e, slid-ok checked r slide h room) in
    let lo : moved.0 ≡ r.0 + slide = cc in
    let hi : moved.1 ≡ r.1 + slide = cc in
    (sub_u64-ok checked ret slide (omega arith), (omega arith, omega arith))
