-- ===== src/Machine/Bump.antt =====
-- An allocator that never reuses an address: it places a block behind all others.
use bilbo.Base.{ℕ, zero, suc, ◌+◌, ◌*◌, ◌≤◌, ◌≢◌, inr, List, [], ◌∷◌, arith, leb, if◌then◌else◌}
use bilbo.Machine.{Block, Fresh, release, Allocator}

-- The end of the last block.
unfoldable pub top : List Block → ℕ
top [] = 0
top (b ∷ live) = let rest = top live in if leb rest (b.0 + b.1) then b.0 + b.1 else rest

-- A multiple of the alignment.
unfoldable pub behind : List Block → (align : ℕ) → ℕ
unfolding top
behind live zero = 0
behind live (suc a) = (top live + 1) * suc a

above-Fresh : (live : List Block) (p size : ℕ) → top live ≤ p → Fresh (p, size) live
unfolding top
above-Fresh [] p size h = tt
above-Fresh (b ∷ live) p size h = (inr (ground arith), above-Fresh live p size (ground arith))

next_multiple : (t a : ℕ) → t ≤ (t + 1) * suc a
next_multiple t a = omega arith

pub behind-Fresh :
    (live : List Block) (size align : ℕ)
    → behind live align ≢ 0
    → Fresh (behind live align, size) live
unfolding behind
behind-Fresh live size zero h = absurd (h (omega arith))
behind-Fresh live size (suc a) h = above-Fresh live _ size (next_multiple (top live) a)

abbrev pub bump : Allocator
bump = record {
  place = λ live size align. behind live align;
  replace = λ live old size align. behind (release old live) align;
  place_fresh = λ live size align h. behind-Fresh live size align h;
  replace_fresh = λ live old size align h. behind-Fresh (release old live) size align h;
}
