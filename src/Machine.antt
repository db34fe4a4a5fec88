-- ===== src/Machine.antt =====
-- The memory that the parsers of crates/bilbo-json write to, and the allocator behind it. The allocator
-- of the standard library is a parameter: where it puts a block is its own choice, but it never puts
-- one over a block that is in use.
pub mod Frame
pub mod Bump
use bilbo.Base.{
  ℕ, zero, suc, ◌+◌, ◌-◌, ◌*◌, ◌^◌, ◌≤◌, ◌<◌, ◌≡◌, ◌≢◌, ◌⊎◌, Bool, true, false, ◌&&◌, Option, none,
  some, List, [], ◌∷◌, leb, ltb, ◌==◌, if◌then◌else◌, get_elem?, length, Outcome, ok, panic, fault,
  ◌>>=◌,
}
use bilbo.Json.Value.{Text}
use bilbo.Jit.Memory.{Memory, within, store}

-- An address and a size.
abbrev pub Block : Type 0
Block = ℕ × ℕ

abbrev pub Disjoint : Block → Block → Type 0
Disjoint a b = (a.0 + a.1 ≤ b.0) ⊎ (b.0 + b.1 ≤ a.0)

-- The block overlaps none of these.
abbrev pub Fresh : Block → List Block → Type 0
Fresh b [] = Unit
Fresh b (c ∷ live) = Disjoint b c × Fresh b live

-- The block with that address and size, taken out.
unfoldable pub release : Block → List Block → List Block
release b [] = []
release b (c ∷ live) = if c.0 == b.0 && c.1 == b.1 then live else c ∷ release b live

-- `std::alloc::alloc` and `std::alloc::realloc`: the address of the new block, or 0 for a null pointer.
pub record Allocator : Type 0 where
  pub place : List Block → (size align : ℕ) → ℕ
  pub replace : List Block → (old : Block) → (size align : ℕ) → ℕ
  pub place_fresh :
      (live : List Block) (size align : ℕ)
      → place live size align ≢ 0
      → Fresh (place live size align, size) live
  pub replace_fresh :
      (live : List Block) (old : Block) (size align : ℕ)
      → replace live old size align ≢ 0
      → Fresh (replace live old size align, size) (release old live)

-- `live` are the blocks in use: those of the allocator, and those that the caller names.
pub record Machine : Type 0 where
  pub mem : Memory
  pub live : List Block

abbrev pub set_mem : Memory → Machine → Machine
set_mem mem m = record { mem = mem; live = m.live }

-- `ptr::write` of the `w` low bytes of a number.
abbrev pub write : (w dst v : ℕ) → Machine → Machine
write w dst v m = set_mem (store m.mem w v dst) m

abbrev pub byte_at : Text → ℕ → ℕ
byte_at s i = elim (get_elem? s i) [ none ↦ 0 | some b ↦ b ]

-- `ptr::copy_nonoverlapping` of the bytes of a text.
unfoldable pub put_text : Memory → ℕ → Text → Memory
put_text m dst s a = if within dst (length s) a then byte_at s (a - dst) else m a

-- `ptr::write_bytes` of zeros.
unfoldable pub zero_bytes : Memory → ℕ → ℕ → Memory
zero_bytes m dst n a = if within dst n a then 0 else m a

-- Whether doubling 1 at most `k` times gives `n`.
unfoldable pub is_doubling : (k p n : ℕ) → Bool
is_doubling zero p n = p == n
is_doubling (suc k) p n = let rest = is_doubling k (2 * p) n in if p == n then true else rest

-- `Layout::from_size_align(size, align).unwrap()`.
unfoldable pub layout : (size align : ℕ) → Outcome (ℕ × ℕ)
unfolding is_doubling
layout size align =
    if is_doubling 63 1 align && leb (size + align) (2 ^ 63) then ok (size, align) else panic

module _ (std : Allocator) where
  open std use {place, replace}

  -- `alloc(layout)` with the `assert!` on a null pointer. A layout of size 0 is undefined behaviour.
  unfoldable pub alloc : (size align : ℕ) → Machine → Outcome (ℕ × Machine)
  unfolding layout
  alloc size align m = do
    l ← layout size align
    if size == 0
        then fault
        else if place m.live size align == 0
        then panic
        else ok (
          place m.live size align,
          record { mem = m.mem; live = (place m.live size align, size) ∷ m.live },
        )

  -- `realloc(ptr, layout, new)` likewise: the bytes that both blocks have room for are moved. A new size
  -- of 0, or one that overflows `isize` when rounded up to the alignment, is undefined behaviour.
  unfoldable pub realloc : (ptr old new align : ℕ) → Machine → Outcome (ℕ × Machine)
  unfolding layout
  realloc ptr old new align m = do
    l ← layout old align
    if new == 0
        then fault
        else if ltb (2 ^ 63) (new + align)
        then fault
        else if replace m.live (ptr, old) new align == 0
        then panic
        else (let p = replace m.live (ptr, old) new align in
            ok (
              p,
              record {
                mem = λ a.
                    if within p new a && ltb (a - p) old then m.mem (ptr + (a - p)) else m.mem a;
                live = (p, new) ∷ release (ptr, old) m.live;
              },
            ))

-- Floating-point numbers, as their bits: `str::parse::<f64>`, `fast_float2::parse_partial`, which also
-- says how many bytes it read, and the conversion to 32 bits.
pub record Floats : Type 0 where
  pub parse_f64 : Text → Option ℕ
  pub parse_partial : Text → Option (ℕ × ℕ)
  pub to_f32 : ℕ → ℕ
