-- ===== src/Jit/Emit/Alloc.antt =====
-- jit.rs: the shims that allocate or read a number, `rt_alloc`, `rt_box_alloc`, `rt_realloc` and
-- `rt_f64v`, and what the emitted code is given.
use bilbo.Base.{ℕ, Option, none, some, ◌==◌, if◌then◌else◌, length, drop, Outcome, ok, ◌>>=◌}
use bilbo.Json.Value.{Text}
use bilbo.Plan.{Cells}
use bilbo.Machine.{Allocator, Machine, Floats, set_mem, put_text, release, alloc, realloc}
use bilbo.Jit.Shims.{rt_ws, Memchr, Span}

-- The allocator, the crates memchr and fast_float2, the bodies of the cells, the stack slots that
-- cranelift makes, and the functions behind the addresses of the trampolines of tramp.rs.
pub record JitEnv : Type 0 where
  pub std : Allocator
  pub crate : Memchr
  pub floats : Floats
  pub cells : Cells
  pub slot : (size : ℕ) → Machine → ℕ × Machine
  pub map_new : (new_at dst : ℕ) → Machine → Outcome Machine
  pub map_insert : (insert dst key val : ℕ) → Machine → Outcome Machine

abbrev pub max_one : ℕ → ℕ
max_one align = if align == 0 then 1 else align

module _ (env : JitEnv) where
  unfoldable pub rt_alloc : ℕ → Machine → Outcome (ℕ × Machine)
  rt_alloc n m = if n == 0 then ok (1, m) else alloc env.std n 1 m

  unfoldable pub rt_box_alloc : (size align : ℕ) → Machine → Outcome (ℕ × Machine)
  rt_box_alloc size align m =
      if size == 0 then ok (max_one align, m) else alloc env.std size (max_one align) m

  unfoldable pub rt_realloc : (ptr old new align : ℕ) → Machine → Outcome (ℕ × Machine)
  rt_realloc ptr old new align m =
      if old == 0
      then (if new == 0 then ok (max_one align, m) else alloc env.std new (max_one align) m)
      else realloc env.std ptr old new (max_one align) m

  -- `Vec::into_boxed_slice` of `rt_unescape`: a buffer of `cap` bytes with `len` bytes in it shrinks to fit.
  unfoldable pub into_boxed_slice : (ptr cap len : ℕ) → Machine → Outcome (ℕ × Machine)
  into_boxed_slice ptr cap len m =
      if len == cap
      then ok (ptr, m)
      else if len == 0
      then ok (1, record { mem = m.mem; live = release (ptr, cap) m.live })
      else realloc env.std ptr cap len 1 m

  -- The bytes of a string in a buffer of their own. Without escapes `build_str` allocates as many as there
  -- are; with escapes `rt_unescape` decodes them into a `Vec` with the body's length as its capacity, which no
  -- decoded text exceeds.
  unfoldable pub owned : Span → Text → Machine → Outcome (ℕ × Machine)
  unfolding rt_alloc into_boxed_slice
  owned s t m = do
    (p, m') ← rt_alloc (length s.body) m
    let filled = set_mem (put_text m'.mem p t) m'
    if s.had_escape then into_boxed_slice p (length s.body) (length t) filled else ok (p, filled)

  -- `parse_partial(bytes).unwrap_or((0.0, 0))`.
  abbrev pub or_zero : Option (ℕ × ℕ) → ℕ × ℕ
  or_zero none = (0, 0)
  or_zero (some r) = r

  unfoldable pub rt_f64v : Text → ℕ × Text
  unfolding rt_ws
  rt_f64v cur =
      let r = or_zero (env.floats.parse_partial (rt_ws cur)) in (r.0, drop r.1 (rt_ws cur))
