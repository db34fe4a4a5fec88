-- ===== src/Examples/Leaves.antt =====
-- jit.rs and interp.rs: both backends on a `Box<u32>`, and a string with an escape.
use bilbo.Base.{ℕ, ◌≡◌, refl, true, [], ◌∷◌, ◌++◌, length, bytes, Outcome, ok}
use bilbo.Json.Value.{Text, Json, num, as_u128}
use bilbo.Json.Print.{print, is_valid}
use bilbo.Json.Parser.{is_number_byte}
use bilbo.Plan.{Ty}
use bilbo.Machine.{Machine, release, layout, is_doubling, alloc, realloc}
use bilbo.Machine.Bump.{behind}
use bilbo.Interp.{run, write_le, box_alloc}
use bilbo.Jit.Shims.{Span}
use bilbo.Jit.Unescape.{escape_sequence, round, unescape_loop, rt_unescape}
use bilbo.Jit.Scan.{build_str}
use bilbo.Jit.Emit.{parse}
use bilbo.Jit.Emit.Alloc.{rt_alloc, into_boxed_slice, owned}
use bilbo.Jit.Emit.Owned.Exact.{with_block, Holds, owned-Exact}
use bilbo.Jit.Emit.Leaves.{env_of}
use bilbo.Jit.Emit.Leaves.Same.{is_leaf, parse-run}
use bilbo.Examples.Json.{airy}
use bilbo.Examples.Memory.{jit_env, start}

abbrev box : Ty
box = Ty.boxed (Ty.u 4) 4 4

abbrev number : Json
number = num (bytes "70000")

abbrev machine_of : Outcome Machine → Machine
machine_of (ok m) = m
machine_of _ = start

parse-run_example :
    parse jit_env 2 box 0 (bytes " " ++ (print airy number ++ bytes ",")) start
    ≡ ok (bytes ",", machine_of (run (env_of jit_env) 2 0 box number start))
unfolding is_leaf is_valid is_number_byte run as_u128 write_le box_alloc alloc behind
parse-run_example =
    parse-run jit_env airy (bytes " ") (bytes ",") refl refl 2 0 box number start
      (machine_of (run (env_of jit_env) 2 0 box number start)) refl refl

-- A string of two bytes that is written with an escape.
abbrev line : Span
line = record { body = b'a' ∷ 0x5c ∷ b'n' ∷ []; had_escape = true; after = bytes "}" }

abbrev two_bytes : Text
two_bytes = b'a' ∷ 0x0a ∷ []

abbrev made_of : Outcome (ℕ × Machine) → ℕ × Machine
made_of (ok r) = r
made_of _ = (0, start)

abbrev made : ℕ × Machine
made = made_of (owned jit_env line two_bytes start)

owned-Exact_example :
    (made.1.live ≡ with_block (made.0, length two_bytes) start.live)
    × Holds made.1.mem made.0 two_bytes
unfolding build_str rt_unescape unescape_loop round escape_sequence owned rt_alloc into_boxed_slice
    alloc realloc layout is_doubling behind release
owned-Exact_example = owned-Exact jit_env line two_bytes made.0 start made.1 refl refl
