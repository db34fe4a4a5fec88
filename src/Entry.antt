-- ===== src/Entry.antt =====
-- crates/bilbo/src/lib.rs and crates/bilbo-json/src/lib.rs: the entry points, on Linux. `raw` is an argument.
pub mod Found
pub mod FromJson
pub mod JitParse
use bilbo.Base.{ℕ, Bool, Option, none, some, Outcome, ok, ◌>>=◌}
use bilbo.Json.Value.{Text}
use bilbo.Json.Parser.{parse}
use bilbo.Jit.Memory.{Memory, load}
use bilbo.Machine.{Allocator, Machine, Floats}
use bilbo.Plan.{Cells}
use bilbo.Platform.{Caller}
use bilbo.Platform.Linux.{Raw, Os, Memo, caller_pc, unwind}
use bilbo.Dwarf.Index.{Site}
use bilbo.Resolve.{Resolved, Caches, find_l1, Process, resolved}
use bilbo.Interp.{Env, run}

-- The surroundings, with the fuel of `json::parse` and of `interp::run`.
pub record Host : Type 0 where
  pub os : Os
  pub checked : Bool
  pub process : Process
  pub std : Allocator
  pub floats : Floats
  pub parse_fuel : ℕ
  pub run_fuel : ℕ

-- What outlives a call: what has been read of the platform, and the caches.
pub record Session {ℓ} (E : Type ℓ) : Type ℓ where
  pub memo : Memo
  pub caches : Caches E

abbrev pub load_word : Memory → ℕ → ℕ
load_word mem a = load mem 8 a

abbrev pub caller_of : Outcome (Caller × Memo) → Outcome Caller
caller_of unwound = unwound >>= λ u. ok u.0

-- The platform's state, where unwinding has been tried.
abbrev pub left_by : Outcome (Caller × Memo) → Memo → Memo
left_by (ok u) memo = u.1
left_by _ memo = memo

abbrev pub interp_env : Host → Cells → Env
interp_env host cells = record { std = host.std; floats = host.floats; cells = cells }

module _ {ℓ} {E : Type ℓ} (host : Host) where
  -- `resolve`, and `bilbo::resolved` with the registers of its caller: a known call site is not unwound. The
  -- key stands for the entry that is shared.
  unfoldable pub resolve :
      Raw → (ptr : ℕ) → Session E → Machine → Outcome (Site × Resolved E × Session E)
  unfolding load
  resolve raw ptr ses m = do
    (pc, memo) ← caller_pc host.os host.checked (load_word m.mem) raw ses.memo
    let unwound = unwind host.os host.checked (load_word m.mem) raw memo
    (tk, r, caches) ← resolved host.process pc (caller_of unwound) ptr ses.caches
    let memo' : Memo = elim (find_l1 pc ses.caches.l1) [
      | some tk ↦ memo
      | none ↦ left_by unwound memo
    ]
    ok (tk, r, record { memo = memo'; caches = caches })

  unfoldable pub from_json :
      Raw → Text → (ptr : ℕ) → Session E → Machine → Outcome (Session E × Machine)
  unfolding resolve parse run
  from_json raw s ptr ses m = do
    (tk, r, ses') ← resolve raw ptr ses m
    value ← parse host.parse_fuel s
    m' ← run (interp_env host r.cells) host.run_fuel ptr r.ty value m
    ok (ses', m')
