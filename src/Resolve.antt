-- ===== src/Resolve.antt =====
-- crates/bilbo/src/resolve.rs: the two caches in front of the DWARF walk. The maps are association
-- lists; the thread that resolves holds them alone. What `frame::unwind` gives
-- is looked at on a miss only.
pub mod Hits
pub mod Threads
use bilbo.Base.{
  ℕ, zero, suc, ◌+◌, Bool, true, false, ◌&&◌, Option, none, some, List, [], ◌∷◌, ◌==◌,
  if◌then◌else◌, Outcome, ok, panic, expect, ◌>>=◌,
}
use bilbo.Plan.{Ty, Cells}
use bilbo.Platform.{Caller}
use bilbo.Dwarf.Die.{Off, subprogram_at}
use bilbo.Dwarf.Index.{Site, Store, unit_at}
use bilbo.Dwarf.Locals.{DwarfRegs, local_at_address}
use bilbo.Dwarf.Classify.{classify}
use bilbo.Dwarf.Classify.Memo.{new_state, same_site}

-- A type with the cells it refers to, and the artifact of the crate that consumes it: the number of
-- its Rust type, and its value.
pub record Resolved {ℓ} (E : Type ℓ) : Type ℓ where
  pub ty : Ty
  pub cells : Cells
  pub ext : Option (ℕ × E)

-- `L1` and `L2`.
pub record Caches {ℓ} (E : Type ℓ) : Type ℓ where
  pub l1 : List (ℕ × Site)
  pub l2 : List (Site × Resolved E)

unfoldable pub find_l1 : ℕ → List (ℕ × Site) → Option Site
find_l1 pc [] = none
find_l1 pc ((k, tk) ∷ l1) = if k == pc then some tk else find_l1 pc l1

unfoldable pub find_l2 {ℓ} : {E : Type ℓ} → Site → List (Site × Resolved E) → Option (Resolved E)
find_l2 tk [] = none
find_l2 tk ((k, r) ∷ l2) = if same_site k tk then some r else find_l2 tk l2

-- The debug info, the opcodes and the slide of the process, and the fuel of the walks.
pub record Process : Type 0 where
  pub store : Store
  pub ops : DwarfRegs
  pub slide : ℕ
  pub fuel : ℕ

-- The type of the local at `ptr`.
unfoldable pub type_key : Process → (unwound : Outcome Caller) → (ptr : ℕ) → Outcome Site
type_key p unwound ptr = do
  caller ← unwound
  found ← subprogram_at 0 p.store.units caller.static_pc
  (ui, sp) ← expect found
  unit ← unit_at p.store ui
  hit ← local_at_address p.ops unit p.fuel sp caller.caller_fp caller.caller_sp caller.static_pc ptr
  l ← expect hit
  ok (ui, l.1)

unfoldable pub classified {ℓ} : {E : Type ℓ} → Process → Site → Outcome (Resolved E)
classified p tk = do
  (ty, c) ← classify p.store p.fuel p.slide p.fuel tk new_state
  ok (record { ty = ty; cells = c.cells; ext = none })

-- `entry(tk).or_insert_with(..)`.
unfoldable pub or_classify {ℓ} :
    {E : Type ℓ}
    → Process
    → Site
    → List (Site × Resolved E)
    → Outcome (Resolved E × List (Site × Resolved E))
or_classify p tk l2 = elim (find_l2 tk l2) [
  | some r ↦ ok (r, l2)
  | none ↦ do r ← classified p tk; ok (r, (tk, r) ∷ l2)
]

-- `resolved` for the call site `pc`: the type's key, what is cached of it, and the caches.
unfoldable pub resolved {ℓ} :
    {E : Type ℓ}
    → Process
    → (pc : ℕ) → (unwound : Outcome Caller) → (ptr : ℕ) → Caches E
    → Outcome (Site × Resolved E × Caches E)
resolved p pc unwound ptr s = elim (find_l1 pc s.l1) [
  | some tk ↦ do r ← expect (find_l2 tk s.l2); ok (tk, r, s)
  | none ↦ do
    tk ← type_key p unwound ptr
    (r, l2) ← or_classify p tk s.l2
    ok (tk, r, record { l1 = (pc, tk) ∷ s.l1; l2 = l2 })
]

-- `Resolved::ext` with an artifact of the Rust type `t`: a second type panics.
unfoldable pub ext_of {ℓ} :
    {E : Type ℓ} → (t : ℕ) → (init : Ty → E) → Resolved E → Outcome (E × Resolved E)
ext_of t init r = elim r.ext [
  | some e ↦ if e.0 == t then ok (e.1, r) else panic
  | none ↦
      let made = init r.ty in ok (made, record { ty = r.ty; cells = r.cells; ext = some (t, made) })
]
