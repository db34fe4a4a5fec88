-- ===== src/Dwarf/Locals.antt =====
-- dwarf.rs: `local_at_address`, which local a pointer aliases. A scan that is `depth` levels deep is
-- a scan with room for 33 - depth levels; `f` is the fuel for chains of references.
pub mod Survey
pub mod Best
use bilbo.Base.{
  ℕ, zero, suc, ◌+◌, ◌%◌, ◌^◌, Bool, true, false, ◌&&◌, ◌||◌, Option, none, some, List, [], ◌∷◌,
  ◌++◌, leb, ltb, ◌==◌, if◌then◌else◌, length, bytes, same, starts_with, Outcome, ok, out_of_fuel,
  ◌>>=◌,
}
use bilbo.Json.Value.{Text}
use bilbo.Dwarf.Die.{
  Off, Tag, At, Value, DwarfUnit, child_offsets, attr, tag, die_name, type_ref, name_or_default,
}
use bilbo.Dwarf.Leb.{i64_mod, sleb128}

-- `platform::dwarf_regs`.
pub record DwarfRegs : Type 0 where
  pub op_reg_fp : ℕ
  pub op_breg_fp : ℕ
  pub op_breg_sp : ℕ

abbrev pub linux_regs : DwarfRegs
linux_regs = record { op_reg_fp = 0x56; op_breg_fp = 0x76; op_breg_sp = 0x77 }

abbrev pub darwin_regs : DwarfRegs
darwin_regs = record { op_reg_fp = 0x6d; op_breg_fp = 0x8d; op_breg_sp = 0x8f }

pub record Regs : Type 0 where
  pub fp : ℕ
  pub sp : ℕ
  pub frame_base : ℕ

-- `base.wrapping_add(offset as u64)`, where the offset is all of the bytes.
unfoldable pub relative : ℕ → Text → Outcome (Option ℕ)
relative base rest = do
  (offset, used) ← sleb128 rest
  ok (if length rest == used then some ((base + offset) % i64_mod) else none)

unfoldable pub eval_addr : DwarfRegs → Regs → Text → Outcome (Option ℕ)
unfolding relative
eval_addr ops r [] = ok none
eval_addr ops r (op ∷ rest) =
    if op == 0x91
    then relative r.frame_base rest
    else if op == 0x9c
    then ok (some r.sp)
    else if op == ops.op_breg_fp
    then relative r.fp rest
    else if op == ops.op_breg_sp
    then relative r.sp rest
    else ok none

-- The first range of the location list that holds `pc`.
unfoldable pub location_at : ℕ → List (ℕ × ℕ × Text) → Option Text
location_at pc [] = none
location_at pc ((begin, end, expr) ∷ ranges) =
    let rest = location_at pc ranges in if leb begin pc && ltb pc end then some expr else rest

unfoldable pub var_location : DwarfUnit → Off → ℕ → Option Text
unfolding location_at
var_location unit off pc = elim (attr unit off At.location) [
  | some (Value.exprloc e) ↦ some e
  | some (Value.locations ranges) ↦ location_at pc ranges
  | _ ↦ none
]

-- A variable's name, and the offset of its type.
abbrev pub Local : Type 0
Local = Text × Off

pub record Hunt : Type 0 where
  pub seen : List (Text × Option Text × Option ℕ)
  pub fallback : Option Local
  pub mu : List (Text × Text × Off)

abbrev pub new_hunt : Hunt
new_hunt = record { seen = []; fallback = none; mu = [] }

abbrev pub is_maybe_uninit : Text → Bool
is_maybe_uninit tn = starts_with tn (bytes "MaybeUninit<")

abbrev pub at_ptr : ℕ → Option ℕ → Bool
at_ptr ptr none = false
at_ptr ptr (some addr) = addr == ptr

abbrev pub or_else {ℓ} : {A : Type ℓ} → Option A → Option A → Option A
or_else none o = o
or_else (some a) o = some a

-- What `scan` learns of a variable: its name, type, type's name, location and address.
pub record Fact : Type 0 where
  pub name : Text
  pub ty : Option Off
  pub tn : Text
  pub expr : Option Text
  pub addr : Option ℕ

-- What the body of the loop does with that.
unfoldable pub visit : (ptr : ℕ) → Fact → Hunt → Option Local × Hunt
visit ptr v h =
    let seen = h.seen ++ (v.name, v.expr, v.addr) ∷ [] in
    elim v.ty [
      | none ↦ (none, record { seen = seen; fallback = h.fallback; mu = h.mu })
      | some ty ↦
          if at_ptr ptr v.addr && is_maybe_uninit v.tn
          then (some (v.name, ty), record { seen = seen; fallback = h.fallback; mu = h.mu })
          else (
            none,
            record {
              seen = seen;
              fallback =
                  if at_ptr ptr v.addr then or_else h.fallback (some (v.name, ty)) else h.fallback;
              mu = if is_maybe_uninit v.tn then h.mu ++ (v.name, v.tn, ty) ∷ [] else h.mu;
            },
          )
    ]

abbrev pub is_scope : Tag → Bool
is_scope Tag.lexical_block = true
is_scope Tag.inlined_subroutine = true
is_scope _ = false

abbrev pub is_variable : Tag → Bool
is_variable Tag.variable = true
is_variable Tag.formal_parameter = true
is_variable _ = false

module _ (ops : DwarfRegs) (unit : DwarfUnit) (f : ℕ) (regs : Regs) (pc ptr : ℕ) where
  unfoldable pub type_name : Option Off → Outcome Text
  type_name none = ok []
  type_name (some t) = do n ← die_name unit f t; ok (name_or_default n)

  unfoldable pub address : Option Text → Outcome (Option ℕ)
  address none = ok none
  address (some expr) = eval_addr ops regs expr

  unfoldable pub inspect : Off → Outcome Fact
  inspect off = do
    name ← die_name unit f off
    ty ← type_ref unit f off
    tn ← type_name ty
    addr ← address (var_location unit off pc)
    ok (record {
      name = name_or_default name;
      ty = ty;
      tn = tn;
      expr = var_location unit off pc;
      addr = addr;
    })

  -- One round of the loop of `scan`; `enter` is the scan one level below.
  unfoldable pub scan_child :
      (Off → Hunt → Outcome (Option Local × Hunt))
      → Off
      → Tag
      → Hunt
      → Outcome (Option Local × Hunt)
  scan_child enter off t h =
      if is_scope t
      then enter off h
      else if is_variable t
      then (inspect off >>= λ v. ok (visit ptr v h))
      else ok (none, h)

  unfoldable pub scan_children :
      (Off → Hunt → Outcome (Option Local × Hunt)) → List Off → Hunt → Outcome (Option Local × Hunt)
  scan_children enter [] h = ok (none, h)
  scan_children enter (off ∷ offs) h = do
    t ← tag unit off
    r ← scan_child enter off t h
    elim r.0 [ some l ↦ ok r | none ↦ scan_children enter offs r.1 ]

  unfoldable pub scan : (room : ℕ) → Off → Hunt → Outcome (Option Local × Hunt)
  scan zero parent h = ok (none, h)
  scan (suc room) parent h = scan_children (scan room) (child_offsets unit parent) h

abbrev pub is_one_of : Text → List Text → Bool
is_one_of tn [] = false
is_one_of tn (s ∷ ss) = same tn s || is_one_of tn ss

-- The names without repetitions: the elements of the `HashSet`.
unfoldable pub distinct : List (Text × Text × Off) → List Text
distinct [] = []
distinct ((vn, tn, ty) ∷ mu) =
    let rest = distinct mu in if is_one_of tn rest then rest else tn ∷ rest

abbrev pub first : List (Text × Text × Off) → Option Local
first [] = none
first ((vn, tn, ty) ∷ mu) = some (vn, ty)

unfoldable pub sole_maybe_uninit : List (Text × Text × Off) → Option Local
unfolding distinct
sole_maybe_uninit mu = if length (distinct mu) == 1 then first mu else none

-- The frame base, by the first byte of the expression.
unfoldable pub frame_base_of : DwarfRegs → (caller_fp caller_sp : ℕ) → Text → Outcome (Option ℕ)
frame_base_of ops fp sp [] = ok none
frame_base_of ops fp sp (op ∷ rest) =
    if op == 0x9c
    then ok (some sp)
    else if op == ops.op_reg_fp
    then ok (some fp)
    else if op == ops.op_breg_fp
    then (sleb128 rest >>= λ r. ok (some ((fp + r.0) % i64_mod)))
    else ok none

unfoldable pub local_at_address :
    DwarfRegs
    → DwarfUnit
    → (f : ℕ) → (sp : Off) → (caller_fp caller_sp pc ptr : ℕ) → Outcome (Option Local)
local_at_address ops unit f sp caller_fp caller_sp pc ptr = elim (attr unit sp At.frame_base) [
  | some (Value.exprloc e) ↦ do
    base ← frame_base_of ops caller_fp caller_sp e
    elim base [
      | none ↦ ok none
      | some b ↦ do
        let regs : Regs = record { fp = caller_fp; sp = caller_sp; frame_base = b }
        (hit, h) ← scan ops unit f regs pc ptr 33 sp new_hunt
        ok (or_else hit (or_else h.fallback (sole_maybe_uninit h.mu)))
    ]
  | _ ↦ ok none
]
