-- ===== src/Dwarf/Index.antt =====
-- dwarf.rs: the index of complete struct and union definitions, and the redirection of stubs to it.
-- The `HashMap` is an association list without repeated names.
use bilbo.Base.{
  unwrap_or, ℕ, suc, ◌+◌, Bool, true, false, ◌&&◌, not, Option, none, some, List, [], ◌∷◌, leb,
  ◌==◌, if◌then◌else◌, get_elem?, same, Outcome, ok, expect, ◌>>=◌,
}
use bilbo.Json.Value.{Text}
use bilbo.Dwarf.Die.{
  Off, Tag, At, Value, DwarfUnit, child_offsets, attr, attr_string, tag, die_name, udata,
}

-- A unit's index and an offset in it.
abbrev pub Site : Type 0
Site = ℕ × Off

abbrev pub DefIndex : Type 0
DefIndex = List (Text × Site)

pub record IdxFrame : Type 0 where
  pub depth : ℕ
  pub off : Off
  pub decl : Bool
  pub name : Option Text
  pub has_child : Bool

unfoldable pub lookup : Text → DefIndex → Option Site
lookup n [] = none
lookup n ((k, site) ∷ map) = if same k n then some site else lookup n map

-- `map.entry(n).or_insert(site)`.
unfoldable pub or_insert : Text → Site → DefIndex → DefIndex
or_insert n site [] = (n, site) ∷ []
or_insert n site ((k, s) ∷ map) = if same k n then (k, s) ∷ map else (k, s) ∷ or_insert n site map

unfoldable pub idx_close : IdxFrame → ℕ → DefIndex → DefIndex
unfolding or_insert
idx_close f ui map = elim f.name [
  | none ↦ map
  | some n ↦ if f.has_child && not f.decl then or_insert n (ui, f.off) map else map
]

-- Closes the frames whose subtree is left at that depth; the top of the stack is the head.
unfoldable pub close_frames : ℕ → ℕ → List IdxFrame → DefIndex → List IdxFrame × DefIndex
close_frames ui depth [] map = ([], map)
close_frames ui depth (f ∷ stack) map =
    if leb depth f.depth then close_frames ui depth stack (idx_close f ui map) else (f ∷ stack, map)

unfoldable pub close_all : ℕ → List IdxFrame → DefIndex → DefIndex
close_all ui [] map = map
close_all ui (f ∷ stack) map = close_all ui stack (idx_close f ui map)

abbrev pub is_su : Tag → Bool
is_su Tag.structure_type = true
is_su Tag.union_type = true
is_su _ = false

abbrev pub is_layout : Tag → Bool
is_layout Tag.member = true
is_layout Tag.variant_part = true
is_layout _ = false

abbrev pub is_declaration : Option Value → Bool
is_declaration (some (Value.flag b)) = b
is_declaration _ = false

abbrev pub name_of : Option Value → Option Text
name_of none = none
name_of (some v) = attr_string v

-- `top.has_child = true`, where the entry is a direct child of the top of the stack.
unfoldable pub mark_child : ℕ → List IdxFrame → List IdxFrame
mark_child depth [] = []
mark_child depth (top ∷ stack) =
    if depth == top.depth + 1
    then (record {
      depth = top.depth;
      off = top.off;
      decl = top.decl;
      name = top.name;
      has_child = true;
    })
      ∷ stack
    else top ∷ stack

-- What is done with an entry once the frames that it leaves are closed.
unfoldable pub open_entry : DwarfUnit → Off → ℕ → Tag → List IdxFrame → List IdxFrame
unfolding mark_child
open_entry unit off depth etag stack =
    if is_su etag
    then (record {
      depth = depth;
      off = off;
      decl = is_declaration (attr unit off At.declaration);
      name = name_of (attr unit off At.name);
      has_child = false;
    })
      ∷ stack
    else if is_layout etag
    then mark_child depth stack
    else stack

-- The walk over one unit's entries.
unfoldable pub index_unit :
    DwarfUnit → ℕ → List (Off × ℕ) → List IdxFrame → DefIndex → Outcome DefIndex
index_unit unit ui [] stack map = ok (close_all ui stack map)
index_unit unit ui ((off, depth) ∷ es) stack map =
    let closed = close_frames ui depth stack map in
    do etag ← tag unit off; index_unit unit ui es (open_entry unit off depth etag closed.0) closed.1

unfoldable pub index_units : ℕ → List DwarfUnit → DefIndex → Outcome DefIndex
index_units ui [] map = ok map
index_units ui (unit ∷ units) map = do
  map' ← index_unit unit ui unit.entries [] map
  index_units (suc ui) units map'

unfoldable pub def_index : List DwarfUnit → Outcome DefIndex
def_index units = index_units 0 units []

-- One of the children tells the layout.
unfoldable pub has_layout : DwarfUnit → List Off → Outcome Bool
has_layout unit [] = ok false
has_layout unit (c ∷ cs) =
    let rest = has_layout unit cs in do t ← tag unit c; if is_layout t then ok true else rest

unfoldable pub is_stub : DwarfUnit → Off → Outcome Bool
is_stub unit off = do
  t ← tag unit off
  if not (is_su t)
      then ok false
      else if is_declaration (attr unit off At.declaration)
      then ok true
      else if unwrap_or 0 (udata unit off At.byte_size) == 0
      then ok false
      else (has_layout unit (child_offsets unit off) >>= λ b. ok (not b))

-- The global store, whose index is built once.
pub record Store : Type 0 where
  pub units : List DwarfUnit
  pub index : DefIndex

-- The unit of that number.
unfoldable pub unit_at : Store → ℕ → Outcome DwarfUnit
unit_at st ui = expect (get_elem? st.units ui)

-- The site of the complete definition of a stub, where the index has one.
unfoldable pub redirect : Store → Site → Option Text → Site
unfolding lookup
redirect st site none = site
redirect st site (some n) = unwrap_or site (lookup n st.index)

unfoldable pub def_site : Store → (f : ℕ) → Site → Outcome Site
unfolding redirect
def_site st f site = do
  unit ← unit_at st site.0
  stub ← is_stub unit site.1
  if stub then (die_name unit f site.1 >>= λ n. ok (redirect st site n)) else ok site
