-- ===== src/Dwarf/Layout.antt =====
-- dwarf.rs: where the words of a sequence or a string reference lie, `seq_layout`, `walk_seq` and
-- `str_ref_offsets`. Sums of offsets are taken to stay below 2^64. A walk that is `depth` levels deep
-- has room for 17 - depth levels.
use bilbo.Base.{
  unwrap_or, ℕ, zero, suc, ◌+◌, ◌-◌, ◌^◌, Bool, true, false, ◌&&◌, ◌||◌, not, none, some, List, [],
  ◌∷◌, ◌==◌, if◌then◌else◌, bytes, same, Outcome, ok, panic, ◌>>=◌,
}
use bilbo.Json.Value.{Text}
use bilbo.Plan.{SeqLayout}
use bilbo.Dwarf.Die.{
  Off, Tag, At, DwarfUnit, child_offsets, tag, udata, die_name, type_ref, strip, name_or_default,
}
use bilbo.Dwarf.Index.{Site, Store, unit_at, def_site, is_su}

-- `usize::MAX`: not found yet.
abbrev pub unset : ℕ
unset = 2 ^ 64 - 1

abbrev pub is_member : Tag → Bool
is_member Tag.member = true
is_member _ = false

abbrev pub is_pointer : Tag → Bool
is_pointer Tag.pointer_type = true
is_pointer _ = false

abbrev pub member_location : DwarfUnit → Off → ℕ
member_location unit off = unwrap_or 0 (udata unit off At.data_member_location)

abbrev pub set_ptr : ℕ → SeqLayout → SeqLayout
set_ptr abs s = record { ptr_off = abs; cap_off = s.cap_off; len_off = s.len_off }

abbrev pub set_cap : ℕ → SeqLayout → SeqLayout
set_cap abs s = record { ptr_off = s.ptr_off; cap_off = abs; len_off = s.len_off }

abbrev pub set_len : ℕ → SeqLayout → SeqLayout
set_len abs s = record { ptr_off = s.ptr_off; cap_off = s.cap_off; len_off = abs }

-- A missing name is none of these.
abbrev pub is_cap : Text → Bool
is_cap n = same n (bytes "cap") || same n (bytes "capacity")

abbrev pub is_len : Text → Bool
is_len n = same n (bytes "len") || same n (bytes "length")

-- One level down, into the type at a site.
abbrev pub Walk : Type 0
Walk = Site → (base : ℕ) → SeqLayout → Outcome SeqLayout

module _ (st : Store) (f : ℕ) where
  unfoldable pub walk_member :
      Walk → DwarfUnit → (ui base : ℕ) → Off → SeqLayout → Outcome SeqLayout
  walk_member walk unit ui base m s = do
    t ← tag unit m
    if not (is_member t) then ok s else do
      let abs : ℕ = base + member_location unit m
      n ← die_name unit f m
      if is_cap (name_or_default n) && s.cap_off == unset
          then ok (set_cap abs s)
          else if is_len (name_or_default n) && s.len_off == unset
          then ok (set_len abs s)
          else do ty ← type_ref unit f m; elim ty [ none ↦ ok s | some mt ↦ walk (ui, mt) abs s ]

  unfoldable pub walk_members :
      Walk → DwarfUnit → (ui base : ℕ) → List Off → SeqLayout → Outcome SeqLayout
  walk_members walk unit ui base [] s = ok s
  walk_members walk unit ui base (m ∷ ms) s = do
    s' ← walk_member walk unit ui base m s
    walk_members walk unit ui base ms s'

  unfoldable pub walk_seq : (room : ℕ) → Walk
  walk_seq zero site base s = ok s
  walk_seq (suc room) site base s = do
    unit0 ← unit_at st site.0
    stripped ← strip unit0 f site.1
    (ui, off) ← def_site st f (site.0, stripped)
    unit ← unit_at st ui
    t ← tag unit off
    if is_pointer t && s.ptr_off == unset then ok (set_ptr base s) else elim (is_su t) [
      | true ↦ walk_members (walk_seq room) unit ui base (child_offsets unit off) s
      | false ↦ ok s
    ]

  abbrev pub is_complete : SeqLayout → Bool
  is_complete s = not (s.ptr_off == unset) && (not (s.cap_off == unset) && not (s.len_off == unset))

  -- The `assert!` is the last step.
  unfoldable pub seq_layout : Site → Outcome SeqLayout
  seq_layout site = do
    s ← walk_seq 17 site 0 (record { ptr_off = unset; cap_off = unset; len_off = unset })
    if is_complete s then ok s else panic

-- The loop of `str_ref_offsets`: the last member of each name counts.
unfoldable pub str_ref_loop : DwarfUnit → (f : ℕ) → List Off → ℕ × ℕ → Outcome (ℕ × ℕ)
str_ref_loop unit f [] p = ok p
str_ref_loop unit f (m ∷ ms) p = do
  t ← tag unit m
  n ← if is_member t then die_name unit f m else ok none
  let key = name_or_default n
  str_ref_loop unit f ms (
      if same key (bytes "data_ptr")
      then (member_location unit m, p.1)
      else if same key (bytes "length")
      then (p.0, member_location unit m)
      else p)

unfoldable pub str_ref_offsets : DwarfUnit → (f : ℕ) → Off → Outcome (ℕ × ℕ)
str_ref_offsets unit f off = str_ref_loop unit f (child_offsets unit off) (0, 0)
