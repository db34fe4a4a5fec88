-- ===== src/Examples/Sections.antt =====
-- dwarf.rs, `store`: a Mach-O file whose name for `.debug_str_offsets` has been cut.
use bilbo.Base.{◌≡◌, refl, inr, some, [], ◌∷◌, ◌++◌, bytes}
use bilbo.Dwarf.Sections.{
  ObjectSection, read_sections, load_section, macho_name, has_name, load_section-last,
}

abbrev text_section : ObjectSection
text_section = record { name = some (bytes "__text"); content = some (bytes "code") }

abbrev cut : ObjectSection
cut = record { name = some (bytes "__debug_str_offs"); content = some (bytes "offsets") }

load_section-last_example :
    load_section (read_sections ((text_section ∷ []) ++ (cut ∷ [])) []) (bytes ".debug_str_offsets")
    ≡ bytes "offsets"
unfolding macho_name has_name
load_section-last_example =
    load_section-last (bytes ".debug_str_offsets") (bytes "__debug_str_offs") (bytes "offsets") cut
      (text_section ∷ []) [] refl refl refl (inr (refl, refl))
