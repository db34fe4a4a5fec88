-- ===== src/Dwarf/Sections.antt =====
-- dwarf.rs: `store`, the sections that gimli loads and the units that it reads. The crates object and gimli are
-- parameters.
use bilbo.Base.{
  ◌≡◌, ◌⊎◌, same_refl, refl, inl, inr, Bool, false, Option, none, some, List, [], ◌∷◌, ◌++◌, bytes,
  same, if◌then◌else◌, Bool-cases, Option-cases, ◌||◌, ◌∙◌, take, drop, unwrap_or, Outcome, ok,
  expect, ◌>>=◌,
}
use bilbo.Json.Value.{Text}
use bilbo.Dwarf.Die.{DwarfUnit}

-- A section of the object: its name and its uncompressed bytes, where they can be read.
pub record ObjectSection : Type 0 where
  pub name : Option Text
  pub content : Option Text

-- The map of sections: a later one of a name replaces the one before.
unfoldable pub find_section : List (Text × Text) → Text → Option Text
find_section [] id = none
find_section ((n, content) ∷ sections) id =
    let rest = find_section sections id in if same n id then some content else rest

-- The loop over `object.sections()`.
unfoldable pub read_sections : List ObjectSection → List (Text × Text) → List (Text × Text)
read_sections [] sections = sections
read_sections (s ∷ rest) sections = elim s.name [
  | none ↦ read_sections rest sections
  | some n ↦ elim s.content [
    | none ↦ read_sections rest sections
    | some content ↦ read_sections rest ((n, content) ∷ sections)
  ]
]

-- The name of the section in a Mach-O file, which has room for 16 bytes.
unfoldable pub macho_name : (elf : Text) → Text
macho_name elf = take 16 (bytes "__" ++ drop 1 elf)

-- The closure `load`: an absent section is empty.
unfoldable pub load_section : List (Text × Text) → (elf : Text) → Text
unfolding find_section macho_name
load_section sections elf = unwrap_or [] (elim (find_section sections elf) [
  | some content ↦ some content
  | none ↦ find_section sections (macho_name elf)
])

-- What the object and gimli give: whether the bytes can be parsed, their byte order and sections; the debug
-- info from a loader of sections; its headers, each of which may be an error; and the unit of a header.
pub record Readers : Type 1 where
  pub Dwarf : Type 0
  pub Header : Type 0
  pub parse : Text → Option (Bool × List ObjectSection)
  pub load : (little_endian : Bool) → (Text → Text) → Option Dwarf
  pub headers : Dwarf → List (Option Header)
  pub unit : Dwarf → Header → Option DwarfUnit

module _ (readers : Readers) where
  open readers use {Dwarf, Header, parse, load, headers, unit}

  unfoldable pub read_units : Dwarf → List (Option Header) → Outcome (List DwarfUnit)
  read_units dwarf [] = ok []
  read_units dwarf (h ∷ hs) = do
    header ← expect h
    u ← expect (unit dwarf header)
    units ← read_units dwarf hs
    ok (u ∷ units)

  -- What `STORE` is made of, from the bytes of the object.
  unfoldable pub new_store : Text → Outcome (Dwarf × List DwarfUnit)
  unfolding read_sections load_section read_units
  new_store content = do
    (little, sections) ← expect (parse content)
    let loaded = read_sections sections []
    dwarf ← expect (load little (λ elf. load_section loaded elf))
    units ← read_units dwarf (headers dwarf)
    ok (dwarf, units)

-- Whether a section that can be read has the name.
unfoldable pub has_name : Text → List ObjectSection → Bool
has_name id [] = false
has_name id (s ∷ rest) =
    let more = has_name id rest in
    elim s.name [
      | none ↦ more
      | some n ↦ elim s.content [ none ↦ more | some content ↦ same n id || more ]
    ]

read_sections-append :
    (xs ys : List ObjectSection) (sections : List (Text × Text))
    → read_sections (xs ++ ys) sections ≡ read_sections ys (read_sections xs sections)
unfolding read_sections
read_sections-append [] ys sections = refl
read_sections-append (s ∷ xs) ys sections = elim (Option-cases s.name) [
  | inl e ↦ rw e (read_sections-append xs ys sections)
  | inr (n, e) ↦ elim (Option-cases s.content) [
    | inl e' ↦ rw e (rw e' (read_sections-append xs ys sections))
    | inr (content, e') ↦ rw e (rw e' (read_sections-append xs ys ((n, content) ∷ sections)))
  ]
]

find_section-read_sections :
    (id : Text) (ys : List ObjectSection) (sections : List (Text × Text))
    → has_name id ys ≡ false
    → find_section (read_sections ys sections) id ≡ find_section sections id
unfolding find_section read_sections has_name
find_section-read_sections id [] sections h = refl
find_section-read_sections id (s ∷ ys) sections h = elim (Option-cases s.name) [
  | inl e ↦ rw e (find_section-read_sections id ys sections (rw e at h))
  | inr (n, e) ↦ elim (Option-cases s.content) [
    | inl e' ↦ rw e (rw e' (find_section-read_sections id ys sections (rw e' at (rw e at h))))
    | inr (content, e') ↦ elim (Bool-cases (same n id)) [
      | inl this ↦ let h' = rw e' at (rw e at h) in absurd (cc (rw this at h'))
      | inr other ↦
          let h' = rw e' at (rw e at h) in
          rw e (
            rw e' (
              find_section-read_sections id ys ((n, content) ∷ sections) (rw other at h')
              ∙ find_section-other id n content sections other))
    ]
  ]
]
  where
    find_section-other :
        (id n content : Text) (sections : List (Text × Text))
        → same n id ≡ false
        → find_section ((n, content) ∷ sections) id ≡ find_section sections id
    find_section-other id n content sections other = rw other refl

-- gimli gets the bytes of the last section that can be read and has the ELF name; where no such section has
-- that one, those of the last that has the Mach-O name, cut to 16 bytes.
pub load_section-last :
    (elf n content : Text) (s : ObjectSection) (xs ys : List ObjectSection)
    → s.name ≡ some n
    → s.content ≡ some content
    → has_name n ys ≡ false
    → (n ≡ elf) ⊎ ((n ≡ macho_name elf) × (has_name elf (xs ++ (s ∷ ys)) ≡ false))
    → load_section (read_sections (xs ++ (s ∷ ys)) []) elf ≡ content
unfolding load_section read_sections find_section
load_section-last elf n content s xs ys en ec last which =
    let found : find_section (read_sections (xs ++ (s ∷ ys)) []) n ≡ some content = read_found in
    elim which [
      | inl is_elf ↦ let here = rw is_elf at found in rw here refl
      | inr (is_macho, no_elf) ↦
          let absent = find_section-read_sections elf (xs ++ (s ∷ ys)) [] no_elf in
          let here = rw is_macho at found in rw absent (rw here refl)
    ]
  where
    read_found : find_section (read_sections (xs ++ (s ∷ ys)) []) n ≡ some content
    read_found = rw (read_sections-append xs (s ∷ ys) []) (
        rw en (
          rw ec (
            find_section-read_sections n ys ((n, content) ∷ read_sections xs []) last
            ∙ (rw (same_refl n) refl))))
