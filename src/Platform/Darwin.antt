-- ===== src/Platform/Darwin.antt =====
-- crates/bilbo/src/platform/darwin.rs. The slide and the unwinder are made once: `Memo` is what has been made.
-- The registers that `raw` reads by assembly, dyld, the file system and its paths are parameters.
pub mod Image
use bilbo.Base.{
  ℕ, zero, suc, ◌+◌, Bool, true, false, Option, none, some, List, [], ◌∷◌, ◌++◌, bytes, unwrap_or,
  same, if◌then◌else◌, Outcome, ok, expect, ◌>>=◌,
}
use bilbo.Json.Value.{Text}
use bilbo.Platform.{
  Caller, get_or_init, Range, Section, ObjectFile, Files, ModuleInfo, Module, UnwindFrame, add_u64,
  sub_u64, sec_range_data, slid,
}
use bilbo.Platform

pub record Raw : Type 0 where
  pub pc : ℕ
  pub sp : ℕ
  pub fp : ℕ
  pub lr : ℕ

-- The images that dyld has loaded: how many, the name of each, a text where it is UTF-8, `none` for a null
-- pointer, and its slide as a `u64`.
pub record Dyld : Type 0 where
  pub image_count : ℕ
  pub image_name : ℕ → Option (Option Text)
  pub vmaddr_slide : ℕ → ℕ

-- The file system: `canonicalize`, `file_name`, `parent`, `push`, and what `read_dir` lists.
pub record Paths : Type 0 where
  pub canonicalize : Text → Option Text
  pub file_name : Text → Option Text
  pub parent : Text → Option Text
  pub push : Text → Text → Text
  pub read_dir : Text → Option (List (Option Text))

pub record Os : Type 0 where
  pub files : Files
  pub paths : Paths
  pub dyld : Dyld
  pub unwind_frame : UnwindFrame

pub record Memo : Type 0 where
  pub slide : Option ℕ
  pub unw : Option Module

-- Whether an image is the executable.
unfoldable pub is_exe : Paths → (exe : Text) → Option (Option Text) → Bool
is_exe paths exe none = false
is_exe paths exe (some name) =
    let path = unwrap_or [] name in same (unwrap_or path (paths.canonicalize path)) exe

-- The slide of the first image from the `i`-th on that is the executable; `n` are left.
unfoldable pub find_image : Os → (exe : Text) → (i n : ℕ) → Option ℕ
unfolding is_exe
find_image os exe i zero = none
find_image os exe i (suc n) =
    let rest = find_image os exe (suc i) n in
    if is_exe os.paths exe (os.dyld.image_name i) then some (os.dyld.vmaddr_slide i) else rest

-- The first segment of that name.
unfoldable pub find_segment : (name : Text) → List (Option Text × Section) → Option Section
find_segment name [] = none
find_segment name ((none, s) ∷ segments) = find_segment name segments
find_segment name ((some n, s) ∷ segments) =
    if same n name then some s else find_segment name segments

abbrev pub range_of : Option (Range × Option Text) → Option Range
range_of none = none
range_of (some s) = some s.0

abbrev pub bytes_of : Option (Range × Option Text) → Option Text
bytes_of none = none
bytes_of (some s) = s.1

module _ (os : Os) (checked : Bool) where
  -- What `SLIDE` is made of.
  unfoldable pub new_slide : Outcome ℕ
  unfolding find_image
  new_slide = do
    exe ← expect os.files.current_exe
    let exe = unwrap_or exe (os.paths.canonicalize exe)
    ok (unwrap_or (os.dyld.vmaddr_slide 0) (find_image os exe 0 os.dyld.image_count))

  unfoldable pub main_image_slide : Memo → Outcome (ℕ × Memo)
  unfolding new_slide
  main_image_slide st = elim st.slide [
    | some slide ↦ ok (slide, st)
    | none ↦ do slide ← new_slide; ok (slide, record { slide = some slide; unw = st.unw })
  ]

  -- The module of the executable, from its object file.
  unfoldable pub text_module : (exe : Text) → ObjectFile → Section → (slide : ℕ) → Outcome Module
  unfolding sec_range_data slid add_u64
  text_module exe obj seg slide = do
    end ← add_u64 checked seg.address seg.size
    base_avma ← add_u64 checked seg.address slide
    avma_range ← slid checked (seg.address, end) slide
    text ← sec_range_data checked obj (bytes "__text")
    stubs ← sec_range_data checked obj (bytes "__stubs")
    helper ← sec_range_data checked obj (bytes "__stub_helper")
    got ← sec_range_data checked obj (bytes "__got")
    unwind_info ← sec_range_data checked obj (bytes "__unwind_info")
    eh_frame ← sec_range_data checked obj (bytes "__eh_frame")
    ok (record {
      name = exe;
      avma_range = avma_range;
      base_avma = base_avma;
      info = record {
        base_svma = seg.address;
        text_svma = range_of text;
        text = bytes_of text;
        text_segment_svma = some (seg.address, end);
        text_segment = seg.content;
        stubs_svma = range_of stubs;
        stub_helper_svma = range_of helper;
        got_svma = range_of got;
        unwind_info = bytes_of unwind_info;
        eh_frame_svma = range_of eh_frame;
        eh_frame = bytes_of eh_frame;
        eh_frame_hdr_svma = none;
        eh_frame_hdr = none;
      };
    })

  unfoldable pub unwinder : Memo → Outcome (Module × Memo)
  unfolding main_image_slide text_module find_segment
  unwinder st = elim st.unw [
    | some m ↦ ok (m, st)
    | none ↦ do
      exe ← expect os.files.current_exe
      map ← expect (os.files.map_file exe)
      obj ← expect (os.files.parse map)
      seg ← expect (find_segment (bytes "__TEXT") obj.segments)
      (slide, st') ← main_image_slide st
      m ← text_module exe obj seg slide
      ok (m, record { slide = st'.slide; unw = some m })
  ]

  unfoldable pub caller_pc : (memory : ℕ → ℕ) → Raw → Memo → Outcome (ℕ × Memo)
  unfolding main_image_slide Platform.caller_pc
  caller_pc memory r st = do
    (slide, st') ← main_image_slide st
    pc ← Platform.caller_pc checked slide memory r.fp
    ok (pc, st')

  -- `unwind` and `unwind_one`.
  unfoldable pub unwind : (memory : ℕ → ℕ) → Raw → Memo → Outcome (Caller × Memo)
  unfolding main_image_slide unwinder Platform.unwind
  unwind memory r st = do
    (m, st1) ← unwinder st
    (slide, st2) ← main_image_slide st1
    c ←
        Platform.unwind checked slide memory os.unwind_frame m r.pc
          (record { link = r.lr; sp = r.sp; fp = r.fp })
    ok (c, st2)

-- `dsym_path`: what stands first in the bundle, or else the executable.
unfoldable pub dsym_path : Os → Outcome Text
dsym_path os = do
  exe ← expect os.files.current_exe
  name ← expect (os.paths.file_name exe)
  dir ← expect (os.paths.parent exe)
  let p =
      os.paths.push (os.paths.push dir (name ++ bytes ".dSYM")) (bytes "Contents/Resources/DWARF")
  ok (elim (os.paths.read_dir p) [ some (some e ∷ entries) ↦ e | _ ↦ exe ])

unfoldable pub dwarf_bytes : Os → Outcome Text
unfolding dsym_path
dwarf_bytes os = do path ← dsym_path os; expect (os.files.map_file path)
