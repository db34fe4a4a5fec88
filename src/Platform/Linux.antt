-- ===== src/Platform/Linux.antt =====
-- crates/bilbo/src/platform/linux.rs. The load bias and the unwinder are made once: `Memo` is what has been
-- made. The registers that `raw` reads by assembly are an argument.
pub mod Bias
pub mod Code
use bilbo.Base.{
  ℕ, ◌+◌, Bool, Option, none, some, List, [], bytes, unwrap_or, Outcome, ok, expect, ◌>>=◌,
}
use bilbo.Json.Value.{Text}
use bilbo.Platform.{
  Caller, get_or_init, Range, ObjectFile, Files, ModuleInfo, Module, UnwindFrame, add_u64, sub_u64,
  sec_range_data, slid,
}
use bilbo.Platform

pub record Raw : Type 0 where
  pub pc : ℕ
  pub sp : ℕ
  pub fp : ℕ

-- `dl_iterate_phdr`: it calls the callback with the load address of an object and the data, which the
-- callback may change; a callback's result says whether to stop.
abbrev pub Iterate : Type 0
Iterate = (callback : ℕ → Option ℕ → ℕ × Option ℕ) → (out : Option ℕ) → Option ℕ

-- The callback `cb`.
unfoldable pub cb : (dlpi_addr : ℕ) → (out : Option ℕ) → ℕ × Option ℕ
cb dlpi_addr none = (1, some dlpi_addr)
cb dlpi_addr (some a) = (1, some a)

-- What the program gets from its surroundings.
pub record Os : Type 0 where
  pub files : Files
  pub dl_iterate_phdr : Iterate
  pub unwind_frame : UnwindFrame

-- `SLIDE` and `UNW`.
pub record Memo : Type 0 where
  pub slide : Option ℕ
  pub unw : Option Module

module _ (os : Os) (checked : Bool) where
  unfoldable pub load_bias : Memo → ℕ × Memo
  unfolding cb
  load_bias st =
      let bias = get_or_init st.slide (unwrap_or 0 (os.dl_iterate_phdr cb none)) in
      (bias, record { slide = some bias; unw = st.unw })

  -- The module of the executable.
  unfoldable pub new_module : (slide : ℕ) → Outcome Module
  unfolding sec_range_data slid
  new_module slide = do
    exe ← expect os.files.current_exe
    map ← expect (os.files.map_file exe)
    obj ← expect (os.files.parse map)
    found ← sec_range_data checked obj (bytes ".text")
    (text_svma, text_data) ← expect found
    avma_range ← slid checked text_svma slide
    eh_frame ← sec_range_data checked obj (bytes ".eh_frame")
    hdr ← sec_range_data checked obj (bytes ".eh_frame_hdr")
    ok (record {
      name = exe;
      avma_range = avma_range;
      base_avma = slide;
      info = record {
        base_svma = 0;
        text_svma = some text_svma;
        text = text_data;
        text_segment_svma = none;
        text_segment = none;
        stubs_svma = none;
        stub_helper_svma = none;
        got_svma = none;
        unwind_info = none;
        eh_frame_svma = elim eh_frame [ some s ↦ some s.0 | none ↦ none ];
        eh_frame = elim eh_frame [ some s ↦ s.1 | none ↦ none ];
        eh_frame_hdr_svma = elim hdr [ some s ↦ some s.0 | none ↦ none ];
        eh_frame_hdr = elim hdr [ some s ↦ s.1 | none ↦ none ];
      };
    })

  -- `unwinder`, which asks for the load bias when it is made.
  unfoldable pub unwinder : Memo → Outcome (Module × Memo)
  unfolding load_bias new_module
  unwinder st = elim st.unw [
    | some m ↦ ok (m, st)
    | none ↦ do
      let (slide, st') = load_bias st
      m ← new_module slide
      ok (m, record { slide = st'.slide; unw = some m })
  ]

  unfoldable pub caller_pc : (memory : ℕ → ℕ) → Raw → Memo → Outcome (ℕ × Memo)
  unfolding load_bias Platform.caller_pc
  caller_pc memory r st = do
    let (slide, st') = load_bias st
    pc ← Platform.caller_pc checked slide memory r.fp
    ok (pc, st')

  unfoldable pub unwind : (memory : ℕ → ℕ) → Raw → Memo → Outcome (Caller × Memo)
  unfolding load_bias unwinder Platform.unwind
  unwind memory r st = do
    (m, st1) ← unwinder st
    let (slide, st2) = load_bias st1
    c ←
        Platform.unwind checked slide memory os.unwind_frame m r.pc
          (record { link = r.pc; sp = r.sp; fp = r.fp })
    ok (c, st2)

  -- `image_slide`.
  abbrev pub image_slide : Memo → ℕ × Memo
  image_slide st = load_bias st

-- `dwarf_bytes`: the executable itself.
unfoldable pub dwarf_bytes : Files → Outcome Text
dwarf_bytes files = do exe ← expect files.current_exe; expect (files.map_file exe)
