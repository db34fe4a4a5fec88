-- ===== src/Platform.antt =====
-- crates/bilbo/src/platform: registers, the unwinding of one frame, and the slide of the image. The assembly
-- that reads the registers, the crates framehop and object, the loader and the files are parameters.
-- Addresses are below 2^64; whether an overflow is checked is a parameter, since the development profile
-- checks it and the release profile does not.
pub mod Slide
pub mod Linux
pub mod Darwin
use bilbo.Base.{
  ℕ, ◌+◌, ◌-◌, ◌^◌, Bool, true, false, Option, none, some, List, leb, if◌then◌else◌, Outcome, ok,
  panic, expect, ◌>>=◌,
}
use bilbo.Json.Value.{Text}

-- `platform::Caller`.
pub record Caller : Type 0 where
  pub static_pc : ℕ
  pub caller_fp : ℕ
  pub caller_sp : ℕ

unfoldable pub add_u64 : (checked : Bool) → ℕ → ℕ → Outcome ℕ
add_u64 checked a b =
    if leb (2 ^ 64) (a + b) then if checked then panic else ok (a + b - 2 ^ 64) else ok (a + b)

unfoldable pub sub_u64 : (checked : Bool) → ℕ → ℕ → Outcome ℕ
sub_u64 checked a b = if leb b a then ok (a - b) else if checked then panic else ok (a + 2 ^ 64 - b)

-- `OnceLock::get_or_init`: the value, which is kept.
abbrev pub get_or_init {ℓ} : {A : Type ℓ} → Option A → A → A
get_or_init none made = made
get_or_init (some a) made = a

-- `Range<u64>`.
abbrev pub Range : Type 0
Range = ℕ × ℕ

-- A section or a segment of an object file, with its bytes where they can be read.
pub record Section : Type 0 where
  pub address : ℕ
  pub size : ℕ
  pub content : Option Text

-- `object::File`, as far as it is read: its sections by name, and its segments in order, each with its name
-- where it has one.
pub record ObjectFile : Type 0 where
  pub section_by_name : Text → Option Section
  pub segments : List (Option Text × Section)

-- The executable's path, a file's bytes once it is mapped, and the crate object.
pub record Files : Type 0 where
  pub current_exe : Option Text
  pub map_file : Text → Option Text
  pub parse : Text → Option ObjectFile

-- `framehop::ExplicitModuleSectionInfo`.
pub record ModuleInfo : Type 0 where
  pub base_svma : ℕ
  pub text_svma : Option Range
  pub text : Option Text
  pub text_segment_svma : Option Range
  pub text_segment : Option Text
  pub stubs_svma : Option Range
  pub stub_helper_svma : Option Range
  pub got_svma : Option Range
  pub unwind_info : Option Text
  pub eh_frame_svma : Option Range
  pub eh_frame : Option Text
  pub eh_frame_hdr_svma : Option Range
  pub eh_frame_hdr : Option Text

-- `framehop::Module`.
pub record Module : Type 0 where
  pub name : Text
  pub avma_range : Range
  pub base_avma : ℕ
  pub info : ModuleInfo

-- `UnwindRegsX86_64` and `UnwindRegsAarch64`: the instruction pointer or the link register, and two more.
pub record UnwindRegs : Type 0 where
  pub link : ℕ
  pub sp : ℕ
  pub fp : ℕ

-- `Unwinder::unwind_frame` with one module, at an instruction, with a reader of the stack: an error, the root,
-- or the return address, and the registers then.
abbrev pub UnwindFrame : Type 0
UnwindFrame = Module → (pc : ℕ) → UnwindRegs → (read_stack : ℕ → ℕ) → Option (Option ℕ) × UnwindRegs

-- `sec_range_data`.
unfoldable pub sec_range_data :
    (checked : Bool) → ObjectFile → (name : Text) → Outcome (Option (Range × Option Text))
unfolding add_u64
sec_range_data checked obj name = elim (obj.section_by_name name) [
  | none ↦ ok none
  | some s ↦ do end ← add_u64 checked s.address s.size; ok (some ((s.address, end), s.content))
]

-- A range of the file, moved by the slide.
unfoldable pub slid : (checked : Bool) → Range → (slide : ℕ) → Outcome Range
unfolding add_u64
slid checked r slide = do
  start ← add_u64 checked r.0 slide
  end ← add_u64 checked r.1 slide
  ok (start, end)

-- The call site and the caller's frame, from the registers of this one; `memory` is what a load of eight
-- bytes gives.
module _ (checked : Bool) (slide : ℕ) (memory : ℕ → ℕ) where
  -- `caller_pc`, with the frame pointer of this frame.
  unfoldable pub caller_pc : (fp : ℕ) → Outcome ℕ
  unfolding add_u64 sub_u64
  caller_pc fp = do slot ← add_u64 checked fp 8; sub_u64 checked (memory slot) slide

  -- `unwind`, with the module that it unwinds by.
  unfoldable pub unwind : UnwindFrame → Module → (pc : ℕ) → UnwindRegs → Outcome Caller
  unfolding sub_u64
  unwind unwind_frame m pc regs = do
    let (result, regs') = unwind_frame m pc regs memory
    frame ← expect result
    ret ← expect frame
    static_pc ← sub_u64 checked ret slide
    ok (record { static_pc = static_pc; caller_fp = regs'.fp; caller_sp = regs'.sp })
