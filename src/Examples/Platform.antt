-- ===== src/Examples/Platform.antt =====
-- crates/bilbo/src/platform: an executable at 50 with its code from 100 to 200, and a frame at 2000.
use bilbo.Base.{
  ℕ, zero, suc, ◌+◌, ◌≤◌, ◌<◌, ◌≡◌, refl, inl, true, false, Option, none, some, [], ◌∷◌, arith,
  ◌==◌, if◌then◌else◌, bytes, ok,
}
use bilbo.Json.Value.{Text}
use bilbo.Platform.{
  Section, ObjectFile, Files, Module, Range, add_u64, sub_u64, sec_range_data, slid,
}
use bilbo.Platform.Slide.{Within}
use bilbo.Platform.Linux
use bilbo.Platform.Linux.{cb, new_module, unwinder, load_bias}
use bilbo.Platform.Linux.Bias.{visit_objects, load_bias-main}
use bilbo.Platform.Linux.Code.{new_module-Within}
use bilbo.Platform.Darwin
use bilbo.Platform.Darwin.{is_exe, main_image_slide}
use bilbo.Platform.Darwin.Image.{main_image_slide-MainImage}

abbrev code : Section
code = record { address = 100; size = 100; content = none }

abbrev object : ObjectFile
object = record {
  section_by_name = λ name. some code;
  segments = (some (bytes "__TEXT"), code) ∷ [];
}

abbrev files : Files
files = record {
  current_exe = some (bytes "bilbo");
  map_file = λ path. some [];
  parse = λ content. some object;
}

-- The word at 2008 is the return address.
abbrev pub stack : ℕ → ℕ
stack a = if a == 2008 then 200 else 0

abbrev pub os : Linux.Os
os = record {
  files = files;
  dl_iterate_phdr = visit_objects (50 ∷ 70 ∷ []);
  unwind_frame = λ m pc regs read_stack.
      (some (some (read_stack (regs.fp + 8))), record { link = 0; sp = 1000; fp = 2500 });
}

abbrev pub raw : Linux.Raw
raw = record { pc = 60; sp = 1900; fp = 2000 }

abbrev pub nothing : Linux.Memo
nothing = record { slide = none; unw = none }

load_bias-main_example : load_bias os true nothing ≡ (50, record { slide = some 50; unw = none })
load_bias-main_example =
    load_bias-main os true 50 (70 ∷ []) nothing (λ callback out. refl) (inl refl)

abbrev range_at : ℕ → ℕ → Option Range
range_at a b = some (a, b)

abbrev made : Module
made = record {
  name = bytes "bilbo";
  avma_range = (150, 250);
  base_avma = 50;
  info = record {
    base_svma = 0;
    text_svma = range_at 100 200;
    text = none;
    text_segment_svma = none;
    text_segment = none;
    stubs_svma = none;
    stub_helper_svma = none;
    got_svma = none;
    unwind_info = none;
    eh_frame_svma = range_at 100 200;
    eh_frame = none;
    eh_frame_hdr_svma = range_at 100 200;
    eh_frame_hdr = none;
  };
}

made_new : new_module os true 50 ≡ ok made
unfolding new_module sec_range_data slid add_u64
made_new = refl

new_module-Within_example : (sub_u64 true 200 50 ≡ ok 150) × Within (100, 200) 150
new_module-Within_example =
    new_module-Within os true 50 200 made (100, 200) made_new refl (omega arith) (omega arith)
      (omega arith, omega arith)

-- Three images: a null pointer, another library, and the executable.
abbrev image : ℕ → Option (Option Text)
image i =
    if i == 1
    then some (some (bytes "dyld"))
    else if i == 2
    then some (some (bytes "bilbo"))
    else none

abbrev mac : Darwin.Os
mac = record {
  files = files;
  paths = record {
    canonicalize = λ path. none;
    file_name = λ path. some path;
    parent = λ path. some [];
    push = λ dir name. name;
    read_dir = λ path. none;
  };
  dyld = record { image_count = 3; image_name = image; vmaddr_slide = λ i. 10 + i };
  unwind_frame = os.unwind_frame;
}

others : (j : ℕ) → 0 ≤ j → j < 2 → is_exe mac.paths (bytes "bilbo") (image j) ≡ false
unfolding is_exe
others zero h k = refl
others (suc zero) h k = refl
others (suc (suc j)) h k = absurd (omega arith)

main_image_slide-MainImage_example :
    main_image_slide mac true (record { slide = none; unw = none })
    ≡ ok (12, record { slide = some 12; unw = none })
unfolding is_exe
main_image_slide-MainImage_example =
    main_image_slide-MainImage mac true (bytes "bilbo") 2 (record { slide = none; unw = none }) refl
      (inl (omega arith, refl, others)) (inl refl)
