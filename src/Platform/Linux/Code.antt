-- ===== src/Platform/Linux/Code.antt =====
-- linux.rs: return addresses in the executable's code are static addresses in its `.text`.
use bilbo.Base.{
  ℕ, ◌+◌, ◌-◌, ◌^◌, ◌≤◌, ◌<◌, ◌≡◌, sym, ap, ◌∙◌, Bool, Option, none, some, ◌>>=◌, bytes, Outcome,
  ok, expect, >>=-eq-ok,
}
use bilbo.Platform.{Range, Module, sec_range_data, slid, sub_u64}
use bilbo.Platform.Slide.{Within, sub_u64-Within}
use bilbo.Platform.Linux.{Os, new_module}

text_of : Outcome Module → Option Range
text_of (ok m) = m.info.text_svma
text_of _ = none

avma_of : Outcome Module → Outcome Range
avma_of o = o >>= λ m. ok m.avma_range

-- What the module says of `.text` and of its place in memory.
new_module-slid :
    (os : Os) (checked : Bool) (slide : ℕ) (m : Module)
    → new_module os checked slide ≡ ok m
    → (r : Range) × (m.info.text_svma ≡ some r) × (slid checked r slide ≡ ok m.avma_range)
unfolding new_module text_of avma_of
new_module-slid os checked slide m e =
    let (exe, ee, e1) = >>=-eq-ok (expect os.files.current_exe) _ e in
    let (map, em, e2) = >>=-eq-ok (expect (os.files.map_file exe)) _ e1 in
    let (obj, eo, e3) = >>=-eq-ok (expect (os.files.parse map)) _ e2 in
    let (found, ef, e4) = >>=-eq-ok (sec_range_data checked obj (bytes ".text")) _ e3 in
    let (text, et, e5) = >>=-eq-ok (expect found) _ e4 in
    let (range, er, e6) = >>=-eq-ok (slid checked text.0 slide) _ e5 in
    let (eh, eeh, e7) = >>=-eq-ok (sec_range_data checked obj (bytes ".eh_frame")) _ e6 in
    let (hdr, eh', e8) = >>=-eq-ok (sec_range_data checked obj (bytes ".eh_frame_hdr")) _ e7 in
    (text.0, sym (ap text_of e8), er ∙ ap avma_of e8)

-- A return address in the part of memory that the unwinder's module stands for becomes, without an
-- overflow, a static address in the `.text` of the file, where that does not reach the end of memory.
pub new_module-Within :
    (os : Os) (checked : Bool) (slide ret : ℕ) (m : Module) (text : Range)
    → new_module os checked slide ≡ ok m
    → m.info.text_svma ≡ some text
    → text.0 ≤ text.1
    → text.1 + slide < 2 ^ 64
    → Within m.avma_range ret
    → (sub_u64 checked ret slide ≡ ok (ret - slide)) × Within text (ret - slide)
new_module-Within os checked slide ret m text e at_text h room inside =
    let (r, er, moved) = new_module-slid os checked slide m e in
    let same_range : r ≡ text = cc in
    sub_u64-Within checked text m.avma_range slide ret h room (rw same_range at moved) inside
