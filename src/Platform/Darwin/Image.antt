-- ===== src/Platform/Darwin/Image.antt =====
-- darwin.rs: the slide is that of the first image that is the executable, or of the first image of all.
use bilbo.Base.{
  ℕ, zero, suc, ◌+◌, ◌<◌, ◌≤◌, ◌≡◌, refl, ◌⊎◌, inl, inr, Bool, true, false, none, some, unwrap_or,
  ◌≢◌, leb, arith, Bool-cases, ok,
}
use bilbo.Json.Value.{Text}
use bilbo.Platform.Darwin.{Os, Memo, is_exe, find_image, new_slide, main_image_slide}

abbrev pub Passed : Os → (exe : Text) → (from to : ℕ) → Type 0
Passed os exe from to =
    (j : ℕ) → from ≤ j → j < to → is_exe os.paths exe (os.dyld.image_name j) ≡ false

-- The `i`-th image is the main one: the first that is the executable, or else that of number 0.
abbrev pub MainImage : Os → (exe : Text) → (i : ℕ) → Type 0
MainImage os exe i =
    ((i < os.dyld.image_count)
      × (is_exe os.paths exe (os.dyld.image_name i) ≡ true)
      × Passed os exe 0 i)
    ⊎ (Passed os exe 0 os.dyld.image_count × (i ≡ 0))

module _ (os : Os) (exe : Text) where
  find_image-first :
      (n from i : ℕ)
      → from ≤ i
      → i < from + n
      → is_exe os.paths exe (os.dyld.image_name i) ≡ true
      → Passed os exe from i
      → find_image os exe from n ≡ some (os.dyld.vmaddr_slide i)
  unfolding find_image
  find_image-first zero from i low high it passed = absurd (omega arith)
  find_image-first (suc n) from i low high it passed =
      elim (Bool-cases (is_exe os.paths exe (os.dyld.image_name from))) [
        | inl this ↦ elim (Bool-cases (leb i from)) [
          | inl at_end ↦ let here : from ≡ i = ground arith in rw this (rw here refl)
          | inr below ↦ absurd (let past = passed from (omega arith) (ground arith) in cc)
        ]
        | inr other ↦
            let differs : from ≢ i = λ e. absurd (let it' = rw (← e) at it in cc) in
            rw other (
              find_image-first n (suc from) i (omega (arith, differs, low)) (omega arith) it
                (λ j h k. passed j (omega arith) k))
      ]

  find_image-none :
      (n from to : ℕ) → from + n ≤ to → Passed os exe from to → find_image os exe from n ≡ none
  unfolding find_image
  find_image-none zero from to h passed = refl
  find_image-none (suc n) from to h passed =
      rw (passed from (omega arith) (omega arith))
        (find_image-none n (suc from) to (omega arith) (λ j l k. passed j (omega arith) k))

-- The slide of the process is that of its main image, once it has been read too.
pub main_image_slide-MainImage :
    (os : Os) (checked : Bool) (exe : Text) (i : ℕ) (st : Memo)
    → os.files.current_exe ≡ some exe
    → MainImage os (unwrap_or exe (os.paths.canonicalize exe)) i
    → (st.slide ≡ none) ⊎ (st.slide ≡ some (os.dyld.vmaddr_slide i))
    → main_image_slide os checked st
      ≡ ok (os.dyld.vmaddr_slide i, record { slide = some (os.dyld.vmaddr_slide i); unw = st.unw })
unfolding main_image_slide new_slide
main_image_slide-MainImage os checked exe i st running main (inr known) = rw known refl
main_image_slide-MainImage os checked exe i st running (inl (below, it, passed)) (inl fresh) =
    rw fresh (
      rw running (
        rw (find_image-first os _ os.dyld.image_count 0 i (omega arith) (omega arith) it passed)
          refl))
main_image_slide-MainImage os checked exe i st running (inr (passed, first)) (inl fresh) =
    rw fresh (
      rw running
        (rw (find_image-none os _ os.dyld.image_count 0 _ (omega arith) passed) (rw first refl)))
