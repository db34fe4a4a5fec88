-- ===== src/Platform/Linux/Bias.antt =====
-- linux.rs: the load bias is that of the main program.
use bilbo.Base.{
  ℕ, ◌≡◌, refl, ◌⊎◌, inl, inr, Bool, Option, none, some, List, [], ◌∷◌, ◌==◌, if◌then◌else◌,
}
use bilbo.Platform.Linux.{Iterate, cb, Os, Memo, load_bias}

-- What `dl_iterate_phdr` is documented to do: it calls the callback with one object after another, until a
-- result is not zero.
unfoldable pub visit_objects : List ℕ → Iterate
visit_objects [] callback out = out
visit_objects (a ∷ objects) callback out =
    let rest = visit_objects objects callback (callback a out).1 in
    if (callback a out).0 == 0 then rest else (callback a out).1

abbrev pub Visits : Iterate → List ℕ → Type 0
Visits iterate objects =
    (callback : ℕ → Option ℕ → ℕ × Option ℕ) (out : Option ℕ)
    → iterate callback out ≡ visit_objects objects callback out

-- Where `dl_iterate_phdr` visits the main program first, the load bias is the address of the main program,
-- also once it has been read: whatever the other objects are.
pub load_bias-main :
    (os : Os) (checked : Bool) (main : ℕ) (others : List ℕ) (st : Memo)
    → Visits os.dl_iterate_phdr (main ∷ others)
    → (st.slide ≡ none) ⊎ (st.slide ≡ some main)
    → load_bias os checked st ≡ (main, record { slide = some main; unw = st.unw })
unfolding load_bias visit_objects cb
load_bias-main os checked main others st visits (inl fresh) = rw fresh (rw (visits cb none) refl)
load_bias-main os checked main others st visits (inr known) = rw known refl
