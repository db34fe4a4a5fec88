-- ===== src/Jit/Emit/Compile/Ends.antt =====
-- jit.rs: `collect_cells` ends, and `compile_parser` finds a function for every cell.
use bilbo.Base.{
  ℕ, zero, suc, ◌+◌, ◌≤◌, ◌<◌, ◌≡◌, refl, inl, inr, true, false, some, List, [], ◌∷◌, ◌++◌, arith,
  ◌==◌, ==_refl, if◌then◌else◌, Bool-cases, or_left, or_right, Outcome, ok, ◌>>=◌,
}
use bilbo.Plan.{
  RecCell, Ty, Fields, no_fields, field, Cells, cell_body, get_cell, mentions, mentions_fields,
}
use bilbo.Jit.Emit.Compile.{has, collect, collect_fields, collect_cells}
use bilbo.Jit.Emit.Compile.Reach.{has-there, has-before}

-- How many of the bodies that are set belong to cells that are not in `out`.
unfoldable pub unseen : Cells → List RecCell → ℕ
unseen [] out = 0
unseen ((k, ty) ∷ cells) out = (if has k out then 0 else 1) + unseen cells out

-- The cells that the type mentions have a body.
abbrev pub HasBodies : Cells → Ty → Type 0
HasBodies cells ty =
    (id : RecCell) → mentions id ty ≡ true → (body : Ty) × (get_cell id cells ≡ some body)

abbrev pub SetFields : Cells → Fields → Type 0
SetFields cells fs =
    (id : RecCell) → mentions_fields id fs ≡ true → (body : Ty) × (get_cell id cells ≡ some body)

-- So do the cells that the bodies mention.
abbrev pub AreSet : Cells → Type 0
AreSet cells = (id : RecCell) (body : Ty) → get_cell id cells ≡ some body → HasBodies cells body

unseen_mono :
    (cells : Cells) (id : RecCell) (out : List RecCell)
    → unseen cells (out ++ id ∷ []) ≤ unseen cells out
unfolding unseen
unseen_mono [] id out = omega arith
unseen_mono ((k, ty) ∷ cells) id out =
    let rest = unseen_mono cells id out in
    elim (Bool-cases (has k out)) [
      | inl old ↦ let still = has-before id k out old in ground arith
      | inr new ↦ ground arith
    ]

unseen_less :
    (cells : Cells) (id : RecCell) (out : List RecCell) (body : Ty)
    → get_cell id cells ≡ some body
    → has id out ≡ false
    → unseen cells (out ++ id ∷ []) < unseen cells out
unfolding unseen get_cell
unseen_less [] id out body e new = absurd (cc)
unseen_less ((k, ty) ∷ cells) id out body e new = elim (Bool-cases (k == id)) [
  | inl same ↦
      let same_id : k ≡ id = ground arith in
      let there : has k (out ++ id ∷ []) ≡ true = rw same_id (has-there id out) in
      let unseen_k : has k out ≡ false = rw same_id new in
      let rest = unseen_mono cells id out in ground arith
  | inr other ↦
      let rest = unseen_less cells id out body (rw other at e) new in
      elim (Bool-cases (has k out)) [
        | inl old ↦ let still = has-before id k out old in ground arith
        | inr fresh ↦ ground arith
      ]
]

-- A walk that ends, and leaves no more bodies unseen.
abbrev pub Ended : Cells → List RecCell → Outcome (List RecCell) → Type 0
Ended cells out result =
    (out' : List RecCell) × (result ≡ ok out') × (unseen cells out' ≤ unseen cells out)

module _ (cells : Cells) (fuel : ℕ) (enter : RecCell → List RecCell → Outcome (List RecCell))
    (ends : (id : RecCell) (out : List RecCell) (body : Ty)
      → get_cell id cells ≡ some body
      → has id out ≡ false
      → unseen cells out ≤ fuel
      → Ended cells out (enter id (out ++ id ∷ []))) where
  mutual
    unfolding collect mentions

    collect-Ended :
        (ty : Ty) (out : List RecCell)
        → HasBodies cells ty
        → unseen cells out ≤ fuel
        → Ended cells out (collect enter ty out)
    collect-Ended (Ty.ref cell) out known few = elim (Bool-cases (has cell out)) [
      | inl seen ↦ rw seen (out, refl, omega arith)
      | inr new ↦
          let (body, set) = known cell (==_refl cell) in rw new (ends cell out body set new few)
    ]
    collect-Ended (Ty.struct name fs) out known few = collect_fields-Ended fs out known few
    collect-Ended (Ty.tuple fs) out known few = collect_fields-Ended fs out known few
    collect-Ended (Ty.vec elem size align seq) out known few = collect-Ended elem out known few
    collect-Ended (Ty.boxed inner size align) out known few = collect-Ended inner out known few
    collect-Ended (Ty.opt disc_off disc_size none_discr some_discr payload_off size inner) out known
          few =
        collect-Ended inner out known few
    collect-Ended (Ty.map key key_size val val_size new_at insert) out known few =
        let (mid, e1, less1) = collect-Ended key out (λ id h. known id (or_left _ h)) few in
        let (last, e2, less2) =
          collect-Ended val mid (λ id h. known id (or_right _ h)) (omega arith) in
        (last, rw (e1, e2) refl, omega arith)
    collect-Ended Ty.bool out known few = (out, refl, omega arith)
    collect-Ended Ty.char out known few = (out, refl, omega arith)
    collect-Ended Ty.f32 out known few = (out, refl, omega arith)
    collect-Ended Ty.f64 out known few = (out, refl, omega arith)
    collect-Ended Ty.unit out known few = (out, refl, omega arith)
    collect-Ended (Ty.u n) out known few = (out, refl, omega arith)
    collect-Ended (Ty.i n) out known few = (out, refl, omega arith)
    collect-Ended (Ty.str seq) out known few = (out, refl, omega arith)
    collect-Ended (Ty.str_ref p l) out known few = (out, refl, omega arith)
    collect-Ended (Ty.unknown s) out known few = (out, refl, omega arith)

    collect_fields-Ended :
        (fs : Fields) (out : List RecCell)
        → SetFields cells fs
        → unseen cells out ≤ fuel
        → Ended cells out (collect_fields enter fs out)
    collect_fields-Ended no_fields out known few = (out, refl, omega arith)
    collect_fields-Ended (field name offset ty fs) out known few =
        let (mid, e1, less1) = collect-Ended ty out (λ id h. known id (or_left _ h)) few in
        let (last, e2, less2) =
          collect_fields-Ended fs mid (λ id h. known id (or_right _ h)) (omega arith) in
        (last, rw (e1, e2) refl, omega arith)

pub collect_cells-Ended :
    (fuel : ℕ) (cells : Cells) (ty : Ty) (out : List RecCell)
    → AreSet cells
    → HasBodies cells ty
    → unseen cells out < fuel
    → Ended cells out (collect_cells fuel cells ty out)
unfolding collect_cells cell_body
collect_cells-Ended zero cells ty out closed known few = absurd (omega arith)
collect_cells-Ended (suc fuel) cells ty out closed known few =
    collect-Ended cells fuel
      (λ id seen. cell_body id cells >>= λ body. collect_cells fuel cells body seen)
      (λ id old body set new room.
        let fewer = unseen_less cells id old body set new in
        let got : cell_body id cells ≡ ok body = rw (cell_body, set) refl in
        let (last, e, less) =
          collect_cells-Ended fuel cells body (old ++ id ∷ []) closed (closed id body set)
            (omega arith) in
        (last, rw (got, e) refl, omega arith))
      ty out known (omega arith)
