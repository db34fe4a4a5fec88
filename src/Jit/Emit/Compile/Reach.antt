-- ===== src/Jit/Emit/Compile/Reach.antt =====
-- jit.rs: `collect_cells` finds every cell that is reachable, and ends.
use bilbo.Base.{
  ℕ, zero, suc, ◌≡◌, ◌⊎◌, inl, inr, true, List, [], ◌∷◌, ◌++◌, arith, ◌==◌, Bool-cases, or-cases,
  Outcome, ok, ◌>>=◌, >>=-eq-ok,
}
use bilbo.Plan.{RecCell, Ty, Fields, no_fields, field, Cells, cell_body, mentions, mentions_fields}
use bilbo.Jit.Emit.Compile.{has, collect, collect_fields, collect_cells}

abbrev pub Sub : List RecCell → List RecCell → Type 0
Sub out out' = (id : RecCell) → has id out ≡ true → has id out' ≡ true

-- The cells that the type mentions are there.
abbrev pub Covers : List RecCell → Ty → Type 0
Covers out ty = (id : RecCell) → mentions id ty ≡ true → has id out ≡ true

abbrev pub CoversFields : List RecCell → Fields → Type 0
CoversFields out fs = (id : RecCell) → mentions_fields id fs ≡ true → has id out ≡ true

-- The cell's body is set, and the cells that it mentions are there.
abbrev pub IsClosed : Cells → List RecCell → RecCell → Type 0
IsClosed cells out id = (body : Ty) × (cell_body id cells ≡ ok body) × Covers out body

-- What a walk from `out` to `out'` has done.
pub record Walked (cells : Cells) (out out' : List RecCell) : Type 0 where
  pub grows : Sub out out'
  pub closed : (id : RecCell) → has id out' ≡ true → (has id out ≡ true) ⊎ IsClosed cells out' id

Walked-refl : (cells : Cells) (out : List RecCell) → Walked cells out out
Walked-refl cells out = record { grows = λ id h. h; closed = λ id h. inl h }

Walked-trans :
    {cells : Cells} {a b c : List RecCell} → Walked cells a b → Walked cells b c → Walked cells a c
Walked-trans p q = record {
  grows = λ id h. q.grows id (p.grows id h);
  closed = λ id h. elim (q.closed id h) [
    | inr new ↦ inr new
    | inl old ↦ elim (p.closed id old) [
      | inl first ↦ inl first
      | inr (body, set, covers) ↦ inr (body, set, λ j k. q.grows j (covers j k))
    ]
  ];
}

module _ (cells : Cells) (enter : RecCell → List RecCell → Outcome (List RecCell))
    (good : (id : RecCell) (out out' : List RecCell)
      → enter id (out ++ id ∷ []) ≡ ok out'
      → Walked cells out out' × (has id out' ≡ true)) where
  mutual
    unfolding collect mentions

    collect-Walked :
        (ty : Ty) (out out' : List RecCell)
        → collect enter ty out ≡ ok out'
        → Walked cells out out' × Covers out' ty
    collect-Walked (Ty.ref cell) out out' e = elim (Bool-cases (has cell out)) [
      | inl seen ↦
          let done : out ≡ out' = cc (rw seen at e) in
          rw (← done) (
            Walked-refl cells out,
            λ id h. let same_id : cell ≡ id = ground arith in rw (← same_id) seen,
          )
      | inr new ↦
          let (walked, there) = good cell out out' (rw new at e) in
          (walked, λ id h. let same_id : cell ≡ id = ground arith in rw (← same_id) there)
    ]
    collect-Walked (Ty.struct name fs) out out' e = collect_fields-Walked fs out out' e
    collect-Walked (Ty.tuple fs) out out' e = collect_fields-Walked fs out out' e
    collect-Walked (Ty.vec elem size align seq) out out' e = collect-Walked elem out out' e
    collect-Walked (Ty.boxed inner size align) out out' e = collect-Walked inner out out' e
    collect-Walked (Ty.opt disc_off disc_size none_discr some_discr payload_off size inner) out out'
          e =
        collect-Walked inner out out' e
    collect-Walked (Ty.map key key_size val val_size new_at insert) out out' e =
        let (mid, e1, e2) = >>=-eq-ok (collect enter key out) _ e in
        let (w1, c1) = collect-Walked key out mid e1 in
        let (w2, c2) = collect-Walked val mid out' e2 in
        (
          Walked-trans w1 w2,
          λ id h. elim (or-cases (mentions id key) _ h) [
            | inl k ↦ w2.grows id (c1 id k)
            | inr v ↦ c2 id v
          ],
        )
    collect-Walked Ty.bool out out' e =
        let done : out ≡ out' = cc in rw (← done) (Walked-refl cells out, λ id h. cc)
    collect-Walked Ty.char out out' e =
        let done : out ≡ out' = cc in rw (← done) (Walked-refl cells out, λ id h. cc)
    collect-Walked Ty.f32 out out' e =
        let done : out ≡ out' = cc in rw (← done) (Walked-refl cells out, λ id h. cc)
    collect-Walked Ty.f64 out out' e =
        let done : out ≡ out' = cc in rw (← done) (Walked-refl cells out, λ id h. cc)
    collect-Walked Ty.unit out out' e =
        let done : out ≡ out' = cc in rw (← done) (Walked-refl cells out, λ id h. cc)
    collect-Walked (Ty.u n) out out' e =
        let done : out ≡ out' = cc in rw (← done) (Walked-refl cells out, λ id h. cc)
    collect-Walked (Ty.i n) out out' e =
        let done : out ≡ out' = cc in rw (← done) (Walked-refl cells out, λ id h. cc)
    collect-Walked (Ty.str seq) out out' e =
        let done : out ≡ out' = cc in rw (← done) (Walked-refl cells out, λ id h. cc)
    collect-Walked (Ty.str_ref p l) out out' e =
        let done : out ≡ out' = cc in rw (← done) (Walked-refl cells out, λ id h. cc)
    collect-Walked (Ty.unknown s) out out' e =
        let done : out ≡ out' = cc in rw (← done) (Walked-refl cells out, λ id h. cc)

    collect_fields-Walked :
        (fs : Fields) (out out' : List RecCell)
        → collect_fields enter fs out ≡ ok out'
        → Walked cells out out' × CoversFields out' fs
    collect_fields-Walked no_fields out out' e =
        let done : out ≡ out' = cc in rw (← done) (Walked-refl cells out, λ id h. cc)
    collect_fields-Walked (field name offset ty fs) out out' e =
        let (mid, e1, e2) = >>=-eq-ok (collect enter ty out) _ e in
        let (w1, c1) = collect-Walked ty out mid e1 in
        let (w2, c2) = collect_fields-Walked fs mid out' e2 in
        (
          Walked-trans w1 w2,
          λ id h. elim (or-cases (mentions id ty) _ h) [
            | inl here ↦ w2.grows id (c1 id here)
            | inr later ↦ c2 id later
          ],
        )

pub has-there : (id : RecCell) (out : List RecCell) → has id (out ++ id ∷ []) ≡ true
has-there id [] = ground arith
has-there id (c ∷ out) = let rest = has-there id out in ground arith

pub has-before :
    (id j : RecCell) (out : List RecCell) → has j out ≡ true → has j (out ++ id ∷ []) ≡ true
has-before id j [] h = cc
has-before id j (c ∷ out) h = elim (or-cases (c == j) _ h) [
  | inl e ↦ ground arith
  | inr e ↦ let rest = has-before id j out e in ground arith
]

has-split :
    (id j : RecCell) (out : List RecCell)
    → has j (out ++ id ∷ []) ≡ true
    → (has j out ≡ true) ⊎ (j ≡ id)
has-split id j [] h = inr (ground arith)
has-split id j (c ∷ out) h = elim (or-cases (c == j) _ h) [
  | inl e ↦ inl (ground arith)
  | inr e ↦ elim (has-split id j out e) [ inl old ↦ inl (ground arith) | inr new ↦ inr new ]
]

-- What the walk from a type has found: the cells from before, the type's own, and with a new cell all
-- that its body mentions.
pub collect_cells-Walked :
    (fuel : ℕ) (cells : Cells) (ty : Ty) (out out' : List RecCell)
    → collect_cells fuel cells ty out ≡ ok out'
    → Walked cells out out' × Covers out' ty
unfolding collect_cells
collect_cells-Walked zero cells ty out out' e = absurd (cc)
collect_cells-Walked (suc fuel) cells ty out out' e =
    collect-Walked cells
      (λ id seen. cell_body id cells >>= λ body. collect_cells fuel cells body seen)
      (λ id old new h.
        let (body, set, walk) = >>=-eq-ok (cell_body id cells) _ h in
        let (walked, covers) = collect_cells-Walked fuel cells body (old ++ id ∷ []) new walk in
        (
          record {
            grows = λ j k. walked.grows j (has-before id j old k);
            closed = λ j k. elim (walked.closed j k) [
              | inr done ↦ inr done
              | inl before ↦ elim (has-split id j old before) [
                | inl first ↦ inl first
                | inr same ↦ inr (rw same (body, set, covers))
              ]
            ];
          },
          walked.grows id (has-there id old),
        ))
      ty out out' e
