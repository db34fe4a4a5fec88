-- ===== src/Dwarf/Locals/Best.antt =====
-- Which of a frame's variables `local_at_address` picks.
use bilbo.Base.{
  ℕ, ◌≡◌, refl, ◌∙◌, sym, ap, Bool, true, false, ◌&&◌, ◌⊎◌, inl, inr, Option, none, some, List, [],
  ◌∷◌, ◌++◌, append-nil, append_assoc, Bool-cases, arith, ◌==◌, if◌then◌else◌, length, all, same,
  same_refl, same→eq, ok,
}
use mathlib.Core.Path.{subst}
use bilbo.Json.Value.{Text}
use bilbo.Dwarf.Die.{Off, At, Value, DwarfUnit, attr}
use bilbo.Dwarf.Locals.{
  DwarfRegs, Local, Hunt, new_hunt, is_maybe_uninit, at_ptr, or_else, Fact, visit, is_one_of,
  distinct, sole_maybe_uninit, frame_base_of, local_at_address,
}
use bilbo.Dwarf.Locals.Survey.{survey, facts, scan-survey}

-- The variable, if it is a `MaybeUninit` at the address.
abbrev pub wanted : ℕ → Fact → Option Local
wanted ptr v = elim v.ty [
  | none ↦ none
  | some ty ↦ if at_ptr ptr v.addr && is_maybe_uninit v.tn then some (v.name, ty) else none
]

-- The variable, if it is at the address.
abbrev pub aliased : ℕ → Fact → Option Local
aliased ptr v = elim v.ty [
  | none ↦ none
  | some ty ↦ if at_ptr ptr v.addr then some (v.name, ty) else none
]

abbrev pub first_that {ℓ κ} : {A : Type ℓ} {B : Type κ} → (A → Option B) → List A → Option B
first_that p [] = none
first_that p (x ∷ xs) = or_else (p x) (first_that p xs)

-- The `MaybeUninit` variables, wherever they are.
abbrev pub maybe_uninits : List Fact → List (Text × Text × Off)
maybe_uninits [] = []
maybe_uninits (v ∷ vs) =
    (elim v.ty [
      | none ↦ []
      | some ty ↦ if is_maybe_uninit v.tn then (v.name, v.tn, ty) ∷ [] else []
    ])
    ++ maybe_uninits vs

-- The first of them, if all have the type's name in common.
abbrev pub unanimous : List (Text × Text × Off) → Option Local
unanimous [] = none
unanimous ((vn, tn, ty) ∷ mu) = if all (λ m. same m.1 tn) mu then some (vn, ty) else none

-- A `MaybeUninit` at the address, or any variable there, or the only type of `MaybeUninit`.
abbrev pub best : ℕ → List Fact → Option Local
best ptr vs =
    or_else (first_that (wanted ptr) vs)
      (or_else (first_that (aliased ptr) vs) (unanimous (maybe_uninits vs)))

pick : Option Local × Hunt → Option Local
pick (hit, h) = or_else hit (or_else h.fallback (sole_maybe_uninit h.mu))

or_else_assoc {ℓ} :
    {A : Type ℓ} (a b c : Option A) → or_else (or_else a b) c ≡ or_else a (or_else b c)
or_else_assoc none b c = refl
or_else_assoc (some a) b c = refl

append-or_else : (o p : Option Local) → or_else (or_else o p) none ≡ or_else o p
append-or_else none none = refl
append-or_else none (some l) = refl
append-or_else (some l) p = refl

-- What is picked after one pass over the variables, from any state of the hunt.
Picks : ℕ → List Fact → Type 0
Picks ptr vs =
    (h : Hunt)
    → pick (survey ptr vs h)
      ≡ or_else (first_that (wanted ptr) vs) (
          or_else h.fallback
            (or_else (first_that (aliased ptr) vs) (sole_maybe_uninit (h.mu ++ maybe_uninits vs))))

Picks-cons :
    (ptr : ℕ) (name : Text) (ty : Option Off) (tn : Text) (expr : Option Text) (addr : Option ℕ)
    (vs : List Fact)
    → Picks ptr vs
    → Picks ptr (record { name = name; ty = ty; tn = tn; expr = expr; addr = addr } ∷ vs)
unfolding Picks pick survey visit
Picks-cons ptr name none tn expr addr vs ih h = ih _
Picks-cons ptr name (some ty) tn expr addr vs ih h = elim (Bool-cases (at_ptr ptr addr)) [
  | inl there ↦ elim (Bool-cases (is_maybe_uninit tn)) [
    | inl mu ↦ rw (there, mu) refl
    | inr plain ↦ rw (there, plain) (ih _ ∙ rw or_else_assoc refl)
  ]
  | inr elsewhere ↦ elim (Bool-cases (is_maybe_uninit tn)) [
    | inl mu ↦ rw (elsewhere, mu) (ih _ ∙ rw append_assoc refl)
    | inr plain ↦ rw (elsewhere, plain) (ih _)
  ]
]

pick-survey : (ptr : ℕ) (vs : List Fact) → Picks ptr vs
unfolding Picks pick survey
pick-survey ptr [] h = rw append-nil refl
pick-survey ptr (v ∷ vs) h = Picks-cons ptr v.name v.ty v.tn v.expr v.addr vs (pick-survey ptr vs) h

all_mono {ℓ} :
    {A : Type ℓ} (p q : A → Bool) (xs : List A)
    → ((x : A) → p x ≡ true → q x ≡ true)
    → all p xs ≡ true
    → all q xs ≡ true
all_mono p q [] le h = refl
all_mono p q (x ∷ xs) le h = elim (Bool-cases (p x)) [
  | inl e ↦ rw (le x e) (all_mono p q xs le (rw e at h))
  | inr e ↦ absurd (cc (rw e at h))
]

is_one_of-cons : (s t : Text) (ss : List Text) → is_one_of s ss ≡ true → is_one_of s (t ∷ ss) ≡ true
is_one_of-cons s t ss h = elim (Bool-cases (same s t)) [ inl e ↦ rw e refl | inr e ↦ rw e h ]

-- Each name is one of the distinct names.
distinct-all : (mu : List (Text × Text × Off)) → all (λ m. is_one_of m.1 (distinct mu)) mu ≡ true
unfolding distinct
distinct-all [] = refl
distinct-all ((vn, tn, ty) ∷ mu) = elim (Bool-cases (is_one_of tn (distinct mu))) [
  | inl old ↦
      let d : distinct ((vn, tn, ty) ∷ mu) ≡ distinct mu = rw old refl in
      subst (λ ds. all (λ m. is_one_of m.1 ds) ((vn, tn, ty) ∷ mu) ≡ true) (sym d)
        (rw old (distinct-all mu))
  | inr new ↦
      let d : distinct ((vn, tn, ty) ∷ mu) ≡ tn ∷ distinct mu = rw new refl in
      subst (λ ds. all (λ m. is_one_of m.1 ds) ((vn, tn, ty) ∷ mu) ≡ true) (sym d)
        (rw (same_refl tn)
          (all_mono _ _ mu (λ m. is_one_of-cons m.1 tn (distinct mu)) (distinct-all mu)))
]

-- Where all names are `tn`, it is the only distinct one.
distinct-same :
    (tn : Text) (mu : List (Text × Text × Off))
    → all (λ m. same m.1 tn) mu ≡ true
    → (distinct mu ≡ []) ⊎ (distinct mu ≡ tn ∷ [])
unfolding distinct
distinct-same tn [] h = inl refl
distinct-same tn ((vn, s, ty) ∷ mu) h = elim (Bool-cases (same s tn)) [
  | inr other ↦ absurd (cc (rw other at h))
  | inl e ↦
      let s_tn = same→eq s tn e in
      inr (elim (distinct-same tn mu (rw e at h)) [
        | inl none_yet ↦ rw none_yet (rw s_tn refl)
        | inr one ↦ rw one (rw e (refl))
      ])
]

is_one_of-one : (a s : Text) → is_one_of a (s ∷ []) ≡ true → a ≡ s
is_one_of-one a s h = elim (Bool-cases (same a s)) [
  | inl e ↦ same→eq a s e
  | inr e ↦ absurd (cc (rw e at h))
]

-- Where there is one distinct name, it is everyone's.
one-same :
    (tn : Text) (mu : List (Text × Text × Off)) (ds : List Text)
    → (length ds == 1) ≡ true
    → is_one_of tn ds ≡ true
    → all (λ m. is_one_of m.1 ds) mu ≡ true
    → all (λ m. same m.1 tn) mu ≡ true
one-same tn mu [] l h hs = cc
one-same tn mu (s ∷ t ∷ ds) l h hs = absurd (ground arith)
one-same tn mu (s ∷ []) l h hs =
    all_mono _ _ mu
      (λ m hm.
        let e : m.1 ≡ tn = is_one_of-one m.1 s hm ∙ sym (is_one_of-one tn s h) in
        rw e (same_refl tn))
      hs

and-both : (a b : Bool) → (a && b) ≡ true → (a ≡ true) × (b ≡ true)
and-both true b h = (refl, h)
and-both false b h = cc

sole_maybe_uninit-unanimous : (mu : List (Text × Text × Off)) → sole_maybe_uninit mu ≡ unanimous mu
unfolding sole_maybe_uninit distinct
sole_maybe_uninit-unanimous [] = refl
sole_maybe_uninit-unanimous ((vn, tn, ty) ∷ mu) = elim (Bool-cases (all (λ m. same m.1 tn) mu)) [
  | inl agree ↦ rw agree (elim (distinct-same tn mu agree) [
    | inl e ↦ rw e refl
    | inr e ↦ rw e (rw (same_refl tn) refl)
  ])
  | inr differ ↦ rw differ (elim (Bool-cases (length (distinct ((vn, tn, ty) ∷ mu)) == 1)) [
    | inr many ↦ rw many refl
    | inl one ↦
        let (h, hs) = and-both _ _ (distinct-all ((vn, tn, ty) ∷ mu)) in
        absurd (cc (one-same tn mu _ one h hs))
  ])
]

-- Where the frame base is understood and every variable's entry can be read, `local_at_address`
-- returns the first `MaybeUninit` at the address, else the first variable at it, else the first
-- `MaybeUninit` of the frame if all of them have one type name; and `none` otherwise.
pub local_at_address-best :
    (ops : DwarfRegs) (unit : DwarfUnit) (f sp caller_fp caller_sp pc ptr b : ℕ) (e : Text)
    (vs : List Fact)
    → attr unit sp At.frame_base ≡ some (Value.exprloc e)
    → frame_base_of ops caller_fp caller_sp e ≡ ok (some b)
    → facts ops unit f (record { fp = caller_fp; sp = caller_sp; frame_base = b }) pc ptr 33 sp
      ≡ ok vs
    → local_at_address ops unit f sp caller_fp caller_sp pc ptr ≡ ok (best ptr vs)
unfolding local_at_address pick Picks
local_at_address-best ops unit f sp fp csp pc ptr b e vs he hb hv =
    rw (he, local_at_address)
      (rw hb (
        rw (scan-survey ops unit f _ pc ptr 33 sp vs new_hunt hv) (
          ap ok (
            pick-survey ptr vs new_hunt
            ∙ rw (sole_maybe_uninit-unanimous (maybe_uninits vs)) refl))))
