-- ===== src/Resolve/Hits.antt =====
-- resolve.rs: what holds of the two caches between calls.
use bilbo.Base.{
  expect-some, ℕ, ◌≡◌, refl, sym, ap, true, ◌⊎◌, none, some, List, ◌∷◌, inl, inr, Bool-cases,
  Option-cases, arith, ◌==◌, ==_refl, Outcome, ok, expect, >>=-eq-ok,
}
use mathlib.Core.Path.{subst}
use bilbo.Dwarf.Index.{Site}
use bilbo.Dwarf.Classify.{classify}
use bilbo.Dwarf.Classify.Memo.{new_state, same_site}
use bilbo.Platform.{Caller}
use bilbo.Resolve.{
  Resolved, Caches, find_l1, find_l2, Process, type_key, classified, or_classify, resolved,
}

-- A resolved type without its artifact.
abbrev pub bare {ℓ} : {E : Type ℓ} → Resolved E → Resolved E
bare r = record { ty = r.ty; cells = r.cells; ext = none }

-- Every call site that is known has its type present.
abbrev pub Present {ℓ} : {E : Type ℓ} → Caches E → Type ℓ
Present {E} s =
    (pc : ℕ) (tk : Site) → find_l1 pc s.l1 ≡ some tk → (r : Resolved E) × (find_l2 tk s.l2 ≡ some r)

-- Every type that is present is what the walk makes of its key.
abbrev pub Classified {ℓ} : {E : Type ℓ} → Process → Caches E → Type ℓ
Classified {E} p s =
    (tk : Site) (r : Resolved E) → find_l2 tk s.l2 ≡ some r → classified p tk ≡ ok (bare r)

abbrev pub IsValid {ℓ} : {E : Type ℓ} → Process → Caches E → Type ℓ
IsValid p s = Present s × Classified p s

same_site_refl : (k : Site) → same_site k k ≡ true
same_site_refl (a, b) = ground (arith, ==_refl a, ==_refl b)

pub same_site→eq : (j k : Site) → same_site j k ≡ true → j ≡ k
same_site→eq (a, b) (c, d) h = let e : a ≡ c = ground arith in let e' : b ≡ d = ground arith in cc

find_l1-front : (pc : ℕ) (tk : Site) (l1 : List (ℕ × Site)) → find_l1 pc ((pc, tk) ∷ l1) ≡ some tk
unfolding find_l1
find_l1-front pc tk l1 = rw (==_refl pc) refl

pub find_l1-cons :
    (pc c : ℕ) (tk k : Site) (l1 : List (ℕ × Site))
    → find_l1 c ((pc, tk) ∷ l1) ≡ some k
    → (tk ≡ k) ⊎ (find_l1 c l1 ≡ some k)
unfolding find_l1
find_l1-cons pc c tk k l1 h = elim (Bool-cases (pc == c)) [
  | inl e ↦ inl (cc (rw e at h))
  | inr other ↦ inr (rw other at h)
]

module _ {ℓ} {E : Type ℓ} where
  pub find_l2-front :
      (tk : Site) (r : Resolved E) (l2 : List (Site × Resolved E))
      → find_l2 tk ((tk, r) ∷ l2) ≡ some r
  unfolding find_l2
  find_l2-front tk r l2 = rw (same_site_refl tk) refl

  -- A miss is filled without hiding another entry.
  pub find_l2-miss :
      (tk k : Site) (r q : Resolved E) (l2 : List (Site × Resolved E))
      → find_l2 tk l2 ≡ none
      → find_l2 k l2 ≡ some q
      → find_l2 k ((tk, r) ∷ l2) ≡ some q
  unfolding find_l2
  find_l2-miss tk k r q l2 miss hit = elim (Bool-cases (same_site tk k)) [
    | inr other ↦ rw other hit
    | inl e ↦ let here = ap (λ j. find_l2 j l2) (same_site→eq tk k e) in absurd (cc)
  ]

  pub find_l2-cons :
      (tk k : Site) (r q : Resolved E) (l2 : List (Site × Resolved E))
      → find_l2 k ((tk, r) ∷ l2) ≡ some q
      → ((tk ≡ k) × (r ≡ q)) ⊎ (find_l2 k l2 ≡ some q)
  unfolding find_l2
  find_l2-cons tk k r q l2 h = elim (Bool-cases (same_site tk k)) [
    | inl e ↦ inl (same_site→eq tk k e, cc (rw e at h))
    | inr other ↦ inr (rw other at h)
  ]

  -- What `or_classify` does: the entry was there, or it was made and put in front.
  pub or_classify-cases :
      (p : Process) (tk : Site) (l2 l2' : List (Site × Resolved E)) (r : Resolved E)
      → or_classify p tk l2 ≡ ok (r, l2')
      → ((find_l2 tk l2 ≡ some r) × (l2' ≡ l2))
        ⊎ ((find_l2 tk l2 ≡ none) × (classified p tk ≡ ok r) × (l2' ≡ (tk, r) ∷ l2))
  unfolding or_classify
  or_classify-cases p tk l2 l2' r h = elim (Option-cases (find_l2 tk l2)) [
    | inr (q, hit) ↦ let e = rw (hit, or_classify) at h in inl (cc, cc)
    | inl miss ↦
        let (q, made, e) = >>=-eq-ok (classified p tk) _ (rw (miss, or_classify) at h) in
        inr (miss, cc, cc)
  ]

  pub classified-bare :
      (p : Process) (tk : Site) (r : Resolved E) → classified p tk ≡ ok r → bare r ≡ r
  unfolding classified
  classified-bare p tk r h =
      let (made, e, k) = >>=-eq-ok (classify p.store p.fuel p.slide p.fuel tk new_state) _ h in cc

  module _ (p : Process) (tk : Site) (l2 l2' : List (Site × Resolved E)) (r : Resolved E)
      (h : or_classify p tk l2 ≡ ok (r, l2')) where
    pub or_classify-present : find_l2 tk l2' ≡ some r
    or_classify-present = elim (or_classify-cases p tk l2 l2' r h) [
      | inl (hit, e) ↦ rw e hit
      | inr (miss, made, e) ↦ rw e (find_l2-front tk r l2)
    ]

    or_classify-keeps : (k : Site) (q : Resolved E) → find_l2 k l2 ≡ some q → find_l2 k l2' ≡ some q
    or_classify-keeps k q there = elim (or_classify-cases p tk l2 l2' r h) [
      | inl (hit, e) ↦ rw e there
      | inr (miss, made, e) ↦ rw e (find_l2-miss tk k r q l2 miss there)
    ]

    or_classify-only :
        (k : Site) (q : Resolved E)
        → find_l2 k l2' ≡ some q
        → (classified p k ≡ ok (bare q)) ⊎ (find_l2 k l2 ≡ some q)
    or_classify-only k q there = elim (or_classify-cases p tk l2 l2' r h) [
      | inl (hit, e) ↦ inr (rw e at there)
      | inr (miss, made, e) ↦ elim (find_l2-cons tk k r q l2 (rw e at there)) [
        | inr old ↦ inr old
        | inl (same_key, same_entry) ↦
            let plain = classified-bare p tk r made in
            inl (rw (← same_key) (rw (← same_entry) (rw plain made)))
      ]
    ]

  -- The cases of `resolved`: a known call site, or a new one.
  pub resolved-cases :
      (p : Process) (pc ptr : ℕ) (caller : Outcome Caller) (s s' : Caches E) (tk : Site)
      (r : Resolved E)
      → resolved p pc caller ptr s ≡ ok (tk, r, s')
      → ((find_l1 pc s.l1 ≡ some tk) × (find_l2 tk s.l2 ≡ some r) × (s' ≡ s))
        ⊎ ((find_l1 pc s.l1 ≡ none)
            × (or_classify p tk s.l2 ≡ ok (r, s'.l2))
            × (s'.l1 ≡ (pc, tk) ∷ s.l1))
  unfolding resolved
  resolved-cases p pc ptr caller s s' tk r h = elim (Option-cases (find_l1 pc s.l1)) [
    | inr (k, hit) ↦
        let (q, present, e) = >>=-eq-ok (expect (find_l2 k s.l2)) _ (rw (hit, resolved) at h) in
        let found = expect-some (find_l2 k s.l2) q present in inl (cc, cc, cc)
    | inl miss ↦
        let (k, key, e) = >>=-eq-ok (type_key p caller ptr) _ (rw (miss, resolved) at h) in
        let (q, made, e') = >>=-eq-ok (or_classify p k s.l2) _ e in inr (miss, cc, cc)
  ]

  -- From caches that are valid, `resolved` never finds a call site without its type: it returns what
  -- the walk makes of the type's key, and leaves valid caches behind.
  pub resolved-IsValid :
      (p : Process) (pc ptr : ℕ) (caller : Outcome Caller) (s s' : Caches E) (tk : Site)
      (r : Resolved E)
      → IsValid p s
      → resolved p pc caller ptr s ≡ ok (tk, r, s')
      → (classified p tk ≡ ok (bare r)) × IsValid p s'
  resolved-IsValid p pc ptr caller s s' tk r (present, sound) h =
      elim (resolved-cases p pc ptr caller s s' tk r h) [
        | inl (known, hit, e) ↦ (sound tk r hit, rw e (present, sound))
        | inr (miss, made, e) ↦
            let here = or_classify-present p tk s.l2 s'.l2 r made in
            let keeps = or_classify-keeps p tk s.l2 s'.l2 r made in
            let only : Classified p s' = λ k q there.
              elim (or_classify-only p tk s.l2 s'.l2 r made k q there) [
                | inl new ↦ new
                | inr old ↦ sound k q old
              ] in
            (
              only tk r here,
              (
                (λ c k known. elim (find_l1-cons pc c tk k s.l1 (rw e at known)) [
                  | inl same_key ↦ (r, rw (← same_key) here)
                  | inr old ↦ let (q, there) = present c k old in (q, keeps k q there)
                ]),
                only,
              ),
            )
      ]

  -- A call site that has been resolved once is answered from the caches: whatever the frame and the
  -- pointer are by then, the answer is the same and the caches stay as they are.
  pub resolved-again :
      (p : Process) (pc ptr ptr' : ℕ) (caller caller' : Outcome Caller) (s s' : Caches E)
      (tk : Site) (r : Resolved E)
      → resolved p pc caller ptr s ≡ ok (tk, r, s')
      → resolved p pc caller' ptr' s' ≡ ok (tk, r, s')
  unfolding resolved
  resolved-again p pc ptr ptr' caller caller' s s' tk r h =
      elim (resolved-cases p pc ptr caller s s' tk r h) [
        | inl (known, hit, e) ↦
            let again : resolved p pc caller' ptr' s ≡ ok (tk, r, s) =
              rw (known, resolved) (rw hit refl) in
            subst (λ c. resolved p pc caller' ptr' c ≡ ok (tk, r, c)) (sym e) again
        | inr (miss, made, e) ↦
            let known : find_l1 pc s'.l1 ≡ some tk = rw e (find_l1-front pc tk s.l1) in
            rw (known, resolved) (rw (or_classify-present p tk s.l2 s'.l2 r made) refl)
      ]
