-- ===== src/Dwarf/Locals/Survey.antt =====
-- The scan of a frame's variables, as one pass over what it learns of them.
use bilbo.Base.{
  ℕ, zero, suc, ◌≡◌, refl, ◌∙◌, sym, inl, inr, Option, none, some, List, [], ◌∷◌, ◌++◌, Bool-cases,
  if◌then◌else◌, Outcome, ok, ◌>>=◌, >>=-eq-ok,
}
use bilbo.Dwarf.Die.{Off, Tag, DwarfUnit, child_offsets, tag}
use bilbo.Dwarf.Locals.{
  DwarfRegs, Regs, Local, Hunt, Fact, visit, is_scope, is_variable, inspect, scan_child,
  scan_children, scan,
}

-- A hit ends the loop.
abbrev pub proceed : Option Local × Hunt → (Hunt → Option Local × Hunt) → Option Local × Hunt
proceed (some l, h) k = (some l, h)
proceed (none, h) k = k h

-- The loop of `scan` over what it learns of the variables, without the walk.
unfoldable pub survey : (ptr : ℕ) → List Fact → Hunt → Option Local × Hunt
survey ptr [] h = (none, h)
survey ptr (v ∷ vs) h = proceed (visit ptr v h) (survey ptr vs)

proceed-cong :
    (r : Option Local × Hunt) (k l : Hunt → Option Local × Hunt)
    → ((h : Hunt) → k h ≡ l h)
    → proceed r k ≡ proceed r l
proceed-cong (some l, h) k l' e = refl
proceed-cong (none, h) k l' e = e h

proceed-proceed :
    (r : Option Local × Hunt) (k l : Hunt → Option Local × Hunt)
    → proceed (proceed r k) l ≡ proceed r (λ h. proceed (k h) l)
proceed-proceed (some l, h) k l' = refl
proceed-proceed (none, h) k l' = refl

survey-append :
    (ptr : ℕ) (vs ws : List Fact) (h : Hunt)
    → survey ptr (vs ++ ws) h ≡ proceed (survey ptr vs h) (survey ptr ws)
unfolding survey
survey-append ptr [] ws h = refl
survey-append ptr (v ∷ vs) ws h =
    proceed-cong (visit ptr v h) _ _ (survey-append ptr vs ws)
    ∙ sym (proceed-proceed (visit ptr v h) (survey ptr vs) (survey ptr ws))

proceed-none : (r : Option Local × Hunt) → proceed r (λ h. (none, h)) ≡ r
proceed-none (some l, h) = refl
proceed-none (none, h) = refl

proceed-ok :
    (r : Option Local × Hunt) (k : Hunt → Outcome (Option Local × Hunt))
    (l : Hunt → Option Local × Hunt)
    → ((h : Hunt) → k h ≡ ok (l h))
    → (elim r.0 [ some l ↦ ok r | none ↦ k r.1 ]) ≡ ok (proceed r l)
proceed-ok (some l, h) k l' e = refl
proceed-ok (none, h) k l' e = e h

module _ (ops : DwarfRegs) (unit : DwarfUnit) (f : ℕ) (regs : Regs) (pc ptr : ℕ) where
  unfoldable pub facts_child : (Off → Outcome (List Fact)) → Off → Tag → Outcome (List Fact)
  facts_child enter off t =
      if is_scope t
      then enter off
      else if is_variable t
      then (inspect ops unit f regs pc ptr off >>= λ v. ok (v ∷ []))
      else ok []

  unfoldable pub facts_children : (Off → Outcome (List Fact)) → List Off → Outcome (List Fact)
  facts_children enter [] = ok []
  facts_children enter (off ∷ offs) = do
    t ← tag unit off
    here ← facts_child enter off t
    rest ← facts_children enter offs
    ok (here ++ rest)

  -- The variables of a scope and of the scopes inside it, in order.
  unfoldable pub facts : (room : ℕ) → Off → Outcome (List Fact)
  facts zero parent = ok []
  facts (suc room) parent = facts_children (facts room) (child_offsets unit parent)

  Surveys : (Off → Hunt → Outcome (Option Local × Hunt)) → (Off → Outcome (List Fact)) → Type 0
  Surveys enter collect =
      (off : Off) (vs : List Fact) (h : Hunt)
      → collect off ≡ ok vs
      → enter off h ≡ ok (survey ptr vs h)

  survey-nil :
      (h : Hunt) → ◌≡◌ {A = Outcome (Option Local × Hunt)} (ok (none, h)) (ok (survey ptr [] h))
  unfolding survey
  survey-nil h = refl

  survey-one : (v : Fact) (h : Hunt) → survey ptr (v ∷ []) h ≡ visit ptr v h
  unfolding survey
  survey-one v h = proceed-none (visit ptr v h)

  scan_child-survey :
      (enter : Off → Hunt → Outcome (Option Local × Hunt)) (collect : Off → Outcome (List Fact))
      → Surveys enter collect
      → (off : Off) (t : Tag) (vs : List Fact) (h : Hunt) → facts_child collect off t ≡ ok vs
      → scan_child ops unit f regs pc ptr enter off t h ≡ ok (survey ptr vs h)
  unfolding Surveys facts_child scan_child survey
  scan_child-survey enter collect s off t vs h e = elim (Bool-cases (is_scope t)) [
    | inl scope ↦ rw scope (s off vs h (rw scope at e))
    | inr no_scope ↦ elim (Bool-cases (is_variable t)) [
      | inl variable ↦
          let (v, ev, e') =
            >>=-eq-ok (inspect ops unit f regs pc ptr off) _ (rw (no_scope, variable) at e) in
          let one : vs ≡ v ∷ [] = cc in
          rw (no_scope, variable) (rw ev (rw one (rw (survey-one v h))))
      | inr other ↦
          let none_here : vs ≡ [] = cc (rw (no_scope, other) at e) in
          rw (no_scope, other) (rw none_here refl)
    ]
  ]

  scan_children-survey :
      (enter : Off → Hunt → Outcome (Option Local × Hunt)) (collect : Off → Outcome (List Fact))
      → Surveys enter collect
      → (offs : List Off) (vs : List Fact) (h : Hunt) → facts_children collect offs ≡ ok vs
      → scan_children ops unit f regs pc ptr enter offs h ≡ ok (survey ptr vs h)
  unfolding facts_children scan_children
  scan_children-survey enter collect s [] vs h e =
      let nothing : vs ≡ [] = cc in rw nothing (survey-nil h)
  scan_children-survey enter collect s (off ∷ offs) vs h e =
      let (t, et, e1) = >>=-eq-ok (tag unit off) _ e in
      let (here, eh, e2) = >>=-eq-ok (facts_child collect off t) _ e1 in
      let (rest, er, e3) = >>=-eq-ok (facts_children collect offs) _ e2 in
      let parts : vs ≡ here ++ rest = cc in
      rw et (
        rw (scan_child-survey enter collect s off t here h eh) (
          rw parts (
            rw (survey-append ptr here rest h) (
              proceed-ok (survey ptr here h) _ (survey ptr rest)
                (λ h'. scan_children-survey enter collect s offs rest h' er)))))

  pub scan-survey :
      (room : ℕ) (parent : Off) (vs : List Fact) (h : Hunt)
      → facts room parent ≡ ok vs
      → scan ops unit f regs pc ptr room parent h ≡ ok (survey ptr vs h)
  unfolding facts scan survey Surveys
  scan-survey zero parent vs h e = let nothing : vs ≡ [] = cc in rw nothing refl
  scan-survey (suc room) parent vs h e =
      scan_children-survey (scan ops unit f regs pc ptr room) (facts room) (scan-survey room)
        (child_offsets unit parent) vs h e
