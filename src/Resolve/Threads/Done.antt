-- ===== src/Resolve/Threads/Done.antt =====
-- resolve.rs: where the walk finds a type for every call and `classify` takes it, no thread panics.
use bilbo.Base.{
  ℕ, ◌<◌, ◌≡◌, ◌≢◌, refl, sym, ◌∙◌, inl, inr, Bool, true, false, Option, none, some, ◌==◌, arith,
  Bool-cases, Option-cases, Outcome, ok,
}
use bilbo.Dwarf.Index.{Site}
use bilbo.Resolve.{Resolved, find_l1, find_l2, Process, type_key, classified}
use bilbo.Resolve.Threads.{
  Call, Pc, start, hit, miss, keyed, making, stored, done, panicked, Shared, locked, look_up,
  answer, walk, enter_l2, make, move, on_ok, insert1, System, Step, pick, Reach, here, later, init,
}
use bilbo.Resolve.Threads.Moves.{inj}
use bilbo.Resolve.Threads.Safe.{Inv, init-Inv, Step-Inv}
use bilbo.Resolve.Threads.Guards.{Fact}
use bilbo.Resolve.Threads.Progress.{rank, Reach-ends}

-- The walk finds a type, and `classify` takes it.
pub record Works {ℓ} (E : Type ℓ) (p : Process) (c : Call) : Type ℓ where
  pub key : Site
  pub finds : type_key p c.caller c.ptr ≡ ok key
  pub made : Resolved E
  pub takes : classified p key ≡ ok made

-- A thread on its way: nothing is poisoned, and its key is that of the walk.
abbrev Place {ℓ} : {E : Type ℓ} → Process → Call → Pc E → Type 0
Place p c (keyed tk) = type_key p c.caller c.ptr ≡ ok tk
Place p c (making tk) = type_key p c.caller c.ptr ≡ ok tk
Place p c panicked = ⊥
Place p c _ = Unit

record Clean {ℓ} {E : Type ℓ} (m : Shared E) : Type 0 where
  clean1 : m.poison1 ≡ false
  clean2 : m.poison2 ≡ false

ok_inj {ℓ} : {A : Type ℓ} {a b : A} → ok a ≡ ok b → a ≡ b
ok_inj e = cc

module _ {ℓ} {E : Type ℓ} (p : Process) (i : ℕ) (c : Call) (works : Works E p c) (m : Shared E)
    (clean : Clean m) where
  -- After a move.
  abbrev Well : Shared E × Pc E → Type 0
  Well x = Clean x.0 × Place p c x.1

  on_ok-Well {κ} :
      {A : Type κ} (o : Outcome A) (a : A) (next : A → Shared E × Pc E) (last : Shared E × Pc E)
      → o ≡ ok a
      → Well (next a)
      → Well (on_ok o next last)
  on_ok-Well o a next last e w = rw (e, on_ok) w

  locked-Well :
      (o : Option ℕ) (b : Bool) (v u x : Shared E × Pc E)
      → b ≡ false
      → Well u
      → locked o b v u ≡ some x
      → Well x
  locked-Well (some j) b v u x h w e = absurd (cc)
  locked-Well none true v u x h w e = absurd (cc)
  locked-Well none false v u x h w e = rw (← inj e) w

  look_up-Well : Well (look_up p i c m)
  unfolding look_up
  look_up-Well = elim (Option-cases (find_l1 c.site m.l1)) [
    | inl e ↦ rw (e, look_up) (clean, tt)
    | inr (tk, e) ↦ rw (e, look_up) (record { clean1 = clean.clean1; clean2 = clean.clean2 }, tt)
  ]

  answer-Well : (tk : Site) (r : Resolved E) → find_l2 tk m.l2 ≡ some r → Well (answer p tk m)
  unfolding answer
  answer-Well tk r e = rw (e, answer) (record { clean1 = clean.clean1; clean2 = clean.clean2 }, tt)

  enter_l2-Well : (tk : Site) → type_key p c.caller c.ptr ≡ ok tk → Well (enter_l2 p i tk m)
  unfolding enter_l2
  enter_l2-Well tk key = elim (Option-cases (find_l2 tk m.l2)) [
    | inl e ↦ rw (e, enter_l2) (record { clean1 = clean.clean1; clean2 = clean.clean2 }, key)
    | inr (r, e) ↦ rw (e, enter_l2) (clean, tt)
  ]

  walk-Well : Well (walk p c m)
  unfolding walk
  walk-Well = on_ok-Well (type_key p c.caller c.ptr) works.key _ _ works.finds (clean, works.finds)

  make-Well : (tk : Site) → type_key p c.caller c.ptr ≡ ok tk → Well (make p tk m)
  unfolding make
  make-Well tk key =
      let same_key : works.key ≡ tk = ok_inj (sym works.finds ∙ key) in
      on_ok-Well (classified p tk) works.made _ _ (rw (← same_key) works.takes)
        (record { clean1 = clean.clean1; clean2 = clean.clean2 }, tt)

  move-Well :
      (q : Pc E) (x : Shared E × Pc E) → Fact m i q → Place p c q → move p i c m q ≡ some x → Well x
  unfolding move
  move-Well start x fact place e = locked-Well m.owner1 m.poison1 _ _ x clean.clean1 look_up-Well e
  move-Well (hit tk) x (mine, (r, there)) place e =
      locked-Well m.owner2 m.poison2 _ _ x clean.clean2 (answer-Well tk r there) e
  move-Well miss x fact place e = rw (← inj e) walk-Well
  move-Well (keyed tk) x fact place e =
      locked-Well m.owner2 m.poison2 _ _ x clean.clean2 (enter_l2-Well tk place) e
  move-Well (making tk) x fact place e = rw (← inj e) (make-Well tk place)
  move-Well (stored tk r) x fact place e =
      locked-Well m.owner1 m.poison1 (m, panicked) (insert1 c.site tk m, done tk r) x clean.clean1
        (record { clean1 = clean.clean1; clean2 = clean.clean2 }, tt) e
  move-Well (done tk r) x fact place e = absurd (cc)
  move-Well panicked x fact place e = absurd (cc)

rank-done {ℓ} :
    {E : Type ℓ} (p : Process) (c : Call) (q : Pc E)
    → Place p c q
    → rank q ≡ 0
    → (tk : Site) × ((r : Resolved E) × (q ≡ done tk r))
rank-done p c (done tk r) place h = (tk, (r, refl))
rank-done p c panicked place h = absurd place
rank-done p c start place h = absurd (omega arith)
rank-done p c miss place h = absurd (omega arith)
rank-done p c (keyed tk) place h = absurd (omega arith)
rank-done p c (making tk) place h = absurd (omega arith)
rank-done p c (hit tk) place h = absurd (omega arith)
rank-done p c (stored tk r) place h = absurd (omega arith)

module _ {ℓ} {E : Type ℓ} (p : Process) (n : ℕ) (calls : ℕ → Call)
    (works : (i : ℕ) → Works E p (calls i)) where
  no_panic : (c : Call) (q : Pc E) → Place p c q → q ≡ panicked → ⊥
  no_panic c q place e = rw e at place

  Step_well :
      (s t : System E)
      → Inv p n s
      → Clean s.shared × ((i : ℕ) → Place p (calls i) (s.pc i))
      → Step p n calls s t
      → Clean t.shared × ((i : ℕ) → Place p (calls i) (t.pc i))
  Step_well s t inv (clean, places) (pick i m q lt e) =
      let (clean', here_place) =
        move-Well p i (calls i) (works i) s.shared clean (s.pc i) (m, q) (inv.facts i) (places i)
          e in
      (
        clean',
        λ j. elim (Bool-cases (i == j)) [
          | inl same ↦ let ij : i ≡ j = ground arith in rw (same, ← ij) here_place
          | inr other ↦ rw other (places j)
        ],
      )

  Reach-well :
      (s t : System E)
      → Inv p n s
      → Clean s.shared × ((i : ℕ) → Place p (calls i) (s.pc i))
      → Reach p n calls s t
      → Inv p n t × (Clean t.shared × ((i : ℕ) → Place p (calls i) (t.pc i)))
  Reach-well s t inv well here = (inv, well)
  Reach-well s t inv well (later {t = mid} r st) =
      let (inv', well') = Reach-well s mid inv well r in
      (Step-Inv p n calls mid t inv' st, Step_well mid t inv' well' st)

  -- Where the walk finds a type for each call and `classify` takes it, every state that is reached leads
  -- on to one in which each of the `n` threads is done with a type, and no thread ever panics.
  pub Reach-done :
      (s : System E)
      → Reach p n calls init s
      → ((i : ℕ) → s.pc i ≢ panicked)
        × ((t : System E) × Reach p n calls s t
            × ((i : ℕ) → i < n → (tk : Site) × ((r : Resolved E) × (t.pc i ≡ done tk r))))
  Reach-done s r =
      let start_well : Clean {E = E} (init {E = E}).shared
          × ((i : ℕ) → Place p (calls i) ((init {E = E}).pc i)) =
        (record { clean1 = refl; clean2 = refl }, λ i. tt) in
      let (inv, well) = Reach-well init s (init-Inv p n calls) start_well r in
      let ((t, way, ended), less) = Reach-ends p n calls s r in
      let (inv', (clean, places)) = Reach-well s t inv well way in
      (
        (λ i e. no_panic (calls i) (s.pc i) (well.1 i) e),
        (t, way, λ i below. rank-done p (calls i) (t.pc i) (places i) (ended i below)),
      )
