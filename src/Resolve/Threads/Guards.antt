-- ===== src/Resolve/Threads/Guards.antt =====
-- resolve.rs: what holds of the caches and the threads at every moment, and what one move does to it.
use bilbo.Base.{
  ℕ, ◌≡◌, ◌≢◌, refl, ◌⊎◌, inl, inr, Bool, true, false, Option, none, some, Option-cases, ok,
}
use bilbo.Dwarf.Index.{Site}
use bilbo.Resolve.{Resolved, find_l1, find_l2, Process, classified}
use bilbo.Resolve.Hits.{bare}
use bilbo.Resolve.Threads.{
  Call, Pc, start, hit, miss, keyed, making, stored, done, panicked, Shared, locked, look_up,
  answer,
}

pub locked-cases {ℓ} :
    {A : Type ℓ} (o : Option ℕ) (b : Bool) (v u x : A)
    → locked o b v u ≡ some x
    → (o ≡ none) × (((b ≡ true) × (v ≡ x)) ⊎ ((b ≡ false) × (u ≡ x)))
locked-cases (some i) b v u x e = absurd (cc)
locked-cases none true v u x e = (refl, inl (refl, cc))
locked-cases none false v u x e = (refl, inr (refl, cc))

pub pair_inj {ℓ κ} : {A : Type ℓ} {B : Type κ} {r r' : A × B} → r ≡ r' → (r.0 ≡ r'.0) × (r.1 ≡ r'.1)
pair_inj e = (cc, cc)

module _ {ℓ} {E : Type ℓ} where
  -- What the place of thread `i` says about the shared state.
  abbrev pub Fact : Shared E → ℕ → Pc E → Type ℓ
  Fact m i (hit tk) = (m.owner1 ≡ some i) × ((r : Resolved E) × (find_l2 tk m.l2 ≡ some r))
  Fact m i (making tk) = (m.owner2 ≡ some i) × (find_l2 tk m.l2 ≡ none)
  Fact m i (stored tk r) = find_l2 tk m.l2 ≡ some r
  Fact m i (done tk r) = find_l2 tk m.l2 ≡ some r
  Fact m i _ = Unit

  -- The caches: a call site that is known has its type present, and a type that is present is what
  -- `classify` makes of its key.
  pub record Sound (p : Process) (m : Shared E) : Type ℓ where
    pub present :
        (pc : ℕ) (tk : Site)
        → find_l1 pc m.l1 ≡ some tk
        → (r : Resolved E) × (find_l2 tk m.l2 ≡ some r)
    pub made :
        (tk : Site) (r : Resolved E) → find_l2 tk m.l2 ≡ some r → classified p tk ≡ ok (bare r)

  -- A move of thread `i` that ends at `q`, as the others see it.
  pub record Fair (p : Process) (i : ℕ) (m m' : Shared E) (q : Pc E) : Type ℓ where
    pub sound : Sound p m'
    pub own : Fact m' i q
    pub grows : (k : Site) (r : Resolved E) → find_l2 k m.l2 ≡ some r → find_l2 k m'.l2 ≡ some r
    pub keep1 : (j : ℕ) → j ≢ i → m.owner1 ≡ some j → m'.owner1 ≡ some j
    pub keep2 : (j : ℕ) → j ≢ i → m.owner2 ≡ some j → (m'.owner2 ≡ some j) × (m'.l2 ≡ m.l2)
    pub back1 :
        (j : ℕ)
        → m'.owner1 ≡ some j
        → ((tk : Site) × (j ≡ i) × (q ≡ hit tk)) ⊎ ((j ≢ i) × (m.owner1 ≡ some j))
    pub back2 :
        (j : ℕ)
        → m'.owner2 ≡ some j
        → ((tk : Site) × (j ≡ i) × (q ≡ making tk)) ⊎ ((j ≢ i) × (m.owner2 ≡ some j))

  pub Fact-keeps :
      (p : Process) (i j : ℕ) (m m' : Shared E) (q q' : Pc E)
      → Fair p i m m' q'
      → j ≢ i
      → Fact m j q
      → Fact m' j q
  Fact-keeps p i j m m' (hit tk) q' fair other (own, (r, there)) =
      (fair.keep1 j other own, (r, fair.grows tk r there))
  Fact-keeps p i j m m' (making tk) q' fair other (own, absent) =
      let (still, same_l2) = fair.keep2 j other own in (still, rw same_l2 absent)
  Fact-keeps p i j m m' (stored tk r) q' fair other there = fair.grows tk r there
  Fact-keeps p i j m m' (done tk r) q' fair other there = fair.grows tk r there
  Fact-keeps p i j m m' start q' fair other f = tt
  Fact-keeps p i j m m' miss q' fair other f = tt
  Fact-keeps p i j m m' (keyed tk) q' fair other f = tt
  Fact-keeps p i j m m' panicked q' fair other f = tt

  -- A move that leaves the mutexes and `L2` alone.
  pub quiet :
      (p : Process) (i : ℕ) (m : Shared E) (q : Pc E)
      → Sound p m
      → Fact m i q
      → ((j : ℕ) → m.owner1 ≡ some j → j ≢ i)
      → ((j : ℕ) → m.owner2 ≡ some j → j ≢ i)
      → Fair p i m m q
  quiet p i m q sound fact not1 not2 = record {
    sound = sound;
    own = fact;
    grows = λ k r h. h;
    keep1 = λ j o h. h;
    keep2 = λ j o h. (h, refl);
    back1 = λ j h. inr (not1 j h, h);
    back2 = λ j h. inr (not2 j h, h);
  }

  module _ (p : Process) (i : ℕ) (c : Call) (m : Shared E) (sound : Sound p m) where
    pub look_up-Fair :
        (m' : Shared E) (q' : Pc E)
        → m.owner1 ≡ none
        → ((j : ℕ) → m.owner2 ≡ some j → j ≢ i)
        → look_up p i c m ≡ (m', q')
        → Fair p i m m' q'
    unfolding look_up
    look_up-Fair m' q' free not2 e = elim (Option-cases (find_l1 c.site m.l1)) [
      | inl absent ↦
          let (em, eq) = pair_inj {r' = (m', q')} (rw (absent, look_up) at e) in
          rw (← em, ← eq) (quiet p i m miss sound tt (λ j h. absurd (cc)) not2)
      | inr (tk, known) ↦
          let (em, eq) = pair_inj {r' = (m', q')} (rw (known, look_up) at e) in
          rw (← em, ← eq)
            (record {
              sound = record { present = sound.present; made = sound.made };
              own = (refl, sound.present c.site tk known);
              grows = λ k r h. h;
              keep1 = λ j o h. absurd (cc);
              keep2 = λ j o h. (h, refl);
              back1 = λ j h. inl (tk, cc, refl);
              back2 = λ j h. inr (not2 j h, h);
            })
    ]

    pub answer-Fair :
        (tk : Site) (r : Resolved E) (m' : Shared E) (q' : Pc E)
        → m.owner1 ≡ some i
        → find_l2 tk m.l2 ≡ some r
        → m.owner2 ≡ none
        → answer p tk m ≡ (m', q')
        → Fair p i m m' q' × (q' ≡ done tk r)
    unfolding answer
    answer-Fair tk r m' q' mine there free e =
        let (em, eq) = pair_inj {r' = (m', q')} (rw (there, answer) at e) in
        rw (← em, ← eq)
          (
            record {
              sound = record { present = sound.present; made = sound.made };
              own = there;
              grows = λ k x h. h;
              keep1 = λ j o h. absurd (o (cc));
              keep2 = λ j o h. absurd (cc);
              back1 = λ j h. absurd (cc);
              back2 = λ j h. absurd (cc);
            },
            refl,
          )
