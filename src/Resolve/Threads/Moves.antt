-- ===== src/Resolve/Threads/Moves.antt =====
-- resolve.rs: each move of a thread keeps what holds of the caches and of the others.
use bilbo.Base.{
  ℕ, ◌≡◌, ◌≢◌, refl, ◌∙◌, ◌⊎◌, inl, inr, true, Option, none, some, ◌∷◌, Option-cases, Outcome, ok,
  panic, fault, out_of_fuel,
}
use bilbo.Dwarf.Index.{Site}
use bilbo.Resolve.{Resolved, find_l2, Process, type_key, classified}
use bilbo.Resolve.Hits.{find_l1-cons, find_l2-front, find_l2-miss, find_l2-cons, classified-bare}
use bilbo.Resolve.Threads.{
  Call, Pc, start, hit, miss, keyed, making, stored, done, panicked, Shared, on_ok, unlock1,
  unlock2, insert1, walk, enter_l2, make, move,
}
use bilbo.Resolve.Threads.Guards.{
  Fact, Sound, Fair, quiet, look_up-Fair, answer-Fair, locked-cases, pair_inj,
}

pub on_ok-cases {ℓ κ} :
    {A : Type ℓ} {B : Type κ} (o : Outcome A) (next : A → B) (last b : B)
    → on_ok o next last ≡ b
    → ((a : A) × (o ≡ ok a) × (next a ≡ b)) ⊎ (last ≡ b)
on_ok-cases (ok a) next last b e = inl (a, refl, e)
on_ok-cases panic next last b e = inr e
on_ok-cases fault next last b e = inr e
on_ok-cases out_of_fuel next last b e = inr e

pub inj {ℓ} : {A : Type ℓ} {a b : A} → some a ≡ some b → a ≡ b
inj e = cc

module _ {ℓ} {E : Type ℓ} (p : Process) (i : ℕ) (c : Call) (m : Shared E) (sound : Sound p m) where
  enter_l2-Fair :
      (tk : Site) (m' : Shared E) (q' : Pc E)
      → m.owner2 ≡ none
      → ((j : ℕ) → m.owner1 ≡ some j → j ≢ i)
      → enter_l2 p i tk m ≡ (m', q')
      → Fair p i m m' q'
  unfolding enter_l2
  enter_l2-Fair tk m' q' free not1 e = elim (Option-cases (find_l2 tk m.l2)) [
    | inr (r, there) ↦
        let (em, eq) = pair_inj {r' = (m', q')} (rw (there, enter_l2) at e) in
        rw (← em, ← eq) (quiet p i m (stored tk r) sound there not1 (λ j h. absurd (cc)))
    | inl absent ↦
        let (em, eq) = pair_inj {r' = (m', q')} (rw (absent, enter_l2) at e) in
        rw (← em, ← eq)
          (record {
            sound = record { present = sound.present; made = sound.made };
            own = (refl, absent);
            grows = λ k r h. h;
            keep1 = λ j o h. h;
            keep2 = λ j o h. absurd (cc);
            back1 = λ j h. inr (not1 j h, h);
            back2 = λ j h. inl (tk, cc, refl);
          })
  ]

  -- `classify` ends without a panic: the new entry hides no other.
  make_ok-Fair :
      (tk : Site) (r : Resolved E)
      → classified p tk ≡ ok r
      → m.owner2 ≡ some i
      → find_l2 tk m.l2 ≡ none
      → ((j : ℕ) → m.owner1 ≡ some j → j ≢ i)
      → Fair p i m (unlock2 m.poison2 ((tk, r) ∷ m.l2) m) (stored tk r)
  make_ok-Fair tk r good mine absent not1 =
      let grow : (k : Site) (q : Resolved E)
          → find_l2 k m.l2 ≡ some q
          → find_l2 k ((tk, r) ∷ m.l2) ≡ some q =
        λ k q h. find_l2-miss tk k r q m.l2 absent h in
      record {
        sound = record {
          present = λ pc k known. let (q, there) = sound.present pc k known in (q, grow k q there);
          made = λ k q there. elim (find_l2-cons tk k r q m.l2 there) [
            | inr old ↦ sound.made k q old
            | inl (same_key, same_entry) ↦
                rw (← same_key) (rw (← same_entry) (rw (classified-bare p tk r good) good))
          ];
        };
        own = find_l2-front tk r m.l2;
        grows = grow;
        keep1 = λ j o h. h;
        keep2 = λ j o h. absurd (o (cc));
        back1 = λ j h. inr (not1 j h, h);
        back2 = λ j h. absurd (cc);
      }

  -- A thread panics, and what it has is poisoned.
  make_panic-Fair :
      (m.owner2 ≡ some i)
      → ((j : ℕ) → m.owner1 ≡ some j → j ≢ i)
      → Fair p i m (unlock2 true m.l2 m) panicked
  make_panic-Fair mine not1 = record {
    sound = record { present = sound.present; made = sound.made };
    own = tt;
    grows = λ k r h. h;
    keep1 = λ j o h. h;
    keep2 = λ j o h. absurd (o (cc));
    back1 = λ j h. inr (not1 j h, h);
    back2 = λ j h. absurd (cc);
  }

  hit_panic-Fair : (m.owner1 ≡ some i) → m.owner2 ≡ none → Fair p i m (unlock1 true m) panicked
  hit_panic-Fair mine free = record {
    sound = record { present = sound.present; made = sound.made };
    own = tt;
    grows = λ k r h. h;
    keep1 = λ j o h. absurd (o (cc));
    keep2 = λ j o h. absurd (cc);
    back1 = λ j h. absurd (cc);
    back2 = λ j h. absurd (cc);
  }

  insert1-Fair :
      (tk : Site) (r : Resolved E)
      → m.owner1 ≡ none
      → find_l2 tk m.l2 ≡ some r
      → ((j : ℕ) → m.owner2 ≡ some j → j ≢ i)
      → Fair p i m (insert1 c.site tk m) (done tk r)
  insert1-Fair tk r free there not2 = record {
    sound = record {
      present = λ pc k known. elim (find_l1-cons c.site pc tk k m.l1 known) [
        | inl same_key ↦ (r, rw (← same_key) there)
        | inr old ↦ sound.present pc k old
      ];
      made = sound.made;
    };
    own = there;
    grows = λ k q h. h;
    keep1 = λ j o h. absurd (cc);
    keep2 = λ j o h. (h, refl);
    back1 = λ j h. absurd (cc);
    back2 = λ j h. inr (not2 j h, h);
  }

  -- Thread `i` has a mutex only where its place says so.
  pub record Owns (q : Pc E) : Type ℓ where
    pub owns1 : m.owner1 ≡ some i → (tk : Site) × (q ≡ hit tk)
    pub owns2 : m.owner2 ≡ some i → (tk : Site) × (q ≡ making tk)

  mine_not : {o : Option ℕ} (j : ℕ) → (o ≡ some i → ⊥) → o ≡ some j → j ≢ i
  mine_not j free h e = free (h ∙ rw e refl)

  walk-Fair :
      (m' : Shared E) (q' : Pc E)
      → ((j : ℕ) → m.owner1 ≡ some j → j ≢ i)
      → ((j : ℕ) → m.owner2 ≡ some j → j ≢ i)
      → walk p c m ≡ (m', q')
      → Fair p i m m' q'
  unfolding walk
  walk-Fair m' q' not1 not2 e = elim (on_ok-cases (type_key p c.caller c.ptr) _ _ (m', q') e) [
    | inl (tk, found, out) ↦
        let (em, eq) = pair_inj {r' = (m', q')} out in
        rw (← em, ← eq) (quiet p i m (keyed tk) sound tt not1 not2)
    | inr out ↦
        let (em, eq) = pair_inj {r' = (m', q')} out in
        rw (← em, ← eq) (quiet p i m panicked sound tt not1 not2)
  ]

  make-Fair :
      (tk : Site) (m' : Shared E) (q' : Pc E)
      → m.owner2 ≡ some i
      → find_l2 tk m.l2 ≡ none
      → ((j : ℕ) → m.owner1 ≡ some j → j ≢ i)
      → make p tk m ≡ (m', q')
      → Fair p i m m' q'
  unfolding make
  make-Fair tk m' q' mine absent not1 e = elim (on_ok-cases (classified p tk) _ _ (m', q') e) [
    | inl (r, good, out) ↦
        let (em, eq) = pair_inj {r' = (m', q')} out in
        rw (← em, ← eq) (make_ok-Fair tk r good mine absent not1)
    | inr out ↦
        let (em, eq) = pair_inj {r' = (m', q')} out in rw (← em, ← eq) (make_panic-Fair mine not1)
  ]

  -- Any move.
  pub move-Fair :
      (m' : Shared E) (q q' : Pc E)
      → Fact m i q
      → Owns q
      → move p i c m q ≡ some (m', q')
      → Fair p i m m' q'
  unfolding move
  move-Fair m' start q' fact owns e =
      let not2 : (j : ℕ) → m.owner2 ≡ some j → j ≢ i =
        λ j. mine_not j (λ h. absurd (cc (owns.owns2 h).1)) in
      let (free, next) = locked-cases m.owner1 m.poison1 _ _ (m', q') e in
      elim next [
        | inl (bad, out) ↦
            let (em, eq) = pair_inj {r' = (m', q')} out in
            rw (← em, ← eq) (quiet p i m panicked sound tt (λ j h. absurd (cc)) not2)
        | inr (good, out) ↦ look_up-Fair p i c m sound m' q' free not2 out
      ]
  move-Fair m' (hit tk) q' (mine, (r, there)) owns e =
      let (free, next) = locked-cases m.owner2 m.poison2 _ _ (m', q') e in
      elim next [
        | inl (bad, out) ↦
            let (em, eq) = pair_inj {r' = (m', q')} out in
            rw (← em, ← eq) (hit_panic-Fair mine free)
        | inr (good, out) ↦ (answer-Fair p i c m sound tk r m' q' mine there free out).0
      ]
  move-Fair m' miss q' fact owns e =
      let not1 : (j : ℕ) → m.owner1 ≡ some j → j ≢ i =
        λ j. mine_not j (λ h. absurd (cc (owns.owns1 h).1)) in
      let not2 : (j : ℕ) → m.owner2 ≡ some j → j ≢ i =
        λ j. mine_not j (λ h. absurd (cc (owns.owns2 h).1)) in
      walk-Fair m' q' not1 not2 (inj e)
  move-Fair m' (keyed tk) q' fact owns e =
      let not1 : (j : ℕ) → m.owner1 ≡ some j → j ≢ i =
        λ j. mine_not j (λ h. absurd (cc (owns.owns1 h).1)) in
      let (free, next) = locked-cases m.owner2 m.poison2 _ _ (m', q') e in
      elim next [
        | inl (bad, out) ↦
            let (em, eq) = pair_inj {r' = (m', q')} out in
            rw (← em, ← eq) (quiet p i m panicked sound tt not1 (λ j h. absurd (cc)))
        | inr (good, out) ↦ enter_l2-Fair tk m' q' free not1 out
      ]
  move-Fair m' (making tk) q' (mine, absent) owns e =
      let not1 : (j : ℕ) → m.owner1 ≡ some j → j ≢ i =
        λ j. mine_not j (λ h. absurd (cc (owns.owns1 h).1)) in
      make-Fair tk m' q' mine absent not1 (inj e)
  move-Fair m' (stored tk r) q' there owns e =
      let not2 : (j : ℕ) → m.owner2 ≡ some j → j ≢ i =
        λ j. mine_not j (λ h. absurd (cc (owns.owns2 h).1)) in
      let (free, next) = locked-cases m.owner1 m.poison1 _ _ (m', q') e in
      elim next [
        | inl (bad, out) ↦
            let (em, eq) = pair_inj {r' = (m', q')} out in
            rw (← em, ← eq) (quiet p i m panicked sound tt (λ j h. absurd (cc)) not2)
        | inr (good, out) ↦
            let (em, eq) = pair_inj {r' = (m', q')} out in
            rw (← em, ← eq) (insert1-Fair tk r free there not2)
      ]
  move-Fair m' (done tk r) q' fact owns e = absurd (cc)
  move-Fair m' panicked q' fact owns e = absurd (cc)
