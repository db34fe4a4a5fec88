-- ===== src/Resolve/Threads/Safe.antt =====
-- resolve.rs: what holds in every state that any order of the threads' moves leads to.
use bilbo.Base.{
  ℕ, ◌≤◌, ◌≡◌, ◌≢◌, refl, inl, inr, false, none, some, ◌==◌, ==_refl, arith, Bool-cases, ok,
}
use bilbo.Dwarf.Index.{Site}
use bilbo.Resolve.{Resolved, find_l1, find_l2, Process, classified}
use bilbo.Resolve.Hits.{bare}
use bilbo.Resolve.Threads.{
  Call, Pc, Shared, start, hit, miss, keyed, making, stored, done, panicked, System, set, Step,
  pick, Reach, here, later, init,
}
use bilbo.Resolve.Threads.Guards.{Fact, Sound, Fact-keeps}
use bilbo.Resolve.Threads.Moves.{Owns, move-Fair}

pub record Inv {ℓ} {E : Type ℓ} (p : Process) (n : ℕ) (s : System E) : Type ℓ where
  pub sound : Sound p s.shared
  pub facts : (i : ℕ) → Fact s.shared i (s.pc i)
  pub held1 : (i : ℕ) → s.shared.owner1 ≡ some i → (tk : Site) × (s.pc i ≡ hit tk)
  pub held2 : (i : ℕ) → s.shared.owner2 ≡ some i → (tk : Site) × (s.pc i ≡ making tk)
  pub outside : (i : ℕ) → n ≤ i → s.pc i ≡ start

pub set_same {ℓ} : {A : Type ℓ} (f : ℕ → A) (i : ℕ) (a : A) → set f i a i ≡ a
set_same f i a = rw (==_refl i) refl

pub set_other {ℓ} :
    {A : Type ℓ} (f : ℕ → A) (i j : ℕ) (a : A) → (i == j) ≡ false → set f i a j ≡ f j
set_other f i j a h = rw h refl

-- What holds for thread `i` where it stands: with `L1`, it owns the mutex and finds the type of its call site
-- present; with `L2`, it owns the mutex and its type is absent; with a type, that is what `classify` makes
-- of its key and what the cache holds.
abbrev pub SafeAt {ℓ} : {E : Type ℓ} → Process → Shared E → ℕ → Pc E → Type ℓ
SafeAt {E} p m i (hit tk) = (m.owner1 ≡ some i) × ((r : Resolved E) × (find_l2 tk m.l2 ≡ some r))
SafeAt p m i (making tk) = (m.owner2 ≡ some i) × (find_l2 tk m.l2 ≡ none)
SafeAt p m i (stored tk r) = (classified p tk ≡ ok (bare r)) × (find_l2 tk m.l2 ≡ some r)
SafeAt p m i (done tk r) = (classified p tk ≡ ok (bare r)) × (find_l2 tk m.l2 ≡ some r)
SafeAt p m i _ = Unit

abbrev pub Safe {ℓ} : {E : Type ℓ} → Process → System E → ℕ → Type ℓ
Safe p s i = SafeAt p s.shared i (s.pc i)

Fact-SafeAt {ℓ} :
    {E : Type ℓ} (p : Process) (m : Shared E) (i : ℕ) (q : Pc E)
    → Sound p m
    → Fact m i q
    → SafeAt p m i q
Fact-SafeAt p m i (hit tk) sound fact = fact
Fact-SafeAt p m i (making tk) sound fact = fact
Fact-SafeAt p m i (stored tk r) sound there = (sound.made tk r there, there)
Fact-SafeAt p m i (done tk r) sound there = (sound.made tk r there, there)
Fact-SafeAt p m i start sound fact = tt
Fact-SafeAt p m i miss sound fact = tt
Fact-SafeAt p m i (keyed tk) sound fact = tt
Fact-SafeAt p m i panicked sound fact = tt

module _ {ℓ} {E : Type ℓ} (p : Process) (n : ℕ) (calls : ℕ → Call) where
  pub init-Inv : Inv {E = E} p n init
  unfolding find_l1 find_l2
  init-Inv = record {
    sound = record { present = λ pc tk h. absurd (cc); made = λ tk r h. absurd (cc) };
    facts = λ i. tt;
    held1 = λ i h. absurd (cc);
    held2 = λ i h. absurd (cc);
    outside = λ i h. refl;
  }

  pub Step-Inv : (s t : System E) → Inv p n s → Step p n calls s t → Inv p n t
  Step-Inv s t inv (pick i m q lt e) =
      let owns : Owns p i (calls i) s.shared inv.sound (s.pc i) = record {
        owns1 = inv.held1 i;
        owns2 = inv.held2 i;
      } in
      let fair = move-Fair p i (calls i) s.shared inv.sound m (s.pc i) q (inv.facts i) owns e in
      record {
        sound = fair.sound;
        facts = λ j. elim (Bool-cases (i == j)) [
          | inl same ↦ let ij : i ≡ j = ground arith in rw (same, ← ij) fair.own
          | inr other ↦
              let ji : j ≢ i = λ e'. absurd (ground arith) in
              rw other (Fact-keeps p i j s.shared m (s.pc j) q fair ji (inv.facts j))
        ];
        held1 = λ j h. elim (fair.back1 j h) [
          | inl (tk, ji, at_hit) ↦ (tk, rw ji (rw (==_refl i) at_hit))
          | inr (ji, old) ↦
              let other : (i == j) ≡ false = ground arith in
              let (tk, at_hit) = inv.held1 j old in (tk, rw other at_hit)
        ];
        held2 = λ j h. elim (fair.back2 j h) [
          | inl (tk, ji, at_make) ↦ (tk, rw ji (rw (==_refl i) at_make))
          | inr (ji, old) ↦
              let other : (i == j) ≡ false = ground arith in
              let (tk, at_make) = inv.held2 j old in (tk, rw other at_make)
        ];
        outside = λ j h. let other : (i == j) ≡ false = ground arith in rw other (inv.outside j h);
      }

  pub Reach-Inv : (s : System E) → Reach p n calls init s → Inv p n s
  Reach-Inv s here = init-Inv
  Reach-Inv s (later {t} r st) = Step-Inv t s (Reach-Inv t r) st

  -- Whatever the order of the moves: a thread that has found its call site owns `L1` and finds the type
  -- present, one that classifies owns `L2` and its type is absent, and one that has a type has what
  -- `classify` makes of its key and what the cache holds. A mutex has one owner.
  pub Reach-Safe : (s : System E) (i : ℕ) → Reach p n calls init s → Safe p s i
  Reach-Safe s i r =
      let inv = Reach-Inv s r in Fact-SafeAt p s.shared i (s.pc i) inv.sound (inv.facts i)
