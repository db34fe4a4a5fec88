-- ===== src/Interp/Accepts/Calls.antt =====
-- interp.rs: which calls of `run`'s helpers give a result.
use bilbo.Base.{
  ℕ, zero, suc, ◌+◌, ◌^◌, ◌≡◌, refl, ◌∙◌, inl, inr, Bool, true, false, ◌&&◌, ◌||◌, Option, none,
  some, [], ◌∷◌, arith, leb, ◌==◌, length, Bool-cases, and-both, Outcome, ok, panic, fault,
  out_of_fuel, ◌>>=◌,
}
use bilbo.Json.Value.{Text}
use bilbo.Machine.{Machine, is_doubling, layout, alloc}
use bilbo.Interp.{Env, at_least_one, write_le, write_discr, alloc_copy, box_alloc}
use bilbo.Interp.Accepts.{all_ok, is_ok, Roomy, can_alloc, can_copy, accepts_discr}

pub is_ok-result {ℓ} : {A : Type ℓ} (o : Outcome A) → is_ok o ≡ true → (a : A) × (o ≡ ok a)
is_ok-result (ok a) h = (a, refl)
is_ok-result panic h = absurd (cc)
is_ok-result fault h = absurd (cc)
is_ok-result out_of_fuel h = absurd (cc)

pub is_ok->>= {ℓ κ} :
    {S : Type ℓ} {T : Type κ} (o : Outcome S) (next : S → Outcome T) (test : S → Bool)
    → ((s : S) → is_ok (next s) ≡ test s)
    → is_ok (o >>= next) ≡ all_ok o test
is_ok->>= (ok s) next test h = h s
is_ok->>= panic next test h = refl
is_ok->>= fault next test h = refl
is_ok->>= out_of_fuel next test h = refl

-- Where what follows does not depend on the result.
pub is_ok-both {ℓ κ} :
    {S : Type ℓ} {T : Type κ} (o : Outcome S) (next : S → Outcome T) (a b : Bool)
    → is_ok o ≡ a
    → ((s : S) → is_ok (next s) ≡ b)
    → is_ok (o >>= next) ≡ (a && b)
is_ok-both (ok s) next a b e h = rw (← e) (h s)
is_ok-both panic next a b e h = rw (← e) refl
is_ok-both fault next a b e h = rw (← e) refl
is_ok-both out_of_fuel next a b e h = rw (← e) refl

and_true : (a : Bool) → (a && true) ≡ a
and_true true = refl
and_true false = refl

-- Likewise where what follows always has a result.
pub is_ok-then {ℓ κ} :
    {S : Type ℓ} {T : Type κ} (o : Outcome S) (next : S → Outcome T) (a : Bool)
    → is_ok o ≡ a
    → ((s : S) → is_ok (next s) ≡ true)
    → is_ok (o >>= next) ≡ a
is_ok-then o next a e h = is_ok-both o next a true e h ∙ and_true a

pub write_le-is_ok : (n dst v : ℕ) (m : Machine) → is_ok (write_le n dst v m) ≡ leb n 16
unfolding write_le
write_le-is_ok n dst v m = elim (Bool-cases (leb n 16)) [ inl e ↦ rw e refl | inr e ↦ rw e refl ]

pub write_discr-is_ok :
    (off w dst : ℕ) (d : Option ℕ) (m : Machine)
    → is_ok (write_discr off w dst d m) ≡ accepts_discr w d
unfolding write_discr
write_discr-is_ok off w dst none m = refl
write_discr-is_ok off w dst (some d) m = write_le-is_ok w (dst + off) d m

module _ (env : Env) (roomy : Roomy env.std) where
  pub alloc-is_ok :
      (size align : ℕ) (m : Machine) → is_ok (alloc env.std size align m) ≡ can_alloc size align
  unfolding alloc can_alloc layout
  alloc-is_ok zero align m =
      elim (Bool-cases (is_doubling 63 1 align && leb (0 + align) (2 ^ 63))) [
        | inl fine ↦ rw fine refl
        | inr bad ↦ rw bad refl
      ]
  alloc-is_ok (suc n) align m =
      elim (Bool-cases (is_doubling 63 1 align && leb (suc n + align) (2 ^ 63))) [
        | inl fine ↦
            let (power, room) = and-both (is_doubling 63 1 align) _ fine in
            let there = roomy m.live (suc n) align power in
            let some_place : (env.std.place m.live (suc n) align == 0) ≡ false = ground arith in
            let sized : (suc n == 0) ≡ false = ground arith in
            rw fine (rw sized (rw some_place refl))
        | inr bad ↦ rw bad refl
      ]

  pub alloc_copy-is_ok : (s : Text) (m : Machine) → is_ok (alloc_copy env s 1 m) ≡ can_copy s
  unfolding alloc_copy can_copy
  alloc_copy-is_ok [] m = refl
  alloc_copy-is_ok (c ∷ s) m =
      is_ok-then (alloc env.std (length (c ∷ s)) 1 m) _ _ (alloc-is_ok (length (c ∷ s)) 1 m)
        (λ r. refl)

  pub box_alloc-is_ok :
      (size align : ℕ) (m : Machine)
      → is_ok (box_alloc env size align m) ≡ (size == 0 || can_alloc size (at_least_one align))
  unfolding box_alloc
  box_alloc-is_ok size align m = elim (Bool-cases (size == 0)) [
    | inl empty ↦ rw empty refl
    | inr sized ↦ rw sized (alloc-is_ok size (at_least_one align) m)
  ]
