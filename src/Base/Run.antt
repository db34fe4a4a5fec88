-- ===== src/Base/Run.antt =====
-- What a run of the program comes to.
use mathlib.Core.Path.{◌≡◌, refl}
use mathlib.Core.Option.{Option, none, some}

-- `panic` is a Rust panic; `fault` is undefined behaviour of unsafe code, such as a load outside
-- the input; `out_of_fuel` has no counterpart in the program.
pub data Outcome {ℓ} (A : Type ℓ) : Type ℓ where
  ok : A → Outcome A
  panic fault out_of_fuel : Outcome A

infixl 5 ◌>>=◌ ◌>>◌
abbrev pub ◌>>=◌ {ℓ κ} : {S : Type ℓ} {T : Type κ} → Outcome S → (S → Outcome T) → Outcome T
ok s >>= next = next s
panic >>= next = panic
fault >>= next = fault
out_of_fuel >>= next = out_of_fuel

-- `Option::expect` and `Option::unwrap`.
abbrev pub expect {ℓ} : {A : Type ℓ} → Option A → Outcome A
expect none = panic
expect (some a) = ok a

-- A check, and what follows it.
abbrev pub ◌>>◌ {ℓ} : {T : Type ℓ} → Outcome (Unit {0}) → Outcome T → Outcome T
check >> rest = check >>= λ _. rest

-- A run that ends well has done its first step well.
pub >>=-eq-ok {ℓ κ} :
    {S : Type ℓ} {T : Type κ} (run : Outcome S) (next : S → Outcome T) {t : T}
    → (run >>= next) ≡ ok t
    → (s : S) × (run ≡ ok s) × (next s ≡ ok t)
>>=-eq-ok (ok s) next e = (s, refl, e)
>>=-eq-ok panic next e = cc
>>=-eq-ok fault next e = cc
>>=-eq-ok out_of_fuel next e = cc

-- A run that does not use up its fuel.
abbrev pub Ends {ℓ} : {A : Type ℓ} → Outcome A → Type 0
Ends (ok a) = Unit
Ends panic = Unit
Ends fault = Unit
Ends out_of_fuel = ⊥

pub >>=-Ends {ℓ κ} :
    {S : Type ℓ} {T : Type κ} (run : Outcome S) (next : S → Outcome T)
    → Ends run
    → ((s : S) → Ends (next s))
    → Ends (run >>= next)
>>=-Ends (ok s) next h k = k s
>>=-Ends panic next h k = tt
>>=-Ends fault next h k = tt
>>=-Ends out_of_fuel next h k = h

pub expect-Ends {ℓ} : {A : Type ℓ} (o : Option A) → Ends (expect o)
expect-Ends none = tt
expect-Ends (some a) = tt

-- `Option::unwrap_or`.
abbrev pub unwrap_or {ℓ} : {A : Type ℓ} → A → Option A → A
unwrap_or d none = d
unwrap_or d (some a) = a

pub expect-some {ℓ} : {A : Type ℓ} (o : Option A) (a : A) → expect o ≡ ok a → o ≡ some a
expect-some none a h = cc
expect-some (some b) a h = cc
